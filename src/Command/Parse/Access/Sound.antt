-- ===== src/Command/Parse/Access/Sound.antt =====
-- The parsers of block access and authentication on any bytes:
-- no panic, and a command within its ranges that is no longer than the input.
use felica_rs.Prelude.{ℕ, ◌*◌, refl, List, ◌∷◌, ◌++◌, length, length-append, All, arith, ==→eq}
use felica_rs.Prelude.Bytes.{IsByte}
use felica_rs.Prelude.Outcome.Ensures.{
  Ensures, returns, Ensures-bind, Ensures-ensure, Ensures-exact, slice_from-Ensures,
  split_first-Ensures, get_to-Ensures,
}
use felica_rs.Felica.Constants.{max_service_codes, max_rw_service_codes, max_block_count}
use felica_rs.Felica.Payload.Layout.{
  counted_words, counted_codes, counted_blocks, length-words_bytes,
}
use felica_rs.Command.Wire.{fields, is_secure, IsParsed}
use felica_rs.Command.Parse.Fields.Sound.{
  parse_idm-Ensures, no_trailing-Ensures, take_count-Ensures, parse_u16_list_le-Ensures,
  take_u16_list-Ensures, take_service_code_list-Ensures, take_block_list-Ensures, length-codes,
  count_le,
}
use felica_rs.Command.Parse.Access.{
  parse_read_without_encryption, parse_write_without_encryption, parse_authentication1,
  parse_authentication2, parse_authentication1_v2, parse_authentication2_v2,
}

pub parse_read_without_encryption-Ensures :
    (body : List ℕ)
    → All IsByte body
    → Ensures (IsParsed (length body)) (parse_read_without_encryption body)
unfolding parse_read_without_encryption fields is_secure
parse_read_without_encryption-Ensures body h =
    Ensures-bind (parse_idm-Ensures body h) λ (idm, rest) i.
      Ensures-bind (take_service_code_list-Ensures rest max_rw_service_codes _ i.1) λ (cs, rest₁) c.
        Ensures-bind (take_count-Ensures rest₁ 1 max_block_count _ _ c.1) λ (n, rest₂) k.
          Ensures-bind (take_block_list-Ensures rest₂ n k.2) λ (bs, rest₃) q.
            Ensures-bind (no_trailing-Ensures rest₃ _) λ _ e. returns (
              (i.0, c.0, (omega (arith, q.0, k.0), omega (arith, q.0, k.1), q.1)),
              refl,
              omega (
                arith,
                length-append idm (counted_codes cs ++ counted_blocks bs),
                length-append (counted_codes cs) (counted_blocks bs),
                length-codes cs,
                i.0.0,
                i.2,
                c.2,
                k.3,
                q.3,
              ),
            )

pub parse_write_without_encryption-Ensures :
    (body : List ℕ)
    → All IsByte body
    → Ensures (IsParsed (length body)) (parse_write_without_encryption body)
unfolding parse_write_without_encryption fields is_secure
parse_write_without_encryption-Ensures body h =
    Ensures-bind (parse_idm-Ensures body h) λ (idm, rest) i.
      Ensures-bind (take_service_code_list-Ensures rest max_rw_service_codes _ i.1) λ (cs, rest₁) c.
        Ensures-bind (take_count-Ensures rest₁ 1 max_block_count _ _ c.1) λ (n, rest₂) k.
          Ensures-bind (take_block_list-Ensures rest₂ n k.2) λ (bs, rest₃) q. Ensures-exact _ _ λ l.
            returns (
              (
                i.0,
                c.0,
                (omega (arith, q.0, k.0), omega (arith, q.0, k.1), q.1),
                (omega (arith, l, q.0), q.2),
              ),
              refl,
              omega (
                arith,
                length-append idm (counted_codes cs ++ (counted_blocks bs ++ rest₃)),
                length-append (counted_codes cs) (counted_blocks bs ++ rest₃),
                length-append (counted_blocks bs) rest₃,
                length-codes cs,
                i.0.0,
                i.2,
                c.2,
                k.3,
                q.3,
              ),
            )

pub parse_authentication1-Ensures :
    (body : List ℕ)
    → All IsByte body
    → Ensures (IsParsed (length body)) (parse_authentication1 body)
unfolding parse_authentication1 fields is_secure
parse_authentication1-Ensures body h = Ensures-bind (parse_idm-Ensures body h) λ (idm, rest) i.
    Ensures-bind (split_first-Ensures rest _ i.1) λ (n, rest₁) k. Ensures-ensure _ λ t.
      Ensures-bind (parse_u16_list_le-Ensures rest₁ n k.1) λ areas v.
        Ensures-bind (slice_from-Ensures (n * 2) rest₁ k.1 v.2) λ rest₂ r.
          Ensures-bind (split_first-Ensures rest₂ _ r.1) λ (n', rest₃) k'. Ensures-ensure _ λ t'.
            Ensures-bind (parse_u16_list_le-Ensures rest₃ n' k'.1) λ services v'.
              Ensures-bind (slice_from-Ensures (n' * 2) rest₃ k'.1 v'.2) λ rest₄ r'.
                Ensures-bind (get_to-Ensures 8 rest₄ _ r'.1) λ ch g. Ensures-ensure _ λ u. returns (
                  (
                    i.0,
                    (omega arith, count_le n _ _ t v.0, v.1),
                    (omega arith, count_le n' _ _ t' v'.0, v'.1),
                    g,
                  ),
                  refl,
                  omega (
                    arith,
                    length-append idm (counted_words areas ++ (counted_words services ++ ch)),
                    length-append (counted_words areas) (counted_words services ++ ch),
                    length-append (counted_words services) ch,
                    length-words_bytes areas,
                    length-words_bytes services,
                    i.0.0,
                    i.2,
                    k.2,
                    k'.2,
                    r.0,
                    r'.0,
                    v.0,
                    v'.0,
                    g.0,
                    ==→eq _ _ u,
                  ),
                )

pub parse_authentication2-Ensures :
    (body : List ℕ)
    → All IsByte body
    → Ensures (IsParsed (length body)) (parse_authentication2 body)
unfolding parse_authentication2 fields is_secure
parse_authentication2-Ensures body h = Ensures-bind (parse_idm-Ensures body h) λ (idm, rest) i.
    Ensures-exact _ _
      λ l. returns ((i.0, (l, i.1)), refl, omega (arith, length-append idm rest, i.0.0, i.2))

pub parse_authentication1_v2-Ensures :
    (body : List ℕ)
    → All IsByte body
    → Ensures (IsParsed (length body)) (parse_authentication1_v2 body)
unfolding parse_authentication1_v2 fields is_secure
parse_authentication1_v2-Ensures body h = Ensures-bind (parse_idm-Ensures body h) λ (idm, rest) i.
    Ensures-bind (split_first-Ensures rest _ i.1) λ (op, rest₁) k.
      Ensures-bind (take_u16_list-Ensures rest₁ 1 max_service_codes _ _ k.1) λ (vs, rest₂) c.
        Ensures-exact _ _ λ l. returns (
          (i.0, k.0, c.0, (l, c.1)),
          refl,
          omega (
            arith,
            length-append idm (op ∷ (counted_words vs ++ rest₂)),
            length-append (counted_words vs) rest₂,
            length-words_bytes vs,
            i.0.0,
            i.2,
            k.2,
            c.2,
          ),
        )

pub parse_authentication2_v2-Ensures :
    (body : List ℕ)
    → All IsByte body
    → Ensures (IsParsed (length body)) (parse_authentication2_v2 body)
unfolding parse_authentication2_v2 fields is_secure
parse_authentication2_v2-Ensures body h = Ensures-bind (parse_idm-Ensures body h) λ (idm, rest) i.
    Ensures-exact _ _
      λ l. returns ((i.0, (l, i.1)), refl, omega (arith, length-append idm rest, i.0.0, i.2))
