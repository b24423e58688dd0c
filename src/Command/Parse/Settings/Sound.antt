-- ===== src/Command/Parse/Settings/Sound.antt =====
-- The parsers of settings, properties and the container on any bytes:
-- no panic, and a command within its ranges that is no longer than the input.
use felica_rs.Prelude.{ℕ, refl, List, [], ◌∷◌, length, length-append, All, arith}
use felica_rs.Prelude.Bytes.{IsByte, from_le_bytes-IsWord}
use felica_rs.Prelude.Outcome.Ensures.{
  Ensures, returns, Ensures-bind, Ensures-ensure, Ensures-exact, ok_or-Ensures, index-Ensures,
  slice_to-Ensures, slice_from-Ensures, split_first-Ensures,
}
use felica_rs.Felica.Constants.{max_node_property_codes}
use felica_rs.Felica.Types.Selectors.{node_property_byte, encryption_byte, packet_byte}
use felica_rs.Felica.Types.Selectors.RoundTrip.{from_index-IsCanonical}
use felica_rs.Felica.Payload.Layout.{counted_words, length-words_bytes}
use felica_rs.Command.Wire.{fields, is_secure, IsParsed}
use felica_rs.Command.Parse.Fields.Sound.{
  parse_idm-Ensures, no_trailing-Ensures, take_u16_list-Ensures,
}
use felica_rs.Command.Parse.Settings.{
  parse_set_parameter, parse_get_container_issue_information, parse_get_node_property,
  parse_get_container_property, parse_get_system_status, parse_request_product_information,
  parse_request_specification_version, parse_reset_mode, parse_get_container_id,
}

pub parse_set_parameter-Ensures :
    (body : List ℕ) → All IsByte body → Ensures (IsParsed (length body)) (parse_set_parameter body)
unfolding parse_set_parameter fields is_secure
parse_set_parameter-Ensures body h = Ensures-bind (parse_idm-Ensures body h) λ (idm, rest) i.
    Ensures-exact _ _ λ l. Ensures-bind (slice_to-Ensures 4 rest i.1 (omega arith)) λ front f.
      Ensures-ensure _ λ t. Ensures-bind (slice_from-Ensures 6 rest i.1 (omega arith)) λ back g.
        Ensures-ensure _ λ u. Ensures-bind (index-Ensures rest 4 i.1 (omega arith)) λ b4 p4.
          Ensures-bind (ok_or-Ensures {P = λ _. Unit {0}} _ λ _ _. tt) λ et _.
            Ensures-bind (index-Ensures rest 5 i.1 (omega arith)) λ b5 p5.
              Ensures-bind (ok_or-Ensures {P = λ _. Unit {0}} _ λ _ _. tt) λ pt _. returns (
                i.0,
                refl,
                omega (
                  arith,
                  length-append idm
                      (0 ∷ 0 ∷ 0 ∷ 0 ∷ encryption_byte et ∷ packet_byte pt ∷ 0 ∷ 0 ∷ []),
                  i.0.0,
                  i.2,
                ),
              )

pub parse_get_container_issue_information-Ensures :
    (body : List ℕ)
    → All IsByte body
    → Ensures (IsParsed (length body)) (parse_get_container_issue_information body)
unfolding parse_get_container_issue_information fields is_secure
parse_get_container_issue_information-Ensures body h =
    Ensures-bind (parse_idm-Ensures body h) λ (idm, rest) i. Ensures-exact _ _ λ l.
      Ensures-ensure _
        λ z. returns (i.0, refl, omega (arith, length-append idm (0 ∷ 0 ∷ []), i.0.0, i.2))

pub parse_get_node_property-Ensures :
    (body : List ℕ)
    → All IsByte body
    → Ensures (IsParsed (length body)) (parse_get_node_property body)
unfolding parse_get_node_property fields is_secure
parse_get_node_property-Ensures body h = Ensures-bind (parse_idm-Ensures body h) λ (idm, rest) i.
    Ensures-bind (split_first-Ensures rest _ i.1) λ (b, rest₁) k.
      Ensures-bind (ok_or-Ensures {P = λ _. Unit {0}} _ λ _ _. tt) λ t _.
        Ensures-bind (take_u16_list-Ensures rest₁ 1 max_node_property_codes _ _ k.1)
          λ (vs, rest₂) c. Ensures-bind (no_trailing-Ensures rest₂ _) λ _ e. returns (
            (i.0, c.0),
            refl,
            omega (
              arith,
              length-append idm (node_property_byte t ∷ counted_words vs),
              length-words_bytes vs,
              i.0.0,
              i.2,
              k.2,
              c.2,
            ),
          )

pub parse_get_container_property-Ensures :
    (body : List ℕ)
    → All IsByte body
    → Ensures (IsParsed (length body)) (parse_get_container_property body)
unfolding parse_get_container_property fields is_secure
parse_get_container_property-Ensures body h = Ensures-exact _ _ λ l.
    Ensures-bind (index-Ensures body 0 h (omega arith)) λ b0 p0.
      Ensures-bind (index-Ensures body 1 h (omega arith)) λ b1 p1.
        returns (from_index-IsCanonical _ (from_le_bytes-IsWord b0 b1 p0 p1), refl, omega arith)

pub parse_get_system_status-Ensures :
    (body : List ℕ)
    → All IsByte body
    → Ensures (IsParsed (length body)) (parse_get_system_status body)
unfolding parse_get_system_status fields is_secure
parse_get_system_status-Ensures body h = Ensures-bind (parse_idm-Ensures body h) λ (idm, rest) i.
    Ensures-exact _ _ λ l.
      Ensures-ensure _
        λ z. returns (i.0, refl, omega (arith, length-append idm (0 ∷ 0 ∷ []), i.0.0, i.2))

pub parse_request_product_information-Ensures :
    (body : List ℕ)
    → All IsByte body
    → Ensures (IsParsed (length body)) (parse_request_product_information body)
unfolding parse_request_product_information fields is_secure
parse_request_product_information-Ensures body h =
    Ensures-bind (parse_idm-Ensures body h)
      λ (idm, rest) i. Ensures-ensure _ λ t. returns (i.0, refl, omega (arith, i.0.0, i.2))

pub parse_request_specification_version-Ensures :
    (body : List ℕ)
    → All IsByte body
    → Ensures (IsParsed (length body)) (parse_request_specification_version body)
unfolding parse_request_specification_version fields is_secure
parse_request_specification_version-Ensures body h =
    Ensures-bind (parse_idm-Ensures body h) λ (idm, rest) i. Ensures-exact _ _ λ l.
      Ensures-ensure _
        λ z. returns (i.0, refl, omega (arith, length-append idm (0 ∷ 0 ∷ []), i.0.0, i.2))

pub parse_reset_mode-Ensures :
    (body : List ℕ) → All IsByte body → Ensures (IsParsed (length body)) (parse_reset_mode body)
unfolding parse_reset_mode fields is_secure
parse_reset_mode-Ensures body h = Ensures-bind (parse_idm-Ensures body h) λ (idm, rest) i.
    Ensures-exact _ _ λ l.
      Ensures-ensure _
        λ z. returns (i.0, refl, omega (arith, length-append idm (0 ∷ 0 ∷ []), i.0.0, i.2))

pub parse_get_container_id-Ensures :
    (body : List ℕ)
    → All IsByte body
    → Ensures (IsParsed (length body)) (parse_get_container_id body)
unfolding parse_get_container_id fields is_secure
parse_get_container_id-Ensures body h =
    Ensures-exact _ _ λ l. Ensures-ensure _ λ z. returns (tt, refl, omega arith)
