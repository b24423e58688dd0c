-- ===== src/Felica/Payload/Layout.antt =====
-- What the writer's methods append, as plain lists of bytes.
use felica_rs.Prelude.{
  ℕ, ◌+◌, ◌*◌, ◌/◌, ◌%◌, ◌≤◌, ◌<◌, ◌≡◌, refl, ap, ◌∙◌, List, [], ◌∷◌, ◌++◌, append_assoc,
  append-nil, length, lt→ltb, All, map, arith,
}
use felica_rs.Prelude.Bytes.{to_le_bytes}
use felica_rs.Prelude.Outcome.{ok, err}
use felica_rs.Felica.Error.{protocol_value}
use felica_rs.Felica.Types.Service.{ServiceCode}
use felica_rs.Felica.Types.Block.{BlockListElement, IsElement}
use felica_rs.Felica.Types.Block.Layout.{element_bytes, pack-element_bytes}
use felica_rs.Felica.Payload.{
  packet_too_long, PayloadWriter, extend_bytes, push_count, extend_u16_le, extend_u16_list_le,
  extend_counted_u16_le, extend_service_codes, extend_counted_service_codes, extend_block_list,
  extend_counted_block_list, frame_with_length_prefix,
}

unfoldable pub words_bytes : List ℕ → List ℕ
words_bytes [] = []
words_bytes (v ∷ vs) = (v % 256) ∷ (v / 256) ∷ words_bytes vs

unfoldable pub blocks_bytes : List BlockListElement → List ℕ
blocks_bytes [] = []
blocks_bytes (b ∷ bs) = element_bytes b ++ blocks_bytes bs

abbrev pub codes_of : List ServiceCode → List ℕ
codes_of = map (λ c. c.raw)

-- A list behind its one-byte count.
abbrev pub counted_words : List ℕ → List ℕ
counted_words vs = length vs ∷ words_bytes vs

abbrev pub counted_codes : List ServiceCode → List ℕ
counted_codes cs = length cs ∷ words_bytes (codes_of cs)

abbrev pub counted_blocks : List BlockListElement → List ℕ
counted_blocks bs = length bs ∷ blocks_bytes bs

pub extend_twice :
    (xs ys : List ℕ) (w : PayloadWriter)
    → extend_bytes ys (extend_bytes xs w) ≡ extend_bytes (xs ++ ys) w
extend_twice xs ys w = rw append_assoc

pub extend_nothing : (w : PayloadWriter) → w ≡ extend_bytes [] w
extend_nothing w = rw append-nil

pub extend_u16_list_le_lem :
    (vs : List ℕ) (w : PayloadWriter) → extend_u16_list_le vs w ≡ extend_bytes (words_bytes vs) w
unfolding extend_u16_list_le words_bytes
extend_u16_list_le_lem [] w = extend_nothing w
extend_u16_list_le_lem (v ∷ vs) w =
    extend_u16_list_le_lem vs (extend_u16_le v w) ∙ extend_twice (to_le_bytes v) (words_bytes vs) w

extend_service_codes_lem :
    (cs : List ServiceCode) (w : PayloadWriter)
    → extend_service_codes cs w ≡ extend_bytes (words_bytes (codes_of cs)) w
unfolding extend_service_codes words_bytes
extend_service_codes_lem [] w = extend_nothing w
extend_service_codes_lem (c ∷ cs) w =
    extend_service_codes_lem cs (extend_bytes (to_le_bytes c.raw) w)
    ∙ extend_twice (to_le_bytes c.raw) (words_bytes (codes_of cs)) w

extend_block_list_lem :
    (bs : List BlockListElement) (w : PayloadWriter)
    → All IsElement bs
    → extend_block_list bs w ≡ extend_bytes (blocks_bytes bs) w
unfolding extend_block_list blocks_bytes
extend_block_list_lem [] w h = extend_nothing w
extend_block_list_lem (b ∷ bs) w (p, h) = rw (pack-element_bytes b p) (
    extend_block_list_lem bs (extend_bytes (element_bytes b) w) h
    ∙ extend_twice (element_bytes b) (blocks_bytes bs) w)

pub push_count_lem :
    (n : ℕ) (w : PayloadWriter) → n < 256 → push_count n w ≡ ok (extend_bytes (n ∷ []) w)
unfolding push_count
push_count_lem n w h = rw (lt→ltb n 256 h)

-- The counted lists, below the width of the count.
pub extend_counted_u16_le_lem :
    (vs : List ℕ) (w : PayloadWriter)
    → length vs < 256
    → extend_counted_u16_le vs w ≡ ok (extend_bytes (counted_words vs) w)
unfolding extend_counted_u16_le
extend_counted_u16_le_lem vs w h =
    rw (push_count_lem (length vs) w h, extend_u16_list_le_lem vs)
      (ap ok (extend_twice (length vs ∷ []) (words_bytes vs) w))

pub extend_counted_service_codes_lem :
    (cs : List ServiceCode) (w : PayloadWriter)
    → length cs < 256
    → extend_counted_service_codes cs w ≡ ok (extend_bytes (counted_codes cs) w)
unfolding extend_counted_service_codes
extend_counted_service_codes_lem cs w h =
    rw (push_count_lem (length cs) w h, extend_service_codes_lem cs)
      (ap ok (extend_twice (length cs ∷ []) (words_bytes (codes_of cs)) w))

pub extend_counted_block_list_lem :
    (bs : List BlockListElement) (w : PayloadWriter)
    → length bs < 256
    → All IsElement bs
    → extend_counted_block_list bs w ≡ ok (extend_bytes (counted_blocks bs) w)
unfolding extend_counted_block_list
extend_counted_block_list_lem bs w h es =
    rw (push_count_lem (length bs) w h, extend_block_list_lem bs _ es)
      (ap ok (extend_twice (length bs ∷ []) (blocks_bytes bs) w))

pub length-words_bytes : (vs : List ℕ) → length (words_bytes vs) ≡ length vs * 2
unfolding words_bytes
length-words_bytes [] = refl
length-words_bytes (v ∷ vs) = omega (arith, length-words_bytes vs)

-- The length byte, when the packet fits it and when it does not.
pub frame_with_length_prefix_fits :
    (p : List ℕ) → length p ≤ 254 → frame_with_length_prefix p ≡ ok ((length p + 1) ∷ p)
unfolding frame_with_length_prefix
frame_with_length_prefix_fits p h = ground arith

pub frame_with_length_prefix_too_long :
    (p : List ℕ)
    → 254 < length p
    → frame_with_length_prefix p ≡ err (protocol_value packet_too_long (length p + 1))
unfolding frame_with_length_prefix
frame_with_length_prefix_too_long p h = ground arith
