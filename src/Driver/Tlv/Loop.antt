-- ===== src/Driver/Tlv/Loop.antt =====
-- The loop over the fields of a response, which the three parsers of
-- src/driver/port400/pcsc/tlv.rs write out, over what they collect and their `match` on the tag.
use felica_rs.Prelude.{
  ℕ, zero, suc, ◌+◌, Bool, Option, none, some, List, length, ltb, if◌then◌else◌,
}
use felica_rs.Prelude.Slices.{index}
use felica_rs.Prelude.Outcome.{ok, err, panic, ◌>>=◌}
use felica_rs.Driver.Tlv.{Read}

-- What one round of the loop leaves: the next index, or the end of the loop.
pub data Round (S : Type 0) : Type 0 where
  next : ℕ → S → Round S
  stop : S → Round S

-- The rest of a response is left unparsed after an unknown vendor tag.
abbrev pub known_next : {S : Type 0} → Bool → ℕ → S → Round S
known_next known idx result = if known then next idx result else stop result

-- `none` is a run out of fuel.
abbrev pub Result : Type 0 → Type 0
Result S = Option (Read S)

-- What follows a round: the rest of the loop, its end, or the error of the round.
abbrev pub follow : {S : Type 0} → (ℕ → S → Result S) → Read (Round S) → Result S
follow rest (ok (next idx result)) = rest idx result
follow rest (ok (stop result)) = some (ok result)
follow rest (err e) = some (err e)
follow rest panic = some panic

module _ {S : Type 0} (field : ℕ → List ℕ → ℕ → S → Read (Round S)) where
  unfoldable pub round : List ℕ → ℕ → S → Read (Round S)
  round bytes idx result = do tag ← index bytes idx; field tag bytes (idx + 1) result

  -- `while idx + 1 < data.len()`, in at most `fuel` rounds.
  unfoldable pub rounds : ℕ → List ℕ → ℕ → S → Result S
  unfolding round
  rounds zero bytes idx result = none
  rounds (suc fuel) bytes idx result =
      let rest : ℕ → S → Result S = λ i r. rounds fuel bytes i r in
      if ltb (idx + 1) (length bytes)
      then follow rest (round bytes idx result)
      else some (ok result)

  -- Each round takes at least one byte, so one more round than there are bytes is enough.
  unfoldable pub parse_fields : List ℕ → S → Result S
  unfolding rounds
  parse_fields bytes result = rounds (length bytes + 1) bytes 0 result
