-- ===== src/Felica/Error.antt =====
-- src/felica_standard/error.rs and src/driver/errors.rs: the errors. Of the first it is the
-- `Protocol` variant, the one that these modules raise. A message that the source formats keeps its
-- text, with the place of the number, and the number beside it.
use felica_rs.Prelude.{ℕ, String}

pub data ProtocolError : Type 0 where
  protocol : String → ProtocolError
  protocol_value : String → ℕ → ProtocolError

-- `DriverError::Other`, the only driver error that reading a response raises.
pub data DriverError : Type 0 where
  other : String → DriverError
