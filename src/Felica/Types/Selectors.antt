-- ===== src/Felica/Types/Selectors.antt =====
-- src/felica_standard/types.rs: the one-byte and two-byte selectors of commands.
pub mod RoundTrip
use felica_rs.Prelude.{ℕ, zero, suc, ◌≤◌, Option, none, some}
use felica_rs.Prelude.Bytes.{IsWord}

pub data ContainerProperty : Type 0 where
  property1 property2 : ContainerProperty
  unknown : ℕ → ContainerProperty

unfoldable pub to_index : ContainerProperty → ℕ
to_index property1 = 0x0000
to_index property2 = 0x0001
to_index (unknown i) = i

unfoldable pub from_index : ℕ → ContainerProperty
from_index zero = property1
from_index (suc zero) = property2
from_index (suc (suc i)) = unknown (suc (suc i))

-- An index that has a name is not written as `unknown`.
abbrev pub IsCanonical : ContainerProperty → Type 0
IsCanonical (unknown i) = (2 ≤ i) × IsWord i
IsCanonical _ = Unit

pub data NodePropertyType : Type 0 where
  value_limited_purse_service mac_communication : NodePropertyType

unfoldable pub node_property_byte : NodePropertyType → ℕ
node_property_byte value_limited_purse_service = 0x00
node_property_byte mac_communication = 0x01

unfoldable pub node_property_from_byte : ℕ → Option NodePropertyType
node_property_from_byte zero = some value_limited_purse_service
node_property_from_byte (suc zero) = some mac_communication
node_property_from_byte (suc (suc i)) = none

pub data SetParameterEncryptionType : Type 0 where
  srm_type1 srm_type2 : SetParameterEncryptionType

unfoldable pub encryption_byte : SetParameterEncryptionType → ℕ
encryption_byte srm_type1 = 0x00
encryption_byte srm_type2 = 0x01

unfoldable pub encryption_from_byte : ℕ → Option SetParameterEncryptionType
encryption_from_byte zero = some srm_type1
encryption_from_byte (suc zero) = some srm_type2
encryption_from_byte (suc (suc i)) = none

pub data SetParameterPacketType : Type 0 where
  node_code_size2 node_code_size4 : SetParameterPacketType

unfoldable pub packet_byte : SetParameterPacketType → ℕ
packet_byte node_code_size2 = 0x00
packet_byte node_code_size4 = 0x01

unfoldable pub packet_from_byte : ℕ → Option SetParameterPacketType
packet_from_byte zero = some node_code_size2
packet_from_byte (suc zero) = some node_code_size4
packet_from_byte (suc (suc i)) = none
