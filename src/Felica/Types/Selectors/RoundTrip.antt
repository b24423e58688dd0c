-- ===== src/Felica/Types/Selectors/RoundTrip.antt =====
-- Selectors and their bytes.
use felica_rs.Prelude.{ℕ, zero, suc, ◌≡◌, refl, some, arith}
use felica_rs.Prelude.Bytes.{IsWord}
use felica_rs.Felica.Types.Selectors.{
  ContainerProperty, IsCanonical, property1, property2, unknown, to_index, from_index,
  NodePropertyType, value_limited_purse_service, mac_communication, node_property_byte,
  node_property_from_byte, SetParameterEncryptionType, srm_type1, srm_type2, encryption_byte,
  encryption_from_byte, SetParameterPacketType, node_code_size2, node_code_size4, packet_byte,
  packet_from_byte,
}

-- The two-byte index of a container property that is not a named one under another index reads
-- back as the same property.
pub from_index-to_index : (p : ContainerProperty) → IsCanonical p → from_index (to_index p) ≡ p
unfolding from_index to_index
from_index-to_index property1 h = refl
from_index-to_index property2 h = refl
from_index-to_index (unknown zero) h = absurd (omega (arith, h.0))
from_index-to_index (unknown (suc zero)) h = absurd (omega (arith, h.0))
from_index-to_index (unknown (suc (suc i))) h = refl

pub node_property_from_byte-byte :
    (t : NodePropertyType) → node_property_from_byte (node_property_byte t) ≡ some t
unfolding node_property_from_byte node_property_byte
node_property_from_byte-byte value_limited_purse_service = refl
node_property_from_byte-byte mac_communication = refl

pub encryption_from_byte-byte :
    (t : SetParameterEncryptionType) → encryption_from_byte (encryption_byte t) ≡ some t
unfolding encryption_from_byte encryption_byte
encryption_from_byte-byte srm_type1 = refl
encryption_from_byte-byte srm_type2 = refl

pub packet_from_byte-byte : (t : SetParameterPacketType) → packet_from_byte (packet_byte t) ≡ some t
unfolding packet_from_byte packet_byte
packet_from_byte-byte node_code_size2 = refl
packet_from_byte-byte node_code_size4 = refl

pub from_index-IsCanonical : (i : ℕ) → IsWord i → IsCanonical (from_index i)
unfolding from_index
from_index-IsCanonical zero h = tt
from_index-IsCanonical (suc zero) h = tt
from_index-IsCanonical (suc (suc i)) h = (omega arith, h)
