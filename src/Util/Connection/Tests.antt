-- ===== src/Util/Connection/Tests.antt =====
-- Concrete addresses, to which the theorems about util/connection.py are applied.
use stem.Base.{◌-◌, ◌*◌, ◌^◌, [], ◌∷◌, ◌≡◌, arith, true, Text, ok}
use stem.Util.Connection.Ipv4.{is_valid_ipv4_address}
use stem.Util.Connection.Ipv4.Laws.{dotted, is_valid_ipv4_address-dotted}
use stem.Util.Connection.Binary.{get_mask_ipv4, get_masked_bits, address_to_int}
use stem.Util.Connection.Binary.Masks.{get_masked_bits-get_mask_ipv4}

get_masked_bits-get_mask_ipv4_example :
    (mask : Text) × (get_mask_ipv4 20 ≡ ok mask)
    × (get_masked_bits mask ≡ ok 20)
    × (address_to_int mask ≡ ok ((2 ^ 20 - 1) * 2 ^ (32 - 20)))
get_masked_bits-get_mask_ipv4_example = get_masked_bits-get_mask_ipv4 20 (omega arith)

is_valid_ipv4_address-dotted_example :
    is_valid_ipv4_address (dotted (192 ∷ 168 ∷ 0 ∷ 1 ∷ [])) ≡ true
is_valid_ipv4_address-dotted_example = is_valid_ipv4_address-dotted 192 168 0 1 (omega arith)
