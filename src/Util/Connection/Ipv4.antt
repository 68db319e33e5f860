-- ===== src/Util/Connection/Ipv4.antt =====
-- `is_valid_ipv4_address` of util/connection.py
pub mod Laws
use stem.Base.{
  ℕ, ◌+◌, ◌≤◌, ◌<◌, List, [], ◌∷◌, Bool, true, false, ◌≡◌, refl, arith, ltb, leb, ◌==◌, ◌&&◌, ◌||◌,
  Text, text_eq, isdigit, digits_value, not, split_on, count_char, length, if◌then◌else◌,
}

-- `entry[0] == '0' and len(entry) > 1`
abbrev leading_zero : Text → Bool
leading_zero [] = false
leading_zero (c ∷ s) = c == b'0' && ltb 1 (length (c ∷ s))

-- One decimal value between 0 and 255 with no leading zero.
unfoldable pub is_octet : Text → Bool
unfolding isdigit digits_value
is_octet entry = isdigit entry && leb (digits_value 0 entry) 255 && not (leading_zero entry)

unfoldable pub all_octets : List Text → Bool
unfolding is_octet
all_octets [] = true
all_octets (entry ∷ entries) = is_octet entry && all_octets entries

unfoldable pub is_valid_ipv4_address : Text → Bool
unfolding all_octets count_char split_on
is_valid_ipv4_address address =
    if count_char b'.' address == 3 then all_octets (split_on b'.' address) else false
