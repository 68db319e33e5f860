-- ===== src/Util/Connection/Binary.antt =====
-- Addresses and masks of util/connection.py as binary text and as integers.
pub mod Masks
use mathlib.Core.List.{reverse}
use stem.Base.{
  ℕ, zero, suc, ◌+◌, ◌-◌, ◌*◌, ◌/◌, ◌%◌, ◌^◌, List, [], ◌∷◌, ◌++◌, map, Bool, true, false,
}
use stem.Base.{
  ltb, ◌==◌, ◌&&◌, if◌then◌else◌, Text, codes, contains, split_on, join, count_char, find_from,
  length, take, drop, replicate, slice, upper, digits_value,
}
use stem.Base.{Option, none, some, Result, ok, err, value_error, ◌>>=◌, map_result}
use stem.Util.Decimal.{decimal}
use stem.Util.Hex.{int_16, hex_4}
use stem.Util.Connection.Ipv4.{is_valid_ipv4_address}
use stem.Util.Connection.Ipv6.{is_valid_ipv6_address, ipv4_start, ipv4_end, replace_ipv4}

-- The value as a binary text of so many digits, the highest first.
unfoldable pub get_binary : ℕ → ℕ → Text
get_binary value zero = []
get_binary value (suc y) = (b'0' + value / 2 ^ y % 2) ∷ get_binary value y

-- `int(s, 2)` of a text of binary digits.
unfoldable pub binary_value : ℕ → Text → ℕ
binary_value acc [] = acc
binary_value acc (c ∷ s) = binary_value (acc * 2 + (c - b'0')) s

-- `s[w * i:w * (i + 1)]` for the first `n` indices, from an index on.
unfoldable pub groups_of : ℕ → ℕ → Text → List Text
groups_of w zero s = []
groups_of w (suc n) s = take w s ∷ groups_of w n (drop w s)

abbrev flatten : List Text → Text
flatten [] = []
flatten (t ∷ ts) = t ++ flatten ts

-- The first four groups of an ipv4 address in binary, each of a decimal octet.
abbrev octets_to_binary : Text → Text
octets_to_binary address =
    flatten (map (λ octet. get_binary (digits_value 0 octet) 8) (split_on b'.' address))

-- `'::'` is made as long as the missing groups ask for. A valid address has it once.
unfoldable pub widen_collapsed : ℕ → Text → Text
widen_collapsed missing [] = []
widen_collapsed missing (x ∷ []) = x ∷ []
widen_collapsed missing (x ∷ y ∷ s) =
    let rest = widen_collapsed missing (y ∷ s) in
    if x == b':' && y == b':' then b':' ∷ b':' ∷ replicate missing b':' ++ s else x ∷ rest

-- One round of the loop that inserts missing zeros: the group from `start` on is filled up to four
-- digits. `str.index` raises if there is no further colon.
abbrev group_end : ℕ → ℕ → Text → Result ℕ
group_end index start address =
    if index == 7
    then ok (length address)
    else elim (find_from b':' start address) [ none ↦ err value_error | some i ↦ ok i ]

abbrev fill_group : ℕ → Text → Result Text
fill_group index address = do
  let start = index * 5
  end ← group_end index start address
  ok (take start address ++ (replicate ((4 + start) - end) b'0' ++ drop start address))

-- The rounds that are left, of eight.
unfoldable pub fill_groups : ℕ → Text → Result Text
unfolding find_from
fill_groups zero address = ok address
fill_groups (suc left) address = do filled ← fill_group (7 - left) address; fill_groups left filled

-- The hexadecimal groups of an ipv4 address, "5.9.158.75" as "0509:9e4b".
abbrev ipv6_snippet : Text → Text
ipv6_snippet address =
    join (codes ":")
      (map (λ group. hex_4 (binary_value 0 group)) (groups_of 16 2 (octets_to_binary address)))

-- `_address_to_binary` of the mapped portion, which the validity check found to be an ipv4 address.
abbrev expand_ipv4 : Text → Text
expand_ipv4 address =
    if count_char b'.' address == 3
    then replace_ipv4 (ipv6_snippet (slice (ipv4_start address) (ipv4_end address) address)) address
    else address

abbrev expand_collapsed : Text → Text
expand_collapsed address =
    if contains (codes "::") address
    then widen_collapsed (7 - count_char b':' address) address
    else address

unfoldable pub expand_ipv6_address : Text → Result Text
unfolding is_valid_ipv6_address widen_collapsed fill_groups groups_of get_binary binary_value
expand_ipv6_address address =
    if is_valid_ipv6_address address false
    then fill_groups 8 (expand_collapsed (expand_ipv4 address))
    else err value_error

unfoldable pub address_to_binary : Text → Result Text
unfolding is_valid_ipv4_address expand_ipv6_address int_16 map_result get_binary
address_to_binary address =
    if is_valid_ipv4_address address
    then ok (octets_to_binary address)
    else if is_valid_ipv6_address address false
    then (do
      expanded ← expand_ipv6_address address
      groupings ← map_result int_16 (split_on b':' expanded)
      ok (flatten (map (λ grouping. get_binary grouping 16) groupings)))
    else err value_error

unfoldable pub address_to_int : Text → Result ℕ
unfolding address_to_binary binary_value
address_to_int address = do binary ← address_to_binary address; ok (binary_value 0 binary)

abbrev pub full_ipv4_mask : Text
full_ipv4_mask = codes "255.255.255.255"

abbrev pub full_ipv6_mask : Text
full_ipv6_mask = codes "FFFF:FFFF:FFFF:FFFF:FFFF:FFFF:FFFF:FFFF"

unfoldable pub get_mask_ipv4 : ℕ → Result Text
unfolding get_binary groups_of binary_value decimal join
get_mask_ipv4 bits =
    if ltb 32 bits
    then err value_error
    else if bits == 32
    then ok full_ipv4_mask
    else (let mask_bin = reverse (get_binary (2 ^ bits - 1) 32) in
        ok (
          join (codes ".")
            (map (λ octet. decimal (binary_value 0 octet)) (groups_of 8 4 mask_bin))))

unfoldable pub get_mask_ipv6 : ℕ → Result Text
unfolding get_binary groups_of binary_value hex_4 join upper
get_mask_ipv6 bits =
    if ltb 128 bits
    then err value_error
    else if bits == 128
    then ok full_ipv6_mask
    else (let mask_bin = reverse (get_binary (2 ^ bits - 1) 128) in
        ok (
          upper (
            join (codes ":")
              (map (λ group. hex_4 (binary_value 0 group)) (groups_of 16 8 mask_bin)))))

-- A match of '^(1*)(0*)$', as the number of zeros.
unfoldable pub all_zeros : Text → Bool
all_zeros [] = true
all_zeros (c ∷ s) = c == b'0' && all_zeros s

unfoldable pub ones_then_zeros : Text → Option ℕ
unfolding all_zeros
ones_then_zeros [] = some 0
ones_then_zeros (c ∷ s) =
    let rest = ones_then_zeros s in
    if c == b'1' then rest else if all_zeros (c ∷ s) then some (length (c ∷ s)) else none

-- The text of an address has no line feed at its end, so `$` stands at its end alone.
unfoldable pub get_masked_bits : Text → Result ℕ
unfolding is_valid_ipv4_address address_to_binary ones_then_zeros
get_masked_bits mask =
    if is_valid_ipv4_address mask
    then (do
      mask_bin ← address_to_binary mask
      elim (ones_then_zeros mask_bin) [ none ↦ err value_error | some zeros ↦ ok (32 - zeros) ])
    else err value_error
