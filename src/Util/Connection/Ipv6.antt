-- ===== src/Util/Connection/Ipv6.antt =====
-- `is_valid_ipv6_address` of util/connection.py
use stem.Base.{ℕ, ◌+◌, ◌-◌, List, [], ◌∷◌, Bool, true, false, ltb, leb, ◌==◌, ◌&&◌, ◌||◌}
use stem.Base.{
  Text, not, split_on, count_char, length, if◌then◌else◌, Option, none, some, codes, join, slice,
  take, drop,
}
use stem.Base.{
  starts_with, ends_with, contains, count_double, find_char, find_from, after_last, without_last,
  up_to_newline,
}
use stem.Util.Connection.Ipv4.{is_valid_ipv4_address}

-- The bounds of an ipv4-mapped portion: from behind the last colon before the first period up to
-- the next colon, if there is one.
abbrev pub or_zero : Option ℕ → ℕ
or_zero none = 0
or_zero (some i) = i

unfoldable pub ipv4_start : Text → ℕ
unfolding after_last find_char
ipv4_start address = after_last b':' (take (or_zero (find_char b'.' address)) address)

unfoldable pub ipv4_end : Text → Option ℕ
unfolding ipv4_start find_from
ipv4_end address = find_from b':' (ipv4_start address + 1) address

abbrev before_part : ℕ → Text → Text
before_part start address = if start == 0 then [] else take (start - 1) address

abbrev after_part : Option ℕ → Text → Text
after_part none address = []
after_part (some end) address = drop (end + 1) address

-- `filter(None, parts)`: the empty parts are dropped.
unfoldable pub non_empty : List Text → List Text
non_empty [] = []
non_empty ([] ∷ parts) = non_empty parts
non_empty ((c ∷ s) ∷ parts) = (c ∷ s) ∷ non_empty parts

-- The address with its ipv4-mapped portion replaced.
unfoldable pub replace_ipv4 : Text → Text → Text
unfolding ipv4_start ipv4_end non_empty join
replace_ipv4 filler address = join (codes ":") (
    non_empty (
      before_part (ipv4_start address) address
      ∷ filler
      ∷ after_part (ipv4_end address) address
      ∷ []))

-- The class [0-9a-fA-f] of the pattern, which runs from `A` to `f`.
abbrev pub in_class : ℕ → Bool
in_class c = (leb b'0' c && leb c b'9') || (leb b'a' c && leb c b'f') || (leb b'A' c && leb c b'f')

unfoldable pub all_in_class : Text → Bool
all_in_class [] = true
all_in_class (c ∷ s) = in_class c && all_in_class s

unfoldable pub is_group : Text → Bool
unfolding up_to_newline all_in_class
is_group = up_to_newline (λ entry. leb (length entry) 4 && all_in_class entry)

unfoldable pub all_groups : List Text → Bool
unfolding is_group
all_groups [] = true
all_groups (entry ∷ entries) = is_group entry && all_groups entries

-- Eight groups, or fewer around one collapsed run of zeros.
unfoldable pub valid_groups : Text → Bool
unfolding count_char contains count_double split_on all_groups
valid_groups address =
    if ltb 7 (count_char b':' address)
    then false
    else if not (count_char b':' address == 7) && not (contains (codes "::") address)
    then false
    else if ltb 1 (count_double b':' address) || contains (codes ":::") address
    then false
    else all_groups (split_on b':' address)

unfoldable pub strip_brackets : Bool → Text → Text
unfolding starts_with ends_with without_last
strip_brackets allow address =
    if allow && starts_with (codes "[") address && ends_with (codes "]") address
    then drop 1 (without_last address)
    else address

unfoldable pub is_valid_ipv6_address : Text → Bool → Bool
unfolding strip_brackets valid_groups replace_ipv4 ipv4_start ipv4_end is_valid_ipv4_address
is_valid_ipv6_address bracketed allow_brackets =
    let address = strip_brackets allow_brackets bracketed in
    if count_char b'.' address == 3
    then (if is_valid_ipv4_address (slice (ipv4_start address) (ipv4_end address) address)
        then valid_groups (replace_ipv4 (codes "ff:ff") address)
        else false)
    else valid_groups address
