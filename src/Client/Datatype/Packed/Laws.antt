-- ===== src/Client/Datatype/Packed/Laws.antt =====
-- Packed IPv4 and IPv6 addresses are written as text, and packed to the same bytes again.

use stem.Base.{
  ℕ, zero, suc, ◌+◌, ◌*◌, ◌<◌, List, [], ◌∷◌, map, ◌≡◌, subst, refl, ap, sym, arith, Text, Bytes,
  codes, split_on, join, length, All,
}
use stem.Base.{ok, ◌>>=◌, map_result}
use stem.Base.Pieces.{Lacks, split_on-join}
use stem.Util.Decimal.{decimal}
use stem.Util.Decimal.Laws.{int_10-decimal}
use stem.Util.Hex.{hex_4, int_16-hex_4, hex_4-Lacks}
use stem.Util.Connection.Ipv4.Laws.{dotted, split_on-dotted}
use stem.Util.Connection.Binary.{groups_of}
use stem.Client.Datatype.Size.{char, short, IsByte, unpack, to_bytes, from_bytes}
use stem.Client.Datatype.Size.Laws.{pack-ok}
use stem.Client.Datatype.Packed.{
  concat, pack_octet, pack_group, pack_ipv4_address, pack_ipv6_address, unpack_ipv4_address,
  unpack_ipv6_address,
}

unpack-char : (b : ℕ) → unpack char (b ∷ []) ≡ ok b
unfolding unpack from_bytes
unpack-char b = ground arith

unpack-short : (a b : ℕ) → unpack short (a ∷ b ∷ []) ≡ ok (a * 256 + b)
unfolding unpack from_bytes
unpack-short a b = ground arith

pack_octet-decimal : (b : ℕ) → b < 256 → pack_octet (decimal b) ≡ ok (b ∷ [])
unfolding pack_octet
pack_octet-decimal b h = rw (int_10-decimal b, pack-ok char b h) (unfold to_bytes in ground arith)

pack_group-hex_4 :
    (a b : ℕ) → a < 256 → b < 256 → pack_group (hex_4 (a * 256 + b)) ≡ ok (a ∷ b ∷ [])
unfolding pack_group
pack_group-hex_4 a b ha hb =
    let fits : a * 256 + b < 65536 = omega arith in
    rw (int_16-hex_4 (a * 256 + b) fits, pack-ok short (a * 256 + b) fits)
      (unfold to_bytes in ground arith)

-- `concat` of single octets, and `(a * 256 + b)` of pairs of bytes.
abbrev singles : Bytes → List Bytes
singles [] = []
singles (b ∷ bs) = (b ∷ []) ∷ singles bs

concat-singles : (bs : Bytes) → concat (singles bs) ≡ bs
concat-singles [] = refl
concat-singles (b ∷ bs) = rw (concat-singles bs)

groups_of-singles : (bs : Bytes) → groups_of 1 (length bs) bs ≡ singles bs
unfolding groups_of
groups_of-singles [] = refl
groups_of-singles (b ∷ bs) = rw (groups_of-singles bs)

map_unpack-singles : (bs : Bytes) → map_result (unpack char) (singles bs) ≡ ok bs
unfolding map_result
map_unpack-singles [] = refl
map_unpack-singles (b ∷ bs) = rw (unpack-char b, map_unpack-singles bs)

map-pack_octet :
    (bs : Bytes) → All IsByte bs → map_result pack_octet (map decimal bs) ≡ ok (singles bs)
unfolding map_result
map-pack_octet [] h = refl
map-pack_octet (b ∷ bs) h = rw (pack_octet-decimal b h.0, map-pack_octet bs h.1)

-- Four bytes are written in dotted notation.
pub unpack_ipv4_address-dotted :
    (value : Bytes) → length value ≡ 4 → unpack_ipv4_address value ≡ ok (dotted value)
unfolding unpack_ipv4_address dotted
unpack_ipv4_address-dotted value len =
    subst
      (λ (n : ℕ).
        (map_result (unpack char) (groups_of 1 n value) >>= λ octets.
        ok (join (codes ".") (map decimal octets)))
        ≡ ok (dotted value))
      len (rw (groups_of-singles value, map_unpack-singles value))

-- Numbers in dotted notation are packed to their bytes.
pub pack_ipv4_address-dotted :
    (b : ℕ) (bs : Bytes) → All IsByte (b ∷ bs) → pack_ipv4_address (dotted (b ∷ bs)) ≡ ok (b ∷ bs)
unfolding pack_ipv4_address
pack_ipv4_address-dotted b bs h =
    rw (split_on-dotted b bs, map-pack_octet (b ∷ bs) h) (ap ok (concat-singles (b ∷ bs)))

-- The groups of two bytes as numbers.
abbrev group_values : Bytes → List ℕ
group_values [] = []
group_values (a ∷ []) = []
group_values (a ∷ b ∷ bs) = (a * 256 + b) ∷ group_values bs

abbrev pairs : Bytes → List Bytes
pairs [] = []
pairs (a ∷ []) = []
pairs (a ∷ b ∷ bs) = (a ∷ b ∷ []) ∷ pairs bs

groups_of-pairs : (n : ℕ) (bs : Bytes) → length bs ≡ n + n → groups_of 2 n bs ≡ pairs bs
unfolding groups_of
groups_of-pairs zero [] len = refl
groups_of-pairs zero (b ∷ bs) len = absurd (omega arith)
groups_of-pairs (suc n) [] len = absurd (omega arith)
groups_of-pairs (suc n) (b ∷ []) len = absurd (omega arith)
groups_of-pairs (suc n) (a ∷ b ∷ bs) len = rw (groups_of-pairs n bs (omega arith))

map_unpack-pairs : (bs : Bytes) → map_result (unpack short) (pairs bs) ≡ ok (group_values bs)
unfolding map_result
map_unpack-pairs [] = refl
map_unpack-pairs (a ∷ []) = refl
map_unpack-pairs (a ∷ b ∷ bs) = rw (unpack-short a b, map_unpack-pairs bs)

map-pack_group :
    (bs : Bytes)
    → All IsByte bs
    → map_result pack_group (map hex_4 (group_values bs)) ≡ ok (pairs bs)
unfolding map_result
map-pack_group [] h = refl
map-pack_group (a ∷ []) h = refl
map-pack_group (a ∷ b ∷ bs) h = rw (pack_group-hex_4 a b h.0 h.1.0, map-pack_group bs h.1.1)

concat-pairs : (n : ℕ) (bs : Bytes) → length bs ≡ n + n → concat (pairs bs) ≡ bs
concat-pairs zero [] len = refl
concat-pairs zero (b ∷ bs) len = absurd (omega arith)
concat-pairs (suc n) [] len = absurd (omega arith)
concat-pairs (suc n) (b ∷ []) len = absurd (omega arith)
concat-pairs (suc n) (a ∷ b ∷ bs) len = rw (concat-pairs n bs (omega arith))

map-hex_4-Lacks : (values : List ℕ) → All (Lacks b':') (map hex_4 values)
map-hex_4-Lacks [] = tt
map-hex_4-Lacks (v ∷ values) = (hex_4-Lacks v, map-hex_4-Lacks values)

-- `':'.join(['%04x' % v for v in values])`
unfoldable pub colon_groups : Bytes → Text
unfolding join
colon_groups value = join (codes ":") (map hex_4 (group_values value))

-- Sixteen bytes are written as eight groups of hexadecimal digits.
pub unpack_ipv6_address-colon_groups :
    (value : Bytes) → length value ≡ 16 → unpack_ipv6_address value ≡ ok (colon_groups value)
unfolding unpack_ipv6_address colon_groups
unpack_ipv6_address-colon_groups value len =
    subst
      (λ (groups : List Bytes).
        (map_result (unpack short) groups >>= λ values. ok (join (codes ":") (map hex_4 values)))
        ≡ ok (colon_groups value))
      (sym (groups_of-pairs 8 value len)) (rw (map_unpack-pairs value))

split_on-colon_groups :
    (a b : ℕ) (bs : Bytes)
    → split_on b':' (colon_groups (a ∷ b ∷ bs)) ≡ map hex_4 (group_values (a ∷ b ∷ bs))
unfolding colon_groups
split_on-colon_groups a b bs =
    split_on-join b':' (hex_4 (a * 256 + b)) (map hex_4 (group_values bs))
      (map-hex_4-Lacks (group_values (a ∷ b ∷ bs)))

-- Groups of hexadecimal digits are packed to their bytes.
pub pack_ipv6_address-colon_groups :
    (n : ℕ) (bs : Bytes)
    → length bs ≡ suc n + suc n
    → All IsByte bs
    → pack_ipv6_address (colon_groups bs) ≡ ok bs
unfolding pack_ipv6_address
pack_ipv6_address-colon_groups n [] len h = absurd (omega arith)
pack_ipv6_address-colon_groups n (b ∷ []) len h = absurd (omega arith)
pack_ipv6_address-colon_groups n (a ∷ b ∷ bs) len h =
    rw (split_on-colon_groups a b bs, map-pack_group (a ∷ b ∷ bs) h)
      (ap ok (concat-pairs (suc n) (a ∷ b ∷ bs) len))
