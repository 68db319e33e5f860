-- ===== src/Client/Datatype/Packed.antt =====
-- `_pack_ipv4_address`, `_unpack_ipv4_address` and their ipv6 counterparts of client/datatype.py.
pub mod Laws
use stem.Base.{ℕ, List, [], ◌∷◌, ◌++◌, map, Text, Bytes, codes, split_on, join, Value, int, num}
use stem.Base.{Result, ok, err, ◌>>=◌, map_result}
use stem.Util.Decimal.{decimal, int_10}
use stem.Util.Hex.{int_16, hex_4}
use stem.Util.Connection.Binary.{groups_of}
use stem.Client.Datatype.Size.{char, short, pack, unpack}

-- `b''.join(pieces)`
abbrev pub concat : List Bytes → Bytes
concat [] = []
concat (p ∷ pieces) = p ++ concat pieces

-- `Size.CHAR.pack(int(v))`, `Size.SHORT.pack(int(v, 16))`
unfoldable pub pack_octet : Text → Result Bytes
pack_octet v = do n ← int_10 v; pack char (int n)

unfoldable pub pack_group : Text → Result Bytes
pack_group v = do n ← int_16 v; pack short (num n)

unfoldable pub pack_ipv4_address : Text → Result Bytes
pack_ipv4_address address = do
  octets ← map_result pack_octet (split_on b'.' address)
  ok (concat octets)

unfoldable pub pack_ipv6_address : Text → Result Bytes
pack_ipv6_address address = do
  groups ← map_result pack_group (split_on b':' address)
  ok (concat groups)

unfoldable pub unpack_ipv4_address : Bytes → Result Text
unpack_ipv4_address value = do
  octets ← map_result (unpack char) (groups_of 1 4 value)
  ok (join (codes ".") (map decimal octets))

unfoldable pub unpack_ipv6_address : Bytes → Result Text
unpack_ipv6_address value = do
  groups ← map_result (unpack short) (groups_of 2 8 value)
  ok (join (codes ":") (map hex_4 groups))
