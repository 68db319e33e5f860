-- ===== src/Client/Datatype/LinkSpecifier.antt =====
-- `LinkSpecifier` of client/datatype.py and its subclasses, one constructor for each class.
pub mod Laws
pub mod Wire
use stem.Base.{
  ℕ, zero, suc, List, [], ◌∷◌, ◌++◌, Bool, true, false, ltb, ◌==◌, if◌then◌else◌, Bytes, Text,
  length, Value, num, Result, ok, err, value_error, ◌>>=◌, ◌>>◌, raise_if, not,
}
use stem.Client.Datatype.Packed.{
  pack_ipv4_address, pack_ipv6_address, unpack_ipv4_address, unpack_ipv6_address,
}
use stem.Client.Datatype.Size
use stem.Client.Datatype.Size.{char, short, split}

-- `value` is what the base class keeps: the encoded destination. `specifier` is an unrecognized
-- type, with its number. A fingerprint is the text of the value.
pub data LinkSpecifier : Type 0 where
  by_ipv4 : Text → ℕ → Bytes → LinkSpecifier
  by_ipv6 : Text → ℕ → Bytes → LinkSpecifier
  by_fingerprint : Bytes → LinkSpecifier
  by_ed25519 : Bytes → LinkSpecifier
  specifier : ℕ → Bytes → LinkSpecifier

abbrev pub link_type : LinkSpecifier → ℕ
link_type (by_ipv4 address port value) = 0
link_type (by_ipv6 address port value) = 1
link_type (by_fingerprint value) = 2
link_type (by_ed25519 value) = 3
link_type (specifier t value) = t

abbrev pub value : LinkSpecifier → Bytes
value (by_ipv4 address port v) = v
value (by_ipv6 address port v) = v
value (by_fingerprint v) = v
value (by_ed25519 v) = v
value (specifier t v) = v

-- `LinkByIPv4(address, port)`, `LinkByIPv4.unpack(value)`
unfoldable pub link_by_ipv4 : Text → ℕ → Result LinkSpecifier
link_by_ipv4 address port = do
  packed ← pack_ipv4_address address
  port_bytes ← Size.pack short (num port)
  ok (by_ipv4 address port (packed ++ port_bytes))

unfoldable pub unpack_ipv4 : Bytes → Result LinkSpecifier
unpack_ipv4 v = do
  raise_if (not (length v == 6)) value_error
  let (addr, port) = split v 4
  address ← unpack_ipv4_address addr
  n ← Size.unpack short port
  link_by_ipv4 address n

unfoldable pub link_by_ipv6 : Text → ℕ → Result LinkSpecifier
link_by_ipv6 address port = do
  packed ← pack_ipv6_address address
  port_bytes ← Size.pack short (num port)
  ok (by_ipv6 address port (packed ++ port_bytes))

unfoldable pub unpack_ipv6 : Bytes → Result LinkSpecifier
unpack_ipv6 v = do
  raise_if (not (length v == 18)) value_error
  let (addr, port) = split v 16
  address ← unpack_ipv6_address addr
  n ← Size.unpack short port
  link_by_ipv6 address n

-- `LinkByFingerprint(value)`, `LinkByEd25519(value)`
unfoldable pub link_by_fingerprint : Bytes → Result LinkSpecifier
link_by_fingerprint v = if length v == 20 then ok (by_fingerprint v) else err value_error

unfoldable pub link_by_ed25519 : Bytes → Result LinkSpecifier
link_by_ed25519 v = if length v == 32 then ok (by_ed25519 v) else err value_error

unfoldable pub of_type : ℕ → Bytes → Result LinkSpecifier
of_type t v =
    if t == 0
    then unpack_ipv4 v
    else if t == 1
    then unpack_ipv6 v
    else if t == 2
    then link_by_fingerprint v
    else if t == 3
    then link_by_ed25519 v
    else ok (specifier t v)

unfoldable pub pop : Bytes → Result (LinkSpecifier × Bytes)
pop packed = do
  (t, packed) ← Size.pop char packed
  (value_size, packed) ← Size.pop char packed
  raise_if (ltb (length packed) value_size) value_error
  let (v, packed) = split packed value_size
  link ← of_type t v
  ok (link, packed)

unfoldable pub pack : LinkSpecifier → Result Bytes
pack link = do
  t ← Size.pack char (num (link_type link))
  size ← Size.pack char (num (length (value link)))
  ok (t ++ (size ++ value link))
