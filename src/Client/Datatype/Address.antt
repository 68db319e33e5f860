-- ===== src/Client/Datatype/Address.antt =====
-- `Address` of client/datatype.py: a relay's address, given as text or as packed bytes.
pub mod Laws
use Prim.Native.String.{String}
use text.Mathlib.Text.{◌==◌ as str_eq}
use stem.Base.{
  ℕ, List, [], ◌∷◌, ◌++◌, Bool, true, false, ltb, ◌==◌, if◌then◌else◌, Text, Bytes, length, lower,
}
use stem.Base.{
  Option, none, some, Value, num, str, Result, ok, err, value_error, ◌>>=◌, ◌>>◌, raise_if, not,
}
use stem.Util.Connection.Ipv4.{is_valid_ipv4_address}
use stem.Util.Connection.Ipv6.{is_valid_ipv6_address}
use stem.Util.Connection.Binary.{expand_ipv6_address}
use stem.Client.Datatype.Enums.{addr_type, get}
use stem.Client.Datatype.Packed.{
  pack_ipv4_address, pack_ipv6_address, unpack_ipv4_address, unpack_ipv6_address,
}
use stem.Client.Datatype.Size
use stem.Client.Datatype.Size.{char, split}

-- The enumeration's string and integer, the address as text, and the encoded address.
pub record Address : Type 0 where
  pub addr_type : String
  pub type_int : Value
  pub value : Option Text
  pub value_bin : Bytes

-- The address type that a text shows, where none is given.
unfoldable pub detect_type : Text → Option Value → Result Value
detect_type value (some t) = ok t
detect_type value none =
    if is_valid_ipv4_address value
    then ok (str "IPv4")
    else if is_valid_ipv6_address value false
    then ok (str "IPv6")
    else err value_error

unfoldable pub init_ipv4 : Text → Result (Option Text × Bytes)
init_ipv4 value =
    if is_valid_ipv4_address value
    then (do value_bin ← pack_ipv4_address value; ok (some value, value_bin))
    else if length value == 4
    then (do text ← unpack_ipv4_address value; ok (some text, value))
    else err value_error

unfoldable pub init_ipv6 : Text → Result (Option Text × Bytes)
init_ipv6 value =
    if is_valid_ipv6_address value false
    then (do
      expanded ← expand_ipv6_address value
      value_bin ← pack_ipv6_address (lower expanded)
      ok (some (lower expanded), value_bin))
    else if length value == 16
    then (do text ← unpack_ipv6_address value; ok (some text, value))
    else err value_error

unfoldable pub init_value : String → Text → Result (Option Text × Bytes)
init_value kind value =
    if str_eq kind "IPv4"
    then init_ipv4 value
    else if str_eq kind "IPv6"
    then init_ipv6 value
    else ok (none, value)

-- `Address(value, addr_type)`. The value is ASCII text or bytes, which are one list here.
unfoldable pub init : Text → Option Value → Result Address
init value given = do
  t ← detect_type value given
  (kind, kind_int) ← get addr_type t
  (text, bin) ← init_value kind value
  ok (record { addr_type = kind; type_int = kind_int; value = text; value_bin = bin })

unfoldable pub pack : Address → Result Bytes
pack a = do
  kind ← Size.pack char a.type_int
  size ← Size.pack char (num (length a.value_bin))
  ok (kind ++ (size ++ a.value_bin))

unfoldable pub pop : Bytes → Result (Address × Bytes)
pop content = do
  (kind, content) ← Size.pop char content
  (addr_length, content) ← Size.pop char content
  raise_if (ltb (length content) addr_length) value_error
  let (addr_value, content) = split content addr_length
  a ← init addr_value (some (num kind))
  ok (a, content)
