-- ===== src/ExitPolicy/Match.antt =====
-- `ExitPolicyRule.is_match` of exit_policy.py, and the masks that it compares.
use stem.Base.{
  ℕ, Bool, true, false, not, ◌&&◌, ◌||◌, ltb, ◌==◌, same_bool, if◌then◌else◌, Option, none, some,
  pos,
}
use stem.Base.{Text, [], ◌∷◌, is_empty_text}
use stem.Base.{Result, ok, err, value_error, type_error, ◌>>=◌, ◌>>◌, raise_if}
use stem.Base.Bits.{bit_and}
use stem.Util.Connection.Ipv4.{is_valid_ipv4_address}
use stem.Util.Connection.Ipv6.{is_valid_ipv6_address}
use stem.Util.Connection.Port.{is_valid_port_int}
use stem.Util.Connection.Binary.{
  get_mask_ipv4, get_mask_ipv6, address_to_binary, binary_value, address_to_int,
}
use stem.ExitPolicy.Rule.{AddressType, wildcard, ipv4, ipv6, Addrspec, Rule}

abbrev pub is_wildcard : AddressType → Bool
is_wildcard wildcard = true
is_wildcard ipv4 = false
is_wildcard ipv6 = false

unfoldable pub is_address_wildcard : Rule → Bool
is_address_wildcard rule = is_wildcard rule.addr.address_type

unfoldable pub is_port_wildcard : Rule → Bool
is_port_wildcard rule = ltb rule.min_port 2 && rule.max_port == 65535

-- The mask that the bits stand for; a wildcard has none, and comparing no bits raises.
abbrev pub mask_of_bits : AddressType → Option ℕ → Result Text
mask_of_bits wildcard bits = err type_error
mask_of_bits ipv4 none = err type_error
mask_of_bits ipv4 (some bits) = get_mask_ipv4 bits
mask_of_bits ipv6 none = err type_error
mask_of_bits ipv6 (some bits) = get_mask_ipv6 bits

unfoldable pub get_mask : Addrspec → Result Text
get_mask addr = elim addr.mask [
  | some mask ↦ ok mask
  | none ↦ mask_of_bits addr.address_type addr.masked_bits
]

unfoldable pub get_mask_bin : Addrspec → Result ℕ
get_mask_bin addr = do
  mask ← get_mask addr
  binary ← address_to_binary mask
  ok (binary_value 0 binary)

-- `&` is of integers below 2 ^ 128.
unfoldable pub get_address_bin : Addrspec → Result ℕ
get_address_bin addr = elim addr.address [
  | none ↦ err type_error
  | some address ↦ do
    value ← address_to_int address
    mask ← get_mask_bin addr
    ok (bit_and 128 value mask)
]

-- `address.lstrip('[')`, `address.rstrip(']')`
unfoldable pub strip_left : Text → Text
strip_left [] = []
strip_left (c ∷ s) = let rest = strip_left s in if c == b'[' then rest else c ∷ s

unfoldable pub strip_right : Text → Text
strip_right [] = []
strip_right (c ∷ s) =
    let rest = strip_right s in if is_empty_text rest && c == b']' then [] else c ∷ rest

-- What the checks of an address come to: it is of the other type, or the address to compare.
pub data Checked : Type 0 where
  other_type : Checked
  to_compare : Option Text → Checked

abbrev pub is_ipv4_rule : AddressType → Bool
is_ipv4_rule ipv4 = true
is_ipv4_rule wildcard = false
is_ipv4_rule ipv6 = false

abbrev pub is_ipv6_rule : AddressType → Bool
is_ipv6_rule ipv6 = true
is_ipv6_rule wildcard = false
is_ipv6_rule ipv4 = false

unfoldable pub check_address : AddressType → Option Text → Result Checked
check_address kind none = ok (to_compare none)
check_address kind (some address) =
    if is_valid_ipv4_address address
    then ok (if is_ipv6_rule kind then other_type else to_compare (some address))
    else if is_valid_ipv6_address address true
    then ok (
        if is_ipv4_rule kind
        then other_type
        else to_compare (some (strip_right (strip_left address))))
    else err value_error

-- A part of the destination differs, or agrees, in which case it may be that it was not given.
unfoldable pub match_address : Rule → Option Text → Result (Option Bool)
match_address rule address = if is_address_wildcard rule then ok (some false) else elim address [
  | none ↦ ok (some true)
  | some given ↦ do
    value ← address_to_int given
    mask ← get_mask_bin rule.addr
    expected ← get_address_bin rule.addr
    ok (if expected == bit_and 128 value mask then some false else none)
]

unfoldable pub match_port : Rule → Option ℕ → Option Bool
match_port rule port = if is_port_wildcard rule then some false else elim port [
  | none ↦ some true
  | some p ↦ if ltb p rule.min_port || ltb rule.max_port p then none else some false
]

abbrev pub check_port : Option ℕ → Result (Unit {0})
check_port none = ok tt
check_port (some p) = raise_if (not (is_valid_port_int (pos p) false)) value_error

-- A rule that is fuzzy for the destination matches where it is decisive.
abbrev pub decide : Bool → Bool → Option Bool → Option Bool → Bool
decide strict is_accept none port = false
decide strict is_accept (some fuzzy) none = false
decide strict is_accept (some fuzzy) (some fuzzy_port) =
    if fuzzy || fuzzy_port then not (same_bool strict is_accept) else true

abbrev pub match_checked : Rule → Checked → Option ℕ → Bool → Result Bool
match_checked rule other_type port strict = ok false
match_checked rule (to_compare address) port strict = do
  check_port port
  addr ← match_address rule address
  ok (decide strict rule.is_accept addr (match_port rule port))

-- `rule.is_match(address, port, strict)`. A port is a natural number; one that is negative is not
-- valid either.
unfoldable pub is_match : Rule → Option Text → Option ℕ → Bool → Result Bool
is_match rule address port strict = if rule.addr.skip_rule then ok false else (do
  checked ← check_address rule.addr.address_type address
  match_checked rule checked port strict)
