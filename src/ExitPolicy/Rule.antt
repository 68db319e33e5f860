-- ===== src/ExitPolicy/Rule.antt =====
-- `ExitPolicyRule` of exit_policy.py and how it is parsed.
pub mod Laws
use stem.Base.{
  ℕ, ◌-◌, List, [], ◌∷◌, Bool, true, false, not, ◌&&◌, ◌||◌, ltb, ◌==◌, if◌then◌else◌, Option, none,
  some, ℤ, pos, negsuc,
}
use stem.Base.{
  Text, codes, text_eq, starts_with, ends_with, has_char, split_once, lstrip, isdigit, digits_value,
  after_last, without_last, upper, take, drop,
}
use stem.Base.{Result, ok, err, value_error, ◌>>=◌, ◌>>◌, raise_if}
use stem.Util.Decimal.{int_10}
use stem.Util.Connection.Ipv4.{is_valid_ipv4_address}
use stem.Util.Connection.Ipv6.{is_valid_ipv6_address}
use stem.Util.Connection.Port.{is_valid_port, is_valid_ports}
use stem.Util.Connection.Binary.{expand_ipv6_address, get_masked_bits}

pub data AddressType : Type 0 where
  wildcard ipv4 ipv6 : AddressType

-- `mask` is `_mask`, which is set for a mask that is no number of bits.
pub record Addrspec : Type 0 where
  pub address_type : AddressType
  pub address : Option Text
  pub masked_bits : Option ℕ
  pub mask : Option Text
  pub skip_rule : Bool

pub record Rule : Type 0 where
  pub is_accept : Bool
  pub addr : Addrspec
  pub min_port : ℕ
  pub max_port : ℕ
  pub is_private : Bool
  pub is_default_suffix : Bool

abbrev pub any_address : Addrspec
any_address = record {
  address_type = wildcard;
  address = none;
  masked_bits = none;
  mask = none;
  skip_rule = false;
}

-- The IPv4 and IPv6 wildcards are entries of no bits.
unfoldable pub expand_wildcard : Text → Bool → Text
expand_wildcard addrspec is_ipv6_only =
    if text_eq addrspec (codes "*4")
    then codes "0.0.0.0/0"
    else if text_eq addrspec (codes "*6") || (text_eq addrspec (codes "*") && is_ipv6_only)
    then codes "[0000:0000:0000:0000:0000:0000:0000:0000]/0"
    else addrspec

abbrev pub masked_by : Text → Text → Bool → Result ℕ → Addrspec
masked_by address mask skip (ok bits) = record {
  address_type = ipv4;
  address = some address;
  masked_bits = some bits;
  mask = none;
  skip_rule = skip;
}
masked_by address mask skip (err e) = record {
  address_type = ipv4;
  address = some address;
  masked_bits = none;
  mask = some mask;
  skip_rule = skip;
}

-- An error of `get_masked_bits` is caught: the mask itself is kept then.
unfoldable pub by_mask : Text → Text → Bool → Addrspec
by_mask address mask skip = masked_by address mask skip (get_masked_bits mask)

abbrev pub by_bits : AddressType → ℕ → Text → ℕ → Bool → Result Addrspec
by_bits kind most address bits skip =
    if ltb most bits
    then err value_error
    else ok (record {
      address_type = kind;
      address = some address;
      masked_bits = some bits;
      mask = none;
      skip_rule = skip;
    })

unfoldable pub apply_ipv4 : Text → Option Text → Bool → Result Addrspec
apply_ipv4 address none is_ipv6_only = by_bits ipv4 32 address 32 is_ipv6_only
apply_ipv4 address (some extra) is_ipv6_only =
    if is_valid_ipv4_address extra
    then ok (by_mask address extra is_ipv6_only)
    else if isdigit extra
    then by_bits ipv4 32 address (digits_value 0 extra) is_ipv6_only
    else err value_error

unfoldable pub apply_ipv6 : Text → Option Text → Result Addrspec
apply_ipv6 address none = by_bits ipv6 128 address 128 false
apply_ipv6 address (some extra) =
    if isdigit extra then by_bits ipv6 128 address (digits_value 0 extra) false else err value_error

-- `address[1:-1]`
abbrev pub in_brackets : Text → Text
in_brackets address = without_last (drop 1 address)

abbrev pub is_bracketed : Text → Bool
is_bracketed address =
    starts_with (codes "[") address
    && ends_with (codes "]") address
    && is_valid_ipv6_address (in_brackets address) false

-- `_apply_addrspec`
unfoldable pub apply_addrspec : Text → Bool → Result Addrspec
apply_addrspec spec is_ipv6_only =
    let addrspec = expand_wildcard spec is_ipv6_only in
    let (address, extra) = split_once b'/' addrspec in
    if text_eq addrspec (codes "*")
    then ok any_address
    else if is_valid_ipv4_address address
    then apply_ipv4 address extra is_ipv6_only
    else if is_bracketed address
    then (do
      expanded ← expand_ipv6_address (upper (in_brackets address))
      apply_ipv6 expanded extra)
    else err value_error

-- `int` of a port that was found to be valid, so that it is not negative.
unfoldable pub port_value : Text → Result ℕ
port_value entry = int_10 entry >>= natural
  where
    natural : ℤ → Result ℕ
    natural (pos n) = ok n
    natural (negsuc n) = err value_error

abbrev pub port_range : Text → Text → Result (ℕ × ℕ)
port_range low high = do
  raise_if (not (is_valid_ports (low ∷ high ∷ []) true)) value_error
  min_port ← port_value low
  max_port ← port_value high
  raise_if (ltb max_port min_port) value_error
  ok (min_port, max_port)

abbrev pub single_port : Text → Result (ℕ × ℕ)
single_port portspec = do
  raise_if (not (is_valid_port portspec true)) value_error
  port ← port_value portspec
  ok (port, port)

abbrev pub ports_between : Text → Option Text → Result (ℕ × ℕ)
ports_between low none = err value_error
ports_between low (some high) = port_range low high

-- `_apply_portspec`: the lower and the upper port.
unfoldable pub apply_portspec : Text → Result (ℕ × ℕ)
apply_portspec portspec =
    if text_eq portspec (codes "*")
    then ok (1, 65535)
    else if isdigit portspec
    then single_port portspec
    else ports_between (split_once b'-' portspec).0 (split_once b'-' portspec).1

-- The length of the keyword, which an exit pattern follows.
unfoldable pub keyword_length : Text → Result ℕ
keyword_length rule =
    if starts_with (codes "accept6") rule || starts_with (codes "reject6") rule
    then ok 7
    else if starts_with (codes "accept") rule || starts_with (codes "reject") rule
    then ok 6
    else err value_error

-- `exitpattern.rsplit(':', 1)`
unfoldable pub split_pattern : Text → Result (Text × Text)
split_pattern exitpattern = do
  raise_if (not (has_char b':' exitpattern)) value_error
  let end = after_last b':' exitpattern
  raise_if (has_char b']' (drop end exitpattern)) value_error
  ok (take (end - 1) exitpattern, drop end exitpattern)

-- `ExitPolicyRule(rule)`
unfoldable pub init : Text → Result Rule
init rule = do
  keyword ← keyword_length rule
  let exitpattern = drop keyword rule
  raise_if (not (starts_with (codes " ") exitpattern)) value_error
  (addrspec, portspec) ← split_pattern (lstrip exitpattern)
  addr ← apply_addrspec addrspec (keyword == 7)
  (min_port, max_port) ← apply_portspec portspec
  ok (record {
    is_accept = starts_with (codes "accept") rule;
    addr = addr;
    min_port = min_port;
    max_port = max_port;
    is_private = false;
    is_default_suffix = false;
  })
