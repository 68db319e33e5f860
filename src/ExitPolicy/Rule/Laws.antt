-- ===== src/ExitPolicy/Rule/Laws.antt =====
-- What every rule fulfils that was parsed.
use stem.Base.{
  ℕ, ◌≤◌, ◌<◌, [], ◌∷◌, ◌≡◌, refl, sym, subst, arith, Bool, true, false, not, ltb, ◌==◌, Option,
  none, some,
}
use stem.Base.{
  Text, codes, text_eq, starts_with, drop, lstrip, isdigit, digits_value, split_once, upper,
}
use stem.Base.{Error, ok, value_error, raise_if, >>=-eq-ok, Bool-cases, Result-cases, inl, inr}
use stem.Util.Connection.Ipv4.{is_valid_ipv4_address}
use stem.Util.Connection.Port.{is_valid_port, is_valid_ports}
use stem.Util.Connection.Binary.{expand_ipv6_address, get_masked_bits}
use stem.ExitPolicy.Rule.{
  AddressType, wildcard, ipv4, ipv6, Addrspec, Rule, any_address, masked_by, by_mask, by_bits,
  apply_ipv4, apply_ipv6, apply_addrspec, is_bracketed, in_brackets, expand_wildcard, port_value,
  port_range, single_port, ports_between, apply_portspec, keyword_length, split_pattern, init,
}

-- A mask has at most the bits of its type of address, and a rule that is skipped is for IPv4.
unfoldable pub BitsFit : AddressType → Option ℕ → Type 0
BitsFit wildcard bits = bits ≡ none
BitsFit ipv4 none = Unit {0}
BitsFit ipv4 (some bits) = bits ≤ 32
BitsFit ipv6 none = ⊥
BitsFit ipv6 (some bits) = bits ≤ 128

unfoldable pub SkipsIpv4 : AddressType → Bool → Type 0
SkipsIpv4 wildcard skip = skip ≡ false
SkipsIpv4 ipv4 skip = Unit {0}
SkipsIpv4 ipv6 skip = skip ≡ false

pub record IsAddrspec (a : Addrspec) : Type 0 where
  pub bits_fit : BitsFit a.address_type a.masked_bits
  pub skips : SkipsIpv4 a.address_type a.skip_rule

pub record IsParsed (r : Rule) : Type 0 where
  pub addr_lem : IsAddrspec r.addr
  pub ports_ordered : r.min_port ≤ r.max_port
  pub ports_fit : r.max_port < 65536

by_bits-ipv4 :
    (address : Text) (bits : ℕ) (skip : Bool) (a : Addrspec)
    → by_bits ipv4 32 address bits skip ≡ ok a
    → IsAddrspec a
unfolding BitsFit SkipsIpv4
by_bits-ipv4 address bits skip a h = elim (Bool-cases (ltb 32 bits)) [
  | inl large ↦ cc (rw large at h)
  | inr fits ↦
      let made : Addrspec = record {
        address_type = ipv4;
        address = some address;
        masked_bits = some bits;
        mask = none;
        skip_rule = skip;
      } in
      let e : made ≡ a = cc (rw fits at h) in
      subst IsAddrspec e (record { bits_fit = ground arith; skips = tt })
]

by_bits-ipv6 :
    (address : Text) (bits : ℕ) (a : Addrspec)
    → by_bits ipv6 128 address bits false ≡ ok a
    → IsAddrspec a
unfolding BitsFit SkipsIpv4
by_bits-ipv6 address bits a h = elim (Bool-cases (ltb 128 bits)) [
  | inl large ↦ cc (rw large at h)
  | inr fits ↦
      let made : Addrspec = record {
        address_type = ipv6;
        address = some address;
        masked_bits = some bits;
        mask = none;
        skip_rule = false;
      } in
      let e : made ≡ a = cc (rw fits at h) in
      subst IsAddrspec e (record { bits_fit = ground arith; skips = refl })
]

get_masked_bits-le : (mask : Text) (bits : ℕ) → get_masked_bits mask ≡ ok bits → bits ≤ 32
unfolding get_masked_bits
get_masked_bits-le mask bits h = ground arith

valid-port_value :
    (entry : Text) (n : ℕ) → is_valid_port entry true ≡ true → port_value entry ≡ ok n → n < 65536
unfolding is_valid_port port_value
valid-port_value entry n valid h = ground arith

by_mask-IsAddrspec : (address mask : Text) (skip : Bool) → IsAddrspec (by_mask address mask skip)
unfolding BitsFit SkipsIpv4 by_mask
by_mask-IsAddrspec address mask skip = elim (Result-cases (get_masked_bits mask)) [
  | inl (bits, masked) ↦
      subst (λ m. IsAddrspec (masked_by address mask skip m)) (sym masked)
        (record { bits_fit = get_masked_bits-le mask bits masked; skips = tt })
  | inr (e, failed) ↦
      subst (λ m. IsAddrspec (masked_by address mask skip m)) (sym failed)
        (record { bits_fit = tt; skips = tt })
]

apply_ipv4-IsAddrspec :
    (address : Text) (extra : Option Text) (skip : Bool) (a : Addrspec)
    → apply_ipv4 address extra skip ≡ ok a
    → IsAddrspec a
unfolding apply_ipv4
apply_ipv4-IsAddrspec address none skip a h = by_bits-ipv4 address 32 skip a h
apply_ipv4-IsAddrspec address (some extra) skip a h =
    elim (Bool-cases (is_valid_ipv4_address extra)) [
      | inl masked ↦
          let e : by_mask address extra skip ≡ a = cc (rw masked at h) in
          subst IsAddrspec e (by_mask-IsAddrspec address extra skip)
      | inr other ↦ elim (Bool-cases (isdigit extra)) [
        | inl digits ↦ by_bits-ipv4 address (digits_value 0 extra) skip a (rw (other, digits) at h)
        | inr neither ↦ cc (rw (other, neither) at h)
      ]
    ]

apply_ipv6-IsAddrspec :
    (address : Text) (extra : Option Text) (a : Addrspec)
    → apply_ipv6 address extra ≡ ok a
    → IsAddrspec a
unfolding apply_ipv6
apply_ipv6-IsAddrspec address none a h = by_bits-ipv6 address 128 a h
apply_ipv6-IsAddrspec address (some extra) a h = elim (Bool-cases (isdigit extra)) [
  | inl digits ↦ by_bits-ipv6 address (digits_value 0 extra) a (rw digits at h)
  | inr other ↦ cc (rw other at h)
]

any_address-IsAddrspec : IsAddrspec any_address
unfolding BitsFit SkipsIpv4
any_address-IsAddrspec = record { bits_fit = refl; skips = refl }

apply_addrspec-IsAddrspec :
    (spec : Text) (six : Bool) (a : Addrspec) → apply_addrspec spec six ≡ ok a → IsAddrspec a
unfolding apply_addrspec
apply_addrspec-IsAddrspec spec six a h =
    let addrspec : Text = expand_wildcard spec six in
    let address : Text = (split_once b'/' addrspec).0 in
    elim (Bool-cases (text_eq addrspec (codes "*"))) [
      | inl any ↦
          let e : any_address ≡ a = cc (rw any at h) in subst IsAddrspec e any_address-IsAddrspec
      | inr one ↦ elim (Bool-cases (is_valid_ipv4_address address)) [
        | inl v4 ↦
            apply_ipv4-IsAddrspec address (split_once b'/' addrspec).1 six a (rw (one, v4) at h)
        | inr other ↦ elim (Bool-cases (is_bracketed address)) [
          | inl v6 ↦
              let (expanded, _, applied) =
                >>=-eq-ok (expand_ipv6_address (upper (in_brackets address)))
                  (λ e. apply_ipv6 e (split_once b'/' addrspec).1) (rw (one, other, v6) at h) in
              apply_ipv6-IsAddrspec expanded (split_once b'/' addrspec).1 a applied
          | inr neither ↦ cc (rw (one, other, neither) at h)
        ]
      ]
    ]

raise_if-ok : (test : Bool) (e : Error) → raise_if test e ≡ ok tt → test ≡ false
raise_if-ok true e h = cc h
raise_if-ok false e h = refl

valid_pair :
    (low high : Text)
    → not (is_valid_ports (low ∷ high ∷ []) true) ≡ false
    → is_valid_port high true ≡ true
unfolding is_valid_ports
valid_pair low high h = ground arith

port_range-fits :
    (low high : Text) (lo hi : ℕ) → port_range low high ≡ ok (lo, hi) → (lo ≤ hi) × (hi < 65536)
port_range-fits low high lo hi h =
    let (_, valid, h1) =
      >>=-eq-ok (raise_if (not (is_valid_ports (low ∷ high ∷ []) true)) value_error) _ h in
    let (n, first, h2) = >>=-eq-ok (port_value low) _ h1 in
    let (m, second, h3) = >>=-eq-ok (port_value high) _ h2 in
    let (_, ordered, h4) = >>=-eq-ok (raise_if (ltb m n) value_error) _ h3 in
    let fits =
      valid-port_value high m (valid_pair low high (raise_if-ok _ value_error valid)) second in
    let order = raise_if-ok (ltb m n) value_error ordered in
    let (e1, e2) : (n ≡ lo) × (m ≡ hi) = (cc h4, cc h4) in (ground arith, ground arith)

not-false : (b : Bool) → not b ≡ false → b ≡ true
not-false true h = refl
not-false false h = cc h

single_port-fits :
    (portspec : Text) (lo hi : ℕ) → single_port portspec ≡ ok (lo, hi) → (lo ≤ hi) × (hi < 65536)
single_port-fits portspec lo hi h =
    let (_, valid, h1) = >>=-eq-ok (raise_if (not (is_valid_port portspec true)) value_error) _ h in
    let (n, read, h2) = >>=-eq-ok (port_value portspec) _ h1 in
    let fits = valid-port_value portspec n (not-false _ (raise_if-ok _ value_error valid)) read in
    let (e1, e2) : (n ≡ lo) × (n ≡ hi) = (cc h2, cc h2) in (omega arith, omega arith)

ports_between-fits :
    (low : Text) (high : Option Text) (lo hi : ℕ)
    → ports_between low high ≡ ok (lo, hi)
    → (lo ≤ hi) × (hi < 65536)
ports_between-fits low none lo hi h = cc h
ports_between-fits low (some high) lo hi h = port_range-fits low high lo hi h

apply_portspec-fits :
    (portspec : Text) (lo hi : ℕ) → apply_portspec portspec ≡ ok (lo, hi) → (lo ≤ hi) × (hi < 65536)
unfolding apply_portspec
apply_portspec-fits portspec lo hi h = elim (Bool-cases (text_eq portspec (codes "*"))) [
  | inl any ↦
      let (e1, e2) : (1 ≡ lo) × (65535 ≡ hi) = (cc (rw any at h), cc (rw any at h)) in
      (omega arith, omega arith)
  | inr one ↦ elim (Bool-cases (isdigit portspec)) [
    | inl digits ↦ single_port-fits portspec lo hi (rw (one, digits) at h)
    | inr other ↦ ports_between-fits _ _ lo hi (rw (one, other) at h)
  ]
]

-- A rule that is parsed has ports in order and below 65536, and at most the bits of its type of
-- address; if it is skipped, it is for IPv4 addresses.
pub init-IsParsed : (rule : Text) (r : Rule) → init rule ≡ ok r → IsParsed r
unfolding init
init-IsParsed rule r h =
    let (keyword, _, h1) = >>=-eq-ok (keyword_length rule) _ h in
    let (_, _, h2) =
      >>=-eq-ok (raise_if (not (starts_with (codes " ") (drop keyword rule))) value_error) _ h1 in
    let ((addrspec, portspec), _, h3) =
      >>=-eq-ok (split_pattern (lstrip (drop keyword rule))) _ h2 in
    let (a, applied, h4) = >>=-eq-ok (apply_addrspec addrspec (keyword == 7)) _ h3 in
    let ((lo, hi), ports, h5) = >>=-eq-ok (apply_portspec portspec) _ h4 in
    let (ordered, fits) = apply_portspec-fits portspec lo hi ports in
    let made : Rule = record {
      is_accept = starts_with (codes "accept") rule;
      addr = a;
      min_port = lo;
      max_port = hi;
      is_private = false;
      is_default_suffix = false;
    } in
    let e : made ≡ r = cc h5 in
    subst IsParsed e (record {
      addr_lem = apply_addrspec-IsAddrspec addrspec (keyword == 7) a applied;
      ports_ordered = ordered;
      ports_fit = fits;
    })
