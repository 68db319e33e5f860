-- ===== src/ExitPolicy/Policy/Laws.antt =====
-- The shortcuts of a policy do not change what it allows.
use stem.Base.{
  ◌≢◌, ℕ, zero, suc, ◌+◌, ◌≤◌, ◌<◌, List, [], ◌∷◌, ◌≡◌, refl, sym, ap, subst, ◌∙◌, arith, All, Bool,
  true, false, ◌&&◌, ◌==◌, if◌then◌else◌, Option, none, some,
}
use stem.Base.{Text, Result, ok, >>=-eq-ok, Bool-cases, ==_iff, inl, inr}
use stem.Util.Connection.Ipv4.{is_valid_ipv4_address}
use stem.Util.Connection.Ipv6.{is_valid_ipv6_address}
use stem.ExitPolicy.Rule.{Rule, AddressType, wildcard, ipv4, ipv6}
use stem.ExitPolicy.Rule.Laws.{IsParsed, SkipsIpv4}
use stem.ExitPolicy.Match.{
  is_wildcard, is_address_wildcard, is_port_wildcard, is_match, match_address, match_port,
  match_checked, check_address, check_port, strip_left, strip_right, decide, Checked, other_type,
  to_compare,
}
use stem.ExitPolicy.Policy.{
  ExitPolicy, is_catch_all, truncate, first_match, in_range, is_rejected, any_left, accepts_port,
  exiting_loop, is_exiting_allowed, can_exit_to,
}

-- What a match of a port was decided by.
pub record Matched (rule : Rule) (address : Option Text) (p : ℕ) (strict result : Bool)
    : Type 0 where
  pub kept : rule.addr.skip_rule ≡ false
  pub compared : Option Text
  pub checked : check_address rule.addr.address_type address ≡ ok (to_compare compared)
  pub valid : (0 < p) × (p < 65536)
  pub addr : Option Bool
  pub matched : match_address rule compared ≡ ok addr
  pub decided : decide strict rule.is_accept addr (match_port rule (some p)) ≡ result

check_port-ok : (p : ℕ) → check_port (some p) ≡ ok tt → (0 < p) × (p < 65536)
check_port-ok p h = ground arith

match_checked_inv :
    (rule : Rule) (address compared : Option Text) (p : ℕ) (strict result : Bool)
    → rule.addr.skip_rule ≡ false
    → check_address rule.addr.address_type address ≡ ok (to_compare compared)
    → match_checked rule (to_compare compared) (some p) strict ≡ ok result
    → Matched rule address p strict result
match_checked_inv rule address compared p strict result kept checked h =
    let (done, valid, h1) = >>=-eq-ok (check_port (some p)) _ h in
    let (addr, matched, decided) = >>=-eq-ok (match_address rule compared) _ h1 in
    record {
      kept = kept;
      compared = compared;
      checked = checked;
      valid = check_port-ok p valid;
      addr = addr;
      matched = matched;
      decided = cc decided;
    }

checked_inv :
    (rule : Rule) (address : Option Text) (c : Checked) (p : ℕ) (strict : Bool)
    → rule.addr.skip_rule ≡ false
    → check_address rule.addr.address_type address ≡ ok c
    → match_checked rule c (some p) strict ≡ ok true
    → Matched rule address p strict true
checked_inv rule address other_type p strict kept checked h = cc h
checked_inv rule address (to_compare compared) p strict kept checked h =
    match_checked_inv rule address compared p strict true kept checked h

unskipped :
    (skip : Bool) (m : Result Bool)
    → (if skip then ok false else m) ≡ ok true
    → (skip ≡ false) × (m ≡ ok true)
unskipped true m h = cc h
unskipped false m h = (refl, h)

kept_match :
    (skip : Bool) (m : Result Bool) (result : Bool)
    → skip ≡ false
    → (if skip then ok false else m) ≡ ok result
    → m ≡ ok result
kept_match true m result kept h = cc kept
kept_match false m result kept h = h

pub is_match_inv :
    (rule : Rule) (address : Option Text) (p : ℕ) (strict : Bool)
    → is_match rule address (some p) strict ≡ ok true
    → Matched rule address p strict true
unfolding is_match
is_match_inv rule address p strict h =
    let (kept, h1) = unskipped rule.addr.skip_rule _ h in
    let (c, checked, h2) =
      >>=-eq-ok (check_address rule.addr.address_type address)
        (λ c. match_checked rule c (some p) strict) h1 in
    checked_inv rule address c p strict kept checked h2

decide-port :
    (strict is_accept : Bool) (addr port : Option Bool)
    → decide strict is_accept addr port ≡ true
    → port ≢ none
decide-port strict is_accept none port h = cc h
decide-port strict is_accept (some fuzzy) none h = cc h
decide-port strict is_accept (some fuzzy) (some b) h = λ e. cc e

match_port-in_range :
    (rule : Rule) (p : ℕ)
    → 0 < p
    → p < 65536
    → match_port rule (some p) ≢ none
    → in_range rule.min_port rule.max_port p ≡ true
unfolding match_port is_port_wildcard
match_port-in_range rule p low high h = ground arith

-- A rule that matches a port has it in its range.
is_match-in_range :
    (rule : Rule) (address : Option Text) (p : ℕ) (strict : Bool)
    → is_match rule address (some p) strict ≡ ok true
    → in_range rule.min_port rule.max_port p ≡ true
is_match-in_range rule address p strict h =
    let m = is_match_inv rule address p strict h in
    match_port-in_range rule p m.valid.0 m.valid.1
      (decide-port strict rule.is_accept m.addr _ m.decided)

-- A rule for every address is not one that is skipped.
abbrev pub IsRule : Rule → Type 0
IsRule rule = is_address_wildcard rule ≡ true → rule.addr.skip_rule ≡ false

skips_of :
    (kind : AddressType) (skip : Bool)
    → SkipsIpv4 kind skip
    → is_wildcard kind ≡ true
    → skip ≡ false
unfolding SkipsIpv4
skips_of wildcard skip h any = h
skips_of ipv4 skip h any = cc any
skips_of ipv6 skip h any = cc any

-- The rules that are parsed are such rules.
pub IsParsed-IsRule : (rule : Rule) → IsParsed rule → IsRule rule
unfolding is_address_wildcard SkipsIpv4
IsParsed-IsRule rule parsed =
    skips_of rule.addr.address_type rule.addr.skip_rule parsed.addr_lem.skips

check_address-wildcard :
    (kind : AddressType) (address : Option Text) (c : Checked)
    → is_wildcard kind ≡ true
    → check_address kind address ≡ ok c
    → (compared : Option Text) × (c ≡ to_compare compared)
unfolding check_address
check_address-wildcard kind none c any h = (none, cc h)
check_address-wildcard ipv4 (some address) c any h = cc any
check_address-wildcard ipv6 (some address) c any h = cc any
check_address-wildcard wildcard (some address) c any h =
    elim (Bool-cases (is_valid_ipv4_address address)) [
      | inl v4 ↦ (some address, cc (rw v4 at h))
      | inr other ↦ elim (Bool-cases (is_valid_ipv6_address address true)) [
        | inl v6 ↦ (some (strip_right (strip_left address)), cc (rw (other, v6) at h))
        | inr neither ↦ cc (rw (other, neither) at h)
      ]
    ]

match_port-inside :
    (rule : Rule) (p : ℕ)
    → in_range rule.min_port rule.max_port p ≡ true
    → match_port rule (some p) ≡ some false
unfolding match_port is_port_wildcard
match_port-inside rule p inside = ground arith

match_address-wildcard :
    (rule : Rule) (address : Option Text)
    → is_address_wildcard rule ≡ true
    → match_address rule address ≡ ok (some false)
unfolding match_address
match_address-wildcard rule address any = rw any

-- A rule for every address matches the ports of its range.
pub is_match-wildcard :
    (rule : Rule) (address : Option Text) (p : ℕ) (strict result : Bool)
    → IsRule rule
    → is_address_wildcard rule ≡ true
    → match_port rule (some p) ≡ some false
    → is_match rule address (some p) strict ≡ ok result
    → result ≡ true
unfolding is_match is_address_wildcard
is_match-wildcard rule address p strict result is_rule any inside h =
    let kept = is_rule any in
    let h1 = kept_match rule.addr.skip_rule _ result kept h in
    let (c, checked, h2) =
      >>=-eq-ok (check_address rule.addr.address_type address)
        (λ c. match_checked rule c (some p) strict) h1 in
    let (compared, e) = check_address-wildcard rule.addr.address_type address c any checked in
    let m =
      match_checked_inv rule address compared p strict result kept
        (subst (λ c. check_address rule.addr.address_type address ≡ ok c) e checked)
        (subst (λ c. match_checked rule c (some p) strict ≡ ok result) e h2) in
    let addr : m.addr ≡ some false = cc (m.matched, match_address-wildcard rule m.compared any) in
    sym m.decided
    ∙ ap (λ a. decide strict rule.is_accept a (match_port rule (some p))) addr
    ∙ ap (λ o. decide strict rule.is_accept (some false) o) inside

any_left-rejected :
    (rejected : List (ℕ × ℕ)) (port count p : ℕ)
    → any_left rejected port count ≡ false
    → port ≤ p
    → p < port + count
    → is_rejected rejected p ≡ true
unfolding any_left
any_left-rejected rejected port zero p h low high = absurd (omega arith)
any_left-rejected rejected port (suc count) p h low high =
    elim (Bool-cases (is_rejected rejected port)) [
      | inr left ↦ cc (rw left at h)
      | inl first ↦ elim (Bool-cases (port == p)) [
        | inl same ↦ rw (← (==_iff port p).0 same) first
        | inr other ↦
            any_left-rejected rejected (port + 1) count p (rw first at h) (ground arith)
              (omega arith)
      ]
    ]

accepts_port-rejected :
    (rejected : List (ℕ × ℕ)) (rule : Rule) (p : ℕ)
    → accepts_port rejected rule ≡ false
    → in_range rule.min_port rule.max_port p ≡ true
    → is_rejected rejected p ≡ true
accepts_port-rejected rejected rule p h inside =
    let bounds : (rule.min_port ≤ p) × (p ≤ rule.max_port) = ground arith in
    any_left-rejected rejected rule.min_port _ p h bounds.0 (omega arith)

pub match_port-wildcard :
    (rule : Rule) (p : ℕ) → is_port_wildcard rule ≡ true → match_port rule (some p) ≡ some false
unfolding match_port
match_port-wildcard rule p any = rw any

pub both : (a b : Bool) → (a && b) ≡ true → (a ≡ true) × (b ≡ true)
both true true h = (refl, refl)
both true false h = cc h
both false b h = cc h

-- What a match decides, or else the rules that follow.
next :
    (matches is_accept : Bool) (m n : Result Bool) (result : Bool)
    → (if matches then ok is_accept else m) ≡ ok result
    → (m ≡ ok result → n ≡ ok result)
    → (if matches then ok is_accept else n) ≡ ok result
next true is_accept m n result h f = h
next false is_accept m n result h f = f h

-- One round of the loop, with what its parts are known to come to.
exiting_round :
    (is_accept matches accepted any_address any_port rest rest_rejected result : Bool)
    (more : Result Bool)
    → (if is_accept
        then (if accepted then true else rest)
        else if any_address
        then (if any_port then false else rest_rejected)
        else rest)
      ≡ false
    → (if matches then ok is_accept else more) ≡ ok result
    → (is_accept ≡ true → accepted ≡ false → matches ≡ true → ⊥)
    → (any_address ≡ true → any_port ≡ true → matches ≡ true)
    → (rest ≡ false → more ≡ ok result → result ≡ false)
    → (any_address ≡ true
        → matches ≡ false
        → rest_rejected ≡ false
        → more ≡ ok result
        → result ≡ false)
    → result ≡ false
exiting_round true m true a w r r' b more none_allowed h left walled ih ih' = cc none_allowed
exiting_round true true false a w r r' b more none_allowed h left walled ih ih' =
    absurd (left refl refl refl)
exiting_round true false false a w r r' b more none_allowed h left walled ih ih' = ih none_allowed h
exiting_round false true c a w r r' b more none_allowed h left walled ih ih' = cc h
exiting_round false false c true true r r' b more none_allowed h left walled ih ih' =
    cc (walled refl refl)
exiting_round false false c true false r r' b more none_allowed h left walled ih ih' =
    ih' refl refl none_allowed h
exiting_round false false c false w r r' b more none_allowed h left walled ih ih' =
    ih none_allowed h

is_rejected-outside :
    (rejected : List (ℕ × ℕ)) (low high p : ℕ)
    → is_rejected rejected p ≡ false
    → in_range low high p ≢ true
    → is_rejected ((low, high) ∷ rejected) p ≡ false
unfolding is_rejected
is_rejected-outside rejected low high p left outside = ground arith

module _ (address : Option Text) (p : ℕ) (strict default : Bool) where
  -- With the ports that were rejected for every address so far, a policy that allows no exiting
  -- allows none to a port that is not among them.
  exiting_loop_sound :
      (rules : List Rule) (rejected : List (ℕ × ℕ)) (result : Bool)
      → All IsRule rules
      → is_rejected rejected p ≡ false
      → exiting_loop rules rejected default ≡ false
      → first_match rules address (some p) strict default ≡ ok result
      → result ≡ false
  unfolding exiting_loop first_match
  exiting_loop_sound [] rejected result valid left none_allowed h = cc (none_allowed, h)
  exiting_loop_sound (rule ∷ rules) rejected result valid left none_allowed h =
      let (m, matched, h1) = >>=-eq-ok (is_match rule address (some p) strict) _ h in
      let accepted : accepts_port rejected rule ≡ false → m ≡ true → ⊥ = λ none_left match_true.
        let inside =
          is_match-in_range rule address p strict
            (subst (λ m. is_match rule address (some p) strict ≡ ok m) match_true matched) in
        cc (accepts_port-rejected rejected rule p none_left inside, left) in
      let reached : is_address_wildcard rule ≡ true
          → match_port rule (some p) ≡ some false
          → m ≡ true =
        λ any inside. is_match-wildcard rule address p strict m valid.0 any inside matched in
      exiting_round rule.is_accept m (accepts_port rejected rule) (is_address_wildcard rule)
        (is_port_wildcard rule) _ _ result _ none_allowed h1
        (λ _ none_left match_true. accepted none_left match_true)
        (λ any any_port. reached any (match_port-wildcard rule p any_port))
        (λ rest_none rest. exiting_loop_sound rules rejected result valid.1 left rest_none rest)
        (λ any no_match rest_none rest.
          exiting_loop_sound rules ((rule.min_port, rule.max_port) ∷ rejected) result valid.1
            (is_rejected-outside rejected rule.min_port rule.max_port p left
              (λ inside. cc (reached any (match_port-inside rule p inside), no_match)))
            rest_none rest)

-- Whether exiting is allowed at all is looked up first, and this does not change what the rules
-- decide for a port: a policy allows to exit to it what its first matching rule says.
pub can_exit_to-first_match :
    (policy : ExitPolicy) (address : Option Text) (p : ℕ) (strict result : Bool)
    → All IsRule policy.rules
    → first_match policy.rules address (some p) strict policy.is_allowed_default ≡ ok result
    → can_exit_to policy address (some p) strict ≡ ok result
unfolding can_exit_to is_exiting_allowed
can_exit_to-first_match policy address p strict result valid h =
    elim (Bool-cases (exiting_loop policy.rules [] policy.is_allowed_default)) [
      | inl allowed ↦ rw allowed h
      | inr none_allowed ↦
          let no =
            exiting_loop_sound address p strict policy.is_allowed_default policy.rules [] result
              valid (unfold is_rejected in refl) none_allowed h in
          rw (none_allowed, no)
    ]

-- The rules behind one that catches everything do not matter.
pub first_match-truncate :
    (rules : List Rule) (address : Option Text) (p : ℕ) (strict default result : Bool)
    → All IsRule rules
    → first_match rules address (some p) strict default ≡ ok result
    → first_match (truncate rules) address (some p) strict default ≡ ok result
unfolding first_match truncate
first_match-truncate [] address p strict default result valid h = h
first_match-truncate (rule ∷ rules) address p strict default result valid h =
    let (m, matched, h1) = >>=-eq-ok (is_match rule address (some p) strict) _ h in
    elim (Bool-cases (is_catch_all rule)) [
      | inl last ↦
          let (any, any_port) = both (is_address_wildcard rule) (is_port_wildcard rule) last in
          let yes : m ≡ true =
            is_match-wildcard rule address p strict m valid.0 any
              (match_port-wildcard rule p any_port) matched in
          rw (last, matched, yes) (rw yes at h1)
      | inr on ↦
          rw (on, matched)
            (next m rule.is_accept _ _ result h1
              (first_match-truncate rules address p strict default result valid.1))
    ]
