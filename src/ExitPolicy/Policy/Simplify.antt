-- ===== src/ExitPolicy/Policy/Simplify.antt =====
-- A policy of one kind of rule that ends in a catch-all decides as the catch-all alone.
use stem.Base.{
  ℕ, ◌<◌, List, [], ◌∷◌, ◌≡◌, refl, subst, arith, All, Bool, true, false, not, if◌then◌else◌,
  Option, none, some,
}
use stem.Base.{Text, Result, ok, >>=-eq-ok, Bool-cases, inl, inr}
use stem.Util.Connection.Ipv4.{is_valid_ipv4_address}
use stem.Util.Connection.Ipv6.{is_valid_ipv6_address}
use stem.ExitPolicy.Rule.{Rule, AddressType, wildcard}
use stem.ExitPolicy.Match.{
  is_address_wildcard, is_port_wildcard, is_match, match_address, match_port, check_address,
  check_port, strip_left, strip_right, Checked, to_compare,
}
use stem.ExitPolicy.Policy.{
  is_catch_all, truncate, all_accept, all_reject, ends_with_catch_all, catch_all, simplify,
  of_rules, first_match, can_exit_to,
}
use stem.ExitPolicy.Policy.Laws.{
  IsRule, is_match_inv, is_match-wildcard, match_port-wildcard, both, first_match-truncate,
  can_exit_to-first_match,
}

check_address-any :
    (kind : AddressType) (address : Option Text) (c : Checked)
    → check_address kind address ≡ ok c
    → (compared : Option Text) × (check_address wildcard address ≡ ok (to_compare compared))
unfolding check_address
check_address-any kind none c h = (none, refl)
check_address-any kind (some address) c h = elim (Bool-cases (is_valid_ipv4_address address)) [
  | inl v4 ↦ (some address, rw v4)
  | inr other ↦ elim (Bool-cases (is_valid_ipv6_address address true)) [
    | inl v6 ↦ (some (strip_right (strip_left address)), rw (other, v6))
    | inr neither ↦ cc (rw (other, neither) at h)
  ]
]

check_port-valid : (p : ℕ) → 0 < p → p < 65536 → check_port (some p) ≡ ok tt
check_port-valid p low high = ground arith

match_port-catch_all : (a : Bool) (p : ℕ) → match_port (catch_all a) (some p) ≡ some false
unfolding match_port is_port_wildcard
match_port-catch_all a p = refl

-- Where a rule matches, the catch-all does.
is_match-catch_all :
    (a : Bool) (rule : Rule) (address : Option Text) (p : ℕ) (strict : Bool)
    → is_match rule address (some p) strict ≡ ok true
    → is_match (catch_all a) address (some p) strict ≡ ok true
unfolding is_match match_address is_address_wildcard
is_match-catch_all a rule address p strict h =
    let m = is_match_inv rule address p strict h in
    let (compared, checked) = check_address-any rule.addr.address_type address _ m.checked in
    rw (checked, check_port-valid p m.valid.0 m.valid.1, match_port-catch_all a p)

AllAre : Bool → List Rule → Type 0
AllAre a rules = All (λ rule. rule.is_accept ≡ a) rules

all_accept-AllAre : (rules : List Rule) → all_accept rules ≡ true → AllAre true rules
unfolding all_accept AllAre
all_accept-AllAre [] h = tt
all_accept-AllAre (rule ∷ rules) h =
    let (first, others) = both rule.is_accept (all_accept rules) h in
    (first, all_accept-AllAre rules others)

not-true : (b : Bool) → not b ≡ true → b ≡ false
not-true true h = cc h
not-true false h = refl

all_reject-AllAre : (rules : List Rule) → all_reject rules ≡ true → AllAre false rules
unfolding all_reject AllAre
all_reject-AllAre [] h = tt
all_reject-AllAre (rule ∷ rules) h =
    let (first, others) = both (not rule.is_accept) (all_reject rules) h in
    (not-true rule.is_accept first, all_reject-AllAre rules others)

module _ (a : Bool) (address : Option Text) (p : ℕ) (strict default : Bool) where
  catch_all-decides :
      (rule : Rule)
      → is_match rule address (some p) strict ≡ ok true
      → first_match (catch_all a ∷ []) address (some p) strict default ≡ ok a
  unfolding first_match
  catch_all-decides rule h = rw (is_match-catch_all a rule address p strict h)

  uniform_match :
      (rule : Rule) (result : Bool)
      → rule.is_accept ≡ a
      → is_match rule address (some p) strict ≡ ok true
      → ok rule.is_accept ≡ ok result
      → (result ≡ a) × (first_match (catch_all a ∷ []) address (some p) strict default ≡ ok a)
  uniform_match rule result kind matched h = (cc (h, kind), catch_all-decides rule matched)

  uniform_step :
      (rule : Rule) (matches : Bool) (more : Result Bool) (result : Bool)
      → rule.is_accept ≡ a
      → is_match rule address (some p) strict ≡ ok matches
      → (if matches then ok rule.is_accept else more) ≡ ok result
      → (more ≡ ok result
          → (result ≡ a) × (first_match (catch_all a ∷ []) address (some p) strict default ≡ ok a))
      → (result ≡ a) × (first_match (catch_all a ∷ []) address (some p) strict default ≡ ok a)
  uniform_step rule true more result kind matched h ih = uniform_match rule result kind matched h
  uniform_step rule false more result kind matched h ih = ih h

  uniform :
      (rules : List Rule) (result : Bool)
      → All IsRule rules
      → AllAre a rules
      → ends_with_catch_all rules ≡ true
      → first_match rules address (some p) strict default ≡ ok result
      → (result ≡ a) × (first_match (catch_all a ∷ []) address (some p) strict default ≡ ok a)
  unfolding first_match ends_with_catch_all AllAre
  uniform [] result valid kinds last h = cc last
  uniform (rule ∷ []) result valid kinds last h =
      let (m, matched, h1) = >>=-eq-ok (is_match rule address (some p) strict) _ h in
      let (any, any_port) = both (is_address_wildcard rule) (is_port_wildcard rule) last in
      let yes =
        is_match-wildcard rule address p strict m valid.0 any (match_port-wildcard rule p any_port)
          matched in
      uniform_match rule result kinds.0
        (subst (λ m. is_match rule address (some p) strict ≡ ok m) yes matched)
        (subst (λ m. (if m then ok rule.is_accept else ok default) ≡ ok result) yes h1)
  uniform (rule ∷ following ∷ rules) result valid kinds last h =
      let (m, matched, h1) = >>=-eq-ok (is_match rule address (some p) strict) _ h in
      uniform_step rule m _ result kinds.0 matched h1
        (λ more. uniform (following ∷ rules) result valid.1 kinds.1 last more)

pub simplify-first_match :
    (rules : List Rule) (address : Option Text) (p : ℕ) (strict default result : Bool)
    → All IsRule rules
    → first_match rules address (some p) strict default ≡ ok result
    → first_match (simplify rules) address (some p) strict default ≡ ok result
unfolding simplify
simplify-first_match rules address p strict default result valid h =
    elim (Bool-cases (ends_with_catch_all rules)) [
      | inr other ↦ rw other h
      | inl last ↦ elim (Bool-cases (all_accept rules)) [
        | inl accepts ↦
            let (same, decided) =
              uniform true address p strict default rules result valid
                (all_accept-AllAre rules accepts) last h in
            rw (last, accepts, same) decided
        | inr mixed ↦ elim (Bool-cases (all_reject rules)) [
          | inl rejects ↦
              let (same, decided) =
                uniform false address p strict default rules result valid
                  (all_reject-AllAre rules rejects) last h in
              rw (last, mixed, rejects, same) decided
          | inr both_kinds ↦ rw (last, mixed, both_kinds) h
        ]
      ]
    ]

catch_all-IsRule : (a : Bool) → IsRule (catch_all a)
catch_all-IsRule a any = refl

pub truncate-All : (rules : List Rule) → All IsRule rules → All IsRule (truncate rules)
unfolding truncate
truncate-All [] valid = tt
truncate-All (rule ∷ rules) valid = elim (Bool-cases (is_catch_all rule)) [
  | inl last ↦ rw last (valid.0, tt)
  | inr on ↦ rw on (valid.0, truncate-All rules valid.1)
]

pub simplify-All : (rules : List Rule) → All IsRule rules → All IsRule (simplify rules)
unfolding simplify
simplify-All rules valid = elim (Bool-cases (ends_with_catch_all rules)) [
  | inr other ↦ rw other valid
  | inl last ↦ elim (Bool-cases (all_accept rules)) [
    | inl accepts ↦ rw (last, accepts) (catch_all-IsRule true, tt)
    | inr mixed ↦ elim (Bool-cases (all_reject rules)) [
      | inl rejects ↦ rw (last, mixed, rejects) (catch_all-IsRule false, tt)
      | inr both_kinds ↦ rw (last, mixed, both_kinds) valid
    ]
  ]
]

-- A policy that is made of rules, of which none for every address is skipped, allows to exit to a
-- port what the first of the given rules that matches says, and exiting where none does, if looking
-- for it raises no error: neither leaving out the rules behind a catch-all, nor
-- simplifying those of one kind, nor looking up whether exiting is allowed at all changes this.
pub can_exit_to-of_rules :
    (rules : List Rule) (address : Option Text) (p : ℕ) (strict result : Bool)
    → All IsRule rules
    → first_match rules address (some p) strict true ≡ ok result
    → can_exit_to (of_rules rules) address (some p) strict ≡ ok result
unfolding of_rules
can_exit_to-of_rules rules address p strict result valid h =
    let cut = truncate-All rules valid in
    can_exit_to-first_match (of_rules rules) address p strict result
      (simplify-All (truncate rules) cut)
      (simplify-first_match (truncate rules) address p strict true result cut
        (first_match-truncate rules address p strict true result valid h))
