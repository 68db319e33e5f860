-- ===== src/ExitPolicy/Micro/Laws.antt =====
-- A microdescriptor's policy allows to exit to the ports that it lists, or to the others.
use stem.Base.{
  ℕ, ◌<◌, List, [], ◌∷◌, ◌≡◌, refl, subst, arith, All, Bool, true, false, not, ◌||◌, same_bool,
  if◌then◌else◌, none, some,
}
use stem.Base.{
  Text, codes, split_on, lstrip, drop, starts_with, ok, value_error, raise_if, >>=-eq-ok,
}
use stem.ExitPolicy.Match.{
  is_address_wildcard, is_port_wildcard, is_match, match_address, match_port, check_address,
}
use stem.ExitPolicy.Policy.{truncate, first_match, in_range, is_rejected, can_exit_to}
use stem.ExitPolicy.Policy.Laws.{IsRule, first_match-truncate, can_exit_to-first_match}
use stem.ExitPolicy.Policy.Simplify.{truncate-All, simplify-All, simplify-first_match}
use stem.ExitPolicy.Micro.{
  MicroExitPolicy, micro_rule, micro_rules, of_ranges, label, read_ranges, init,
}

joined :
    (a inside others : Bool)
    → (if inside then ok a else ok (same_bool a others)) ≡ ok (same_bool a (inside || others))
joined true true others = refl
joined true false others = refl
joined false true others = refl
joined false false others = refl

micro_rules-All : (a : Bool) (ranges : List (ℕ × ℕ)) → All IsRule (micro_rules a ranges)
unfolding micro_rules
micro_rules-All a [] = tt
micro_rules-All a ((low, high) ∷ ranges) = (λ any. refl, micro_rules-All a ranges)

module _ (p : ℕ) (positive : 0 < p) (fits : p < 65536) (strict : Bool) where
  is_match-micro_rule :
      (a : Bool) (low high : ℕ)
      → is_match (micro_rule a (low, high)) none (some p) strict ≡ ok (in_range low high p)
  unfolding is_match check_address match_address match_port is_address_wildcard is_port_wildcard
  is_match-micro_rule a low high = ground arith

  first_match-micro_rules :
      (a : Bool) (ranges : List (ℕ × ℕ))
      → first_match (micro_rules a ranges) none (some p) strict (not a)
        ≡ ok (same_bool a (is_rejected ranges p))
  unfolding first_match micro_rules is_rejected
  first_match-micro_rules true [] = refl
  first_match-micro_rules false [] = refl
  first_match-micro_rules a ((low, high) ∷ ranges) =
      rw (is_match-micro_rule a low high, first_match-micro_rules a ranges)
        (joined a (in_range low high p) (is_rejected ranges p))

  pub can_exit_to-of_ranges :
      (a : Bool) (ranges : List (ℕ × ℕ))
      → can_exit_to (of_ranges a ranges) none (some p) strict
        ≡ ok (same_bool a (is_rejected ranges p))
  unfolding of_ranges
  can_exit_to-of_ranges a ranges =
      let valid = micro_rules-All a ranges in
      let cut = truncate-All (micro_rules a ranges) valid in
      can_exit_to-first_match (of_ranges a ranges) none p strict _
        (simplify-All (truncate (micro_rules a ranges)) cut)
        (simplify-first_match (truncate (micro_rules a ranges)) none p strict (not a) _ cut (
          first_match-truncate (micro_rules a ranges) none p strict (not a) _ valid
            (first_match-micro_rules a ranges)))

-- A policy that is parsed allows to exit to a port if it accepts ports and lists this one, or if
-- it rejects ports and does not list it.
pub can_exit_to-init :
    (text : Text) (m : MicroExitPolicy) (p : ℕ) (strict : Bool)
    → 0 < p
    → p < 65536
    → init text ≡ ok m
    → (ranges : List (ℕ × ℕ)) × (read_ranges (split_on b',' (lstrip (drop 6 text))) ≡ ok ranges)
      × (can_exit_to m.policy none (some p) strict
          ≡ ok (same_bool m.is_accept (is_rejected ranges p)))
unfolding init
can_exit_to-init text m p strict positive fits h =
    let (a, _, h1) = >>=-eq-ok (label text) _ h in
    let (_, _, h2) =
      >>=-eq-ok (raise_if (not (starts_with (codes " ") (drop 6 text))) value_error) _ h1 in
    let (ranges, read, h3) = >>=-eq-ok (read_ranges (split_on b',' (lstrip (drop 6 text)))) _ h2 in
    let made : MicroExitPolicy = record {
      is_accept = a;
      policy = of_ranges a ranges;
      policy_str = text;
    } in
    let e : made ≡ m = cc h3 in
    (
      ranges,
      read,
      subst
          (λ m.
            can_exit_to m.policy none (some p) strict
            ≡ ok (same_bool m.is_accept (is_rejected ranges p)))
          e (can_exit_to-of_ranges p positive fits strict a ranges),
    )
