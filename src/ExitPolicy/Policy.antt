-- ===== src/ExitPolicy/Policy.antt =====
-- `ExitPolicy` of exit_policy.py: the chain of rules, and what it allows.
pub mod Laws
pub mod Simplify
use stem.Base.{
  ℕ, zero, suc, ◌+◌, ◌-◌, List, [], ◌∷◌, ◌++◌, Bool, true, false, not, ◌&&◌, ◌||◌, ltb, leb, ◌==◌,
  same_bool, if◌then◌else◌, Option, none, some,
}
use stem.Base.{Text, codes, split_on, join, lstrip, rstrip}
use stem.Base.{Result, ok, err, ◌>>=◌}
use stem.ExitPolicy.Rule
use stem.ExitPolicy.Rule.{Rule, any_address}
use stem.ExitPolicy.Match.{is_address_wildcard, is_port_wildcard, is_match}

pub record ExitPolicy : Type 0 where
  pub rules : List Rule
  pub is_allowed_default : Bool

abbrev pub is_catch_all : Rule → Bool
is_catch_all rule = is_address_wildcard rule && is_port_wildcard rule

-- The rules up to the first that catches all, of rules that are given as objects.
unfoldable pub truncate : List Rule → List Rule
truncate [] = []
truncate (rule ∷ rules) =
    let rest = truncate rules in if is_catch_all rule then rule ∷ [] else rule ∷ rest

-- The same of rules that are given as text: those behind the catch-all are not parsed.
unfoldable pub read_rules : List Text → Result (List Rule)
read_rules [] = ok []
read_rules (entry ∷ entries) =
    let rest = read_rules entries in
    elim (lstrip (rstrip entry)) [
      | [] ↦ rest
      | c ∷ s ↦ do
        rule ← Rule.init (c ∷ s)
        elim (is_catch_all rule) [
          | true ↦ ok (rule ∷ [])
          | false ↦ do rules ← rest; ok (rule ∷ rules)
        ]
    ]

unfoldable pub all_accept : List Rule → Bool
all_accept [] = true
all_accept (rule ∷ rules) = rule.is_accept && all_accept rules

unfoldable pub all_reject : List Rule → Bool
all_reject [] = true
all_reject (rule ∷ rules) = not rule.is_accept && all_reject rules

unfoldable pub ends_with_catch_all : List Rule → Bool
ends_with_catch_all [] = false
ends_with_catch_all (rule ∷ []) = is_catch_all rule
ends_with_catch_all (rule ∷ next ∷ rules) = ends_with_catch_all (next ∷ rules)

-- `ExitPolicyRule('accept *:*')`, `ExitPolicyRule('reject *:*')`
abbrev pub catch_all : Bool → Rule
catch_all is_accept = record {
  is_accept = is_accept;
  addr = any_address;
  min_port = 1;
  max_port = 65535;
  is_private = false;
  is_default_suffix = false;
}

-- One kind of rule that ends in a catch-all is the catch-all alone.
unfoldable pub simplify : List Rule → List Rule
simplify rules =
    if ends_with_catch_all rules
    then (if all_accept rules
        then catch_all true ∷ []
        else if all_reject rules
        then catch_all false ∷ []
        else rules)
    else rules

-- `ExitPolicy(*rules)` of rule objects, and of texts, which are joined and split again.
unfoldable pub of_rules : List Rule → ExitPolicy
of_rules rules = record { rules = simplify (truncate rules); is_allowed_default = true }

unfoldable pub of_texts : List Text → Result ExitPolicy
of_texts texts = do
  rules ← read_rules (split_on b',' (join (codes ",") texts))
  ok (record { rules = simplify rules; is_allowed_default = true })

-- The first rule that matches decides, and the default otherwise.
unfoldable pub first_match : List Rule → Option Text → Option ℕ → Bool → Bool → Result Bool
first_match [] address port strict default = ok default
first_match (rule ∷ rules) address port strict default =
    let rest = first_match rules address port strict default in
    is_match rule address port strict >>= λ matches. if matches then ok rule.is_accept else rest

-- A set of ports, as the ranges that it was updated with.
abbrev pub in_range : ℕ → ℕ → ℕ → Bool
in_range low high port = leb low port && leb port high

unfoldable pub is_rejected : List (ℕ × ℕ) → ℕ → Bool
is_rejected [] port = false
is_rejected ((low, high) ∷ ranges) port = in_range low high port || is_rejected ranges port

-- Whether one of so many ports from a port on is not in the set.
unfoldable pub any_left : List (ℕ × ℕ) → ℕ → ℕ → Bool
any_left rejected port zero = false
any_left rejected port (suc count) =
    not (is_rejected rejected port) || any_left rejected (port + 1) count

-- `for port in range(min_port, max_port + 1)`
abbrev pub accepts_port : List (ℕ × ℕ) → Rule → Bool
accepts_port rejected rule = any_left rejected rule.min_port ((rule.max_port + 1) - rule.min_port)

unfoldable pub exiting_loop : List Rule → List (ℕ × ℕ) → Bool → Bool
exiting_loop [] rejected default = default
exiting_loop (rule ∷ rules) rejected default =
    let rest = exiting_loop rules rejected default in
    let rest_rejected = exiting_loop rules ((rule.min_port, rule.max_port) ∷ rejected) default in
    if rule.is_accept
    then (if accepts_port rejected rule then true else rest)
    else if is_address_wildcard rule
    then (if is_port_wildcard rule then false else rest_rejected)
    else rest

unfoldable pub is_exiting_allowed : ExitPolicy → Bool
is_exiting_allowed policy = exiting_loop policy.rules [] policy.is_allowed_default

unfoldable pub can_exit_to : ExitPolicy → Option Text → Option ℕ → Bool → Result Bool
can_exit_to policy address port strict =
    if not (is_exiting_allowed policy)
    then ok false
    else first_match policy.rules address port strict policy.is_allowed_default
