-- ===== src/ExitPolicy/Micro.antt =====
-- `MicroExitPolicy` of exit_policy.py: a list of ports that are accepted or rejected.
pub mod Laws
use stem.Base.{
  ℕ, List, [], ◌∷◌, Bool, true, false, not, ◌&&◌, ◌||◌, if◌then◌else◌, Option, none, some,
}
use stem.Base.{Text, codes, starts_with, has_char, split_once, split_on, lstrip, drop}
use stem.Base.{Result, ok, err, value_error, ◌>>=◌, ◌>>◌, raise_if}
use stem.Util.Connection.Port.{is_valid_port}
use stem.ExitPolicy.Rule.{Rule, any_address, port_value}
use stem.ExitPolicy.Policy.{ExitPolicy, truncate, simplify, in_range}

pub record MicroExitPolicy : Type 0 where
  pub is_accept : Bool
  pub policy : ExitPolicy
  pub policy_str : Text

-- `MicroExitPolicyRule(is_accept, min_port, max_port)`, whose address is a wildcard.
abbrev pub micro_rule : Bool → ℕ × ℕ → Rule
micro_rule is_accept (low, high) = record {
  is_accept = is_accept;
  addr = any_address;
  min_port = low;
  max_port = high;
  is_private = false;
  is_default_suffix = false;
}

-- A port, or a range of ports.
unfoldable pub bounds_of : Text → Text × Text
bounds_of entry = elim (has_char b'-' entry) [
  | false ↦ (entry, entry)
  | true ↦ ((split_once b'-' entry).0, after_dash (split_once b'-' entry).1)
]
  where
    after_dash : Option Text → Text
    after_dash none = []
    after_dash (some high) = high

unfoldable pub read_range : Text → Result (ℕ × ℕ)
read_range entry = do
  let (low, high) = bounds_of entry
  raise_if (not (is_valid_port low false) || not (is_valid_port high false)) value_error
  min_port ← port_value low
  max_port ← port_value high
  ok (min_port, max_port)

unfoldable pub read_ranges : List Text → Result (List (ℕ × ℕ))
read_ranges [] = ok []
read_ranges (entry ∷ entries) = do
  range ← read_range entry
  ranges ← read_ranges entries
  ok (range ∷ ranges)

unfoldable pub micro_rules : Bool → List (ℕ × ℕ) → List Rule
micro_rules is_accept [] = []
micro_rules is_accept (range ∷ ranges) = micro_rule is_accept range ∷ micro_rules is_accept ranges

-- The policy of the ranges: what is not in them is treated the other way.
unfoldable pub of_ranges : Bool → List (ℕ × ℕ) → ExitPolicy
of_ranges is_accept ranges = record {
  rules = simplify (truncate (micro_rules is_accept ranges));
  is_allowed_default = not is_accept;
}

unfoldable pub label : Text → Result Bool
label policy =
    if starts_with (codes "accept") policy
    then ok true
    else if starts_with (codes "reject") policy
    then ok false
    else err value_error

-- `MicroExitPolicy(policy)`
unfoldable pub init : Text → Result MicroExitPolicy
init policy_str = do
  is_accept ← label policy_str
  let policy = drop 6 policy_str
  raise_if (not (starts_with (codes " ") policy)) value_error
  ranges ← read_ranges (split_on b',' (lstrip policy))
  ok (record {
    is_accept = is_accept;
    policy = of_ranges is_accept ranges;
    policy_str = policy_str;
  })
