-- ===== src/ExitPolicy/Tests.antt =====
-- Concrete policies, to which the theorems about exit_policy.py are applied.

use stem.Base.{
  ℕ, List, [], ◌∷◌, ◌≡◌, refl, arith, true, false, none, some, codes, ok, same_bool, starts_with,
  has_char, after_last, text_eq, isdigit, split_once, lstrip, drop, split_on,
}
use stem.Util.Connection.Port.{is_valid_port}
use stem.ExitPolicy.Rule
use stem.ExitPolicy.Rule.{
  Rule, any_address, apply_addrspec, apply_portspec, port_value, keyword_length, split_pattern,
  expand_wildcard,
}
use stem.ExitPolicy.Rule.Laws.{IsParsed, init-IsParsed}
use stem.ExitPolicy.Match.{
  is_match, check_address, match_address, match_port, is_address_wildcard, is_port_wildcard,
}
use stem.ExitPolicy.Policy.{first_match, catch_all, of_rules, can_exit_to, is_rejected}
use stem.ExitPolicy.Policy.Simplify.{can_exit_to-of_rules}
use stem.ExitPolicy.Micro
use stem.ExitPolicy.Micro.{MicroExitPolicy, of_ranges, label, read_range, read_ranges, bounds_of}
use stem.ExitPolicy.Micro.Laws.{can_exit_to-init}

abbrev web : Rule
web = record {
  is_accept = true;
  addr = any_address;
  min_port = 80;
  max_port = 80;
  is_private = false;
  is_default_suffix = false;
}

init-web : Rule.init (codes "accept *:80") ≡ ok web
unfolding Rule.init keyword_length split_pattern apply_addrspec expand_wildcard apply_portspec
    port_value starts_with has_char lstrip after_last text_eq isdigit is_valid_port
init-web = refl

init-IsParsed_example : IsParsed web
init-IsParsed_example = init-IsParsed (codes "accept *:80") web init-web

first_match-web : first_match (web ∷ catch_all false ∷ []) none (some 443) false true ≡ ok false
unfolding first_match is_match check_address match_address match_port is_address_wildcard
    is_port_wildcard
first_match-web = refl

can_exit_to-of_rules_example :
    can_exit_to (of_rules (web ∷ catch_all false ∷ [])) none (some 443) false ≡ ok false
can_exit_to-of_rules_example =
    can_exit_to-of_rules (web ∷ catch_all false ∷ []) none 443 false false
      ((λ any. refl), ((λ any. refl), tt)) first_match-web

abbrev micro_example : MicroExitPolicy
micro_example = record {
  is_accept = true;
  policy = of_ranges true ((80, 80) ∷ (440, 450) ∷ []);
  policy_str = codes "accept 80,440-450";
}

init-micro : Micro.init (codes "accept 80,440-450") ≡ ok micro_example
unfolding Micro.init label read_ranges read_range bounds_of port_value starts_with split_on lstrip
    is_valid_port has_char split_once
init-micro = refl

can_exit_to-init_example :
    (ranges : List (ℕ × ℕ)) × (read_ranges
        (split_on b',' (lstrip (drop 6 (codes "accept 80,440-450"))))
      ≡ ok ranges)
    × (can_exit_to micro_example.policy none (some 443) false
        ≡ ok (same_bool true (is_rejected ranges 443)))
can_exit_to-init_example =
    can_exit_to-init (codes "accept 80,440-450") micro_example 443 false (omega arith) (omega arith)
      init-micro
