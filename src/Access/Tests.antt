-- ===== src/Access/Tests.antt =====
-- Concrete rules for the evaluator, as in evaluator_test.go.
use opendesk_remote.Prelude.{
  ◌≡◌, refl, inl, inr, true, false, some, List, [], ◌∷◌, pos, All, keep, contains, not, ◌&&◌, ◌==◌,
  string_eq,
}
use opendesk_remote.Access.{User, Device, Rule, evaluate, rule_matches, rank, sort_stable}
use opendesk_remote.Access.Order.{HasEffect}
use opendesk_remote.Access.Described.{Among, applies, precedes, decision}
use opendesk_remote.Access.Reported.{evaluate-decision, evaluate-reported}

abbrev alice : User
alice = record { id = pos 1; status = "active"; group_ids = pos 10 ∷ [] }

abbrev workstation : Device
workstation = record { id = pos 2; status = "online"; group_ids = pos 20 ∷ [] }

abbrev allow_alice : Rule
allow_alice = record {
  id = pos 1;
  subject_type = "user";
  subject_id = pos 1;
  target_type = "device";
  target_id = pos 2;
  effect = "allow";
  priority = pos 5;
  enabled = true;
}

abbrev deny_group : Rule
deny_group = record {
  id = pos 2;
  subject_type = "user_group";
  subject_id = pos 10;
  target_type = "device_group";
  target_id = pos 20;
  effect = "deny";
  priority = pos 1;
  enabled = true;
}

abbrev two_rules : List Rule
two_rules = allow_alice ∷ deny_group ∷ []

two_rules-HasEffect : All HasEffect two_rules
two_rules-HasEffect = (inl refl, (inr refl, tt))

evaluate-decision_example :
    evaluate two_rules alice workstation ≡ decision two_rules alice workstation
evaluate-decision_example = evaluate-decision two_rules alice workstation two_rules-HasEffect

denied : (evaluate two_rules alice workstation).matched_rule ≡ some deny_group
unfolding evaluate rule_matches rank sort_stable keep contains
denied = refl

evaluate-reported_example :
    Among deny_group two_rules
    × (applies deny_group alice workstation ≡ true)
    × All (λ x. (applies x alice workstation && precedes x deny_group) ≡ false) two_rules
    × ((evaluate two_rules alice workstation).allowed ≡ not (deny_group.effect == "deny"))
evaluate-reported_example =
    evaluate-reported two_rules alice workstation deny_group two_rules-HasEffect refl denied
