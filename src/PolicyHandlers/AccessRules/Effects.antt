-- ===== src/PolicyHandlers/AccessRules/Effects.antt =====
-- Whatever the handlers are asked for, every stored access rule allows or denies.
use opendesk_remote.Prelude.{
  ℤ, ◌≡◌, ◌⊎◌, refl, Option, none, some, Time, All, All-append, All-modify_first, All-remove_first,
  sym, ap, contains, Result, ok, err, arith, eq_iff, string_eq, int_has_eq,
}
use mathlib.Core.Path.{subst}
use opendesk_remote.Models.Policies.{AccessRule}
use opendesk_remote.Repository.{Memory}
use opendesk_remote.Repository.Lookup.{guarded-keeps}
use opendesk_remote.Repository.AccessRules.{
  create_access_rule, update_access_rule, delete_access_rule,
}
use opendesk_remote.Http.{Visit}
use opendesk_remote.Http.Audited.{audited-noted}
use opendesk_remote.PolicyHandlers.{Printing, one_of}
use opendesk_remote.PolicyHandlers.AccessRules.{
  CreateAccessRuleRequest, validate_access_rule, rule_of, rule_created, create_checked,
  post_access_rule, rule_updated, update_checked, put_access_rule, rule_deleted, remove_access_rule,
}

abbrev pub IsEffective : AccessRule → Type 0
IsEffective rule = (rule.effect ≡ "allow") ⊎ (rule.effect ≡ "deny")

abbrev pub IsSound : Memory → Type 0
IsSound m = All IsEffective m.access_rules

-- A request to change the rules, with the two readings of the clock.
pub data Edit : Type 0 where
  posts : Time → Time → Option CreateAccessRuleRequest → Edit
  puts : Time → Time → ℤ → Option CreateAccessRuleRequest → Edit
  removes : Time → ℤ → Edit

pub edit : Printing → Visit → Memory → Edit → Memory
edit printing visit m (posts now logged req) = (post_access_rule printing visit m now logged req).0
edit printing visit m (puts now logged id req) =
    (put_access_rule printing visit m now logged id req).0
edit printing visit m (removes logged id) = (remove_access_rule printing visit m logged id).0

valid_effect :
    (req : CreateAccessRuleRequest) → validate_access_rule req ≡ ok tt → IsEffective (rule_of req)
unfolding validate_access_rule one_of contains rule_of
valid_effect req h = ground (arith, eq_iff "allow" req.effect, eq_iff "deny" req.effect)

create_access_rule-IsSound :
    (m : Memory) (now : Time) (rule : AccessRule)
    → IsEffective rule
    → IsSound m
    → IsSound (create_access_rule m now rule).0
unfolding create_access_rule
create_access_rule-IsSound m now rule effective h =
    guarded-keeps IsSound _ _ m _ h (All-append IsEffective m.access_rules _ h (effective, tt))

update_access_rule-IsSound :
    (m : Memory) (now : Time) (id : ℤ) (rule : AccessRule)
    → IsEffective rule
    → IsSound m
    → IsSound (update_access_rule m now id rule).0
unfolding update_access_rule
update_access_rule-IsSound m now id rule effective h =
    guarded-keeps IsSound _ _ m _ h
      (All-modify_first IsEffective _ _ m.access_rules (λ old k. effective) h)

delete_access_rule-IsSound : (m : Memory) (id : ℤ) → IsSound m → IsSound (delete_access_rule m id).0
unfolding delete_access_rule
delete_access_rule-IsSound m id h =
    guarded-keeps IsSound _ _ m _ h (All-remove_first IsEffective _ m.access_rules h)

module _ (printing : Printing) (visit : Visit) where
  rule_created_rules :
      (now : Time) (r : Memory × Result AccessRule)
      → (rule_created printing visit now r).0.access_rules ≡ r.0.access_rules
  unfolding rule_created
  rule_created_rules now (m, err e) = refl
  rule_created_rules now (m, ok rule) = ap (λ r. r.0.access_rules) (audited-noted visit now _ _ _ m)

  rule_updated_rules :
      (now : Time) (r : Memory × Result AccessRule)
      → (rule_updated printing visit now r).0.access_rules ≡ r.0.access_rules
  unfolding rule_updated
  rule_updated_rules now (m, err e) = refl
  rule_updated_rules now (m, ok rule) = ap (λ r. r.0.access_rules) (audited-noted visit now _ _ _ m)

  rule_deleted_rules :
      (now : Time) (id : ℤ) (r : Memory × Result (Unit {0}))
      → (rule_deleted printing visit now id r).0.access_rules ≡ r.0.access_rules
  unfolding rule_deleted
  rule_deleted_rules now id (m, err e) = refl
  rule_deleted_rules now id (m, ok u) = ap (λ r. r.0.access_rules) (audited-noted visit now _ _ _ m)

  created-IsSound :
      (m : Memory) (now logged : Time) (req : CreateAccessRuleRequest) (r : Result (Unit {0}))
      → validate_access_rule req ≡ r
      → IsSound m
      → IsSound (create_checked printing visit m now logged req r).0
  unfolding create_checked
  created-IsSound m now logged req (err e) checked h = h
  created-IsSound m now logged req (ok u) checked h =
      subst (All IsEffective)
        (sym (rule_created_rules logged (create_access_rule m now (rule_of req))))
        (create_access_rule-IsSound m now (rule_of req) (valid_effect req checked) h)

  updated-IsSound :
      (m : Memory) (now logged : Time) (id : ℤ) (req : CreateAccessRuleRequest)
      (r : Result (Unit {0}))
      → validate_access_rule req ≡ r
      → IsSound m
      → IsSound (update_checked printing visit m now logged id req r).0
  unfolding update_checked
  updated-IsSound m now logged id req (err e) checked h = h
  updated-IsSound m now logged id req (ok u) checked h =
      subst (All IsEffective)
        (sym (rule_updated_rules logged (update_access_rule m now id (rule_of req))))
        (update_access_rule-IsSound m now id (rule_of req) (valid_effect req checked) h)

  -- Whichever request to change the rules is served, every stored rule still allows or denies.
  pub edit-IsSound : (m : Memory) (e : Edit) → IsSound m → IsSound (edit printing visit m e)
  unfolding edit post_access_rule put_access_rule remove_access_rule
  edit-IsSound m (posts now logged none) h = h
  edit-IsSound m (posts now logged (some req)) h =
      created-IsSound m now logged req (validate_access_rule req) refl h
  edit-IsSound m (puts now logged id none) h = h
  edit-IsSound m (puts now logged id (some req)) h =
      updated-IsSound m now logged id req (validate_access_rule req) refl h
  edit-IsSound m (removes logged id) h =
      subst (All IsEffective) (sym (rule_deleted_rules logged id (delete_access_rule m id)))
        (delete_access_rule-IsSound m id h)
