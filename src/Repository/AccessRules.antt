-- ===== src/Repository/AccessRules.antt =====
-- Access rules of api/internal/repository/memory.go.
use opendesk_remote.Prelude.{
  ℤ, Bool, ◌||◌, not, Time, [], ◌∷◌, ◌++◌, find_first, any, modify_first, remove_first, inc64,
  is_pos, message, not_found, Result, ok, ◌==◌, string_eq, int_has_eq,
}
use opendesk_remote.Models.Policies.{AccessRule}
use opendesk_remote.Repository.{Memory, guarded}
use opendesk_remote.Repository.Lookup.{changed}

is_partial : AccessRule → Bool
is_partial rule =
    rule.subject_type == ""
    || not (is_pos rule.subject_id)
    || rule.target_type == ""
    || not (is_pos rule.target_id)
    || rule.effect == ""

unfoldable pub create_access_rule : Memory → Time → AccessRule → Memory × Result AccessRule
unfolding is_partial
create_access_rule m now rule =
    let row = record rule { id = inc64 m.next_id; created_at = now; updated_at = now } in
    guarded (is_partial rule)
      (message "subject_type, subject_id, target_type, target_id, and effect are required") m
      (record m { next_id = inc64 m.next_id; access_rules = m.access_rules ++ (row ∷ []) }, ok row)

unfoldable pub update_access_rule : Memory → Time → ℤ → AccessRule → Memory × Result AccessRule
unfolding is_partial
update_access_rule m now id rule =
    let write = λ (old : AccessRule). record rule {
      id = id;
      created_at = old.created_at;
      updated_at = now;
    } in
    let at_id = λ (old : AccessRule). old.id == id in
    guarded (is_partial rule)
      (message "subject_type, subject_id, target_type, target_id, and effect are required") m
      (
        record m { access_rules = modify_first at_id write m.access_rules },
        changed write (find_first at_id m.access_rules),
      )

unfoldable pub delete_access_rule : Memory → ℤ → Memory × Result (Unit {0})
delete_access_rule m id =
    let at_id = λ (rule : AccessRule). rule.id == id in
    guarded (not (any at_id m.access_rules)) not_found m
      (record m { access_rules = remove_first at_id m.access_rules }, ok tt)
