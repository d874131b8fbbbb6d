-- ===== src/Repository/Policies.antt =====
-- Control roles and strategies of api/internal/repository/memory.go.
use opendesk_remote.Prelude.{
  ℤ, ◌||◌, not, Time, [], ◌∷◌, ◌++◌, any, find_first, modify_first, remove_first, inc64, is_pos,
  trim_space, message, not_found, Result, ok, ◌==◌, string_eq, int_has_eq,
}
use opendesk_remote.Models.Policies.{
  ControlRole, ControlRolePermission, Strategy, StrategyAssignment,
}
use opendesk_remote.Repository.{Memory, guarded, on_found, numbered}

new_permission : ℤ → ℤ → ControlRolePermission → ControlRolePermission
new_permission role_id id permission = record permission { id = id; role_id = role_id }

unfoldable pub create_control_role : Memory → Time → ControlRole → Memory × Result ControlRole
unfolding new_permission
create_control_role m now role =
    let id = inc64 m.next_id in
    let permissions = numbered (new_permission id) id role.permissions in
    let row = record role {
      id = id;
      permissions = permissions.1;
      created_at = now;
      updated_at = now;
    } in
    guarded (trim_space role.name == "") (message "name is required") m
      (record m { next_id = permissions.0; control_roles = m.control_roles ++ (row ∷ []) }, ok row)

-- On the role that was found.
replace_control_role : Memory → Time → ℤ → ControlRole → ControlRole → Memory × Result ControlRole
unfolding new_permission
replace_control_role m now id role old =
    let permissions = numbered (new_permission id) m.next_id role.permissions in
    let row = record role {
      id = id;
      permissions = permissions.1;
      created_at = old.created_at;
      updated_at = now;
    } in
    (
      record m {
        next_id = permissions.0;
        control_roles =
            modify_first (λ (other : ControlRole). other.id == id) (λ other. row) m.control_roles;
      },
      ok row,
    )

unfoldable pub update_control_role : Memory → Time → ℤ → ControlRole → Memory × Result ControlRole
unfolding replace_control_role
update_control_role m now id role =
    guarded (trim_space role.name == "") (message "name is required") m (
      on_found m (find_first (λ other. other.id == id) m.control_roles)
        (replace_control_role m now id role))

unfoldable pub delete_control_role : Memory → ℤ → Memory × Result (Unit {0})
delete_control_role m id =
    let at_id = λ (role : ControlRole). role.id == id in
    guarded (not (any at_id m.control_roles)) not_found m
      (record m { control_roles = remove_first at_id m.control_roles }, ok tt)

new_assignment : ℤ → Time → ℤ → StrategyAssignment → StrategyAssignment
new_assignment strategy_id now id assignment = record assignment {
  id = id;
  strategy_id = strategy_id;
  created_at = now;
}

unfoldable pub create_strategy : Memory → Time → Strategy → Memory × Result Strategy
unfolding new_assignment
create_strategy m now strategy =
    let id = inc64 m.next_id in
    let assignments = numbered (new_assignment id now) id strategy.assignments in
    let row = record strategy {
      id = id;
      assignments = assignments.1;
      created_at = now;
      updated_at = now;
    } in
    guarded (trim_space strategy.name == "" || trim_space strategy.settings_json == "")
      (message "name and settings_json are required") m
      (record m { next_id = assignments.0; strategies = m.strategies ++ (row ∷ []) }, ok row)

-- On the strategy that was found.
replace_strategy : Memory → Time → ℤ → Strategy → Strategy → Memory × Result Strategy
unfolding new_assignment
replace_strategy m now id strategy old =
    let assignments = numbered (new_assignment id now) m.next_id strategy.assignments in
    let row = record strategy {
      id = id;
      assignments = assignments.1;
      created_at = old.created_at;
      updated_at = now;
    } in
    (
      record m {
        next_id = assignments.0;
        strategies =
            modify_first (λ (other : Strategy). other.id == id) (λ other. row) m.strategies;
      },
      ok row,
    )

unfoldable pub update_strategy : Memory → Time → ℤ → Strategy → Memory × Result Strategy
unfolding replace_strategy
update_strategy m now id strategy =
    guarded (trim_space strategy.name == "" || trim_space strategy.settings_json == "")
      (message "name and settings_json are required") m
      (on_found m (find_first (λ other. other.id == id) m.strategies)
        (replace_strategy m now id strategy))

unfoldable pub delete_strategy : Memory → ℤ → Memory × Result (Unit {0})
delete_strategy m id =
    let at_id = λ (strategy : Strategy). strategy.id == id in
    guarded (not (any at_id m.strategies)) not_found m
      (record m { strategies = remove_first at_id m.strategies }, ok tt)

assign_to : Memory → Time → ℤ → StrategyAssignment → Strategy → Memory × Result Strategy
unfolding new_assignment
assign_to m now strategy_id assignment strategy =
    let row = new_assignment strategy_id now (inc64 m.next_id) assignment in
    let write = λ (old : Strategy). record old { assignments = old.assignments ++ (row ∷ []) } in
    (
      record m {
        next_id = inc64 m.next_id;
        strategies =
            modify_first (λ (other : Strategy). other.id == strategy_id) write m.strategies;
      },
      ok (write strategy),
    )

unfoldable pub add_strategy_assignment :
    Memory → Time → ℤ → StrategyAssignment → Memory × Result Strategy
unfolding assign_to
add_strategy_assignment m now strategy_id assignment =
    guarded (assignment.target_type == "" || not (is_pos assignment.target_id))
      (message "target_type and target_id are required") m
      (on_found m (find_first (λ strategy. strategy.id == strategy_id) m.strategies)
        (assign_to m now strategy_id assignment))

unassign_from : Memory → ℤ → ℤ → Strategy → Memory × Result Strategy
unassign_from m strategy_id assignment_id strategy =
    let at_id = λ (assignment : StrategyAssignment). assignment.id == assignment_id in
    let write =
      λ (old : Strategy). record old { assignments = remove_first at_id old.assignments } in
    guarded (not (any at_id strategy.assignments)) not_found m (
      record m {
        strategies =
            modify_first (λ (other : Strategy). other.id == strategy_id) write m.strategies;
      },
      ok (write strategy),
    )

unfoldable pub remove_strategy_assignment : Memory → ℤ → ℤ → Memory × Result Strategy
unfolding unassign_from
remove_strategy_assignment m strategy_id assignment_id =
    on_found m (find_first (λ strategy. strategy.id == strategy_id) m.strategies)
      (unassign_from m strategy_id assignment_id)
