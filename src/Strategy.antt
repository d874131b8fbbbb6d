-- ===== src/Strategy.antt =====
-- api/internal/strategy/resolver.go: the settings of a device, merged from strategies.
pub mod Precedence
mod Tests
use opendesk_remote.Prelude.{
  String, ℤ, Bool, true, false, ◌&&◌, Option, none, some, List, [], ◌∷◌, ◌++◌, find_first, contains,
  ◌==◌, string_eq, int_has_eq, if◌then◌else◌,
}
use opendesk_remote.Prelude.Dict.{Dict, insert}

-- `type TargetType string`
abbrev pub TargetType : Type 0
TargetType = String

pub record Strategy : Type 0 where
  pub id : ℤ
  pub name : String
  pub enabled : Bool
  pub settings : Dict String

pub record Assignment : Type 0 where
  pub strategy_id : ℤ
  pub target_type : TargetType
  pub target_id : ℤ

pub record Context : Type 0 where
  pub device_id : ℤ
  pub user_id : Option ℤ
  pub device_group_ids : List ℤ

pub record Outcome : Type 0 where
  pub settings : Dict String
  pub applied_strategy : List ℤ

pub record Resolver : Type 0 where
  pub strategies : List Strategy
  pub assignments : List Assignment
  pub default : Strategy

is_user : Option ℤ → ℤ → Bool
is_user none id = false
is_user (some user_id) id = id == user_id

unfoldable pub assignment_matches : Assignment → Context → Bool
unfolding is_user
assignment_matches assignment ctx =
    if assignment.target_type == "device"
    then assignment.target_id == ctx.device_id
    else if assignment.target_type == "user"
    then is_user ctx.user_id assignment.target_id
    else if assignment.target_type == "device_group"
    then contains ctx.device_group_ids assignment.target_id
    else false

-- `merge` writes every entry of `src` into `dst`.
unfoldable pub merge : Dict String → Dict String → Dict String
merge dst [] = dst
merge dst ((key, value) ∷ src) = merge (insert key value dst) src

unfoldable pub find : List Strategy → ℤ → Option Strategy
find strategies id = find_first (λ strategy. strategy.id == id) strategies

-- `merge(settings, …)` and `applied = append(applied, …)`
abbrev add_strategy : Outcome → Strategy → Outcome
add_strategy out strategy = record {
  settings = merge out.settings strategy.settings;
  applied_strategy = out.applied_strategy ++ strategy.id ∷ [];
}

-- A missing or disabled strategy is passed over.
apply : Outcome → Option Strategy → Outcome
apply out none = out
apply out (some strategy) = if strategy.enabled then add_strategy out strategy else out

-- The loop over the assignments, for one kind of target.
apply_assignments : Resolver → Context → TargetType → Outcome → List Assignment → Outcome
apply_assignments r ctx target out [] = out
apply_assignments r ctx target out (assignment ∷ rest) =
    apply_assignments r ctx target
      (if assignment.target_type == target && assignment_matches assignment ctx
        then apply out (find r.strategies assignment.strategy_id)
        else out)
      rest

apply_targets : Resolver → Context → Outcome → List TargetType → Outcome
apply_targets r ctx out [] = out
apply_targets r ctx out (target ∷ targets) =
    apply_targets r ctx (apply_assignments r ctx target out r.assignments) targets

unfoldable pub resolve : Resolver → Context → Outcome
unfolding apply apply_assignments apply_targets
resolve r ctx =
    apply_targets r ctx (apply (record { settings = []; applied_strategy = [] }) (some r.default))
      ("device_group" ∷ "user" ∷ "device" ∷ [])
