-- ===== src/PolicyHandlers/Strategies.antt =====
-- Strategies: `Strategies` and `StrategyItem` of api/internal/policies/handler.go. Decoding and encoding
-- of a JSON object are parameters.
pub mod Stored
pub mod Edited
use opendesk_remote.Prelude.{
  String, ℤ, pos, Bool, true, false, not, ◌||◌, Option, none, some, Time, List, [], ◌∷◌, length,
  map, is_pos, trim_space, Error, is_not_found, message, Result, ok, err, ◌==◌, string_eq,
  if◌then◌else◌, ◌>>=◌, ◌>>◌, refuse_if,
}
use opendesk_remote.Models.Values.{text, number, flag}
use opendesk_remote.Models.Policies.{Strategy, StrategyAssignment}
use opendesk_remote.Repository.{Memory}
use opendesk_remote.Repository.Policies.{
  create_strategy, update_strategy, delete_strategy, add_strategy_assignment,
  remove_strategy_assignment,
}
use opendesk_remote.Http.{Reply, done, failed, Visit, Event, audited}
use opendesk_remote.PolicyHandlers.{Printing, default_true, one_of}

pub record Objects : Type 1 where
  pub Object : Type 0
  pub unmarshal : String → Option Object
  pub marshal : Object → Result String

pub record CreateStrategyRequest : Type 0 where
  pub name : String
  pub description : String
  pub enabled : Option Bool
  pub settings_json : String
  pub assignments : List StrategyAssignment

pub record StrategyAssignmentRequest : Type 0 where
  pub target_type : String
  pub target_id : ℤ

unfoldable pub validate_strategy_assignment : String → ℤ → Result (Unit {0})
unfolding one_of
validate_strategy_assignment target_type target_id = do
  refuse_if (not (one_of target_type ("device" ∷ "user" ∷ "device_group" ∷ [])))
      (message "assignment target_type must be device, user, or device_group")
  refuse_if (not (is_pos target_id)) (message "assignment target_id must be positive")
  ok tt

validate_assignments : List StrategyAssignment → Result (Unit {0})
unfolding validate_strategy_assignment
validate_assignments [] = ok tt
validate_assignments (assignment ∷ assignments) = do
  validate_strategy_assignment assignment.target_type assignment.target_id
  validate_assignments assignments

unfoldable pub validate_strategy : CreateStrategyRequest → String → Result (Unit {0})
unfolding validate_assignments
validate_strategy req settings = do
  refuse_if (trim_space req.name == "") (message "name is required")
  refuse_if (settings == "") (message "settings_json is required")
  validate_assignments req.assignments

unfoldable pub normalized_assignments : List StrategyAssignment → List StrategyAssignment
normalized_assignments assignments =
    map
      (λ (assignment : StrategyAssignment). record {
        id = pos 0;
        strategy_id = pos 0;
        target_type = trim_space assignment.target_type;
        target_id = assignment.target_id;
        created_at = 0;
      })
      assignments

decoded : (objects : Objects) → Option objects.Object → Result String
decoded objects none = err (message "settings_json must be a JSON object")
decoded objects (some object) = objects.marshal object

unfoldable pub normalize_settings : Objects → String → Result String
unfolding decoded
normalize_settings objects raw =
    if raw == "" || trim_space raw == "null"
    then ok "{}"
    else decoded objects (objects.unmarshal raw)

unfoldable pub strategy_of : CreateStrategyRequest → String → Strategy
unfolding default_true normalized_assignments
strategy_of req settings = record {
  id = pos 0;
  name = trim_space req.name;
  description = trim_space req.description;
  enabled = default_true req.enabled;
  settings_json = settings;
  assignments = normalized_assignments req.assignments;
  created_at = 0;
  updated_at = 0;
}

-- The checks of a body that both handlers that write a strategy begin with.
unfoldable pub requested : Objects → CreateStrategyRequest → Result Strategy
unfolding normalize_settings validate_strategy strategy_of
requested objects req = do
  settings ← normalize_settings objects req.settings_json
  validate_strategy req settings
  ok (strategy_of req settings)

strategy_event : Printing → String → Strategy → Event
strategy_event printing action strategy = record {
  action = action;
  resource_type = "strategy";
  resource_id = printing.show strategy.id;
  metadata =
      ("name", text strategy.name)
      ∷ ("enabled", flag strategy.enabled)
      ∷ ("assignment_count", number (pos (length strategy.assignments)))
      ∷ [];
}

module _ (objects : Objects) (printing : Printing) (visit : Visit) where
  strategy_created : Time → Memory × Result Strategy → Memory × Reply Strategy
  unfolding strategy_event
  strategy_created logged (m, err e) = (m, failed 400 "INVALID_STRATEGY" (printing.text_of e))
  strategy_created logged (m, ok strategy) =
      audited visit logged (strategy_event printing "create_strategy" strategy)
        "failed to record strategy creation" (done 201 strategy) m

  create_checked : Memory → Time → Time → Result Strategy → Memory × Reply Strategy
  unfolding strategy_created
  create_checked m now logged (err e) = (m, failed 400 "INVALID_STRATEGY" (printing.text_of e))
  create_checked m now logged (ok strategy) =
      strategy_created logged (create_strategy m now strategy)

  unfoldable pub post_strategy :
      Memory → Time → Time → Option CreateStrategyRequest → Memory × Reply Strategy
  unfolding create_checked requested
  post_strategy m now logged none = (m, failed 400 "INVALID_JSON" "invalid JSON body")
  post_strategy m now logged (some req) = create_checked m now logged (requested objects req)

  strategy_updated : Time → Memory × Result Strategy → Memory × Reply Strategy
  unfolding strategy_event
  strategy_updated logged (m, err e) = (
    m,
    if is_not_found e
        then failed 404 "STRATEGY_NOT_FOUND" "strategy not found"
        else failed 400 "INVALID_STRATEGY" (printing.text_of e),
  )
  strategy_updated logged (m, ok strategy) =
      audited visit logged (strategy_event printing "update_strategy" strategy)
        "failed to record strategy update" (done 200 strategy) m

  update_checked : Memory → Time → Time → ℤ → Result Strategy → Memory × Reply Strategy
  unfolding strategy_updated
  update_checked m now logged id (err e) = (m, failed 400 "INVALID_STRATEGY" (printing.text_of e))
  update_checked m now logged id (ok strategy) =
      strategy_updated logged (update_strategy m now id strategy)

  unfoldable pub put_strategy :
      Memory → Time → Time → ℤ → Option CreateStrategyRequest → Memory × Reply Strategy
  unfolding update_checked requested
  put_strategy m now logged id none = (m, failed 400 "INVALID_JSON" "invalid JSON body")
  put_strategy m now logged id (some req) = update_checked m now logged id (requested objects req)

  assigned : Time → StrategyAssignmentRequest → Memory × Result Strategy → Memory × Reply Strategy
  assigned logged req (m, err e) = (
    m,
    if is_not_found e
        then failed 404 "STRATEGY_NOT_FOUND" "strategy not found"
        else failed 400 "INVALID_STRATEGY_ASSIGNMENT" (printing.text_of e),
  )
  assigned logged req (m, ok strategy) =
      audited visit logged
        (record {
          action = "assign_strategy";
          resource_type = "strategy";
          resource_id = printing.show strategy.id;
          metadata =
              ("target_type", text req.target_type)
              ∷ ("target_id", number req.target_id)
              ∷ ("assignment_count", number (pos (length strategy.assignments)))
              ∷ [];
        })
        "failed to record strategy assignment" (done 201 strategy) m

  assignment_of : StrategyAssignmentRequest → StrategyAssignment
  assignment_of req = record {
    id = pos 0;
    strategy_id = pos 0;
    target_type = req.target_type;
    target_id = req.target_id;
    created_at = 0;
  }

  assign_checked :
      Memory
      → Time
      → Time
      → ℤ
      → StrategyAssignmentRequest
      → Result (Unit {0})
      → Memory × Reply Strategy
  unfolding assigned assignment_of
  assign_checked m now logged id req (err e) =
      (m, failed 400 "INVALID_STRATEGY_ASSIGNMENT" (printing.text_of e))
  assign_checked m now logged id req (ok u) =
      assigned logged req (add_strategy_assignment m now id (assignment_of req))

  unfoldable pub post_strategy_assignment :
      Memory → Time → Time → ℤ → Option StrategyAssignmentRequest → Memory × Reply Strategy
  unfolding assign_checked
  post_strategy_assignment m now logged id none = (m, failed 400 "INVALID_JSON" "invalid JSON body")
  post_strategy_assignment m now logged id (some req) =
      assign_checked m now logged id req
        (validate_strategy_assignment req.target_type req.target_id)

  unassigned : Time → ℤ → Memory × Result Strategy → Memory × Reply Strategy
  unassigned logged assignment_id (m, err e) = (
    m,
    if is_not_found e
        then failed 404 "STRATEGY_ASSIGNMENT_NOT_FOUND" "strategy assignment not found"
        else failed 500 "DELETE_STRATEGY_ASSIGNMENT_FAILED" "delete strategy assignment failed",
  )
  unassigned logged assignment_id (m, ok strategy) =
      audited visit logged
        (record {
          action = "delete_strategy_assignment";
          resource_type = "strategy";
          resource_id = printing.show strategy.id;
          metadata =
              ("assignment_id", number assignment_id)
              ∷ ("assignment_count", number (pos (length strategy.assignments)))
              ∷ [];
        })
        "failed to record strategy assignment deletion" (done 200 strategy) m

  unfoldable pub delete_strategy_assignment : Memory → Time → ℤ → ℤ → Memory × Reply Strategy
  unfolding unassigned
  delete_strategy_assignment m logged id assignment_id =
      unassigned logged assignment_id (remove_strategy_assignment m id assignment_id)

  strategy_deleted : Time → ℤ → Memory × Result (Unit {0}) → Memory × Reply Bool
  strategy_deleted logged id (m, err e) = (
    m,
    if is_not_found e
        then failed 404 "STRATEGY_NOT_FOUND" "strategy not found"
        else failed 500 "DELETE_STRATEGY_FAILED" "delete strategy failed",
  )
  strategy_deleted logged id (m, ok u) =
      audited visit logged
        (record {
          action = "delete_strategy";
          resource_type = "strategy";
          resource_id = printing.show id;
          metadata = [];
        })
        "failed to record strategy deletion" (done 200 true) m

  unfoldable pub remove_strategy : Memory → Time → ℤ → Memory × Reply Bool
  unfolding strategy_deleted
  remove_strategy m logged id = strategy_deleted logged id (delete_strategy m id)
