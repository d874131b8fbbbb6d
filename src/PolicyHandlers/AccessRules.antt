-- ===== src/PolicyHandlers/AccessRules.antt =====
-- Access rules: `AccessRules`, `AccessRuleItem` and `EvaluateAccess` of api/internal/policies/handler.go.
pub mod Effects
pub mod Decided
use opendesk_remote.Prelude.{
  String, ℤ, pos, Bool, true, false, ◌||◌, not, Option, none, some, Time, List, [], ◌∷◌, map,
  is_pos, trim_space, Error, is_not_found, message, Result, ok, err, ◌==◌, string_eq, if◌then◌else◌,
  ◌>>=◌, ◌>>◌, refuse_if,
}
use opendesk_remote.Models.Values.{Any, text, number, flag}
use opendesk_remote.Models.Policies.{AccessRule}
use opendesk_remote.Access
use opendesk_remote.Access.{Rule, Decision, evaluate}
use opendesk_remote.Repository.{Memory}
use opendesk_remote.Repository.AccessRules.{
  create_access_rule, update_access_rule, delete_access_rule,
}
use opendesk_remote.Http.{Reply, done, failed, Visit, Event, audited}
use opendesk_remote.PolicyHandlers.{Printing, default_true, one_of}

pub record CreateAccessRuleRequest : Type 0 where
  pub subject_type : String
  pub subject_id : ℤ
  pub target_type : String
  pub target_id : ℤ
  pub effect : String
  pub priority : ℤ
  pub enabled : Option Bool

unfoldable pub validate_access_rule : CreateAccessRuleRequest → Result (Unit {0})
unfolding one_of
validate_access_rule req = do
  refuse_if (not (one_of req.subject_type ("user" ∷ "user_group" ∷ [])))
      (message "subject_type must be user or user_group")
  refuse_if (not (is_pos req.subject_id)) (message "subject_id must be positive")
  refuse_if (not (one_of req.target_type ("device" ∷ "device_group" ∷ [])))
      (message "target_type must be device or device_group")
  refuse_if (not (is_pos req.target_id)) (message "target_id must be positive")
  refuse_if (not (one_of req.effect ("allow" ∷ "deny" ∷ [])))
      (message "effect must be allow or deny")
  ok tt

-- The row that a request asks for; the repository gives it its number and its times.
unfoldable pub rule_of : CreateAccessRuleRequest → AccessRule
unfolding default_true
rule_of req = record {
  id = pos 0;
  subject_type = req.subject_type;
  subject_id = req.subject_id;
  target_type = req.target_type;
  target_id = req.target_id;
  effect = req.effect;
  priority = req.priority;
  enabled = default_true req.enabled;
  created_at = 0;
  updated_at = 0;
}

rule_event : Printing → String → AccessRule → Event
rule_event printing action rule = record {
  action = action;
  resource_type = "access_rule";
  resource_id = printing.show rule.id;
  metadata =
      ("subject_type", text rule.subject_type)
      ∷ ("subject_id", number rule.subject_id)
      ∷ ("target_type", text rule.target_type)
      ∷ ("target_id", number rule.target_id)
      ∷ ("effect", text rule.effect)
      ∷ ("priority", number rule.priority)
      ∷ ("enabled", flag rule.enabled)
      ∷ [];
}

module _ (printing : Printing) (visit : Visit) where
  rule_created : Time → Memory × Result AccessRule → Memory × Reply AccessRule
  unfolding rule_event
  rule_created now (m, err e) = (m, failed 400 "INVALID_ACCESS_RULE" (printing.text_of e))
  rule_created now (m, ok rule) =
      audited visit now (rule_event printing "create_access_rule" rule)
        "failed to record access rule creation" (done 201 rule) m

  create_checked :
      Memory → Time → Time → CreateAccessRuleRequest → Result (Unit {0}) → Memory × Reply AccessRule
  unfolding rule_created
  create_checked m now logged req (err e) =
      (m, failed 400 "INVALID_ACCESS_RULE" (printing.text_of e))
  create_checked m now logged req (ok u) =
      rule_created logged (create_access_rule m now (rule_of req))

  -- POST: `now` is the repository's reading for the row, `logged` that for the audit event.
  unfoldable pub post_access_rule :
      Memory → Time → Time → Option CreateAccessRuleRequest → Memory × Reply AccessRule
  unfolding create_checked
  post_access_rule m now logged none = (m, failed 400 "INVALID_JSON" "invalid JSON body")
  post_access_rule m now logged (some req) =
      create_checked m now logged req (validate_access_rule req)

  rule_updated : Time → Memory × Result AccessRule → Memory × Reply AccessRule
  unfolding rule_event
  rule_updated now (m, err e) = (
    m,
    if is_not_found e
        then failed 404 "ACCESS_RULE_NOT_FOUND" "access rule not found"
        else failed 400 "INVALID_ACCESS_RULE" (printing.text_of e),
  )
  rule_updated now (m, ok rule) =
      audited visit now (rule_event printing "update_access_rule" rule)
        "failed to record access rule update" (done 200 rule) m

  update_checked :
      Memory
      → Time
      → Time
      → ℤ
      → CreateAccessRuleRequest
      → Result (Unit {0})
      → Memory × Reply AccessRule
  unfolding rule_updated
  update_checked m now logged id req (err e) =
      (m, failed 400 "INVALID_ACCESS_RULE" (printing.text_of e))
  update_checked m now logged id req (ok u) =
      rule_updated logged (update_access_rule m now id (rule_of req))

  unfoldable pub put_access_rule :
      Memory → Time → Time → ℤ → Option CreateAccessRuleRequest → Memory × Reply AccessRule
  unfolding update_checked
  put_access_rule m now logged id none = (m, failed 400 "INVALID_JSON" "invalid JSON body")
  put_access_rule m now logged id (some req) =
      update_checked m now logged id req (validate_access_rule req)

  rule_deleted : Time → ℤ → Memory × Result (Unit {0}) → Memory × Reply Bool
  rule_deleted now id (m, err e) = (
    m,
    if is_not_found e
        then failed 404 "ACCESS_RULE_NOT_FOUND" "access rule not found"
        else failed 500 "DELETE_ACCESS_RULE_FAILED" "delete access rule failed",
  )
  rule_deleted now id (m, ok u) =
      audited visit now
        (record {
          action = "delete_access_rule";
          resource_type = "access_rule";
          resource_id = printing.show id;
          metadata = [];
        })
        "failed to record access rule deletion" (done 200 true) m

  unfoldable pub remove_access_rule : Memory → Time → ℤ → Memory × Reply Bool
  unfolding rule_deleted
  remove_access_rule m logged id = rule_deleted logged id (delete_access_rule m id)

-- `accessRules`
unfoldable pub access_rule : AccessRule → Rule
access_rule rule = record {
  id = rule.id;
  subject_type = rule.subject_type;
  subject_id = rule.subject_id;
  target_type = rule.target_type;
  target_id = rule.target_id;
  effect = rule.effect;
  priority = rule.priority;
  enabled = rule.enabled;
}

pub record EvaluateAccessRequest : Type 0 where
  pub user : Access.User
  pub target : Access.Device

abbrev pub or_status : String → String → String
or_status default_status status = if trim_space status == "" then default_status else status

unfoldable pub evaluate_access : Memory → Option EvaluateAccessRequest → Reply Decision
evaluate_access m none = failed 400 "INVALID_JSON" "invalid JSON body"
evaluate_access m (some req) =
    if not (is_pos req.user.id) || not (is_pos req.target.id)
    then failed 400 "INVALID_ACCESS_EVALUATION" "user.id and target.id are required"
    else done 200 (
        evaluate (map access_rule m.access_rules)
          (record req.user { status = or_status "active" req.user.status })
          (record req.target { status = or_status "online" req.target.status }))
