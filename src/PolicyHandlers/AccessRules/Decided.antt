-- ===== src/PolicyHandlers/AccessRules/Decided.antt =====
-- The decisions of `EvaluateAccess` on the rules that the handlers stored.
use opendesk_remote.Prelude.{Bool, ◌&&◌, string_eq}
use opendesk_remote.Models.Policies.{AccessRule}
use opendesk_remote.Access
use opendesk_remote.Access.{Rule, rule_matches}
use opendesk_remote.PolicyHandlers.AccessRules.{EvaluateAccessRequest, or_status, access_rule}

-- The user and the device that are judged: a blank status counts as active and online.
abbrev pub judged_user : EvaluateAccessRequest → Access.User
judged_user req = record req.user { status = or_status "active" req.user.status }

abbrev pub judged_device : EvaluateAccessRequest → Access.Device
judged_device req = record req.target { status = or_status "online" req.target.status }

-- An enabled rule that matches the two.
abbrev pub applies : EvaluateAccessRequest → AccessRule → Bool
applies req rule =
    rule.enabled && rule_matches (access_rule rule) (judged_user req) (judged_device req)
