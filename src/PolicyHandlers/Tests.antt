-- ===== src/PolicyHandlers/Tests.antt =====
-- A rule that a request deletes, and a judgement over the rules that are left.
use opendesk_remote.Prelude.{
  refl, pos, String, true, none, some, [], ◌∷◌, inl, inr, ok, int_has_eq, string_eq,
}
use opendesk_remote.Models.Policies.{AccessRule}
use opendesk_remote.Repository.{Memory}
use opendesk_remote.Repository.Samples.{memory}
use opendesk_remote.Http.{Visit}
use opendesk_remote.PolicyHandlers.{Printing}
use opendesk_remote.PolicyHandlers.AccessRules.{EvaluateAccessRequest}
use opendesk_remote.PolicyHandlers.AccessRules.Effects.{IsSound, Edit, posts, edit, edit-IsSound}
use opendesk_remote.PolicyHandlers.Strategies.{Objects}
use opendesk_remote.PolicyHandlers.ControlRoles.Stored.{
  AllKnown, RoleEdit, edit_role, edit_role-AllKnown,
}
use opendesk_remote.PolicyHandlers.Strategies.Stored.{AllAssignable}
use opendesk_remote.PolicyHandlers.Strategies.Edited.{
  StrategyEdit, edit_strategy, edit_strategy-AllAssignable,
}

abbrev printing : Printing
printing = record { show = λ n. "1"; text_of = λ e. "refused" }

abbrev visit : Visit
visit = record {
  session = none;
  forwarded_for = "";
  real_ip = "";
  remote_addr = "10.0.0.1";
  host = none;
  user_agent = "";
}

abbrev rule : String → AccessRule
rule effect = record {
  id = pos 1;
  subject_type = "user";
  subject_id = pos 4;
  target_type = "device";
  target_id = pos 5;
  effect = effect;
  priority = pos 0;
  enabled = true;
  created_at = 0;
  updated_at = 0;
}

abbrev ruled : Memory
ruled = record memory { access_rules = rule "allow" ∷ rule "deny" ∷ [] }

abbrev posted : Edit
posted = posts 5 6 (
    some (record {
      subject_type = "user";
      subject_id = pos 4;
      target_type = "device";
      target_id = pos 5;
      effect = "deny";
      priority = pos 1;
      enabled = none;
    }))

edit-IsSound_example : IsSound (edit printing visit ruled posted)
edit-IsSound_example = edit-IsSound printing visit ruled posted (inl refl, (inr refl, tt))

abbrev request : EvaluateAccessRequest
request = record {
  user = record { id = pos 4; group_ids = []; status = "" };
  target = record { id = pos 5; group_ids = []; status = "" };
}

abbrev posted_role : RoleEdit
posted_role = RoleEdit.posts 5 6 (
    some (record {
      name = "helpdesk";
      description = "";
      enabled = none;
      permissions =
          record { id = pos 0; role_id = pos 0; permission_key = "clipboard"; mode = "enable" }
          ∷ [];
    }))

edit_role-AllKnown_example : AllKnown (edit_role printing visit memory posted_role)
edit_role-AllKnown_example = edit_role-AllKnown printing visit memory posted_role tt

abbrev objects : Objects
objects = record { Object = String; unmarshal = λ raw. some raw; marshal = λ object. ok object }

abbrev assigned_user : StrategyEdit
assigned_user =
    StrategyEdit.assigns 5 6 (pos 1) (some (record { target_type = "user"; target_id = pos 4 }))

abbrev planned : Memory
planned = record memory {
  strategies =
      record {
        id = pos 1;
        name = "default";
        description = "";
        enabled = true;
        settings_json = "{}";
        assignments = [];
        created_at = 0;
        updated_at = 0;
      }
      ∷ [];
}

edit_strategy-AllAssignable_example :
    AllAssignable (edit_strategy objects printing visit planned assigned_user)
edit_strategy-AllAssignable_example =
    edit_strategy-AllAssignable objects printing visit planned assigned_user (tt, tt)
