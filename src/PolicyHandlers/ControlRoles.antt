-- ===== src/PolicyHandlers/ControlRoles.antt =====
-- Control roles: `ControlRoles` and `ControlRoleItem` of api/internal/policies/handler.go.
pub mod Stored
use opendesk_remote.Prelude.{
  String, ℤ, pos, Bool, true, false, not, Option, none, some, Time, List, [], ◌∷◌, ◌++◌, length,
  map, any, trim_space, Error, is_not_found, message, Result, ok, err, ◌==◌, string_eq,
  if◌then◌else◌, ◌>>=◌, ◌>>◌, refuse_if,
}
use Prim.Native.String.{◌++◌ as append}
use opendesk_remote.Models.Values.{text, number, flag, texts}
use opendesk_remote.Models.Policies.{ControlRole, ControlRolePermission}
use opendesk_remote.ControlRole.{permission_keys, use_client_settings, enable, disable}
use opendesk_remote.Repository.{Memory}
use opendesk_remote.Repository.Policies.{
  create_control_role, update_control_role, delete_control_role,
}
use opendesk_remote.Http.{Reply, done, failed, Visit, audited}
use opendesk_remote.PolicyHandlers.{Printing, default_true, one_of}

pub record CreateControlRoleRequest : Type 0 where
  pub name : String
  pub description : String
  pub enabled : Option Bool
  pub permissions : List ControlRolePermission

unfoldable pub known_permission : String → Bool
known_permission key = any (λ known. known == key) permission_keys

abbrev pub modes : List String
modes = use_client_settings ∷ enable ∷ disable ∷ []

validate_permissions : List ControlRolePermission → Result (Unit {0})
unfolding known_permission one_of
validate_permissions [] = ok tt
validate_permissions (permission ∷ permissions) = do
  refuse_if (not (known_permission permission.permission_key))
      (message (append "unknown permission key: " permission.permission_key))
  refuse_if (not (one_of permission.mode modes))
      (message "permission mode must be use_client_settings, enable, or disable")
  validate_permissions permissions

unfoldable pub validate_control_role : CreateControlRoleRequest → Result (Unit {0})
unfolding validate_permissions
validate_control_role req = do
  refuse_if (trim_space req.name == "") (message "name is required")
  validate_permissions req.permissions

unfoldable pub normalized_permissions : List ControlRolePermission → List ControlRolePermission
normalized_permissions permissions =
    map
      (λ (permission : ControlRolePermission). record {
        id = pos 0;
        role_id = pos 0;
        permission_key = trim_space permission.permission_key;
        mode = trim_space permission.mode;
      })
      permissions

abbrev pub normalized_permission_keys : List ControlRolePermission → List String
normalized_permission_keys permissions =
    map (λ (permission : ControlRolePermission). permission.permission_key) permissions

unfoldable pub role_of : CreateControlRoleRequest → ControlRole
unfolding default_true normalized_permissions
role_of req = record {
  id = pos 0;
  name = trim_space req.name;
  description = trim_space req.description;
  enabled = default_true req.enabled;
  permissions = normalized_permissions req.permissions;
  created_at = 0;
  updated_at = 0;
}

module _ (printing : Printing) (visit : Visit) where
  role_created : Time → Memory × Result ControlRole → Memory × Reply ControlRole
  role_created logged (m, err e) = (m, failed 400 "INVALID_CONTROL_ROLE" (printing.text_of e))
  role_created logged (m, ok role) =
      audited visit logged
        (record {
          action = "create_control_role";
          resource_type = "control_role";
          resource_id = printing.show role.id;
          metadata =
              ("name", text role.name)
              ∷ ("enabled", flag role.enabled)
              ∷ ("permission_count", number (pos (length role.permissions)))
              ∷ ("default_sensitive", text "terminal,tcp_tunnel,remote_config_modification")
              ∷ ("created_permission", texts (normalized_permission_keys role.permissions))
              ∷ [];
        })
        "failed to record control role creation" (done 201 role) m

  create_checked :
      Memory
      → Time
      → Time
      → CreateControlRoleRequest
      → Result (Unit {0})
      → Memory × Reply ControlRole
  unfolding role_created
  create_checked m now logged req (err e) =
      (m, failed 400 "INVALID_CONTROL_ROLE" (printing.text_of e))
  create_checked m now logged req (ok u) =
      role_created logged (create_control_role m now (role_of req))

  unfoldable pub post_control_role :
      Memory → Time → Time → Option CreateControlRoleRequest → Memory × Reply ControlRole
  unfolding create_checked
  post_control_role m now logged none = (m, failed 400 "INVALID_JSON" "invalid JSON body")
  post_control_role m now logged (some req) =
      create_checked m now logged req (validate_control_role req)

  role_updated : Time → Memory × Result ControlRole → Memory × Reply ControlRole
  role_updated logged (m, err e) = (
    m,
    if is_not_found e
        then failed 404 "CONTROL_ROLE_NOT_FOUND" "control role not found"
        else failed 400 "INVALID_CONTROL_ROLE" (printing.text_of e),
  )
  role_updated logged (m, ok role) =
      audited visit logged
        (record {
          action = "update_control_role";
          resource_type = "control_role";
          resource_id = printing.show role.id;
          metadata =
              ("name", text role.name)
              ∷ ("enabled", flag role.enabled)
              ∷ ("permission_count", number (pos (length role.permissions)))
              ∷ ("permissions", texts (normalized_permission_keys role.permissions))
              ∷ [];
        })
        "failed to record control role update" (done 200 role) m

  update_checked :
      Memory
      → Time
      → Time
      → ℤ
      → CreateControlRoleRequest
      → Result (Unit {0})
      → Memory × Reply ControlRole
  unfolding role_updated
  update_checked m now logged id req (err e) =
      (m, failed 400 "INVALID_CONTROL_ROLE" (printing.text_of e))
  update_checked m now logged id req (ok u) =
      role_updated logged (update_control_role m now id (role_of req))

  unfoldable pub put_control_role :
      Memory → Time → Time → ℤ → Option CreateControlRoleRequest → Memory × Reply ControlRole
  unfolding update_checked
  put_control_role m now logged id none = (m, failed 400 "INVALID_JSON" "invalid JSON body")
  put_control_role m now logged id (some req) =
      update_checked m now logged id req (validate_control_role req)

  role_deleted : Time → ℤ → Memory × Result (Unit {0}) → Memory × Reply Bool
  role_deleted logged id (m, err e) = (
    m,
    if is_not_found e
        then failed 404 "CONTROL_ROLE_NOT_FOUND" "control role not found"
        else failed 500 "DELETE_CONTROL_ROLE_FAILED" "delete control role failed",
  )
  role_deleted logged id (m, ok u) =
      audited visit logged
        (record {
          action = "delete_control_role";
          resource_type = "control_role";
          resource_id = printing.show id;
          metadata = [];
        })
        "failed to record control role deletion" (done 200 true) m

  unfoldable pub remove_control_role : Memory → Time → ℤ → Memory × Reply Bool
  unfolding role_deleted
  remove_control_role m logged id = role_deleted logged id (delete_control_role m id)
