-- ===== src/ControlRole.antt =====
-- api/internal/controlrole/evaluator.go: what a controller may do in a session.
pub mod Permissions
mod Tests
use opendesk_remote.Prelude.{
  String, Bool, true, false, List, [], ◌∷◌, any, ◌==◌, string_eq, if◌then◌else◌,
}
use opendesk_remote.Prelude.Dict.{Dict, lookup, insert}

-- `type Mode string`
abbrev pub Mode : Type 0
Mode = String

abbrev pub use_client_settings : Mode
use_client_settings = "use_client_settings"

abbrev pub enable : Mode
enable = "enable"

abbrev pub disable : Mode
disable = "disable"

abbrev pub permission_keys : List String
permission_keys =
    "keyboard_mouse" ∷ "remote_printer" ∷ "clipboard" ∷ "file_transfer" ∷ "audio" ∷ "camera"
    ∷ "terminal" ∷ "tcp_tunnel" ∷ "remote_restart" ∷ "recording_session" ∷ "block_user_input"
    ∷ "remote_config_modification" ∷ []

pub record Role : Type 0 where
  pub name : String
  pub enabled : Bool
  pub permissions : Dict Mode

unfoldable pub is_known : String → Bool
unfolding any
is_known key = any (λ known. known == key) permission_keys

fill : Dict Mode → List String → Dict Mode
fill out [] = out
fill out (key ∷ keys) = fill (insert key use_client_settings out) keys

unfoldable pub default_permissions : Dict Mode
unfolding fill
default_permissions =
    let out = fill [] permission_keys in
    insert "remote_config_modification" disable
      (insert "tcp_tunnel" disable (insert "terminal" disable out))

-- The body of the inner loop, on one entry of `role.Permissions`.
set_permission : Dict Mode → String → Mode → Dict Mode
set_permission out key mode = if is_known key then insert key mode out else out

set_permissions : Dict Mode → Dict Mode → Dict Mode
set_permissions out [] = out
set_permissions out ((key, mode) ∷ rest) = set_permissions (set_permission out key mode) rest

apply_role : Dict Mode → Role → Dict Mode
apply_role out role = if role.enabled then set_permissions out role.permissions else out

apply_roles : Dict Mode → List Role → Dict Mode
apply_roles out [] = out
apply_roles out (role ∷ roles) = apply_roles (apply_role out role) roles

unfoldable pub evaluate : List Role → Dict Mode
unfolding set_permission set_permissions apply_role apply_roles
evaluate roles = apply_roles default_permissions roles
