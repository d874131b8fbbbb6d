-- ===== src/ControlRole/Permissions.antt =====
-- What `Evaluator.Evaluate` grants for each permission key.
use opendesk_remote.Prelude.{
  ◌≡◌, refl, String, true, any, ◌||◌, Option, none, some, List, [], ◌∷◌, All, arith, eq_iff, ◌==◌,
  string_eq, if◌then◌else◌,
}
use opendesk_remote.Prelude.Dict.{Dict, lookup, insert, lookup-insert, HasDistinctKeys, or_else}
use opendesk_remote.ControlRole.{
  Mode, Role, use_client_settings, disable, permission_keys, is_known, fill, default_permissions,
  set_permission, set_permissions, apply_role, apply_roles, evaluate,
}

-- The mode of a key that no role names.
abbrev pub default_mode : String → Mode
default_mode key =
    if key == "terminal" || key == "tcp_tunnel" || key == "remote_config_modification"
    then disable
    else use_client_settings

-- The mode that a role sets for a key, if it is enabled and names it.
abbrev pub named_mode : Role → String → Option Mode
named_mode role key = if role.enabled then lookup key role.permissions else none

-- The mode of the last enabled role that names the key.
unfoldable pub last_named : List Role → String → Option Mode
last_named [] key = none
last_named (role ∷ roles) key = or_else (last_named roles key) (named_mode role key)

lookup-fill :
    (out : Dict Mode) (keys : List String) (key : String)
    → lookup key (fill out keys)
      ≡ (if any (λ known. known == key) keys then some use_client_settings else lookup key out)
unfolding fill any
lookup-fill out [] key = refl
lookup-fill out (k ∷ keys) key = ground (
  arith,
  lookup-fill (insert k use_client_settings out) keys key,
  lookup-insert k key use_client_settings out,
)

restricted_known :
    (is_known "terminal" ≡ true)
    × (is_known "tcp_tunnel" ≡ true)
    × (is_known "remote_config_modification" ≡ true)
unfolding is_known
restricted_known = (refl, refl, refl)

lookup-default_permissions :
    (key : String)
    → lookup key default_permissions ≡ (if is_known key then some (default_mode key) else none)
unfolding default_permissions lookup
lookup-default_permissions key =
    let out = fill [] permission_keys in
    let with_terminal = insert "terminal" disable out in
    let with_tunnel = insert "tcp_tunnel" disable with_terminal in
    ground (
      arith,
      restricted_known,
      known_fill key,
      lookup-insert "terminal" key disable out,
      lookup-insert "tcp_tunnel" key disable with_terminal,
      lookup-insert "remote_config_modification" key disable with_tunnel,
      eq_iff "terminal" key,
      eq_iff "tcp_tunnel" key,
      eq_iff "remote_config_modification" key,
      eq_iff key "terminal",
      eq_iff key "tcp_tunnel",
      eq_iff key "remote_config_modification",
    )
  where
    known_fill :
        (k : String)
        → lookup k (fill [] permission_keys)
          ≡ (if is_known k then some use_client_settings else none)
    known_fill k = unfold is_known in lookup-fill [] permission_keys k

lookup-set_permission :
    (out : Dict Mode) (j : String) (mode : Mode) (key : String)
    → lookup key (set_permission out j mode)
      ≡ (if is_known j then (if j == key then some mode else lookup key out) else lookup key out)
unfolding set_permission
lookup-set_permission out j mode key = ground (arith, lookup-insert j key mode out)

lookup-set_permissions :
    (out perms : Dict Mode) (key : String)
    → HasDistinctKeys perms
    → lookup key (set_permissions out perms)
      ≡ (if is_known key then or_else (lookup key perms) (lookup key out) else lookup key out)
unfolding set_permissions lookup
lookup-set_permissions out [] key h = ground arith
lookup-set_permissions out ((j, mode) ∷ rest) key h = ground (
  arith,
  lookup-set_permissions (set_permission out j mode) rest key h.1,
  lookup-set_permission out j mode key,
  eq_iff j key,
  h.0,
)

abbrev pub AreMaps : List Role → Type 0
AreMaps = All (λ role. HasDistinctKeys role.permissions)

lookup-apply_roles :
    (out : Dict Mode) (roles : List Role) (key : String)
    → AreMaps roles
    → lookup key (apply_roles out roles)
      ≡ (if is_known key then or_else (last_named roles key) (lookup key out) else lookup key out)
unfolding apply_roles apply_role last_named
lookup-apply_roles out [] key h = ground arith
lookup-apply_roles out (role ∷ roles) key h = ground (
  arith,
  lookup-apply_roles (apply_role out role) roles key h.1,
  lookup-set_permissions out role.permissions key h.0,
)

-- For permissions that hold each key once, as a Go map does, and in whatever order they are
-- walked: a known key has the mode of the last enabled role that names it, or its default mode,
-- which is `disable` for the terminal, the TCP tunnel and the remote configuration; an unknown
-- key has no entry, whatever the roles say.
pub lookup-evaluate :
    (roles : List Role) (key : String)
    → AreMaps roles
    → lookup key (evaluate roles)
      ≡ (if is_known key then or_else (last_named roles key) (some (default_mode key)) else none)
unfolding evaluate
lookup-evaluate roles key h =
    ground
      (arith, lookup-apply_roles default_permissions roles key h, lookup-default_permissions key)
