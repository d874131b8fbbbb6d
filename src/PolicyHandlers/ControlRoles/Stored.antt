-- ===== src/PolicyHandlers/ControlRoles/Stored.antt =====
-- Whatever the handlers are asked for, the stored control roles name permissions that the evaluator
-- reads, and one of its three modes.
use mathlib.Core.Path.{subst}
use opendesk_remote.Prelude.{
  String, ℤ, ◌≡◌, Bool, false, refl, sym, ap, ◌∙◌, true, not, inl, inr, Bool-cases, Option, none,
  some, Option-cases, int_has_eq, Time, List, [], ◌∷◌, All, All-append, All-modify_first,
  All-remove_first, any, contains, find_first, inc64, trim_space, Result, ok, err, arith, eq_iff,
  ◌==◌, string_eq, passed,
}
use opendesk_remote.Models.Policies.{ControlRole, ControlRolePermission}
use opendesk_remote.ControlRole.{permission_keys, is_known}
use opendesk_remote.Repository.{Memory, numbered}
use opendesk_remote.Repository.Lookup.{guarded-keeps}
use opendesk_remote.Repository.Policies.{
  create_control_role, update_control_role, delete_control_role,
}
use opendesk_remote.Http.{Reply, Event, Visit, audited}
use opendesk_remote.Http.Audited.{audited-noted}
use opendesk_remote.PolicyHandlers.{Printing, one_of}
use opendesk_remote.PolicyHandlers.ControlRoles.{
  CreateControlRoleRequest, known_permission, modes, validate_permissions, validate_control_role,
  normalized_permissions, role_of, role_created, create_checked, post_control_role, role_updated,
  update_checked, put_control_role, role_deleted, remove_control_role,
}

-- The keys that the evaluator reads, and the three modes that it may answer with.
abbrev pub evaluator_keys : List String
evaluator_keys =
    "keyboard_mouse" ∷ "remote_printer" ∷ "clipboard" ∷ "file_transfer" ∷ "audio" ∷ "camera"
    ∷ "terminal" ∷ "tcp_tunnel" ∷ "remote_restart" ∷ "recording_session" ∷ "block_user_input"
    ∷ "remote_config_modification" ∷ []

abbrev pub evaluator_modes : List String
evaluator_modes = "use_client_settings" ∷ "enable" ∷ "disable" ∷ []

-- The evaluator reads the key, and the mode is one of the three.
abbrev pub IsKnown : ControlRolePermission → Type 0
IsKnown permission =
    (is_known permission.permission_key ≡ true)
    × (contains evaluator_keys permission.permission_key ≡ true)
    × (contains evaluator_modes permission.mode ≡ true)

abbrev pub AllKnown : Memory → Type 0
AllKnown m = All (λ (role : ControlRole). All IsKnown role.permissions) m.control_roles

-- A text in a list of texts that trimming leaves as they are.
pub trim-listed :
    (words : List String) (word : String)
    → All (λ w. trim_space w ≡ w) words
    → contains words word ≡ true
    → trim_space word ≡ word
unfolding contains
trim-listed [] word plain h = absurd (ground (arith, h))
trim-listed (w ∷ words) word plain h = elim (Bool-cases (w == word)) [
  | inl hit ↦ subst (λ x. trim_space x ≡ x) ((eq_iff w word).0 hit) plain.0
  | inr miss ↦ trim-listed words word plain.1 (ground (arith, miss, h))
]

any-contains :
    (words : List String) (word : String) → any (λ known. known == word) words ≡ contains words word
unfolding any contains
any-contains [] word = refl
any-contains (w ∷ words) word = ground (arith, any-contains words word)

plain_keys : All (λ w. trim_space w ≡ w) permission_keys
unfolding trim_space
plain_keys = (
  refl,
  (refl, (refl, (refl, (refl, (refl, (refl, (refl, (refl, (refl, (refl, (refl, tt))))))))))),
)

plain_modes : All (λ w. trim_space w ≡ w) modes
unfolding trim_space
plain_modes = (refl, (refl, (refl, tt)))

not-false : (b : Bool) → not b ≡ false → b ≡ true
not-false true e = refl
not-false false e = absurd (ground arith)

accepted-IsKnown :
    (permissions : List ControlRolePermission)
    → validate_permissions permissions ≡ ok tt
    → All IsKnown (normalized_permissions permissions)
unfolding validate_permissions normalized_permissions one_of known_permission is_known
accepted-IsKnown [] valid = tt
accepted-IsKnown (permission ∷ permissions) valid =
    let key = passed (not (known_permission permission.permission_key)) _ _ valid in
    let mode = passed (not (one_of permission.mode modes)) _ _ key.1 in
    let known : known_permission permission.permission_key ≡ true = not-false _ key.0 in
    let trimmed : trim_space permission.permission_key ≡ permission.permission_key =
      trim-listed permission_keys permission.permission_key plain_keys
        (sym (any-contains permission_keys permission.permission_key) ∙ known) in
    let moded : contains evaluator_modes permission.mode ≡ true = not-false _ mode.0 in
    (
      (
        ap known_permission trimmed ∙ known,
        ap (contains evaluator_keys) trimmed
            ∙ (sym (any-contains evaluator_keys permission.permission_key) ∙ known),
        ap (contains evaluator_modes) (trim-listed modes permission.mode plain_modes moded) ∙ moded,
      ),
      accepted-IsKnown permissions mode.1,
    )

numbered-IsKnown :
    (f : ℤ → ControlRolePermission → ControlRolePermission)
    → ((id : ℤ) (permission : ControlRolePermission)
        → ((f id permission).permission_key ≡ permission.permission_key)
          × ((f id permission).mode ≡ permission.mode))
    → (next : ℤ) (permissions : List ControlRolePermission) → All IsKnown permissions
    → All IsKnown (numbered f next permissions).1
unfolding numbered
numbered-IsKnown f keeps next [] h = tt
numbered-IsKnown f keeps next (permission ∷ permissions) h = (
  (
    ap is_known (keeps (inc64 next) permission).0 ∙ h.0.0,
    ap (contains evaluator_keys) (keeps (inc64 next) permission).0 ∙ h.0.1,
    ap (contains evaluator_modes) (keeps (inc64 next) permission).1 ∙ h.0.2,
  ),
  numbered-IsKnown f keeps (inc64 next) permissions h.1,
)

created-AllKnown :
    (m : Memory) (now : Time) (role : ControlRole)
    → All IsKnown role.permissions
    → AllKnown m
    → AllKnown (create_control_role m now role).0
unfolding create_control_role
created-AllKnown m now role known h = guarded-keeps AllKnown _ _ m _ h (
    All-append _ m.control_roles _ h (
      numbered-IsKnown _ (λ id permission. (refl, refl)) (inc64 m.next_id) role.permissions known,
      tt,
    ))

updated-AllKnown :
    (m : Memory) (now : Time) (id : ℤ) (role : ControlRole)
    → All IsKnown role.permissions
    → AllKnown m
    → AllKnown (update_control_role m now id role).0
unfolding update_control_role
updated-AllKnown m now id role known h = elim (Bool-cases (trim_space role.name == "")) [
  | inl blank ↦ rw blank h
  | inr named ↦
      elim (Option-cases (find_first (λ (other : ControlRole). other.id == id) m.control_roles)) [
        | inl missing ↦ rw named (rw missing h)
        | inr (old, found) ↦ rw named (
            rw found (
              All-modify_first (λ (other : ControlRole). All IsKnown other.permissions) _ _
                m.control_roles
                (λ other k.
                  numbered-IsKnown _ (λ id permission. (refl, refl)) m.next_id role.permissions
                    known)
                h))
      ]
]

deleted-AllKnown : (m : Memory) (id : ℤ) → AllKnown m → AllKnown (delete_control_role m id).0
unfolding delete_control_role
deleted-AllKnown m id h = guarded-keeps AllKnown _ _ m _ h (All-remove_first _ _ m.control_roles h)

requested-IsKnown :
    (req : CreateControlRoleRequest)
    → validate_control_role req ≡ ok tt
    → All IsKnown (role_of req).permissions
unfolding validate_control_role role_of
requested-IsKnown req valid =
    accepted-IsKnown req.permissions (passed (trim_space req.name == "") _ _ valid).1

-- A request to change the roles, with the two readings of the clock.
pub data RoleEdit : Type 0 where
  posts : Time → Time → Option CreateControlRoleRequest → RoleEdit
  puts : Time → Time → ℤ → Option CreateControlRoleRequest → RoleEdit
  removes : Time → ℤ → RoleEdit

-- An audit event leaves the roles.
audited-AllKnown :
    {B : Type 0} (visit : Visit) (now : Time) (event : Event) (complaint : String) (reply : Reply B)
    (m : Memory)
    → AllKnown m
    → AllKnown (audited visit now event complaint reply m).0
audited-AllKnown visit now event complaint reply m h =
    subst AllKnown (sym (ap (λ r. r.0) (audited-noted visit now event complaint reply m))) h

module _ (printing : Printing) (visit : Visit) where
  pub edit_role : Memory → RoleEdit → Memory
  edit_role m (posts now logged req) = (post_control_role printing visit m now logged req).0
  edit_role m (puts now logged id req) = (put_control_role printing visit m now logged id req).0
  edit_role m (removes logged id) = (remove_control_role printing visit m logged id).0

  -- Whichever request to change the roles is served: every permission of every stored control role
  -- still has a key that the evaluator reads, one of the twelve, and the mode `use_client_settings`,
  -- `enable` or `disable`, if those that were stored before do.
  pub edit_role-AllKnown : (m : Memory) (e : RoleEdit) → AllKnown m → AllKnown (edit_role m e)
  unfolding edit_role post_control_role put_control_role remove_control_role create_checked
      update_checked role_created role_updated role_deleted
  edit_role-AllKnown m (posts now logged none) h = h
  edit_role-AllKnown m (posts now logged (some req)) h = checked (validate_control_role req) refl
    where
      created :
          (r : Memory × Result ControlRole)
          → AllKnown r.0
          → AllKnown (role_created printing visit logged r).0
      created (m, err e) k = k
      created (m, ok role) k = audited-AllKnown visit logged _ _ _ m k

      checked :
          (r : Result (Unit {0}))
          → validate_control_role req ≡ r
          → AllKnown (create_checked printing visit m now logged req r).0
      checked (err e) valid = h
      checked (ok u) valid =
          created _ (created-AllKnown m now (role_of req) (requested-IsKnown req valid) h)
  edit_role-AllKnown m (puts now logged id none) h = h
  edit_role-AllKnown m (puts now logged id (some req)) h = checked (validate_control_role req) refl
    where
      updated :
          (r : Memory × Result ControlRole)
          → AllKnown r.0
          → AllKnown (role_updated printing visit logged r).0
      updated (m, err e) k = k
      updated (m, ok role) k = audited-AllKnown visit logged _ _ _ m k

      checked :
          (r : Result (Unit {0}))
          → validate_control_role req ≡ r
          → AllKnown (update_checked printing visit m now logged id req r).0
      checked (err e) valid = h
      checked (ok u) valid =
          updated _ (updated-AllKnown m now id (role_of req) (requested-IsKnown req valid) h)
  edit_role-AllKnown m (removes logged id) h =
      deleted (delete_control_role m id) (deleted-AllKnown m id h)
    where
      deleted :
          (r : Memory × Result (Unit {0}))
          → AllKnown r.0
          → AllKnown (role_deleted printing visit logged id r).0
      deleted (m, err e) k = k
      deleted (m, ok u) k = audited-AllKnown visit logged _ _ _ m k
