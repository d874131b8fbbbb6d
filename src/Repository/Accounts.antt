-- ===== src/Repository/Accounts.antt =====
-- Users and login logs of api/internal/repository/memory.go.
use opendesk_remote.Prelude.{
  ℕ, String, ℤ, Bool, ◌||◌, ◌&&◌, not, Time, some, [], ◌∷◌, ◌++◌, find_first, modify_first, inc64,
  nat_eq, is_some, length, trim_space, message, Result, ok, ◌==◌, string_eq, int_has_eq,
  if◌then◌else◌,
}
use opendesk_remote.Models.Accounts.{User, LoginLog}
use opendesk_remote.Repository.{Memory, or_not_found, guarded}
use opendesk_remote.Repository.Lookup.{changed}

-- strings.ToLower and strings.EqualFold, which follow the tables of Unicode.
pub record Casing : Type 0 where
  pub to_lower : String → String
  pub equal_fold : String → String → Bool

unfoldable pub count_users : Memory → ℕ
count_users m = length m.users

unfoldable pub find_user_by_email : Casing → Memory → String → Result User
find_user_by_email casing m email =
    or_not_found (
      find_first (λ user. casing.equal_fold user.email (casing.to_lower (trim_space email)))
        m.users)

unfoldable pub find_user : Memory → ℤ → Result User
find_user m id = or_not_found (find_first (λ user. user.id == id) m.users)

-- The loop over the users that changes the one with the number `id`.
unfoldable pub change_user : Memory → ℤ → (User → User) → Memory × Result User
change_user m id write =
    let at_id = λ (user : User). user.id == id in
    (
      record m { users = modify_first at_id write m.users },
      changed write (find_first at_id m.users),
    )

-- What `UpdateUser` writes over the user `old`.
edited_user : Casing → Time → User → User → User
edited_user casing now user old = record old {
  email = casing.to_lower (trim_space user.email);
  username = trim_space user.username;
  display_name =
      if trim_space user.display_name == ""
      then trim_space user.username
      else trim_space user.display_name;
  status = if user.status == "" then old.status else user.status;
  mfa_enabled = user.mfa_enabled;
  source = if trim_space user.source == "" then old.source else trim_space user.source;
  updated_at = now;
}

unfoldable pub update_user : Casing → Memory → Time → ℤ → User → Memory × Result User
unfolding change_user edited_user
update_user casing m now id user =
    guarded (trim_space user.email == "" || trim_space user.username == "")
      (message "email and username are required") m (change_user m id (edited_user casing now user))

unfoldable pub disable_user : Memory → ℤ → Time → Memory × Result User
unfolding change_user
disable_user m id at = change_user m id λ user. record user { status = "disabled"; updated_at = at }

unfoldable pub record_user_login : Memory → ℤ → Time → Memory × Result User
unfolding change_user
record_user_login m id at =
    change_user m id λ user. record user { last_login_at = some at; updated_at = at }

unfoldable pub create_user : Memory → Time → User → Memory × Result User
create_user m now user =
    let row = record user {
      id = inc64 m.next_id;
      status = "active";
      source = "local";
      created_at = now;
      updated_at = now;
    } in
    guarded (user.email == "" || user.username == "") (message "email and username are required") m
      (record m { next_id = inc64 m.next_id; users = m.users ++ (row ∷ []) }, ok row)

valid_login_status : String → Bool
valid_login_status status = status == "succeeded" || status == "failed" || status == "denied"

-- The row that `CreateLoginLog` stores.
new_login_log : Casing → Memory → Time → LoginLog → LoginLog
new_login_log casing m now log =
    let created_at = if nat_eq log.created_at 0 then now else log.created_at in
    record log {
      id = inc64 m.next_id;
      email = casing.to_lower (trim_space log.email);
      username = trim_space log.username;
      display_name = trim_space log.display_name;
      failure_reason = trim_space log.failure_reason;
      ip = trim_space log.ip;
      user_agent = trim_space log.user_agent;
      created_at = created_at;
      last_login_at =
          if log.status == "succeeded" && not (is_some log.last_login_at)
          then some created_at
          else log.last_login_at;
    }

unfoldable pub create_login_log : Casing → Memory → Time → LoginLog → Memory × Result LoginLog
unfolding valid_login_status new_login_log
create_login_log casing m now log =
    guarded (trim_space log.email == "") (message "email is required") m (
      guarded (not (valid_login_status log.status))
        (message "login status must be succeeded, failed, or denied") m
        (
          record m {
            next_id = inc64 m.next_id;
            login_logs = new_login_log casing m now log ∷ m.login_logs;
          },
          ok (new_login_log casing m now log),
        ))
