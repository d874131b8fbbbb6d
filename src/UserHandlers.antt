-- ===== src/UserHandlers.antt =====
-- The handlers of api/internal/users/handler.go over the memory repository: users and user groups.
pub mod LockedOut
mod Tests
use opendesk_remote.Prelude.{
  ℕ, String, ℤ, pos, Bool, not, ◌&&◌, ◌||◌, Option, none, some, Time, List, [], ◌∷◌, length,
  contains, trim_space, is_pos, Error, is_not_found, message, Result, ok, err, ◌==◌, string_eq,
  if◌then◌else◌, ◌>>=◌, ◌>>◌, refuse_if,
}
use opendesk_remote.Models.Values.{text, number, flag}
use opendesk_remote.Models.Accounts.{User, UserGroup}
use opendesk_remote.Repository.{Memory, Sorting}
use opendesk_remote.Repository.Accounts.{Casing, create_user, find_user, update_user, disable_user}
use opendesk_remote.Repository.Groups.{
  create_user_group, list_user_group_members, add_user_group_member, remove_user_group_member,
}
use opendesk_remote.Http.{Reply, done, failed, Visit, audited}
use opendesk_remote.PolicyHandlers.{Printing}

pub record CreateUserGroupRequest : Type 0 where
  pub name : String
  pub description : String
  pub member_user_ids : List ℤ

unfoldable pub validate_user : User → Result (Unit {0})
validate_user user = do
  refuse_if (trim_space user.email == "" || trim_space user.username == "")
      (message "email and username are required")
  refuse_if
      (not (user.status == "")
        && not (contains ("active" ∷ "disabled" ∷ "locked" ∷ []) user.status))
      (message "status must be active, disabled, or locked")
  refuse_if
      (not (trim_space user.source == "")
        && not (contains ("local" ∷ "oidc" ∷ "ldap" ∷ []) (trim_space user.source)))
      (message "source must be local, oidc, or ldap")
  ok tt

user_loaded : Result User → Reply User
user_loaded (err e) =
    if is_not_found e
    then failed 404 "USER_NOT_FOUND" "user not found"
    else failed 500 "LOAD_USER_FAILED" "load user failed"
user_loaded (ok user) = done 200 user

unfoldable pub get_user : Memory → ℤ → Reply User
unfolding user_loaded
get_user m id = user_loaded (find_user m id)

module _ (printing : Printing) (visit : Visit) where
  user_created : Time → Memory × Result User → Memory × Reply User
  user_created logged (m, err e) = (m, failed 400 "INVALID_USER" (printing.text_of e))
  user_created logged (m, ok user) =
      audited visit logged
        (record {
          action = "create_user";
          resource_type = "user";
          resource_id = printing.show user.id;
          metadata =
              ("email", text user.email)
              ∷ ("username", text user.username)
              ∷ ("display_name", text user.display_name)
              ∷ ("status", text user.status)
              ∷ ("source", text user.source)
              ∷ [];
        })
        "failed to record user creation" (done 201 user) m

  unfoldable pub post_user : Memory → Time → Time → Option User → Memory × Reply User
  unfolding user_created
  post_user m now logged none = (m, failed 400 "INVALID_JSON" "invalid JSON body")
  post_user m now logged (some user) = user_created logged (create_user m now user)

  user_updated : Time → Memory × Result User → Memory × Reply User
  user_updated logged (m, err e) = (
    m,
    if is_not_found e
        then failed 404 "USER_NOT_FOUND" "user not found"
        else failed 400 "INVALID_USER" (printing.text_of e),
  )
  user_updated logged (m, ok user) =
      audited visit logged
        (record {
          action = "update_user";
          resource_type = "user";
          resource_id = printing.show user.id;
          metadata =
              ("email", text user.email)
              ∷ ("username", text user.username)
              ∷ ("display_name", text user.display_name)
              ∷ ("status", text user.status)
              ∷ ("source", text user.source)
              ∷ ("mfa_enabled", flag user.mfa_enabled)
              ∷ [];
        })
        "failed to record user update" (done 200 user) m

  update_checked :
      Casing → Memory → Time → Time → ℤ → User → Result (Unit {0}) → Memory × Reply User
  unfolding user_updated
  update_checked casing m now logged id user (err e) =
      (m, failed 400 "INVALID_USER" (printing.text_of e))
  update_checked casing m now logged id user (ok u) =
      user_updated logged (update_user casing m now id user)

  unfoldable pub put_user : Casing → Memory → Time → Time → ℤ → Option User → Memory × Reply User
  unfolding update_checked
  put_user casing m now logged id none = (m, failed 400 "INVALID_JSON" "invalid JSON body")
  put_user casing m now logged id (some user) =
      update_checked casing m now logged id user (validate_user user)

  user_disabled : Time → Memory × Result User → Memory × Reply User
  user_disabled logged (m, err e) = (
    m,
    if is_not_found e
        then failed 404 "USER_NOT_FOUND" "user not found"
        else failed 500 "DISABLE_USER_FAILED" "disable user failed",
  )
  user_disabled logged (m, ok user) =
      audited visit logged
        (record {
          action = "disable_user";
          resource_type = "user";
          resource_id = printing.show user.id;
          metadata =
              ("email", text user.email)
              ∷ ("username", text user.username)
              ∷ ("status", text user.status)
              ∷ [];
        })
        "failed to record user disable" (done 200 user) m

  unfoldable pub delete_user : Memory → Time → Time → ℤ → Memory × Reply User
  unfolding user_disabled
  delete_user m now logged id = user_disabled logged (disable_user m id now)

  group_created : Time → Memory × Result UserGroup → Memory × Reply UserGroup
  group_created logged (m, err e) = (m, failed 400 "INVALID_USER_GROUP" (printing.text_of e))
  group_created logged (m, ok group) =
      audited visit logged
        (record {
          action = "create_user_group";
          resource_type = "user_group";
          resource_id = printing.show group.id;
          metadata =
              ("name", text group.name)
              ∷ ("member_count", number (pos (length group.member_user_ids)))
              ∷ [];
        })
        "failed to record user group creation" (done 201 group) m

  -- The row that a request asks for.
  group_of : CreateUserGroupRequest → UserGroup
  group_of req = record {
    id = pos 0;
    name = trim_space req.name;
    description = trim_space req.description;
    member_user_ids = req.member_user_ids;
    created_at = 0;
    updated_at = 0;
  }

  unfoldable pub post_group :
      Memory → Time → Time → Option CreateUserGroupRequest → Memory × Reply UserGroup
  unfolding group_created group_of
  post_group m now logged none = (m, failed 400 "INVALID_JSON" "invalid JSON body")
  post_group m now logged (some req) =
      if trim_space req.name == ""
      then (m, failed 400 "INVALID_USER_GROUP" "name is required")
      else group_created logged (create_user_group m now (group_of req))

  -- After a change of the members; `status` is that of the answer.
  membership_changed : String → ℕ → Time → ℤ → Memory × Result UserGroup → Memory × Reply UserGroup
  membership_changed action status logged user_id (m, err e) = (
    m,
    if is_not_found e
        then failed 404 "USER_GROUP_NOT_FOUND" "user group not found"
        else failed 400 "INVALID_USER_GROUP_MEMBER" (printing.text_of e),
  )
  membership_changed action status logged user_id (m, ok group) =
      audited visit logged
        (record {
          action = action;
          resource_type = "user_group";
          resource_id = printing.show group.id;
          metadata = ("group_name", text group.name) ∷ ("user_id", number user_id) ∷ [];
        })
        "failed to record user group membership change" (done status group) m

  -- The body is the number of the user.
  unfoldable pub post_member :
      Sorting → Memory → Time → Time → ℤ → Option ℤ → Memory × Reply UserGroup
  unfolding membership_changed
  post_member sorting m now logged group_id none =
      (m, failed 400 "INVALID_JSON" "invalid JSON body")
  post_member sorting m now logged group_id (some user_id) =
      if not (is_pos user_id)
      then (m, failed 400 "INVALID_USER_GROUP_MEMBER" "user_id must be positive")
      else membership_changed "add_user_group_member" 201 logged user_id
          (add_user_group_member sorting m now group_id user_id)

  unfoldable pub delete_member : Memory → Time → Time → ℤ → ℤ → Memory × Reply UserGroup
  unfolding membership_changed
  delete_member m now logged group_id user_id =
      membership_changed "remove_user_group_member" 200 logged user_id
        (remove_user_group_member m now group_id user_id)

members_listed : Result (List ℤ) → Reply (List ℤ)
members_listed (err e) =
    if is_not_found e
    then failed 404 "USER_GROUP_NOT_FOUND" "user group not found"
    else failed 500 "LIST_USER_GROUP_MEMBERS_FAILED" "list user group members failed"
members_listed (ok ids) = done 200 ids

unfoldable pub get_members : Memory → ℤ → Reply (List ℤ)
unfolding members_listed
get_members m group_id = members_listed (list_user_group_members m group_id)
