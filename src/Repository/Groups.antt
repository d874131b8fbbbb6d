-- ===== src/Repository/Groups.antt =====
-- User groups and device groups of api/internal/repository/memory.go.
use opendesk_remote.Prelude.{
  ℤ, ◌||◌, not, Time, List, [], ◌∷◌, ◌++◌, keep, find_first, modify_first, contains, inc64, is_pos,
  int_lt, trim_space, message, Result, ok, ◌==◌, ◌!=◌, string_eq, int_has_eq, if◌then◌else◌,
}
use opendesk_remote.Models.Accounts.{UserGroup}
use opendesk_remote.Models.Fleet.{DeviceGroup}
use opendesk_remote.Repository.{Memory, guarded, Sorting}
use opendesk_remote.Repository.Lookup.{changed}
use opendesk_remote.Repository.Paging.{positive_ids}

unfoldable pub create_user_group : Memory → Time → UserGroup → Memory × Result UserGroup
create_user_group m now group =
    let row = record group {
      id = inc64 m.next_id;
      name = trim_space group.name;
      description = trim_space group.description;
      member_user_ids = positive_ids group.member_user_ids;
      created_at = now;
      updated_at = now;
    } in
    guarded (trim_space group.name == "") (message "name is required") m
      (record m { next_id = inc64 m.next_id; user_groups = m.user_groups ++ (row ∷ []) }, ok row)

-- `append` and `sort.Slice`, if the number is not there yet.
unfoldable pub add_member : Sorting → List ℤ → ℤ → List ℤ
add_member sorting ids id =
    if contains ids id then ids else sorting.sort_slice int_lt (ids ++ (id ∷ []))

unfoldable pub remove_int64 : List ℤ → ℤ → List ℤ
remove_int64 ids id = keep (λ other. other != id) ids

unfoldable pub create_device_group : Memory → Time → DeviceGroup → Memory × Result DeviceGroup
create_device_group m now group =
    let row = record group {
      id = inc64 m.next_id;
      name = trim_space group.name;
      description = trim_space group.description;
      member_device_ids = positive_ids group.member_device_ids;
      created_at = now;
      updated_at = now;
    } in
    guarded (trim_space group.name == "") (message "name is required") m (
      record m { next_id = inc64 m.next_id; device_groups = m.device_groups ++ (row ∷ []) },
      ok row,
    )

unfoldable pub list_user_group_members : Memory → ℤ → Result (List ℤ)
list_user_group_members m group_id =
    changed (λ (group : UserGroup). group.member_user_ids)
      (find_first (λ group. group.id == group_id) m.user_groups)

-- A member that is there already leaves the time of the last change as it was.
unfoldable pub with_user : Sorting → Time → ℤ → UserGroup → UserGroup
with_user sorting now user_id group =
    if contains group.member_user_ids user_id then group else record group {
      member_user_ids = add_member sorting group.member_user_ids user_id;
      updated_at = now;
    }

unfoldable pub add_user_group_member : Sorting → Memory → Time → ℤ → ℤ → Memory × Result UserGroup
unfolding with_user
add_user_group_member sorting m now group_id user_id =
    let at_id = λ (group : UserGroup). group.id == group_id in
    guarded (not (is_pos group_id) || not (is_pos user_id))
      (message "group_id and user_id must be positive") m
      (
        record m { user_groups = modify_first at_id (with_user sorting now user_id) m.user_groups },
        changed (with_user sorting now user_id) (find_first at_id m.user_groups),
      )

unfoldable pub without_user : Time → ℤ → UserGroup → UserGroup
without_user now user_id group = record group {
  member_user_ids = remove_int64 group.member_user_ids user_id;
  updated_at = now;
}

unfoldable pub remove_user_group_member : Memory → Time → ℤ → ℤ → Memory × Result UserGroup
unfolding without_user
remove_user_group_member m now group_id user_id =
    let at_id = λ (group : UserGroup). group.id == group_id in
    guarded (not (is_pos group_id) || not (is_pos user_id))
      (message "group_id and user_id must be positive") m
      (
        record m { user_groups = modify_first at_id (without_user now user_id) m.user_groups },
        changed (without_user now user_id) (find_first at_id m.user_groups),
      )

unfoldable pub list_device_group_members : Memory → ℤ → Result (List ℤ)
list_device_group_members m group_id =
    changed (λ (group : DeviceGroup). group.member_device_ids)
      (find_first (λ group. group.id == group_id) m.device_groups)

-- A member that is there already leaves the time of the last change as it was.
unfoldable pub with_device : Sorting → Time → ℤ → DeviceGroup → DeviceGroup
with_device sorting now device_id group =
    if contains group.member_device_ids device_id then group else record group {
      member_device_ids = add_member sorting group.member_device_ids device_id;
      updated_at = now;
    }

unfoldable pub add_device_group_member :
    Sorting → Memory → Time → ℤ → ℤ → Memory × Result DeviceGroup
unfolding with_device
add_device_group_member sorting m now group_id device_id =
    let at_id = λ (group : DeviceGroup). group.id == group_id in
    guarded (not (is_pos group_id) || not (is_pos device_id))
      (message "group_id and device_id must be positive") m
      (
        record m {
          device_groups = modify_first at_id (with_device sorting now device_id) m.device_groups;
        },
        changed (with_device sorting now device_id) (find_first at_id m.device_groups),
      )

unfoldable pub without_device : Time → ℤ → DeviceGroup → DeviceGroup
without_device now device_id group = record group {
  member_device_ids = remove_int64 group.member_device_ids device_id;
  updated_at = now;
}

unfoldable pub remove_device_group_member : Memory → Time → ℤ → ℤ → Memory × Result DeviceGroup
unfolding without_device
remove_device_group_member m now group_id device_id =
    let at_id = λ (group : DeviceGroup). group.id == group_id in
    guarded (not (is_pos group_id) || not (is_pos device_id))
      (message "group_id and device_id must be positive") m
      (
        record m {
          device_groups = modify_first at_id (without_device now device_id) m.device_groups;
        },
        changed (without_device now device_id) (find_first at_id m.device_groups),
      )
