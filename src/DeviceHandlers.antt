-- ===== src/DeviceHandlers.antt =====
-- The handlers of api/internal/devices/handler.go over the memory repository: devices and device
-- groups (`Effective` the strategy of a device).
pub mod Effective
mod Tests
use opendesk_remote.Prelude.{
  ℕ, String, ℤ, pos, not, ◌&&◌, ◌||◌, Option, none, some, Time, List, [], ◌∷◌, length, contains,
  trim_space, is_pos, Error, is_not_found, message, Result, ok, err, ◌==◌, string_eq, if◌then◌else◌,
  ◌>>=◌, ◌>>◌, refuse_if,
}
use opendesk_remote.Models.Values.{text, number}
use opendesk_remote.Models.Fleet.{Device, DeviceGroup}
use opendesk_remote.Repository.{Memory, Sorting}
use opendesk_remote.Repository.Machines.{create_device, find_device, update_device, disable_device}
use opendesk_remote.Repository.Groups.{
  create_device_group, list_device_group_members, add_device_group_member,
  remove_device_group_member,
}
use opendesk_remote.Http.{Reply, done, failed, Visit, Event, audited}
use opendesk_remote.PolicyHandlers.{Printing}

pub record CreateDeviceGroupRequest : Type 0 where
  pub name : String
  pub description : String
  pub member_device_ids : List ℤ

unfoldable pub validate_device : Device → Result (Unit {0})
validate_device device = do
  refuse_if (trim_space device.rustdesk_id == "" || trim_space device.name == "")
      (message "rustdesk_id and name are required")
  refuse_if
      (not (device.status == "")
        && not (contains ("online" ∷ "offline" ∷ "disabled" ∷ []) device.status))
      (message "status must be online, offline, or disabled")
  ok tt

unfoldable pub device_load_failed : {B : Type 0} → Error → Reply B
device_load_failed e =
    if is_not_found e
    then failed 404 "DEVICE_NOT_FOUND" "device not found"
    else failed 500 "LOAD_DEVICE_FAILED" "load device failed"

device_loaded : Result Device → Reply Device
unfolding device_load_failed
device_loaded (err e) = device_load_failed e
device_loaded (ok device) = done 200 device

unfoldable pub get_device : Memory → ℤ → Reply Device
unfolding device_loaded
get_device m id = device_loaded (find_device m id)

device_event : Printing → String → Device → Event
device_event printing action device = record {
  action = action;
  resource_type = "device";
  resource_id = printing.show device.id;
  metadata =
      ("rustdesk_id", text device.rustdesk_id)
      ∷ ("name", text device.name)
      ∷ ("platform", text device.platform)
      ∷ ("status", text device.status)
      ∷ [];
}

module _ (printing : Printing) (visit : Visit) where
  -- `action` and `complaint` tell a creation from a registration.
  device_created : String → String → Time → Memory × Result Device → Memory × Reply Device
  unfolding device_event
  device_created action complaint logged (m, err e) =
      (m, failed 400 "INVALID_DEVICE" (printing.text_of e))
  device_created action complaint logged (m, ok device) =
      audited visit logged (device_event printing action device) complaint (done 201 device) m

  unfoldable pub post_device : Memory → Time → Time → Option Device → Memory × Reply Device
  unfolding device_created
  post_device m now logged none = (m, failed 400 "INVALID_JSON" "invalid JSON body")
  post_device m now logged (some device) =
      device_created "create_device" "failed to record device creation" logged
        (create_device m now device)

  unfoldable pub register_device : Memory → Time → Time → Option Device → Memory × Reply Device
  unfolding device_created
  register_device m now logged none = (m, failed 400 "INVALID_JSON" "invalid JSON body")
  register_device m now logged (some device) =
      device_created "register_device" "failed to record device registration" logged
        (create_device m now device)

  device_updated : Time → Memory × Result Device → Memory × Reply Device
  unfolding device_event
  device_updated logged (m, err e) = (
    m,
    if is_not_found e
        then failed 404 "DEVICE_NOT_FOUND" "device not found"
        else failed 400 "INVALID_DEVICE" (printing.text_of e),
  )
  device_updated logged (m, ok device) =
      audited visit logged (device_event printing "update_device" device)
        "failed to record device update" (done 200 device) m

  update_checked : Memory → Time → Time → ℤ → Device → Result (Unit {0}) → Memory × Reply Device
  unfolding device_updated
  update_checked m now logged id device (err e) =
      (m, failed 400 "INVALID_DEVICE" (printing.text_of e))
  update_checked m now logged id device (ok u) =
      device_updated logged (update_device m now id device)

  unfoldable pub put_device : Memory → Time → Time → ℤ → Option Device → Memory × Reply Device
  unfolding update_checked
  put_device m now logged id none = (m, failed 400 "INVALID_JSON" "invalid JSON body")
  put_device m now logged id (some device) =
      update_checked m now logged id device (validate_device device)

  device_disabled : Time → Memory × Result Device → Memory × Reply Device
  device_disabled logged (m, err e) = (
    m,
    if is_not_found e
        then failed 404 "DEVICE_NOT_FOUND" "device not found"
        else failed 500 "DISABLE_DEVICE_FAILED" "disable device failed",
  )
  device_disabled logged (m, ok device) =
      audited visit logged
        (record {
          action = "disable_device";
          resource_type = "device";
          resource_id = printing.show device.id;
          metadata =
              ("rustdesk_id", text device.rustdesk_id)
              ∷ ("name", text device.name)
              ∷ ("status", text device.status)
              ∷ [];
        })
        "failed to record device disable" (done 200 device) m

  unfoldable pub post_disable : Memory → Time → Time → ℤ → Memory × Reply Device
  unfolding device_disabled
  post_disable m now logged id = device_disabled logged (disable_device m id now)

  group_created : Time → Memory × Result DeviceGroup → Memory × Reply DeviceGroup
  group_created logged (m, err e) = (m, failed 400 "INVALID_DEVICE_GROUP" (printing.text_of e))
  group_created logged (m, ok group) =
      audited visit logged
        (record {
          action = "create_device_group";
          resource_type = "device_group";
          resource_id = printing.show group.id;
          metadata =
              ("name", text group.name)
              ∷ ("member_count", number (pos (length group.member_device_ids)))
              ∷ [];
        })
        "failed to record device group creation" (done 201 group) m

  group_of : CreateDeviceGroupRequest → DeviceGroup
  group_of req = record {
    id = pos 0;
    name = trim_space req.name;
    description = trim_space req.description;
    member_device_ids = req.member_device_ids;
    created_at = 0;
    updated_at = 0;
  }

  unfoldable pub post_group :
      Memory → Time → Time → Option CreateDeviceGroupRequest → Memory × Reply DeviceGroup
  unfolding group_created group_of
  post_group m now logged none = (m, failed 400 "INVALID_JSON" "invalid JSON body")
  post_group m now logged (some req) =
      if trim_space req.name == ""
      then (m, failed 400 "INVALID_DEVICE_GROUP" "name is required")
      else group_created logged (create_device_group m now (group_of req))

  -- After a change of the members; `status` is that of the answer.
  membership_changed :
      String → ℕ → Time → ℤ → Memory × Result DeviceGroup → Memory × Reply DeviceGroup
  membership_changed action status logged device_id (m, err e) = (
    m,
    if is_not_found e
        then failed 404 "DEVICE_GROUP_NOT_FOUND" "device group not found"
        else failed 400 "INVALID_DEVICE_GROUP_MEMBER" (printing.text_of e),
  )
  membership_changed action status logged device_id (m, ok group) =
      audited visit logged
        (record {
          action = action;
          resource_type = "device_group";
          resource_id = printing.show group.id;
          metadata = ("group_name", text group.name) ∷ ("device_id", number device_id) ∷ [];
        })
        "failed to record device group membership change" (done status group) m

  -- The body is the number of the device.
  unfoldable pub post_member :
      Sorting → Memory → Time → Time → ℤ → Option ℤ → Memory × Reply DeviceGroup
  unfolding membership_changed
  post_member sorting m now logged group_id none =
      (m, failed 400 "INVALID_JSON" "invalid JSON body")
  post_member sorting m now logged group_id (some device_id) =
      if not (is_pos device_id)
      then (m, failed 400 "INVALID_DEVICE_GROUP_MEMBER" "device_id must be positive")
      else membership_changed "add_device_group_member" 201 logged device_id
          (add_device_group_member sorting m now group_id device_id)

  unfoldable pub delete_member : Memory → Time → Time → ℤ → ℤ → Memory × Reply DeviceGroup
  unfolding membership_changed
  delete_member m now logged group_id device_id =
      membership_changed "remove_device_group_member" 200 logged device_id
        (remove_device_group_member m now group_id device_id)

members_listed : Result (List ℤ) → Reply (List ℤ)
members_listed (err e) =
    if is_not_found e
    then failed 404 "DEVICE_GROUP_NOT_FOUND" "device group not found"
    else failed 500 "LIST_DEVICE_GROUP_MEMBERS_FAILED" "list device group members failed"
members_listed (ok ids) = done 200 ids

unfoldable pub get_members : Memory → ℤ → Reply (List ℤ)
unfolding members_listed
get_members m group_id = members_listed (list_device_group_members m group_id)
