-- ===== src/Repository/Machines.antt =====
-- Devices and relays of api/internal/repository/memory.go.
use opendesk_remote.Prelude.{
  String, ℤ, pos, ◌||◌, Time, Option, none, some, [], ◌∷◌, ◌++◌, find_first, modify_first, inc64,
  trim_space, message, Result, ok, ◌==◌, string_eq, int_has_eq, if◌then◌else◌,
}
use opendesk_remote.Models.Fleet.{Device, Relay}
use opendesk_remote.Repository.{Memory, or_not_found, guarded}
use opendesk_remote.Repository.Lookup.{changed}

unfoldable pub create_device : Memory → Time → Device → Memory × Result Device
create_device m now device =
    let row = record device {
      id = inc64 m.next_id;
      status = if device.status == "" then "offline" else device.status;
      created_at = now;
      updated_at = now;
    } in
    guarded (device.rustdesk_id == "" || device.name == "")
      (message "rustdesk_id and name are required") m
      (record m { next_id = inc64 m.next_id; devices = m.devices ++ (row ∷ []) }, ok row)

unfoldable pub find_device : Memory → ℤ → Result Device
find_device m id = or_not_found (find_first (λ device. device.id == id) m.devices)

-- The loop over the devices that changes the one with the number `id`.
unfoldable pub change_device : Memory → ℤ → (Device → Device) → Memory × Result Device
change_device m id write =
    let at_id = λ (device : Device). device.id == id in
    (
      record m { devices = modify_first at_id write m.devices },
      changed write (find_first at_id m.devices),
    )

-- What `UpdateDevice` writes over the device `old`.
edited_device : Time → Device → Device → Device
edited_device now device old = record old {
  rustdesk_id = trim_space device.rustdesk_id;
  name = trim_space device.name;
  alias = trim_space device.alias;
  owner_user_id = device.owner_user_id;
  status = if device.status == "" then old.status else device.status;
  platform = trim_space device.platform;
  client_version = trim_space device.client_version;
  opendesk_client_version = trim_space device.opendesk_client_version;
  last_ip = trim_space device.last_ip;
  updated_at = now;
}

unfoldable pub update_device : Memory → Time → ℤ → Device → Memory × Result Device
unfolding change_device edited_device
update_device m now id device =
    guarded (trim_space device.rustdesk_id == "" || trim_space device.name == "")
      (message "rustdesk_id and name are required") m
      (change_device m id (edited_device now device))

unfoldable pub disable_device : Memory → ℤ → Time → Memory × Result Device
unfolding change_device
disable_device m id at =
    change_device m id λ device. record device { status = "disabled"; updated_at = at }

or_port : ℤ → ℤ → ℤ
or_port port default_port = if port == pos 0 then default_port else port

unfoldable pub create_relay : Memory → Time → Relay → Memory × Result Relay
unfolding or_port
create_relay m now relay =
    let row = record relay {
      id = inc64 m.next_id;
      port = or_port relay.port (pos 21_117);
      ws_port = or_port relay.ws_port (pos 21_119);
      status = if relay.status == "" then "active" else relay.status;
      created_at = now;
      updated_at = now;
    } in
    guarded (relay.name == "" || relay.region == "" || relay.host == "")
      (message "name, region, and host are required") m
      (record m { next_id = inc64 m.next_id; relays = m.relays ++ (row ∷ []) }, ok row)

-- The loop over the relays that changes the one with the number `id`.
unfoldable pub change_relay : Memory → ℤ → (Relay → Relay) → Memory × Result Relay
change_relay m id write =
    let at_id = λ (relay : Relay). relay.id == id in
    (
      record m { relays = modify_first at_id write m.relays },
      changed write (find_first at_id m.relays),
    )

-- What `UpdateRelay` writes over the relay `old`.
edited_relay : Time → Relay → Relay → Relay
unfolding or_port
edited_relay now relay old = record old {
  name = trim_space relay.name;
  region = trim_space relay.region;
  host = trim_space relay.host;
  port = or_port relay.port (pos 21_117);
  ws_port = or_port relay.ws_port (pos 21_119);
  public_key_fingerprint = trim_space relay.public_key_fingerprint;
  status = if relay.status == "" then old.status else relay.status;
  max_bandwidth_mbps = relay.max_bandwidth_mbps;
  updated_at = now;
}

unfoldable pub update_relay : Memory → Time → ℤ → Relay → Memory × Result Relay
unfolding change_relay edited_relay
update_relay m now id relay =
    guarded
      (trim_space relay.name == "" || trim_space relay.region == "" || trim_space relay.host == "")
      (message "name, region, and host are required") m (change_relay m id (edited_relay now relay))

or_given : Option ℤ → ℤ → ℤ
or_given none old = old
or_given (some new) old = new

unfoldable pub relay_heartbeat : Memory → Time → ℤ → Option ℤ → String → Memory × Result Relay
unfolding change_relay or_given
relay_heartbeat m now id current_sessions status = change_relay m id λ relay. record relay {
  current_sessions = or_given current_sessions relay.current_sessions;
  status = if status == "" then relay.status else status;
  last_health_at = some now;
  updated_at = now;
}

unfoldable pub disable_relay : Memory → ℤ → Time → Memory × Result Relay
unfolding change_relay
disable_relay m id at =
    change_relay m id λ relay. record relay { status = "disabled"; updated_at = at }
