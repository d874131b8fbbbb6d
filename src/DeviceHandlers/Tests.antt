-- ===== src/DeviceHandlers/Tests.antt =====
-- A device, its group and one strategy for the group.
use opendesk_remote.Prelude.{
  ℤ, ◌≡◌, refl, String, arith, pos, some, none, true, [], ◌∷◌, contains, any, ◌&&◌, ◌==◌,
  int_has_eq, string_eq, find_first,
}
use mathlib.Core.Path.{subst}
use opendesk_remote.Prelude.Dict.{Dict, lookup, HasDistinctKeys}
use opendesk_remote.Models.Fleet.{Device, DeviceGroup}
use opendesk_remote.Repository.{Memory}
use opendesk_remote.Repository.Samples.{memory}
use opendesk_remote.Repository.Machines.{find_device}
use opendesk_remote.Strategy.Precedence.{decided_value}
use opendesk_remote.Http.{done}
use opendesk_remote.PolicyHandlers.{Printing}
use opendesk_remote.DeviceHandlers.Effective.{
  Setting, Decoding, EffectiveStrategyResponse, effective_strategy,
}
use opendesk_remote.DeviceHandlers.Effective.Decided.{DecodesMaps, is_member}
use opendesk_remote.DeviceHandlers.Effective.Stored.{stored_resolver, effective_strategy-stored}

abbrev printing : Printing
printing = record { show = λ n. "1"; text_of = λ e. "refused" }

abbrev device : Device
device = record {
  id = pos 5;
  rustdesk_id = "123";
  name = "desk";
  alias = "";
  owner_user_id = some (pos 1);
  status = "online";
  platform = "windows";
  client_version = "";
  opendesk_client_version = "";
  last_ip = "";
  last_seen_at = none;
  registered_at = none;
  created_at = 0;
  updated_at = 0;
}

abbrev fleet : Memory
fleet = record memory {
  devices = device ∷ [];
  device_groups =
      record {
        id = pos 6;
        name = "office";
        description = "";
        member_device_ids = pos 5 ∷ [];
        created_at = 0;
        updated_at = 0;
      }
      ∷ [];
  strategies =
      record {
        id = pos 8;
        name = "shell";
        description = "";
        enabled = true;
        settings_json = "terminal";
        assignments =
            record {
              id = pos 9;
              strategy_id = pos 8;
              target_type = "device_group";
              target_id = pos 6;
              created_at = 0;
            }
            ∷ [];
        created_at = 0;
        updated_at = 0;
      }
      ∷ [];
}

-- Stored settings are the name of one that is switched on.
abbrev decoding : Decoding
decoding = record {
  Number = ℤ;
  Other = String;
  unmarshal = λ raw. some ((raw, Setting.text "Y") ∷ []);
  format_float = λ n. "0";
  marshal = λ other. other;
}

decodes : DecodesMaps decoding
unfolding lookup
decodes raw object h = subst HasDistinctKeys (some_injective h) (refl, tt)
  where
    some_injective : {a b : Dict (Setting ℤ String)} → some a ≡ some b → a ≡ b
    some_injective h = ground (arith, h)

effective_strategy-stored_example :
    (a : EffectiveStrategyResponse) × (effective_strategy printing decoding
        (λ s. none)
        fleet
        (pos 5)
        ""
      ≡ done 200 a)
    × (a.user_id ≡ some (pos 1))
    × ((wanted : ℤ)
        → contains a.device_group_ids wanted
          ≡ any
              (λ (group : DeviceGroup). (group.id == wanted) && is_member fleet group.id (pos 5))
              fleet.device_groups)
    × ((key : String)
        → lookup key a.settings
          ≡ decided_value
              (stored_resolver decoding fleet.strategies)
              (record {
                device_id = pos 5;
                user_id = some (pos 1);
                device_group_ids = a.device_group_ids;
              })
              key)
unfolding find_device find_first
effective_strategy-stored_example =
    effective_strategy-stored printing decoding decodes (λ s. none) fleet (pos 5) device refl
      (refl, tt)
