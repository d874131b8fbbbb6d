-- ===== src/DeviceHandlers/Effective.antt =====
-- `effectiveStrategy` of api/internal/devices/handler.go: the settings of a device from the stored
-- strategies. strconv.ParseInt, the decoding of JSON and the printing of its numbers and of nested values
-- are parameters.
pub mod Decided
pub mod Stored
use Prim.Native.String.{◌++◌ as append}
use opendesk_remote.Prelude.{
  String, ℤ, pos, Bool, true, false, not, Option, none, some, List, [], ◌∷◌, ◌++◌, map, contains,
  is_pos, trim_space, Error, message, Result, ok, err, ◌==◌, string_eq, int_has_eq, if◌then◌else◌,
}
use opendesk_remote.Prelude.Dict.{Dict}
use opendesk_remote.Models.Policies
use opendesk_remote.Models.Policies.{StrategyAssignment}
use opendesk_remote.Models.Fleet.{Device, DeviceGroup}
use opendesk_remote.Repository.{Memory}
use opendesk_remote.Repository.Machines.{find_device}
use opendesk_remote.Repository.Groups.{list_device_group_members}
use opendesk_remote.Strategy
use opendesk_remote.Strategy.{Resolver, Outcome, resolve}
use opendesk_remote.Http.{Reply, done, failed}
use opendesk_remote.PolicyHandlers.{Printing}
use opendesk_remote.DeviceHandlers.{device_load_failed}

pub record EffectiveStrategyResponse : Type 0 where
  pub device_id : ℤ
  pub user_id : Option ℤ
  pub device_group_ids : List ℤ
  pub settings : Dict String
  pub applied_strategy_ids : List ℤ

-- A value under a key of a decoded object.
pub data Setting (Number Other : Type 0) : Type 0 where
  text : String → Setting Number Other
  truth : Bool → Setting Number Other
  float : Number → Setting Number Other
  nested : Other → Setting Number Other

pub record Decoding : Type 1 where
  pub Number : Type 0
  pub Other : Type 0
  pub unmarshal : String → Option (Dict (Setting Number Other))
  pub format_float : Number → String
  pub marshal : Other → String

setting_text : (decoding : Decoding) → Setting decoding.Number decoding.Other → String
setting_text decoding (text value) = value
setting_text decoding (truth true) = "true"
setting_text decoding (truth false) = "false"
setting_text decoding (float value) = decoding.format_float value
setting_text decoding (nested value) = decoding.marshal value

-- A decoded object holds each key once, so that writing its entries in any order maps them.
setting_texts : (decoding : Decoding) → Dict (Setting decoding.Number decoding.Other) → Dict String
unfolding setting_text
setting_texts decoding [] = []
setting_texts decoding ((key, value) ∷ object) =
    (key, setting_text decoding value) ∷ setting_texts decoding object

object_texts :
    (decoding : Decoding)
    → Option (Dict (Setting decoding.Number decoding.Other))
    → Option (Dict String)
unfolding setting_texts
object_texts decoding none = none
object_texts decoding (some object) = some (setting_texts decoding object)

unfoldable pub strategy_settings : Decoding → String → Option (Dict String)
unfolding object_texts
strategy_settings decoding raw = object_texts decoding (decoding.unmarshal raw)

-- The body of the loop, on the members of one group.
group_if_member : ℤ → ℤ → Result (List ℤ) → List ℤ
group_if_member device_id group_id (err e) = []
group_if_member device_id group_id (ok members) =
    if contains members device_id then group_id ∷ [] else []

group_ids : Memory → ℤ → List DeviceGroup → List ℤ
unfolding group_if_member
group_ids m device_id [] = []
group_ids m device_id (group ∷ groups) =
    group_if_member device_id group.id (list_device_group_members m group.id)
    ++ group_ids m device_id groups

unfoldable pub device_group_ids : Memory → ℤ → List ℤ
unfolding group_ids
device_group_ids m device_id = group_ids m device_id m.device_groups

-- The strategy under all others.
abbrev pub default_secure : Strategy.Strategy
default_secure = record {
  id = pos 0;
  name = "default-secure";
  enabled = true;
  settings =
      ("terminal", "N") ∷ ("tcp_tunnel", "N") ∷ ("allow-remote-config-modification", "N") ∷ [];
}

module _ (printing : Printing) (decoding : Decoding) where
  add_strategy : Resolver → Policies.Strategy → Option (Dict String) → Result Resolver
  add_strategy resolver item none = err (
      message (
        append "strategy " (append (printing.show item.id) " settings_json must be a JSON object")))
  add_strategy resolver item (some settings) = ok (record resolver {
    strategies =
        resolver.strategies
        ++ (record { id = item.id; name = item.name; enabled = item.enabled; settings = settings }
            ∷ []);
    assignments =
        resolver.assignments
        ++ map
            (λ (assignment : StrategyAssignment). record {
              strategy_id = item.id;
              target_type = assignment.target_type;
              target_id = assignment.target_id;
            })
            item.assignments;
  })

  add_strategies : Result Resolver → List Policies.Strategy → Result Resolver
  unfolding add_strategy strategy_settings
  add_strategies (err e) items = err e
  add_strategies (ok resolver) [] = ok resolver
  add_strategies (ok resolver) (item ∷ items) =
      add_strategies (add_strategy resolver item (strategy_settings decoding item.settings_json))
        items

  unfoldable pub build_strategy_resolver : List Policies.Strategy → Result Resolver
  unfolding add_strategies
  build_strategy_resolver items =
      add_strategies (ok (record { strategies = []; assignments = []; default = default_secure }))
        items

  answered : ℤ → Option ℤ → List ℤ → Result Resolver → Reply EffectiveStrategyResponse
  answered id user_id groups (err e) = failed 500 "INVALID_STORED_STRATEGY" (printing.text_of e)
  answered id user_id groups (ok resolver) =
      let result =
        resolve resolver
          (record { device_id = id; user_id = user_id; device_group_ids = groups }) in
      done 200 (record {
        device_id = id;
        user_id = user_id;
        device_group_ids = groups;
        settings = result.settings;
        applied_strategy_ids = result.applied_strategy;
      })

  for_user : Memory → ℤ → Option ℤ → Reply EffectiveStrategyResponse
  unfolding answered
  for_user m id user_id =
      answered id user_id (device_group_ids m id) (build_strategy_resolver m.strategies)

  with_query : Memory → ℤ → Option ℤ → Reply EffectiveStrategyResponse
  unfolding for_user
  with_query m id none = failed 400 "INVALID_USER_ID" "user_id must be positive"
  with_query m id (some user_id) =
      if not (is_pos user_id)
      then failed 400 "INVALID_USER_ID" "user_id must be positive"
      else for_user m id (some user_id)

  module _ (parse_int : String → Option ℤ) where
    for_device : Memory → ℤ → String → Result Device → Reply EffectiveStrategyResponse
    unfolding for_user with_query
    for_device m id raw_user_id (err e) = device_load_failed e
    for_device m id raw_user_id (ok device) =
        if not (trim_space raw_user_id == "")
        then with_query m id (parse_int (trim_space raw_user_id))
        else for_user m id device.owner_user_id

    -- `raw_user_id` is the query's `user_id`.
    unfoldable pub effective_strategy : Memory → ℤ → String → Reply EffectiveStrategyResponse
    unfolding for_device
    effective_strategy m id raw_user_id = for_device m id raw_user_id (find_device m id)
