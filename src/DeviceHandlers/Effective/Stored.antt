-- ===== src/DeviceHandlers/Effective/Stored.antt =====
-- The settings that a device is answered with, from the stored strategies alone.
use mathlib.Core.List.{append_assoc, append-nil}
use opendesk_remote.Prelude.{
  String, ℤ, pos, ◌≡◌, refl, sym, ap, ◌∙◌, true, false, ◌&&◌, Option, none, some, is_some, List, [],
  ◌∷◌, ◌++◌, map, All, any, contains, ok, arith, ◌==◌, string_eq, int_has_eq,
}
use opendesk_remote.Prelude.Dict.{Dict, lookup}
use opendesk_remote.Models.Policies
use opendesk_remote.Models.Policies.{StrategyAssignment}
use opendesk_remote.Models.Fleet.{Device, DeviceGroup}
use opendesk_remote.Repository.{Memory}
use opendesk_remote.Repository.Machines.{find_device}
use opendesk_remote.Strategy
use opendesk_remote.Strategy.{Resolver}
use opendesk_remote.Strategy.Precedence.{decided_value}
use opendesk_remote.Http.{done}
use opendesk_remote.PolicyHandlers.{Printing}
use opendesk_remote.DeviceHandlers.Effective.{
  EffectiveStrategyResponse, Setting, Decoding, setting_text, setting_texts, object_texts,
  strategy_settings, add_strategy, add_strategies, build_strategy_resolver, effective_strategy,
}
use opendesk_remote.DeviceHandlers.Effective.Decided.{
  is_member, DecodesMaps, effective_strategy-resolved,
}

-- A decoded value as a setting.
abbrev pub shown : (decoding : Decoding) → Setting decoding.Number decoding.Other → String
shown decoding (Setting.text value) = value
shown decoding (Setting.truth true) = "true"
shown decoding (Setting.truth false) = "false"
shown decoding (Setting.float value) = decoding.format_float value
shown decoding (Setting.nested value) = decoding.marshal value

abbrev pub all_shown :
    (decoding : Decoding) → Dict (Setting decoding.Number decoding.Other) → Dict String
all_shown decoding [] = []
all_shown decoding ((key, value) ∷ object) = (key, shown decoding value) ∷ all_shown decoding object

abbrev pub settings_shown :
    (decoding : Decoding) → Option (Dict (Setting decoding.Number decoding.Other)) → Dict String
settings_shown decoding none = []
settings_shown decoding (some object) = all_shown decoding object

-- The stored strategies with what their settings decode to, and their assignments in the same order.
abbrev pub stored_strategies : Decoding → List Policies.Strategy → List Strategy.Strategy
stored_strategies decoding [] = []
stored_strategies decoding (item ∷ items) =
    record {
      id = item.id;
      name = item.name;
      enabled = item.enabled;
      settings = settings_shown decoding (decoding.unmarshal item.settings_json);
    }
    ∷ stored_strategies decoding items

abbrev own_assignments : Policies.Strategy → List Strategy.Assignment
own_assignments item =
    map
      (λ (assignment : StrategyAssignment). record {
        strategy_id = item.id;
        target_type = assignment.target_type;
        target_id = assignment.target_id;
      })
      item.assignments

abbrev pub stored_assignments : List Policies.Strategy → List Strategy.Assignment
stored_assignments [] = []
stored_assignments (item ∷ items) = own_assignments item ++ stored_assignments items

-- The stored strategies over the secure default, which switches three settings off.
abbrev pub stored_resolver : Decoding → List Policies.Strategy → Resolver
stored_resolver decoding items = record {
  strategies = stored_strategies decoding items;
  assignments = stored_assignments items;
  default = record {
    id = pos 0;
    name = "default-secure";
    enabled = true;
    settings =
        ("terminal", "N") ∷ ("tcp_tunnel", "N") ∷ ("allow-remote-config-modification", "N") ∷ [];
  };
}

-- The stored settings decode.
abbrev pub AllDecode : Decoding → List Policies.Strategy → Type 0
AllDecode decoding items =
    All (λ (item : Policies.Strategy). is_some (decoding.unmarshal item.settings_json) ≡ true) items

setting_text-shown :
    (decoding : Decoding) (value : Setting decoding.Number decoding.Other)
    → setting_text decoding value ≡ shown decoding value
unfolding setting_text
setting_text-shown decoding (Setting.text value) = refl
setting_text-shown decoding (Setting.truth true) = refl
setting_text-shown decoding (Setting.truth false) = refl
setting_text-shown decoding (Setting.float value) = refl
setting_text-shown decoding (Setting.nested value) = refl

setting_texts-all_shown :
    (decoding : Decoding) (object : Dict (Setting decoding.Number decoding.Other))
    → setting_texts decoding object ≡ all_shown decoding object
unfolding setting_texts
setting_texts-all_shown decoding [] = refl
setting_texts-all_shown decoding ((key, value) ∷ object) =
    ap (λ shown_value. (key, shown_value) ∷ setting_texts decoding object)
      (setting_text-shown decoding value)
    ∙ ap (λ rest. (key, shown decoding value) ∷ rest) (setting_texts-all_shown decoding object)

object_texts-shown :
    (decoding : Decoding) (o : Option (Dict (Setting decoding.Number decoding.Other)))
    → is_some o ≡ true
    → object_texts decoding o ≡ some (settings_shown decoding o)
unfolding object_texts
object_texts-shown decoding none h = absurd (ground arith)
object_texts-shown decoding (some object) h = ap some (setting_texts-all_shown decoding object)

module _ (printing : Printing) (decoding : Decoding) where
  add_strategies-stored :
      (items : List Policies.Strategy) (r : Resolver)
      → AllDecode decoding items
      → add_strategies printing decoding (ok r) items
        ≡ ok (record r {
          strategies = r.strategies ++ stored_strategies decoding items;
          assignments = r.assignments ++ stored_assignments items;
        })
  unfolding add_strategies add_strategy strategy_settings
  add_strategies-stored [] r h = sym (
      ap
        (λ (xs : List Strategy.Strategy).
          ok (record r { strategies = xs; assignments = r.assignments ++ [] }))
        (append-nil r.strategies)
      ∙ ap (λ (xs : List Strategy.Assignment). ok (record r { assignments = xs }))
          (append-nil r.assignments))
  add_strategies-stored (item ∷ items) r h =
      ap (λ o. add_strategies printing decoding (add_strategy printing decoding r item o) items)
        (object_texts-shown decoding (decoding.unmarshal item.settings_json) h.0)
      ∙ (add_strategies-stored items _ h.1
          ∙ (ap
                (λ (xs : List Strategy.Strategy). ok (record r {
                  strategies = xs;
                  assignments = (r.assignments ++ own_assignments item) ++ stored_assignments items;
                }))
                (append_assoc r.strategies _ (stored_strategies decoding items))
              ∙ ap
                  (λ (xs : List Strategy.Assignment). ok (record r {
                    strategies = r.strategies ++ stored_strategies decoding (item ∷ items);
                    assignments = xs;
                  }))
                  (append_assoc r.assignments (own_assignments item) (stored_assignments items))))

-- For a stored device, no user in the query, and stored strategies whose settings decode to objects
-- that hold each key once: the device is answered with the settings for its owner; its groups are those
-- of which it is a member; and each setting has the value of the stored strategy that comes last among
-- the enabled ones assigned to the device, before those to its owner, before those to these groups, and
-- before the secure default, which switches the terminal, the tunnel and the remote change of the
-- configuration off. A strategy's values are texts as they were stored, `true` or `false`, and numbers
-- and nested values as they are printed.
pub effective_strategy-stored :
    (printing : Printing) (decoding : Decoding) (decodes : DecodesMaps decoding)
    (parse_int : String → Option ℤ) (m : Memory) (id : ℤ) (device : Device)
    → find_device m id ≡ ok device
    → AllDecode decoding m.strategies
    → (a : EffectiveStrategyResponse) × (effective_strategy printing decoding parse_int m id ""
        ≡ done 200 a)
      × (a.user_id ≡ device.owner_user_id)
      × ((wanted : ℤ)
          → contains a.device_group_ids wanted
            ≡ any
                (λ (group : DeviceGroup). (group.id == wanted) && is_member m group.id id)
                m.device_groups)
      × ((key : String)
          → lookup key a.settings
            ≡ decided_value
                (stored_resolver decoding m.strategies)
                (record {
                  device_id = id;
                  user_id = device.owner_user_id;
                  device_group_ids = a.device_group_ids;
                })
                key)
unfolding build_strategy_resolver
effective_strategy-stored printing decoding decodes parse_int m id device found decode =
    let (a, answer, user, groups, settings, default) =
      effective_strategy-resolved printing decoding decodes parse_int m id device
        (stored_resolver decoding m.strategies) found
        (add_strategies-stored printing decoding m.strategies _ decode) in
    (a, answer, user, groups, settings)
