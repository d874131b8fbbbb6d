-- ===== src/DeviceHandlers/Effective/Decided.antt =====
-- The settings that a device is answered with, in terms of the stored strategies.
use opendesk_remote.Prelude.{
  String, ℤ, ◌≡◌, refl, sym, ◌∙◌, Bool, false, ◌&&◌, ◌||◌, Option, none, some, List, [], ◌∷◌, ◌++◌,
  any, contains, trim_space, Result, ok, err, arith, ◌==◌, string_eq, int_has_eq,
}
use mathlib.Core.Path.{subst}
use opendesk_remote.Prelude.Dict.{Dict, lookup, HasDistinctKeys}
use opendesk_remote.Models.Policies
use opendesk_remote.Models.Fleet.{Device, DeviceGroup}
use opendesk_remote.Repository.{Memory}
use opendesk_remote.Repository.Machines.{find_device}
use opendesk_remote.Repository.Groups.{list_device_group_members}
use opendesk_remote.Strategy
use opendesk_remote.Strategy.{Resolver, resolve}
use opendesk_remote.Strategy.Precedence.{AreMaps, decided_value, lookup-resolve}
use opendesk_remote.Http.{done}
use opendesk_remote.PolicyHandlers.{Printing}
use opendesk_remote.DeviceHandlers.Effective.{
  EffectiveStrategyResponse, Setting, Decoding, setting_texts, object_texts, strategy_settings,
  group_if_member, group_ids, device_group_ids, default_secure, add_strategy, add_strategies,
  build_strategy_resolver, effective_strategy,
}

lists : ℤ → Result (List ℤ) → Bool
lists id (err e) = false
lists id (ok members) = contains members id

-- The group with this number has the device as a member.
unfoldable pub is_member : Memory → ℤ → ℤ → Bool
unfolding lists
is_member m group_id device_id = lists device_id (list_device_group_members m group_id)

contains-append :
    (xs ys : List ℤ) (x : ℤ) → contains (xs ++ ys) x ≡ (contains xs x || contains ys x)
unfolding contains
contains-append [] ys x = ground arith
contains-append (y ∷ xs) ys x = ground (arith, contains-append xs ys x)

contains-group_if_member :
    (device_id group_id wanted : ℤ) (r : Result (List ℤ))
    → contains (group_if_member device_id group_id r) wanted
      ≡ ((group_id == wanted) && lists device_id r)
unfolding contains group_if_member lists
contains-group_if_member device_id group_id wanted (err e) = ground arith
contains-group_if_member device_id group_id wanted (ok members) = ground arith

contains-group_ids :
    (m : Memory) (device_id wanted : ℤ) (groups : List DeviceGroup)
    → contains (group_ids m device_id groups) wanted
      ≡ any (λ (group : DeviceGroup). (group.id == wanted) && is_member m group.id device_id) groups
unfolding group_ids contains any is_member
contains-group_ids m device_id wanted [] = refl
contains-group_ids m device_id wanted (group ∷ groups) =
    contains-append (group_if_member device_id group.id (list_device_group_members m group.id))
      (group_ids m device_id groups) wanted
    ∙ ground (
      arith,
      contains-group_if_member device_id group.id wanted (list_device_group_members m group.id),
      contains-group_ids m device_id wanted groups,
    )

default_distinct : HasDistinctKeys default_secure.settings
unfolding lookup
default_distinct = (refl, (refl, (refl, tt)))

lookup-setting_texts :
    (decoding : Decoding) (object : Dict (Setting decoding.Number decoding.Other)) (key : String)
    → lookup key object ≡ none
    → lookup key (setting_texts decoding object) ≡ none
unfolding lookup setting_texts
lookup-setting_texts decoding [] key h = refl
lookup-setting_texts decoding ((own, value) ∷ object) key h =
    ground (arith, lookup-setting_texts decoding object key)

texts-HasDistinctKeys :
    (decoding : Decoding) (object : Dict (Setting decoding.Number decoding.Other))
    → HasDistinctKeys object
    → HasDistinctKeys (setting_texts decoding object)
unfolding setting_texts
texts-HasDistinctKeys decoding [] h = tt
texts-HasDistinctKeys decoding ((key, value) ∷ object) h =
    (lookup-setting_texts decoding object key h.0, texts-HasDistinctKeys decoding object h.1)

-- What decodes is a Go map.
abbrev pub DecodesMaps : Decoding → Type 0
DecodesMaps decoding =
    (raw : String) (object : Dict (Setting decoding.Number decoding.Other))
    → decoding.unmarshal raw ≡ some object
    → HasDistinctKeys object

decoded-HasDistinctKeys :
    (decoding : Decoding) (o : Option (Dict (Setting decoding.Number decoding.Other)))
    (settings : Dict String)
    → ((object : Dict (Setting decoding.Number decoding.Other))
        → o ≡ some object
        → HasDistinctKeys object)
    → object_texts decoding o ≡ some settings
    → HasDistinctKeys settings
unfolding object_texts
decoded-HasDistinctKeys decoding none settings maps h = absurd (ground (arith, h))
decoded-HasDistinctKeys decoding (some object) settings maps h =
    let same : setting_texts decoding object ≡ settings = ground (arith, h) in
    subst HasDistinctKeys same (texts-HasDistinctKeys decoding object (maps object refl))

module _ (printing : Printing) (decoding : Decoding) (decodes : DecodesMaps decoding) where
  snoc-AreMaps :
      (xs : List Strategy.Strategy) (x : Strategy.Strategy)
      → AreMaps xs
      → HasDistinctKeys x.settings
      → AreMaps (xs ++ (x ∷ []))
  snoc-AreMaps [] x h k = (k, tt)
  snoc-AreMaps (y ∷ xs) x h k = (h.0, snoc-AreMaps xs x h.1 k)

  IsSecure : Result Resolver → Type 0
  IsSecure (err e) = Unit
  IsSecure (ok r) = AreMaps r.strategies × (r.default ≡ default_secure)

  added-IsSecure :
      (r : Resolver) (item : Policies.Strategy) (o : Option (Dict String))
      → strategy_settings decoding item.settings_json ≡ o
      → IsSecure (ok r)
      → IsSecure (add_strategy printing decoding r item o)
  unfolding add_strategy IsSecure strategy_settings
  added-IsSecure r item none same h = tt
  added-IsSecure r item (some settings) same h = (
    snoc-AreMaps r.strategies _ h.0 (
        decoded-HasDistinctKeys decoding (decoding.unmarshal item.settings_json) settings
          (decodes item.settings_json) same),
    h.1,
  )

  all-IsSecure :
      (r : Result Resolver) (items : List Policies.Strategy)
      → IsSecure r
      → IsSecure (add_strategies printing decoding r items)
  unfolding add_strategies IsSecure
  all-IsSecure (err e) items h = tt
  all-IsSecure (ok r) [] h = h
  all-IsSecure (ok r) (item ∷ items) h =
      all-IsSecure
        (add_strategy printing decoding r item (strategy_settings decoding item.settings_json))
        items (added-IsSecure r item (strategy_settings decoding item.settings_json) refl h)

  pub effective_strategy-resolved :
      (parse_int : String → Option ℤ) (m : Memory) (id : ℤ) (device : Device) (r : Resolver)
      → find_device m id ≡ ok device
      → build_strategy_resolver printing decoding m.strategies ≡ ok r
      → (a : EffectiveStrategyResponse) × (effective_strategy printing decoding parse_int m id ""
          ≡ done 200 a)
        × (a.user_id ≡ device.owner_user_id)
        × ((wanted : ℤ)
            → contains a.device_group_ids wanted
              ≡ any
                  (λ (group : DeviceGroup). (group.id == wanted) && is_member m group.id id)
                  m.device_groups)
        × ((key : String)
            → lookup key a.settings
              ≡ decided_value r
                  (record {
                    device_id = id;
                    user_id = device.owner_user_id;
                    device_group_ids = a.device_group_ids;
                  })
                  key)
        × (r.default ≡ default_secure)
  unfolding effective_strategy build_strategy_resolver device_group_ids IsSecure trim_space
  effective_strategy-resolved parse_int m id device r found built =
      let secure : IsSecure (ok r) = subst IsSecure built (
        all-IsSecure (ok (record { strategies = []; assignments = []; default = default_secure }))
          m.strategies (tt, refl)) in
      let maps : AreMaps (r.default ∷ r.strategies) =
        (subst (λ s. HasDistinctKeys s.settings) (sym secure.1) default_distinct, secure.0) in
      let groups = device_group_ids m id in
      let result =
        resolve r
          (record { device_id = id; user_id = device.owner_user_id; device_group_ids = groups }) in
      (
        record {
          device_id = id;
          user_id = device.owner_user_id;
          device_group_ids = groups;
          settings = result.settings;
          applied_strategy_ids = result.applied_strategy;
        },
        rw found (rw built refl),
        refl,
        (λ wanted. contains-group_ids m id wanted m.device_groups),
        (λ key. lookup-resolve r _ key maps),
        secure.1,
      )
