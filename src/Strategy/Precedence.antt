-- ===== src/Strategy/Precedence.antt =====
-- Which strategies apply, in which order, and which of them decides a setting.
use mathlib.Core.List.{append_assoc, append-nil}
use opendesk_remote.Prelude.{
  ◌≡◌, refl, sym, ◌∙◌, inl, inr, String, Bool, true, ◌&&◌, find_first, Option, none, some, List, [],
  ◌∷◌, ◌++◌, map, All, arith, eq_iff, Bool-cases, ◌==◌, string_eq, int_has_eq, if◌then◌else◌,
}
use opendesk_remote.Prelude.Dict.{Dict, lookup, insert, lookup-insert, HasDistinctKeys, or_else}
use opendesk_remote.Strategy.{
  Strategy, Assignment, Context, Outcome, Resolver, TargetType, assignment_matches, merge, find,
  add_strategy, apply, apply_assignments, resolve,
}

abbrev if_enabled : Option Strategy → List Strategy
if_enabled none = []
if_enabled (some strategy) = if strategy.enabled then strategy ∷ [] else []

-- The enabled strategies that the assignments of one kind give to the context, in their order.
unfoldable pub assigned : Resolver → Context → TargetType → List Assignment → List Strategy
assigned r ctx target [] = []
assigned r ctx target (assignment ∷ rest) =
    (if assignment.target_type == target && assignment_matches assignment ctx
      then if_enabled (find r.strategies assignment.strategy_id)
      else [])
    ++ assigned r ctx target rest

-- The value that the last strategy of the list with a value for the key gives it.
unfoldable pub last_value : List Strategy → String → Option String
last_value [] key = none
last_value (strategy ∷ rest) key = or_else (last_value rest key) (lookup key strategy.settings)

abbrev pub AreMaps : List Strategy → Type 0
AreMaps = All (λ strategy. HasDistinctKeys strategy.settings)

-- `out` with the strategies of a list merged one after the other.
apply_all : Outcome → List Strategy → Outcome
apply_all out [] = out
apply_all out (strategy ∷ rest) = apply_all (add_strategy out strategy) rest

apply_all-append :
    (out : Outcome) (xs ys : List Strategy)
    → apply_all out (xs ++ ys) ≡ apply_all (apply_all out xs) ys
unfolding apply_all
apply_all-append out [] ys = refl
apply_all-append out (x ∷ xs) ys = apply_all-append (add_strategy out x) xs ys

apply-if_enabled :
    (out : Outcome) (found : Option Strategy) → apply out found ≡ apply_all out (if_enabled found)
unfolding apply apply_all
apply-if_enabled out none = refl
apply-if_enabled out (some strategy) = ground arith

apply_assignments-assigned :
    (r : Resolver) (ctx : Context) (target : TargetType) (out : Outcome) (xs : List Assignment)
    → apply_assignments r ctx target out xs ≡ apply_all out (assigned r ctx target xs)
unfolding apply_assignments assigned
apply_assignments-assigned r ctx target out [] = unfold apply_all in refl
apply_assignments-assigned r ctx target out (x ∷ xs) =
    elim (Bool-cases (x.target_type == target && assignment_matches x ctx)) [
      | inl hit ↦ rw hit (
          rw (apply-if_enabled out (find r.strategies x.strategy_id)) (
            apply_assignments-assigned r ctx target
              (apply_all out (if_enabled (find r.strategies x.strategy_id))) xs
            ∙ sym (
                apply_all-append out (if_enabled (find r.strategies x.strategy_id))
                  (assigned r ctx target xs))))
      | inr miss ↦ rw miss (apply_assignments-assigned r ctx target out xs)
    ]

-- The strategies in the order in which they are merged: the default, then those of the device
-- groups, of the user and of the device.
unfoldable pub layers : Resolver → Context → List Strategy
layers r ctx =
    if_enabled (some r.default)
    ++ (assigned r ctx "device_group" r.assignments
        ++ (assigned r ctx "user" r.assignments ++ assigned r ctx "device" r.assignments))

abbrev start : Outcome
start = record { settings = []; applied_strategy = [] }

resolve-apply_all : (r : Resolver) (ctx : Context) → resolve r ctx ≡ apply_all start (layers r ctx)
unfolding resolve layers
resolve-apply_all r ctx =
    let groups = assigned r ctx "device_group" r.assignments in
    let users = assigned r ctx "user" r.assignments in
    let devices = assigned r ctx "device" r.assignments in
    cc (
      apply-if_enabled start (some r.default),
      apply_assignments-assigned r ctx "device_group" (apply start (some r.default)) r.assignments,
      apply_assignments-assigned r ctx "user" (apply_all (apply start (some r.default)) groups)
          r.assignments,
      apply_assignments-assigned r ctx "device"
          (apply_all (apply_all (apply start (some r.default)) groups) users) r.assignments,
      apply_all-append start (if_enabled (some r.default)) (groups ++ (users ++ devices)),
      apply_all-append (apply_all start (if_enabled (some r.default))) groups (users ++ devices),
      apply_all-append (apply_all (apply_all start (if_enabled (some r.default))) groups) users
          devices,
    )

applied-apply_all :
    (out : Outcome) (xs : List Strategy)
    → (apply_all out xs).applied_strategy ≡ out.applied_strategy ++ map (λ s. s.id) xs
unfolding apply_all
applied-apply_all out [] = sym (append-nil out.applied_strategy)
applied-apply_all out (x ∷ xs) =
    applied-apply_all (add_strategy out x) xs
    ∙ append_assoc out.applied_strategy (x.id ∷ []) (map (λ s. s.id) xs)

lookup-merge :
    (dst src : Dict String) (key : String)
    → HasDistinctKeys src
    → lookup key (merge dst src) ≡ or_else (lookup key src) (lookup key dst)
unfolding merge lookup
lookup-merge dst [] key h = refl
lookup-merge dst ((j, value) ∷ src) key h = ground (
  arith,
  lookup-merge (insert j value dst) src key h.1,
  lookup-insert j key value dst,
  eq_iff j key,
  h.0,
)

settings-apply_all :
    (out : Outcome) (xs : List Strategy) (key : String)
    → AreMaps xs
    → lookup key (apply_all out xs).settings ≡ or_else (last_value xs key) (lookup key out.settings)
unfolding apply_all last_value
settings-apply_all out [] key h = refl
settings-apply_all out (x ∷ xs) key h = ground (
  arith,
  settings-apply_all (add_strategy out x) xs key h.1,
  lookup-merge out.settings x.settings key h.0,
)

last_value-append :
    (xs ys : List Strategy) (key : String)
    → last_value (xs ++ ys) key ≡ or_else (last_value ys key) (last_value xs key)
unfolding last_value
last_value-append [] ys key = ground arith
last_value-append (x ∷ xs) ys key = ground (arith, last_value-append xs ys key)

-- The applied strategies are reported in the order in which they were merged: the default, then
-- those assigned to the device groups, to the user and to the device.
pub applied-resolve :
    (r : Resolver) (ctx : Context)
    → (resolve r ctx).applied_strategy ≡ map (λ s. s.id) (layers r ctx)
applied-resolve r ctx = rw (resolve-apply_all r ctx) (applied-apply_all start (layers r ctx))

-- The default strategy, if it is enabled, gives a setting no other strategy gives.
abbrev pub decided_value : Resolver → Context → String → Option String
decided_value r ctx key = or_else (last_value (assigned r ctx "device" r.assignments) key) (
    or_else (last_value (assigned r ctx "user" r.assignments) key) (
      or_else (last_value (assigned r ctx "device_group" r.assignments) key)
        (last_value (if_enabled (some r.default)) key)))

-- Each strategy of a list holds each of its keys once; so for what a search finds there.
find_first-AreMaps :
    (p : Strategy → Bool) (xs : List Strategy) → AreMaps xs → AreMaps (if_enabled (find_first p xs))
unfolding find_first
find_first-AreMaps p [] h = tt
find_first-AreMaps p (x ∷ xs) h = elim (Bool-cases (p x)) [
  | inl hit ↦ rw hit (if_enabled-AreMaps x h.0)
  | inr miss ↦ rw miss (find_first-AreMaps p xs h.1)
]
  where
    if_enabled-AreMaps : (s : Strategy) → HasDistinctKeys s.settings → AreMaps (if_enabled (some s))
    if_enabled-AreMaps s k = elim (Bool-cases s.enabled) [
      | inl on ↦ rw on (k, tt)
      | inr off ↦ rw off tt
    ]

append-AreMaps : (xs ys : List Strategy) → AreMaps xs → AreMaps ys → AreMaps (xs ++ ys)
append-AreMaps [] ys h k = k
append-AreMaps (x ∷ xs) ys h k = (h.0, append-AreMaps xs ys h.1 k)

assigned-AreMaps :
    (r : Resolver) (ctx : Context) (target : TargetType) (xs : List Assignment)
    → AreMaps r.strategies
    → AreMaps (assigned r ctx target xs)
unfolding assigned find
assigned-AreMaps r ctx target [] h = tt
assigned-AreMaps r ctx target (x ∷ xs) h =
    let rest = assigned-AreMaps r ctx target xs h in
    elim (Bool-cases (x.target_type == target && assignment_matches x ctx)) [
      | inl hit ↦ rw hit (
          append-AreMaps (if_enabled (find r.strategies x.strategy_id)) (assigned r ctx target xs)
            (find_first-AreMaps (λ s. s.id == x.strategy_id) r.strategies h) rest)
      | inr miss ↦ rw miss rest
    ]

layers-AreMaps :
    (r : Resolver) (ctx : Context) → AreMaps (r.default ∷ r.strategies) → AreMaps (layers r ctx)
unfolding layers find_first
layers-AreMaps r ctx h =
    append-AreMaps (if_enabled (some r.default)) _
      (find_first-AreMaps (λ s. true) (r.default ∷ []) (h.0, tt))
      (append-AreMaps (assigned r ctx "device_group" r.assignments) _
        (assigned-AreMaps r ctx "device_group" r.assignments h.1)
        (append-AreMaps (assigned r ctx "user" r.assignments) _
          (assigned-AreMaps r ctx "user" r.assignments h.1)
          (assigned-AreMaps r ctx "device" r.assignments h.1)))

-- For settings that hold each key once, as a Go map does: a setting has the value that the last
-- strategy assigned to the device gives it; if none does, the last one assigned to the user, then
-- the last one assigned to a group of the device, then the default strategy. Only enabled
-- strategies count.
pub lookup-resolve :
    (r : Resolver) (ctx : Context) (key : String)
    → AreMaps (r.default ∷ r.strategies)
    → lookup key (resolve r ctx).settings ≡ decided_value r ctx key
unfolding layers lookup
lookup-resolve r ctx key h =
    let groups = assigned r ctx "device_group" r.assignments in
    let users = assigned r ctx "user" r.assignments in
    let devices = assigned r ctx "device" r.assignments in
    ground (
      arith,
      resolve-apply_all r ctx,
      settings-apply_all start (layers r ctx) key (layers-AreMaps r ctx h),
      last_value-append (if_enabled (some r.default)) (groups ++ (users ++ devices)) key,
      last_value-append groups (users ++ devices) key,
      last_value-append users devices key,
    )
