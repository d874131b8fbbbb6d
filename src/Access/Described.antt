-- ===== src/Access/Described.antt =====
-- What the evaluator decides, described without its sort, its comparison and its ranks.
use opendesk_remote.Prelude.{
  ℕ, String, ◌⊎◌, ◌+◌, ◌≡◌, refl, ap, ◌∙◌, inl, inr, Bool, true, false, not, ◌&&◌, ◌||◌, none, some,
  List, [], ◌∷◌, arith, eq_iff, All, keep, contains, ltb, int_lt, Bool-cases, ◌==◌, ◌!=◌, string_eq,
  int_has_eq, nat_has_eq, if◌then◌else◌,
}
use opendesk_remote.Access.{User, Device, Rule, Decision, rule_matches, matching, rank, less}
use opendesk_remote.Access.Order.{HasEffect}

-- An enabled rule for the user or a group of the user, and for the device or a group of the device.
abbrev pub applies : Rule → User → Device → Bool
applies rule user target =
    rule.enabled
    && ((rule.subject_type == "user" && (rule.subject_id == user.id))
        || (rule.subject_type == "user_group" && contains user.group_ids rule.subject_id))
    && ((rule.target_type == "device" && (rule.target_id == target.id))
        || (rule.target_type == "device_group" && contains target.group_ids rule.target_id))

-- How close a rule comes: the device counts for more than the user.
abbrev pub closeness : Rule → ℕ
closeness rule =
    (if rule.target_type == "device" then 2 else 0) + (if rule.subject_type == "user" then 1 else 0)

-- A denial stands before what allows; of two that agree the closer one, and of two that are as
-- close the one with the higher priority.
abbrev pub precedes : Rule → Rule → Bool
precedes a b =
    if (a.effect == "deny") && not (b.effect == "deny")
    then true
    else if (b.effect == "deny") && not (a.effect == "deny")
    then false
    else if ltb (closeness b) (closeness a)
    then true
    else if ltb (closeness a) (closeness b)
    then false
    else int_lt b.priority a.priority

-- The first of the rules that no later one precedes, in one pass.
unfoldable pub foremost : Rule → List Rule → Rule
foremost best [] = best
foremost best (rule ∷ rules) = foremost (if precedes rule best then rule else best) rules

-- `r` is one of the rules.
abbrev pub Among : Rule → List Rule → Type 0
Among r [] = ⊥
Among r (rule ∷ rules) = (r ≡ rule) ⊎ Among r rules

-- The rules that apply, in their order.
abbrev pub applying : List Rule → User → Device → List Rule
applying rules user target = keep (λ rule. applies rule user target) rules

abbrev pub answer_to : List Rule → Decision
answer_to [] = record { allowed = false; reason = "default_deny"; matched_rule = none }
answer_to (rule ∷ rules) =
    if (foremost rule rules).effect == "deny"
    then record {
      allowed = false;
      reason = "matched_deny_rule";
      matched_rule = some (foremost rule rules);
    }
    else record {
      allowed = true;
      reason = "matched_allow_rule";
      matched_rule = some (foremost rule rules);
    }

-- The whole decision.
abbrev pub decision : List Rule → User → Device → Decision
decision rules user target =
    if user.status == "disabled" || user.status == "locked"
    then record { allowed = false; reason = "user_not_active"; matched_rule = none }
    else if target.status == "disabled"
    then record { allowed = false; reason = "target_device_disabled"; matched_rule = none }
    else answer_to (applying rules user target)

applies-matches :
    (rule : Rule) (user : User) (target : Device)
    → (rule.enabled && rule_matches rule user target) ≡ applies rule user target
unfolding rule_matches
applies-matches rule user target = ground (
  arith,
  eq_iff rule.subject_type "user",
  eq_iff rule.subject_type "user_group",
  eq_iff "user" "user_group",
  eq_iff rule.target_type "device",
  eq_iff rule.target_type "device_group",
  eq_iff "device" "device_group",
)

pub applying-matching :
    (rules : List Rule) (user : User) (target : Device)
    → matching rules user target ≡ applying rules user target
unfolding keep
applying-matching [] user target = refl
applying-matching (rule ∷ rules) user target =
    ground (arith, applies-matches rule user target, applying-matching rules user target)

-- A kind that the evaluator ranks.
abbrev pub IsKind : Rule → Type 0
IsKind rule =
    ((rule.subject_type == "user" || rule.subject_type == "user_group") ≡ true)
    × ((rule.target_type == "device" || rule.target_type == "device_group") ≡ true)

rank_typed :
    (rule : Rule) (subject target : String)
    → (rule.subject_type == subject) ≡ true
    → (rule.target_type == target) ≡ true
    → rank rule ≡ rank (record rule { subject_type = subject; target_type = target })
rank_typed rule subject target s t =
    ap (λ x. rank (record rule { subject_type = x })) ((eq_iff rule.subject_type subject).0 s)
    ∙ ap (λ y. rank (record rule { subject_type = subject; target_type = y }))
        ((eq_iff rule.target_type target).0 t)

or_cases : (a b : Bool) → (a || b) ≡ true → (a ≡ true) ⊎ (b ≡ true)
or_cases true b h = inl refl
or_cases false b h = inr h

other_kind : (s a b : String) → (s == b) ≡ true → (b == a) ≡ false → (s == a) ≡ false
other_kind s a b hit apart = ap (λ x. x == a) ((eq_iff s b).0 hit) ∙ apart

rank-closeness : (rule : Rule) → IsKind rule → rank rule ≡ closeness rule + 1
unfolding rank
rank-closeness rule (subject, target) = elim (or_cases _ _ subject) [
  | inl user ↦ elim (or_cases _ _ target) [
    | inl device ↦ rank_typed rule "user" "device" user device ∙ rw (user, device) refl
    | inr group ↦
        rank_typed rule "user" "device_group" user group
        ∙ rw (user, other_kind rule.target_type "device" "device_group" group refl) refl
  ]
  | inr user_group ↦ elim (or_cases _ _ target) [
    | inl device ↦
        rank_typed rule "user_group" "device" user_group device
        ∙ rw (other_kind rule.subject_type "user" "user_group" user_group refl, device) refl
    | inr group ↦
        rank_typed rule "user_group" "device_group" user_group group
        ∙ rw
            (
              other_kind rule.subject_type "user" "user_group" user_group refl,
              other_kind rule.target_type "device" "device_group" group refl,
            )
            refl
  ]
]

effects_differ :
    (a b : Rule)
    → HasEffect a
    → HasEffect b
    → (a.effect != b.effect) ≡ (
        ((a.effect == "deny") && not (b.effect == "deny"))
        || ((b.effect == "deny") && not (a.effect == "deny")))
effects_differ a b ha hb = ground (
  arith,
  eq_iff a.effect b.effect,
  eq_iff a.effect "deny",
  eq_iff b.effect "deny",
  eq_iff "allow" "deny",
)

-- The two ways to put the tests, on their outcomes.
same_order :
    (da db : Bool) (n k : ℕ) (higher : Bool)
    → (if (da && not db) || (db && not da)
        then da
        else if (n + 1) != (k + 1)
        then ltb (k + 1) (n + 1)
        else higher)
      ≡ (if da && not db
          then true
          else if db && not da
          then false
          else if ltb k n
          then true
          else if ltb n k
          then false
          else higher)
same_order da db n k higher = ground arith

pub less-precedes :
    (a b : Rule) → HasEffect a → HasEffect b → IsKind a → IsKind b → less a b ≡ precedes a b
unfolding less
less-precedes a b ha hb ka kb =
    rw (effects_differ a b ha hb, rank-closeness a ka, rank-closeness b kb)
      (same_order (a.effect == "deny") (b.effect == "deny") (closeness a) (closeness b)
        (int_lt b.priority a.priority))

-- What applies is of a ranked kind.
pub applies-IsKind :
    (rule : Rule) (user : User) (target : Device) → applies rule user target ≡ true → IsKind rule
applies-IsKind rule user target h = (ground arith, ground arith)

pub applying-AllKinds :
    (rules : List Rule) (user : User) (target : Device) → All IsKind (applying rules user target)
unfolding keep
applying-AllKinds [] user target = tt
applying-AllKinds (rule ∷ rules) user target = elim (Bool-cases (applies rule user target)) [
  | inl hit ↦ rw hit (applies-IsKind rule user target hit, applying-AllKinds rules user target)
  | inr miss ↦ rw miss (applying-AllKinds rules user target)
]
