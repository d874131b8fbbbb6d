-- ===== src/Access.antt =====
-- api/internal/access/evaluator.go: who may connect to which device.
pub mod Order
mod Best
pub mod Decisions
pub mod Described
pub mod Reported
mod Tests
use Prim.Native.String.{◌++◌ as concat}
use mathlib.Core.List.{reverse}
use opendesk_remote.Prelude.{
  ℕ, String, ℤ, Bool, false, true, ◌&&◌, ◌||◌, Option, none, some, List, [], ◌∷◌, ltb, int_lt, keep,
  contains, ◌==◌, ◌!=◌, string_eq, int_has_eq, nat_has_eq, if◌then◌else◌,
}

pub record User : Type 0 where
  pub id : ℤ
  pub status : String
  pub group_ids : List ℤ

pub record Device : Type 0 where
  pub id : ℤ
  pub status : String
  pub group_ids : List ℤ

pub record Rule : Type 0 where
  pub id : ℤ
  pub subject_type : String
  pub subject_id : ℤ
  pub target_type : String
  pub target_id : ℤ
  pub effect : String
  pub priority : ℤ
  pub enabled : Bool

pub record Decision : Type 0 where
  pub allowed : Bool
  pub reason : String
  pub matched_rule : Option Rule

-- The two `switch` statements of `ruleMatches`; a type that is no case matches nothing.
subject_matches : Rule → User → Bool
subject_matches rule user =
    if rule.subject_type == "user"
    then rule.subject_id == user.id
    else if rule.subject_type == "user_group"
    then contains user.group_ids rule.subject_id
    else false

target_matches : Rule → Device → Bool
target_matches rule target =
    if rule.target_type == "device"
    then rule.target_id == target.id
    else if rule.target_type == "device_group"
    then contains target.group_ids rule.target_id
    else false

unfoldable pub rule_matches : Rule → User → Device → Bool
unfolding subject_matches target_matches
rule_matches rule user target = subject_matches rule user && target_matches rule target

rank_of : String → ℕ
rank_of key =
    if key == "user:device"
    then 4
    else if key == "user_group:device"
    then 3
    else if key == "user:device_group"
    then 2
    else if key == "user_group:device_group"
    then 1
    else 0

unfoldable pub rank : Rule → ℕ
unfolding rank_of
rank rule = rank_of (concat (concat rule.subject_type ":") rule.target_type)

-- The comparison of `sort.SliceStable`: whether `a` stands before `b`.
pub less : Rule → Rule → Bool
less a b =
    if a.effect != b.effect
    then a.effect == "deny"
    else if rank a != rank b
    then ltb (rank b) (rank a)
    else int_lt b.priority a.priority

-- `sort.SliceStable` is the insertion sort of Go's library (for up to 20 elements; for more it
-- merges such blocks, and stable sorts agree where the comparison is an order). The sorted part
-- is held with its last element first, and `x` moves towards the front while it is less.
pub sift : Rule → List Rule → List Rule
sift x [] = x ∷ []
sift x (y ∷ sorted) = if less x y then y ∷ sift x sorted else x ∷ y ∷ sorted

pub insertion_sort : List Rule → List Rule → List Rule
insertion_sort sorted [] = sorted
insertion_sort sorted (x ∷ rest) = insertion_sort (sift x sorted) rest

unfoldable pub sort_stable : List Rule → List Rule
unfolding less sift insertion_sort
sort_stable matches = reverse (insertion_sort [] matches)

abbrev pub matching : List Rule → User → Device → List Rule
matching rules user target = keep (λ rule. rule.enabled && rule_matches rule user target) rules

-- What follows the sort; an empty slice has been answered before it.
pub decide_by : List Rule → Decision
decide_by [] = record { allowed = false; reason = "default_deny"; matched_rule = none }
decide_by (rule ∷ others) =
    if rule.effect == "allow"
    then record { allowed = true; reason = "matched_allow_rule"; matched_rule = some rule }
    else record { allowed = false; reason = "matched_deny_rule"; matched_rule = some rule }

unfoldable pub evaluate : List Rule → User → Device → Decision
unfolding decide_by
evaluate rules user target =
    if user.status == "disabled" || user.status == "locked"
    then record { allowed = false; reason = "user_not_active"; matched_rule = none }
    else if target.status == "disabled"
    then record { allowed = false; reason = "target_device_disabled"; matched_rule = none }
    else decide_by (sort_stable (matching rules user target))
