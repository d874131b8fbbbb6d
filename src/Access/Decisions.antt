-- ===== src/Access/Decisions.antt =====
-- What `Evaluator.Evaluate` decides.
use mathlib.Core.Path.{subst}
use opendesk_remote.Prelude.{
  ◌≡◌, refl, ◌∙◌, inl, inr, Bool, true, false, not, ◌&&◌, ◌||◌, some, List, [], ◌∷◌, arith, eq_iff,
  All, any, keep, Bool-cases, ◌==◌, string_eq, ap,
}
use opendesk_remote.Access.{
  User, Device, Rule, Decision, rule_matches, matching, sort_stable, decide_by, evaluate,
}
use opendesk_remote.Access.Order.{HasEffect, denies}
use opendesk_remote.Access.Best.{
  first_best, IsLeast, first_best-IsLeast, denies-first_best, sort_stable-first_best,
}

abbrev pub is_blocked : User → Device → Bool
is_blocked user target =
    user.status == "disabled" || user.status == "locked" || target.status == "disabled"

pub All-keep :
    (P : Rule → Type 0) (p : Rule → Bool) (rules : List Rule) → All P rules → All P (keep p rules)
unfolding keep
All-keep P p [] h = tt
All-keep P p (x ∷ rules) h = elim (Bool-cases (p x)) [
  | inl e ↦ rw e (h.0, All-keep P p rules h.1)
  | inr e ↦ rw e (All-keep P p rules h.1)
]

any-keep :
    (p q : Rule → Bool) (rules : List Rule)
    → any q (keep p rules) ≡ any (λ rule. p rule && q rule) rules
unfolding keep any
any-keep p q [] = refl
any-keep p q (x ∷ rules) = ground (arith, any-keep p q rules)

is_empty : List Rule → Bool
is_empty [] = true
is_empty (x ∷ rules) = false

is_empty-keep : (p : Rule → Bool) (rules : List Rule) → is_empty (keep p rules) ≡ not (any p rules)
unfolding is_empty keep any
is_empty-keep p [] = refl
is_empty-keep p (x ∷ rules) = ground (arith, is_empty-keep p rules)

-- The answer to the matches without a sort: the first rule of the list, unless a later one is less.
unfoldable pub select : List Rule → Decision
select [] = decide_by []
select (x ∷ rest) = decide_by (first_best x rest ∷ [])

decide_by-cons : (x : Rule) (rest : List Rule) → decide_by (x ∷ rest) ≡ decide_by (x ∷ [])
unfolding decide_by
decide_by-cons x rest = refl

decide_by-sort_stable :
    (matches : List Rule) → All HasEffect matches → decide_by (sort_stable matches) ≡ select matches
unfolding select
decide_by-sort_stable [] h = unfold sort_stable in refl
decide_by-sort_stable (x ∷ rest) h =
    let (others, e) = sort_stable-first_best x rest h in
    ap decide_by e ∙ decide_by-cons (first_best x rest) others

select_allowed :
    (matches : List Rule)
    → All HasEffect matches
    → (select matches).allowed ≡ (not (is_empty matches) && not (any denies matches))
unfolding select decide_by is_empty any
select_allowed [] h = refl
select_allowed (x ∷ rest) h = ground (
  arith,
  denies-first_best x rest h.0 h.1,
  (first_best-IsLeast x rest h.0 h.1).0,
  eq_iff (first_best x rest).effect "allow",
  eq_iff (first_best x rest).effect "deny",
  eq_iff "allow" "deny",
)

-- If every rule allows or denies, access is granted exactly when neither the user nor the device
-- is blocked, some enabled rule matches the two, and no enabled rule that matches them denies.
pub evaluate-allowed :
    (rules : List Rule) (user : User) (target : Device)
    → All HasEffect rules
    → (evaluate rules user target).allowed ≡ (
        not (is_blocked user target)
        && any (λ r. r.enabled && rule_matches r user target) rules
        && not (any (λ r. (r.enabled && rule_matches r user target) && denies r) rules))
unfolding evaluate
evaluate-allowed rules user target h =
    let matches : List Rule = matching rules user target in
    ground (
      arith,
      decide_by-sort_stable matches (All-keep HasEffect _ rules h),
      select_allowed matches (All-keep HasEffect _ rules h),
      is_empty-keep (λ r. r.enabled && rule_matches r user target) rules,
      any-keep (λ r. r.enabled && rule_matches r user target) denies rules,
    )

-- If every rule allows or denies and neither the user nor the device is blocked, the sort may be replaced by one pass that keeps the first
-- matching rule which no later one precedes.
pub evaluate-select :
    (rules : List Rule) (user : User) (target : Device)
    → All HasEffect rules
    → is_blocked user target ≡ false
    → evaluate rules user target ≡ select (matching rules user target)
unfolding evaluate
evaluate-select rules user target h open_ =
    ground
      (arith, decide_by-sort_stable (matching rules user target) (All-keep HasEffect _ rules h))

select-IsLeast :
    (matches : List Rule) (r : Rule)
    → All HasEffect matches
    → (select matches).matched_rule ≡ some r
    → IsLeast matches r × ((select matches).allowed ≡ not (denies r))
unfolding select decide_by
select-IsLeast [] r h e = cc
select-IsLeast (x ∷ rest) r h e =
    let least = first_best-IsLeast x rest h.0 h.1 in
    let same : first_best x rest ≡ r = ground arith in
    (
      subst (IsLeast (x ∷ rest)) same least,
      ground (
        arith,
        least.0,
        eq_iff (first_best x rest).effect "allow",
        eq_iff (first_best x rest).effect "deny",
        eq_iff "allow" "deny",
        same,
      ),
    )

-- If every rule allows or denies and neither the user nor the device is blocked, no enabled rule
-- that matches the two precedes the reported one (denials first, then the rank of the kinds, then
-- the priority), and access is granted exactly when the reported rule does not deny.
pub evaluate-matched_rule :
    (rules : List Rule) (user : User) (target : Device) (r : Rule)
    → All HasEffect rules
    → is_blocked user target ≡ false
    → (evaluate rules user target).matched_rule ≡ some r
    → IsLeast (matching rules user target) r
      × ((evaluate rules user target).allowed ≡ not (denies r))
evaluate-matched_rule rules user target r h open_ =
    rw (evaluate-select rules user target h open_)
      (select-IsLeast (matching rules user target) r (All-keep HasEffect _ rules h))
