-- ===== src/Access/Reported.antt =====
-- `Evaluator.Evaluate` decides as Access/Described says, and which rule it reports.
use mathlib.Core.Path.{subst}
use opendesk_remote.Prelude.{
  ◌≡◌, refl, sym, ap, ◌∙◌, inl, inr, Bool, true, false, not, ◌&&◌, ◌||◌, some, List, [], ◌∷◌, arith,
  eq_iff, All, keep, Bool-cases, ◌==◌, string_eq, int_has_eq, nat_has_eq, if◌then◌else◌,
}
use opendesk_remote.Access.{User, Device, Rule, Decision, less, decide_by, evaluate}
use opendesk_remote.Access.Order.{HasEffect}
use opendesk_remote.Access.Best.{first_best}
use opendesk_remote.Access.Decisions.{
  is_blocked, evaluate-matched_rule, evaluate-select, select, All-keep,
}
use opendesk_remote.Access.Described.{
  applies, precedes, foremost, Among, applying, answer_to, decision, applying-matching, IsKind,
  less-precedes, applies-IsKind, applying-AllKinds,
}

-- A rule that is one of two that have a property.
either : (P : Rule → Type 0) (test : Bool) (a b : Rule) → P a → P b → P (if test then a else b)
either P true a b pa pb = pa
either P false a b pa pb = pb

first_best-foremost :
    (best : Rule) (rules : List Rule)
    → All HasEffect (best ∷ rules)
    → All IsKind (best ∷ rules)
    → first_best best rules ≡ foremost best rules
unfolding first_best foremost
first_best-foremost best [] h k = refl
first_best-foremost best (rule ∷ rules) h k =
    ap (λ test. first_best (if test then rule else best) rules)
      (less-precedes rule best h.1.0 h.0 k.1.0 k.0)
    ∙ first_best-foremost (if precedes rule best then rule else best) rules
        (either HasEffect (precedes rule best) rule best h.1.0 h.0, h.1.1)
        (either IsKind (precedes rule best) rule best k.1.0 k.0, k.1.1)

foremost-HasEffect :
    (best : Rule) (rules : List Rule)
    → All HasEffect (best ∷ rules)
    → HasEffect (foremost best rules)
unfolding foremost
foremost-HasEffect best [] h = h.0
foremost-HasEffect best (rule ∷ rules) h =
    foremost-HasEffect (if precedes rule best then rule else best) rules
      (either HasEffect (precedes rule best) rule best h.1.0 h.0, h.1.1)

decide_by-deny :
    (rule : Rule)
    → HasEffect rule
    → decide_by (rule ∷ []) ≡ (
        if rule.effect == "deny"
        then record { allowed = false; reason = "matched_deny_rule"; matched_rule = some rule }
        else record { allowed = true; reason = "matched_allow_rule"; matched_rule = some rule })
unfolding decide_by
decide_by-deny rule h =
    ground (arith, eq_iff rule.effect "allow", eq_iff rule.effect "deny", eq_iff "allow" "deny")

select-answer_to :
    (rules : List Rule) → All HasEffect rules → All IsKind rules → select rules ≡ answer_to rules
unfolding select decide_by
select-answer_to [] h k = refl
select-answer_to (rule ∷ rules) h k =
    ap (λ r. decide_by (r ∷ [])) (first_best-foremost rule rules h k)
    ∙ decide_by-deny (foremost rule rules) (foremost-HasEffect rule rules h)

-- If every rule allows or denies, the decision is the one described by `decision`: a user that is
-- disabled or locked and then a device that is disabled are refused; else the first of the enabled
-- rules for the two decides that no later one precedes, where a denial precedes what allows, of two
-- that agree the closer one precedes (the device before its groups, then the user before the groups),
-- and of two that are as close the one with the higher priority; without such a rule access is denied.
pub evaluate-decision :
    (rules : List Rule) (user : User) (target : Device)
    → All HasEffect rules
    → evaluate rules user target ≡ decision rules user target
unfolding evaluate
evaluate-decision rules user target h =
    elim (Bool-cases (user.status == "disabled" || user.status == "locked")) [
      | inl blocked ↦ rw blocked refl
      | inr active ↦ elim (Bool-cases (target.status == "disabled")) [
        | inl off ↦ rw (active, off) refl
        | inr on ↦
            evaluate-select rules user target h (ground (arith, active, on))
            ∙ (ap select (applying-matching rules user target)
                ∙ (select-answer_to (applying rules user target) (All-keep HasEffect _ rules h)
                      (applying-AllKinds rules user target)
                    ∙ rw (active, on) refl))
      ]
    ]

picked-Among :
    (test : Bool) (a b x : Rule) (rules : List Rule)
    → Among x ((if test then a else b) ∷ rules)
    → Among x (b ∷ a ∷ rules)
picked-Among true a b x rules (inl same) = inr (inl same)
picked-Among true a b x rules (inr later) = inr (inr later)
picked-Among false a b x rules (inl same) = inl same
picked-Among false a b x rules (inr later) = inr (inr later)

foremost-Among : (best : Rule) (rules : List Rule) → Among (foremost best rules) (best ∷ rules)
unfolding foremost
foremost-Among best [] = inl refl
foremost-Among best (rule ∷ rules) =
    picked-Among (precedes rule best) rule best
      (foremost (if precedes rule best then rule else best) rules) rules
      (foremost-Among (if precedes rule best then rule else best) rules)

answer_to-Among :
    (rules : List Rule) (r : Rule) → (answer_to rules).matched_rule ≡ some r → Among r rules
answer_to-Among [] r e = absurd (ground (arith, e))
answer_to-Among (rule ∷ rules) r e =
    subst (λ (x : Rule). Among x (rule ∷ rules)) (ground (arith, e)) (foremost-Among rule rules)

Among-keep :
    (p : Rule → Bool) (rules : List Rule) (r : Rule)
    → Among r (keep p rules)
    → Among r rules × (p r ≡ true)
unfolding keep
Among-keep p [] r among = absurd among
Among-keep p (rule ∷ rules) r among = kept (p rule) refl (Among-keep p rules r) among
  where
    kept :
        (test : Bool)
        → p rule ≡ test
        → (Among r (keep p rules) → Among r rules × (p r ≡ true))
        → Among r (if test then rule ∷ keep p rules else keep p rules)
        → Among r (rule ∷ rules) × (p r ≡ true)
    kept true hit rec (inl same) = (inl same, ap p same ∙ hit)
    kept true hit rec (inr later) = let (among, holds) = rec later in (inr among, holds)
    kept false miss rec later = let (among, holds) = rec later in (inr among, holds)

decision_open :
    (rules : List Rule) (user : User) (target : Device)
    → is_blocked user target ≡ false
    → decision rules user target ≡ answer_to (applying rules user target)
decision_open rules user target open_ = ground arith

none_precedes :
    (rules : List Rule) (r : Rule) (user : User) (target : Device)
    → All HasEffect rules
    → HasEffect r
    → IsKind r
    → All (λ x. less x r ≡ false) (applying rules user target)
    → All (λ x. (applies x user target && precedes x r) ≡ false) rules
unfolding keep
none_precedes [] r user target h hr kr least = tt
none_precedes (rule ∷ rules) r user target h hr kr least =
    let (first, others) = kept (applies rule user target) refl least in
    (first, none_precedes rules r user target h.1 hr kr others)
  where
    kept :
        (test : Bool)
        → applies rule user target ≡ test
        → All
            (λ x. less x r ≡ false)
            (if test then rule ∷ applying rules user target else applying rules user target)
        → ((test && precedes rule r) ≡ false)
          × All (λ x. less x r ≡ false) (applying rules user target)
    kept true hit (first, others) =
        (sym (less-precedes rule r h.0 hr (applies-IsKind rule user target hit) kr) ∙ first, others)
    kept false miss others = (refl, others)

-- If every rule allows or denies and neither the user nor the device is blocked, a rule that is
-- reported is one of the rules and applies to the two, no rule that applies precedes it (denials first,
-- then the closer one, then the higher priority), and access is granted exactly when it does not deny.
pub evaluate-reported :
    (rules : List Rule) (user : User) (target : Device) (r : Rule)
    → All HasEffect rules
    → is_blocked user target ≡ false
    → (evaluate rules user target).matched_rule ≡ some r
    → Among r rules
      × (applies r user target ≡ true)
      × All (λ x. (applies x user target && precedes x r) ≡ false) rules
      × ((evaluate rules user target).allowed ≡ not (r.effect == "deny"))
evaluate-reported rules user target r h open_ e =
    let decided = evaluate-decision rules user target h ∙ decision_open rules user target open_ in
    let (among, hit) =
      Among-keep (λ rule. applies rule user target) rules r
        (answer_to-Among (applying rules user target) r
          (ap (λ (d : Decision). d.matched_rule) (sym decided) ∙ e)) in
    let (least, allowed) = evaluate-matched_rule rules user target r h open_ e in
    (
      among,
      hit,
      none_precedes rules r user target h least.0 (applies-IsKind r user target hit)
          (subst (All (λ x. less x r ≡ false)) (applying-matching rules user target) least.1),
      allowed,
    )
