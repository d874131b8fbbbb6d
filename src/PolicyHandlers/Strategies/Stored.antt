-- ===== src/PolicyHandlers/Strategies/Stored.antt =====
-- The repository keeps strategies that are assigned to kinds of target that the resolver knows, by
-- positive numbers; the handlers ask for no others.
use mathlib.Core.Path.{subst}
use opendesk_remote.Prelude.{
  String, ℤ, ◌≡◌, refl, ap, ◌∙◌, true, not, ◌||◌, inl, inr, Bool-cases, Option-cases, Time, List,
  [], ◌∷◌, All, All-append, All-modify_first, All-remove_first, contains, find_first, inc64, is_pos,
  trim_space, Result, ok, err, passed, arith, ◌==◌, string_eq, int_has_eq, ◌>>=◌, ◌>>◌,
}
use opendesk_remote.Models.Policies.{Strategy, StrategyAssignment}
use opendesk_remote.Repository.{Memory, numbered}
use opendesk_remote.Repository.Lookup.{guarded-keeps}
use opendesk_remote.Repository.Policies.{
  create_strategy, update_strategy, delete_strategy, add_strategy_assignment,
  remove_strategy_assignment,
}
use opendesk_remote.PolicyHandlers.{one_of}
use opendesk_remote.PolicyHandlers.ControlRoles.Stored.{trim-listed}
use opendesk_remote.PolicyHandlers.Strategies.{
  Objects, CreateStrategyRequest, validate_strategy_assignment, validate_assignments,
  validate_strategy, normalized_assignments, normalize_settings, strategy_of, requested,
}

abbrev pub kinds : List String
kinds = "device" ∷ "user" ∷ "device_group" ∷ []

abbrev pub IsAssignable : StrategyAssignment → Type 0
IsAssignable assignment =
    (contains kinds assignment.target_type ≡ true) × (is_pos assignment.target_id ≡ true)

abbrev pub AllAssignable : Memory → Type 0
AllAssignable m = All (λ (strategy : Strategy). All IsAssignable strategy.assignments) m.strategies

plain_kinds : All (λ w. trim_space w ≡ w) kinds
unfolding trim_space
plain_kinds = (refl, (refl, (refl, tt)))

pub valid_target :
    (target_type : String) (target_id : ℤ) (rest : Result (Unit {0}))
    → (validate_strategy_assignment target_type target_id >> rest) ≡ ok tt
    → (contains kinds target_type ≡ true) × (is_pos target_id ≡ true) × (rest ≡ ok tt)
unfolding validate_strategy_assignment one_of
valid_target target_type target_id rest valid = elim (Bool-cases (contains kinds target_type)) [
  | inl known ↦ elim (Bool-cases (is_pos target_id)) [
    | inl positive ↦ (known, positive, ground (arith, known, positive, valid))
    | inr negative ↦ absurd (ground (arith, known, negative, valid))
  ]
  | inr unknown ↦ absurd (ground (arith, unknown, valid))
]

accepted-IsAssignable :
    (assignments : List StrategyAssignment)
    → validate_assignments assignments ≡ ok tt
    → All IsAssignable (normalized_assignments assignments)
unfolding validate_assignments normalized_assignments
accepted-IsAssignable [] valid = tt
accepted-IsAssignable (assignment ∷ assignments) valid =
    let (known, positive, rest) =
      valid_target assignment.target_type assignment.target_id _ valid in
    (
      (
        ap (contains kinds) (trim-listed kinds assignment.target_type plain_kinds known) ∙ known,
        positive,
      ),
      accepted-IsAssignable assignments rest,
    )

pub requested-IsAssignable :
    (objects : Objects) (req : CreateStrategyRequest) (strategy : Strategy)
    → requested objects req ≡ ok strategy
    → All IsAssignable strategy.assignments
unfolding requested validate_strategy strategy_of
requested-IsAssignable objects req strategy made =
    on_settings (normalize_settings objects req.settings_json) made
  where
    made_of :
        (settings : String) (r : Result (Unit {0}))
        → (r >> ok (strategy_of req settings)) ≡ ok strategy
        → (r ≡ ok tt) × (strategy_of req settings ≡ strategy)
    made_of settings (err e) h = absurd (ground (arith, h))
    made_of settings (ok u) h = (refl, ground (arith, h))

    on_settings :
        (r : Result String)
        → (r >>= λ settings. validate_strategy req settings >> ok (strategy_of req settings))
          ≡ ok strategy
        → All IsAssignable strategy.assignments
    on_settings (err e) h = absurd (ground (arith, h))
    on_settings (ok settings) h =
        let (valid, same) = made_of settings (validate_strategy req settings) h in
        let named = passed (trim_space req.name == "") _ _ valid in
        subst (λ (s : Strategy). All IsAssignable s.assignments) same
          (accepted-IsAssignable req.assignments (passed (settings == "") _ _ named.1).1)

numbered-IsAssignable :
    (f : ℤ → StrategyAssignment → StrategyAssignment)
    → ((id : ℤ) (assignment : StrategyAssignment)
        → IsAssignable assignment
        → IsAssignable (f id assignment))
    → (next : ℤ) (assignments : List StrategyAssignment) → All IsAssignable assignments
    → All IsAssignable (numbered f next assignments).1
unfolding numbered
numbered-IsAssignable f keeps next [] h = tt
numbered-IsAssignable f keeps next (assignment ∷ assignments) h =
    (keeps (inc64 next) assignment h.0, numbered-IsAssignable f keeps (inc64 next) assignments h.1)

-- The repository's calls.
module _ (m : Memory) (h : AllAssignable m) where
  pub created-AllAssignable :
      (now : Time) (strategy : Strategy)
      → All IsAssignable strategy.assignments
      → AllAssignable (create_strategy m now strategy).0
  unfolding create_strategy
  created-AllAssignable now strategy known = guarded-keeps AllAssignable _ _ m _ h (
      All-append _ m.strategies _ h (
        numbered-IsAssignable _ (λ id assignment k. k) (inc64 m.next_id) strategy.assignments known,
        tt,
      ))

  pub updated-AllAssignable :
      (now : Time) (id : ℤ) (strategy : Strategy)
      → All IsAssignable strategy.assignments
      → AllAssignable (update_strategy m now id strategy).0
  unfolding update_strategy
  updated-AllAssignable now id strategy known =
      elim (Bool-cases
        (trim_space strategy.name == "" || trim_space strategy.settings_json == "")) [
          | inl blank ↦ rw blank h
          | inr named ↦
              elim (Option-cases (find_first (λ (other : Strategy). other.id == id) m.strategies)) [
                | inl missing ↦ rw named (rw missing h)
                | inr (old, found) ↦ rw named (
                    rw found (
                      All-modify_first (λ (other : Strategy). All IsAssignable other.assignments) _
                        _ m.strategies
                        (λ other k.
                          numbered-IsAssignable _ (λ id assignment k. k) m.next_id
                            strategy.assignments known)
                        h))
              ]
        ]

  pub assigned-AllAssignable :
      (now : Time) (id : ℤ) (assignment : StrategyAssignment)
      → IsAssignable assignment
      → AllAssignable (add_strategy_assignment m now id assignment).0
  unfolding add_strategy_assignment
  assigned-AllAssignable now id assignment known =
      elim (Bool-cases (assignment.target_type == "" || not (is_pos assignment.target_id))) [
        | inl blank ↦ rw blank h
        | inr named ↦
            elim (Option-cases (find_first (λ (other : Strategy). other.id == id) m.strategies)) [
              | inl missing ↦ rw named (rw missing h)
              | inr (old, found) ↦ rw named (
                  rw found (
                    All-modify_first (λ (other : Strategy). All IsAssignable other.assignments) _ _
                      m.strategies
                      (λ other k. All-append IsAssignable other.assignments _ k (known, tt)) h))
            ]
      ]

  pub unassigned-AllAssignable :
      (id assignment_id : ℤ) → AllAssignable (remove_strategy_assignment m id assignment_id).0
  unfolding remove_strategy_assignment
  unassigned-AllAssignable id assignment_id =
      elim (Option-cases (find_first (λ (other : Strategy). other.id == id) m.strategies)) [
        | inl missing ↦ rw missing h
        | inr (old, found) ↦ rw found (
            guarded-keeps AllAssignable _ _ m _ h (
              All-modify_first (λ (other : Strategy). All IsAssignable other.assignments) _ _
                m.strategies (λ other k. All-remove_first IsAssignable _ other.assignments k) h))
      ]

  pub deleted-AllAssignable : (id : ℤ) → AllAssignable (delete_strategy m id).0
  unfolding delete_strategy
  deleted-AllAssignable id =
      guarded-keeps AllAssignable _ _ m _ h (All-remove_first _ _ m.strategies h)
