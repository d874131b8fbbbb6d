-- ===== src/PolicyHandlers/Strategies/Edited.antt =====
-- Whatever the handlers are asked for, the stored strategies keep their well-formed assignments.
use mathlib.Core.Path.{subst}
use opendesk_remote.Prelude.{
  String, ℤ, ◌≡◌, refl, sym, ap, Option, none, some, Time, Result, ok, err, string_eq, int_has_eq,
  ◌>>◌,
}
use opendesk_remote.Models.Policies.{Strategy}
use opendesk_remote.Repository.{Memory}
use opendesk_remote.Repository.Policies.{delete_strategy, remove_strategy_assignment}
use opendesk_remote.Http.{Reply, Event, Visit, audited}
use opendesk_remote.Http.Audited.{audited-noted}
use opendesk_remote.PolicyHandlers.{Printing}
use opendesk_remote.PolicyHandlers.Strategies.{
  Objects, CreateStrategyRequest, StrategyAssignmentRequest, validate_strategy_assignment,
  requested, strategy_created, create_checked, post_strategy, strategy_updated, update_checked,
  put_strategy, assigned, assignment_of, assign_checked, post_strategy_assignment, unassigned,
  delete_strategy_assignment, strategy_deleted, remove_strategy,
}
use opendesk_remote.PolicyHandlers.Strategies.Stored.{
  AllAssignable, valid_target, requested-IsAssignable, created-AllAssignable, updated-AllAssignable,
  assigned-AllAssignable, unassigned-AllAssignable, deleted-AllAssignable,
}

audited-AllAssignable :
    {B : Type 0} (visit : Visit) (now : Time) (event : Event) (complaint : String) (reply : Reply B)
    (m : Memory)
    → AllAssignable m
    → AllAssignable (audited visit now event complaint reply m).0
audited-AllAssignable visit now event complaint reply m h =
    subst AllAssignable (sym (ap (λ r. r.0) (audited-noted visit now event complaint reply m))) h

-- A request to change the strategies, with the two readings of the clock.
pub data StrategyEdit : Type 0 where
  posts : Time → Time → Option CreateStrategyRequest → StrategyEdit
  puts : Time → Time → ℤ → Option CreateStrategyRequest → StrategyEdit
  assigns : Time → Time → ℤ → Option StrategyAssignmentRequest → StrategyEdit
  unassigns : Time → ℤ → ℤ → StrategyEdit
  removes : Time → ℤ → StrategyEdit

module _ (objects : Objects) (printing : Printing) (visit : Visit) where
  pub edit_strategy : Memory → StrategyEdit → Memory
  edit_strategy m (posts now logged req) = (post_strategy objects printing visit m now logged req).0
  edit_strategy m (puts now logged id req) =
      (put_strategy objects printing visit m now logged id req).0
  edit_strategy m (assigns now logged id req) =
      (post_strategy_assignment objects printing visit m now logged id req).0
  edit_strategy m (unassigns logged id own) =
      (delete_strategy_assignment objects printing visit m logged id own).0
  edit_strategy m (removes logged id) = (remove_strategy objects printing visit m logged id).0

  -- Whichever request to change the strategies is served: every assignment of every stored strategy
  -- is to a kind of target that the resolver knows, by a positive number.
  pub edit_strategy-AllAssignable :
      (m : Memory) (e : StrategyEdit) → AllAssignable m → AllAssignable (edit_strategy m e)
  unfolding edit_strategy post_strategy put_strategy post_strategy_assignment
      delete_strategy_assignment remove_strategy create_checked update_checked assign_checked
      strategy_created strategy_updated assigned unassigned strategy_deleted assignment_of
  edit_strategy-AllAssignable m (posts now logged none) h = h
  edit_strategy-AllAssignable m (posts now logged (some req)) h =
      checked (requested objects req) refl
    where
      created :
          (r : Memory × Result Strategy)
          → AllAssignable r.0
          → AllAssignable (strategy_created objects printing visit logged r).0
      created (m, err e) k = k
      created (m, ok strategy) k = audited-AllAssignable visit logged _ _ _ m k

      checked :
          (r : Result Strategy)
          → requested objects req ≡ r
          → AllAssignable (create_checked objects printing visit m now logged r).0
      checked (err e) made = h
      checked (ok strategy) made = created _ (
          created-AllAssignable m h now strategy (requested-IsAssignable objects req strategy made))
  edit_strategy-AllAssignable m (puts now logged id none) h = h
  edit_strategy-AllAssignable m (puts now logged id (some req)) h =
      checked (requested objects req) refl
    where
      updated :
          (r : Memory × Result Strategy)
          → AllAssignable r.0
          → AllAssignable (strategy_updated objects printing visit logged r).0
      updated (m, err e) k = k
      updated (m, ok strategy) k = audited-AllAssignable visit logged _ _ _ m k

      checked :
          (r : Result Strategy)
          → requested objects req ≡ r
          → AllAssignable (update_checked objects printing visit m now logged id r).0
      checked (err e) made = h
      checked (ok strategy) made = updated _ (
          updated-AllAssignable m h now id strategy
            (requested-IsAssignable objects req strategy made))
  edit_strategy-AllAssignable m (assigns now logged id none) h = h
  edit_strategy-AllAssignable m (assigns now logged id (some req)) h =
      checked (validate_strategy_assignment req.target_type req.target_id) refl
    where
      answered :
          (r : Memory × Result Strategy)
          → AllAssignable r.0
          → AllAssignable (assigned objects printing visit logged req r).0
      answered (m, err e) k = k
      answered (m, ok strategy) k = audited-AllAssignable visit logged _ _ _ m k

      checked :
          (r : Result (Unit {0}))
          → validate_strategy_assignment req.target_type req.target_id ≡ r
          → AllAssignable (assign_checked objects printing visit m now logged id req r).0
      checked (err e) valid = h
      checked (ok u) valid =
          let (known, positive, rest) =
            valid_target req.target_type req.target_id (ok tt) (ap (λ r. r >> ok tt) valid) in
          answered _ (
            assigned-AllAssignable m h now id (assignment_of objects printing visit req)
              (known, positive))
  edit_strategy-AllAssignable m (unassigns logged id own) h =
      answered (remove_strategy_assignment m id own) (unassigned-AllAssignable m h id own)
    where
      answered :
          (r : Memory × Result Strategy)
          → AllAssignable r.0
          → AllAssignable (unassigned objects printing visit logged own r).0
      answered (m, err e) k = k
      answered (m, ok strategy) k = audited-AllAssignable visit logged _ _ _ m k
  edit_strategy-AllAssignable m (removes logged id) h =
      answered (delete_strategy m id) (deleted-AllAssignable m h id)
    where
      answered :
          (r : Memory × Result (Unit {0}))
          → AllAssignable r.0
          → AllAssignable (strategy_deleted objects printing visit logged id r).0
      answered (m, err e) k = k
      answered (m, ok u) k = audited-AllAssignable visit logged _ _ _ m k
