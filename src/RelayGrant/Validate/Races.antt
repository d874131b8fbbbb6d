-- ===== src/RelayGrant/Validate/Races.antt =====
-- Where `ValidateWithContext` lets a grant be used more than once: its lookup and its write are two
-- critical sections, and a write that the store refuses is made up in a map that has no such grant.
use opendesk_remote.Prelude.{Bool, ◌≡◌, refl, ap, ◌∙◌, true, Time, none, some, Error, ok, err}
use opendesk_remote.Prelude.Dict.{lookup}
use opendesk_remote.Signing.{Codec}
use opendesk_remote.RelayGrant.Types.{used, ValidateRequest, Grant, TokenPayload}
use opendesk_remote.RelayGrant.Token.{parse}
use opendesk_remote.RelayGrant.Store.{GrantStore}
use opendesk_remote.RelayGrant.State.{Service, State, find_grant}
use opendesk_remote.RelayGrant.State.Updates.{update_grant_status-refused}
use opendesk_remote.RelayGrant.Validate.{Plan, accept, plan, commit, validate}
use opendesk_remote.RelayGrant.Validate.Soundness.{Admits, accept_plan}

module _ {c : Codec TokenPayload} {S : Type 0} (svc : Service c S) where
  both_write : State S → Time → Plan → Plan → State S × Bool × Bool
  both_write st now' plan₁ plan₂ =
      let (st₁, answer₁, e₁) = commit svc st now' plan₁ in
      let (st₂, answer₂, e₂) = commit svc st₁ now' plan₂ in (st₂, answer₁.valid, answer₂.valid)

  -- Two validations that both look the grant up before either of them writes.
  pub both_looked_up :
      State S → Time → ValidateRequest → Time → ValidateRequest → State S × Bool × Bool
  unfolding both_write
  both_looked_up st now first now' second =
      both_write st now' (plan svc st now first (parse c svc.key first.token))
        (plan svc st now second (parse c svc.key second.token))

  -- A grant that admits two requests with its token is accepted twice, if both validations look it
  -- up before either writes: the one-time use holds only for validations that do not overlap.
  pub overlapping_replay :
      (st : State S) (now now' : Time) (first second : ValidateRequest) (p : TokenPayload)
      (g : Grant)
      → parse c svc.key first.token ≡ ok p
      → second.token ≡ first.token
      → find_grant svc st p.grant_id ≡ some g
      → Admits g p now first
      → Admits g p now second
      → ((both_looked_up st now first now' second).1 ≡ true)
        × ((both_looked_up st now first now' second).2 ≡ true)
  unfolding both_looked_up both_write commit
  overlapping_replay st now now' first second p g parsed same here a b =
      let parsed' = ap (parse c svc.key) same ∙ parsed in
      let plan₁ = ap (plan svc st now first) parsed ∙ accept_plan svc st now first p g here a in
      let plan₂ = ap (plan svc st now second) parsed' ∙ accept_plan svc st now second p g here b in
      let run : both_looked_up st now first now' second ≡ both_write st now' (accept g) (accept g) =
        λ i. both_write st now' (plan₁ i) (plan₂ i) in
      (ap (λ r. r.1) run, ap (λ r. r.2) run)

  -- If the store refuses the write of an admitted grant, which the map does not hold, and is left
  -- as it was, the token is accepted all the same and nothing is recorded, so that it can be used
  -- again.
  pub refused_write_accepts :
      (store : GrantStore S) (st : State S) (now now' : Time) (req : ValidateRequest)
      (p : TokenPayload) (g : Grant) (e : Error)
      → svc.store ≡ some store
      → lookup g.grant_id st.grants ≡ none
      → parse c svc.key req.token ≡ ok p
      → find_grant svc st p.grant_id ≡ some g
      → Admits g p now req
      → store.update_status st.stored g.grant_id used (some now') ≡ (st.stored, err e)
      → ((validate svc st now now' req).1.valid ≡ true) × ((validate svc st now now' req).0 ≡ st)
  unfolding validate commit
  refused_write_accepts store st now now' req p g e uses absent parsed here a fails =
      rw (parsed, accept_plan svc st now req p g here a)
        (
          refl,
          ap (λ r. r.0)
              (update_grant_status-refused svc store st g used (some now') e uses absent fails),
        )
