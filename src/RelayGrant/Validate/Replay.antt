-- ===== src/RelayGrant/Validate/Replay.antt =====
-- A grant that was used, revoked or found expired stays refused, whatever is called next.
use mathlib.Core.Path.{subst}
use opendesk_remote.Prelude.{
  String, ◌≡◌, ◌⊎◌, refl, sym, ap, ◌∙◌, inl, inr, true, false, Time, Option, none, some, List, [],
  ◌∷◌, Result, ok, err, arith, trim_space, Bool-cases, Option-cases, ◌==◌, string_eq,
}
use opendesk_remote.Prelude.Dict.{lookup}
use opendesk_remote.Signing.{Codec}
use opendesk_remote.RelayGrant.Types.{Status, used, expired, ValidateRequest, Grant, TokenPayload}
use opendesk_remote.RelayGrant.Token.{parse}
use opendesk_remote.RelayGrant.State.{Service, State, marked, find_grant, update_grant_status}
use opendesk_remote.RelayGrant.State.Updates.{
  IsReliable, IsKeyed, update_grant_status-Leaves, update_grant_status-other,
}
use opendesk_remote.RelayGrant.Validate.{
  Plan, refuse, expire, accept, decide, plan, commit, validate, revoke, revoke_by,
}
use opendesk_remote.RelayGrant.Validate.Soundness.{accept_plan, validate-valid_iff, Admits}
use opendesk_remote.RelayGrant.Validate.Spent.{
  IsSpent, clean_used, clean_expired, decide_grant-not-IsSpent, revoke_by-SpentBy,
}

pub data Call : Type 0 where
  validates : Time → Time → ValidateRequest → Call
  revokes : String → Call

-- A grant that admits a request is not spent.
not-IsSpent :
    (g : Grant) (p : TokenPayload) (now : Time) (req : ValidateRequest)
    → Admits g p now req
    → ¬ IsSpent g.status
not-IsSpent g p now req a (inl e) = a.not_used e
not-IsSpent g p now req a (inr (inl e)) = a.not_revoked e
not-IsSpent g p now req a (inr (inr e)) = a.not_expired e

module _ {c : Codec TokenPayload} {S : Type 0} (svc : Service c S) where
  pub step : State S → Call → State S
  step st (validates now now' req) = (validate svc st now now' req).0
  step st (revokes id) = (revoke svc st id).0

  pub run : State S → List Call → State S
  run st [] = st
  run st (call ∷ calls) = run (step st call) calls

  plan-not-IsSpent :
      (st : State S) (now : Time) (req : ValidateRequest) (r : Result TokenPayload) (g : Grant)
      → (plan svc st now req r ≡ accept g) ⊎ (plan svc st now req r ≡ expire g)
      → (p : TokenPayload) × (find_grant svc st p.grant_id ≡ some g) × ¬ IsSpent g.status
  unfolding plan decide
  plan-not-IsSpent st now req (err x) g e = ground arith
  plan-not-IsSpent st now req (ok p) g e = elim (Option-cases (find_grant svc st p.grant_id)) [
    | inl missing ↦ ground (arith, missing)
    | inr (found, here) ↦
        let (same, fresh) = decide_grant-not-IsSpent req p now found g (ground (arith, here)) in
        (p, here ∙ ap some (sym same), λ s. fresh (subst (λ (h : Grant). IsSpent h.status) same s))
  ]

  -- The grant found under `id` is spent.
  pub record HasSpent (id : String) (st : State S) : Type 0 where
    pub grant : Grant
    pub here : find_grant svc st id ≡ some grant
    pub spent : IsSpent grant.status
    pub keyed : IsKeyed st

  module _ (reliable : IsReliable svc.store) where
    write-HasSpent :
        (id from : String) (st : State S) (g : Grant) (status : Status) (used_at : Option Time)
        → (trim_space status ≡ status) × ((status == "") ≡ false)
        → find_grant svc st from ≡ some g
        → ¬ IsSpent g.status
        → HasSpent id st
        → HasSpent id (update_grant_status svc st g status used_at).0
    write-HasSpent id from st g status used_at clean here fresh h =
        let leaves =
          update_grant_status-Leaves svc st from g status used_at reliable h.keyed clean.0 clean.1
            here in
        elim (update_grant_status-other svc st from id g status used_at reliable h.keyed clean.0
          clean.1 here) [
            | inl kept ↦ record {
              grant = h.grant;
              here = kept ∙ h.here;
              spent = h.spent;
              keyed = leaves.2;
            }
            | inr one ↦
                let same : g ≡ h.grant = cc (one, here, h.here) in
                absurd (fresh (subst (λ (k : Grant). IsSpent k.status) (sym same) h.spent))
          ]

    commit-HasSpent :
        (id : String) (st : State S) (now now' : Time) (req : ValidateRequest)
        (r : Result TokenPayload) (pl : Plan)
        → plan svc st now req r ≡ pl
        → HasSpent id st
        → HasSpent id (commit svc st now' pl).0
    unfolding commit
    commit-HasSpent id st now now' req r (refuse i s reason e) planned h = h
    commit-HasSpent id st now now' req r (expire g) planned h =
        let (p, here, fresh) = plan-not-IsSpent st now req r g (inr planned) in
        write-HasSpent id p.grant_id st g expired none clean_expired here fresh h
    commit-HasSpent id st now now' req r (accept g) planned h =
        let (p, here, fresh) = plan-not-IsSpent st now req r g (inl planned) in
        write-HasSpent id p.grant_id st g used (some now') clean_used here fresh h

    revoke-HasSpent :
        (id raw_id : String) (st : State S) → HasSpent id st → HasSpent id (revoke svc st raw_id).0
    unfolding revoke find_grant
    revoke-HasSpent id raw_id st h = elim (Bool-cases (trim_space raw_id == "")) [
      | inl blank ↦ rw blank h
      | inr full ↦
          let (g, here, spent, keyed) =
            revoke_by-SpentBy svc.store st id (trim_space raw_id) h.grant reliable h.keyed h.here
              (inl h.spent) in
          rw full (record { grant = g; here = here; spent = spent; keyed = keyed })
    ]

    step-HasSpent :
        (id : String) (st : State S) (call : Call) → HasSpent id st → HasSpent id (step st call)
    unfolding step validate
    step-HasSpent id st (validates now now' req) h =
        commit-HasSpent id st now now' req (parse c svc.key req.token)
          (plan svc st now req (parse c svc.key req.token)) refl h
    step-HasSpent id st (revokes raw_id) h = revoke-HasSpent id raw_id st h

    run-HasSpent :
        (id : String) (st : State S) (calls : List Call)
        → HasSpent id st
        → HasSpent id (run st calls)
    unfolding run
    run-HasSpent id st [] h = h
    run-HasSpent id st (call ∷ calls) h =
        run-HasSpent id (step st call) calls (step-HasSpent id st call h)

    refused_if_spent :
        (st : State S) (now now' : Time) (req : ValidateRequest) (p : TokenPayload)
        → parse c svc.key req.token ≡ ok p
        → HasSpent p.grant_id st
        → (validate svc st now now' req).1.valid ≡ false
    refused_if_spent st now now' req p parsed h =
        elim (Bool-cases (validate svc st now now' req).1.valid) [
          | inr refused ↦ refused
          | inl valid ↦
              let (q, g, parsed', here, a) = (validate-valid_iff svc st now now' req).0 valid in
              let one : p ≡ q = cc (parsed, parsed') in
              let same : g ≡ h.grant = cc (one, here, h.here) in
              absurd (
                not-IsSpent g q now req a
                  (subst (λ (k : Grant). IsSpent k.status) (sym same) h.spent))
        ]

    valid-HasSpent :
        (st : State S) (now now' : Time) (req : ValidateRequest) (p : TokenPayload)
        → IsKeyed st
        → parse c svc.key req.token ≡ ok p
        → (validate svc st now now' req).1.valid ≡ true
        → HasSpent p.grant_id (validate svc st now now' req).0
    unfolding validate commit
    valid-HasSpent st now now' req p keyed parsed valid =
        let (q, g, parsed', here, a) = (validate-valid_iff svc st now now' req).0 valid in
        let one : p ≡ q = cc (parsed, parsed') in
        let there : find_grant svc st p.grant_id ≡ some g = cc (one, here) in
        let leaves =
          update_grant_status-Leaves svc st p.grant_id g used (some now') reliable keyed
            clean_used.0 clean_used.1 there in
        rw
          (
            parsed,
            accept_plan svc st now req p g there (subst (λ k. Admits g k now req) (sym one) a),
          )
          (record {
            grant = marked g used (some now');
            here = leaves.1;
            spent = inl refl;
            keyed = leaves.2;
          })

    -- With a store that answers, or with the map alone, and a map that holds each grant under its
    -- own id: once a token has been accepted, no later validation of it is accepted, whatever the
    -- later request names and whichever validations and revocations, of any tokens and at any
    -- times, lie in between.
    pub validate_once :
        (st : State S) (now now' later later' : Time) (req again : ValidateRequest)
        (calls : List Call)
        → IsKeyed st
        → (validate svc st now now' req).1.valid ≡ true
        → again.token ≡ req.token
        → (validate svc (run (validate svc st now now' req).0 calls) later later' again).1.valid
          ≡ false
    validate_once st now now' later later' req again calls keyed valid same =
        let (p, g, parsed, here, a) = (validate-valid_iff svc st now now' req).0 valid in
        refused_if_spent (run (validate svc st now now' req).0 calls) later later' again p
          (ap (parse c svc.key) same ∙ parsed)
          (run-HasSpent p.grant_id (validate svc st now now' req).0 calls
            (valid-HasSpent st now now' req p keyed parsed valid))

    -- With a store that answers, or with the map alone, and a map that holds each grant under its
    -- own id: once a grant that is found has been revoked under its id, which is not blank and may
    -- stand between blanks, no token of that grant is accepted any more, whichever validations and
    -- revocations follow.
    pub revoke_final :
        (st : State S) (raw_id : String) (g : Grant) (calls : List Call) (now now' : Time)
        (req : ValidateRequest) (p : TokenPayload)
        → IsKeyed st
        → (trim_space raw_id == "") ≡ false
        → find_grant svc st (trim_space raw_id) ≡ some g
        → parse c svc.key req.token ≡ ok p
        → p.grant_id ≡ trim_space raw_id
        → (validate svc (run (revoke svc st raw_id).0 calls) now now' req).1.valid ≡ false
    unfolding revoke find_grant
    revoke_final st raw_id g calls now now' req p keyed full here parsed own =
        let (h, there, spent, keyed') =
          revoke_by-SpentBy svc.store st (trim_space raw_id) (trim_space raw_id) g reliable keyed
            here (inr refl) in
        rw full (
          refused_if_spent _ now now' req p parsed (
            run-HasSpent p.grant_id _ calls (
              subst
                (λ k.
                  HasSpent k
                    (revoke_by st (trim_space raw_id) svc.store
                      (lookup (trim_space raw_id) st.grants)).0)
                (sym own) (record { grant = h; here = there; spent = spent; keyed = keyed' }))))
