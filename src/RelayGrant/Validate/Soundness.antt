-- ===== src/RelayGrant/Validate/Soundness.antt =====
-- When `ValidateWithContext` accepts a token.
use mathlib.Core.Path.{subst}
use opendesk_remote.Prelude.{
  ◌≤◌, ℤ, ◌≡◌, ◌≢◌, ◌↔◌, ◌⊎◌, refl, sym, ap, ◌∙◌, inl, inr, true, false, Time, Option, none, some,
  Result, ok, err, contains, arith, eq_iff, Option-cases, string_eq, int_has_eq, int_eq_iff,
}
use opendesk_remote.Signing.{Codec}
use opendesk_remote.RelayGrant.Types.{used, expired, revoked, ValidateRequest, Grant, TokenPayload}
use opendesk_remote.RelayGrant.State.{Service, State, find_grant}
use opendesk_remote.RelayGrant.Token.{parse}
use opendesk_remote.RelayGrant.Validate.{
  Plan, refuse, expire, accept, decide, decide_grant, target_mismatch, plan, commit, validate,
}

-- Two identifiers that are both given are the same.
abbrev pub Agree : Option ℤ → Option ℤ → Type 0
Agree (some a) (some b) = a ≡ b
Agree _ _ = Unit

-- The grant admits the request at the time `now`: it bears the token's nonce, has not been used,
-- revoked or expired, its lifetime has not passed, and the target and the relay, where the
-- request names them and the grant is bound to one, are those of the grant.
pub record Admits (g : Grant) (p : TokenPayload) (now : Time) (req : ValidateRequest) : Type 0 where
  pub nonce : g.nonce ≡ p.nonce
  pub not_revoked : g.status ≢ revoked
  pub not_used : g.status ≢ used
  pub not_expired : g.status ≢ expired
  pub in_time : now ≤ g.expires_at
  pub device : Agree req.target_device_id g.target_device_id
  pub rustdesk :
      (req.target_rustdesk_id ≡ "")
      ⊎ (g.target_rustdesk_id ≡ "")
      ⊎ (req.target_rustdesk_id ≡ g.target_rustdesk_id)
  pub relay : (req.relay ≡ "") ⊎ (contains g.allowed_relays req.relay ≡ true)

target_mismatch-Agree : (a b : Option ℤ) → (target_mismatch a b ≡ false) ↔ Agree a b
unfolding target_mismatch
target_mismatch-Agree none b = (λ e. tt, λ h. refl)
target_mismatch-Agree (some a) none = (λ e. tt, λ h. refl)
target_mismatch-Agree (some a) (some b) =
    (λ e. ground (arith, int_eq_iff a b), λ h. ground (arith, int_eq_iff a b))

module _ (req : ValidateRequest) (p : TokenPayload) (now : Time) (g : Grant) where
  decide_grant-Admits : (h : Grant) → decide_grant req p now g ≡ accept h → Admits g p now req
  unfolding decide_grant
  decide_grant-Admits h e = record {
    nonce = ground (arith, eq_iff g.nonce p.nonce);
    not_revoked = λ q. ground (arith, eq_iff g.status revoked, q);
    not_used = λ q. ground (arith, eq_iff g.status used, q);
    not_expired = λ q. ground (arith, eq_iff g.status expired, q);
    in_time = ground arith;
    device = (target_mismatch-Agree req.target_device_id g.target_device_id).0 (ground arith);
    rustdesk = ground (
      arith,
      eq_iff req.target_rustdesk_id "",
      eq_iff g.target_rustdesk_id "",
      eq_iff req.target_rustdesk_id g.target_rustdesk_id,
    );
    relay = ground (arith, eq_iff req.relay "");
  }

  decide_grant_same : (h : Grant) → decide_grant req p now g ≡ accept h → h ≡ g
  unfolding decide_grant
  decide_grant_same h e = ground arith

  Admits-decide_grant : Admits g p now req → decide_grant req p now g ≡ accept g
  unfolding decide_grant
  Admits-decide_grant a = ground (
    arith,
    eq_iff g.nonce p.nonce,
    eq_iff g.status revoked,
    eq_iff g.status used,
    eq_iff g.status expired,
    eq_iff req.target_rustdesk_id "",
    eq_iff g.target_rustdesk_id "",
    eq_iff req.target_rustdesk_id g.target_rustdesk_id,
    eq_iff req.relay "",
    (target_mismatch-Agree req.target_device_id g.target_device_id).1 a.device,
  )

module _ {c : Codec TokenPayload} {S : Type 0} (svc : Service c S) where
  -- A plan to accept comes from a grant that was found and admits the request.
  pub plan-accept :
      (st : State S) (now : Time) (req : ValidateRequest) (r : Result TokenPayload) (g : Grant)
      → plan svc st now req r ≡ accept g
      → (p : TokenPayload) × (r ≡ ok p)
        × (find_grant svc st p.grant_id ≡ some g)
        × Admits g p now req
  unfolding plan decide
  plan-accept st now req (err x) g e = cc
  plan-accept st now req (ok p) g e = elim (Option-cases (find_grant svc st p.grant_id)) [
    | inl missing ↦ ground (arith, missing)
    | inr (found, here) ↦
        let decided : decide_grant req p now found ≡ accept g = ground (arith, here) in
        let same = decide_grant_same req p now found g decided in
        (
          p,
          refl,
          here ∙ ap some (sym same),
          subst (λ h. Admits h p now req) (sym same)
              (decide_grant-Admits req p now found g decided),
        )
  ]

  pub accept_plan :
      (st : State S) (now : Time) (req : ValidateRequest) (p : TokenPayload) (g : Grant)
      → find_grant svc st p.grant_id ≡ some g
      → Admits g p now req
      → plan svc st now req (ok p) ≡ accept g
  unfolding plan decide
  accept_plan st now req p g here a = rw here (Admits-decide_grant req p now g a)

  accepted :
      (st : State S) (now : Time) (pl : Plan)
      → (commit svc st now pl).1.valid ≡ true
      → (g : Grant) × (pl ≡ accept g)
  unfolding commit
  accepted st now (refuse grant_id status reason e) h = cc
  accepted st now (expire g) h = cc
  accepted st now (accept g) h = (g, refl)

  -- `Validate` answers that a token is valid exactly when it parses, its grant is found and the
  -- grant admits the request at the time of the check.
  pub validate-valid_iff :
      (st : State S) (now now' : Time) (req : ValidateRequest)
      → ((validate svc st now now' req).1.valid ≡ true) ↔ (
          (p : TokenPayload) × (g : Grant) × (parse c svc.key req.token ≡ ok p)
          × (find_grant svc st p.grant_id ≡ some g)
          × Admits g p now req)
  unfolding validate commit
  validate-valid_iff st now now' req = (
    λ h.
        let (g, planned) = accepted st now' (plan svc st now req (parse c svc.key req.token)) h in
        let (p, parsed, here, a) = plan-accept st now req (parse c svc.key req.token) g planned in
        (p, g, parsed, here, a),
    λ w. let (p, g, parsed, here, a) = w in rw (parsed, accept_plan st now req p g here a) refl,
  )
