-- ===== src/RelayGrant/Validate/Lifecycle.antt =====
-- An issued token, validated: the round trip through the token and the grant's record.
use opendesk_remote.Prelude.{
  ◌≤◌, String, ◌≡◌, ◌⊎◌, refl, sym, ap, ◌∙◌, inl, inr, true, Option-cases, some, eq_iff, Time, unix,
  is_pos, trim_space, contains, ok, ◌==◌, string_eq, arith,
}
use opendesk_remote.Signing.{Codec, IsCodec}
use opendesk_remote.RelayGrant.Types.{
  IssueRequest, IssueResponse, ValidateRequest, Grant, TokenPayload, issued, used, expired, revoked,
}
use opendesk_remote.RelayGrant.Token.{parse, sign}
use opendesk_remote.RelayGrant.Token.Roundtrip.{parse-sign, IsComplete}
use opendesk_remote.RelayGrant.State.{Service, State}
use opendesk_remote.RelayGrant.State.Updates.{IsReliable, IsKeyed}
use opendesk_remote.RelayGrant.Issue.{issue, random_id, new_grant, payload_of}
use opendesk_remote.RelayGrant.Issue.Issued.{issue-IsIssued, rg-clean, nonce-clean}
use opendesk_remote.RelayGrant.Validate.{validate}
use opendesk_remote.RelayGrant.Validate.Soundness.{Agree, validate-valid_iff}

-- A validation request that stays within what was asked for at the issue.
pub record IsWithin (req : IssueRequest) (resp : IssueResponse) (v : ValidateRequest) (at : Time)
    : Type 0 where
  pub token : v.token ≡ resp.token
  pub in_time : at ≤ resp.expires_at
  pub device : Agree v.target_device_id req.target_device_id
  pub rustdesk :
      (v.target_rustdesk_id ≡ "") ⊎ (v.target_rustdesk_id ≡ trim_space req.target_rustdesk_id)
  pub relay : (v.relay ≡ "") ⊎ (contains req.allowed_relays v.relay ≡ true)

-- A payload that was signed was marshalled first.
marshal-signed :
    (c : Codec TokenPayload) (key : c.Bytes) (p : TokenPayload) (token : String)
    → sign c key p ≡ ok token
    → (raw : c.Bytes) × (c.marshal p ≡ some raw)
unfolding sign
marshal-signed c key p token signed = elim (Option-cases (c.marshal p)) [
  | inl none_at ↦ absurd (ground (arith, signed, none_at))
  | inr found ↦ found
]

parse-signed :
    (c : Codec TokenPayload) (laws : IsCodec c) (key : c.Bytes) (p : TokenPayload) (token : String)
    → ((p : TokenPayload) (raw : c.Bytes) → c.marshal p ≡ some raw → c.unmarshal raw ≡ some p)
    → IsComplete p
    → sign c key p ≡ ok token
    → parse c key token ≡ ok p
parse-signed c laws key p token json complete signed =
    let (raw, m) = marshal-signed c key p token signed in
    parse-sign c laws key p raw token complete m (json p raw m) signed

module _ {c : Codec TokenPayload} {S : Type 0} (svc : Service c S) (laws : IsCodec c) where
  -- With a store that answers, or with the map alone, a map that holds each grant under its own id,
  -- and a JSON codec that reads back what it wrote: the token of a successful issue whose expiry
  -- lies after the start of 1970 is accepted by the next validation that names it no later than the
  -- expiry of the response, if the target and the relay that it names, where it names any, are
  -- those of the request.
  pub issue-validate :
      (reliable : IsReliable svc.store) (st : State S) (keyed : IsKeyed st) (now store_now : Time)
      (id_bytes nonce_bytes : c.Bytes) (req : IssueRequest) (resp : IssueResponse) (at at' : Time)
      (v : ValidateRequest)
      → ((p : TokenPayload) (raw : c.Bytes) → c.marshal p ≡ some raw → c.unmarshal raw ≡ some p)
      → (issue svc st now store_now id_bytes nonce_bytes req).1 ≡ ok resp
      → is_pos (unix resp.expires_at) ≡ true
      → IsWithin req resp v at
      → (validate svc (issue svc st now store_now id_bytes nonce_bytes req).0 at at' v).1.valid
        ≡ true
  unfolding new_grant payload_of
  issue-validate reliable st keyed now store_now id_bytes nonce_bytes req resp at at' v json h late
        within =
      let (ttl, checked, is) =
        issue-IsIssued svc reliable st keyed store_now laws now id_bytes nonce_bytes req resp h in
      let g : Grant =
        new_grant now ttl (random_id c "rg" id_bytes) (random_id c "nonce" nonce_bytes) req in
      let (rg, rg_full) = rg-clean c laws id_bytes in
      let (nonce, nonce_full) = nonce-clean c laws nonce_bytes in
      (validate-valid_iff svc _ at at' v).1 (
        payload_of g,
        record g { created_at = is.created_at },
        ap (parse c svc.key) within.token
            ∙ parse-signed c laws svc.key (payload_of g) resp.token json
                (
                  ap (λ s. s == "") rg ∙ rg_full,
                  ap (λ s. s == "") nonce ∙ nonce_full,
                  ap (λ t. is_pos (unix t)) (sym is.expires) ∙ late,
                )
                is.signed,
        is.here,
        record {
          nonce = refl;
          not_revoked = λ e. ground (arith, e, eq_iff issued revoked);
          not_used = λ e. ground (arith, e, eq_iff issued used);
          not_expired = λ e. ground (arith, e, eq_iff issued expired);
          in_time = ground (arith, within.in_time, is.expires);
          device = within.device;
          rustdesk = ground (arith, within.rustdesk);
          relay = within.relay;
        },
      )
