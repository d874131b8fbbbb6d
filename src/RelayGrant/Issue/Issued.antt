-- ===== src/RelayGrant/Issue/Issued.antt =====
-- What `IssueWithContext` leaves: the signed token and the grant that the next lookup finds.
use Prim.Native.String.{◌++◌}
use Prim.Native.String.append
use mathlib.Core.Path.{subst}
use opendesk_remote.Prelude.{
  ◌+◌, ℕ, pos, unix, String, ℤ, ◌≡◌, ◌≢◌, refl, sym, ap, ◌∙◌, inl, inr, false, Bool-cases, some,
  none, Option, Time, trim_space, trim_space_idem, trim_space-plain, has_blank, is_space,
  has_blank-append, Result, ok, err, arith, eq_iff, ◌==◌, string_eq,
}
use opendesk_remote.Prelude.Dict.{insert, lookup-insert}
use opendesk_remote.Signing.{Codec, IsCodec}
use opendesk_remote.Models.Fleet.{RelayGrant}
use opendesk_remote.RelayGrant.Types.{
  IssueRequest, IssueResponse, TokenPayload, Grant, model_from_grant, grant_from_model,
}
use opendesk_remote.RelayGrant.Store.{GrantStore, IsGrantStore, IsComplete}
use opendesk_remote.RelayGrant.Token.{sign}
use opendesk_remote.RelayGrant.State.{Service, State, find_grant, find_by, found_in}
use opendesk_remote.RelayGrant.State.Updates.{IsReliable, IsKeyed, insert-IsKeyed}
use opendesk_remote.RelayGrant.Issue.{
  random_id, checked_ttl, new_grant, payload_of, add_duration, persist, issue_signed, issue_checked,
  issue,
}
use opendesk_remote.RelayGrant.Issue.Lifetime.{IsAllowed, checked_ttl_bounds, checked_ttl-ok_iff}

-- A text that is not empty is told from the empty one.
ne-empty : (s : String) → s ≢ "" → (s == "") ≡ false
ne-empty s h = elim (Bool-cases (s == "")) [
  | inl eq ↦ absurd (h ((eq_iff s "").0 eq))
  | inr ne ↦ ne
]

module _ (c : Codec TokenPayload) (laws : IsCodec c) where
  random_id-plain :
      (prefix : String) (b : c.Bytes)
      → has_blank (prefix ++ "_") ≡ false
      → trim_space (random_id c prefix b) ≡ random_id c prefix b
  unfolding random_id
  random_id-plain prefix b h =
      trim_space-plain _
        (has_blank-append (prefix ++ "_") (c.encode b) ∙ ground (arith, h, laws.encode_unblank b))

  pub rg-clean :
      (b : c.Bytes)
      → (trim_space (random_id c "rg" b) ≡ random_id c "rg" b)
        × ((random_id c "rg" b == "") ≡ false)
  unfolding random_id has_blank is_space
  rg-clean b = (
    random_id-plain "rg" b refl,
    ne-empty (random_id c "rg" b) λ e. cc (sym (append.cons "r" "g_" (c.encode b)) ∙ e),
  )

  pub nonce-clean :
      (b : c.Bytes)
      → (trim_space (random_id c "nonce" b) ≡ random_id c "nonce" b)
        × ((random_id c "nonce" b == "") ≡ false)
  unfolding random_id has_blank is_space
  nonce-clean b = (
    random_id-plain "nonce" b refl,
    ne-empty (random_id c "nonce" b) λ e. cc (sym (append.cons "n" "once_" (c.encode b)) ∙ e),
  )

-- `st` holds the grant `g` under its id, perhaps with another time of creation, and the response
-- names it.
pub record IsIssued {c : Codec TokenPayload} {S : Type 0} (svc : Service c S) (g : Grant)
    (resp : IssueResponse) (st : State S) : Type 0 where
  pub created_at : Time
  pub here : find_grant svc st g.grant_id ≡ some (record g { created_at = created_at })
  pub keyed : IsKeyed st
  pub signed : sign c svc.key (payload_of g) ≡ ok resp.token
  pub named : resp.grant_id ≡ g.grant_id
  pub expires : resp.expires_at ≡ g.expires_at

module _ {c : Codec TokenPayload} {S : Type 0} (svc : Service c S) where
  persist-in_map :
      (st : State S) (store_now : Time) (token : String) (g : Grant) (resp : IssueResponse)
      → IsKeyed st
      → svc.store ≡ none
      → sign c svc.key (payload_of g) ≡ ok token
      → (persist svc st store_now token g none).1 ≡ ok resp
      → IsIssued svc g resp (persist svc st store_now token g none).0
  unfolding persist find_grant find_by
  persist-in_map st store_now token g resp keyed in_map signed h = record {
    created_at = g.created_at;
    here =
        ap (find_by (record st { grants = insert g.grant_id g st.grants }) g.grant_id) in_map
        ∙ ground
            (arith, lookup-insert g.grant_id g.grant_id g st.grants, eq_iff g.grant_id g.grant_id);
    keyed = insert-IsKeyed st g.grant_id g keyed refl;
    signed = ground (arith, signed);
    named = ground arith;
    expires = ground arith;
  }

  persist-in_store :
      (store : GrantStore S) (st : State S) (store_now : Time) (token : String) (g : Grant)
      (resp : IssueResponse)
      → IsGrantStore store
      → IsComplete (model_from_grant g)
      → IsKeyed st
      → svc.store ≡ some store
      → sign c svc.key (payload_of g) ≡ ok token
      → (persist svc st store_now token g (some store)).1 ≡ ok resp
      → IsIssued svc g resp (persist svc st store_now token g (some store)).0
  unfolding persist find_grant find_by found_in model_from_grant grant_from_model
  persist-in_store store st store_now token g resp laws complete keyed in_store signed h =
      let (row, s', creates, finds) =
        laws.find-create st.stored store_now (model_from_grant g) complete in
      record {
        created_at = store_now;
        here =
            ap (find_by _ g.grant_id) in_store
            ∙ (ap (λ (r : S × Result RelayGrant). found_in (store.find r.0 g.grant_id)) creates
                ∙ ap found_in finds);
        keyed = record { at_id = keyed.at_id };
        signed = ground (arith, signed, creates);
        named = ground (arith, creates);
        expires = ground (arith, creates);
      }

  persist-IsIssued :
      (o : Option (GrantStore S)) (st : State S) (store_now : Time) (token : String) (g : Grant)
      (resp : IssueResponse)
      → IsReliable o
      → IsComplete (model_from_grant g)
      → IsKeyed st
      → svc.store ≡ o
      → sign c svc.key (payload_of g) ≡ ok token
      → (persist svc st store_now token g o).1 ≡ ok resp
      → IsIssued svc g resp (persist svc st store_now token g o).0
  persist-IsIssued none st store_now token g resp reliable complete keyed e signed h =
      persist-in_map st store_now token g resp keyed e signed h
  persist-IsIssued (some store) st store_now token g resp laws complete keyed e signed h =
      persist-in_store store st store_now token g resp laws complete keyed e signed h

  module _ (reliable : IsReliable svc.store) (st : State S) (keyed : IsKeyed st)
      (store_now : Time) where
    issue_signed-IsIssued :
        (g : Grant) (r : Result String) (resp : IssueResponse)
        → IsComplete (model_from_grant g)
        → sign c svc.key (payload_of g) ≡ r
        → (issue_signed svc st store_now g r).1 ≡ ok resp
        → IsIssued svc g resp (issue_signed svc st store_now g r).0
    unfolding issue_signed
    issue_signed-IsIssued g (err e) resp complete signed h = absurd (ground arith)
    issue_signed-IsIssued g (ok token) resp complete signed h =
        persist-IsIssued svc.store st store_now token g resp reliable complete keyed refl signed h

    module _ (laws : IsCodec c) (now : Time) (id_bytes nonce_bytes : c.Bytes)
        (req : IssueRequest) where
      new_grant-IsComplete :
          (ttl : ℤ)
          → checked_ttl svc.default_ttl req ≡ ok ttl
          → IsComplete (
              model_from_grant (
                new_grant now ttl
                  (random_id c "rg" id_bytes)
                  (random_id c "nonce" nonce_bytes)
                  req))
      unfolding new_grant model_from_grant add_duration
      new_grant-IsComplete ttl checked =
          let (bounds, who, target, relays, exact) =
            checked_ttl_bounds svc.default_ttl req ttl checked in
          let (n, is_pos, low, high) = bounds in
          record {
            grant_id = (rg-clean c laws id_bytes).0;
            has_grant_id = (rg-clean c laws id_bytes).1;
            nonce = (nonce-clean c laws nonce_bytes).0;
            has_nonce = (nonce-clean c laws nonce_bytes).1;
            target = trim_space_idem req.target_rustdesk_id;
            has_status = refl;
            expires = ground arith;
            relays = relays;
          }

      issue_checked-IsIssued :
          (r : Result ℤ) (resp : IssueResponse)
          → checked_ttl svc.default_ttl req ≡ r
          → (issue_checked svc st now store_now id_bytes nonce_bytes req r).1 ≡ ok resp
          → (ttl : ℤ) × (checked_ttl svc.default_ttl req ≡ ok ttl)
            × IsIssued svc
                (new_grant now ttl
                  (random_id c "rg" id_bytes)
                  (random_id c "nonce" nonce_bytes)
                  req)
                resp
                (issue_checked svc st now store_now id_bytes nonce_bytes req r).0
      unfolding issue_checked
      issue_checked-IsIssued (err e) resp checked h = absurd (ground arith)
      issue_checked-IsIssued (ok ttl) resp checked h =
          let g =
            new_grant now ttl (random_id c "rg" id_bytes) (random_id c "nonce" nonce_bytes) req in
          (
            ttl,
            checked,
            issue_signed-IsIssued g (sign c svc.key (payload_of g)) resp
                (new_grant-IsComplete ttl checked) refl h,
          )

      pub issue-IsIssued :
          (resp : IssueResponse)
          → (issue svc st now store_now id_bytes nonce_bytes req).1 ≡ ok resp
          → (ttl : ℤ) × (checked_ttl svc.default_ttl req ≡ ok ttl)
            × IsIssued svc
                (new_grant now ttl
                  (random_id c "rg" id_bytes)
                  (random_id c "nonce" nonce_bytes)
                  req)
                resp
                (issue svc st now store_now id_bytes nonce_bytes req).0
      unfolding issue
      issue-IsIssued resp h = issue_checked-IsIssued (checked_ttl svc.default_ttl req) resp refl h

-- What the request `req` leaves when it is answered with `resp` at the instant `now`: a lifetime of `n`
-- nanoseconds that the request may have, and under the drawn id a grant with what the request says; the
-- token is signed over the same values.
pub record IsGranted {c : Codec TokenPayload} {S : Type 0} (svc : Service c S) (now : Time)
    (id_bytes nonce_bytes : c.Bytes) (req : IssueRequest) (resp : IssueResponse) (st : State S)
    : Type 0 where
  pub n : ℕ
  pub created_at : Time
  pub allowed : IsAllowed svc.default_ttl req n
  pub here :
      find_grant svc st resp.grant_id
      ≡ some (record {
        grant_id = "rg_" ++ c.encode id_bytes;
        user_id = req.user_id;
        controller_device_id = req.controller_device_id;
        target_device_id = req.target_device_id;
        target_rustdesk_id = trim_space req.target_rustdesk_id;
        relay_id = req.relay_id;
        allowed_relays = req.allowed_relays;
        expires_at = now + n;
        nonce = "nonce_" ++ c.encode nonce_bytes;
        status = "issued";
        created_at = created_at;
        used_at = none;
      })
  pub signed :
      sign c svc.key (record {
        grant_id = "rg_" ++ c.encode id_bytes;
        user_id = req.user_id;
        controller_device_id = req.controller_device_id;
        target_device_id = req.target_device_id;
        target_rustdesk_id = trim_space req.target_rustdesk_id;
        relay_id = req.relay_id;
        allowed_relays = req.allowed_relays;
        expires_at = unix (now + n);
        nonce = "nonce_" ++ c.encode nonce_bytes;
      })
      ≡ ok resp.token
  pub named : resp.grant_id ≡ "rg_" ++ c.encode id_bytes
  pub expires : resp.expires_at ≡ now + n

-- With a store that answers, or with the map alone, and a map that holds each grant under its own id: a
-- grant that `Issue` answers for passed the checks, and the next lookup of its id finds it with the
-- identities, the target and the relays of the request, its expiry the checked lifetime after the
-- issue, the drawn nonce, and the status `issued`; the token is signed over the same values, and the
-- response names the grant's id and its expiry.
pub issue-IsGranted :
    {c : Codec TokenPayload} {S : Type 0} (svc : Service c S) (reliable : IsReliable svc.store)
    (st : State S) (keyed : IsKeyed st) (store_now : Time) (laws : IsCodec c) (now : Time)
    (id_bytes nonce_bytes : c.Bytes) (req : IssueRequest) (resp : IssueResponse)
    → (issue svc st now store_now id_bytes nonce_bytes req).1 ≡ ok resp
    → IsGranted svc now id_bytes nonce_bytes req resp
        (issue svc st now store_now id_bytes nonce_bytes req).0
unfolding new_grant payload_of random_id add_duration
issue-IsGranted {c} svc reliable st keyed store_now laws now id_bytes nonce_bytes req resp h =
    let (ttl, checked, is) =
      issue-IsIssued svc reliable st keyed store_now laws now id_bytes nonce_bytes req resp h in
    let (n, same, low, high) = (checked_ttl_bounds svc.default_ttl req ttl checked).0 in
    let issued : IsIssued svc
        (new_grant now (pos n) (random_id c "rg" id_bytes) (random_id c "nonce" nonce_bytes) req)
        resp (issue svc st now store_now id_bytes nonce_bytes req).0 =
      subst
        (λ (t : ℤ).
          IsIssued svc
            (new_grant now t (random_id c "rg" id_bytes) (random_id c "nonce" nonce_bytes) req) resp
            (issue svc st now store_now id_bytes nonce_bytes req).0)
        same is in
    record {
      n = n;
      created_at = issued.created_at;
      allowed = (checked_ttl-ok_iff svc.default_ttl req n).0 (checked ∙ ap ok same);
      here =
          ap (find_grant svc (issue svc st now store_now id_bytes nonce_bytes req).0) issued.named
          ∙ issued.here;
      signed = issued.signed;
      named = issued.named;
      expires = issued.expires;
    }
