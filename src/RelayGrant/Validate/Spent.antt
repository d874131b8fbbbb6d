-- ===== src/RelayGrant/Validate/Spent.antt =====
-- Grants that were used, revoked or found expired, and what `RevokeWithContext` does to them.
use opendesk_remote.Prelude.{
  String, ◌≡◌, ◌≢◌, ◌⊎◌, refl, sym, ap, ◌∙◌, inl, inr, false, Time, Option, none, some, Result, ok,
  err, arith, eq_iff, trim_space, Bool-cases, ◌==◌, string_eq, false≢true, if◌then◌else◌,
}
use opendesk_remote.Prelude.Dict.{lookup, lookup-insert}
use opendesk_remote.Models.Fleet.{RelayGrant}
use opendesk_remote.RelayGrant.Types.{
  Status, used, expired, revoked, ValidateRequest, Grant, TokenPayload, grant_from_model,
}
use opendesk_remote.RelayGrant.Store.{GrantStore, IsGrantStore, with_status}
use opendesk_remote.RelayGrant.State.{State, find_by, found_in}
use opendesk_remote.RelayGrant.State.Updates.{IsReliable, IsKeyed, insert-IsKeyed}
use opendesk_remote.RelayGrant.Validate.{expire, accept, decide_grant, revoke_by}

-- The statuses that a validation refuses without a look at the clock.
abbrev pub IsSpent : Status → Type 0
IsSpent status = (status ≡ used) ⊎ (status ≡ revoked) ⊎ (status ≡ expired)

pub clean_used : (trim_space used ≡ used) × ((used == "") ≡ false)
unfolding trim_space
clean_used = (refl, refl)

pub clean_expired : (trim_space expired ≡ expired) × ((expired == "") ≡ false)
unfolding trim_space
clean_expired = (refl, refl)

pub clean_revoked : (trim_space revoked ≡ revoked) × ((revoked == "") ≡ false)
unfolding trim_space
clean_revoked = (refl, refl)

-- A plan to write concerns a grant that is not spent.
pub decide_grant-not-IsSpent :
    (req : ValidateRequest) (p : TokenPayload) (now : Time) (g h : Grant)
    → (decide_grant req p now g ≡ accept h) ⊎ (decide_grant req p now g ≡ expire h)
    → (h ≡ g) × ¬ IsSpent g.status
unfolding decide_grant
decide_grant-not-IsSpent req p now g h e = (
  ground arith,
  λ s. ground (arith, eq_iff g.status revoked, eq_iff g.status used, eq_iff g.status expired, s),
)

-- The row that a store finds under an id, behind the grant.
found_row :
    (r : Result RelayGrant) (g : Grant)
    → found_in r ≡ some g
    → (m : RelayGrant) × (r ≡ ok m) × (grant_from_model m ≡ g)
unfolding found_in
found_row (err x) g e = cc
found_row (ok m) g e = (m, refl, ground arith)

abbrev pub SpentBy : {S : Type 0} → Option (GrantStore S) → String → State S → Type 0
SpentBy store id st = (h : Grant) × (find_by st id store ≡ some h) × IsSpent h.status × IsKeyed st

revoke_in_map-SpentBy :
    {S : Type 0} (st : State S) (id grant_id : String) (g : Grant) (found : Option Grant)
    → lookup grant_id st.grants ≡ found
    → IsKeyed st
    → lookup id st.grants ≡ some g
    → IsSpent g.status ⊎ (grant_id ≡ id)
    → SpentBy none id (revoke_by st grant_id none found).0
unfolding find_by revoke_by
revoke_in_map-SpentBy st id grant_id g none e keyed here (inl spent) = (g, here, spent, keyed)
revoke_in_map-SpentBy st id grant_id g none e keyed here (inr own) = absurd (cc (own, e, here))
revoke_in_map-SpentBy st id grant_id g (some found) e keyed here spent =
    let found' : Grant = record found { status = revoked } in
    let keyed' = insert-IsKeyed st grant_id found' keyed (keyed.at_id grant_id found e) in
    let there = lookup-insert grant_id id found' st.grants in
    elim (Bool-cases (grant_id == id)) [
      | inl eq ↦ (
        found',
        there ∙ ap (λ b. if b then some found' else lookup id st.grants) eq,
        inr (inl refl),
        keyed',
      )
      | inr ne ↦
          let old : IsSpent g.status = elim spent [
            | inl s ↦ s
            | inr own ↦ absurd (false≢true (sym ne ∙ (eq_iff grant_id id).1 own))
          ] in
          (
            g,
            there ∙ ap (λ b. if b then some found' else lookup id st.grants) ne ∙ here,
            old,
            keyed',
          )
    ]

revoke_in_store-SpentBy :
    {S : Type 0} (store : GrantStore S) (st : State S) (id grant_id : String) (g : Grant)
    (found : Option Grant)
    → IsGrantStore store
    → IsKeyed st
    → found_in (store.find st.stored id) ≡ some g
    → IsSpent g.status ⊎ (grant_id ≡ id)
    → SpentBy (some store) id (revoke_by st grant_id (some store) found).0
unfolding find_by revoke_by found_in
revoke_in_store-SpentBy store st id grant_id g found laws keyed here spent =
    elim (Bool-cases (trim_space grant_id == trim_space id)) [
      | inl eq ↦
          let one = (eq_iff (trim_space grant_id) (trim_space id)).0 eq in
          let (m, row, from_row) = found_row (store.find st.stored id) g here in
          let own : store.find st.stored grant_id ≡ ok m =
            cc (one, laws.find-trim st.stored id, laws.find-trim st.stored grant_id, row) in
          let (s', updates, finds) =
            laws.find-update st.stored grant_id revoked none m own clean_revoked.0
              clean_revoked.1 in
          let again : store.find s' id ≡ ok (with_status m revoked none) =
            cc (one, laws.find-trim s' id, laws.find-trim s' grant_id, finds) in
          (
            grant_from_model (with_status m revoked none),
            ap (λ r. found_in (store.find r.0 id)) updates ∙ ap found_in again,
            inr (inl (unfold grant_from_model in refl)),
            record { at_id = keyed.at_id },
          )
      | inr ne ↦
          let apart : trim_space grant_id ≢ trim_space id =
            λ p. false≢true (sym ne ∙ (eq_iff (trim_space grant_id) (trim_space id)).1 p) in
          let old : IsSpent g.status = elim spent [
            | inl s ↦ s
            | inr own ↦ absurd (apart (ap trim_space own))
          ] in
          (
            g,
            ap found_in (laws.find-update_other st.stored grant_id revoked id none apart) ∙ here,
            old,
            record { at_id = keyed.at_id },
          )
    ]

-- `revoke` leaves a spent grant spent, and makes the grant under its own id spent.
pub revoke_by-SpentBy :
    {S : Type 0} (store : Option (GrantStore S)) (st : State S) (id grant_id : String) (g : Grant)
    → IsReliable store
    → IsKeyed st
    → find_by st id store ≡ some g
    → IsSpent g.status ⊎ (grant_id ≡ id)
    → SpentBy store id (revoke_by st grant_id store (lookup grant_id st.grants)).0
unfolding find_by
revoke_by-SpentBy none st id grant_id g reliable keyed here spent =
    revoke_in_map-SpentBy st id grant_id g (lookup grant_id st.grants) refl keyed here spent
revoke_by-SpentBy (some store) st id grant_id g laws keyed here spent =
    revoke_in_store-SpentBy store st id grant_id g (lookup grant_id st.grants) laws keyed here spent
