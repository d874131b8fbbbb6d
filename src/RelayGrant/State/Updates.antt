-- ===== src/RelayGrant/State/Updates.antt =====
-- What a write leaves for the next lookup, with the map and with a store alike.
use mathlib.Core.Path.{subst}
use opendesk_remote.Prelude.{
  String, Error, ◌≡◌, ◌≢◌, ◌⊎◌, refl, sym, ap, false≢true, Bool-cases, trim_space_idem, ◌∙◌, inl,
  inr, false, Time, Option, none, some, Result, ok, err, trim_space, arith, eq_iff, ◌==◌, string_eq,
}
use opendesk_remote.Prelude.Dict.{lookup, insert, lookup-insert}
use opendesk_remote.Signing.{Codec}
use opendesk_remote.Models.Fleet.{RelayGrant}
use opendesk_remote.RelayGrant.Types.{Status, Grant, TokenPayload, grant_from_model}
use opendesk_remote.RelayGrant.Store.{GrantStore, IsGrantStore, with_status}
use opendesk_remote.RelayGrant.State.{
  Service, State, marked, mark_in_map, found_in, find_by, update_by, after_store, find_grant,
  update_grant_status,
}

-- A store, if there is one, keeps its laws.
abbrev pub IsReliable : {S : Type 0} → Option (GrantStore S) → Type 0
IsReliable none = Unit
IsReliable (some store) = IsGrantStore store

-- The map holds each grant under its own id.
pub record IsKeyed {S : Type 0} (st : State S) : Type 0 where
  pub at_id : (id : String) (g : Grant) → lookup id st.grants ≡ some g → g.grant_id ≡ id

-- After an update by `write` the grant found under `id` is `g'`, which the update returns.
abbrev pub Leaves :
    {S : Type 0} → (State S → String → Option Grant) → State S × Grant → String → Grant → Type 0
Leaves {S} find r id g' = (r.1 ≡ g') × (find r.0 id ≡ some g') × IsKeyed r.0

pub insert-IsKeyed :
    {S : Type 0} (st : State S) (id : String) (g : Grant)
    → IsKeyed st
    → g.grant_id ≡ id
    → IsKeyed (record st { grants = insert id g st.grants })
insert-IsKeyed st id g keyed same = record {
  at_id =
      λ j h e. ground (arith, lookup-insert id j g st.grants, eq_iff id j, keyed.at_id j h, same);
}

mark_in_map-Leaves :
    {S : Type 0} (st : State S) (id : String) (g : Grant) (status : Status) (used_at : Option Time)
    → IsKeyed st
    → lookup id st.grants ≡ some g
    → Leaves
        (λ s k. lookup k s.grants)
        (mark_in_map st g status used_at (some g))
        id
        (marked g status used_at)
unfolding mark_in_map
mark_in_map-Leaves st id g status used_at keyed e =
    let same = keyed.at_id id g e in
    let g' = marked g status used_at in
    (
      refl,
      ground (arith, lookup-insert g.grant_id id g' st.grants, eq_iff g.grant_id id, same),
      insert-IsKeyed st g.grant_id g' keyed refl,
    )

update_by-Leaves :
    {S : Type 0} (store : Option (GrantStore S)) (st : State S) (id : String) (g : Grant)
    (status : Status) (used_at : Option Time)
    → IsReliable store
    → IsKeyed st
    → trim_space status ≡ status
    → (status == "") ≡ false
    → find_by st id store ≡ some g
    → Leaves
        (λ s k. find_by s k store)
        (update_by st g status used_at store)
        id
        (marked g status used_at)
unfolding update_by find_by after_store found_in grant_from_model
update_by-Leaves none st id g status used_at reliable keyed clean full e =
    let same = keyed.at_id id g e in
    let at_own_id : lookup g.grant_id st.grants ≡ some g =
      cc (e, ap (λ k. lookup k st.grants) same) in
    rw at_own_id (mark_in_map-Leaves st id g status used_at keyed e)
update_by-Leaves (some store) st id g status used_at laws keyed clean full e =
    found (store.find st.stored id) refl e
  where
    found :
        (r : Result RelayGrant)
        → store.find st.stored id ≡ r
        → found_in r ≡ some g
        → Leaves
            (λ s k. find_by s k (some store))
            (update_by st g status used_at (some store))
            id
            (marked g status used_at)
    found (err x) fe ge = cc
    found (ok m) fe ge =
        let from_row : grant_from_model m ≡ g = ground arith in
        let own_id = laws.find-id st.stored id m fe in
        let own : store.find st.stored m.grant_id ≡ ok m =
          cc (own_id, laws.find-trim st.stored id, fe) in
        let (s', updates, finds) =
          laws.find-update st.stored m.grant_id status used_at m own clean full in
        let again : store.find s' id ≡ ok (with_status m status used_at) =
          cc (own_id, laws.find-trim s' id, finds) in
        let result : after_store st g status used_at
              (store.update_status st.stored g.grant_id status used_at)
            ≡ (record st { stored = s' }, marked g status used_at) =
          ground (arith, updates, from_row) in
        subst (λ r. Leaves (λ s k. find_by s k (some store)) r id (marked g status used_at))
          (sym result) (refl, ground (arith, again, from_row), record { at_id = keyed.at_id })

-- The row found under an id has the trimmed id.
found_row-id :
    {S : Type 0} (store : GrantStore S) (st : State S) (id : String) (g : Grant)
    → IsGrantStore store
    → found_in (store.find st.stored id) ≡ some g
    → g.grant_id ≡ trim_space id
unfolding found_in grant_from_model
found_row-id {S} store st id g laws e = go (store.find st.stored id) refl e
  where
    go :
        (r : Result RelayGrant)
        → store.find st.stored id ≡ r
        → found_in r ≡ some g
        → g.grant_id ≡ trim_space id
    go (err x) fe ge = cc
    go (ok m) fe ge =
        let own_id = laws.find-id st.stored id m fe in
        let from_row : grant_from_model m ≡ g = ground arith in
        cc (own_id, ap (λ (h : Grant). h.grant_id) from_row)

-- Whether the store's update fails or not, what it leaves is what lookups then read.
after_store-find :
    {S : Type 0} (store : GrantStore S) (st : State S) (g : Grant) (status : Status)
    (used_at : Option Time) (other : String)
    → store.find
        (after_store st g status used_at
          (store.update_status st.stored g.grant_id status used_at)).0.stored
        other
      ≡ store.find (store.update_status st.stored g.grant_id status used_at).0 other
after_store-find {S} store st g status used_at other =
    go (store.update_status st.stored g.grant_id status used_at)
  where
    map_stored :
        (s : State S) (o : Option Grant) → (mark_in_map s g status used_at o).0.stored ≡ s.stored
    map_stored s none = unfold mark_in_map in refl
    map_stored s (some h) = unfold mark_in_map in refl

    go :
        (r : S × Result RelayGrant)
        → store.find (after_store st g status used_at r).0.stored other ≡ store.find r.0 other
    go (s', ok m) = unfold after_store in refl
    go (s', err e) =
        unfold after_store in
        ap (λ s. store.find s other)
          (map_stored (record st { stored = s' }) (lookup g.grant_id st.grants))

-- A write leaves the rows that another id finds, unless the two ids find the same row.
update_by-other :
    {S : Type 0} (store : Option (GrantStore S)) (st : State S) (id other : String) (g : Grant)
    (status : Status) (used_at : Option Time)
    → IsReliable store
    → IsKeyed st
    → trim_space status ≡ status
    → (status == "") ≡ false
    → find_by st id store ≡ some g
    → (find_by (update_by st g status used_at store).0 other store ≡ find_by st other store)
      ⊎ (find_by st id store ≡ find_by st other store)
unfolding update_by find_by mark_in_map
update_by-other none st id other g status used_at reliable keyed clean full e =
    let same = keyed.at_id id g e in
    let at_own_id : lookup g.grant_id st.grants ≡ some g =
      cc (e, ap (λ k. lookup k st.grants) same) in
    let g' = marked g status used_at in
    elim (Bool-cases (g.grant_id == other)) [
      | inl eq ↦ inr (cc (same, (eq_iff g.grant_id other).0 eq))
      | inr ne ↦ inl (ground (arith, at_own_id, lookup-insert g.grant_id other g' st.grants, ne))
    ]
update_by-other (some store) st id other g status used_at laws keyed clean full e =
    let own = found_row-id store st id g laws e in
    elim (Bool-cases (trim_space id == trim_space other)) [
      | inl eq ↦
          let ids = (eq_iff (trim_space id) (trim_space other)).0 eq in
          inr (cc (laws.find-trim st.stored id, laws.find-trim st.stored other, ids))
      | inr ne ↦
          let apart : trim_space g.grant_id ≢ trim_space other = λ p. false≢true (
            sym ne
            ∙ (eq_iff (trim_space id) (trim_space other)).1
                (sym (trim_space_idem id) ∙ sym (ap trim_space own) ∙ p)) in
          let frame = laws.find-update_other st.stored g.grant_id status other used_at apart in
          inl (ap found_in (after_store-find store st g status used_at other ∙ frame))
    ]

module _ {c : Codec TokenPayload} {S : Type 0} (svc : Service c S) where
  -- An update of a grant that a lookup found writes the status and the time of use, and the next
  -- lookup of the id finds the grant so changed.
  pub update_grant_status-Leaves :
      (st : State S) (id : String) (g : Grant) (status : Status) (used_at : Option Time)
      → IsReliable svc.store
      → IsKeyed st
      → trim_space status ≡ status
      → (status == "") ≡ false
      → find_grant svc st id ≡ some g
      → Leaves
          (find_grant svc)
          (update_grant_status svc st g status used_at)
          id
          (marked g status used_at)
  unfolding find_grant update_grant_status
  update_grant_status-Leaves st id g status used_at reliable keyed clean full e =
      update_by-Leaves svc.store st id g status used_at reliable keyed clean full e

  pub update_grant_status-other :
      (st : State S) (id other : String) (g : Grant) (status : Status) (used_at : Option Time)
      → IsReliable svc.store
      → IsKeyed st
      → trim_space status ≡ status
      → (status == "") ≡ false
      → find_grant svc st id ≡ some g
      → (find_grant svc (update_grant_status svc st g status used_at).0 other
          ≡ find_grant svc st other)
        ⊎ (find_grant svc st id ≡ find_grant svc st other)
  unfolding find_grant update_grant_status
  update_grant_status-other st id other g status used_at reliable keyed clean full e =
      update_by-other svc.store st id other g status used_at reliable keyed clean full e

  -- A write that the store refuses, of a grant that the map does not hold, changes the copy alone.
  pub update_grant_status-refused :
      (store : GrantStore S) (st : State S) (g : Grant) (status : Status) (used_at : Option Time)
      (e : Error)
      → svc.store ≡ some store
      → lookup g.grant_id st.grants ≡ none
      → store.update_status st.stored g.grant_id status used_at ≡ (st.stored, err e)
      → update_grant_status svc st g status used_at ≡ (st, marked g status used_at)
  unfolding update_grant_status update_by after_store mark_in_map
  update_grant_status-refused store st g status used_at e uses absent fails =
      ap (update_by st g status used_at) uses
      ∙ (ap (after_store st g status used_at) fails ∙ ap (mark_in_map st g status used_at) absent)
