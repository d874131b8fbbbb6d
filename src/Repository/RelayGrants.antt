-- ===== src/Repository/RelayGrants.antt =====
-- The relay grants of api/internal/repository/memory.go, and that they are a store as
-- relaygrant/service.go needs it.
use opendesk_remote.Prelude.{
  String, ◌≡◌, ◌≢◌, refl, ap, ◌∙◌, Bool, true, false, ◌||◌, Time, Option, List, [], ◌∷◌, find_first,
  modify_first, inc64, trim_space, trim_space_idem, message, Result, ok, ◌==◌, string_eq,
  if◌then◌else◌, nat_eq, arith, eq_iff,
}
use opendesk_remote.Models.Fleet.{RelayGrant}
use opendesk_remote.RelayGrant.Store.{GrantStore, IsGrantStore, IsComplete, or_time}
use opendesk_remote.Repository.{Memory, or_not_found, guarded}
use opendesk_remote.Repository.Lookup.{
  changed, or_not_found-ok, find_first-modify_first, find_first-modify_first_other,
  find_first-passes,
}

no_relays : List String → Bool
no_relays [] = true
no_relays (relay ∷ relays) = false

-- The row that `CreateRelayGrant` stores.
new_row : Memory → Time → RelayGrant → RelayGrant
new_row m now grant = record grant {
  id = inc64 m.next_id;
  grant_id = trim_space grant.grant_id;
  target_rustdesk_id = trim_space grant.target_rustdesk_id;
  nonce = trim_space grant.nonce;
  status = if grant.status == "" then "issued" else grant.status;
  created_at = now;
}

unfoldable pub create_relay_grant : Memory → Time → RelayGrant → Memory × Result RelayGrant
unfolding new_row no_relays
create_relay_grant m now grant =
    guarded
      (trim_space grant.grant_id == ""
        || trim_space grant.nonce == ""
        || nat_eq grant.expires_at 0
        || no_relays grant.allowed_relays)
      (message "grant_id, nonce, expires_at, and allowed_relays are required") m
      (
        record m { next_id = inc64 m.next_id; relay_grants = new_row m now grant ∷ m.relay_grants },
        ok (new_row m now grant),
      )

is_named : String → RelayGrant → Bool
is_named grant_id grant = grant.grant_id == grant_id

unfoldable pub find_relay_grant : Memory → String → Result RelayGrant
unfolding is_named
find_relay_grant m grant_id =
    or_not_found (find_first (is_named (trim_space grant_id)) m.relay_grants)

set_status : String → Option Time → RelayGrant → RelayGrant
set_status status used_at grant = record grant {
  status = trim_space status;
  used_at = or_time used_at grant.used_at;
}

unfoldable pub update_relay_grant_status :
    Memory → String → String → Option Time → Memory × Result RelayGrant
unfolding is_named set_status
update_relay_grant_status m grant_id status used_at =
    guarded (trim_space status == "") (message "status is required") m (
      record m {
        relay_grants =
            modify_first (is_named (trim_space grant_id)) (set_status status used_at)
              m.relay_grants;
      },
      changed (set_status status used_at)
          (find_first (is_named (trim_space grant_id)) m.relay_grants),
    )

unfoldable pub memory_grants : GrantStore Memory
memory_grants = record {
  create = create_relay_grant;
  find = find_relay_grant;
  update_status = update_relay_grant_status;
}

not_empty : (relays : List String) → relays ≢ [] → no_relays relays ≡ false
unfolding no_relays
not_empty [] ne = absurd (ne refl)
not_empty (relay ∷ relays) ne = refl

create_row :
    (m : Memory) (now : Time) (g : RelayGrant)
    → IsComplete g
    → create_relay_grant m now g ≡ (
      record m {
        next_id = inc64 m.next_id;
        relay_grants = record g { id = inc64 m.next_id; created_at = now } ∷ m.relay_grants;
      },
      ok (record g { id = inc64 m.next_id; created_at = now }),
    )
unfolding create_relay_grant new_row
create_row m now g full = ground (
  arith,
  full.grant_id,
  full.nonce,
  full.target,
  full.has_status,
  full.has_grant_id,
  full.has_nonce,
  full.expires,
  not_empty g.allowed_relays full.relays,
)

update_other :
    (m : Memory) (id status other : String) (used_at : Option Time)
    → trim_space id ≢ trim_space other
    → find_relay_grant (update_relay_grant_status m id status used_at).0 other
      ≡ find_relay_grant m other
unfolding find_relay_grant update_relay_grant_status is_named set_status
update_other m id status other used_at apart = ground (
  arith,
  ap (λ o. or_not_found o)
      (find_first-modify_first_other (is_named (trim_space id)) (set_status status used_at)
        (is_named (trim_space other)) m.relay_grants
        λ x named.
          let differ : (x.grant_id == trim_space other) ≡ false = ground (
            arith,
            eq_iff x.grant_id (trim_space id),
            eq_iff x.grant_id (trim_space other),
            apart,
          ) in
          (differ, differ)),
)

-- The memory repository is a store as the relay grants' service needs it: what it creates is found,
-- a status that it writes is found next and leaves the rows of other ids alone.
pub memory_grants-IsGrantStore : IsGrantStore memory_grants
unfolding memory_grants find_relay_grant update_relay_grant_status find_first no_relays is_named
    set_status changed
memory_grants-IsGrantStore = record {
  find-id = λ m id g e. (eq_iff g.grant_id (trim_space id)).0 (
      find_first-passes (is_named (trim_space id)) m.relay_grants g
        (or_not_found-ok (find_first (is_named (trim_space id)) m.relay_grants) g e));
  find-trim =
      λ m id. ap (λ t. or_not_found (find_first (is_named t) m.relay_grants)) (trim_space_idem id);
  find-create = λ m now g full. (
    inc64 m.next_id,
    record m {
      next_id = inc64 m.next_id;
      relay_grants = record g { id = inc64 m.next_id; created_at = now } ∷ m.relay_grants;
    },
    create_row m now g full,
    ground (arith, full.grant_id, eq_iff g.grant_id g.grant_id),
  );
  find-update = λ m id status used_at g e clean full.
      let found = or_not_found-ok (find_first (is_named (trim_space id)) m.relay_grants) g e in
      (
        record m {
          relay_grants =
              modify_first (is_named (trim_space id)) (set_status status used_at) m.relay_grants;
        },
        ground (arith, found, clean, full),
        ap or_not_found (
              find_first-modify_first (is_named (trim_space id)) (set_status status used_at)
                m.relay_grants g found
                (find_first-passes (is_named (trim_space id)) m.relay_grants g found))
            ∙ ground (arith, clean),
      );
  find-update_other =
      λ m id status other used_at apart. update_other m id status other used_at apart;
}
