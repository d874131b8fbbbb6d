-- ===== src/RelayGrant/Tests.antt =====
-- Relay grants on concrete requests, as in service_test.go.
mod Sample
use opendesk_remote.Prelude.{
  ◌+◌, ◌*◌, ◌≡◌, ◌≢◌, ◌⊎◌, ◌≤◌, ◌<◌, ◌↔◌, ℕ, refl, inl, inr, String, ℤ, pos, true, false, Option,
  none, some, List, [], ◌∷◌, Time, second, minute, unix, is_some, is_pos, trim_space, not_found,
  invalid_grant, contains, ok, err, ◌==◌, string_eq, has_dot, has_blank, is_space, split_dot, arith,
  foreign, wrap64, eq_iff,
}
use opendesk_remote.Prelude.Dict.{lookup, insert}
use opendesk_remote.Models.Fleet.{RelayGrant}
use opendesk_remote.RelayGrant.Types.{
  used, ValidateRequest, Grant, TokenPayload, model_from_grant, grant_from_model,
}
use opendesk_remote.RelayGrant.Store.{GrantStore}
use opendesk_remote.RelayGrant.Token.{sign, parse}
use opendesk_remote.RelayGrant.Token.Roundtrip.{parse-sign, parse-other_key}
use opendesk_remote.RelayGrant.State.{Service, State, find_grant, update_grant_status}
use opendesk_remote.RelayGrant.State.Updates.{IsKeyed}
use opendesk_remote.RelayGrant.Issue.{
  issue, checked_ttl, random_id, new_grant, payload_of, add_duration, seconds_duration,
}
use opendesk_remote.RelayGrant.Issue.Lifetime.{IsAllowed, checked_ttl-ok_iff}
use opendesk_remote.RelayGrant.Issue.Issued.{IsGranted, issue-IsGranted}
use opendesk_remote.RelayGrant.Validate.{validate, revoke}
use opendesk_remote.RelayGrant.Validate.Soundness.{Admits, validate-valid_iff}
use opendesk_remote.RelayGrant.Validate.Replay.{
  Call, validates, revokes, run, validate_once, revoke_final,
}
use opendesk_remote.RelayGrant.Validate.Races.{
  both_looked_up, overlapping_replay, refused_write_accepts,
}
use opendesk_remote.RelayGrant.Validate.Lifecycle.{IsWithin, issue-validate}
use opendesk_remote.RelayGrant.Tests.Sample.{
  Blob, blob_a, blob_b, codec, codec-IsCodec, reads_back, now, payload, service, start,
  start-IsKeyed, request, response, grant, holding, holding-IsKeyed, check,
}

parse-sign_example : parse codec blob_a "a.a" ≡ ok payload
unfolding sign trim_space
parse-sign_example =
    parse-sign codec codec-IsCodec blob_a payload blob_a "a.a" (refl, refl, refl) refl refl refl

parse-other_key_example : parse codec blob_a "a.b" ≡ err invalid_grant
unfolding sign
parse-other_key_example =
    parse-other_key codec codec-IsCodec blob_a blob_b payload blob_a "a.b" refl refl
      λ e. ground (arith, e)

checked_ttl-ok_iff_example :
    (checked_ttl (pos (2 * minute)) request ≡ ok (pos (120 * second)))
    ↔ IsAllowed (pos (2 * minute)) request (120 * second)
checked_ttl-ok_iff_example = checked_ttl-ok_iff (pos (2 * minute)) request (120 * second)

lifetime_granted : IsAllowed (pos (2 * minute)) request (120 * second)
unfolding checked_ttl seconds_duration wrap64
lifetime_granted = (checked_ttl-ok_iff (pos (2 * minute)) request (120 * second)).0 refl

Admits_example : Admits grant payload (now + second) check
unfolding contains
Admits_example = record {
  nonce = refl;
  not_revoked = λ e. ground (arith, e, eq_iff "issued" "revoked");
  not_used = λ e. ground (arith, e, eq_iff "issued" "used");
  not_expired = λ e. ground (arith, e, eq_iff "issued" "expired");
  in_time = omega arith;
  device = refl;
  rustdesk = inl refl;
  relay = inr refl;
}

parse_token : parse codec service.key check.token ≡ ok payload
unfolding parse split_dot trim_space
parse_token = refl

valid_check : (validate service holding (now + second) (now + second) check).1.valid ≡ true
unfolding find_grant lookup
valid_check =
    (validate-valid_iff service holding (now + second) (now + second) check).1
      (payload, grant, parse_token, refl, Admits_example)

validate-valid_iff_example :
    ((validate service holding (now + second) (now + second) check).1.valid ≡ true) ↔ (
      (p : TokenPayload) × (g : Grant) × (parse codec service.key check.token ≡ ok p)
      × (find_grant service holding p.grant_id ≡ some g)
      × Admits g p (now + second) check)
validate-valid_iff_example = validate-valid_iff service holding (now + second) (now + second) check

validate_once_example :
    (validate service
      (run service
        (validate service holding (now + second) (now + second) check).0
        (revokes "rg_b" ∷ validates now now check ∷ []))
      (now + 2 * second)
      (now + 2 * second)
      check).1.valid
    ≡ false
validate_once_example =
    validate_once service tt holding (now + second) (now + second) (now + 2 * second)
      (now + 2 * second) check check (revokes "rg_b" ∷ validates now now check ∷ []) holding-IsKeyed
      valid_check refl

revoke_final_example :
    (validate service
      (run service (revoke service holding " rg_a ").0 (validates now now check ∷ []))
      (now + second)
      (now + second)
      check).1.valid
    ≡ false
unfolding trim_space find_grant lookup
revoke_final_example =
    revoke_final service tt holding " rg_a " grant (validates now now check ∷ []) (now + second)
      (now + second) check payload holding-IsKeyed refl refl parse_token refl

overlapping_replay_example :
    ((both_looked_up service holding (now + second) check (now + second) check).1 ≡ true)
    × ((both_looked_up service holding (now + second) check (now + second) check).2 ≡ true)
unfolding find_grant lookup
overlapping_replay_example =
    overlapping_replay service holding (now + second) (now + second) check check payload grant
      parse_token refl refl Admits_example Admits_example

-- A store that holds one row and takes no write.
abbrev frozen : GrantStore RelayGrant
frozen = record {
  create = λ s at m. (s, err (foreign "read-only"));
  find = λ s id. ok s;
  update_status = λ s id status at. (s, err (foreign "read-only"));
}

abbrev frozen_service : Service codec RelayGrant
frozen_service = record { key = blob_a; default_ttl = pos (2 * minute); store = some frozen }

abbrev frozen_state : State RelayGrant
frozen_state = record { grants = []; stored = model_from_grant grant }

refused_write_accepts_example :
    ((validate frozen_service frozen_state (now + second) (now + second) check).1.valid ≡ true)
    × ((validate frozen_service frozen_state (now + second) (now + second) check).0 ≡ frozen_state)
unfolding find_grant lookup model_from_grant grant_from_model
refused_write_accepts_example =
    refused_write_accepts frozen_service frozen frozen_state (now + second) (now + second) check
      payload grant (foreign "read-only") refl refl parse_token refl Admits_example refl

issue_ok : (issue service start now now blob_a blob_b request).1 ≡ ok response
unfolding issue checked_ttl seconds_duration wrap64 sign new_grant payload_of random_id add_duration
    insert trim_space
issue_ok = refl

issue-IsGranted_example :
    IsGranted service now blob_a blob_b request response
      (issue service start now now blob_a blob_b request).0
issue-IsGranted_example =
    issue-IsGranted service tt start start-IsKeyed now codec-IsCodec now blob_a blob_b request
      response issue_ok

within : IsWithin request response check (now + second)
unfolding contains
within = record {
  token = refl;
  in_time = omega arith;
  device = refl;
  rustdesk = inl refl;
  relay = inr refl;
}

issue-validate_example :
    (validate service
      (issue service start now now blob_a blob_b request).0
      (now + second)
      (now + second)
      check).1.valid
    ≡ true
issue-validate_example =
    issue-validate service codec-IsCodec tt start start-IsKeyed now now blob_a blob_b request
      response (now + second) (now + second) check reads_back issue_ok refl within
