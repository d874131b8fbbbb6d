-- ===== src/RelayGrant/Issue.antt =====
-- `IssueWithContext` of api/internal/relaygrant/service.go.
pub mod Lifetime
pub mod Issued
use Prim.Native.String.{◌++◌}
use opendesk_remote.Prelude.{
  ◌+◌, ◌-◌, ◌*◌, ◌%◌, ◌^◌, suc, String, ℤ, pos, negsuc, Bool, true, false, ◌||◌, ◌&&◌, not, Option,
  none, some, List, [], ◌∷◌, Time, second, minute, unix, wrap64, is_pos, int_lt, is_some,
  trim_space, message, Result, ok, err, refuse_if, ◌>>=◌, ◌>>◌, ◌==◌, string_eq, int_has_eq,
  if◌then◌else◌,
}
use opendesk_remote.Prelude.Dict.{insert}
use opendesk_remote.Signing.{Codec}
use opendesk_remote.RelayGrant.Types.{
  issued, IssueRequest, IssueResponse, Grant, TokenPayload, model_from_grant,
}
use opendesk_remote.RelayGrant.Store.{GrantStore}
use opendesk_remote.RelayGrant.Token.{sign}
use opendesk_remote.RelayGrant.State.{Service, State}

-- randomID(prefix), on the bytes that were drawn
unfoldable pub random_id : (c : Codec TokenPayload) → String → c.Bytes → String
random_id c prefix bytes = (prefix ++ "_") ++ c.encode bytes

-- time.Duration(n) * time.Second, for a positive n
unfoldable pub seconds_duration : ℤ → ℤ
seconds_duration (pos n) = wrap64 (n * second)
seconds_duration (negsuc n) = wrap64 (2 ^ 64 - suc n * second % 2 ^ 64)

-- t.Add(d)
unfoldable pub add_duration : Time → ℤ → Time
add_duration t (pos n) = t + n
add_duration t (negsuc n) = t - suc n

is_empty : List String → Bool
is_empty [] = true
is_empty (x ∷ xs) = false

-- The checks of `IssueWithContext` on a request whose target id is trimmed; the lifetime.
unfoldable pub checked_ttl : ℤ → IssueRequest → Result ℤ
unfolding is_empty
checked_ttl default_ttl req = do
  refuse_if
      (not (is_some req.user_id) && not (is_some req.controller_device_id) && not req.authenticated)
      (message "relay grant requires user or managed device identity")
  refuse_if (not (is_some req.target_device_id) && trim_space req.target_rustdesk_id == "")
      (message "target_device_id or target_rustdesk_id is required")
  refuse_if (is_empty req.allowed_relays) (message "allowed_relays is required")
  let ttl = if is_pos req.ttl_seconds then seconds_duration req.ttl_seconds else default_ttl
  refuse_if (int_lt ttl (pos minute) || int_lt (pos (5 * minute)) ttl)
      (message "ttl must be between 60 seconds and 5 minutes")
  ok ttl

unfoldable pub new_grant : Time → ℤ → String → String → IssueRequest → Grant
new_grant now ttl grant_id nonce req = record {
  grant_id = grant_id;
  user_id = req.user_id;
  controller_device_id = req.controller_device_id;
  target_device_id = req.target_device_id;
  target_rustdesk_id = trim_space req.target_rustdesk_id;
  relay_id = req.relay_id;
  allowed_relays = req.allowed_relays;
  expires_at = add_duration now ttl;
  nonce = nonce;
  status = issued;
  created_at = now;
  used_at = none;
}

unfoldable pub payload_of : Grant → TokenPayload
payload_of grant = record {
  grant_id = grant.grant_id;
  user_id = grant.user_id;
  controller_device_id = grant.controller_device_id;
  target_device_id = grant.target_device_id;
  target_rustdesk_id = grant.target_rustdesk_id;
  relay_id = grant.relay_id;
  allowed_relays = grant.allowed_relays;
  expires_at = unix grant.expires_at;
  nonce = grant.nonce;
}

module _ {c : Codec TokenPayload} {S : Type 0} (svc : Service c S) where
  -- `IssueWithContext` once the token is signed: the store, or else the map.
  persist : State S → Time → String → Grant → Option (GrantStore S) → State S × Result IssueResponse
  persist st store_now token grant none = (
    record st { grants = insert grant.grant_id grant st.grants },
    ok (record { grant_id = grant.grant_id; token = token; expires_at = grant.expires_at }),
  )
  persist st store_now token grant (some store) =
      let (stored', r) = store.create st.stored store_now (model_from_grant grant) in
      (
        record st { stored = stored' },
        (do
          created ← r
          ok (record {
            grant_id = created.grant_id;
            token = token;
            expires_at = created.expires_at;
          })),
      )

  issue_signed : State S → Time → Grant → Result String → State S × Result IssueResponse
  issue_signed st store_now grant (err e) = (st, err e)
  issue_signed st store_now grant (ok token) = persist st store_now token grant svc.store

  issue_checked :
      State S
      → Time
      → Time
      → c.Bytes
      → c.Bytes
      → IssueRequest
      → Result ℤ
      → State S × Result IssueResponse
  issue_checked st now store_now id_bytes nonce_bytes req (err e) = (st, err e)
  issue_checked st now store_now id_bytes nonce_bytes req (ok ttl) =
      let grant =
        new_grant now ttl (random_id c "rg" id_bytes) (random_id c "nonce" nonce_bytes) req in
      issue_signed st store_now grant (sign c svc.key (payload_of grant))

  unfoldable pub issue :
      State S → Time → Time → c.Bytes → c.Bytes → IssueRequest → State S × Result IssueResponse
  unfolding issue_checked issue_signed persist
  issue st now store_now id_bytes nonce_bytes req =
      issue_checked st now store_now id_bytes nonce_bytes req (checked_ttl svc.default_ttl req)
