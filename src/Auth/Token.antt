-- ===== src/Auth/Token.antt =====
-- `IssueToken` and `ParseToken` of api/internal/auth/service.go.
pub mod Expiry
use Prim.Native.String.{◌++◌}
use opendesk_remote.Prelude.{
  String, ℤ, Bool, true, false, ◌||◌, not, Option, none, some, List, [], ◌∷◌, Time, unix, is_pos,
  int_lt, split_dot, Error, invalid_session, expired_session, foreign, Result, ok, err,
  if◌then◌else◌,
}
use opendesk_remote.Signing.{Codec}
use opendesk_remote.Models.Accounts.{User}
use opendesk_remote.RelayGrant.Issue.{add_duration}
use opendesk_remote.Auth.{Claims, Service}

module _ {c : Codec Claims} {S : Type 0} (svc : Service c S) where
  open c use {Bytes, bytes_of, encode, decode, mac, equal, marshal, unmarshal}

  sign_raw : Time → Option Bytes → Result (String × Time)
  sign_raw expires_at none = err (foreign "json")
  sign_raw expires_at (some raw) =
      let encoded = encode raw in
      let signature = encode (mac svc.key (bytes_of encoded)) in
      ok ((encoded ++ ".") ++ signature, expires_at)

  unfoldable pub new_claims : Time → Bytes → User → Claims
  new_claims now nonce_bytes user = record {
    user_id = user.id;
    email = user.email;
    role = "admin";
    issued_at = unix now;
    expires_at = unix (add_duration now svc.ttl);
    nonce = "sess_" ++ encode nonce_bytes;
  }

  unfoldable pub issue_token : Time → Bytes → User → Result (String × Time)
  unfolding sign_raw new_claims
  issue_token now nonce_bytes user =
      sign_raw (add_duration now svc.ttl) (marshal (new_claims now nonce_bytes user))

  check_claims : Time → Option Claims → Result Claims
  check_claims now none = err invalid_session
  check_claims now (some claims) =
      if not (is_pos claims.user_id) || not (is_pos claims.expires_at)
      then err invalid_session
      else if int_lt claims.expires_at (unix now)
      then err expired_session
      else ok claims

  parse_raw : Time → Option Bytes → Result Claims
  unfolding check_claims
  parse_raw now none = err invalid_session
  parse_raw now (some raw) = check_claims now (unmarshal raw)

  check_signature : Time → String → Option Bytes → Result Claims
  unfolding parse_raw
  check_signature now encoded none = err invalid_session
  check_signature now encoded (some got) =
      if not (equal (mac svc.key (bytes_of encoded)) got)
      then err invalid_session
      else parse_raw now (decode encoded)

  parse_parts : Time → List String → Result Claims
  unfolding check_signature
  parse_parts now (encoded ∷ signature ∷ []) = check_signature now encoded (decode signature)
  parse_parts now _ = err invalid_session

  unfoldable pub parse_token : Time → String → Result Claims
  unfolding parse_parts
  parse_token now token = parse_parts now (split_dot token)
