-- ===== src/RelayGrant/Token.antt =====
-- `sign` and `parse` of api/internal/relaygrant/service.go.
pub mod Roundtrip
use Prim.Native.String.{◌++◌}
use opendesk_remote.Prelude.{
  String, ◌||◌, not, Option, none, some, List, [], ◌∷◌, is_pos, trim_space, split_dot,
  invalid_grant, foreign, Result, ok, err, ◌==◌, string_eq, if◌then◌else◌,
}
use opendesk_remote.Signing.{Codec}
use opendesk_remote.RelayGrant.Types.{TokenPayload}

module _ (c : Codec TokenPayload) (key : c.Bytes) where
  open c use {Bytes, bytes_of, encode, decode, mac, equal, marshal, unmarshal}

  sign_raw : Option Bytes → Result String
  sign_raw none = err (foreign "json")
  sign_raw (some raw) =
      let encoded = encode raw in
      let sig = encode (mac key (bytes_of encoded)) in ok ((encoded ++ ".") ++ sig)

  unfoldable pub sign : TokenPayload → Result String
  unfolding sign_raw
  sign payload = sign_raw (marshal payload)

  -- The fields without which a payload is refused.
  check_payload : Option TokenPayload → Result TokenPayload
  check_payload none = err invalid_grant
  check_payload (some payload) =
      if trim_space payload.grant_id == ""
        || trim_space payload.nonce == ""
        || not (is_pos payload.expires_at)
      then err invalid_grant
      else ok payload

  parse_raw : Option Bytes → Result TokenPayload
  unfolding check_payload
  parse_raw none = err invalid_grant
  parse_raw (some raw) = check_payload (unmarshal raw)

  -- The signature part, decoded, against the one that the key gives to the first part.
  check_signature : String → Option Bytes → Result TokenPayload
  unfolding parse_raw
  check_signature encoded none = err invalid_grant
  check_signature encoded (some got) =
      if not (equal (mac key (bytes_of encoded)) got)
      then err invalid_grant
      else parse_raw (decode encoded)

  parse_parts : List String → Result TokenPayload
  unfolding check_signature
  parse_parts (encoded ∷ sig ∷ []) = check_signature encoded (decode sig)
  parse_parts _ = err invalid_grant

  unfoldable pub parse : String → Result TokenPayload
  unfolding parse_parts
  parse token = parse_parts (split_dot token)
