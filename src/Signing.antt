-- ===== src/Signing.antt =====
-- What the token code of relaygrant/service.go and auth/service.go uses of Go's library: base64 in
-- its raw URL alphabet, HMAC-SHA256, `encoding/json` on a payload, and conversions of bytes.
use opendesk_remote.Prelude.{String, ◌≡◌, ◌↔◌, Bool, true, false, Option, some, has_dot, has_blank}

pub record Codec (P : Type 0) : Type 1 where
  pub Bytes : Type 0
  pub bytes_of : String → Bytes
  -- base64.RawURLEncoding
  pub encode : Bytes → String
  pub decode : String → Option Bytes
  -- mac key message, and hmac.Equal
  pub mac : Bytes → Bytes → Bytes
  pub equal : Bytes → Bytes → Bool
  -- json.Marshal, json.Unmarshal
  pub marshal : P → Option Bytes
  pub unmarshal : Bytes → Option P

-- What these packages document: decoding reverses encoding, the alphabet has neither a dot nor a
-- blank, and `hmac.Equal` tests equality.
pub record IsCodec {P : Type 0} (c : Codec P) : Type 0 where
  pub decode-encode : (b : c.Bytes) → c.decode (c.encode b) ≡ some b
  pub encode_plain : (b : c.Bytes) → has_dot (c.encode b) ≡ false
  pub encode_unblank : (b : c.Bytes) → has_blank (c.encode b) ≡ false
  pub equal_iff : (a b : c.Bytes) → (c.equal a b ≡ true) ↔ (a ≡ b)
