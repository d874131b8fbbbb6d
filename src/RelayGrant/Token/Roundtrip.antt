-- ===== src/RelayGrant/Token/Roundtrip.antt =====
-- What `parse` accepts: the tokens that `sign` made under the same key.
use opendesk_remote.Prelude.{
  String, ◌≡◌, ◌≢◌, true, false, some, is_pos, trim_space, split_dot-join, invalid_grant, ok, err,
  arith, ◌==◌, string_eq,
}
use opendesk_remote.Signing.{Codec, IsCodec}
use opendesk_remote.RelayGrant.Types.{TokenPayload}
use opendesk_remote.RelayGrant.Token.{sign, parse}

-- The fields that `parse` insists on.
abbrev pub IsComplete : TokenPayload → Type 0
IsComplete p =
    ((trim_space p.grant_id == "") ≡ false)
    × ((trim_space p.nonce == "") ≡ false)
    × (is_pos p.expires_at ≡ true)

module _ (c : Codec TokenPayload) (laws : IsCodec c) (key : c.Bytes) where
  open c use {Bytes, bytes_of, encode, decode, mac, marshal, unmarshal}

  -- A token that `sign` makes of a complete payload, which `encoding/json` reads back, parses under
  -- the same key to that payload.
  pub parse-sign :
      (p : TokenPayload) (raw : Bytes) (token : String)
      → IsComplete p
      → marshal p ≡ some raw
      → unmarshal raw ≡ some p
      → sign c key p ≡ ok token
      → parse c key token ≡ ok p
  unfolding sign parse
  parse-sign p raw token complete m u s =
      let encoded = encode raw in
      let tag = mac key (bytes_of encoded) in
      ground (
        arith,
        split_dot-join encoded (encode tag) (laws.encode_plain raw) (laws.encode_plain tag),
        laws.decode-encode raw,
        laws.decode-encode tag,
        laws.equal_iff tag tag,
      )

  -- A token signed under one key is refused under any other key that gives its text another tag.
  pub parse-other_key :
      (other : Bytes) (p : TokenPayload) (raw : Bytes) (token : String)
      → marshal p ≡ some raw
      → sign c other p ≡ ok token
      → mac key (bytes_of (encode raw)) ≢ mac other (bytes_of (encode raw))
      → parse c key token ≡ err invalid_grant
  unfolding sign parse
  parse-other_key other p raw token m s differ =
      let encoded = encode raw in
      let tag = mac other (bytes_of encoded) in
      ground (
        arith,
        split_dot-join encoded (encode tag) (laws.encode_plain raw) (laws.encode_plain tag),
        laws.decode-encode raw,
        laws.decode-encode tag,
        laws.equal_iff (mac key (bytes_of encoded)) tag,
      )
