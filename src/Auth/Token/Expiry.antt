-- ===== src/Auth/Token/Expiry.antt =====
-- What `ParseToken` accepts as time passes.
use opendesk_remote.Prelude.{
  ◌≤◌, String, ℤ, pos, negsuc, ◌≡◌, refl, false, Option, none, some, List, [], ◌∷◌, Time, unix, ok,
  err, invalid_session, split_dot, int_lt, arith,
}
use opendesk_remote.Signing.{Codec}
use opendesk_remote.Auth.{Claims, Service}
use opendesk_remote.Auth.Token.{check_claims, parse_raw, check_signature, parse_parts, parse_token}

unix_earlier :
    (x : ℤ) (earlier later : Time)
    → earlier ≤ later
    → int_lt x (unix later) ≡ false
    → int_lt x (unix earlier) ≡ false
unix_earlier (pos n) earlier later le h = ground arith
unix_earlier (negsuc n) earlier later le h = ground arith

module _ {c : Codec Claims} {S : Type 0} (svc : Service c S) (earlier later : Time)
    (le : earlier ≤ later) (claims : Claims) where
  check_claims_earlier :
      (o : Option Claims)
      → check_claims svc later o ≡ ok claims
      → check_claims svc earlier o ≡ ok claims
  unfolding check_claims
  check_claims_earlier none h = absurd (ground arith)
  check_claims_earlier (some p) h = ground (arith, unix_earlier p.expires_at earlier later le)

  parse_raw_earlier :
      (o : Option c.Bytes) → parse_raw svc later o ≡ ok claims → parse_raw svc earlier o ≡ ok claims
  unfolding parse_raw
  parse_raw_earlier none h = absurd (ground arith)
  parse_raw_earlier (some raw) h = check_claims_earlier (c.unmarshal raw) h

  check_signature_earlier :
      (encoded : String) (o : Option c.Bytes)
      → check_signature svc later encoded o ≡ ok claims
      → check_signature svc earlier encoded o ≡ ok claims
  unfolding check_signature
  check_signature_earlier encoded none h = absurd (ground arith)
  check_signature_earlier encoded (some got) h =
      ground (arith, parse_raw_earlier (c.decode encoded))

  parse_parts_earlier :
      (parts : List String)
      → parse_parts svc later parts ≡ ok claims
      → parse_parts svc earlier parts ≡ ok claims
  unfolding parse_parts
  parse_parts_earlier [] h = absurd (ground arith)
  parse_parts_earlier (x ∷ []) h = absurd (ground arith)
  parse_parts_earlier (x ∷ y ∷ []) h = check_signature_earlier x (c.decode y) h
  parse_parts_earlier (x ∷ y ∷ z ∷ zs) h = absurd (ground arith)

  -- A token that parses later parses now.
  pub parse_token_earlier :
      (token : String)
      → parse_token svc later token ≡ ok claims
      → parse_token svc earlier token ≡ ok claims
  unfolding parse_token
  parse_token_earlier token h = parse_parts_earlier (split_dot token) h

pub parse_token_empty :
    {c : Codec Claims} {S : Type 0} (svc : Service c S) (at : Time)
    → parse_token svc at "" ≡ err invalid_session
unfolding parse_token parse_parts split_dot
parse_token_empty svc at = refl
