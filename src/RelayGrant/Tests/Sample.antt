-- ===== src/RelayGrant/Tests/Sample.antt =====
-- A codec of two byte sequences, one payload, and the service over them.
use opendesk_remote.Prelude.{
  ◌+◌, ◌*◌, ◌≡◌, ◌↔◌, ◌&&◌, refl, sym, Bool-cases, ap, inl, inr, String, ℤ, pos, Bool, true, false,
  Option, none, some, List, [], ◌∷◌, Time, second, minute, has_dot, has_blank, is_space, ◌==◌,
  string_eq, int_has_eq, int_eq_iff, eq_iff, arith, if◌then◌else◌,
}
use opendesk_remote.Prelude.Dict.{lookup}
use opendesk_remote.Signing.{Codec, IsCodec}
use opendesk_remote.RelayGrant.Types.{
  IssueRequest, IssueResponse, ValidateRequest, Grant, TokenPayload, issued,
}
use opendesk_remote.RelayGrant.State.{Service, State}
use opendesk_remote.RelayGrant.State.Updates.{IsKeyed}

pub data Blob : Type 0 where
  blob_a blob_b : Blob

abbrev pub now : Time
now = 64_000_000_000 * second

abbrev pub payload : TokenPayload
payload = record {
  grant_id = "rg_a";
  user_id = some (pos 1);
  controller_device_id = none;
  target_device_id = some (pos 2);
  target_rustdesk_id = "";
  relay_id = none;
  allowed_relays = "relay-a" ∷ [];
  expires_at = pos 1_864_403_320;
  nonce = "nonce_b";
}

abbrev encode_blob : Blob → String
encode_blob blob_a = "a"
encode_blob blob_b = "b"

abbrev decode_blob : String → Option Blob
decode_blob s = if s == "a" then some blob_a else if s == "b" then some blob_b else none

abbrev equal_blob : Blob → Blob → Bool
equal_blob blob_a blob_a = true
equal_blob blob_b blob_b = true
equal_blob _ _ = false

abbrev option_eq : Option ℤ → Option ℤ → Bool
option_eq none none = true
option_eq (some a) (some b) = a == b
option_eq _ _ = false

abbrev list_eq : List String → List String → Bool
list_eq [] [] = true
list_eq (x ∷ xs) (y ∷ ys) = x == y && list_eq xs ys
list_eq _ _ = false

abbrev is_payload : TokenPayload → Bool
is_payload p =
    p.grant_id == "rg_a"
    && option_eq p.user_id (some (pos 1))
    && option_eq p.controller_device_id none
    && option_eq p.target_device_id (some (pos 2))
    && p.target_rustdesk_id == ""
    && option_eq p.relay_id none
    && list_eq p.allowed_relays ("relay-a" ∷ [])
    && p.expires_at == pos 1_864_403_320
    && p.nonce == "nonce_b"

abbrev pub codec : Codec TokenPayload
codec = record {
  Bytes = Blob;
  bytes_of = λ s. blob_a;
  encode = encode_blob;
  decode = decode_blob;
  mac = λ key bytes. key;
  equal = equal_blob;
  marshal = λ p. if is_payload p then some blob_a else none;
  unmarshal = λ b. elim b [ blob_a ↦ some payload | blob_b ↦ none ];
}

equal_blob_iff : (a b : Blob) → (equal_blob a b ≡ true) ↔ (a ≡ b)
equal_blob_iff blob_a blob_a = ground arith
equal_blob_iff blob_a blob_b = ground arith
equal_blob_iff blob_b blob_a = ground arith
equal_blob_iff blob_b blob_b = ground arith

decode-encode_blob : (b : Blob) → decode_blob (encode_blob b) ≡ some b
decode-encode_blob blob_a = refl
decode-encode_blob blob_b = refl

encode_blob-plain :
    (b : Blob) → (has_dot (encode_blob b) ≡ false) × (has_blank (encode_blob b) ≡ false)
unfolding has_dot has_blank is_space
encode_blob-plain blob_a = (refl, refl)
encode_blob-plain blob_b = (refl, refl)

pub codec-IsCodec : IsCodec codec
codec-IsCodec = record {
  decode-encode = decode-encode_blob;
  encode_plain = λ b. (encode_blob-plain b).0;
  encode_unblank = λ b. (encode_blob-plain b).1;
  equal_iff = equal_blob_iff;
}

option_eq-some : (o : Option ℤ) (b : ℤ) → option_eq o (some b) ≡ true → o ≡ some b
option_eq-some none b e = absurd (ground arith)
option_eq-some (some a) b e = ap some ((int_eq_iff a b).0 e)

option_eq-none : (o : Option ℤ) → option_eq o none ≡ true → o ≡ none
option_eq-none none e = refl
option_eq-none (some a) e = absurd (ground arith)

list_eq_one : (xs : List String) (y : String) → list_eq xs (y ∷ []) ≡ true → xs ≡ y ∷ []
list_eq_one [] y e = absurd (ground arith)
list_eq_one (x ∷ []) y e = ground (arith, eq_iff x y)
list_eq_one (x ∷ z ∷ zs) y e = absurd (ground arith)

is_payload-payload : (p : TokenPayload) → is_payload p ≡ true → p ≡ payload
is_payload-payload p e = ground (
  arith,
  eq_iff p.grant_id "rg_a",
  option_eq-some p.user_id (pos 1),
  option_eq-none p.controller_device_id,
  option_eq-some p.target_device_id (pos 2),
  eq_iff p.target_rustdesk_id "",
  option_eq-none p.relay_id,
  list_eq_one p.allowed_relays "relay-a",
  int_eq_iff p.expires_at (pos 1_864_403_320),
  eq_iff p.nonce "nonce_b",
)

-- The codec reads back what it wrote.
pub reads_back :
    (p : TokenPayload) (raw : Blob) → codec.marshal p ≡ some raw → codec.unmarshal raw ≡ some p
reads_back p blob_a e = elim (Bool-cases (is_payload p)) [
  | inl hit ↦ ap some (sym (is_payload-payload p hit))
  | inr miss ↦ absurd (ground (arith, miss, e))
]
reads_back p blob_b e = absurd (ground (arith, e))

abbrev pub service : Service codec Unit
service = record { key = blob_a; default_ttl = pos (2 * minute); store = none }

abbrev pub start : State Unit
start = record { grants = []; stored = tt }

abbrev pub request : IssueRequest
request = record {
  user_id = some (pos 1);
  controller_device_id = none;
  target_device_id = some (pos 2);
  target_rustdesk_id = "";
  relay_id = none;
  allowed_relays = "relay-a" ∷ [];
  ttl_seconds = pos 120;
  authenticated = true;
}

abbrev pub response : IssueResponse
response = record { grant_id = "rg_a"; token = "a.a"; expires_at = now + 120 * second }

abbrev pub grant : Grant
grant = record {
  grant_id = "rg_a";
  user_id = some (pos 1);
  controller_device_id = none;
  target_device_id = some (pos 2);
  target_rustdesk_id = "";
  relay_id = none;
  allowed_relays = "relay-a" ∷ [];
  expires_at = now + 120 * second;
  nonce = "nonce_b";
  status = issued;
  created_at = now;
  used_at = none;
}

abbrev pub holding : State Unit
holding = record { grants = ("rg_a", grant) ∷ []; stored = tt }

pub start-IsKeyed : IsKeyed start
unfolding lookup
start-IsKeyed = record { at_id = λ id g e. absurd (ground arith) }

pub holding-IsKeyed : IsKeyed holding
unfolding lookup
holding-IsKeyed = record { at_id = λ id g e. ground (arith, eq_iff "rg_a" id) }

abbrev pub check : ValidateRequest
check = record {
  token = "a.a";
  relay = "relay-a";
  target_device_id = some (pos 2);
  target_rustdesk_id = "";
}
