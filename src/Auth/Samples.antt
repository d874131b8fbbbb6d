-- ===== src/Auth/Samples.antt =====
-- A codec that signs with the key itself, one user and a session.
use opendesk_remote.Prelude.{◌*◌, String, pos, false, none, some, [], ◌∷◌, minute, ◌==◌, string_eq}
use opendesk_remote.Signing.{Codec}
use opendesk_remote.Models.Accounts.{User, Session}
use opendesk_remote.Repository.{Memory}
use opendesk_remote.Repository.Accounts.{Casing}
use opendesk_remote.Auth.{Claims, Principal, Platform, Service}
use opendesk_remote.Auth.Store.{memory_service}
use opendesk_remote.Auth.Authenticate.Soundness.{principal_of}

abbrev pub user : User
user = record {
  id = pos 1;
  email = "ann@example.com";
  username = "ann";
  display_name = "Ann";
  password_hash = "secret";
  status = "active";
  mfa_enabled = false;
  source = "local";
  created_at = 1;
  updated_at = 1;
  last_login_at = none;
}

abbrev pub claims : Claims
claims = record {
  user_id = pos 1;
  email = "ann@example.com";
  role = "admin";
  issued_at = pos 1;
  expires_at = pos 900;
  nonce = "sess_n";
}

abbrev pub codec : Codec Claims
codec = record {
  Bytes = String;
  bytes_of = λ s. s;
  encode = λ s. s;
  decode = some;
  mac = λ key bytes. key;
  equal = λ a b. a == b;
  marshal = λ p. some "claims";
  unmarshal = λ raw. some claims;
}

abbrev pub platform : Platform codec
platform = record {
  hex = λ s. s;
  verify_password = λ hash password. hash == password;
  to_lower = λ s. s;
  equal_fold = λ a b. a == b;
  fields = λ s. s ∷ [];
}

abbrev pub casing : Casing
casing = record { to_lower = λ s. s; equal_fold = λ a b. a == b }

abbrev pub stored : Session
stored = record {
  id = pos 7;
  user_id = pos 1;
  token_hash = "key";
  ip = "";
  user_agent = "";
  expires_at = 1_000;
  created_at = 1;
  revoked_at = none;
}

abbrev pub memory : Memory
memory = record {
  next_id = pos 10;
  users = user ∷ [];
  api_tokens = [];
  sessions = stored ∷ [];
  user_groups = [];
  devices = [];
  device_groups = [];
  address_books = [];
  relays = [];
  relay_grants = [];
  access_rules = [];
  control_roles = [];
  strategies = [];
  audit_events = [];
  login_logs = [];
  connection_logs = [];
  file_transfers = [];
  settings = [];
  build_profiles = [];
  build_jobs = [];
  build_artifacts = [];
}

abbrev pub service : Service codec Memory
service = memory_service codec casing "key" (pos (15 * minute))

abbrev pub principal : Principal
principal = principal_of "claims.key" claims stored user
