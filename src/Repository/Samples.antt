-- ===== src/Repository/Samples.antt =====
-- A concrete state, for tests.
use opendesk_remote.Prelude.{String, ℤ, pos, none, [], ◌∷◌}
use opendesk_remote.Models.Accounts.{Session}
use opendesk_remote.Models.Builds.{BuildJob}
use opendesk_remote.Repository.{Memory}

abbrev pub job : ℤ → String → BuildJob
job id status = record {
  id = id;
  profile_id = pos 1;
  platform = "linux";
  status = status;
  runner = "";
  log_path = "";
  error_message = "";
  created_at = 1;
  started_at = none;
  finished_at = none;
}

abbrev pub session : Session
session = record {
  id = pos 7;
  user_id = pos 1;
  token_hash = "hash";
  ip = "";
  user_agent = "";
  expires_at = 100;
  created_at = 1;
  revoked_at = none;
}

abbrev pub memory : Memory
memory = record {
  next_id = pos 10;
  users = [];
  api_tokens = [];
  sessions = session ∷ [];
  user_groups = [];
  devices = [];
  device_groups = [];
  address_books = [];
  relays = [];
  relay_grants = [];
  access_rules = [];
  control_roles = [];
  strategies = [];
  audit_events = [];
  login_logs = [];
  connection_logs = [];
  file_transfers = [];
  settings = [];
  build_profiles = [];
  build_jobs = job (pos 2) "running" ∷ job (pos 3) "queued" ∷ [];
  build_artifacts = [];
}
