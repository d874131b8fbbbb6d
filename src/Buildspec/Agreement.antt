-- ===== src/Buildspec/Agreement.antt =====
-- Where the API's check of a specification and the builder's differ.
use opendesk_remote.Prelude.{
  String, ◌≡◌, Bool, true, false, not, ◌&&◌, ◌||◌, trim_space, Result, ok, err, passed, arith, ◌==◌,
  string_eq,
}
use opendesk_remote.Buildspec.{
  AppSpec, BuildSpec, Spec, CliSource, relay_grant_required, cli_relay_grant_required, any_platform,
  servers_missing, validate, cli_validate,
}

-- A specification of the API as the builder reads it, with an `app` and a source of its own.
abbrev pub cli_spec : BuildSpec → AppSpec → CliSource → Spec
cli_spec s app source = record {
  app = app;
  branding = s.branding;
  server = s.server;
  policy = s.policy;
  platforms = s.platforms;
  signing = s.signing;
  source = source;
}

abbrev pub accepted : Result (Unit {0}) → Bool
accepted (ok u) = true
accepted (err e) = false

-- Of a specification that the API takes, the builder takes it with its own `app` and source exactly
-- when the trimmed name is neither blank nor RustDesk in any spelling, the vendor is not blank, a relay
-- name that is required is not blank, and a patch set is named.
pub validate-cli_validate :
    (is_bundle_id : String → Bool) (equal_fold : String → String → Bool) (s : BuildSpec)
    (app : AppSpec) (source : CliSource)
    → app.bundle_id ≡ s.app.bundle_id
    → validate is_bundle_id s ≡ ok tt
    → accepted (cli_validate is_bundle_id equal_fold (cli_spec s app source)) ≡ (
        not (
          trim_space app.name == ""
          || equal_fold (trim_space app.name) "rustdesk"
          || trim_space app.vendor == "")
        && not (relay_grant_required s && trim_space s.server.relay_name == "")
        && not (source.opendesk_patchset == ""))
unfolding validate cli_validate relay_grant_required cli_relay_grant_required
validate-cli_validate is_bundle_id equal_fold s app source same valid =
    let after_name =
      passed (s.app.name == "RustDesk") _ _ (passed (s.app.name == "") _ _ valid).1 in
    let bundle = passed (not (is_bundle_id s.app.bundle_id)) _ _ after_name.1 in
    let servers = passed (servers_missing s.server) _ _ bundle.1 in
    let relay = passed (relay_grant_required s && s.server.relay_name == "") _ _ servers.1 in
    let platforms = passed (not (any_platform s.platforms)) _ _ relay.1 in
    let ios = passed (s.platforms.ios_arm64 && s.signing.ios == "") _ _ platforms.1 in
    rw same (rw bundle.0 (rw servers.0 (rw platforms.0 (rw ios.0 (ground arith)))))
