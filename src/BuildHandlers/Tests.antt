-- ===== src/BuildHandlers/Tests.antt =====
-- A profile, its specification and its jobs.
use mathlib.Core.Path.{subst}
use opendesk_remote.Prelude.{
  String, Bool, if◌then◌else◌, ◌≡◌, ◌≢◌, ◌⊎◌, refl, pos, none, some, [], ◌∷◌, ok, false, true, not,
  ◌&&◌, ◌||◌, ◌==◌, string_eq, int_has_eq, find_first, trim_space, any,
}
use opendesk_remote.Models.Builds.{BuildJob, BuildProfile}
use opendesk_remote.Repository.{Memory}
use opendesk_remote.Repository.Samples.{memory, job}
use opendesk_remote.Repository.Builds.{queued, started, claim_next_build_job}
use opendesk_remote.Repository.Builds.Jobs.Numbers.{at_id}
use opendesk_remote.Http.{Visit, done, failed}
use opendesk_remote.PolicyHandlers.{Printing}
use opendesk_remote.Buildspec.{BuildSpec, relay_grant_required, validate, cli_validate}
use opendesk_remote.Buildspec.Agreement.{accepted}
use opendesk_remote.BuildHandlers.Profiles.{Coding, profile_from_spec}
use opendesk_remote.BuildHandlers.Profiles.Links.{IsLinked}
use opendesk_remote.BuildHandlers.Agreement.{validate-handed}
use opendesk_remote.BuildHandlers.Reading.{Reader, Reads, handed, server_told, source_handed}
use opendesk_remote.BuildHandlers.Handed.{ok_injective}
use opendesk_remote.Prelude.Dict.{Dict}
use opendesk_remote.Worker.Spec.{Json, build_spec_json}
use opendesk_remote.BuildHandlers.Jobs.{cancel_job}
use opendesk_remote.BuildHandlers.Jobs.Canceled.{withdrawn, cancel_job-alone, cancel_job-claimed}
use opendesk_remote.BuildHandlers.Jobs.Links.{KeepsProfiles, claimed-IsLinked}
use opendesk_remote.BuildHandlers.Jobs.Served.{Call, posts_job, serve, serve-IsLinked}

abbrev printing : Printing
printing = record { show = λ n. "1"; text_of = λ e. "refused" }

abbrev visit : Visit
visit = record {
  session = none;
  forwarded_for = "";
  real_ip = "";
  remote_addr = "10.0.0.1";
  host = none;
  user_agent = "";
}

abbrev spec : BuildSpec
spec = record {
  app = record {
    name = "Desk";
    vendor = "";
    bundle_id = "com.example.desk";
    windows_product_name = "Desk";
    description = "";
  };
  branding = record {
    logo_png = "";
    icon_ico = "";
    icon_icns = "";
    android_adaptive_icon = "";
    ios_app_icon = "";
    tray_icon = "";
    installer_banner = "";
  };
  server = record {
    id_server = "id.example.com";
    relay_server = "relay.example.com";
    relay_name = "a";
    api_server = "api.example.com";
    key = "key";
    web_socket = false;
    relay_grant_required = none;
  };
  policy = record { profile = ""; override_settings = []; default_settings = [] };
  platforms = record {
    windows_x64 = true;
    macos_x64 = false;
    macos_arm64 = false;
    android_arm64 = false;
    ios_arm64 = false;
  };
  signing = record { windows = ""; macos = ""; android = ""; ios = "" };
  source = record { rustdesk_ref = ""; rustdesk_tag = "1.2"; opendesk_patchset = "" };
}

abbrev coding : Coding
coding = record {
  server = λ s. ok "server";
  branding = λ s. ok "branding";
  policy = λ s. ok "policy";
  platforms = λ s. ok "platforms";
  signing = λ s. ok "signing";
  source = λ s. ok "source";
  decode_platforms = λ raw. some spec.platforms;
}

abbrev profile : BuildProfile
profile = record {
  id = pos 0;
  name = "desk";
  app_name = "Desk";
  vendor = "";
  bundle_id = "com.example.desk";
  product_name = "Desk";
  description = "";
  server_config_json = "server";
  branding_json = "branding";
  policy_json = "policy";
  platforms_json = "platforms";
  signing_json = "signing";
  source_json = "source";
  created_by = pos 1;
  created_at = 0;
  updated_at = 0;
}

-- JSON that knows the texts of this profile.
data Value : Type 0 where
  text : String → Value
  truth : Bool → Value

abbrev json : Json
json = record {
  Value = Value;
  text = text;
  truth = truth;
  unmarshal = λ raw. if raw == "server" then ok server_values else ok source_values;
  marshal = λ values. ok "object";
  marshal_spec = λ doc. ok "document";
}
  where
    server_values : Dict Value
    server_values =
        ("id_server", text "id.example.com")
        ∷ ("relay_server", text "relay.example.com")
        ∷ ("relay_name", text "a")
        ∷ ("api_server", text "api.example.com")
        ∷ ("key", text "key")
        ∷ ("websocket", truth false)
        ∷ []

    source_values : Dict Value
    source_values =
        ("rustdesk_ref", text "1.2") ∷ ("opendesk_patchset", text "opendesk-remote-m4") ∷ []

abbrev reader : Reader
reader = record {
  load = λ raw. some (handed spec);
  branding = λ raw. some spec.branding;
  server = λ raw. some (server_told spec.server);
  policy = λ raw. some spec.policy;
  platforms = λ raw. some spec.platforms;
  signing = λ raw. some spec.signing;
  source = λ raw. some (source_handed spec.source);
}

encoded :
    {A : Type 0} (read : String → A) (part : A) (given raw : String)
    → (given == "") ≡ false
    → read given ≡ part
    → ok given ≡ ok raw
    → ((raw == "") ≡ false) × (read raw ≡ part)
encoded read part given raw full reads e =
    subst (λ (t : String). ((t == "") ≡ false) × (read t ≡ part)) (ok_injective given raw e)
      (full, reads)

reads : Reads coding json reader spec
unfolding trim_space
reads = record {
  branding = λ raw e. encoded reader.branding _ "branding" raw refl refl e;
  policy = λ raw e. encoded reader.policy _ "policy" raw refl refl e;
  platforms = λ raw e. encoded reader.platforms _ "platforms" raw refl refl e;
  signing = λ raw e. encoded reader.signing _ "signing" raw refl refl e;
  server_encoded = λ raw e. encoded json.unmarshal _ "server" raw refl refl e;
  server = λ raw e. refl;
  source_encoded = λ raw e. encoded json.unmarshal _ "source" raw refl refl e;
  source = λ raw e. refl;
  load = λ doc raw made app branding server policy platforms signing source. refl;
}

validate-handed_example :
    (reader.load "document" ≡ some (handed spec))
    × (accepted (cli_validate (λ s. true) (λ s t. false) (handed spec)) ≡ (
        not (trim_space spec.app.name == "" || false)
        && (spec.app.vendor == "" || not (trim_space spec.app.vendor == ""))
        && not (relay_grant_required spec && trim_space spec.server.relay_name == "")))
unfolding validate profile_from_spec trim_space build_spec_json
validate-handed_example =
    validate-handed coding json reader (λ s. true) (λ s t. false) " desk" spec (pos 1) profile
      "document" reads refl refl refl

cancel_job-alone_example :
    ((find_first (at_id (pos 3)) memory.build_jobs ≡ none)
      × (cancel_job (λ s. s) memory 9 (pos 3)
          ≡ (memory, failed 404 "BUILD_JOB_NOT_FOUND" "build job not found")))
    ⊎ ((job : BuildJob) × (find_first (at_id (pos 3)) memory.build_jobs ≡ some job)
        × (((job.status ≢ queued)
              × (cancel_job (λ s. s) memory 9 (pos 3) ≡ (
                memory,
                failed 409 "BUILD_JOB_NOT_CANCELABLE" "only queued build jobs can be canceled",
              )))
            ⊎ ((job.status ≡ queued)
                × ((cancel_job (λ s. s) memory 9 (pos 3)).1 ≡ done 200 (withdrawn 9 job))
                × (find_first (at_id (pos 3)) (cancel_job (λ s. s) memory 9 (pos 3)).0.build_jobs
                    ≡ some (withdrawn 9 job)))))
cancel_job-alone_example = cancel_job-alone memory 9 (pos 3)

cancel_job-claimed_example :
    ((claim_next_build_job memory "worker" 8).1 ≡ ok (started "worker" 8 (job (pos 3) "queued")))
    × ((cancel_job (λ s. (claim_next_build_job s "worker" 8).0) memory 9 (pos 3)).1
        ≡ done 200 (withdrawn 9 (started "worker" 8 (job (pos 3) "queued"))))
unfolding find_first
cancel_job-claimed_example =
    cancel_job-claimed memory "worker" 8 9 (job (pos 3) "queued") (refl, (refl, tt)) refl

abbrev profiled : Memory
profiled = record memory { build_profiles = record profile { id = pos 1 } ∷ [] }

abbrev posted : Call
posted =
    posts_job (λ m. (claim_next_build_job m "worker" 5).0) 5 6
      (some (record { profile_id = pos 1; platform = "windows_x64" }))

claim_keeps : KeepsProfiles (λ m. (claim_next_build_job m "worker" 5).0)
unfolding claim_next_build_job
claim_keeps = record { links = λ m h. claimed-IsLinked m "worker" 5 h; profiles = λ m id h. h }

serve-IsLinked_example : IsLinked (serve coding (λ s. true) printing visit profiled posted)
unfolding any
serve-IsLinked_example =
    serve-IsLinked coding (λ s. true) printing visit profiled posted claim_keeps (refl, (refl, tt))
