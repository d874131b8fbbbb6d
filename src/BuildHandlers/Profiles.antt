-- ===== src/BuildHandlers/Profiles.antt =====
-- Build profiles: `Profiles`, `ProfileItem` and `profileFromSpec` of builds/handler.go. json.Marshal of
-- each part of a specification is a parameter.
pub mod Links
use opendesk_remote.Prelude.{
  String, ℤ, pos, Bool, true, not, Option, none, some, Time, List, [], ◌∷◌, trim_space, Error,
  is_not_found, not_found, conflict, message, Result, ok, err, ◌==◌, string_eq, if◌then◌else◌,
  ◌>>=◌,
}
use opendesk_remote.Models.Values.{text}
use opendesk_remote.Models.Builds.{BuildProfile}
use opendesk_remote.Auth.{Principal}
use opendesk_remote.Repository.{Memory}
use opendesk_remote.Repository.Builds.{
  create_build_profile, find_build_profile, update_build_profile, delete_build_profile,
}
use opendesk_remote.Buildspec.{
  BuildSpec, ServerSpec, BrandingSpec, PolicySpec, PlatformSpec, SigningSpec, SourceSpec, CliSource,
  ref, validate,
}
use opendesk_remote.Http.{Reply, done, failed, Visit, Event, audited}
use opendesk_remote.PolicyHandlers.{Printing}

pub record Coding : Type 0 where
  pub server : ServerSpec → Result String
  pub branding : BrandingSpec → Result String
  pub policy : PolicySpec → Result String
  pub platforms : PlatformSpec → Result String
  pub signing : SigningSpec → Result String
  pub source : CliSource → Result String
  -- json.Unmarshal of the platforms
  pub decode_platforms : String → Option PlatformSpec

pub record CreateProfileRequest : Type 0 where
  pub name : String
  pub build_spec : BuildSpec

unfoldable pub normalized_source : SourceSpec → CliSource
unfolding ref
normalized_source source = record {
  rustdesk_ref = if trim_space (ref source) == "" then "master" else ref source;
  opendesk_patchset =
      if trim_space source.opendesk_patchset == ""
      then "opendesk-remote-m4"
      else source.opendesk_patchset;
}

module _ (coding : Coding) where
  unfoldable pub profile_from_spec : String → BuildSpec → ℤ → Result BuildProfile
  unfolding normalized_source
  profile_from_spec name spec created_by = do
    server ← coding.server spec.server
    branding ← coding.branding spec.branding
    policy ← coding.policy spec.policy
    platforms ← coding.platforms spec.platforms
    signing ← coding.signing spec.signing
    source ← coding.source (normalized_source spec.source)
    ok (record {
      id = pos 0;
      name = trim_space name;
      app_name = spec.app.name;
      vendor = spec.app.vendor;
      bundle_id = spec.app.bundle_id;
      product_name = spec.app.windows_product_name;
      description = spec.app.description;
      server_config_json = server;
      branding_json = branding;
      policy_json = policy;
      platforms_json = platforms;
      signing_json = signing;
      source_json = source;
      created_by = created_by;
      created_at = 0;
      updated_at = 0;
    })

unfoldable pub profile_name : CreateProfileRequest → String
profile_name req = if trim_space req.name == "" then req.build_spec.app.name else req.name

profile_event : Printing → String → BuildProfile → Event
profile_event printing action profile = record {
  action = action;
  resource_type = "build_profile";
  resource_id = printing.show profile.id;
  metadata =
      ("name", text profile.name)
      ∷ ("app_name", text profile.app_name)
      ∷ ("vendor", text profile.vendor)
      ∷ [];
}

-- What both handlers that write a profile check first: the body, the specification, the session and
-- the encoding. `write` is the rest.
module _ (coding : Coding) (is_bundle_id : String → Bool) (printing : Printing)
    (visit : Visit) where
  module _ (write : BuildProfile → Memory × Reply BuildProfile) (m : Memory) where
    on_profile : Result BuildProfile → Memory × Reply BuildProfile
    on_profile (err e) = (m, failed 400 "INVALID_BUILD_SPEC" (printing.text_of e))
    on_profile (ok profile) = write profile

    on_session : CreateProfileRequest → Option Principal → Memory × Reply BuildProfile
    unfolding on_profile profile_name
    on_session req none = (m, failed 401 "UNAUTHENTICATED" "authentication is required")
    on_session req (some session) =
        on_profile (profile_from_spec coding (profile_name req) req.build_spec session.user.id)

    on_spec : CreateProfileRequest → Result (Unit {0}) → Memory × Reply BuildProfile
    unfolding on_session
    on_spec req (err e) = (m, failed 400 "INVALID_BUILD_SPEC" (printing.text_of e))
    on_spec req (ok u) = on_session req visit.session

    on_request : Option CreateProfileRequest → Memory × Reply BuildProfile
    unfolding on_spec
    on_request none = (m, failed 400 "INVALID_JSON" "invalid JSON body")
    on_request (some req) = on_spec req (validate is_bundle_id req.build_spec)

  profile_created : Time → Memory × Result BuildProfile → Memory × Reply BuildProfile
  unfolding profile_event
  profile_created logged (m, err e) = (m, failed 400 "INVALID_BUILD_PROFILE" (printing.text_of e))
  profile_created logged (m, ok profile) =
      audited visit logged (profile_event printing "create_build_profile" profile)
        "failed to record build profile creation" (done 201 profile) m

  unfoldable pub post_profile :
      Memory → Time → Time → Option CreateProfileRequest → Memory × Reply BuildProfile
  unfolding on_request profile_created
  post_profile m now logged req =
      on_request (λ profile. profile_created logged (create_build_profile m now profile)) m req

  profile_updated : Time → Memory × Result BuildProfile → Memory × Reply BuildProfile
  unfolding profile_event
  profile_updated logged (m, err e) = (
    m,
    if is_not_found e
        then failed 404 "BUILD_PROFILE_NOT_FOUND" "build profile not found"
        else failed 400 "INVALID_BUILD_PROFILE" (printing.text_of e),
  )
  profile_updated logged (m, ok profile) =
      audited visit logged (profile_event printing "update_build_profile" profile)
        "failed to record build profile update" (done 200 profile) m

  unfoldable pub put_profile :
      Memory → Time → Time → ℤ → Option CreateProfileRequest → Memory × Reply BuildProfile
  unfolding on_request profile_updated
  put_profile m now logged id req =
      on_request (λ profile. profile_updated logged (update_build_profile m now id profile)) m req

deletion_failed : Error → Reply Bool
deletion_failed not_found = failed 404 "BUILD_PROFILE_NOT_FOUND" "build profile not found"
deletion_failed conflict =
    failed 409 "BUILD_PROFILE_HAS_JOBS" "build profile has build jobs and cannot be deleted"
deletion_failed _ = failed 500 "DELETE_BUILD_PROFILE_FAILED" "delete build profile failed"

module _ (printing : Printing) (visit : Visit) where
  profile_deleted : Time → ℤ → Memory × Result (Unit {0}) → Memory × Reply Bool
  unfolding deletion_failed
  profile_deleted logged id (m, err e) = (m, deletion_failed e)
  profile_deleted logged id (m, ok u) =
      audited visit logged
        (record {
          action = "delete_build_profile";
          resource_type = "build_profile";
          resource_id = printing.show id;
          metadata = [];
        })
        "failed to record build profile deletion" (done 200 true) m

  unfoldable pub delete_profile : Memory → Time → ℤ → Memory × Reply Bool
  unfolding profile_deleted
  delete_profile m logged id = profile_deleted logged id (delete_build_profile m id)

profile_loaded : Result BuildProfile → Reply BuildProfile
profile_loaded (err e) =
    if is_not_found e
    then failed 404 "BUILD_PROFILE_NOT_FOUND" "build profile not found"
    else failed 500 "LOAD_BUILD_PROFILE_FAILED" "load build profile failed"
profile_loaded (ok profile) = done 200 profile

unfoldable pub get_profile : Memory → ℤ → Reply BuildProfile
unfolding profile_loaded
get_profile m id = profile_loaded (find_build_profile m id)
