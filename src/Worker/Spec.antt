-- ===== src/Worker/Spec.antt =====
-- `buildSpecJSON` of api/internal/buildworker/buildspec.go: the specification that the builder reads,
-- from the columns of a profile. The encoding of JSON is a parameter.
use opendesk_remote.Prelude.{
  String, Bool, true, Option, none, some, List, [], ◌∷◌, Result, ok, ◌>>=◌, ◌==◌, string_eq,
  if◌then◌else◌,
}
use opendesk_remote.Prelude.Dict.{Dict, lookup, insert}
use opendesk_remote.Models.Builds.{BuildProfile}
use opendesk_remote.Buildspec.{AppSpec}

pub record CliBuildSpec : Type 0 where
  pub app : AppSpec
  pub branding : String
  pub server : String
  pub policy : String
  pub platforms : String
  pub signing : String
  pub source : String

-- Objects as a `map[string]any`, and the document of a specification.
pub record Json : Type 1 where
  pub Value : Type 0
  pub text : String → Value
  pub truth : Bool → Value
  pub unmarshal : String → Result (Dict Value)
  pub marshal : Dict Value → Result String
  pub marshal_spec : CliBuildSpec → Result String

-- A key that is missing gets its default; Go visits the defaults, whose keys differ, in any order.
fill {ℓ} : {A : Type ℓ} → Option A → String → A → Dict A → Dict A
fill (some old) key value values = values
fill none key value values = insert key value values

unfoldable pub filled {ℓ} : {A : Type ℓ} → List (String × A) → Dict A → Dict A
unfolding fill
filled [] values = values
filled ((key, value) ∷ defaults) values =
    filled defaults (fill (lookup key values) key value values)

unfoldable pub raw_object : String → String
raw_object raw = if raw == "" then "{}" else raw

-- The builder's `app`, with the defaults for the vendor and the product.
unfoldable pub cli_app : BuildProfile → AppSpec
cli_app profile = record {
  name = profile.app_name;
  vendor = if profile.vendor == "" then "OpenDesk" else profile.vendor;
  bundle_id = profile.bundle_id;
  windows_product_name =
      if profile.product_name == "" then profile.app_name else profile.product_name;
  description = profile.description;
}

module _ (json : Json) where
  unfoldable pub object_with_defaults : String → List (String × json.Value) → Result String
  unfolding filled
  object_with_defaults raw defaults = do
    values ← if raw == "" then ok [] else json.unmarshal raw
    json.marshal (filled defaults values)

  unfoldable pub build_spec_json : BuildProfile → Result String
  unfolding object_with_defaults cli_app raw_object
  build_spec_json profile = do
    server ←
        object_with_defaults profile.server_config_json (
          ("relay_name", json.text "hbbr-relay-a") ∷ ("relay_grant_required", json.truth true) ∷ [])
    source ← object_with_defaults profile.source_json (
        ("rustdesk_ref", json.text "master")
        ∷ ("opendesk_patchset", json.text "opendesk-remote-m4")
        ∷ [])
    json.marshal_spec (record {
      app = cli_app profile;
      branding = raw_object profile.branding_json;
      server = server;
      policy = raw_object profile.policy_json;
      platforms = raw_object profile.platforms_json;
      signing = raw_object profile.signing_json;
      source = source;
    })
