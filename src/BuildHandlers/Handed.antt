-- ===== src/BuildHandlers/Handed.antt =====
-- What the builder reads of a profile: the columns that the handler writes, the document that the worker
-- makes of them, and the builder's reading of it. JSON is a parameter.
use opendesk_remote.Prelude.{
  String, ℤ, ◌≡◌, refl, sym, ap, ◌∙◌, true, false, Bool-cases, Option-cases, inl, inr, some, List,
  [], ◌∷◌, Result, ok, err, arith, ◌==◌, string_eq, ◌>>=◌,
}
use opendesk_remote.Prelude.Dict.{Dict, lookup, insert}
use opendesk_remote.Models.Builds.{BuildProfile}
use opendesk_remote.Buildspec.{BuildSpec, ServerSpec, SourceSpec, CliSource}
use opendesk_remote.Worker.Spec.{
  Json, filled, raw_object, cli_app, object_with_defaults, build_spec_json,
}
use opendesk_remote.BuildHandlers.Profiles.{Coding, profile_from_spec, normalized_source}
use opendesk_remote.BuildHandlers.Reading.{
  Reader, Reads, server_object, source_object, server_told, app_handed, source_handed, handed,
}

-- The result of the first of two steps, and of the second.
both :
    {A B : Type 0} (r : Result A) (f : A → Result B) (b : B)
    → (r >>= f) ≡ ok b
    → (a : A) × (r ≡ ok a) × (f a ≡ ok b)
both (err e) f b h = absurd (ground (arith, h))
both (ok a) f b h = (a, refl, h)

pub ok_injective : {A : Type 0} (a b : A) → ok a ≡ ok b → a ≡ b
ok_injective a b h = ground (arith, h)

normalized_source-handed : (source : SourceSpec) → normalized_source source ≡ source_handed source
unfolding normalized_source
normalized_source-handed source = elim (Bool-cases (source.rustdesk_ref == "")) [
  | inl empty ↦ rw empty refl
  | inr given ↦ rw given refl
]

-- The columns that the handler writes.
pub record Columns (coding : Coding) (s : BuildSpec) (profile : BuildProfile) : Type 0 where
  pub app_name : profile.app_name ≡ s.app.name
  pub vendor : profile.vendor ≡ s.app.vendor
  pub bundle_id : profile.bundle_id ≡ s.app.bundle_id
  pub product_name : profile.product_name ≡ s.app.windows_product_name
  pub description : profile.description ≡ s.app.description
  pub server : coding.server s.server ≡ ok profile.server_config_json
  pub branding : coding.branding s.branding ≡ ok profile.branding_json
  pub policy : coding.policy s.policy ≡ ok profile.policy_json
  pub platforms : coding.platforms s.platforms ≡ ok profile.platforms_json
  pub signing : coding.signing s.signing ≡ ok profile.signing_json
  pub source : coding.source (source_handed s.source) ≡ ok profile.source_json

pub profile_from_spec-Columns :
    (coding : Coding) (name : String) (s : BuildSpec) (created_by : ℤ) (profile : BuildProfile)
    → profile_from_spec coding name s created_by ≡ ok profile
    → Columns coding s profile
unfolding profile_from_spec
profile_from_spec-Columns coding name s created_by profile made =
    let (server, server_ok, h1) = both (coding.server s.server) _ profile made in
    let (branding, branding_ok, h2) = both (coding.branding s.branding) _ profile h1 in
    let (policy, policy_ok, h3) = both (coding.policy s.policy) _ profile h2 in
    let (platforms, platforms_ok, h4) = both (coding.platforms s.platforms) _ profile h3 in
    let (signing, signing_ok, h5) = both (coding.signing s.signing) _ profile h4 in
    let (source, source_ok, h6) = both (coding.source (normalized_source s.source)) _ profile h5 in
    let same = ok_injective _ profile h6 in
    record {
      app_name = sym (ap (λ (p : BuildProfile). p.app_name) same);
      vendor = sym (ap (λ (p : BuildProfile). p.vendor) same);
      bundle_id = sym (ap (λ (p : BuildProfile). p.bundle_id) same);
      product_name = sym (ap (λ (p : BuildProfile). p.product_name) same);
      description = sym (ap (λ (p : BuildProfile). p.description) same);
      server = server_ok ∙ ap (λ (p : BuildProfile). ok p.server_config_json) same;
      branding = branding_ok ∙ ap (λ (p : BuildProfile). ok p.branding_json) same;
      policy = policy_ok ∙ ap (λ (p : BuildProfile). ok p.policy_json) same;
      platforms = platforms_ok ∙ ap (λ (p : BuildProfile). ok p.platforms_json) same;
      signing = signing_ok ∙ ap (λ (p : BuildProfile). ok p.signing_json) same;
      source =
          ap coding.source (sym (normalized_source-handed s.source))
          ∙ (source_ok ∙ ap (λ (p : BuildProfile). ok p.source_json) same);
    }

abbrev server_defaults : (json : Json) → List (String × json.Value)
server_defaults json =
    ("relay_name", json.text "hbbr-relay-a") ∷ ("relay_grant_required", json.truth true) ∷ []

abbrev source_defaults : (json : Json) → List (String × json.Value)
source_defaults json =
    ("rustdesk_ref", json.text "master")
    ∷ ("opendesk_patchset", json.text "opendesk-remote-m4")
    ∷ []

-- The defaults of the worker: the flag, if it is left out.
filled-server :
    (json : Json) (server : ServerSpec)
    → filled (server_defaults json) (server_object json server)
      ≡ server_object json (server_told server)
unfolding filled lookup insert
filled-server json server = elim (Option-cases server.relay_grant_required) [
  | inl nil ↦ rw nil refl
  | inr (required, given) ↦ rw given refl
]

filled-source :
    (json : Json) (source : CliSource)
    → filled (source_defaults json) (source_object json source) ≡ source_object json source
unfolding filled lookup insert
filled-source json source = refl

object_read :
    (json : Json) (raw out : String) (object : Dict json.Value)
    (defaults : List (String × json.Value))
    → (raw == "") ≡ false
    → json.unmarshal raw ≡ ok object
    → object_with_defaults json raw defaults ≡ ok out
    → json.marshal (filled defaults object) ≡ ok out
unfolding object_with_defaults
object_read json raw out object defaults full decoded h = sym (rw (full, decoded) refl) ∙ h

raw_read : (raw : String) → (raw == "") ≡ false → raw_object raw ≡ raw
unfolding raw_object
raw_read raw full = rw full refl

cli_app-handed :
    (coding : Coding) (s : BuildSpec) (profile : BuildProfile)
    → Columns coding s profile
    → cli_app profile ≡ app_handed s
unfolding cli_app
cli_app-handed coding s profile c =
    rw (c.app_name, c.vendor, c.bundle_id, c.product_name, c.description) refl

-- What the builder reads of the worker's document for a profile that was made of a specification.
pub load-handed :
    (coding : Coding) (json : Json) (reader : Reader) (s : BuildSpec) (profile : BuildProfile)
    (raw : String)
    → Reads coding json reader s
    → Columns coding s profile
    → build_spec_json json profile ≡ ok raw
    → reader.load raw ≡ some (handed s)
unfolding build_spec_json
load-handed coding json reader s profile raw reads c made =
    let (server, server_ok, h1) =
      both (object_with_defaults json profile.server_config_json (server_defaults json)) _ raw
        made in
    let (source, source_ok, h2) =
      both (object_with_defaults json profile.source_json (source_defaults json)) _ raw h1 in
    let (server_full, server_decoded) = reads.server_encoded profile.server_config_json c.server in
    let (source_full, source_decoded) = reads.source_encoded profile.source_json c.source in
    let (branding_full, branding) = reads.branding profile.branding_json c.branding in
    let (policy_full, policy) = reads.policy profile.policy_json c.policy in
    let (platforms_full, platforms) = reads.platforms profile.platforms_json c.platforms in
    let (signing_full, signing) = reads.signing profile.signing_json c.signing in
    reads.load _ raw h2 (cli_app-handed coding s profile c)
      (ap reader.branding (raw_read profile.branding_json branding_full) ∙ branding)
      (reads.server server (
        ap json.marshal (sym (filled-server json s.server))
        ∙ object_read json profile.server_config_json server (server_object json s.server)
            (server_defaults json) server_full server_decoded server_ok))
      (ap reader.policy (raw_read profile.policy_json policy_full) ∙ policy)
      (ap reader.platforms (raw_read profile.platforms_json platforms_full) ∙ platforms)
      (ap reader.signing (raw_read profile.signing_json signing_full) ∙ signing)
      (reads.source source (
        ap json.marshal (sym (filled-source json (source_handed s.source)))
        ∙ object_read json profile.source_json source (source_object json (source_handed s.source))
            (source_defaults json) source_full source_decoded source_ok))
