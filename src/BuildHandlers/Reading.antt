-- ===== src/BuildHandlers/Reading.antt =====
-- What the builder is to read of a profile, and what is relied on of JSON for it.
use opendesk_remote.Prelude.{
  String, ◌≡◌, Bool, true, false, Option, none, some, [], ◌∷◌, trim_space, ok, ◌==◌, string_eq,
  if◌then◌else◌,
}
use opendesk_remote.Prelude.Dict.{Dict}
use opendesk_remote.Buildspec.{
  AppSpec, BuildSpec, BrandingSpec, ServerSpec, PolicySpec, PlatformSpec, SigningSpec, SourceSpec,
  CliSource, Spec,
}
use opendesk_remote.Worker.Spec.{CliBuildSpec, Json}
use opendesk_remote.BuildHandlers.Profiles.{Coding}

-- json.Unmarshal of the builder: of a document, and of each of its parts.
pub record Reader : Type 0 where
  pub load : String → Option Spec
  pub branding : String → Option BrandingSpec
  pub server : String → Option ServerSpec
  pub policy : String → Option PolicySpec
  pub platforms : String → Option PlatformSpec
  pub signing : String → Option SigningSpec
  pub source : String → Option CliSource

-- The object that a part is encoded to, under the names of its tags; a flag that is nil is left out.
abbrev pub flag_entry : (json : Json) → Option Bool → Dict json.Value
flag_entry json none = []
flag_entry json (some required) = ("relay_grant_required", json.truth required) ∷ []

abbrev pub server_object : (json : Json) → ServerSpec → Dict json.Value
server_object json server =
    ("id_server", json.text server.id_server)
    ∷ ("relay_server", json.text server.relay_server)
    ∷ ("relay_name", json.text server.relay_name)
    ∷ ("api_server", json.text server.api_server)
    ∷ ("key", json.text server.key)
    ∷ ("websocket", json.truth server.web_socket)
    ∷ flag_entry json server.relay_grant_required

abbrev pub source_object : (json : Json) → CliSource → Dict json.Value
source_object json source =
    ("rustdesk_ref", json.text source.rustdesk_ref)
    ∷ ("opendesk_patchset", json.text source.opendesk_patchset)
    ∷ []

-- A flag that is not set counts as set.
abbrev pub told : Option Bool → Bool
told none = true
told (some required) = required

abbrev pub server_told : ServerSpec → ServerSpec
server_told server = record server {
  relay_grant_required = some (told server.relay_grant_required);
}

abbrev pub app_handed : BuildSpec → AppSpec
app_handed s = record {
  name = s.app.name;
  vendor = if s.app.vendor == "" then "OpenDesk" else s.app.vendor;
  bundle_id = s.app.bundle_id;
  windows_product_name =
      if s.app.windows_product_name == "" then s.app.name else s.app.windows_product_name;
  description = s.app.description;
}

-- The reference, or else the tag, and `master` without either; the patch set, or the default one.
abbrev pub source_handed : SourceSpec → CliSource
source_handed source =
    let named = if source.rustdesk_ref == "" then source.rustdesk_tag else source.rustdesk_ref in
    record {
      rustdesk_ref = if trim_space named == "" then "master" else named;
      opendesk_patchset =
          if trim_space source.opendesk_patchset == ""
          then "opendesk-remote-m4"
          else source.opendesk_patchset;
    }

-- What the builder is to read.
abbrev pub handed : BuildSpec → Spec
handed s = record {
  app = app_handed s;
  branding = s.branding;
  server = server_told s.server;
  policy = s.policy;
  platforms = s.platforms;
  signing = s.signing;
  source = source_handed s.source;
}

-- What is relied on of JSON for the parts of a specification: a part that was encoded is read back, an
-- object is read back key by key, and the parts of a document are read as they are alone.
pub record Reads (coding : Coding) (json : Json) (reader : Reader) (s : BuildSpec) : Type 0 where
  pub branding :
      (raw : String)
      → coding.branding s.branding ≡ ok raw
      → ((raw == "") ≡ false) × (reader.branding raw ≡ some s.branding)
  pub policy :
      (raw : String)
      → coding.policy s.policy ≡ ok raw
      → ((raw == "") ≡ false) × (reader.policy raw ≡ some s.policy)
  pub platforms :
      (raw : String)
      → coding.platforms s.platforms ≡ ok raw
      → ((raw == "") ≡ false) × (reader.platforms raw ≡ some s.platforms)
  pub signing :
      (raw : String)
      → coding.signing s.signing ≡ ok raw
      → ((raw == "") ≡ false) × (reader.signing raw ≡ some s.signing)
  pub server_encoded :
      (raw : String)
      → coding.server s.server ≡ ok raw
      → ((raw == "") ≡ false) × (json.unmarshal raw ≡ ok (server_object json s.server))
  pub server :
      (raw : String)
      → json.marshal (server_object json (server_told s.server)) ≡ ok raw
      → reader.server raw ≡ some (server_told s.server)
  pub source_encoded :
      (raw : String)
      → coding.source (source_handed s.source) ≡ ok raw
      → ((raw == "") ≡ false)
        × (json.unmarshal raw ≡ ok (source_object json (source_handed s.source)))
  pub source :
      (raw : String)
      → json.marshal (source_object json (source_handed s.source)) ≡ ok raw
      → reader.source raw ≡ some (source_handed s.source)
  pub load :
      (doc : CliBuildSpec) (raw : String)
      → json.marshal_spec doc ≡ ok raw
      → doc.app ≡ (handed s).app
      → reader.branding doc.branding ≡ some (handed s).branding
      → reader.server doc.server ≡ some (handed s).server
      → reader.policy doc.policy ≡ some (handed s).policy
      → reader.platforms doc.platforms ≡ some (handed s).platforms
      → reader.signing doc.signing ≡ some (handed s).signing
      → reader.source doc.source ≡ some (handed s).source
      → reader.load raw ≡ some (handed s)
