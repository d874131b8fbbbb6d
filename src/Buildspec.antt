-- ===== src/Buildspec.antt =====
-- The specification of a client build: api/internal/builder/buildspec.go, which the API checks, and
-- builder/internal/buildspec/buildspec.go, which the builder checks before it builds. The matching of
-- a bundle identifier (regexp) and strings.EqualFold are parameters.
pub mod Agreement
use opendesk_remote.Prelude.{
  String, Bool, true, false, not, ◌&&◌, ◌||◌, Option, none, some, List, [], ◌∷◌, ◌++◌, trim_space,
  Error, message, Result, ok, ◌==◌, string_eq, if◌then◌else◌, refuse_if, ◌>>=◌, ◌>>◌,
}
use opendesk_remote.Prelude.Dict.{Dict}

pub record AppSpec : Type 0 where
  pub name : String
  pub vendor : String
  pub bundle_id : String
  pub windows_product_name : String
  pub description : String

pub record BrandingSpec : Type 0 where
  pub logo_png : String
  pub icon_ico : String
  pub icon_icns : String
  pub android_adaptive_icon : String
  pub ios_app_icon : String
  pub tray_icon : String
  pub installer_banner : String

pub record ServerSpec : Type 0 where
  pub id_server : String
  pub relay_server : String
  pub relay_name : String
  pub api_server : String
  pub key : String
  pub web_socket : Bool
  pub relay_grant_required : Option Bool

pub record PolicySpec : Type 0 where
  pub profile : String
  pub override_settings : Dict String
  pub default_settings : Dict String

pub record PlatformSpec : Type 0 where
  pub windows_x64 : Bool
  pub macos_x64 : Bool
  pub macos_arm64 : Bool
  pub android_arm64 : Bool
  pub ios_arm64 : Bool

pub record SigningSpec : Type 0 where
  pub windows : String
  pub macos : String
  pub android : String
  pub ios : String

pub record SourceSpec : Type 0 where
  pub rustdesk_ref : String
  pub rustdesk_tag : String
  pub opendesk_patchset : String

pub record BuildSpec : Type 0 where
  pub app : AppSpec
  pub branding : BrandingSpec
  pub server : ServerSpec
  pub policy : PolicySpec
  pub platforms : PlatformSpec
  pub signing : SigningSpec
  pub source : SourceSpec

-- The builder's own `SourceSpec` and `Spec`; its other records have the fields of the API's.
pub record CliSource : Type 0 where
  pub rustdesk_ref : String
  pub opendesk_patchset : String

pub record Spec : Type 0 where
  pub app : AppSpec
  pub branding : BrandingSpec
  pub server : ServerSpec
  pub policy : PolicySpec
  pub platforms : PlatformSpec
  pub signing : SigningSpec
  pub source : CliSource

unfoldable pub ref : SourceSpec → String
ref source = if not (source.rustdesk_ref == "") then source.rustdesk_ref else source.rustdesk_tag

unfoldable pub grant_required : Option Bool → Bool
grant_required none = true
grant_required (some required) = required

unfoldable pub relay_grant_required : BuildSpec → Bool
unfolding grant_required
relay_grant_required s = grant_required s.server.relay_grant_required

unfoldable pub cli_relay_grant_required : Spec → Bool
unfolding grant_required
cli_relay_grant_required s = grant_required s.server.relay_grant_required

unfoldable pub any_platform : PlatformSpec → Bool
any_platform p = p.windows_x64 || p.macos_x64 || p.macos_arm64 || p.android_arm64 || p.ios_arm64

-- `if enabled { out = append(out, name) }`
unfoldable pub append_if : Bool → String → List String → List String
append_if enabled name out = if enabled then out ++ (name ∷ []) else out

unfoldable pub ordered : PlatformSpec → List String
unfolding append_if
ordered p = append_if p.ios_arm64 "ios_arm64" (
    append_if p.android_arm64 "android_arm64" (
      append_if p.macos_arm64 "macos_arm64"
        (append_if p.macos_x64 "macos_x64" (append_if p.windows_x64 "windows_x64" []))))

servers_missing : ServerSpec → Bool
servers_missing server =
    server.id_server == ""
    || server.relay_server == ""
    || server.api_server == ""
    || server.key == ""

module _ (is_bundle_id : String → Bool) where
  unfoldable pub validate : BuildSpec → Result (Unit {0})
  unfolding relay_grant_required any_platform servers_missing
  validate s = do
    refuse_if (s.app.name == "") (message "app.name is required")
    refuse_if (s.app.name == "RustDesk") (message "app.name must not use RustDesk trademark")
    refuse_if (not (is_bundle_id s.app.bundle_id))
        (message "app.bundle_id must be a valid reverse-DNS identifier")
    refuse_if (servers_missing s.server)
        (message "server id_server, relay_server, api_server, and key are required")
    refuse_if (relay_grant_required s && s.server.relay_name == "")
        (message "server.relay_name is required when relay grants are required")
    refuse_if (not (any_platform s.platforms)) (message "at least one platform must be enabled")
    refuse_if (s.platforms.ios_arm64 && s.signing.ios == "")
        (message "ios signing mode is required when ios_arm64 is enabled")
    ok tt

  unfoldable pub cli_validate : (String → String → Bool) → Spec → Result (Unit {0})
  unfolding cli_relay_grant_required any_platform servers_missing
  cli_validate equal_fold s = do
    refuse_if (trim_space s.app.name == "") (message "app.name is required")
    refuse_if (equal_fold (trim_space s.app.name) "rustdesk")
        (message "app.name must not use RustDesk trademark")
    refuse_if (trim_space s.app.vendor == "") (message "app.vendor is required")
    refuse_if (not (is_bundle_id s.app.bundle_id))
        (message "app.bundle_id must be a valid reverse-DNS identifier")
    refuse_if (servers_missing s.server)
        (message "server id_server, relay_server, api_server, and key are required")
    refuse_if (cli_relay_grant_required s && trim_space s.server.relay_name == "")
        (message "server.relay_name is required when relay grants are required")
    refuse_if (not (any_platform s.platforms)) (message "at least one platform must be enabled")
    refuse_if (s.platforms.ios_arm64 && s.signing.ios == "")
        (message "ios signing mode is required when ios_arm64 is enabled")
    refuse_if (s.source.opendesk_patchset == "") (message "source.opendesk_patchset is required")
    ok tt
