-- ===== src/BuildHandlers/Agreement.antt =====
-- From a request to the specification that the builder reads and checks.
use opendesk_remote.Prelude.{
  String, ℤ, ◌≡◌, refl, ap, ◌∙◌, Bool, false, not, ◌&&◌, ◌||◌, inl, inr, Bool-cases, Option-cases,
  some, trim_space, ok, arith, eq_iff, ◌==◌, string_eq,
}
use opendesk_remote.Models.Builds.{BuildProfile}
use opendesk_remote.Buildspec.{
  BuildSpec, validate, cli_validate, cli_relay_grant_required, grant_required, relay_grant_required,
}
use opendesk_remote.Buildspec.Agreement.{accepted, cli_spec, validate-cli_validate}
use opendesk_remote.Worker.Spec.{Json, build_spec_json}
use opendesk_remote.BuildHandlers.Profiles.{Coding, profile_from_spec}
use opendesk_remote.BuildHandlers.Reading.{Reader, Reads, source_handed, app_handed, handed}
use opendesk_remote.BuildHandlers.Handed.{profile_from_spec-Columns, load-handed}

trim_empty : trim_space "" ≡ ""
unfolding trim_space
trim_empty = refl

trim_default : (trim_space "OpenDesk" == "") ≡ false
unfolding trim_space
trim_default = refl

patchset_named : (s : BuildSpec) → ((source_handed s.source).opendesk_patchset == "") ≡ false
patchset_named s = elim (Bool-cases (s.source.opendesk_patchset == "")) [
  | inl empty ↦ rw ((eq_iff s.source.opendesk_patchset "").0 empty) (rw trim_empty refl)
  | inr given ↦ elim (Bool-cases (trim_space s.source.opendesk_patchset == "")) [
    | inl blank ↦ rw blank refl
    | inr ink ↦ rw ink given
  ]
]

-- The worker's default for the flag says what its lack says.
cli_validate-handed :
    (is_bundle_id : String → Bool) (equal_fold : String → String → Bool) (s : BuildSpec)
    → cli_validate is_bundle_id equal_fold (handed s)
      ≡ cli_validate is_bundle_id equal_fold (cli_spec s (app_handed s) (source_handed s.source))
unfolding cli_validate cli_relay_grant_required grant_required
cli_validate-handed is_bundle_id equal_fold s = elim (Option-cases s.server.relay_grant_required) [
  | inl nil ↦ rw nil refl
  | inr (required, given) ↦ rw given refl
]

-- Where the API takes a specification, makes a profile of it, and the worker makes a document of the
-- profile, with a JSON that reads back what it wrote: the builder reads a specification with the same
-- parts, where the worker's defaults stand for a vendor, a product, a reference, a patch set and a
-- grant flag that are lacking; and it takes it exactly when the trimmed name is neither blank nor
-- RustDesk in any spelling, the vendor is empty or not blank, and a relay name that is required is not
-- blank.
pub validate-handed :
    (coding : Coding) (json : Json) (reader : Reader) (is_bundle_id : String → Bool)
    (equal_fold : String → String → Bool) (name : String) (s : BuildSpec) (created_by : ℤ)
    (profile : BuildProfile) (raw : String)
    → Reads coding json reader s
    → validate is_bundle_id s ≡ ok tt
    → profile_from_spec coding name s created_by ≡ ok profile
    → build_spec_json json profile ≡ ok raw
    → (reader.load raw ≡ some (handed s))
      × (accepted (cli_validate is_bundle_id equal_fold (handed s)) ≡ (
          not (trim_space s.app.name == "" || equal_fold (trim_space s.app.name) "rustdesk")
          && (s.app.vendor == "" || not (trim_space s.app.vendor == ""))
          && not (relay_grant_required s && trim_space s.server.relay_name == "")))
validate-handed coding json reader is_bundle_id equal_fold name s created_by profile raw reads valid
      made document =
    (
      load-handed coding json reader s profile raw reads
          (profile_from_spec-Columns coding name s created_by profile made) document,
      ap accepted (cli_validate-handed is_bundle_id equal_fold s)
          ∙ (validate-cli_validate is_bundle_id equal_fold s (app_handed s) (source_handed s.source)
                refl valid
              ∙ rw patchset_named (elim (Bool-cases (s.app.vendor == "")) [
                | inl empty ↦ rw ((eq_iff s.app.vendor "").0 empty) (rw trim_default (ground arith))
                | inr given ↦ rw given (ground arith)
              ])),
    )
