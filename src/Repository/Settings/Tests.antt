-- ===== src/Repository/Settings/Tests.antt =====
-- Two settings for one key, then one without a value.
use opendesk_remote.Prelude.{
  ◌≡◌, String, pos, none, List, [], ◌∷◌, any, message, ok, err, if◌then◌else◌,
}
use opendesk_remote.Prelude.Dict.{lookup, or_else}
use opendesk_remote.Models.Logs.{SystemSetting}
use opendesk_remote.Repository.Samples.{memory}
use opendesk_remote.Repository.Settings.{upsert_system_settings}
use opendesk_remote.Repository.Settings.Upsert.{
  is_lacking, last_written, lookup-upsert_system_settings,
}

abbrev setting : String → String → SystemSetting
setting key value = record { key = key; value_json = value; updated_by = none; updated_at = 0 }

abbrev settings : List SystemSetting
settings = setting "theme" "1" ∷ setting " theme" "2" ∷ setting "theme" " " ∷ []

lookup-upsert_system_settings_example :
    (lookup "theme" (upsert_system_settings memory 5 settings (pos 1)).0.settings
      ≡ or_else (last_written 5 (pos 1) settings "theme") (lookup "theme" memory.settings))
    × ((upsert_system_settings memory 5 settings (pos 1)).1 ≡ (
        if any is_lacking settings
        then err (message "setting key and value_json are required")
        else ok tt))
lookup-upsert_system_settings_example =
    lookup-upsert_system_settings memory 5 settings (pos 1) "theme"
