-- ===== src/Repository/Settings.antt =====
-- System settings of api/internal/repository/memory.go.
pub mod Upsert
mod Tests
use opendesk_remote.Prelude.{
  String, ℤ, Bool, true, false, ◌||◌, Time, Option, none, some, List, [], ◌∷◌, map, is_pos,
  trim_space, message, Result, ok, err, ◌==◌, string_eq, if◌then◌else◌,
}
use opendesk_remote.Prelude.Dict.{Dict, insert}
use opendesk_remote.Models.Logs.{SystemSetting}
use opendesk_remote.Repository.{Memory, Sorting}

-- `less` is Go's order on strings.
unfoldable pub list_system_settings :
    Sorting → (String → String → Bool) → Memory → List SystemSetting
list_system_settings sorting less m =
    sorting.sort_slice (λ (a b : SystemSetting). less a.key b.key)
      (map (λ entry. entry.1) m.settings)

abbrev pub written_setting : Time → ℤ → SystemSetting → SystemSetting
written_setting now updated_by setting = record setting {
  key = trim_space setting.key;
  updated_at = now;
  updated_by = if is_pos updated_by then some updated_by else setting.updated_by;
}

abbrev pub is_blank_setting : SystemSetting → Bool
is_blank_setting setting = trim_space setting.key == "" || trim_space setting.value_json == ""

-- The loop stops at the first setting that is refused; those before it are written.
upsert_loop :
    Dict SystemSetting → Time → ℤ → List SystemSetting → Dict SystemSetting × Result (Unit {0})
upsert_loop settings now updated_by [] = (settings, ok tt)
upsert_loop settings now updated_by (setting ∷ rest) =
    let done =
      upsert_loop
        (insert (trim_space setting.key) (written_setting now updated_by setting) settings) now
        updated_by rest in
    if is_blank_setting setting
    then (settings, err (message "setting key and value_json are required"))
    else done

unfoldable pub upsert_system_settings :
    Memory → Time → List SystemSetting → ℤ → Memory × Result (Unit {0})
unfolding upsert_loop
upsert_system_settings m now settings updated_by =
    let (settings', r) = upsert_loop m.settings now updated_by settings in
    (record m { settings = settings' }, r)
