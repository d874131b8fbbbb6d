-- ===== src/Repository/Settings/Upsert.antt =====
-- What `UpsertSystemSettings` leaves under each key.
use opendesk_remote.Prelude.{
  String, ℤ, ◌≡◌, refl, sym, ◌∙◌, Bool, true, false, inl, inr, Bool-cases, Time, Option, none, some,
  List, [], ◌∷◌, any, is_pos, ◌||◌, trim_space, message, ok, err, ◌==◌, string_eq, if◌then◌else◌,
}
use opendesk_remote.Prelude.Dict.{Dict, lookup, insert, lookup-insert, or_else}
use opendesk_remote.Models.Logs.{SystemSetting}
use opendesk_remote.Repository.{Memory}
use opendesk_remote.Repository.Settings.{written_setting, upsert_loop, upsert_system_settings}

-- What is refused: a setting without a key or without a value, blanks apart.
abbrev pub is_lacking : SystemSetting → Bool
is_lacking setting = trim_space setting.key == "" || trim_space setting.value_json == ""

-- The last setting for a key among those before the first that is refused: as it was sent, under the
-- trimmed key, updated now and, if the caller is known, by the caller.
unfoldable pub last_written : Time → ℤ → List SystemSetting → String → Option SystemSetting
last_written now updated_by [] key = none
last_written now updated_by (setting ∷ rest) key =
    let later = last_written now updated_by rest key in
    if is_lacking setting
    then none
    else or_else later (
        if trim_space setting.key == key
        then some (record setting {
          key = trim_space setting.key;
          updated_at = now;
          updated_by = if is_pos updated_by then some updated_by else setting.updated_by;
        })
        else none)

or_else_assoc : {A : Type 0} (a b c : Option A) → or_else (or_else a b) c ≡ or_else a (or_else b c)
or_else_assoc none b c = refl
or_else_assoc (some x) b c = refl

or_else_if :
    {A : Type 0} (test : Bool) (x : A) (o : Option A)
    → (if test then some x else o) ≡ or_else (if test then some x else none) o
or_else_if true x o = refl
or_else_if false x o = refl

lookup-upsert_loop :
    (settings : Dict SystemSetting) (now : Time) (updated_by : ℤ) (more : List SystemSetting)
    (key : String)
    → lookup key (upsert_loop settings now updated_by more).0
      ≡ or_else (last_written now updated_by more key) (lookup key settings)
unfolding upsert_loop last_written
lookup-upsert_loop settings now updated_by [] key = refl
lookup-upsert_loop settings now updated_by (setting ∷ rest) key =
    elim (Bool-cases (is_lacking setting)) [
      | inl blank ↦ rw blank refl
      | inr full ↦
          let row = written_setting now updated_by setting in
          let own = trim_space setting.key in
          rw full (
            lookup-upsert_loop (insert own row settings) now updated_by rest key
            ∙ (rw (lookup-insert own key row settings) (
                rw (or_else_if (own == key) row (lookup key settings)) (
                  sym (
                    or_else_assoc (last_written now updated_by rest key) _
                      (lookup key settings))))))
    ]

upsert_loop-result :
    (settings : Dict SystemSetting) (now : Time) (updated_by : ℤ) (more : List SystemSetting)
    → (upsert_loop settings now updated_by more).1 ≡ (
        if any is_lacking more
        then err (message "setting key and value_json are required")
        else ok tt)
unfolding upsert_loop any
upsert_loop-result settings now updated_by [] = refl
upsert_loop-result settings now updated_by (setting ∷ rest) =
    elim (Bool-cases (is_lacking setting)) [
      | inl blank ↦ rw blank refl
      | inr full ↦ rw full (
          upsert_loop-result
            (insert (trim_space setting.key) (written_setting now updated_by setting) settings) now
            updated_by rest)
    ]

-- A key holds the last setting that was sent for it, blanks around the key or not, before the first one
-- that lacks a key or a value: with the value that was sent, updated now and by the caller if the
-- caller's number is positive. It holds what it held if there is no such setting. The answer is an error exactly when
-- some setting lacks a key or a value: those before it are written all the same.
pub lookup-upsert_system_settings :
    (m : Memory) (now : Time) (settings : List SystemSetting) (updated_by : ℤ) (key : String)
    → (lookup key (upsert_system_settings m now settings updated_by).0.settings
        ≡ or_else (last_written now updated_by settings key) (lookup key m.settings))
      × ((upsert_system_settings m now settings updated_by).1 ≡ (
          if any is_lacking settings
          then err (message "setting key and value_json are required")
          else ok tt))
unfolding upsert_system_settings
lookup-upsert_system_settings m now settings updated_by key = (
  lookup-upsert_loop m.settings now updated_by settings key,
  upsert_loop-result m.settings now updated_by settings,
)
