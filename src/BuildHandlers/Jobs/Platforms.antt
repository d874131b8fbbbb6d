-- ===== src/BuildHandlers/Jobs/Platforms.antt =====
-- The platforms of a specification and those for which a job can be made.
use opendesk_remote.Prelude.{
  String, ◌≡◌, refl, Bool, true, false, ◌||◌, ◌&&◌, List, [], ◌∷◌, contains, arith, eq_iff, ◌==◌,
  string_eq, if◌then◌else◌,
}
use opendesk_remote.Buildspec.{PlatformSpec, append_if, ordered}
use opendesk_remote.BuildHandlers.Jobs.{enables}

contains-append_if :
    (enabled : Bool) (name wanted : String) (out : List String)
    → contains (append_if enabled name out) wanted
      ≡ (contains out wanted || ((wanted == name) && enabled))
unfolding append_if contains
contains-append_if true name wanted [] = ground (arith, eq_iff name wanted, eq_iff wanted name)
contains-append_if false name wanted [] = ground (arith, eq_iff name wanted, eq_iff wanted name)
contains-append_if true name wanted (x ∷ out) =
    ground (arith, contains-append_if true name wanted out, eq_iff name wanted, eq_iff wanted name)
contains-append_if false name wanted (x ∷ out) =
    ground (arith, contains-append_if false name wanted out, eq_iff name wanted, eq_iff wanted name)

-- Five flags, of which a name picks at most one.
picked :
    (a b c d e v w x y z : Bool)
    → (a ≡ true → (b || c || d || e) ≡ false)
    → (b ≡ true → (c || d || e) ≡ false)
    → (c ≡ true → (d || e) ≡ false)
    → (d ≡ true → e ≡ false)
    → (((((false || (a && v)) || (b && w)) || (c && x)) || (d && y)) || (e && z))
      ≡ (if a then v else if b then w else if c then x else if d then y else if e then z else false)
picked a b c d e v w x y z h k l n = ground arith

-- A job can be made for a platform exactly when the list of the platforms to build contains it.
pub contains-ordered :
    (p : PlatformSpec) (name : String) → contains (ordered p) name ≡ enables p name
unfolding ordered enables contains
contains-ordered p name = simp contains-append_if (
    picked (name == "windows_x64") (name == "macos_x64") (name == "macos_arm64")
      (name == "android_arm64") (name == "ios_arm64") p.windows_x64 p.macos_x64 p.macos_arm64
      p.android_arm64 p.ios_arm64 (λ hit. rw ((eq_iff name "windows_x64").0 hit) refl)
      (λ hit. rw ((eq_iff name "macos_x64").0 hit) refl)
      (λ hit. rw ((eq_iff name "macos_arm64").0 hit) refl)
      (λ hit. rw ((eq_iff name "android_arm64").0 hit) refl))
