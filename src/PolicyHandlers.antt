-- ===== src/PolicyHandlers.antt =====
-- The handlers of api/internal/policies/handler.go over the memory repository. `show` is
-- strconv.FormatInt in base 10, and `text_of` the text of an error.
pub mod AccessRules
pub mod ControlRoles
pub mod Strategies
mod Tests
use opendesk_remote.Prelude.{
  String, ℤ, Bool, true, Option, none, some, Error, List, [], ◌∷◌, contains, string_eq,
}

-- The parts of Go's library that the handlers print with.
pub record Printing : Type 0 where
  pub show : ℤ → String
  pub text_of : Error → String

unfoldable pub default_true : Option Bool → Bool
default_true none = true
default_true (some value) = value

unfoldable pub one_of : String → List String → Bool
one_of value allowed = contains allowed value
