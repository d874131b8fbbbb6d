-- ===== src/Models/Values.antt =====
-- What the program puts under a key of a `map[string]any`.
use opendesk_remote.Prelude.{String, ℤ, Bool, Time, Option, List}

pub data Any : Type 0 where
  text : String → Any
  number : ℤ → Any
  id : Option ℤ → Any
  texts : List String → Any
  instant : Time → Any
  flag : Bool → Any
