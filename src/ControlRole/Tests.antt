-- ===== src/ControlRole/Tests.antt =====
-- Concrete roles for the control role evaluator.
use opendesk_remote.Prelude.{◌≡◌, refl, true, false, some, List, [], ◌∷◌, any}
use opendesk_remote.Prelude.Dict.{lookup}
use opendesk_remote.ControlRole.{Role, enable, disable, evaluate, is_known}
use opendesk_remote.ControlRole.Permissions.{lookup-evaluate, last_named}

abbrev support : List Role
support =
    record { name = "support"; enabled = true; permissions = ("terminal", enable) ∷ [] }
    ∷ record { name = "off"; enabled = false; permissions = ("terminal", disable) ∷ [] }
    ∷ []

lookup-evaluate_example : lookup "terminal" (evaluate support) ≡ some enable
unfolding is_known any last_named lookup
lookup-evaluate_example = lookup-evaluate support "terminal" ((refl, tt), ((refl, tt), tt))
