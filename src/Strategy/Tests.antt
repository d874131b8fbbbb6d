-- ===== src/Strategy/Tests.antt =====
-- Concrete strategies for the resolver, as in resolver_test.go.
use opendesk_remote.Prelude.{map, ◌≡◌, refl, true, some, none, [], ◌∷◌, pos, contains, find_first}
use opendesk_remote.Prelude.Dict.{lookup}
use opendesk_remote.Strategy.{Strategy, Context, Resolver, resolve, assignment_matches, find}
use opendesk_remote.Strategy.Precedence.{
  applied-resolve, layers, lookup-resolve, assigned, last_value,
}

abbrev base : Strategy
base = record {
  id = pos 1;
  name = "default";
  enabled = true;
  settings = ("clipboard", "on") ∷ ("audio", "on") ∷ [];
}

abbrev strict : Strategy
strict = record {
  id = pos 2;
  name = "strict";
  enabled = true;
  settings = ("clipboard", "off") ∷ [];
}

abbrev resolver : Resolver
resolver = record {
  strategies = strict ∷ [];
  assignments = record { strategy_id = pos 2; target_type = "device"; target_id = pos 7 } ∷ [];
  default = base;
}

abbrev context : Context
context = record { device_id = pos 7; user_id = none; device_group_ids = [] }

lookup-resolve_example : lookup "clipboard" (resolve resolver context).settings ≡ some "off"
unfolding lookup assigned assignment_matches find find_first last_value contains
lookup-resolve_example =
    lookup-resolve resolver context "clipboard" ((refl, (refl, tt)), ((refl, tt), tt))

applied-resolve_example :
    (resolve resolver context).applied_strategy ≡ map (λ s. s.id) (layers resolver context)
applied-resolve_example = applied-resolve resolver context
