-- ===== src/Registry.antt =====
-- type_registry.go: the attackers by name. A name that is not there reads as nil.
use loaderbot.Prelude.{String, Option, List}
use loaderbot.Prelude.Maps.{string_eq, lookup, insert}

module _ {Attack : Type 0} where
  unfoldable pub register_attacker :
      String → Attack → List (String × Attack) → List (String × Attack)
  register_attacker name atk registry = insert name atk registry

  unfoldable pub attacker_from_string : String → List (String × Attack) → Option Attack
  attacker_from_string name registry = lookup name registry
