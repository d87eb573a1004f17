-- ===== src/Gateway/Registry.antt =====
-- packages/gateway/src/inline-registry.ts: which actors offer a capability. A `Set` of ids is the
-- list of its members in insertion order.
mod Tests
pub mod Members
use snapdragon.Prelude.{
  String, Bool, Option, none, some, List, [], ◌∷◌, ◌++◌, if◌then◌else◌, or_else, has_some, map,
  ◌==◌,
}
use snapdragon.Prelude.Maps.{Map, get, set}
use snapdragon.Prelude.Sorting.{sort}
use snapdragon.Prelude.Texts.{text_before}
use snapdragon.Gateway.Mailboxes.{ActorId}

abbrev pub CapabilityRegistry : Type 0
CapabilityRegistry = Map (List String)

-- `set.add(id)`
unfoldable pub add_member : String → List String → List String
add_member id members = if has_some (λ m. m == id) members then members else members ++ id ∷ []

unfoldable pub register : String → ActorId → CapabilityRegistry → CapabilityRegistry
unfolding add_member
register capability actor s = set capability (add_member actor.id (or_else (get capability s) [])) s

abbrev pub actor_of : String → ActorId
actor_of id = record { id = id }

unfoldable pub whereis : String → CapabilityRegistry → List ActorId
whereis capability s = map actor_of (or_else (get capability s) [])

pub record RegistrySnapshot : Type 0 where
  pub names : Map ActorId
  pub capabilities : Map (List ActorId)
  pub channels : Map ActorId

abbrev pub sorted_entry : String × List String → String × List ActorId
sorted_entry (capability, actors) = (capability, map actor_of (sort text_before actors))

unfoldable pub snapshot : CapabilityRegistry → RegistrySnapshot
snapshot s = record { names = []; capabilities = map sorted_entry s; channels = [] }
