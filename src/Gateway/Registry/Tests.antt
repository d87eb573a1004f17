-- ===== src/Gateway/Registry/Tests.antt =====
-- Two actors that register for a capability, one of them twice.
use snapdragon.Prelude.{String, ◌↔◌, List, [], ◌∷◌, In}
use snapdragon.Gateway.Mailboxes.{ActorId}
use snapdragon.Gateway.Registry.{actor_of}
use snapdragon.Gateway.Registry.Members.{
  Registered, IsDistinct, members, registers, members-registers,
}

abbrev calls : List (String × ActorId)
calls = ("search", actor_of "a") ∷ ("search", actor_of "b") ∷ ("search", actor_of "a") ∷ []

members-registers_example :
    (In "b" (members "search" (registers calls [])) ↔ Registered "search" "b" calls)
    × IsDistinct (members "search" (registers calls []))
members-registers_example = members-registers "search" "b" calls
