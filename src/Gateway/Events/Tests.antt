-- ===== src/Gateway/Events/Tests.antt =====
-- Two events, one of which is cancelled.
use snapdragon.Prelude.{◌≡◌, refl, none, some, List, [], ◌∷◌}
use snapdragon.Prelude.Maps.{get, set}
use snapdragon.Gateway.Events.{EventInput, EventStore, append, new_event}
use snapdragon.Gateway.Events.Cancelling.{Call, appends, cancels}

abbrev named : EventInput
named = record { id = some "e"; kind = "tick"; target = none; payload = none }

abbrev unnamed : EventInput
unnamed = record named { id = none }

abbrev events : EventStore
events = (append unnamed "f" 20 (append named "x" 10 []).1).1

found_named : get "e" events ≡ some (new_event named "x" 10)
unfolding append get set
found_named = refl

abbrev more_calls : List Call
more_calls = cancels "f" 50 ∷ appends unnamed "g" 40 ∷ []
