-- ===== src/Gateway/Tables/Tests.antt =====
-- Two actors that create a table of one name.
use snapdragon.Prelude.{String, ◌≡◌, refl, none, some, List, [], ◌∷◌, Option}
use snapdragon.Prelude.Maps.{get}
use snapdragon.Gateway.Mailboxes.{ActorId}
use snapdragon.Gateway.Tables.{TableAccess, TableStore, public}

abbrev first : ActorId
first = record { id = "a" }

abbrev latecomer : List (String × ActorId × Option TableAccess)
latecomer = ("jobs", record { id = "b" }, some public) ∷ []

abbrev no_tables : TableStore
no_tables = []

no_table : get "jobs" no_tables ≡ none
unfolding get
no_table = refl
