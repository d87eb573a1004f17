-- ===== src/Gateway/Tables.antt =====
-- packages/gateway/src/inline-tables.ts: named tables with an owner. Rows are only counted, and no
-- method of the store adds one.
mod Tests
pub mod Ownership
use snapdragon.Prelude.{
  ℕ, String, Bool, true, false, Option, none, some, List, [], ◌∷◌, ◌++◌, length, or_else,
}
use snapdragon.Prelude.Json.{Json}
use snapdragon.Prelude.Maps.{Map, get, set, keys}
use snapdragon.Prelude.Sorting.{sort}
use snapdragon.Prelude.Texts.{text_before}
use snapdragon.Gateway.Mailboxes.{ActorId}

pub data TableAccess : Type 0 where
  public protected private : TableAccess

pub record TableState : Type 0 where
  pub owner : String
  pub access : TableAccess
  pub rows : Map Json

pub record TableSnapshot : Type 0 where
  pub name : String
  pub owner : ActorId
  pub access : TableAccess
  pub rows : ℕ

abbrev pub TableStore : Type 0
TableStore = Map TableState

abbrev pub new_table : ActorId → Option TableAccess → TableState
new_table owner access = record { owner = owner.id; access = or_else access protected; rows = [] }

unfoldable pub create : String → ActorId → Option TableAccess → TableStore → Bool × TableStore
create name owner access s = elim (get name s) [
  | some table ↦ (false, s)
  | none ↦ (true, set name (new_table owner access) s)
]

unfoldable pub names : TableStore → List String
names s = sort text_before (keys s)

unfoldable pub snapshot : String → TableStore → Option TableSnapshot
snapshot name s = elim (get name s) [
  | none ↦ none
  | some table ↦ some (record {
    name = name;
    owner = record { id = table.owner };
    access = table.access;
    rows = length table.rows;
  })
]
