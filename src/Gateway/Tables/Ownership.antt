-- ===== src/Gateway/Tables/Ownership.antt =====
-- A table belongs to the actor that created it first.
use snapdragon.Prelude.{
  String, ◌≡◌, refl, true, Option, none, some, List, [], ◌∷◌, ◌==◌, eq_iff, eq_refl, or_else,
  Option-cases, Bool-cases, inl, inr,
}
use snapdragon.Prelude.Maps.{get, set, get-set}
use snapdragon.Gateway.Mailboxes.{ActorId}
use snapdragon.Gateway.Tables.{
  TableAccess, protected, TableState, TableStore, new_table, create, snapshot,
}

-- Calls of `create`, the latest first.
pub creates : List (String × ActorId × Option TableAccess) → TableStore → TableStore
unfolding create
creates [] s = s
creates ((name, owner, access) ∷ earlier) s = (create name owner access (creates earlier s)).1

create_keeps :
    (name other : String) (owner : ActorId) (access : Option TableAccess) (table : TableState)
    (s : TableStore)
    → get name s ≡ some table
    → get name (create other owner access s).1 ≡ some table
unfolding create
create_keeps name other owner access table s h = elim (Option-cases (get other s)) [
  | inr (t, e) ↦ rw (e, create) h
  | inl e ↦ elim (Bool-cases (other == name)) [
    | inl same ↦
        let absent : get name s ≡ none = rw ((eq_iff other name).0 same) at e in cc (absent, h)
    | inr differs ↦ rw (e, create) (rw (get-set other name (new_table owner access) s, differs) h)
  ]
]

creates_keep :
    (name : String) (calls : List (String × ActorId × Option TableAccess)) (table : TableState)
    (s : TableStore)
    → get name s ≡ some table
    → get name (creates calls s) ≡ some table
unfolding creates
creates_keep name [] table s h = h
creates_keep name ((other, owner, access) ∷ earlier) table s h =
    create_keeps name other owner access table (creates earlier s)
      (creates_keep name earlier table s h)

-- Where a name is free, `create` makes the table, and no later call of `create`, by whomever,
-- changes its owner, its access or its rows; the access is `protected` if none was asked for.
pub first_owner_stays :
    (name : String) (owner : ActorId) (access : Option TableAccess)
    (calls : List (String × ActorId × Option TableAccess)) (s : TableStore)
    → get name s ≡ none
    → ((create name owner access s).0 ≡ true)
      × (snapshot name (creates calls (create name owner access s).1)
          ≡ some
              (record { name = name; owner = owner; access = or_else access protected; rows = 0 }))
unfolding snapshot create
first_owner_stays name owner access calls s h =
    let made : (create name owner access s).1 ≡ set name (new_table owner access) s =
      rw (h, create) refl in
    let found : get name (creates calls (create name owner access s).1)
        ≡ some (new_table owner access) =
      creates_keep name calls (new_table owner access) _
        (rw made (rw (get-set name name (new_table owner access) s, eq_refl) refl)) in
    (rw (h, create) refl, rw (found, snapshot) refl)
