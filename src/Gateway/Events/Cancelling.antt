-- ===== src/Gateway/Events/Cancelling.antt =====
-- Cancelling an event, and the order in which events are listed.
use mathlib.Core.List.{Perm}
use snapdragon.Prelude.{
  ℕ, String, ◌≡◌, refl, false, some, List, [], ◌∷◌, arith, ◌==◌, eq_refl, or_else, Option-cases,
  Bool-cases, inl, inr,
}
use snapdragon.Prelude.Maps.{get, get-set, values}
use snapdragon.Prelude.Sorting.{IsOrder, IsSorted, sort-IsSorted, sort-perm}
use snapdragon.Gateway.Events.{
  EventInput, EventRecord, EventStore, cancelled, append, new_event, updated_before, list, cancel,
  cancel_event,
}

-- The event at `id` is cancelled.
pub record IsCancelled (id : String) (s : EventStore) : Type 0 where
  pub event : EventRecord
  pub found : get id s ≡ some event
  pub is_cancelled : event.state ≡ cancelled

-- Calls on the events, the latest first.
pub data Call : Type 0 where
  appends : EventInput → String → ℕ → Call
  cancels : String → ℕ → Call

pub run : List Call → EventStore → EventStore
unfolding append cancel
run [] s = s
run (appends input fresh now ∷ earlier) s = (append input fresh now (run earlier s)).1
run (cancels id now ∷ earlier) s = (cancel id now (run earlier s)).1

-- No call appends an event under `id`.
abbrev pub Spares : String → List Call → Type 0
Spares id [] = Unit
Spares id (appends input fresh now ∷ earlier) =
    ((or_else input.id fresh == id) ≡ false) × Spares id earlier
Spares id (cancels other now ∷ earlier) = Spares id earlier

cancel-IsCancelled :
    (id other : String) (now : ℕ) (s : EventStore)
    → IsCancelled id s
    → IsCancelled id (cancel other now s).1
unfolding cancel
cancel-IsCancelled id other now s c = elim (Option-cases (get other s)) [
  | inl e ↦ rw (e, cancel) c
  | inr (event, e) ↦ elim (Bool-cases (other == id)) [
    | inl same ↦
        rw (e, cancel)
          (record {
            event = cancel_event now event;
            found = rw (get-set other id (cancel_event now event) s, same) refl;
            is_cancelled = refl;
          })
    | inr differs ↦
        rw (e, cancel)
          (record {
            event = c.event;
            found = rw (get-set other id (cancel_event now event) s, differs) c.found;
            is_cancelled = c.is_cancelled;
          })
  ]
]

run-IsCancelled :
    (id : String) (calls : List Call) (s : EventStore)
    → Spares id calls
    → IsCancelled id s
    → IsCancelled id (run calls s)
unfolding run
run-IsCancelled id [] s h c = c
run-IsCancelled id (appends input fresh now ∷ earlier) s (p, h) c =
    let before = run-IsCancelled id earlier s h c in
    record {
      event = before.event;
      found =
          rw (get-set (or_else input.id fresh) id (new_event input fresh now) (run earlier s), p)
            before.found;
      is_cancelled = before.is_cancelled;
    }
run-IsCancelled id (cancels other now ∷ earlier) s h c =
    cancel-IsCancelled id other now (run earlier s) (run-IsCancelled id earlier s h c)

-- `cancel` returns the event that is there as it is then stored; one that it has cancelled stays cancelled
-- through all later calls until an event is appended under its id.
pub IsCancelled-for_good :
    (id : String) (now : ℕ) (calls : List Call) (s : EventStore) (event : EventRecord)
    → get id s ≡ some event
    → Spares id calls
    → ((cancel id now s).0 ≡ some (cancel_event now event))
      × IsCancelled id (run calls (cancel id now s).1)
unfolding cancel
IsCancelled-for_good id now calls s event found h = (
  rw (found, cancel) refl,
  run-IsCancelled id calls _ h (
      rw (found, cancel)
        (record {
          event = cancel_event now event;
          found = rw (get-set id id (cancel_event now event) s, eq_refl) refl;
          is_cancelled = refl;
        })),
)

updated_before-IsOrder : IsOrder updated_before
updated_before-IsOrder = record { asym = λ a b h. ground arith; trans = λ a b c h k. ground arith }

-- `list` gives the events of the store, each once, the last changed first.
pub list-IsSorted : (s : EventStore) → IsSorted updated_before (list s) × Perm (list s) (values s)
unfolding list
list-IsSorted s = (
  sort-IsSorted updated_before updated_before-IsOrder (values s),
  sort-perm updated_before (values s),
)
