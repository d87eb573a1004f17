-- ===== src/Gateway/Workers/Errors.antt =====
-- What a refused call leaves behind.
use snapdragon.Prelude.{ℕ, String, ◌≡◌, refl, ap, true, false, some, List, [], inl, inr}
use mathlib.Core.List.{tail}
use snapdragon.Prelude.Maps.{get, get-set_self}
use snapdragon.Prelude.Texts.{is_empty, trim}
use snapdragon.Gateway.Effects.{Outcome-cases, throws, returns}
use snapdragon.Gateway.Workers.Records.{
  Registration, Heartbeat, Worker, WorkerStore, WorkerState, worker_id, worker_field,
}
use snapdragon.Gateway.Workers.{
  Edit, edit_field, go_on, run_edits, beat_edits, write_queue, registered, register, beat,
  heartbeat,
}

-- A registration that is refused writes no worker and logs nothing.
pub register_refused :
    (input : Registration) (now : ℕ) (s : WorkerStore) (message : String)
    → (register input now s).0 ≡ throws message
    → ((register input now s).1 ≡ s) × ((register input now s).2 ≡ [])
register_refused input now s message h = elim (Outcome-cases (worker_id input.id)) [
  | inl (m, e) ↦ unfold register in rw (e, register) (refl, refl)
  | inr (id, e) ↦ elim (Outcome-cases (registered input id (get id s) now)) [
    | inl (m, f) ↦ unfold register in rw (e, f, register) (refl, refl)
    | inr (w, f) ↦
        let p : returns w ≡ throws message = unfold register in rw (e, f, register) at h in cc p
  ]
]

worker_field_blank :
    (field value : String)
    → is_empty (trim value) ≡ true
    → (message : String) × (worker_field field value ≡ throws message)
unfolding worker_field
worker_field_blank field value h = rw h (_, refl)

edit_field_refused :
    (field value : String) (write : String → Worker → Worker) (message : String) (worker : Worker)
    → worker_field field value ≡ throws message
    → edit_field field (some value) write worker ≡ (throws message, worker)
edit_field_refused field value write message worker h = rw (h, edit_field)

edits_after : Heartbeat → ℕ → List Edit
edits_after input now = tail (tail (beat_edits input now))

-- A heartbeat whose queue is blank but not empty is refused, and yet has changed the worker's state;
-- the time of its last heartbeat stays.
pub heartbeat_half_written :
    (input : Heartbeat) (now : ℕ) (s : WorkerStore) (id queue : String) (state : WorkerState)
    (worker : Worker)
    → worker_id input.id ≡ returns id
    → get id s ≡ some worker
    → input.state ≡ some state
    → input.queue ≡ some queue
    → is_empty queue ≡ false
    → is_empty (trim queue) ≡ true
    → ((message : String) × ((heartbeat input now s).0 ≡ throws message))
      × (get id (heartbeat input now s).1 ≡ some (record worker { state = state }))
heartbeat_half_written input now s id queue state worker e found st q full blank =
    let (message, refused) = worker_field_blank "queue" queue blank in
    let stopped : beat input now worker ≡ (throws message, record worker { state = state }) =
      unfold beat edits_after in
      rw (st, q, full)
        (ap (λ r. go_on r (run_edits (edits_after input now)))
          (edit_field_refused "queue" queue write_queue message (record worker { state = state })
            refused)) in
    unfold heartbeat in rw (e, found, heartbeat, stopped) ((message, refl), get-set_self id _ s)
