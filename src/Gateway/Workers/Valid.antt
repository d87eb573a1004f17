-- ===== src/Gateway/Workers/Valid.antt =====
-- The store's invariant: workers stand under their ids, which are identifiers, and wait on a queue
-- that has a name.
use mathlib.Core.Path.{subst}
use snapdragon.Prelude.{
  ℕ, String, ◌≡◌, refl, sym, ◌∙◌, true, Option, none, some, List, [], ◌∷◌, ◌==◌, eq_iff, or_else,
  Bool-cases, Option-cases, inl, inr, All, same_text,
}
use snapdragon.Prelude.Maps.{get, set, get-set}
use snapdragon.Prelude.Texts.{is_id}
use snapdragon.Gateway.Effects.{Outcome-cases, >>=-eq-returns, Outcome, throws, returns}
use snapdragon.Gateway.Types.{Lease}
use snapdragon.Gateway.Workers.Records.{
  Registration, Heartbeat, Worker, WorkerStore, idle, worker_id, worker_field,
  optional_worker_field, worker_fields,
}
use snapdragon.Gateway.Workers.Checks.{IsTrimmed, worker_field-IsTrimmed, worker_id-is_id}
use snapdragon.Gateway.Workers.{
  known, known_option, registered, register, beat, edit_field, Edit, go_on, run_edits, write_queue,
  write_status, write_error, beat_edits, heartbeat, keep_beat, truthy, clear_lease, idle_worker,
}

-- A worker that may stand under `id`.
pub record IsWorker (id : String) (w : Worker) : Type 0 where
  pub same_id : w.id ≡ id
  pub identifier : is_id id ≡ true
  pub named_queue : IsTrimmed w.queue

abbrev pub IsValid : WorkerStore → Type 0
IsValid s = (id : String) (w : Worker) → get id s ≡ some w → IsWorker id w

pub set-IsValid :
    (id : String) (w : Worker) (s : WorkerStore) → IsWorker id w → IsValid s → IsValid (set id w s)
set-IsValid id w s h v k u e = elim (Bool-cases (id == k)) [
  | inl same ↦
      let found : some w ≡ some u = rw (get-set id k w s, same) at e in
      let p : w ≡ u = cc found in
      subst (IsWorker k) p (subst (λ j. IsWorker j w) ((eq_iff id k).0 same) h)
  | inr other ↦ v k u (rw (get-set id k w s, other) at e)
]

-- What registering leaves of a worker that was known, and what it takes from the caller.
pub record IsRegistered (id : String) (existing : Option Worker) (now : ℕ) (w : Worker)
    : Type 0 where
  pub same_id : w.id ≡ id
  pub named_queue : IsTrimmed w.queue
  pub state : w.state ≡ or_else (known (λ u. u.state) existing) idle
  pub job : w.current_job_id ≡ known_option (λ u. u.current_job_id) existing
  pub lease : w.current_lease_id ≡ known_option (λ u. u.current_lease_id) existing
  pub expiry : w.lease_expires_at_ms ≡ known_option (λ u. u.lease_expires_at_ms) existing
  pub since : w.registered_at_ms ≡ or_else (known (λ u. u.registered_at_ms) existing) now
  pub seen : w.heartbeat_at_ms ≡ now

pub registered-IsRegistered :
    (input : Registration) (id : String) (existing : Option Worker) (now : ℕ) (w : Worker)
    → registered input id existing now ≡ returns w
    → IsRegistered id existing now w
unfolding registered
registered-IsRegistered input id existing now w e =
    let (queue, checked, e1) = >>=-eq-returns (worker_field "queue" _) _ e in
    let (runtime_id, c2, e2) =
      >>=-eq-returns (optional_worker_field "runtimeId" input.runtime_id) _ e1 in
    let (service, c3, e3) = >>=-eq-returns (optional_worker_field "service" input.service) _ e2 in
    let (capabilities, c4, e4) =
      >>=-eq-returns (worker_fields "capability" (or_else input.capabilities [])) _ e3 in
    let (status, c5, e5) = >>=-eq-returns (optional_worker_field "status" input.status) _ e4 in
    record {
      same_id = cc e5;
      named_queue =
          let same : queue ≡ w.queue = cc e5 in
          subst IsTrimmed same (worker_field-IsTrimmed "queue" _ checked);
      state = cc e5;
      job = cc e5;
      lease = cc e5;
      expiry = cc e5;
      since = cc e5;
      seen = cc e5;
    }

pub register-IsValid :
    (input : Registration) (now : ℕ) (s : WorkerStore)
    → IsValid s
    → IsValid (register input now s).1
unfolding register
register-IsValid input now s v = elim (Outcome-cases (worker_id input.id)) [
  | inl (message, e) ↦ rw (e, register) v
  | inr (id, e) ↦ elim (Outcome-cases (registered input id (get id s) now)) [
    | inl (message, f) ↦ rw (e, f, register) v
    | inr (w, f) ↦
        let r = registered-IsRegistered input id (get id s) now w f in
        rw (e, f, register)
          (subst (λ k. IsValid (set k w s)) (sym r.same_id)
            (set-IsValid id w s
              (record {
                same_id = r.same_id;
                identifier = worker_id-is_id input.id e;
                named_queue = r.named_queue;
              })
              v))
  ]
]

-- An edit keeps what a worker needs to stand under its id, also where it throws.
abbrev Keeps : String → Edit → Type 0
Keeps id m = (w : Worker) → IsWorker id w → IsWorker id (m w).1

Keeps-go_on :
    (id : String) (r : Outcome (Unit {0}) × Worker) (rest : Edit)
    → IsWorker id r.1
    → Keeps id rest
    → IsWorker id (go_on r rest).1
Keeps-go_on id (throws message, w) rest h k = h
Keeps-go_on id (returns _, w) rest h k = k w h

Keeps-run_edits :
    (id : String) (edits : List Edit) → All (Keeps id) edits → Keeps id (run_edits edits)
unfolding run_edits
Keeps-run_edits id [] h w u = u
Keeps-run_edits id (edit ∷ edits) (k, h) w u =
    Keeps-go_on id (edit w) (run_edits edits) (k w u) (Keeps-run_edits id edits h)

Keeps-edit_field :
    (id field : String) (o : Option String) (write : String → Worker → Worker)
    → ((v : String) (w : Worker) → IsTrimmed v → IsWorker id w → IsWorker id (write v w))
    → Keeps id (edit_field field o write)
Keeps-edit_field id field none write f w h = h
Keeps-edit_field id field (some value) write f w h =
    elim (Outcome-cases (worker_field field value)) [
      | inl (message, e) ↦ rw (e, edit_field) h
      | inr (v, e) ↦ rw (e, edit_field) (f v w (worker_field-IsTrimmed field value e) h)
    ]

-- Only `id` and `queue` matter to the invariant.
IsWorker-like :
    {id : String} (w u : Worker) → u.id ≡ w.id → IsTrimmed u.queue → IsWorker id w → IsWorker id u
IsWorker-like w u e t h = record {
  same_id = e ∙ h.same_id;
  identifier = h.identifier;
  named_queue = t;
}

beat-Keeps : (id : String) (input : Heartbeat) (now : ℕ) → Keeps id (beat input now)
unfolding beat
beat-Keeps id input now = Keeps-run_edits id (beat_edits input now) (
  (λ w h. IsWorker-like w _ refl h.named_queue h),
  (
    Keeps-edit_field id "queue" (truthy input.queue) write_queue
        (λ v w t h. IsWorker-like w _ refl t h),
    (
      Keeps-edit_field id "status" (truthy input.status) write_status
          (λ v w t h. IsWorker-like w _ refl h.named_queue h),
      (
        Keeps-edit_field id "lastError" (truthy input.last_error) write_error
            (λ v w t h. IsWorker-like w _ refl h.named_queue h),
        ((λ w h. IsWorker-like w _ refl h.named_queue h), tt),
      ),
    ),
  ),
)

keep_beat-IsValid :
    (id : String) (r : Outcome (Unit {0}) × Worker) (s : WorkerStore)
    → IsWorker id r.1
    → IsValid s
    → IsValid (keep_beat id r s).1
keep_beat-IsValid id (throws message, w) s h v = set-IsValid id w s h v
keep_beat-IsValid id (returns _, w) s h v = set-IsValid id w s h v

pub heartbeat-IsValid :
    (input : Heartbeat) (now : ℕ) (s : WorkerStore) → IsValid s → IsValid (heartbeat input now s).1
unfolding heartbeat
heartbeat-IsValid input now s v = elim (Outcome-cases (worker_id input.id)) [
  | inl (message, e) ↦ rw (e, heartbeat) v
  | inr (id, e) ↦ elim (Option-cases (get id s)) [
    | inl f ↦ rw (e, f, heartbeat) v
    | inr (w, f) ↦
        rw (e, f, heartbeat)
          (keep_beat-IsValid id (beat input now w) s (beat-Keeps id input now w (v id w f)) v)
  ]
]

pub clear_lease-IsValid :
    (lease : Option Lease) (now : ℕ) (s : WorkerStore)
    → IsValid s
    → IsValid (clear_lease lease now s).1
clear_lease-IsValid none now s v = unfold clear_lease in v
clear_lease-IsValid (some lease) now s v = elim (Outcome-cases (worker_id lease.worker)) [
  | inl (message, e) ↦ unfold clear_lease in rw (e, clear_lease) v
  | inr (id, e) ↦ elim (Option-cases (get id s)) [
    | inl f ↦ unfold clear_lease in rw (e, f, clear_lease) v
    | inr (w, f) ↦ elim (Bool-cases (same_text w.current_lease_id (some lease.id))) [
      | inl g ↦
          unfold clear_lease in
          rw (e, f, clear_lease, g)
            (set-IsValid id (idle_worker now w) s
              (IsWorker-like w _ refl (v id w f).named_queue (v id w f)) v)
      | inr g ↦ unfold clear_lease in rw (e, f, clear_lease, g) v
    ]
  ]
]
