-- ===== src/Gateway/Workers/Leasing.antt =====
-- A worker that is given a lease, and loses it.
use mathlib.Core.Path.{subst}
use snapdragon.Prelude.{
  ℕ, String, ◌≡◌, refl, sym, ◌∙◌, ap, true, false, none, some, List, ◌==◌, eq_iff, eq_refl,
  if◌then◌else◌, Bool-cases, Option-cases, inl, inr, same_text,
}
use snapdragon.Prelude.Maps.{get, get-set, get-set_self}
use snapdragon.Prelude.Texts.{is_id}
use snapdragon.Gateway.Effects.{Outcome-cases, returns-injective, Outcome, throws, returns, LogLine}
use snapdragon.Gateway.Types.{Lease}
use snapdragon.Gateway.Workers.Records.{
  Registration, Worker, WorkerStore, idle, running, worker_id, worker_field,
}
use snapdragon.Gateway.Workers.Checks.{worker_field-IsTrimmed, worker_id-is_id, worker_id_again}
use snapdragon.Gateway.Workers.{
  registered, register, mark_leased, mark_worker, worker_at, leased_worker, clear_lease,
  idle_worker, bare_registration,
}
use snapdragon.Gateway.Workers.Valid.{
  IsValid, set-IsValid, register-IsValid, registered-IsRegistered,
}

-- `mark_worker` writes one worker, under `id`, or nothing.
mark_worker-IsValid :
    (id queue : String) (lease : Lease) (now : ℕ) (r : Outcome Worker × WorkerStore × List LogLine)
    → is_id id ≡ true
    → ((w : Worker) → r.0 ≡ returns w → w.id ≡ id)
    → IsValid r.1
    → IsValid (mark_worker id queue lease now r).1
mark_worker-IsValid id queue lease now (throws message, s, lines) h k v = v
mark_worker-IsValid id queue lease now (returns w, s, lines) h k v =
    elim (Outcome-cases (worker_field "queue" queue)) [
      | inl (message, e) ↦ rw (e, mark_worker) v
      | inr (name, e) ↦
          rw (e, mark_worker)
            (set-IsValid id (leased_worker name lease now w) s
              (record {
                same_id = k w refl;
                identifier = h;
                named_queue = worker_field-IsTrimmed "queue" queue e;
              })
              v)
    ]

-- What `worker_at` returns stands under the id, and it writes no other worker.
record IsAt (id : String) (s : WorkerStore) (r : Outcome Worker × WorkerStore × List LogLine)
    : Type 0 where
  at_id : (w : Worker) → r.0 ≡ returns w → w.id ≡ id
  others : (k : String) → (id == k) ≡ false → get k r.1 ≡ get k s

register-IsAt :
    (input : Registration) (id : String) (now : ℕ) (s : WorkerStore)
    → worker_id input.id ≡ returns id
    → IsAt id s (register input now s)
unfolding register
register-IsAt input id now s e = elim (Outcome-cases (registered input id (get id s) now)) [
  | inl (message, f) ↦ rw (e, f, register) (record { at_id = λ w h. cc h; others = λ k h. refl })
  | inr (w, f) ↦
      let same = (registered-IsRegistered input id (get id s) now w f).same_id in
      rw (e, f, register)
        (record { at_id = λ u h. cc (h, same); others = λ k h. rw (get-set w.id k w s, same, h) })
]

worker_at-IsAt :
    (id queue : String) (now : ℕ) (s : WorkerStore)
    → is_id id ≡ true
    → IsValid s
    → IsAt id s (worker_at id queue now s)
unfolding worker_at
worker_at-IsAt id queue now s h v = elim (Option-cases (get id s)) [
  | inl e ↦
      rw (e, worker_at) (register-IsAt (bare_registration id queue) id now s (worker_id_again id h))
  | inr (w, e) ↦
      rw (e, worker_at)
        (record {
          at_id = λ u p. subst (λ x. x.id ≡ id) (returns-injective p) (v id w e).same_id;
          others = λ k p. refl;
        })
]

worker_at-IsValid :
    (id queue : String) (now : ℕ) (s : WorkerStore)
    → IsValid s
    → IsValid (worker_at id queue now s).1
unfolding worker_at
worker_at-IsValid id queue now s v = elim (Option-cases (get id s)) [
  | inl e ↦ rw (e, worker_at) (register-IsValid (bare_registration id queue) now s v)
  | inr (w, e) ↦ rw (e, worker_at) v
]

pub mark_leased-IsValid :
    (value queue : String) (lease : Lease) (now : ℕ) (s : WorkerStore)
    → IsValid s
    → IsValid (mark_leased value queue lease now s).1
unfolding mark_leased
mark_leased-IsValid value queue lease now s v = elim (Outcome-cases (worker_id value)) [
  | inl (message, e) ↦ rw (e, mark_leased) v
  | inr (id, e) ↦
      let h = worker_id-is_id value e in
      rw (e, mark_leased)
        (mark_worker-IsValid id queue lease now (worker_at id queue now s) h
          (worker_at-IsAt id queue now s h v).at_id (worker_at-IsValid id queue now s v))
]

-- The worker at `id` runs under the lease.
pub record IsLeased (id : String) (lease : Lease) (s : WorkerStore) : Type 0 where
  pub worker : Worker
  pub found : get id s ≡ some worker
  pub state : worker.state ≡ running
  pub job : worker.current_job_id ≡ some lease.job_id
  pub current : worker.current_lease_id ≡ some lease.id
  pub expiry : worker.lease_expires_at_ms ≡ some lease.expires_at_ms

-- The worker at `id` is idle and holds no lease.
pub record IsFree (id : String) (s : WorkerStore) : Type 0 where
  pub worker : Worker
  pub found : get id s ≡ some worker
  pub state : worker.state ≡ idle
  pub job : worker.current_job_id ≡ none
  pub current : worker.current_lease_id ≡ none

marked :
    (id queue : String) (lease : Lease) (now : ℕ) (s : WorkerStore)
    (r : Outcome Worker × WorkerStore × List LogLine)
    → IsAt id s r
    → (mark_worker id queue lease now r).0 ≡ returns tt
    → IsLeased id lease (mark_worker id queue lease now r).1
      × ((k : String) → (id == k) ≡ false → get k (mark_worker id queue lease now r).1 ≡ get k s)
marked id queue lease now s (throws message, t, lines) a h = cc h
marked id queue lease now s (returns w, t, lines) a h =
    elim (Outcome-cases (worker_field "queue" queue)) [
      | inl (message, e) ↦ let p : throws message ≡ returns tt = rw (e, mark_worker) at h in cc p
      | inr (name, e) ↦
          rw (e, mark_worker)
            (
              record {
                worker = leased_worker name lease now w;
                found = get-set_self id _ t;
                state = refl;
                job = refl;
                current = refl;
                expiry = refl;
              },
              λ k p. rw (get-set id k (leased_worker name lease now w) t, p) (a.others k p),
            )
    ]

cleared :
    (id : String) (lease : Lease) (now : ℕ) (s : WorkerStore)
    → worker_id lease.worker ≡ returns id
    → IsLeased id lease s
    → IsFree id (clear_lease (some lease) now s).1
      × ((k : String) → (id == k) ≡ false → get k (clear_lease (some lease) now s).1 ≡ get k s)
cleared id lease now s e l =
    let same : same_text l.worker.current_lease_id (some lease.id) ≡ true =
      rw (l.current, eq_refl lease.id) in
    unfold clear_lease in
    rw (e, l.found, clear_lease, same)
      (
        record {
          worker = idle_worker now l.worker;
          found = get-set_self id _ s;
          state = refl;
          job = refl;
          current = refl;
        },
        λ k p. rw (get-set id k (idle_worker now l.worker) s, p),
      )

-- When `markLeased` returns, its worker runs the job under the lease; when the lease is then cleared
-- the worker is idle and holds nothing; and no other worker has changed.
pub clear_lease-mark_leased :
    (value queue id other : String) (lease : Lease) (now later : ℕ) (s : WorkerStore)
    → IsValid s
    → lease.worker ≡ value
    → worker_id value ≡ returns id
    → (mark_leased value queue lease now s).0 ≡ returns tt
    → IsLeased id lease (mark_leased value queue lease now s).1
      × IsFree id (clear_lease (some lease) later (mark_leased value queue lease now s).1).1
      × (get other (clear_lease (some lease) later (mark_leased value queue lease now s).1).1 ≡ (
          if id == other
          then get id (clear_lease (some lease) later (mark_leased value queue lease now s).1).1
          else get other s))
clear_lease-mark_leased value queue id other lease now later s v same e h =
    let t = (mark_leased value queue lease now s).1 in
    let p : IsLeased id lease t × ((k : String) → (id == k) ≡ false → get k t ≡ get k s) =
      unfold mark_leased in
      rw (e, mark_leased)
        (marked id queue lease now s (worker_at id queue now s)
          (worker_at-IsAt id queue now s (worker_id-is_id value e) v) (rw (e, mark_leased) at h)) in
    let q = cleared id lease later t (rw same e) p.0 in
    (
      p.0,
      q.0,
      elim (Bool-cases (id == other)) [
        | inl e' ↦
            rw e'
              (ap (λ k. get k (clear_lease (some lease) later t).1) (sym ((eq_iff id other).0 e')))
        | inr e' ↦ rw e' (q.1 other e' ∙ p.1 other e')
      ],
    )

-- Clearing a lease throws only for a worker's name that is no id.
pub clear_lease-returns :
    (id : String) (lease : Lease) (now : ℕ) (s : WorkerStore)
    → worker_id lease.worker ≡ returns id
    → (clear_lease (some lease) now s).0 ≡ returns tt
unfolding clear_lease
clear_lease-returns id lease now s e = elim (Option-cases (get id s)) [
  | inl f ↦ rw (e, f, clear_lease) refl
  | inr (w, f) ↦ elim (Bool-cases (same_text w.current_lease_id (some lease.id))) [
    | inl g ↦ rw (e, f, clear_lease, g) refl
    | inr g ↦ rw (e, f, clear_lease, g) refl
  ]
]
