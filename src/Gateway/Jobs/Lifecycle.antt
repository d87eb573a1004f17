-- ===== src/Gateway/Jobs/Lifecycle.antt =====
-- Histories of calls on the job store, and what holds after each of them.
use mathlib.Core.Path.{subst}
use snapdragon.Prelude.{ap, ℕ, String, ◌≡◌, refl, sym, ◌∙◌, Option, none, some, In, In-All}
use snapdragon.Prelude.Json.{Json}
use snapdragon.Prelude.Maps.{get, values, values-All}
use snapdragon.Prelude.Sorting.{All-sort}
use snapdragon.Gateway.Types.{JobSpec, JobStatus, Lease, running, completed, failed}
use snapdragon.Gateway.JobHelpers.{expires_before, sort_leases}
use snapdragon.Gateway.Jobs.{
  JobStore, empty, enqueue, cancel, acquire, lease_key, complete, fail, retry, active_leases,
}
use snapdragon.Gateway.Jobs.Valid.{IsValid, Agree, empty-IsValid}
use snapdragon.Gateway.Jobs.Keeps.{
  enqueue-IsValid, cancel-IsValid, finish-IsValid, retry-IsValid, acquire-IsValid,
}

-- A call of a method, at a time.
pub data Step (s : JobStore) : JobStore → Type 0 where
  enqueues : (spec : JobSpec) (id : String) (now : ℕ) → Step s (enqueue spec id now s).1
  cancels : (id : String) (now : ℕ) → Step s (cancel id now s).1
  acquires :
      (queue worker : String) (lease_ms now : ℕ) → Step s (acquire queue worker lease_ms now s).1
  completes : (id : String) (outcome : Option Json) (now : ℕ) → Step s (complete id outcome now s).1
  fails : (id error : String) (now : ℕ) → Step s (fail id error now s).1
  retries : (id : String) (now : ℕ) → Step s (retry id now s).1

-- Any calls, one after the other.
pub data Calls (s : JobStore) : JobStore → Type 0 where
  no_call : Calls s s
  then_call : {t u : JobStore} → Calls s t → Step t u → Calls s u

-- The call does not queue a job under an id that has a lease.
abbrev pub FreshId : {s t : JobStore} → Step s t → Type 0
FreshId {s} (enqueues spec id now) = get (lease_key id) s.leases ≡ none
FreshId (cancels id now) = Unit
FreshId (acquires queue worker lease_ms now) = Unit
FreshId (completes id outcome now) = Unit
FreshId (fails id error now) = Unit
FreshId (retries id now) = Unit

-- None of the calls does.
abbrev pub FreshIds : {s t : JobStore} → Calls s t → Type 0
FreshIds no_call = Unit
FreshIds (then_call calls st) = FreshIds calls × FreshId st

pub Step-IsValid : {s t : JobStore} (st : Step s t) → FreshId st → IsValid s → IsValid t
unfolding complete fail
Step-IsValid {s} (enqueues spec id now) idle v = enqueue-IsValid spec id now s idle v
Step-IsValid {s} (cancels id now) h v = cancel-IsValid id now s v
Step-IsValid {s} (acquires queue worker lease_ms now) h v =
    acquire-IsValid queue worker lease_ms now s v
Step-IsValid {s} (completes id outcome now) h v =
    finish-IsValid id completed outcome none now s refl v
Step-IsValid {s} (fails id error now) h v = finish-IsValid id failed none (some error) now s refl v
Step-IsValid {s} (retries id now) h v = retry-IsValid id now s v

pub Calls-IsValid : {s t : JobStore} (calls : Calls s t) → FreshIds calls → IsValid s → IsValid t
Calls-IsValid no_call h v = v
Calls-IsValid (then_call calls st) (h, k) v = Step-IsValid st k (Calls-IsValid calls h v)

-- The running job that a lease is for.
pub record IsHeld (s : JobStore) (lease : Lease) : Type 0 where
  pub job : JobStatus
  pub found : get lease.job_id s.jobs ≡ some job
  pub is_running : job.state ≡ running
  pub names_lease : job.lease_id ≡ some lease.id
  pub expires : job.lease_expires_at_ms ≡ some lease.expires_at_ms

IsHeld-at :
    (s : JobStore) (k : String) (lease : Lease) (oj : Option JobStatus)
    → get k s.jobs ≡ oj
    → lease.job_id ≡ k
    → Agree k oj (some lease)
    → IsHeld s lease
IsHeld-at s k lease none e same a = absurd a
IsHeld-at s k lease (some job) e same a = record {
  job = job;
  found = rw same e;
  is_running = a.1;
  names_lease = a.2 ∙ ap some (sym a.3);
  expires = a.5;
}

key-IsHeld :
    (s : JobStore)
    → IsValid s
    → (key : String) (lease : Lease) → get key s.leases ≡ some lease
    → IsHeld s lease
key-IsHeld s v key lease e =
    let k = lease.job_id in
    IsHeld-at s k lease (get k s.jobs) refl refl
      (subst (Agree k (get k s.jobs)) (rw (v.keyed key lease e) at e) (v.agree k))

-- After any calls on a new store, none of which queues a job under an id that has a lease then, each
-- active lease is for a running job, which names the lease and its expiry.
pub active_leases-IsHeld :
    (s : JobStore) (calls : Calls empty s) (lease : Lease)
    → FreshIds calls
    → In lease (active_leases s)
    → IsHeld s lease
unfolding active_leases sort_leases
active_leases-IsHeld s calls lease h member =
    let v = Calls-IsValid calls h empty-IsValid in
    In-All (IsHeld s) _ lease
      (All-sort expires_before (IsHeld s) (values s.leases)
        (values-All (IsHeld s) s.leases (key-IsHeld s v) v.unique_leases))
      member
