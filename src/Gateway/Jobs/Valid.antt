-- ===== src/Gateway/Jobs/Valid.antt =====
-- The store's invariant: jobs stand under their ids, and the leases are exactly those of the running
-- jobs.
use text.Mathlib.TextLemmas.{cons-append, append_cancel_left}
use mathlib.Core.Path.{subst}
use snapdragon.Prelude.{
  ap, or_else, ◌∙◌, Bool-cases, Option-cases, inl, inr, String, ◌≡◌, false, Option, none, some,
  arith, eq_iff, ◌==◌, if◌then◌else◌,
}
use snapdragon.Prelude.Maps.{
  Map, get, set, get-set, get-delete, HasUniqueKeys, set-HasUniqueKeys, delete-HasUniqueKeys,
}
use snapdragon.Prelude.Texts.{is_empty}
use snapdragon.Gateway.Types.{JobStatus, Lease, running, same_state}
use snapdragon.Gateway.Jobs.{JobStore, empty, lease_key, clear_lease}

pub is_empty-lease_key : (k : String) → is_empty (lease_key k) ≡ false
is_empty-lease_key k = rw (cons-append "l" "ease_" k)

pub lease_key-injective : (j k : String) → lease_key j ≡ lease_key k → j ≡ k
lease_key-injective j k h = append_cancel_left "lease_" j k h

pub lease_key-== : (j k : String) → (lease_key j == lease_key k) ≡ (j == k)
lease_key-== j k = ground (
  arith,
  eq_iff (lease_key j) (lease_key k),
  eq_iff j k,
  lease_key-injective j k,
  λ (e : j ≡ k). ap lease_key e,
)

-- What the job and the lease at one id must be to each other.
abbrev pub Agree : String → Option JobStatus → Option Lease → Type 0
Agree k none none = Unit
Agree k none (some lease) = ⊥
Agree k (some job) none =
    (job.id ≡ k) × (same_state job.state running ≡ false) × (job.lease_id ≡ none)
Agree k (some job) (some lease) =
    (job.id ≡ k)
    × (job.state ≡ running)
    × (job.lease_id ≡ some (lease_key k))
    × (lease.id ≡ lease_key k)
    × (lease.job_id ≡ k)
    × (job.lease_expires_at_ms ≡ some lease.expires_at_ms)

pub record IsValid (s : JobStore) : Type 0 where
  pub unique : HasUniqueKeys s.jobs
  pub unique_leases : HasUniqueKeys s.leases
  pub agree : (k : String) → Agree k (get k s.jobs) (get (lease_key k) s.leases)
  pub keyed :
      (key : String) (lease : Lease) → get key s.leases ≡ some lease → key ≡ lease_key lease.job_id

pub empty-IsValid : IsValid empty
unfolding get
empty-IsValid = record {
  unique = tt;
  unique_leases = tt;
  agree = λ k. tt;
  keyed = λ key lease e. cc;
}

-- A method that changes the job at one id, and the lease at that id's key, keeps the invariant.
pub Agree-elsewhere :
    (s : JobStore) (id : String) (job : JobStatus) (lease : Option Lease) (leases : Map Lease)
    → IsValid s
    → Agree id (some job) lease
    → ((k : String)
        → get (lease_key k) leases ≡ (if id == k then lease else get (lease_key k) s.leases))
    → (k : String) → Agree k (get k (set id job s.jobs)) (get (lease_key k) leases)
Agree-elsewhere s id job lease leases v a h k =
    rw (get-set id k job s.jobs, h k)
      (elim (Bool-cases (id == k)) [
        | inl e ↦ rw e (subst (λ j. Agree j (some job) lease) ((eq_iff id k).0 e) a)
        | inr e ↦ rw e (v.agree k)
      ])

-- `#clearLease` removes the lease at the job's own key, whether or not the job had one.
pub cleared :
    (id : String) (job : JobStatus) (leases : Map Lease)
    → Agree id (some job) (get (lease_key id) leases)
    → (k : String)
    → get (lease_key k) (clear_lease job leases)
      ≡ (if id == k then none else get (lease_key k) leases)
unfolding clear_lease
cleared id job leases a k = elim (Option-cases (get (lease_key id) leases)) [
  | inl e ↦
      let a' : Agree id (some job) none = rw e at a in
      rw a'.2 (elim (Bool-cases (id == k)) [
        | inl same ↦ rw (same, ← (eq_iff id k).0 same) e
        | inr other ↦ rw other
      ])
  | inr (lease, e) ↦
      let a' : Agree id (some job) (some lease) = rw e at a in
      rw (a'.2, is_empty-lease_key id, get-delete, lease_key-== id k)
]

pub Agree-id :
    (k : String) (job : JobStatus) (ol : Option Lease) → Agree k (some job) ol → job.id ≡ k
Agree-id k job none a = a.0
Agree-id k job (some lease) a = a.0

clear_lease-HasUniqueKeys :
    (job : JobStatus) (leases : Map Lease)
    → HasUniqueKeys leases
    → HasUniqueKeys (clear_lease job leases)
unfolding clear_lease
clear_lease-HasUniqueKeys job leases h = elim (Option-cases job.lease_id) [
  | inl e ↦ rw e h
  | inr (id, e) ↦ rw e (ground (arith, delete-HasUniqueKeys id leases h))
]

-- A lease that is left after `#clearLease` was there before.
get-clear_lease :
    (job : JobStatus) (leases : Map Lease) (key : String) (lease : Lease)
    → get key (clear_lease job leases) ≡ some lease
    → get key leases ≡ some lease
unfolding clear_lease
get-clear_lease job leases key lease h =
    ground (arith, get-delete (or_else job.lease_id "") key leases)

module _ (s : JobStore) (id : String) (job job' : JobStatus) (v : IsValid s) where
  -- The invariant after a method that ends the lease of the job at `id`, if it has one.
  pub settle_IsValid :
      get id s.jobs ≡ some job
      → job'.id ≡ job.id
      → same_state job'.state running ≡ false
      → job'.lease_id ≡ none
      → IsValid (record { jobs = set id job' s.jobs; leases = clear_lease job s.leases })
  settle_IsValid found same stopped unleased =
      let a : Agree id (some job) (get (lease_key id) s.leases) = rw found at (v.agree id) in
      record {
        unique = set-HasUniqueKeys id job' s.jobs v.unique;
        unique_leases = clear_lease-HasUniqueKeys job s.leases v.unique_leases;
        agree =
            Agree-elsewhere s id job' none (clear_lease job s.leases) v
              (same ∙ Agree-id id job (get (lease_key id) s.leases) a, stopped, unleased)
              (cleared id job s.leases a);
        keyed = λ key lease e. v.keyed key lease (get-clear_lease job s.leases key lease e);
      }
