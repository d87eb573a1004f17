-- ===== src/Gateway/Filters/Selected.antt =====
-- What the filters keep, in terms of the options that are given.
use mathlib.Core.Bool.{false≢true}
use snapdragon.Prelude.{
  ℕ, zero, suc, ◌-◌, String, ◌≡◌, ◌↔◌, refl, sym, ◌∙◌, ap, Bool, true, false, ◌&&◌, Option, none,
  some, List, [], ◌∷◌, arith, ◌==◌, eq_iff, or_else, Bool-cases, inl, inr, filter, has_some, All,
  All-filter_keep, All-imp, All-drop, In, length, drop, length-drop, slice_last, same_text,
}
use snapdragon.Prelude.Texts.{is_empty}
use snapdragon.Gateway.Types.{JobStatus}
use snapdragon.Gateway.Logs.{LogRecord, LogStore, about, tail}
use snapdragon.Gateway.Workers.Records.{Worker}
use snapdragon.Gateway.Filters.{
  WorldOptions, by, includes, job_state_text, worker_state_text, filter_jobs, filter_workers,
  filter_logs,
}

module _ {A : Type 0} where
  pub In-filter :
      (keep : A → Bool) (xs : List A) (a : A) → In a (filter keep xs) ↔ (In a xs × (keep a ≡ true))
  In-filter keep [] a = (λ m. elim m [ ], λ h. elim h.0 [ ])
  In-filter keep (x ∷ xs) a =
      let (to, from) = In-filter keep xs a in
      elim (Bool-cases (keep x)) [
        | inl e ↦ rw e (
          λ m. elim m [ inl p ↦ (inl p, ap keep p ∙ e) | inr q ↦ (inr (to q).0, (to q).1) ],
          λ h. elim h.0 [ inl p ↦ inl p | inr q ↦ inr (from (q, h.1)) ],
        )
        | inr e ↦ rw e (
          λ m. (inr (to m).0, (to m).1),
          λ h. elim h.0 [
            | inl p ↦ absurd (false≢true (sym e ∙ ap keep (sym p) ∙ h.1))
            | inr q ↦ from (q, h.1)
          ],
        )
      ]

-- An option that is given is what the item has.
abbrev pub Fits : Option String → Option String → Type 0
Fits none actual = Unit
Fits (some expected) actual = actual ≡ some expected

abbrev pub FitsSome : Option String → List String → Type 0
FitsSome none actual = Unit
FitsSome (some expected) actual = In expected actual

by-Fits :
    {T : Type 0} (expected : Option String) (select : T → Option String) (item : T)
    → (by expected select item ≡ true) ↔ Fits expected (select item)
by-Fits none select item = (λ h. tt, λ h. refl)
by-Fits (some expected) select item = go (select item)
  where
    go :
        (actual : Option String)
        → (elim actual [ none ↦ false | some v ↦ v == expected ] ≡ true) ↔ (actual ≡ some expected)
    go none = (λ h. absurd (false≢true h), λ h. cc h)
    go (some v) = (
      λ h. ap some ((eq_iff v expected).0 h),
      λ h. let p : v ≡ expected = cc h in (eq_iff v expected).1 p,
    )

pub has_some-In :
    (expected : String) (xs : List String)
    → (has_some (λ v. v == expected) xs ≡ true) ↔ In expected xs
has_some-In expected [] = (λ h. absurd (false≢true h), λ m. elim m [ ])
has_some-In expected (x ∷ xs) =
    let (to, from) = has_some-In expected xs in
    elim (Bool-cases (x == expected)) [
      | inl e ↦ rw e (λ h. inl (sym ((eq_iff x expected).0 e)), λ m. refl)
      | inr e ↦ rw e (
        λ h. inr (to h),
        λ m. elim m [
          | inl p ↦ absurd (false≢true (sym e ∙ (eq_iff x expected).1 (sym p)))
          | inr q ↦ from q
        ],
      )
    ]

includes-FitsSome :
    {T : Type 0} (expected : Option String) (select : T → List String) (item : T)
    → (includes expected select item ≡ true) ↔ FitsSome expected (select item)
includes-FitsSome none select item = (λ h. tt, λ h. refl)
includes-FitsSome (some expected) select item = has_some-In expected (select item)

and_iff :
    {P Q : Type 0} {a b : Bool} → (a ≡ true) ↔ P → (b ≡ true) ↔ Q → ((a && b) ≡ true) ↔ (P × Q)
and_iff {a = true} {b = b} (p, p') (q, q') = (λ h. (p refl, q h), λ h. q' h.1)
and_iff {a = false} {b = b} (p, p') (q, q') = (λ h. absurd (false≢true h), λ h. p' h.0)

last_iff : {P : Type 0} {a : Bool} → (a ≡ true) ↔ P → ((a && true) ≡ true) ↔ P
last_iff {a = true} h = h
last_iff {a = false} h = h

-- A job is kept exactly if it was there and has the id, the queue, the kind and the state that the
-- options ask for.
pub filter_jobs-Fits :
    (jobs : List JobStatus) (options : WorldOptions) (job : JobStatus)
    → In job (filter_jobs jobs options) ↔ (
        In job jobs
        × Fits options.target (some job.id)
        × Fits options.queue (some job.spec.queue)
        × Fits options.job_kind (some job.spec.kind)
        × Fits options.job_state (some (job_state_text job.state)))
unfolding filter_jobs
filter_jobs-Fits jobs options job =
    let (to, from) = In-filter _ jobs job in
    let (p, q) = and_iff (by-Fits options.target (λ (j : JobStatus). some j.id) job) (
      and_iff (by-Fits options.queue (λ (j : JobStatus). some j.spec.queue) job) (
        and_iff (by-Fits options.job_kind (λ (j : JobStatus). some j.spec.kind) job) (
          last_iff
            (by-Fits options.job_state (λ (j : JobStatus). some (job_state_text j.state)) job)))) in
    (
      λ m. let (w, (x, (y, z))) = p (to m).1 in ((to m).0, w, x, y, z),
      λ (m, w, x, y, z). from (m, q (w, (x, (y, z)))),
    )

-- A worker is kept exactly if it was there, has the id, the queue, the runtime, the service and the
-- state that the options ask for, and offers the capability.
pub filter_workers-Fits :
    (workers : List Worker) (options : WorldOptions) (worker : Worker)
    → In worker (filter_workers workers options) ↔ (
        In worker workers
        × Fits options.worker (some worker.id)
        × Fits options.queue (some worker.queue)
        × Fits options.runtime_id worker.runtime_id
        × Fits options.service worker.service
        × Fits options.worker_state (some (worker_state_text worker.state))
        × FitsSome options.capability worker.capabilities)
unfolding filter_workers
filter_workers-Fits workers options worker =
    let (to, from) = In-filter _ workers worker in
    let (p, q) = and_iff (by-Fits options.worker (λ (w : Worker). some w.id) worker) (
      and_iff (by-Fits options.queue (λ (w : Worker). some w.queue) worker) (
        and_iff (by-Fits options.runtime_id (λ (w : Worker). w.runtime_id) worker) (
          and_iff (by-Fits options.service (λ (w : Worker). w.service) worker) (
            and_iff
              (by-Fits options.worker_state (λ (w : Worker). some (worker_state_text w.state))
                worker)
              (last_iff (
                includes-FitsSome options.capability (λ (w : Worker). w.capabilities)
                  worker)))))) in
    (
      λ m. let (u, (v, (w, (x, (y, z))))) = p (to m).1 in ((to m).0, u, v, w, x, y, z),
      λ (m, u, v, w, x, y, z). from (m, q (u, (v, (w, (x, (y, z)))))),
    )

filter-all_kept :
    {A : Type 0} (keep : A → Bool) (xs : List A) → All (λ x. keep x ≡ true) xs → filter keep xs ≡ xs
filter-all_kept keep [] h = refl
filter-all_kept keep (x ∷ xs) (p, h) = rw (p, filter-all_kept keep xs h) refl

drop-nothing : {A : Type 0} (n : ℕ) (xs : List A) → n ≡ 0 → drop n xs ≡ xs
drop-nothing zero xs h = refl
drop-nothing (suc n) xs h = absurd (omega arith)

slice_last-slice_last :
    {A : Type 0} (n : ℕ) (xs : List A) → slice_last n (slice_last n xs) ≡ slice_last n xs
slice_last-slice_last zero xs = refl
slice_last-slice_last (suc n) xs =
    drop-nothing _ _ (omega (arith, length-drop (length xs - suc n) xs))

All-slice_last :
    {A : Type 0} (P : A → Type 0) (n : ℕ) (xs : List A) → All P xs → All P (slice_last n xs)
All-slice_last P zero xs h = h
All-slice_last P (suc n) xs h = All-drop P (length xs - suc n) xs h

-- The log of a snapshot is what `tail` gives for its target and limit: filtering that again changes
-- nothing, if the target is not the empty text.
pub filter_logs-tail :
    (target : String) (options : WorldOptions) (logs : LogStore)
    → is_empty target ≡ false
    → options.target ≡ some target
    → filter_logs (tail (some target) (some (or_else options.log_limit 50)) logs) options
      ≡ tail (some target) (some (or_else options.log_limit 50)) logs
unfolding filter_logs tail
filter_logs-tail target options logs e same =
    let n = or_else options.log_limit 50 in
    let keep = λ (log : LogRecord). same_text log.target (some target) in
    let kept : All (λ log. keep log ≡ true) (about (some target) logs) =
      rw e (All-filter_keep keep logs) in
    let again : All (λ log. by (some target) (λ (l : LogRecord). l.target) log ≡ true)
        (about (some target) logs) =
      All-imp _ _ (λ log h. by_of_same target log h) _ kept in
    rw same (
      ap (slice_last n) (
        filter-all_kept (by (some target) (λ (l : LogRecord). l.target))
          (slice_last n (about (some target) logs))
          (All-slice_last _ n (about (some target) logs) again))
      ∙ slice_last-slice_last n (about (some target) logs))
  where
    by_of_same :
        (t : String) (log : LogRecord)
        → same_text log.target (some t) ≡ true
        → by (some t) (λ (l : LogRecord). l.target) log ≡ true
    by_of_same t log h = go log.target h
      where
        go :
            (o : Option String)
            → same_text o (some t) ≡ true
            → elim o [ none ↦ false | some v ↦ v == t ] ≡ true
        go none h = absurd (false≢true h)
        go (some v) h = h
