-- ===== src/Gateway/Services/Running.antt =====
-- Runs that other calls overtake.
use mathlib.Core.Path.{subst}
use snapdragon.Prelude.{
  ℕ, ◌<◌, String, ◌≡◌, ◌≢◌, refl, sym, ◌∙◌, Bool, true, false, Option, some, [], ◌∷◌, arith, eq_iff,
  eq_refl, Option-cases, inl, inr, length, length-append, get_elem?, put, get_elem?-put_self,
  get_elem?-put_ne, get_elem?-append_end, get_elem?-append_old,
}
use snapdragon.Prelude.Maps.{get, get-set}
use snapdragon.Gateway.Services.Records.{ServiceSpec, Service, RunResult, resolved, running}
use snapdragon.Gateway.Services.{
  ServiceStore, empty, service_state, register, service_at, enable, enabled_service, change,
  begin_run, started, end_run, finished_service,
}

-- Each name stands for a service of its own that exists.
pub record IsValid (s : ServiceStore) : Type 0 where
  pub exists : (name : String) (r : ℕ) → get name s.names ≡ some r → r < length s.heap
  pub distinct : (a b : String) (r : ℕ) → get a s.names ≡ some r → get b s.names ≡ some r → a ≡ b

pub empty-IsValid : IsValid empty
unfolding get
empty-IsValid = record { exists = λ n r h. cc h; distinct = λ a b r h k. cc h }

pub register-IsValid :
    (spec : ServiceSpec) (has_runner : Bool) (s : ServiceStore)
    → IsValid s
    → IsValid (register spec has_runner s)
unfolding register
register-IsValid spec has_runner s v = record {
  exists = λ name r h. ground (
    arith,
    get-set spec.name name (length s.heap) s.names,
    length-append {0} s.heap (service_state spec has_runner ∷ []),
    v.exists name r,
  );
  distinct = λ a b r h k. ground (
    arith,
    get-set spec.name a (length s.heap) s.names,
    get-set spec.name b (length s.heap) s.names,
    eq_iff spec.name a,
    eq_iff spec.name b,
    v.exists a r,
    v.exists b r,
    v.distinct a b r,
  );
}

-- What a name stands for, once its place is known.
service_at_place :
    (name : String) (r : ℕ) (s : ServiceStore)
    → get name s.names ≡ some r
    → service_at name s ≡ get_elem? s.heap r
unfolding service_at
service_at_place name r s h = rw (h, service_at)

-- An enabled service stands at the place.
abbrev HasEnabled : ServiceStore → ℕ → Type 0
HasEnabled s r =
    (service : Service) × (get_elem? s.heap r ≡ some service) × (service.status.enabled ≡ true)

started_place :
    (name : String) (r : ℕ) (s : ServiceStore)
    → begin_run name s ≡ started r
    → (get name s.names ≡ some r) × HasEnabled s r
unfolding begin_run
started_place name r s h = elim (Option-cases (get name s.names)) [
  | inl e ↦ absurd (ground arith)
  | inr (q, e) ↦ elim (Option-cases (get_elem? s.heap q)) [
    | inl f ↦ absurd (ground arith)
    | inr (service, f) ↦
        let same : q ≡ r = ground arith in (rw (← same) e, (service, rw (← same) f, ground arith))
  ]
]

-- A service that is registered anew while a run of the old one works is not touched when that run
-- ends, however it ends.
pub end_run_replaced :
    (name : String) (r : ℕ) (spec : ServiceSpec) (has_runner : Bool) (result : RunResult) (now : ℕ)
    (s : ServiceStore)
    → IsValid s
    → begin_run name s ≡ started r
    → spec.name ≡ name
    → service_at name (end_run r result now (register spec has_runner s)).1
      ≡ some (service_state spec has_runner)
unfolding end_run register
end_run_replaced name r spec has_runner result now s v began same =
    let (place, at) = started_place name r s began in
    let (service, found, enabled) = at in
    let t = register spec has_runner s in
    let old : get_elem? t.heap r ≡ some service = get_elem?-append_old s.heap _ r found in
    let new_place : get name t.names ≡ some (length s.heap) =
      rw (get-set spec.name name (length s.heap) s.names, same, eq_refl) refl in
    let later : r ≢ length s.heap = λ e. absurd (omega (arith, v.exists name r place)) in
    let stays : get_elem? (put r (finished_service result now service) t.heap) (length s.heap)
        ≡ some (service_state spec has_runner) =
      get_elem?-put_ne r (length s.heap) _ t.heap later
      ∙ get_elem?-append_end s.heap (service_state spec has_runner) in
    rw (old, end_run) (service_at_place name (length s.heap) _ new_place ∙ stays)

-- The end of a run touches no service but the one that was run.
pub end_run_others :
    (name other : String) (r : ℕ) (result : RunResult) (now : ℕ) (s : ServiceStore)
    → IsValid s
    → begin_run name s ≡ started r
    → other ≢ name
    → service_at other (end_run r result now s).1 ≡ service_at other s
unfolding end_run
end_run_others name other r result now s v began differs =
    let (place, at) = started_place name r s began in
    let (service, found, enabled) = at in
    rw (found, end_run)
      (elim (Option-cases (get other s.names)) [
        | inl e ↦ unfold service_at in rw (e, service_at)
        | inr (q, e) ↦
            let elsewhere : r ≢ q = λ h. differs (v.distinct other name q e (rw (← h) place)) in
            service_at_place other q _ e
            ∙ get_elem?-put_ne r q _ s.heap elsewhere
            ∙ sym (service_at_place other q s e)
      ])

-- A service that is disabled while its run works, and whose run then ends well, is disabled and
-- reports the state `running`.
pub end_run_disabled :
    (name : String) (r : ℕ) (summary : Option String) (now : ℕ) (s : ServiceStore)
    → begin_run name s ≡ started r
    → (service : Service) × (service_at name
          (end_run r (resolved summary) now (enable name false s).1).1
        ≡ some service)
      × (service.status.enabled ≡ false)
      × (service.status.state ≡ running)
unfolding end_run finished_service enable
end_run_disabled name r summary now s began =
    let (place, at) = started_place name r s began in
    let (service, found, enabled) = at in
    let off = enabled_service false service in
    let t : ServiceStore = record s { heap = put r off s.heap } in
    let disabled : (enable name false s).1 ≡ t = rw (place, enable, found, change) refl in
    let found' : get_elem? t.heap r ≡ some off = get_elem?-put_self r off service s.heap found in
    let done = finished_service (resolved summary) now off in
    let stays : get_elem? (put r done t.heap) r ≡ some done =
      get_elem?-put_self r done off t.heap found' in
    (
      done,
      subst
          (λ (u : ServiceStore). service_at name (end_run r (resolved summary) now u).1 ≡ some done)
          (sym disabled) (rw (found', end_run) (service_at_place name r _ place ∙ stays)),
      ground arith,
      ground arith,
    )
