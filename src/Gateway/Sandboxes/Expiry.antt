-- ===== src/Gateway/Sandboxes/Expiry.antt =====
-- What is left after the leases that have expired are dropped.
use mathlib.Core.Path.{subst}
use mathlib.Core.Bool.{false≢true}
use snapdragon.Prelude.{
  ◌&&◌, ◌↔◌, ℕ, ◌<◌, String, ◌≡◌, ◌≢◌, refl, sym, ◌∙◌, ap, true, false, Option, none, some, List,
  [], ◌∷◌, arith, ◌==◌, eq_iff, eq_refl, if◌then◌else◌, Bool-cases, Option-cases, inl, inr, All, In,
  In-All,
}
use snapdragon.Prelude.Maps.{
  get, delete, values, get-set, get-delete, HasUniqueKeys, values-All, In-values,
  delete-HasUniqueKeys, set-HasUniqueKeys,
}
use snapdragon.Prelude.Sorting.{All-sort, In-sort}
use snapdragon.Gateway.Effects.{
  LogLine, Outcome, throws, returns, Outcome-cases, returns-injective, >>=-eq-returns,
}
use snapdragon.Gateway.Sandboxes.{
  SandboxLease, SandboxStore, Expiring, is_expired, expire_one, expire_each, expire, list, show,
  release, release_found, checked_id, register, normalize_lease,
}

-- Leases stand under their ids, one for each.
pub record IsValid (s : SandboxStore) : Type 0 where
  pub unique : HasUniqueKeys s
  pub keyed : (k : String) (lease : SandboxLease) → get k s ≡ some lease → lease.id ≡ k

-- The lease does not expire, or later than at `now`.
abbrev pub IsLive : ℕ → SandboxLease → Type 0
IsLive now lease = (t : ℕ) → lease.expires_at_ms ≡ some t → now < t

get-expire_one :
    (now : ℕ) (lease : SandboxLease) (r : Expiring) (k : String)
    → get k (expire_one now lease r).1
      ≡ (if is_expired now lease && (lease.id == k) then none else get k r.1)
unfolding expire_one
get-expire_one now lease (count, s, lines) k = elim (Bool-cases (is_expired now lease)) [
  | inl e ↦ rw e (get-delete lease.id k s)
  | inr e ↦ rw e refl
]

-- The loop leaves at each key what was there, unless it is the id of a lease that it met and that
-- has expired.
expire_each_keeps :
    (now : ℕ) (leases : List SandboxLease) (r : Expiring) (k : String)
    → All (λ lease. is_expired now lease ≡ true → lease.id ≢ k) leases
    → get k (expire_each now leases r).1 ≡ get k r.1
unfolding expire_each
expire_each_keeps now [] r k h = refl
expire_each_keeps now (lease ∷ leases) r k (p, h) =
    expire_each_keeps now leases (expire_one now lease r) k h
    ∙ ground (arith, get-expire_one now lease r k, eq_iff lease.id k, p)

expire_each_gone :
    (now : ℕ) (leases : List SandboxLease) (r : Expiring) (k : String)
    → get k r.1 ≡ none
    → get k (expire_each now leases r).1 ≡ none
unfolding expire_each
expire_each_gone now [] r k h = h
expire_each_gone now (lease ∷ leases) r k h =
    expire_each_gone now leases (expire_one now lease r) k
      (ground (arith, get-expire_one now lease r k))

expire_each_drops :
    (now : ℕ) (leases : List SandboxLease) (r : Expiring) (lease : SandboxLease)
    → In lease leases
    → is_expired now lease ≡ true
    → get lease.id (expire_each now leases r).1 ≡ none
unfolding expire_each
expire_each_drops now [] r lease m e = elim m [ ]
expire_each_drops now (x ∷ leases) r lease (inl p) e =
    let expired : is_expired now x ≡ true =
      subst (λ (l : SandboxLease). is_expired now l ≡ true) p e in
    expire_each_gone now leases (expire_one now x r) lease.id
      (rw p (get-expire_one now x r x.id ∙ rw (expired, eq_refl) refl))
expire_each_drops now (x ∷ leases) r lease (inr m) e =
    expire_each_drops now leases (expire_one now x r) lease m e

expire_one-HasUniqueKeys :
    (now : ℕ) (lease : SandboxLease) (r : Expiring)
    → HasUniqueKeys r.1
    → HasUniqueKeys (expire_one now lease r).1
unfolding expire_one
expire_one-HasUniqueKeys now lease (count, s, lines) h = elim (Bool-cases (is_expired now lease)) [
  | inl e ↦ rw e (delete-HasUniqueKeys lease.id s h)
  | inr e ↦ rw e h
]

expire_each-HasUniqueKeys :
    (now : ℕ) (leases : List SandboxLease) (r : Expiring)
    → HasUniqueKeys r.1
    → HasUniqueKeys (expire_each now leases r).1
unfolding expire_each
expire_each-HasUniqueKeys now [] r h = h
expire_each-HasUniqueKeys now (lease ∷ leases) r h =
    expire_each-HasUniqueKeys now leases (expire_one now lease r)
      (expire_one-HasUniqueKeys now lease r h)

-- What `expire` leaves at a key: the lease that stood there, if it has not expired.
pub get-expire :
    (now : ℕ) (s : SandboxStore) (k : String)
    → IsValid s
    → ((lease : SandboxLease)
        → get k s ≡ some lease
        → get k (expire now s).1 ≡ (if is_expired now lease then none else some lease))
      × (get k s ≡ none → get k (expire now s).1 ≡ none)
unfolding expire
get-expire now s k v = (
  λ lease found. elim (Bool-cases (is_expired now lease)) [
    | inl e ↦ rw e (
        subst (λ j. get j (expire_each now (values s) (0, s, [])).1 ≡ none) (v.keyed k lease found)
          (expire_each_drops now (values s) (0, s, []) lease (In-values k lease s found) e))
    | inr e ↦ rw e (
        expire_each_keeps now (values s) (0, s, []) k
          (values-All _ s
            (λ j other at h same.
              let p : get k s ≡ some other =
                subst (λ i. get i s ≡ some other) (sym (v.keyed j other at) ∙ same) at in
              let q : other ≡ lease = cc (p, found) in
              absurd
                (false≢true (sym e ∙ subst (λ (l : SandboxLease). is_expired now l ≡ true) q h)))
            v.unique)
        ∙ found)
  ],
  λ absent. expire_each_gone now (values s) (0, s, []) k absent,
)

IsLive-not_expired :
    (now : ℕ) (lease : SandboxLease) → is_expired now lease ≡ false → IsLive now lease
unfolding is_expired
IsLive-not_expired now lease h t e = ground arith

not_expired_of_live :
    (now : ℕ) (lease : SandboxLease) → IsLive now lease → is_expired now lease ≡ false
unfolding is_expired
not_expired_of_live now lease h = elim (Option-cases lease.expires_at_ms) [
  | inl e ↦ rw e refl
  | inr (t, e) ↦ let later = h t e in rw e (ground arith)
]

left-IsLive :
    (now : ℕ) (s : SandboxStore) (k : String) (lease : SandboxLease)
    → IsValid s
    → get k (expire now s).1 ≡ some lease
    → IsLive now lease × (get k s ≡ some lease)
left-IsLive now s k lease v h = elim (Option-cases (get k s)) [
  | inl e ↦ absurd (ground (arith, (get-expire now s k v).1 e))
  | inr (old, e) ↦
      let kept = (get-expire now s k v).0 old e in
      elim (Bool-cases (is_expired now old)) [
        | inl x ↦ let gone : get k (expire now s).1 ≡ none = rw x at kept in cc (gone, h)
        | inr x ↦
            let stays : get k (expire now s).1 ≡ some old = rw x at kept in
            let same : old ≡ lease = cc (stays, h) in
            (subst (IsLive now) same (IsLive-not_expired now old x), e ∙ ap some same)
      ]
]

expire-HasUniqueKeys : (now : ℕ) (s : SandboxStore) → IsValid s → HasUniqueKeys (expire now s).1
unfolding expire
expire-HasUniqueKeys now s v = expire_each-HasUniqueKeys now (values s) (0, s, []) v.unique

-- `list` returns a lease exactly if it is in the store and live.
pub list-IsLive :
    (now : ℕ) (s : SandboxStore) (lease : SandboxLease)
    → IsValid s
    → In lease (list now s).0 ↔ (IsLive now lease × (get lease.id s ≡ some lease))
unfolding list
list-IsLive now s lease v = (
  In-All (λ x. IsLive now x × (get x.id s ≡ some x)) (list now s).0 lease
      (All-sort _ (λ lease. IsLive now lease × (get lease.id s ≡ some lease))
        (values (expire now s).1)
        (values-All _ (expire now s).1
          (λ k lease h.
            let (live, found) = left-IsLive now s k lease v h in
            (live, subst (λ j. get j s ≡ some lease) (sym (v.keyed k lease found)) found))
          (expire-HasUniqueKeys now s v))),
  λ (live, found). In-sort _ lease (values (expire now s).1) (
      In-values lease.id lease (expire now s).1 (
        (get-expire now s lease.id v).0 lease found
        ∙ rw (not_expired_of_live now lease live) refl)),
)

release_found-inv :
    (r : Outcome (Option SandboxLease) × SandboxStore × List LogLine) (lease : SandboxLease)
    → (release_found r).0 ≡ returns (some lease)
    → (r.0 ≡ returns (some lease)) × (get lease.id (release_found r).1 ≡ none)
release_found-inv (throws message, s, lines) lease h = cc h
release_found-inv (returns none, s, lines) lease h =
    let p : none ≡ some lease = returns-injective h in cc p
release_found-inv (returns (some other), s, lines) lease h =
    let p : some other ≡ some lease = returns-injective h in
    let q : other ≡ lease = cc p in
    (
      h,
      subst (λ (l : SandboxLease). get l.id (delete other.id s) ≡ none) q
          (rw (get-delete other.id other.id s, eq_refl) refl),
    )

show-inv :
    (id : String) (now : ℕ) (s : SandboxStore) (lease : SandboxLease)
    → (show id now s).0 ≡ returns (some lease)
    → (key : String) × (get key (expire now s).1 ≡ some lease)
unfolding show
show-inv id now s lease h =
    let (key, checked, found) = >>=-eq-returns (checked_id "sandbox lease id" id) _ h in
    (key, returns-injective found)

-- A lease that `release` returns was in the store and live, and the store no longer has it.
pub release-IsLive :
    (id : String) (now : ℕ) (s : SandboxStore) (lease : SandboxLease)
    → IsValid s
    → (release id now s).0 ≡ returns (some lease)
    → IsLive now lease × (get lease.id s ≡ some lease) × (get lease.id (release id now s).1 ≡ none)
unfolding release
release-IsLive id now s lease v h =
    let (shown, gone) = release_found-inv (show id now s) lease h in
    let (key, found) = show-inv id now s lease shown in
    let (live, at_key) = left-IsLive now s key lease v found in
    (live, subst (λ j. get j s ≡ some lease) (sym (v.keyed key lease at_key)) at_key, gone)

pub register-IsValid :
    (input : SandboxLease) (now : ℕ) (s : SandboxStore)
    → IsValid s
    → IsValid (register input now s).1
unfolding register
register-IsValid input now s v = elim (Outcome-cases (normalize_lease input now)) [
  | inl (message, e) ↦ rw (e, register) v
  | inr (lease, e) ↦
      rw (e, register)
        (record {
          unique = set-HasUniqueKeys lease.id lease s v.unique;
          keyed = λ k other h. elim (Bool-cases (lease.id == k)) [
            | inl same ↦
                let p : some lease ≡ some other = rw (get-set lease.id k lease s, same) at h in
                let q : lease ≡ other = cc p in
                subst (λ (l : SandboxLease). l.id ≡ k) q ((eq_iff lease.id k).0 same)
            | inr differs ↦ v.keyed k other (rw (get-set lease.id k lease s, differs) at h)
          ];
        })
]

pub expire-IsValid : (now : ℕ) (s : SandboxStore) → IsValid s → IsValid (expire now s).1
expire-IsValid now s v = record {
  unique = expire-HasUniqueKeys now s v;
  keyed = λ k lease h. v.keyed k lease (left-IsLive now s k lease v h).1;
}
