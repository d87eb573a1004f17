-- ===== src/Gateway/Registry/Members.antt =====
-- The actors that are found under a capability are those that registered for it, each once.
use snapdragon.Prelude.{
  String, ◌≡◌, refl, sym, ap, ◌↔◌, true, List, [], ◌∷◌, ◌++◌, arith, ◌==◌, eq_iff, eq_refl,
  if◌then◌else◌, or_else, Bool-cases, inl, inr, ◌⊎◌, In, map, has_some,
}
use snapdragon.Prelude.Maps.{get, get-set}
use snapdragon.Gateway.Mailboxes.{ActorId}
use snapdragon.Gateway.Registry.{CapabilityRegistry, add_member, register, whereis, actor_of}

-- Registrations, the latest first.
pub registers : List (String × ActorId) → CapabilityRegistry → CapabilityRegistry
unfolding register
registers [] s = s
registers ((capability, actor) ∷ earlier) s = register capability actor (registers earlier s)

has_some-In : (id : String) (xs : List String) → has_some (λ m. m == id) xs ≡ true → In id xs
has_some-In id [] h = cc h
has_some-In id (x ∷ xs) h = elim (Bool-cases (x == id)) [
  | inl e ↦ inl (sym ((eq_iff x id).0 e))
  | inr e ↦ inr (has_some-In id xs (rw e at h))
]

In-has_some : (id : String) (xs : List String) → In id xs → has_some (λ m. m == id) xs ≡ true
In-has_some id [] h = elim h [ ]
In-has_some id (x ∷ xs) (inl e) = rw (e, eq_refl) refl
In-has_some id (x ∷ xs) (inr h) = ground (arith, In-has_some id xs h)

In-append_end : (a x : String) (xs : List String) → In a (xs ++ x ∷ []) ↔ ((a ≡ x) ⊎ In a xs)
In-append_end a x [] = (λ h. h, λ h. h)
In-append_end a x (y ∷ xs) = let (p, q) = In-append_end a x xs in ground (arith, p, q)

In-add_member : (a x : String) (xs : List String) → In a (add_member x xs) ↔ ((a ≡ x) ⊎ In a xs)
unfolding add_member
In-add_member a x xs = elim (Bool-cases (has_some (λ m. m == x) xs)) [
  | inl e ↦ rw e (λ h. inr h, λ h. elim h [ inl p ↦ rw p (has_some-In x xs e) | inr p ↦ p ])
  | inr e ↦ rw e (In-append_end a x xs)
]

-- No member stands twice.
abbrev pub IsDistinct : List String → Type 0
IsDistinct [] = Unit
IsDistinct (x ∷ xs) = (¬ In x xs) × IsDistinct xs

IsDistinct-append_end :
    (x : String) (xs : List String) → ¬ In x xs → IsDistinct xs → IsDistinct (xs ++ x ∷ [])
IsDistinct-append_end x [] h d = ((λ m. m), tt)
IsDistinct-append_end x (y ∷ xs) h (p, d) = (
  λ m. elim ((In-append_end y x xs).0 m) [ inl e ↦ h (inl (sym e)) | inr q ↦ p q ],
  IsDistinct-append_end x xs (λ m. h (inr m)) d,
)

add_member-IsDistinct :
    (x : String) (xs : List String) → IsDistinct xs → IsDistinct (add_member x xs)
unfolding add_member
add_member-IsDistinct x xs d = elim (Bool-cases (has_some (λ m. m == x) xs)) [
  | inl e ↦ rw e d
  | inr e ↦ rw e (IsDistinct-append_end x xs (λ m. cc (e, In-has_some x xs m)) d)
]

unfoldable pub members : String → CapabilityRegistry → List String
members capability s = or_else (get capability s) []

members-register :
    (capability other : String) (actor : ActorId) (s : CapabilityRegistry)
    → members capability (register other actor s) ≡ (
        if other == capability then add_member actor.id (members other s) else members capability s)
unfolding members register
members-register capability other actor s =
    rw (get-set other capability (add_member actor.id (members other s)) s)
      (elim (Bool-cases (other == capability)) [ inl e ↦ rw e refl | inr e ↦ rw e refl ])

-- One of the calls registered the actor of this id for the capability.
abbrev pub Registered : String → String → List (String × ActorId) → Type 0
Registered capability id [] = ⊥
Registered capability id ((other, actor) ∷ earlier) =
    ((other ≡ capability) × (id ≡ actor.id)) ⊎ Registered capability id earlier

-- After any registrations, an actor is a member of a capability exactly if one of them registered
-- it, and no member stands twice.
pub members-registers :
    (capability id : String) (calls : List (String × ActorId))
    → (In id (members capability (registers calls [])) ↔ Registered capability id calls)
      × IsDistinct (members capability (registers calls []))
unfolding registers
members-registers capability id [] = unfold members get in ((λ h. h, λ h. h), tt)
members-registers capability id ((other, actor) ∷ earlier) =
    let before = registers earlier [] in
    let (both, distinct) = members-registers capability id earlier in
    let (to, from) = both in
    elim (Bool-cases (other == capability)) [
      | inl e ↦
          let same : other ≡ capability = (eq_iff other capability).0 e in
          let now : members capability (register other actor before)
              ≡ add_member actor.id (members capability before) =
            rw (members-register capability other actor before, e, ← same) refl in
          let (into, out) = In-add_member id actor.id (members capability before) in
          rw now (
            (
              λ h. elim (into h) [ inl q ↦ inl (same, q) | inr m ↦ inr (to m) ],
              λ h. elim h [ inl q ↦ out (inl q.1) | inr m ↦ out (inr (from m)) ],
            ),
            add_member-IsDistinct actor.id (members capability before) distinct,
          )
      | inr e ↦
          let now : members capability (register other actor before) ≡ members capability before =
            rw (members-register capability other actor before, e) refl in
          rw now (
            (
              λ h. inr (to h),
              λ h. elim h [
                | inl q ↦ absurd (ground (arith, eq_iff other capability, q.0))
                | inr m ↦ from m
              ],
            ),
            distinct,
          )
    ]

In-map_actor : (id : String) (ids : List String) → In (actor_of id) (map actor_of ids) ↔ In id ids
In-map_actor id [] = (λ h. h, λ h. h)
In-map_actor id (x ∷ ids) =
    let (p, q) = In-map_actor id ids in
    (
      λ h. elim h [ inl e ↦ inl (ap (λ (a : ActorId). a.id) e) | inr m ↦ inr (p m) ],
      λ h. elim h [ inl e ↦ inl (ap actor_of e) | inr m ↦ inr (q m) ],
    )

-- After any registrations `whereis` finds, for a capability, exactly the actors that registered for
-- it.
pub whereis-registers :
    (capability id : String) (calls : List (String × ActorId))
    → In (actor_of id) (whereis capability (registers calls [])) ↔ Registered capability id calls
unfolding whereis members
whereis-registers capability id calls =
    let (p, q) = In-map_actor id (members capability (registers calls [])) in
    let (both, distinct) = members-registers capability id calls in
    let (to, from) = both in (λ h. to (p h), λ h. q (from h))
