-- ===== src/Learn/Dominance.antt =====
-- What it is for a candidate to dominate another (`dominates` in packages/learn/src/gepa-selection.ts).
use snapdragon.Prelude.{
  ℕ, ◌+◌, ◌<◌, ◌≡◌, ◌↔◌, refl, sym, ap, ◌∙◌, ◌⊎◌, String, Bool, true, false, ◌||◌, Bool-cases, inl,
  inr, none, some, Option-cases, [], ◌∷◌, All, All-imp, In, In-All, arith, ◌==◌, eq_iff, eq_refl,
}
use mathlib.Core.Path.{subst}
use snapdragon.Prelude.Maps.{Map, get, HasUniqueKeys, Lacks}
use snapdragon.Learn.Doubles.{Double}
use snapdragon.Learn.Candidates.{Candidate}
use snapdragon.Learn.Selection.{dominates_from, dominates}

other_key : (j k : String) → (j == k) ≡ false → (k == j) ≡ false
other_key j k e = ground (arith, e, eq_iff j k, eq_iff k j)

later-get :
    {D : Type 0} (k : String) (v : D) (m entries : Map D)
    → Lacks k entries
    → All (λ e. get e.0 m ≡ some e.1) entries
    → All (λ e. get e.0 ((k, v) ∷ m) ≡ some e.1) entries
unfolding get
later-get k v m [] h g = tt
later-get k v m ((j, w) ∷ entries) (e, h) (f, g) =
    let miss = other_key j k e in (rw miss f, later-get k v m entries h g)

pub entries-get : {D : Type 0} (m : Map D) → HasUniqueKeys m → All (λ e. get e.0 m ≡ some e.1) m
unfolding get
entries-get [] h = tt
entries-get ((k, v) ∷ m) (p, h) = (rw (eq_refl k) refl, later-get k v m m p (entries-get m h))

get-In : {D : Type 0} (k : String) (v : D) (m : Map D) → get k m ≡ some v → In (k, v) m
unfolding get
get-In k v [] e = cc
get-In k v ((j, w) ∷ m) e = elim (Bool-cases (j == k)) [
  | inl f ↦
      let here : some w ≡ some v = rw f at e in
      let same : k ≡ j = sym ((eq_iff j k).0 f) in let value : v ≡ w = cc in inl cc
  | inr f ↦ inr (get-In k v m (rw f at e))
]

module _ {D : Type 0} (double : Double D) where
  -- At no task of both scores is the first below the second.
  abbrev pub NeverBelow : Map D → Map D → Type 0
  NeverBelow a b =
      (task : String) (av bv : D)
      → get task a ≡ some av
      → get task b ≡ some bv
      → double.lt av bv ≡ false

  -- At some task of both the first is above the second.
  abbrev pub SomeAbove : Map D → Map D → Type 0
  SomeAbove a b =
      (task : String) × (av : D) × (bv : D) × (get task a ≡ some av)
      × (get task b ≡ some bv)
      × (double.lt bv av ≡ true)

  abbrev pub Dominates : Candidate D → Candidate D → Type 0
  Dominates a b =
      NeverBelow a.scores_by_task b.scores_by_task × SomeAbove a.scores_by_task b.scores_by_task

  -- The same of the entries that the loop has still to look at.
  abbrev Kept : Map D → Map D → Type 0
  Kept others entries =
      All (λ e. (bv : D) → get e.0 others ≡ some bv → double.lt e.1 bv ≡ false) entries

  abbrev Strict : Map D → Map D → Type 0
  Strict others entries =
      (k : String) × (av : D) × (bv : D) × In (k, av) entries
      × (get k others ≡ some bv)
      × (double.lt bv av ≡ true)

  later-Strict :
      (others entries : Map D) (e : String × D)
      → Strict others entries
      → Strict others (e ∷ entries)
  later-Strict others entries e (k, av, bv, m, f, g) = (k, av, bv, inr m, f, g)

  dominates_from-true :
      (others : Map D) (n : ℕ) (strictly : Bool) (entries : Map D)
      → dominates_from double others n strictly entries ≡ true
      → Kept others entries × ((strictly ≡ true) ⊎ Strict others entries)
  unfolding dominates_from
  dominates_from-true others n strictly [] e = (tt, inl (ground arith))
  dominates_from-true others n strictly ((k, av) ∷ entries) e = elim (Option-cases (get k others)) [
    | inl f ↦
        let (never, why) =
          dominates_from-true others n strictly entries (rw (dominates_from, f) at e) in
        (
          (λ bv g. let nothing : none ≡ some bv = sym f ∙ g in cc, never),
          elim why [ inl t ↦ inl t | inr t ↦ inr (later-Strict others entries (k, av) t) ],
        )
    | inr (bv, f) ↦ elim (Bool-cases (double.lt av bv)) [
      | inl g ↦ let stop : false ≡ true = rw (dominates_from, f, g) at e in cc
      | inr g ↦
          let (never, why) =
            dominates_from-true others (n + 1) (strictly || double.lt bv av) entries
              (rw (dominates_from, f, g) at e) in
          (
            (
              λ cv h.
                  let both : some bv ≡ some cv = sym f ∙ h in
                  let same : bv ≡ cv = cc in subst (λ v. double.lt av v ≡ false) same g,
              never,
            ),
            elim why [
              | inl t ↦ elim (Bool-cases (double.lt bv av)) [
                | inl u ↦ inr (k, av, bv, inl refl, f, u)
                | inr u ↦ inl (ground (arith, t, u))
              ]
              | inr t ↦ inr (later-Strict others entries (k, av) t)
            ],
          )
    ]
  ]

  -- The loop has seen a task of both, and a strict one, or finds them yet.
  abbrev Witnessed : Map D → ℕ → Bool → Map D → Type 0
  Witnessed others n strictly entries = ((0 < n) × (strictly ≡ true)) ⊎ Strict others entries

  skipped :
      (others : Map D) (n : ℕ) (strictly : Bool) (k : String) (av : D) (entries : Map D)
      → get k others ≡ none
      → Witnessed others n strictly ((k, av) ∷ entries)
      → Witnessed others n strictly entries
  skipped others n strictly k av entries f (inl seen) = inl seen
  skipped others n strictly k av entries f (inr (j, aw, bw, inr m, g, u)) = inr (j, aw, bw, m, g, u)
  skipped others n strictly k av entries f (inr (j, aw, bw, inl e, g, u)) =
      let same : j ≡ k = ap (λ x. x.0) e in
      let nothing : none ≡ some bw = sym f ∙ (ap (λ x. get x others) (sym same) ∙ g) in cc

  passed :
      (others : Map D) (n : ℕ) (strictly : Bool) (k : String) (av bv : D) (entries : Map D)
      → get k others ≡ some bv
      → Witnessed others n strictly ((k, av) ∷ entries)
      → Witnessed others (n + 1) (strictly || double.lt bv av) entries
  passed others n strictly k av bv entries f (inl (p, e)) = inl (omega arith, rw e refl)
  passed others n strictly k av bv entries f (inr (j, aw, bw, inr m, g, u)) =
      inr (j, aw, bw, m, g, u)
  passed others n strictly k av bv entries f (inr (j, aw, bw, inl e, g, u)) =
      let same : j ≡ k = ap (λ x. x.0) e in
      let value : aw ≡ av = ap (λ x. x.1) e in
      let found : some bw ≡ some bv = sym g ∙ (ap (λ x. get x others) same ∙ f) in
      let other : bw ≡ bv = cc in
      let above : double.lt bv av ≡ true = rw (← value, ← other) u in
      inl (omega arith, ground (arith, above))

  dominates_from-Kept :
      (others : Map D) (n : ℕ) (strictly : Bool) (entries : Map D)
      → Kept others entries
      → Witnessed others n strictly entries
      → dominates_from double others n strictly entries ≡ true
  unfolding dominates_from
  dominates_from-Kept others n strictly [] h (inl (p, e)) = ground (arith, p, e)
  dominates_from-Kept others n strictly [] h (inr (k, av, bv, m, f, g)) = absurd m
  dominates_from-Kept others n strictly ((k, av) ∷ entries) (h, hs) why =
      elim (Option-cases (get k others)) [
        | inl f ↦
            rw (dominates_from, f)
              (dominates_from-Kept others n strictly entries hs
                (skipped others n strictly k av entries f why))
        | inr (bv, f) ↦
            rw (dominates_from, f, h bv f)
              (dominates_from-Kept others (n + 1) (strictly || double.lt bv av) entries hs
                (passed others n strictly k av bv entries f why))
      ]

  -- The loop decides dominance, where each task has one score.
  pub dominates-Dominates :
      (a b : Candidate D)
      → HasUniqueKeys a.scores_by_task
      → (dominates double a b ≡ true) ↔ Dominates a b
  unfolding dominates
  dominates-Dominates a b h =
      let entries = a.scores_by_task in
      let others = b.scores_by_task in
      let at_get : All (λ e. get e.0 entries ≡ some e.1) entries = entries-get entries h in
      (
        λ e.
            let (kept, why) = dominates_from-true others 0 false entries e in
            (
              λ task av bv f g. In-All _ _ (task, av) kept (get-In task av entries f) bv g,
              elim why [
                | inl t ↦ absurd (cc t)
                | inr (k, av, bv, m, f, g) ↦ (k, av, bv, In-All _ _ (k, av) at_get m, f, g)
              ],
            ),
        λ both.
            let (never, (k, av, bv, f, g, u)) = both in
            dominates_from-Kept others 0 false entries
              (All-imp _ _ (λ e p bv' q. never e.0 e.1 bv' p q) _ at_get)
              (inr (k, av, bv, get-In k av entries f, g, u)),
      )
