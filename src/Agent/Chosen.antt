-- ===== src/Agent/Chosen.antt =====
-- Which messages a request gets (packages/agent/src/request-context.ts).
use snapdragon.Prelude.{
  ℕ, ◌≤◌, ◌≡◌, refl, sym, ap, ◌∙◌, ◌⊎◌, Bool, true, false, Bool-cases, inl, inr, none, some, List,
  [], ◌∷◌, or_else, last, All, In, ltb, arith,
}
use mathlib.Core.Path.{subst}
use snapdragon.Session.Records.{Message, WindowOptions}
use snapdragon.Agent.Budget.{tail_candidates}
use snapdragon.Agent.Messages.{decorate_messages}
use snapdragon.Agent.Tails.{tail_candidates-IsFalling}
use snapdragon.Agent.Context.{
  can_compact, assemble_request, AgentSession, Outside, RequestContext, attempt, tokens_of, fits,
  try_tails,
}

module _ {S : Type 0} (outside : Outside) (input : RequestContext S) (context : WindowOptions)
    (session : AgentSession S) (assembles : WindowOptions → S → List Message × S) where
  abbrev try : ℕ → S → List Message × S
  try tail s = attempt outside input context session assembles tail s

  -- What all of the attempts would give, each on the session that the one before it leaves.
  abbrev pub attempts : List ℕ → S → List (List Message)
  attempts [] s = []
  attempts (tail ∷ tails) s = (try tail s).0 ∷ attempts tails (try tail s).1

  abbrev cost : List Message → ℕ
  cost messages = tokens_of outside input context session assembles messages

  abbrev good : List Message → Bool
  good messages = fits outside input context session assembles messages

  -- Messages that were chosen from some: they fit, or none of those costs less.
  abbrev pub IsChosen : List (List Message) → List Message → Type 0
  IsChosen candidates messages =
      In messages candidates
      × ((good messages ≡ true) ⊎ All (λ other. cost messages ≤ cost other) candidates)

  one_more :
      (best ms m : List Message) (others : List (List Message))
      → ltb (cost ms) (cost best) ≡ true
      → (good m ≡ true) ⊎ All (λ other. cost m ≤ cost other) (ms ∷ others)
      → (good m ≡ true) ⊎ All (λ other. cost m ≤ cost other) (best ∷ ms ∷ others)
  one_more best ms m others f (inl g) = inl g
  one_more best ms m others f (inr (p, h)) = inr (ground (arith, f, p), (p, h))

  one_kept :
      (best ms m : List Message) (others : List (List Message))
      → ltb (cost ms) (cost best) ≡ false
      → (good m ≡ true) ⊎ All (λ other. cost m ≤ cost other) (best ∷ others)
      → (good m ≡ true) ⊎ All (λ other. cost m ≤ cost other) (best ∷ ms ∷ others)
  one_kept best ms m others f (inl g) = inl g
  one_kept best ms m others f (inr (p, h)) = inr (p, (ground (arith, f, p), h))

  skip :
      (m best ms : List Message) (others : List (List Message))
      → In m (best ∷ others)
      → In m (best ∷ ms ∷ others)
  skip m best ms others (inl e) = inl e
  skip m best ms others (inr k) = inr (inr k)

  -- From a best so far on.
  try_tails-IsChosen :
      (tails : List ℕ) (best : List Message) (s : S)
      → (messages : List Message) × ((try_tails outside input context session assembles tails
            (some best)
            s).0
          ≡ some messages)
        × IsChosen (best ∷ attempts tails s) messages
  unfolding try_tails
  try_tails-IsChosen [] best s = (best, refl, (inl refl, inr (omega arith, tt)))
  try_tails-IsChosen (tail ∷ tails) best s =
      let ms = (try tail s).0 in
      let s' = (try tail s).1 in
      elim (Bool-cases (good ms)) [
        | inl e ↦ (ms, rw (try_tails, e) refl, (inr (inl refl), inl e))
        | inr e ↦ elim (Bool-cases (ltb (cost ms) (cost best))) [
          | inl f ↦
              let (m, same, (member, why)) = try_tails-IsChosen tails ms s' in
              (
                m,
                rw (try_tails, e, f) same,
                (inr member, one_more best ms m (attempts tails s') f why),
              )
          | inr f ↦
              let (m, same, (member, why)) = try_tails-IsChosen tails best s' in
              (
                m,
                rw (try_tails, e, f) same,
                (
                  skip m best ms (attempts tails s') member,
                  one_kept best ms m (attempts tails s') f why,
                ),
              )
        ]
      ]

  -- Where there is a tail to try, the messages of a request are those of an attempt, and they are within
  -- the budget or no attempt costs less.
  pub try_tails-Chosen :
      (tail : ℕ) (tails : List ℕ) (s : S)
      → (messages : List Message) × ((try_tails outside input context session assembles
            (tail ∷ tails)
            none
            s).0
          ≡ some messages)
        × IsChosen (attempts (tail ∷ tails) s) messages
  unfolding try_tails
  try_tails-Chosen tail tails s =
      let ms = (try tail s).0 in
      let s' = (try tail s).1 in
      elim (Bool-cases (good ms)) [
        | inl e ↦ (ms, rw (try_tails, e) refl, (inl refl, inl e))
        | inr e ↦
            let (m, same, chosen) = try_tails-IsChosen tails ms s' in
            (m, rw (try_tails, e) same, chosen)
      ]

-- A request of a session that can be compacted: its messages are those of an attempt with one of the tail
-- sizes, and they are within the budget or no attempt costs less.
pub assemble_request-IsChosen :
    {S : Type 0} (outside : Outside) (input : RequestContext S) (context : WindowOptions)
    (session : AgentSession S) (assembles : WindowOptions → S → List Message × S) (s : S)
    → can_compact input ≡ some (context, session, assembles)
    → IsChosen outside input context session assembles
        (attempts outside input context session assembles
          (tail_candidates context.fresh_tail_count input.pressure)
          s)
        (assemble_request outside input s).0
unfolding assemble_request
assemble_request-IsChosen outside input context session assembles s e =
    go (tail_candidates context.fresh_tail_count input.pressure) refl
  where
    fallback : List Message
    fallback =
        decorate_messages outside.content_text input.system_messages input.fallback_messages
          input.replacement

    chosen_of : List ℕ → List Message
    chosen_of tails =
        or_else (try_tails outside input context session assembles tails none s).0 fallback

    same :
        (assemble_request outside input s).0
        ≡ chosen_of (tail_candidates context.fresh_tail_count input.pressure)
    same = rw (assemble_request, e) refl

    go :
        (tails : List ℕ)
        → tail_candidates context.fresh_tail_count input.pressure ≡ tails
        → IsChosen outside input context session assembles
            (attempts outside input context session assembles
              (tail_candidates context.fresh_tail_count input.pressure)
              s)
            (assemble_request outside input s).0
    go [] f =
        let (_, ends, _) = tail_candidates-IsFalling context.fresh_tail_count input.pressure in
        let none_last : last {A = ℕ} [] ≡ some 1 = rw f at ends in cc
    go (tail ∷ tails) f =
        let (m, found, chosen) =
          try_tails-Chosen outside input context session assembles tail tails s in
        let here : m ≡ (assemble_request outside input s).0 =
          sym (same ∙ (ap chosen_of f ∙ ap (λ o. or_else o fallback) found)) in
        subst
          (λ ts.
            IsChosen outside input context session assembles
              (attempts outside input context session assembles ts s)
              (assemble_request outside input s).0)
          (sym f)
          (subst
            (IsChosen outside input context session assembles
              (attempts outside input context session assembles (tail ∷ tails) s))
            here chosen)
