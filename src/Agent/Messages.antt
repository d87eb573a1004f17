-- ===== src/Agent/Messages.antt =====
-- packages/agent/src/request-context-messages.ts: the message that the user sees is replaced by the one
-- that is sent. `content_text` is `JSON.stringify` of a content.
use snapdragon.Prelude.{
  ℕ, zero, suc, ◌≡◌, refl, ap, ◌∙◌, Bool, true, false, ◌&&◌, Option, none, some, List, [], ◌∷◌,
  ◌++◌, eqb, if◌then◌else◌, length, length-append, put, get_elem?, get_elem?-append_end, arith,
}
use snapdragon.Prelude.Units.{Units}
use snapdragon.Session.Records.{Role, system, user, assistant, tool, Content, Message}

pub record Replacement : Type 0 where
  pub visible : Message
  pub request : Message

abbrev pub same_role : Role → Role → Bool
same_role system system = true
same_role user user = true
same_role assistant assistant = true
same_role tool tool = true
same_role _ _ = false

abbrev pub same_units : Units → Units → Bool
same_units [] [] = true
same_units (c ∷ s) (d ∷ t) = eqb c d && same_units s t
same_units _ _ = false

module _ (content_text : Content → Units) where
  abbrev pub is_equivalent : Message → Option Message → Bool
  is_equivalent target none = false
  is_equivalent target (some candidate) =
      same_role candidate.role target.role
      && same_units (content_text candidate.content) (content_text target.content)

  -- The loop of `findEquivalentMessageIndex`, from `index - 1` down.
  unfoldable pub find_down : List Message → Message → ℕ → Option ℕ
  find_down messages target zero = none
  find_down messages target (suc index) =
      let rest = find_down messages target index in
      if is_equivalent target (get_elem? messages index) then some index else rest

  unfoldable pub replace_visible_message : List Message → Replacement → List Message
  unfolding find_down
  replace_visible_message messages replacement =
      elim (find_down messages replacement.visible (length messages)) [
        | none ↦ messages
        | some index ↦ put index replacement.request messages
      ]

  unfoldable pub decorate_messages : List Message → List Message → Option Replacement → List Message
  unfolding replace_visible_message
  decorate_messages system_messages messages none = system_messages ++ messages
  decorate_messages system_messages messages (some replacement) =
      system_messages ++ replace_visible_message messages replacement

same_units_refl : (s : Units) → same_units s s ≡ true
same_units_refl [] = refl
same_units_refl (c ∷ s) = let hit : eqb c c ≡ true = ground arith in rw hit (same_units_refl s)

same_role_refl : (r : Role) → same_role r r ≡ true
same_role_refl system = refl
same_role_refl user = refl
same_role_refl assistant = refl
same_role_refl tool = refl

put-end :
    (messages : List Message) (m n : Message)
    → put (length messages) n (messages ++ m ∷ []) ≡ messages ++ n ∷ []
put-end [] m n = refl
put-end (x ∷ messages) m n = ap (λ ms. x ∷ ms) (put-end messages m n)

found_at :
    (content_text : Content → Units) (messages : List Message) (target : Message) (index : ℕ)
    → is_equivalent content_text target (get_elem? messages index) ≡ true
    → find_down content_text messages target (suc index) ≡ some index
unfolding find_down
found_at content_text messages target index hit = rw (find_down, hit) refl

-- Of a session that ends with the visible message the request ends with the one that replaces it, and the
-- others are as they were, an equal one before it included.
pub decorate_messages-last :
    (content_text : Content → Units) (system_messages messages : List Message)
    (replacement : Replacement)
    → decorate_messages content_text system_messages
        (messages ++ replacement.visible ∷ [])
        (some replacement)
      ≡ system_messages ++ (messages ++ replacement.request ∷ [])
unfolding decorate_messages replace_visible_message find_down
decorate_messages-last content_text system_messages messages replacement =
    let v = replacement.visible in
    let count : length (messages ++ v ∷ []) ≡ suc (length messages) =
      omega (arith, length-append messages (v ∷ [])) in
    let last = get_elem?-append_end messages v in
    let role = same_role_refl v.role in
    let content = same_units_refl (content_text v.content) in
    let hit : is_equivalent content_text v (get_elem? (messages ++ v ∷ []) (length messages))
        ≡ true =
      ap (is_equivalent content_text v) last ∙ rw (role, content) refl in
    let found : find_down content_text (messages ++ v ∷ []) v (length (messages ++ v ∷ []))
        ≡ some (length messages) =
      ap (find_down content_text (messages ++ v ∷ []) v) count
      ∙ found_at content_text (messages ++ v ∷ []) v (length messages) hit in
    ap (λ ms. system_messages ++ ms)
      (rw (replace_visible_message, found) (put-end messages v replacement.request))
