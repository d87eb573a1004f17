-- ===== src/Host/Streams.antt =====
-- The end of a chat, and listeners that come and go.
use snapdragon.Prelude.{
  ℕ, String, ◌≡◌, refl, sym, ap, Bool, true, false, List, [], ◌∷◌, ◌++◌, arith, has_some,
  Bool-cases, inl, inr, eqb,
}
use snapdragon.Gateway.Effects.{returns}
use snapdragon.Host.{
  StreamEvent, is_done, Chat, finish_chat, Listener, Registry, remove_listener, on, off,
}

has_some-append :
    {A : Type 0} (test : A → Bool) (xs : List A) (y : A)
    → test y ≡ true
    → has_some test (xs ++ y ∷ []) ≡ true
has_some-append test [] y h = rw h refl
has_some-append test (x ∷ xs) y h = ground (arith, has_some-append test xs y h)

-- A chat whose handler resolves has emitted a `done` event when it ends, after all that the handler
-- emitted, and it resolves with the handler's response.
pub finish_chat-done :
    {P : Type 0} (run_id : String) (chat : Chat P) (response : P)
    → chat.settled ≡ returns response
    → (has_some (λ event. is_done event.kind) (finish_chat run_id chat).0 ≡ true)
      × ((more : List (StreamEvent P)) × ((finish_chat run_id chat).0 ≡ chat.events ++ more))
      × ((finish_chat run_id chat).1 ≡ returns response)
unfolding finish_chat
finish_chat-done run_id chat response h =
    elim (Bool-cases (has_some (λ event. is_done event.kind) chat.events)) [
      | inl e ↦ rw (h, finish_chat, e) (e, ([], sym (append_nil chat.events)), refl)
      | inr e ↦
          rw (h, finish_chat, e)
            (has_some-append (λ event. is_done event.kind) chat.events _ refl, (_, refl), refl)
    ]
  where
    append_nil : {A : Type 0} (xs : List A) → xs ++ [] ≡ xs
    append_nil [] = refl
    append_nil (x ∷ xs) = ap (◌∷◌ x) (append_nil xs)

remove_listener-append :
    (l : Listener) (xs : List Listener)
    → has_some (λ x. eqb x.token l.token) xs ≡ false
    → remove_listener l.token (xs ++ l ∷ []) ≡ xs
unfolding remove_listener
remove_listener-append l [] h = ground arith
remove_listener-append l (x ∷ xs) h = ground (arith, remove_listener-append l xs)

-- A listener that is put on and taken off again leaves the others as they were.
pub off-on :
    {H C R : Type 0} (prefix : String) (token : ℕ) (s : Registry H C R)
    → has_some (λ x. eqb x.token token) s.listeners ≡ false
    → (off token (on prefix token s)).listeners ≡ s.listeners
unfolding off on
off-on prefix token s h =
    remove_listener-append (record { prefix = prefix; token = token }) s.listeners h
