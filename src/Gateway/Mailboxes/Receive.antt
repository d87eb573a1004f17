-- ===== src/Gateway/Mailboxes/Receive.antt =====
-- Receiving takes the first envelope that fits, and keeps the others in their order.
use snapdragon.Prelude.{
  ℕ, suc, String, ◌≡◌, ◌≢◌, refl, ◌∙◌, ap, Bool, true, false, Option, none, some, List, [], ◌∷◌,
  ◌++◌, arith, ◌==◌, eq_iff, eq_refl, Bool-cases, Option-cases, inl, inr, All, ◌⊎◌,
}
use snapdragon.Prelude.Maps.{set, get-set}
use snapdragon.Gateway.Mailboxes.{
  ActorId, Envelope, ReceiveFilter, MailboxStore, mailbox, matches_filter, send, find_index,
  splice_one, receive,
}

-- The queue is `before`, then an envelope that passes, then `after`, and none of `before` passes.
pub record IsTaken (test : Envelope → Bool) (queue : List Envelope) (e : Envelope)
    (rest : List Envelope) : Type 0 where
  pub before : List Envelope
  pub later : List Envelope
  pub queue_split : queue ≡ before ++ e ∷ later
  pub rest_split : rest ≡ before ++ later
  pub passes : test e ≡ true
  pub first : All (λ x. test x ≡ false) before

-- What taking the first envelope that passes gives.
abbrev Taken : (Envelope → Bool) → List Envelope → Option ℕ → Type 0
Taken test queue none = All (λ x. test x ≡ false) queue
Taken test queue (some i) =
    (e : Envelope) × ((splice_one i queue).0 ≡ some e) × IsTaken test queue e (splice_one i queue).1

next_taken : Option ℕ → Option ℕ
next_taken none = none
next_taken (some i) = some (suc i)

Taken-cons :
    (test : Envelope → Bool) (x : Envelope) (queue : List Envelope) (r : Option ℕ)
    → test x ≡ false
    → Taken test queue r
    → Taken test (x ∷ queue) (next_taken r)
unfolding splice_one next_taken
Taken-cons test x queue none h t = (h, t)
Taken-cons test x queue (some i) h (e, p, t) = (
  e,
  p,
  record {
    before = x ∷ t.before;
    later = t.later;
    queue_split = ap (◌∷◌ x) t.queue_split;
    rest_split = ap (◌∷◌ x) t.rest_split;
    passes = t.passes;
    first = (h, t.first);
  },
)

find_index-Taken :
    (test : Envelope → Bool) (queue : List Envelope) → Taken test queue (find_index test queue)
unfolding find_index splice_one next_taken
find_index-Taken test [] = tt
find_index-Taken test (x ∷ queue) = elim (Bool-cases (test x)) [
  | inl h ↦ rw h (
    x,
    refl,
    record {
      before = [];
      later = queue;
      queue_split = refl;
      rest_split = refl;
      passes = h;
      first = tt;
    },
  )
  | inr h ↦ rw h (Taken-cons test x queue (find_index test queue) h (find_index-Taken test queue))
]

-- What `receive` does to the receiver's own queue: it finds no envelope that fits the filter and leaves the
-- queue as it is, or it returns the first that does and leaves the others in their order.
abbrev pub TakesFirst : ActorId → ReceiveFilter → MailboxStore → Type 0
TakesFirst actor filter s =
    (((receive actor filter s).0 ≡ none)
      × (mailbox actor (receive actor filter s).1 ≡ mailbox actor s)
      × All (λ e. matches_filter e filter ≡ false) (mailbox actor s))
    ⊎ ((e : Envelope) × ((receive actor filter s).0 ≡ some e)
        × IsTaken (λ x. matches_filter x filter) (mailbox actor s) e
            (mailbox actor (receive actor filter s).1))

receive-own :
    (actor : ActorId) (filter : ReceiveFilter) (s : MailboxStore) → TakesFirst actor filter s
unfolding receive
receive-own actor filter s =
    go (find_index (λ e. matches_filter e filter) (mailbox actor s)) refl
      (find_index-Taken (λ e. matches_filter e filter) (mailbox actor s))
  where
    go :
        (r : Option ℕ)
        → find_index (λ e. matches_filter e filter) (mailbox actor s) ≡ r
        → Taken (λ e. matches_filter e filter) (mailbox actor s) r
        → TakesFirst actor filter s
    go none h t = inl (rw (h, receive) (refl, rw (get-set actor.id actor.id, eq_refl) refl, t))
    go (some i) h (e, p, t) = inr (e, rw (h, receive) p, rw (h, receive, get-set, eq_refl) t)

elsewhere :
    (k : String) (other : ActorId) (queue : List Envelope) (s : MailboxStore)
    → k ≢ other.id
    → mailbox other (set k queue s) ≡ mailbox other s
elsewhere k other queue s h =
    let differs : (k == other.id) ≡ false = ground (arith, eq_iff k other.id) in
    rw (get-set k other.id queue s, differs)

receive_elsewhere :
    (actor other : ActorId) (filter : ReceiveFilter) (s : MailboxStore)
    → actor.id ≢ other.id
    → mailbox other (receive actor filter s).1 ≡ mailbox other s
unfolding receive
receive_elsewhere actor other filter s h =
    elim (Option-cases (find_index (λ e. matches_filter e filter) (mailbox actor s))) [
      | inl e ↦ rw (e, receive) (elsewhere actor.id other _ s h)
      | inr (i, e) ↦ rw (e, receive) (elsewhere actor.id other _ s h)
    ]

-- `receive` finds no envelope that fits the filter in the actor's mailbox and changes nothing in it, or it
-- returns the first that does and leaves the others in their order. Either way the mailbox of any other
-- actor stays as it was.
pub receive-IsTaken :
    (actor other : ActorId) (filter : ReceiveFilter) (s : MailboxStore)
    → actor.id ≢ other.id
    → TakesFirst actor filter s × (mailbox other (receive actor filter s).1 ≡ mailbox other s)
receive-IsTaken actor other filter s h =
    (receive-own actor filter s, receive_elsewhere actor other filter s h)

-- Sending to one actor and receiving for one leave the mailbox of any third actor as it was.
pub receive_others :
    (actor other : ActorId) (filter : ReceiveFilter) (envelope : Envelope) (s : MailboxStore)
    → actor.id ≢ other.id
    → envelope.target.id ≢ other.id
    → mailbox other (receive actor filter (send envelope s)).1 ≡ mailbox other s
unfolding send
receive_others actor other filter envelope s h k =
    receive_elsewhere actor other filter (send envelope s) h
    ∙ elsewhere envelope.target.id other (mailbox envelope.target s ++ envelope ∷ []) s k
