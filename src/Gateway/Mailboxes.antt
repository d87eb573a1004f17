-- ===== src/Gateway/Mailboxes.antt =====
-- packages/gateway/src/inline-mailboxes.ts: one queue of envelopes for each actor, with selective
-- receive. `receive` makes the mailbox of an actor that has none.
pub mod Receive
mod Tests
use snapdragon.Prelude.{
  ℕ, zero, suc, ◌+◌, String, Bool, true, false, not, ◌&&◌, Option, none, some, List, [], ◌∷◌, ◌++◌,
  if◌then◌else◌, or_else, same_text, length, ◌==◌,
}
use snapdragon.Prelude.Json.{Json}
use snapdragon.Prelude.Maps.{Map, get, set}

pub record ActorId : Type 0 where
  pub id : String

pub record Envelope : Type 0 where
  pub id : ℕ
  pub kind : String
  pub target : ActorId
  pub source : Option ActorId
  pub correlation_id : Option String
  pub capability : Option String
  pub payload : Json
  pub inserted_at_ms : ℕ

pub record ReceiveFilter : Type 0 where
  pub kind : Option String
  pub source : Option ActorId
  pub correlation_id : Option String
  pub capability : Option String

abbrev pub MailboxStore : Type 0
MailboxStore = Map (List Envelope)

-- `envelope.source?.id`
abbrev pub actor_text : Option ActorId → Option String
actor_text none = none
actor_text (some actor) = some actor.id

-- `expected !== undefined && expected !== actual` is false.
abbrev pub fits : Option String → Option String → Bool
fits none actual = true
fits (some expected) actual = same_text (some expected) actual

unfoldable pub matches_filter : Envelope → ReceiveFilter → Bool
matches_filter envelope filter =
    fits filter.kind (some envelope.kind)
    && (fits (actor_text filter.source) (actor_text envelope.source)
        && (fits filter.correlation_id envelope.correlation_id
            && fits filter.capability envelope.capability))

-- `#mailbox`, read only: a missing mailbox is a new empty one.
abbrev pub mailbox : ActorId → MailboxStore → List Envelope
mailbox actor s = or_else (get actor.id s) []

unfoldable pub send : Envelope → MailboxStore → MailboxStore
send envelope s = set envelope.target.id (mailbox envelope.target s ++ envelope ∷ []) s

-- `queue.findIndex(test)`
unfoldable pub find_index : (Envelope → Bool) → List Envelope → Option ℕ
find_index test [] = none
find_index test (e ∷ queue) =
    let rest = find_index test queue in
    if test e then some 0 else elim rest [ none ↦ none | some i ↦ some (suc i) ]

-- `queue.splice(index, 1)`: the item taken out, and what is left.
unfoldable pub splice_one : ℕ → List Envelope → Option Envelope × List Envelope
splice_one i [] = (none, [])
splice_one zero (e ∷ queue) = (some e, queue)
splice_one (suc i) (e ∷ queue) = let (taken, rest) = splice_one i queue in (taken, e ∷ rest)

unfoldable pub receive : ActorId → ReceiveFilter → MailboxStore → Option Envelope × MailboxStore
unfolding matches_filter find_index splice_one
receive actor filter s =
    let queue = mailbox actor s in
    elim (find_index (λ e. matches_filter e filter) queue) [
      | none ↦ (none, set actor.id queue s)
      | some i ↦ let (taken, rest) = splice_one i queue in (taken, set actor.id rest s)
    ]

unfoldable pub size : MailboxStore → ℕ
size s = length s
