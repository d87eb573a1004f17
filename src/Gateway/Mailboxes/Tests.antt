-- ===== src/Gateway/Mailboxes/Tests.antt =====
-- A mailbox with two envelopes.
use mathlib.Core.Bool.{false≢true}
use snapdragon.Prelude.{eq_iff, ◌≡◌, ◌≢◌, refl, none, some, [], ◌∷◌}
use snapdragon.Prelude.Json.{null}
use snapdragon.Prelude.Maps.{get, set}
use snapdragon.Gateway.Mailboxes.{
  ActorId, Envelope, ReceiveFilter, MailboxStore, mailbox, matches_filter, send, find_index,
  splice_one, receive,
}
use snapdragon.Gateway.Mailboxes.Receive.{TakesFirst, receive-IsTaken}

abbrev actor : ActorId
actor = record { id = "a" }

abbrev other_actor : ActorId
other_actor = record { id = "b" }

abbrev ask : Envelope
ask = record {
  id = 1;
  kind = "ask";
  target = actor;
  source = none;
  correlation_id = none;
  capability = none;
  payload = null;
  inserted_at_ms = 5;
}

abbrev reply : Envelope
reply = record ask { id = 2; kind = "reply" }

abbrev replies : ReceiveFilter
replies = record { kind = some "reply"; source = none; correlation_id = none; capability = none }

abbrev sent : MailboxStore
sent = send reply (send ask [])

-- The envelope that fits is taken from behind the one that does not.
receive_runs : receive actor replies sent ≡ (some reply, ("a", ask ∷ []) ∷ [])
unfolding receive send matches_filter find_index splice_one get set
receive_runs = refl

not_other : actor.id ≢ other_actor.id
not_other e = false≢true ((eq_iff actor.id other_actor.id).1 e)

receive-IsTaken_example :
    TakesFirst actor replies sent
    × (mailbox other_actor (receive actor replies sent).1 ≡ mailbox other_actor sent)
receive-IsTaken_example = receive-IsTaken actor other_actor replies sent not_other
