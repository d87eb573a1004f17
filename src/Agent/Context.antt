-- ===== src/Agent/Context.antt =====
-- packages/agent/src/request-context.ts and request-context-session.ts: the messages of a request, from a
-- session that is compacted with smaller and smaller tails until they fit.
use snapdragon.Prelude.{
  ℕ, Bool, true, false, Option, none, some, or_else, List, [], ◌∷◌, ltb, leb, if◌then◌else◌,
}
use snapdragon.Prelude.Units.{Units}
use snapdragon.Session.Records.{Content, Message, WindowOptions}
use snapdragon.Session.Tokens.{Stringify}
use snapdragon.Session.Files.{Session, assemble_context, compact_session}
use snapdragon.Agent.Budget.{
  estimate_request_tokens, request_budget, tail_candidates, context_options,
}
use snapdragon.Agent.Messages.{Replacement, decorate_messages}

-- The optional methods of `AgentSession` that a request uses, on the state of the session.
pub record AgentSession (S : Type 0) : Type 0 where
  pub assemble_context : Option (WindowOptions → S → List Message × S)
  pub compact_context : Option (WindowOptions → S → S)

-- `JsonlSession` as one.
abbrev pub jsonl_session : Stringify → (Session → ℕ) → AgentSession Session
jsonl_session json now = record {
  assemble_context = some (assemble_context json);
  compact_context = some (λ options s. (compact_session json now options s).1);
}

-- The code outside: `JSON.stringify`, and the product with the factor of a pressure.
pub record Outside : Type 0 where
  pub json : Stringify
  pub content_text : Content → Units
  pub scaled : ℕ → ℕ → ℕ

pub record RequestContext (S : Type 0) : Type 0 where
  pub context : Option WindowOptions
  pub fallback_messages : List Message
  pub replacement : Option Replacement
  pub session : Option (AgentSession S)
  pub system_messages : List Message
  pub tools_text : Option Units
  pub pressure : ℕ

abbrev pub is_enabled : WindowOptions → Bool
is_enabled context = or_else context.enabled false

-- What `contextCanCompact` makes sure of: the options, and the session with its method.
abbrev pub can_compact :
    {S : Type 0}
    → RequestContext S
    → Option (WindowOptions × AgentSession S × (WindowOptions → S → List Message × S))
can_compact input = elim input.context [
  | none ↦ none
  | some context ↦ elim input.session [
    | none ↦ none
    | some session ↦ elim session.assemble_context [
      | none ↦ none
      | some assembles ↦ if is_enabled context then some (context, session, assembles) else none
    ]
  ]
]

abbrev pub compacted : {S : Type 0} → AgentSession S → WindowOptions → S → S
compacted session options s = elim session.compact_context [
  | none ↦ s
  | some compacts ↦ compacts options s
]

module _ {S : Type 0} (outside : Outside) (input : RequestContext S) (context : WindowOptions)
    (session : AgentSession S) (assembles : WindowOptions → S → List Message × S) where
  -- The messages with one size of the fresh tail.
  abbrev pub attempt : ℕ → S → List Message × S
  attempt fresh_tail_count s =
      let options = context_options context fresh_tail_count in
      let (assembled, s') = assembles options (compacted session options s) in
      (decorate_messages outside.content_text input.system_messages assembled input.replacement, s')

  abbrev pub tokens_of : List Message → ℕ
  tokens_of messages = estimate_request_tokens outside.json messages input.tools_text

  abbrev pub fits : List Message → Bool
  fits messages = elim (request_budget outside.scaled context input.pressure) [
    | none ↦ true
    | some budget ↦ leb (tokens_of messages) budget
  ]

  -- The messages of the fewest tokens so far; no messages have infinitely many.
  abbrev pub better : List Message → Option (List Message) → Option (List Message)
  better messages none = some messages
  better messages (some best) =
      if ltb (tokens_of messages) (tokens_of best) then some messages else some best

  unfoldable pub try_tails : List ℕ → Option (List Message) → S → Option (List Message) × S
  unfolding context_options decorate_messages estimate_request_tokens request_budget
  try_tails [] best s = (best, s)
  try_tails (tail ∷ tails) best s =
      let (messages, s') = attempt tail s in
      let rest = try_tails tails (better messages best) s' in
      if fits messages then (some messages, s') else rest

unfoldable pub assemble_request : {S : Type 0} → Outside → RequestContext S → S → List Message × S
unfolding try_tails tail_candidates decorate_messages
assemble_request outside input s =
    let fallback =
      decorate_messages outside.content_text input.system_messages input.fallback_messages
        input.replacement in
    elim (can_compact input) [
      | none ↦ (fallback, s)
      | some (context, session, assembles) ↦
          let tails = tail_candidates context.fresh_tail_count input.pressure in
          let (best, s') = try_tails outside input context session assembles tails none s in
          (or_else best fallback, s')
    ]
