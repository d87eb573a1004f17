-- ===== src/Host.antt =====
-- packages/host/src/registry.ts and stream/events.ts: the registry of capabilities and of listeners.
-- Handlers and listeners are code of the caller: a listener is a number that tells the objects apart,
-- and a chat is the events that its handler emits and how its promise settles. The types of the
-- handlers, profiles and responses are parameters.
pub mod Streams
mod Tests
use Prim.Native.String
use snapdragon.Prelude.{
  ℕ, String, Bool, true, false, ◌||◌, Option, none, some, List, [], ◌∷◌, ◌++◌, eqb, if◌then◌else◌,
  filter, map, has_some, or_else, or_option, ◌==◌,
}
use snapdragon.Prelude.Maps.{Map, get, set, delete, keys}
use snapdragon.Prelude.Sorting.{sort}
use snapdragon.Prelude.Texts.{text_before, starts_with}
use snapdragon.Gateway.Effects.{Outcome, throws, returns}

pub data EventKind : Type 0 where
  started text thinking tool_call_start input_json_delta image_generation : EventKind
  content_block_stop usage max_tokens_reached error done : EventKind

-- An event: its kind, its run and provider, and what else it carries.
pub record StreamEvent (P : Type 0) : Type 0 where
  pub kind : EventKind
  pub run_id : String
  pub provider : String
  pub rest : P

abbrev pub kind_text : EventKind → String
kind_text started = "started"
kind_text text = "text"
kind_text thinking = "thinking"
kind_text tool_call_start = "tool_call_start"
kind_text input_json_delta = "input_json_delta"
kind_text image_generation = "image_generation"
kind_text content_block_stop = "content_block_stop"
kind_text usage = "usage"
kind_text max_tokens_reached = "max_tokens_reached"
kind_text error = "error"
kind_text done = "done"

abbrev pub is_done : EventKind → Bool
is_done done = true
is_done _ = false

abbrev pub topic_for : {P : Type 0} → StreamEvent P → String
topic_for event = String.◌++◌ "llm.stream." (kind_text event.kind)

pub record Listener : Type 0 where
  pub prefix : String
  pub token : ℕ

-- `H` are handlers of capabilities, `C` handlers of chats, `R` profiles.
pub record Registry (H : Type 0) (C : Type 0) (R : Type 0) : Type 0 where
  pub caps : Map H
  pub listeners : List Listener
  pub llm_chat_handler : Option C
  pub current_run_id : Option String
  pub current_profile : Option R

module _ {H C R : Type 0} where
  unfoldable pub provide : String → H → Registry H C R → Registry H C R
  provide capability handler s = record s { caps = set capability handler s.caps }

  unfoldable pub provide_llm_chat : C → Registry H C R → Registry H C R
  provide_llm_chat handler s = record s {
    llm_chat_handler = some handler;
    caps = delete "llm.chat@1" s.caps;
  }

  unfoldable pub set_current_run : Option String → Option R → Registry H C R → Registry H C R
  set_current_run run_id profile s = record s { current_run_id = run_id; current_profile = profile }

  unfoldable pub on : String → ℕ → Registry H C R → Registry H C R
  on prefix token s = record s {
    listeners = s.listeners ++ record { prefix = prefix; token = token } ∷ [];
  }

  unfoldable pub list_capabilities : Registry H C R → List String
  list_capabilities s =
      sort text_before
        (elim s.llm_chat_handler [ none ↦ keys s.caps | some _ ↦ keys s.caps ++ "llm.chat@1" ∷ [] ])

-- Taking the first entry of a token out.
unfoldable pub remove_listener : ℕ → List Listener → List Listener
remove_listener token [] = []
remove_listener token (l ∷ listeners) =
    let rest = remove_listener token listeners in if eqb l.token token then listeners else l ∷ rest

-- The function that `on` returns.
unfoldable pub off : {H C R : Type 0} → ℕ → Registry H C R → Registry H C R
unfolding remove_listener
off token s = record s { listeners = remove_listener token s.listeners }

-- The listeners that `emit` calls, in order.
unfoldable pub emit : {H C R : Type 0} → String → Registry H C R → List ℕ
emit topic s =
    map (λ l. l.token) (filter (λ l. (topic == l.prefix) || starts_with l.prefix topic) s.listeners)

-- A chat: what its handler emits, and how it settles.
pub record Chat (P : Type 0) : Type 0 where
  pub events : List (StreamEvent P)
  pub settled : Outcome P

-- `#runStreamingChat`, once its handler has run: the events emitted, and the response.
unfoldable pub finish_chat : {P : Type 0} → String → Chat P → List (StreamEvent P) × Outcome P
finish_chat run_id chat = elim chat.settled [
  | throws message ↦ (chat.events, throws message)
  | returns response ↦
      if has_some (λ event. is_done event.kind) chat.events
      then (chat.events, returns response)
      else (
        chat.events
            ++ record { kind = done; run_id = run_id; provider = "unknown"; rest = response } ∷ [],
        returns response,
      )
]

-- The calls of listeners that a chat makes: none if it is silent.
unfoldable pub deliveries :
    {H C R P : Type 0}
    → Bool
    → List (StreamEvent P)
    → Registry H C R
    → List (StreamEvent P × List ℕ)
unfolding emit
deliveries silent events s =
    if silent then [] else map (λ event. (event, emit (topic_for event) s)) events

-- The run id of a chat: that of the call, the current one, or a fresh one.
abbrev pub chat_run_id : {H C R : Type 0} → Option String → String → Registry H C R → String
chat_run_id asked fresh s = or_else (or_option asked s.current_run_id) fresh

unfoldable pub run_streaming_chat :
    {H C R P : Type 0}
    → (C → String → Option R → Chat P)
    → Option String
    → Option R
    → Bool
    → String
    → Registry H C R
    → List (StreamEvent P × List ℕ) × Outcome P
unfolding finish_chat deliveries
run_streaming_chat run asked profile silent fresh s = elim s.llm_chat_handler [
  | none ↦ ([], throws "llm.chat@1 not provided")
  | some handler ↦
      let run_id = chat_run_id asked fresh s in
      let (events, response) =
        finish_chat run_id (run handler run_id (or_option profile s.current_profile)) in
      (deliveries silent events s, response)
]

pub record CallContext (R : Type 0) : Type 0 where
  pub cap : String
  pub run_id : Option String
  pub profile : Option R

-- What `callCapability` does with a request: it starts a chat, answers that there is no such
-- capability, or calls a handler in a context.
pub data Call (H : Type 0) (R : Type 0) : Type 0 where
  chats : Call H R
  not_provided : String → Call H R
  handled : H → CallContext R → Call H R

unfoldable pub call_capability :
    {H C R : Type 0} → String → Option String → Option R → Registry H C R → Call H R
call_capability capability run_id profile s =
    if capability == "llm.chat@1" then chats else elim (get capability s.caps) [
      | none ↦ not_provided capability
      | some handler ↦ handled handler (record {
        cap = capability;
        run_id = or_option run_id s.current_run_id;
        profile = or_option profile s.current_profile;
      })
    ]
