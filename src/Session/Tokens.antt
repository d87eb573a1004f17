-- ===== src/Session/Tokens.antt =====
-- packages/session/src/tokens.ts: how long a request is. `JSON.stringify` is a parameter.
use snapdragon.Prelude.{
  ℕ, ◌+◌, ◌*◌, ◌/◌, String, Option, none, some, List, [], ◌∷◌, if◌then◌else◌, length, map, ◌==◌,
}
use snapdragon.Prelude.Json.{
  Json, null, bool, num, str, arr, obj, Items, nil, cons, Fields, end, field,
}
use snapdragon.Prelude.Units.{Units, units, join}
use snapdragon.Session.Records.{
  Role, system, user, assistant, tool, ToolCall, Content, text, blocks, Message, MessageRecord,
}

-- `JSON.stringify`, of a value and of a list of tool calls.
pub record Stringify : Type 0 where
  pub value : Json → Units
  pub calls : List ToolCall → Units

-- What the planning asks of a counter.
pub record TokenCounter : Type 0 where
  pub count_string : Units → ℕ
  pub count_message : Message → ℕ

abbrev pub role_text : Role → Units
role_text system = units "system"
role_text user = units "user"
role_text assistant = units "assistant"
role_text tool = units "tool"

abbrev pub newline : Units
newline = b'\n' ∷ []

-- The field `text` of a block, if it is a text.
abbrev pub text_of : Fields → Option Units
text_of end = none
text_of (field k (str s) rest) =
    let later = text_of rest in if k == "text" then some (units s) else later
text_of (field k v rest) = let later = text_of rest in if k == "text" then none else later

-- The parts of `blockToText`: a block, the children of a block, and the field `content` of one. Blocks
-- and children that are null, on which the source throws, are outside.
unfoldable mutual
  pub block_to_text : Stringify → Json → Units
  block_to_text json (obj fields) = elim (text_of fields) [
    | some s ↦ s
    | none ↦ elim (content_of json fields) [ some s ↦ s | none ↦ json.value (obj fields) ]
  ]
  block_to_text json null = json.value null
  block_to_text json (bool b) = json.value (bool b)
  block_to_text json (num n) = json.value (num n)
  block_to_text json (str s) = json.value (str s)
  block_to_text json (arr items) = json.value (arr items)

  pub children_texts : Stringify → Items → List Units
  children_texts json nil = []
  children_texts json (cons child children) =
      block_to_text json child ∷ children_texts json children

  pub content_of : Stringify → Fields → Option Units
  content_of json end = none
  content_of json (field k (str s) rest) =
      let later = content_of json rest in if k == "content" then some (units s) else later
  content_of json (field k (arr children) rest) =
      let later = content_of json rest in
      let here = some (join newline (children_texts json children)) in
      if k == "content" then here else later
  content_of json (field k null rest) =
      let later = content_of json rest in if k == "content" then none else later
  content_of json (field k (bool b) rest) =
      let later = content_of json rest in if k == "content" then none else later
  content_of json (field k (num n) rest) =
      let later = content_of json rest in if k == "content" then none else later
  content_of json (field k (obj o) rest) =
      let later = content_of json rest in if k == "content" then none else later

unfoldable pub content_to_text : Stringify → Content → Units
unfolding block_to_text children_texts content_of join
content_to_text json (text s) = s
content_to_text json (blocks bs) = join newline (map (block_to_text json) bs)

abbrev pub id_text : Option String → Units
id_text none = []
id_text (some id) = units id

abbrev pub calls_text : Stringify → Option (List ToolCall) → Units
calls_text json none = []
calls_text json (some calls) = json.calls calls

unfoldable pub message_chars : Stringify → Message → Units
unfolding content_to_text join
message_chars json message = join newline (
    role_text message.role
    ∷ content_to_text json message.content
    ∷ id_text message.tool_call_id
    ∷ calls_text json message.tool_calls
    ∷ [])

-- `HeuristicTokenCounter` with its 3.5 units to a token: `Math.ceil(length / 3.5)` is the quotient of
-- twice the length by 7, rounded up; it is at least 1 for a text that is not empty.
unfoldable pub count_string : Units → ℕ
count_string [] = 0
count_string (c ∷ s) = (2 * length (c ∷ s) + 6) / 7

unfoldable pub count_message : Stringify → Message → ℕ
unfolding count_string message_chars
count_message json message = 4 + count_string (message_chars json message)

abbrev pub heuristic_counter : Stringify → TokenCounter
heuristic_counter json = record { count_string = count_string; count_message = count_message json }

unfoldable pub estimate_messages_tokens : List Message → TokenCounter → ℕ
estimate_messages_tokens [] counter = 0
estimate_messages_tokens (message ∷ messages) counter =
    counter.count_message message + estimate_messages_tokens messages counter

-- `recordToMessage` of context-window.ts
abbrev pub record_to_message : MessageRecord → Message
record_to_message r = record {
  role = r.role;
  content = r.content;
  tool_calls = r.tool_calls;
  tool_call_id = r.tool_call_id;
  thinking = r.thinking;
}

unfoldable pub estimate_record_tokens : MessageRecord → TokenCounter → ℕ
estimate_record_tokens r counter = counter.count_message (record_to_message r)
