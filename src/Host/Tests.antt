-- ===== src/Host/Tests.antt =====
-- A chat that streams one text, and a registry with two listeners.
use snapdragon.Prelude.{String, ◌≡◌, refl, none, [], ◌∷◌}
use snapdragon.Prelude.Texts.{starts_with}
use snapdragon.Gateway.Effects.{returns}
use snapdragon.Host.{StreamEvent, text, Chat, Registry, emit}

abbrev words : StreamEvent String
words = record { kind = text; run_id = "r"; provider = "p"; rest = "hi" }

abbrev chat : Chat String
chat = record { events = words ∷ []; settled = returns "hi" }

abbrev registry : Registry String String String
registry = record {
  caps = [];
  listeners =
      record { prefix = "llm."; token = 1 } ∷ record { prefix = "llm.stream.text"; token = 2 } ∷ [];
  llm_chat_handler = none;
  current_run_id = none;
  current_profile = none;
}

emit_runs : emit "llm.stream.text" registry ≡ 1 ∷ 2 ∷ []
unfolding emit starts_with
emit_runs = refl
