-- ===== src/Agent/Tests.antt =====
-- Runs of requests, and the theorems at concrete inputs.
use snapdragon.Prelude.{
  ℕ, ◌+◌, ◌≡◌, ◌≤◌, refl, inl, true, false, Option, none, some, List, [], ◌∷◌, All, last, eqb,
  arith,
}
use snapdragon.Prelude.Units.{Units, units}
use snapdragon.Session.Records.{
  Message, SessionRecord, messaged, WindowOptions, Content, text, user,
}
use snapdragon.Session.Tokens.{Stringify}
use snapdragon.Session.Files.{Session, assemble_context, message_records, context_chunks}
use snapdragon.Session.Packing.{latest_chunk_end}
use snapdragon.Agent.Budget.{tail_candidates, halved, initial_tail_count, at_least_one}
use snapdragon.Agent.Messages.{Replacement, decorate_messages, decorate_messages-last}
use snapdragon.Agent.Context.{jsonl_session, Outside, RequestContext, assemble_request}
use snapdragon.Agent.Provider.{Answer, throws, failed, ErrorTests, send_provider_request}
use snapdragon.Agent.Tails.{IsFalling, tail_candidates-IsFalling}
use snapdragon.Agent.Chosen.{IsChosen, attempts, assemble_request-IsChosen}
use snapdragon.Agent.Keeping.{IsWhole, assemble_request-IsWhole}

abbrev plain_text : Content → Units
plain_text (text s) = s
plain_text _ = []

abbrev blank : Stringify
blank = record { value = λ v. []; calls = λ c. [] }

abbrev outside : Outside
outside = record { json = blank; content_text = plain_text; scaled = λ n i. n }

abbrev says : Units → Message
says s = record {
  role = user;
  content = text s;
  tool_calls = none;
  tool_call_id = none;
  thinking = none;
}

abbrev written : ℕ → Units → SessionRecord
written id s = messaged (record {
  store_id = id;
  role = user;
  content = text s;
  tool_call_id = none;
  tool_calls = none;
  thinking = none;
  created_at = 0;
  meta = none;
})

abbrev session : Session
session = record {
  session_id = "s";
  file = written 1 (units "a") ∷ written 2 (units "b") ∷ [];
  next_store_id = 3;
  next_chunk_id = 1;
  message_count = 2;
}

abbrev context : WindowOptions
context = record {
  enabled = some true;
  fresh_tail_count = some 5;
  max_request_tokens = some 8;
  chunk_target_tokens = none;
  summary_target_tokens = none;
  min_chunk_messages = none;
  max_compaction_passes = none;
}

abbrev input : RequestContext Session
input = record {
  context = some context;
  fallback_messages = [];
  replacement = none;
  session = some (jsonl_session blank (λ s. 0));
  system_messages = says (units "be brief") ∷ [];
  tools_text = none;
  pressure = 0;
}

tails_tried : tail_candidates (some 9) 1 ≡ 4 ∷ 2 ∷ 1 ∷ []
unfolding tail_candidates
tails_tried = refl

tail_candidates-IsFalling_example :
    IsFalling (tail_candidates (some 9) 1)
    × (last (tail_candidates (some 9) 1) ≡ some 1)
    × All
        (λ n. n ≤ at_least_one (halved (initial_tail_count (some 9)) 1))
        (tail_candidates (some 9) 1)
tail_candidates-IsFalling_example = tail_candidates-IsFalling (some 9) 1

abbrev replacement : Replacement
replacement = record { visible = says (units "see a.png"); request = says (units "see a") }

decorate_messages-last_example :
    decorate_messages plain_text []
      (says (units "see a.png") ∷ says (units "see a.png") ∷ [])
      (some replacement)
    ≡ says (units "see a.png") ∷ says (units "see a") ∷ []
decorate_messages-last_example =
    decorate_messages-last plain_text [] (says (units "see a.png") ∷ []) replacement

assemble_request-IsChosen_example :
    IsChosen outside input context
      (jsonl_session blank (λ s. 0))
      (assemble_context blank)
      (attempts outside input context
        (jsonl_session blank (λ s. 0))
        (assemble_context blank)
        (tail_candidates context.fresh_tail_count input.pressure)
        session)
      (assemble_request outside input session).0
assemble_request-IsChosen_example =
    assemble_request-IsChosen outside input context (jsonl_session blank (λ s. 0))
      (assemble_context blank) session refl

assemble_request-IsWhole_example :
    IsWhole (message_records session.file) (assemble_request outside input session).1
unfolding message_records context_chunks latest_chunk_end
assemble_request-IsWhole_example =
    assemble_request-IsWhole blank (λ s. 0) outside input context session refl
      (inl (omega arith), (inl (omega arith), tt))

-- A provider that never answers.
abbrev busy : List Message → ℕ → Answer Units ℕ × ℕ
busy messages n = (throws 503, n + 1)

abbrev tests : ErrorTests ℕ
tests = record {
  is_context_window_error = λ e. false;
  is_transient_provider_error = λ e. eqb e 503;
}

-- Code that never throws while the messages are assembled.
abbrev calm : {S : Type 0} → ℕ → S → Option (ℕ × S)
calm pressure s = none

six_calls : (send_provider_request outside tests busy calm input session 0).provider ≡ 6
unfolding send_provider_request
six_calls = refl

-- A session whose file is always busy: the provider is not called, and the sixth error is thrown.
abbrev locked : {S : Type 0} → ℕ → S → Option (ℕ × S)
locked pressure s = some (503, s)

no_calls :
    ((send_provider_request outside tests busy locked input session 0).provider ≡ 0)
    × ((send_provider_request outside tests busy locked input session 0).sent ≡ failed 503)
unfolding send_provider_request
no_calls = (refl, refl)
