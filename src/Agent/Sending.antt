-- ===== src/Agent/Sending.antt =====
-- A request is sent so often at most (packages/agent/src/provider-request.ts).
use snapdragon.Prelude.{ℕ, ◌≡◌, false, Option, none, List}
use snapdragon.Session.Records.{Message}
use snapdragon.Agent.Context.{Outside, RequestContext}
use snapdragon.Agent.Provider.{
  Answer, responds, throws, ErrorTests, should_retry_context_window,
  transient_provider_retry_delay_ms, SendEnd, try_request, answered, failed, unfinished,
}

module _ {R E S P : Type 0} (outside : Outside) (tests : ErrorTests E)
    (provider : List Message → P → Answer R E × P) (interrupts : ℕ → S → Option (E × S))
    (input : RequestContext S) where
  -- The response is one that a try gave, and the error is one that a try threw and that asks for no other
  -- try: neither more pressure nor a delay. The session and the provider are as that try left them.
  abbrev pub IsOver : SendEnd R E S P → Type 0
  IsOver end = elim end.sent [
    | answered r ↦
        (pressure : ℕ) × (s : S) × (p : P) × (try_request outside tests provider interrupts input
            pressure s p
          ≡ (responds r, end.session, end.provider))
    | failed error ↦
        (pressure : ℕ) × (attempt : ℕ) × (s : S) × (p : P) × (try_request outside tests provider
            interrupts input pressure s p
          ≡ (throws error, end.session, end.provider))
        × (should_retry_context_window tests error pressure ≡ false)
        × (transient_provider_retry_delay_ms tests error attempt ≡ none)
    | unfinished ↦ ⊥
  ]
