-- ===== src/Agent/Provider.antt =====
-- packages/agent/src/provider-request.ts, provider-retry.ts and request-context-error.ts: sending a request
-- until it is answered. The provider is code of the caller, a function of the messages and of its own
-- state; the tests of an error's message by regular expressions are parameters.
use snapdragon.Prelude.{
  ℕ, zero, suc, ◌+◌, Bool, false, Option, none, some, List, [], ◌∷◌, leb, if◌then◌else◌, get_elem?,
}
use snapdragon.Session.Records.{Message}
use snapdragon.Agent.Budget.{max_context_pressure}
use snapdragon.Agent.Context.{Outside, RequestContext, assemble_request}

pub data Answer (R E : Type 0) : Type 0 where
  responds : R → Answer R E
  throws : E → Answer R E

pub record ErrorTests (E : Type 0) : Type 0 where
  pub is_context_window_error : E → Bool
  pub is_transient_provider_error : E → Bool

abbrev pub transient_retry_delays_ms : List ℕ
transient_retry_delays_ms = 2_000 ∷ 5_000 ∷ 15_000 ∷ 30_000 ∷ 60_000 ∷ []

module _ {E : Type 0} (tests : ErrorTests E) where
  unfoldable pub should_retry_context_window : E → ℕ → Bool
  should_retry_context_window error pressure =
      if leb max_context_pressure pressure then false else tests.is_context_window_error error

  unfoldable pub transient_provider_retry_delay_ms : E → ℕ → Option ℕ
  transient_provider_retry_delay_ms error attempt =
      if tests.is_transient_provider_error error
      then get_elem? transient_retry_delays_ms attempt
      else none

-- The request ends with a response or an error, or is not over when the rounds run out.
pub data Sent (R E : Type 0) : Type 0 where
  answered : R → Sent R E
  failed : E → Sent R E
  unfinished : Sent R E

pub record SendEnd (R E S P : Type 0) : Type 0 where
  pub sent : Sent R E
  pub session : S
  pub provider : P

-- `interrupts` stands for the code of others that runs while the messages of a round are put together, such
-- as the methods of the session on its file: an error that it throws, with the session as it leaves it.
module _ {R E S P : Type 0} (outside : Outside) (tests : ErrorTests E)
    (provider : List Message → P → Answer R E × P) (interrupts : ℕ → S → Option (E × S))
    (input : RequestContext S) where
  abbrev pub under_pressure : ℕ → RequestContext S
  under_pressure pressure = record input { pressure = pressure }

  -- What the `try` block returns or throws.
  unfoldable pub try_request : ℕ → S → P → Answer R E × S × P
  unfolding assemble_request
  try_request pressure s p = elim (interrupts pressure s) [
    | some (error, s') ↦ (throws error, s', p)
    | none ↦
        let (messages, s') = assemble_request outside (under_pressure pressure) s in
        let (answer, p') = provider messages p in (answer, s', p')
  ]

  -- The loop of `sendProviderRequest`, for so many rounds.
  unfoldable pub send_from : ℕ → ℕ → ℕ → S → P → SendEnd R E S P
  unfolding try_request should_retry_context_window transient_provider_retry_delay_ms
  send_from zero pressure attempt s p = record { sent = unfinished; session = s; provider = p }
  send_from (suc rounds) pressure attempt s p =
      let (answer, s', p') = try_request pressure s p in
      let pressed = send_from rounds (pressure + 1) attempt s' p' in
      let again = send_from rounds pressure (attempt + 1) s' p' in
      elim answer [
        | responds r ↦ record { sent = answered r; session = s'; provider = p' }
        | throws error ↦
            if should_retry_context_window tests error pressure
            then pressed
            else elim (transient_provider_retry_delay_ms tests error attempt) [
              | none ↦ record { sent = failed error; session = s'; provider = p' }
              | some delay ↦ again
            ]
      ]

  -- Nine rounds are enough: three under more pressure, five after a delay, and a last one.
  unfoldable pub send_provider_request : S → P → SendEnd R E S P
  unfolding send_from
  send_provider_request s p = send_from 9 0 0 s p
