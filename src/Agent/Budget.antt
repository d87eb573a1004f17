-- ===== src/Agent/Budget.antt =====
-- packages/agent/src/request-context-budget.ts: how many tokens a request may have, and which sizes of the
-- fresh tail are tried. `scaled n i` is the whole part of `n` times the factor of pressure `i`, a product
-- of floating-point numbers; `tools_text` is `JSON.stringify(tools)`.
use snapdragon.Prelude.{
  ℕ, zero, suc, ◌+◌, ◌/◌, Option, none, some, or_else, List, [], ◌∷◌, ◌++◌, ltb, eqb, if◌then◌else◌,
  has_some,
}
use snapdragon.Prelude.Units.{Units}
use snapdragon.Session.Records.{Message, WindowOptions, default_options}
use snapdragon.Session.Tokens.{Stringify, heuristic_counter, count_string, estimate_messages_tokens}

-- The tools of a request: their text, if there are any.
unfoldable pub estimate_request_tokens : Stringify → List Message → Option Units → ℕ
unfolding estimate_messages_tokens count_string
estimate_request_tokens json messages tools =
    estimate_messages_tokens messages (heuristic_counter json)
    + elim tools [ none ↦ 0 | some tools_text ↦ count_string tools_text ]

unfoldable pub positive : Option ℕ → Option ℕ
positive none = none
positive (some zero) = none
positive (some (suc n)) = some (suc n)

abbrev pub max_context_pressure : ℕ
max_context_pressure = 3

unfoldable pub request_budget : (ℕ → ℕ → ℕ) → WindowOptions → ℕ → Option ℕ
unfolding positive
request_budget scaled context pressure = elim (positive context.max_request_tokens) [
  | none ↦ none
  | some most ↦
      let index = if ltb pressure max_context_pressure then pressure else max_context_pressure in
      let budget = scaled most index in some (if ltb budget 1 then 1 else budget)
]

abbrev pub initial_tail_count : Option ℕ → ℕ
initial_tail_count n = or_else (positive n) default_options.fresh_tail_count

abbrev pub at_least_one : ℕ → ℕ
at_least_one n = if ltb n 1 then 1 else n

-- `Math.floor(start / 2 ** pressure)`
abbrev pub halved : ℕ → ℕ → ℕ
halved start zero = start
halved start (suc pressure) = halved (start / 2) pressure

-- The loop of `tailCandidates`: halving reaches 1 in as many rounds as the number it starts from.
unfoldable pub halvings : ℕ → ℕ → List ℕ
halvings zero current = []
halvings (suc rounds) current =
    let rest = halvings rounds (at_least_one (current / 2)) in
    if ltb 1 current then current ∷ rest else []

-- `[...new Set(out)]`
abbrev pub distinct_from : List ℕ → List ℕ → List ℕ
distinct_from seen [] = []
distinct_from seen (n ∷ ns) =
    let rest = distinct_from seen ns in
    let new = distinct_from (n ∷ seen) ns in if has_some (λ m. eqb m n) seen then rest else n ∷ new

unfoldable pub tail_candidates : Option ℕ → ℕ → List ℕ
unfolding halvings positive
tail_candidates fresh_tail_count pressure =
    let start = at_least_one (halved (initial_tail_count fresh_tail_count) pressure) in
    distinct_from [] (halvings start start ++ 1 ∷ [])

unfoldable pub context_options : WindowOptions → ℕ → WindowOptions
unfolding positive
context_options context fresh_tail_count =
    let passes = or_else (positive context.max_compaction_passes) 0 in
    record context {
      fresh_tail_count = some fresh_tail_count;
      min_chunk_messages = some 1;
      max_compaction_passes = some (if ltb passes 96 then 96 else passes);
    }
