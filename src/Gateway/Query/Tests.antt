-- ===== src/Gateway/Query/Tests.antt =====
-- The search part `?state=running&section=jobs,none&section=logs&limit=5`.
use snapdragon.Prelude.{ℕ, String, ◌≡◌, refl, Option, none, some, [], ◌∷◌, if◌then◌else◌, ◌==◌}
use snapdragon.Prelude.Texts.{trim}
use snapdragon.Gateway.Query.{SearchParams, csv, get_all, split_commas, parse_sections}

abbrev params : SearchParams
params =
    ("state", "running") ∷ ("section", "jobs, none") ∷ ("section", "logs") ∷ ("limit", "5") ∷ []

abbrev unchanged : String → String
unchanged text = text

abbrev five : String → Option ℕ
five text = if text == "5" then some 5 else none

sections_run : parse_sections params ≡ some ("jobs" ∷ "logs" ∷ [])
unfolding parse_sections csv get_all split_commas trim
sections_run = refl
