-- ===== src/Gateway/Logs/Tests.antt =====
-- A log with lines about two targets.
use snapdragon.Prelude.{some, none, [], ◌∷◌}
use snapdragon.Gateway.Effects.{LogLine}
use snapdragon.Gateway.Logs.{LogStore, append_all}

abbrev about_a : LogLine
about_a = record { level = "info"; target = some "a"; message = "one"; data_of = none }

abbrev about_b : LogLine
about_b = record { level = "warn"; target = some "b"; message = "two"; data_of = none }

abbrev three : LogStore
three = append_all (about_a ∷ about_b ∷ about_a ∷ []) 5 []
