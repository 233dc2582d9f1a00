-- ===== src/Tests/UsageTests.antt =====
-- internal/usage on three calls.
use interest_memory.Prelude.{◌≡◌, refl, true, List, [], ◌∷◌}
use interest_memory.Usage.{Usage, no_usage, new_tracker, close}
use interest_memory.Usage.Conserved.{Call, adds, flushes, asks, run, saved, given, close-given}

abbrev tokens : Usage
tokens = record { input = 3; output = 1; cache_hit = 2 }

abbrev one_day : List Call
one_day = adds 4 tokens ∷ flushes 4 ∷ adds 4 tokens ∷ []

abbrev two_days : List Call
two_days = adds 4 tokens ∷ asks 5 ∷ adds 5 tokens ∷ []

close-given_example :
    saved 4 (close 4 (run (new_tracker 4 true true) one_day)).saved_rows ≡ given 4 no_usage one_day
close-given_example = close-given 4 one_day (refl, (refl, (refl, tt)))
