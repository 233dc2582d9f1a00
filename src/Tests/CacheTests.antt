-- ===== src/Tests/CacheTests.antt =====
-- internal/cache at concrete inputs.
use interest_memory.Prelude.{ℕ, ◌≡◌, List, [], ◌∷◌, take, pos, nat_eq}
use mathlib.Core.List.{foldl}
use interest_memory.Cache.{Cache, new, get, set}
use interest_memory.Cache.Valid.{IsValid, new-IsValid, set-IsValid, get-IsValid}
use interest_memory.Cache.Refines.{view}
use interest_memory.Cache.History.{Call, gets, sets, run, note, run-window}

abbrev calls : List (Call ℕ ℕ)
calls = sets 1 10 ∷ sets 2 20 ∷ gets 1 ∷ sets 3 30 ∷ gets 2 ∷ []

abbrev empty : Cache ℕ ℕ
empty = new (pos 2)

empty-IsValid : IsValid empty
empty-IsValid = new-IsValid (pos 2)

abbrev two : Cache ℕ ℕ
two = set (set empty 1 10) 2 20

two-IsValid : IsValid two
two-IsValid = set-IsValid (set empty 1 10) 2 20 (set-IsValid empty 1 10 empty-IsValid)

run-window_example : view (run empty calls) ≡ take 2 (foldl (note 2) [] calls)
run-window_example = run-window (pos 2) calls

get-IsValid_example : IsValid (get two 1).0
get-IsValid_example = get-IsValid two 1 two-IsValid
