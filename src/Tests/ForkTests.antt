-- ===== src/Tests/ForkTests.antt =====
-- internal/fork at concrete inputs.
use interest_memory.Prelude.{
  ℕ, ◌≡◌, String, some, none, List, [], ◌∷◌, pos, All, length, last?, codes, false, nat_eq, ◌≢◌,
}
use interest_memory.Tests.Sample.{whole}
use interest_memory.Fork.Message.{Message}
use interest_memory.Fork.Windows.{split_prefix_windows}
use interest_memory.Fork.Windows.Prefixes.{prefixes, Ends, WithinCap, split_prefix_windows-chain}
use interest_memory.Fork.Candidates.{Candidate, Range, merge_range, dedupe}
use interest_memory.Fork.Candidates.Dedupe.{key, merge_range-span}
use interest_memory.Fork.Candidates.Absorbed.{Holds, dedupe-Holds}

abbrev question : Message
question = record { role = "user"; content = codes "hi" }

abbrev answer : Message
answer = record { role = "assistant"; content = codes "yes" }

abbrev turns : List Message
turns = answer ∷ question ∷ answer ∷ question ∷ answer ∷ []

split_prefix_windows-chain_example :
    (ns : List ℕ) × (split_prefix_windows (question ∷ turns) (pos 1) (pos 2)
      ≡ some (prefixes (question ∷ turns) ns))
    × Ends 0 ns
    × (last? ns ≡ some (length (question ∷ turns)))
    × WithinCap (pos 2) (length ns)
split_prefix_windows-chain_example = split_prefix_windows-chain question turns (pos 1) (pos 2)

abbrev range : ℕ → ℕ → Range
range a b = record { start = pos a; stop = pos b }

abbrev candidate : String → ℕ → Range → Candidate ℕ
candidate topic confidence turn_range = record {
  topic = codes topic;
  reason = [];
  confidence = confidence;
  tags = codes topic ∷ [];
  turn_range = turn_range;
  subjective = false;
  wiki_worthy = none;
  event_time = 0;
}

abbrev go_topic : Candidate ℕ
go_topic = candidate "Go  style" 5 (range 2 9)

abbrev cands : List (Candidate ℕ)
cands = go_topic ∷ candidate "tests" 3 (range 1 1) ∷ candidate " Go style" 7 (range 4 12) ∷ []

abbrev same : ℕ → ℕ
same c = c

merge_range-span_example :
    merge_range (range 0 3) (range 5 7) ≡ record { start = pos 5; stop = pos 7 }
merge_range-span_example = merge_range-span 0 3 5 7

dedupe-Holds_example :
    All (λ c. key whole same c ≢ [] → Holds whole same c (dedupe whole same cands)) cands
dedupe-Holds_example = dedupe-Holds whole same cands
