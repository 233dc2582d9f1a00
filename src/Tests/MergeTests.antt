-- ===== src/Tests/MergeTests.antt =====
-- internal/interest/merge.go on three candidates: the first two are merged, or the second is kept.
use interest_memory.Prelude.{
  Among, ℕ, ◌≡◌, ◌⊎◌, refl, false, Option, none, some, List, [], ◌∷◌, Text, codes, pos, All,
  string_eq, if◌then◌else◌,
}
use interest_memory.Tests.Sample.{whole}
use interest_memory.Fork.Candidates.{Candidate, Range}
use interest_memory.Interest.Merge.{Point, MergeVerdict, MergeCandidate, merge_cluster}
use interest_memory.Interest.Merge.Spared.{SomeUnembedded, Emitted, Spared, merge_cluster-Spared}
use interest_memory.Interest.Pipeline.{dedupe_merge, dedupe_candidates}
use interest_memory.Interest.Pipeline.Staying.{Course, dedupe_merge-Stays}

abbrev same : ℕ → ℕ
same c = c

abbrev turns : Range
turns = record { start = pos 0; stop = pos 2 }

abbrev about : Text → ℕ → Candidate ℕ
about topic n = record {
  topic = topic;
  reason = codes "r";
  confidence = n;
  tags = [];
  turn_range = turns;
  subjective = false;
  wiki_worthy = none;
  event_time = 0;
}

abbrev cands : List (Candidate ℕ)
cands = about (codes "go") 4 ∷ about (codes "rust") 5 ∷ about (codes "tea") 6 ∷ []

abbrev pts : List (Point ℕ)
pts =
    record { candidate = about (codes "go") 4; vec = 2 ∷ 0 ∷ [] }
    ∷ record { candidate = about (codes "rust") 5; vec = 2 ∷ 0 ∷ [] }
    ∷ record { candidate = about (codes "tea") 6; vec = 0 ∷ 2 ∷ [] }
    ∷ []

abbrev fusion : MergeCandidate ℕ
fusion = record {
  topic = codes "languages";
  reason = [];
  confidence = 5;
  tags = [];
  turn_range = turns;
  subjective = false;
  wiki_worthy = none;
}

abbrev verdicts : List (MergeVerdict ℕ)
verdicts =
    record { action = "merge"; source_topics = codes "go" ∷ []; merged = fusion }
    ∷ record { action = "keep"; source_topics = codes "rust" ∷ []; merged = fusion }
    ∷ []

abbrev embed : Text → Option (List ℕ)
embed t = some (1 ∷ [])

abbrev chat : List (Point ℕ) → Option (List (MergeVerdict ℕ))
chat grp = some verdicts

merge_cluster-Spared_example :
    (SomeUnembedded embed verdicts × (merge_cluster embed pts (some verdicts) ≡ none))
    ⊎ ((out : List (Point ℕ)) × (merge_cluster embed pts (some verdicts) ≡ some out)
        × All (Emitted embed out) verdicts
        × ((p : Point ℕ) → Among p pts → Spared embed p verdicts → Among p out))
merge_cluster-Spared_example = merge_cluster-Spared embed pts verdicts

dedupe_merge-Stays_example :
    (out : List (Point ℕ)) × (dedupe_merge whole same embed chat 1 0 cands ≡ some out)
    × ((c : Candidate ℕ)
        → Among c (dedupe_candidates whole same cands)
        → (v : List ℕ) × Course whole embed chat
            (if whole.le 0 whole.zero_f then 1 else 0)
            (dedupe_candidates whole same cands)
            out
            (record { candidate = c; vec = v }))
dedupe_merge-Stays_example =
    dedupe_merge-Stays whole same embed chat (λ t. (1 ∷ [], refl)) (λ grp. (verdicts, refl)) 1 0
      cands
