-- ===== src/Tests/AdjudicateTests.antt =====
-- Adjudicate of internal/interest/adjudicate.go on three components: the model merges the point of the
-- first one, leaves out that of the second, and does not reply on the third.
use interest_memory.Prelude.{
  ℕ, true, Option, none, some, List, [], ◌∷◌, Text, codes, Among, text_eq, ◌==◌, pos, if◌then◌else◌,
}
use interest_memory.Tests.ClusterTests.{topic, rivals}
use interest_memory.Interest.Merge.{Point, MergeCandidate}
use interest_memory.Interest.Cluster.{Component, ClusterResult, HistPoint}
use interest_memory.Interest.Persist.{Adjudication}
use interest_memory.Interest.Adjudicate.{AdjudicateOutput}
use interest_memory.Interest.Adjudicate.Verdicts.{units_of, isolated, meta_of, adjudicate}
use interest_memory.Interest.Adjudicate.Settled.{Settled, adjudicate-Settled}
use interest_memory.Interest.Adjudicate.Sound.{Sound, adjudicate-Sound}

abbrev pub new_id : Text → Text
new_id t = 35 ∷ t

abbrev pub embed : Text → Option (List ℕ)
embed t = some (7 ∷ [])

abbrev merged : MergeCandidate ℕ
merged = record {
  topic = codes "rust";
  reason = [];
  confidence = 2;
  tags = [];
  turn_range = record { start = pos 0; stop = pos 0 };
  subjective = true;
  wiki_worthy = none;
}

abbrev takeover : AdjudicateOutput ℕ
takeover = record {
  decisions =
      record {
        source_topic = codes "a";
        action = "merge";
        target_id = codes "h";
        merged = merged;
        updates = [];
      }
      ∷ [];
  contradictions = record { left = codes "a"; right = codes "h"; description = codes "taste" } ∷ [];
  meta = none;
}

abbrev reply : List (HistPoint ℕ) → Option (AdjudicateOutput ℕ)
reply [] = none
reply (h ∷ hs) = if h.pt.id == codes "h" then some takeover else none

abbrev pub chat : Component ℕ → Option (AdjudicateOutput ℕ)
chat comp = reply comp.hist

abbrev pub cluster_result : ClusterResult ℕ
cluster_result = record { components = rivals; isolated = topic (codes "d") ∷ []; conflicts = [] }

abbrev pub output : Adjudication ℕ
output = adjudicate 0 new_id embed 5 (codes "ada") chat (λ p. none) cluster_result

adjudicate-Settled_example :
    ((p : Point ℕ)
      → Among p cluster_result.isolated
      → Among
          (isolated 0 new_id embed 5 (codes "ada") p (meta_of 0 new_id embed 5 (codes "ada") none))
          output.final_points)
    × ((comp : Component ℕ) (m : Point ℕ)
        → Among comp (units_of 0 new_id embed 5 (codes "ada") cluster_result)
        → Among m comp.members
        → Settled 0 new_id embed 5 (codes "ada") comp (chat comp) output m)
adjudicate-Settled_example =
    adjudicate-Settled 0 new_id embed 5 (codes "ada") chat (λ p. none) cluster_result

adjudicate-Sound_example :
    Sound 0 new_id embed 5
      (codes "ada")
      chat
      (units_of 0 new_id embed 5 (codes "ada") cluster_result)
      output
adjudicate-Sound_example =
    adjudicate-Sound 0 new_id embed 5 (codes "ada") chat (λ p. none) cluster_result
