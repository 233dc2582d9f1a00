-- ===== src/Interest/Pipeline.antt =====
-- DedupeMerge of internal/interest/merge.go. Its workers run each call once and any error ends it,
-- so that the result is that of the calls in order.
pub mod Staying
use interest_memory.Prelude.{
  Among, Among-left, Among-right, Among-cons, not_Among, Among-cases, ℕ, ◌≡◌, ◌⊎◌, inl, inr, refl,
  sym, ap, ◌∙◌, subst, Option, some, List, [], ◌∷◌, ◌++◌, Text, codes, Float, text_eq, ◌==◌, ◌↔◌,
  Option-cases, arith, if◌then◌else◌,
}
use interest_memory.Fork.Candidates.{Candidate, dedupe}
use interest_memory.Interest.UnionFind.{◌>>=◌}
use interest_memory.Interest.Merge.{
  Point, MergeVerdict, candidate_text, merge_candidate_to_fork, merge_cluster, connected_components,
}
use interest_memory.Interest.Merge.Spared.{Spared, merge_cluster-Spared}
use interest_memory.Interest.Merge.Linked.{Linked, Linked-map, connected_components-Linked}

-- dedupeCandidates is the loop of `dedupe` of internal/fork, written again.
abbrev pub dedupe_candidates :
    (fl : Float) → (ℕ → ℕ) → List (Candidate fl.F) → List (Candidate fl.F)
dedupe_candidates fl lower cands = dedupe fl lower cands

module _ {F : Type 0} (embed : Text → Option (List F))
    (chat : List (Point F) → Option (List (MergeVerdict F))) where
  abbrev pub embed_all : List (Candidate F) → Option (List (Point F))
  embed_all [] = some []
  embed_all (c ∷ cands) = do
    v ← embed (candidate_text c)
    pts ← embed_all cands
    some (record { candidate = c; vec = v } ∷ pts)

  -- An isolated point passes through.
  abbrev pub merge_group : List (Point F) → Option (List (Point F))
  merge_group [] = merge_cluster embed [] (chat [])
  merge_group (p ∷ []) = some (p ∷ [])
  merge_group (p ∷ q ∷ grp) = merge_cluster embed (p ∷ q ∷ grp) (chat (p ∷ q ∷ grp))

  abbrev pub merge_groups : List (List (Point F)) → Option (List (Point F))
  merge_groups [] = some []
  merge_groups (grp ∷ clusters) = do
    r ← merge_group grp
    out ← merge_groups clusters
    some (r ++ out)

module _ (fl : Float) (lower : ℕ → ℕ) (embed : Text → Option (List fl.F))
    (chat : List (Point fl.F) → Option (List (MergeVerdict fl.F))) where
  -- The stages after the dedupe.
  abbrev pub merge_deduped : fl.F → List (Candidate fl.F) → Option (List (Point fl.F))
  merge_deduped cluster_sim [] = some []
  merge_deduped cluster_sim (c ∷ cands) = do
    pts ← embed_all embed chat (c ∷ cands)
    clusters ← connected_components fl pts cluster_sim
    merge_groups embed chat clusters

  -- The first number is the default of the similarity, 0.6.
  unfoldable pub dedupe_merge : fl.F → fl.F → List (Candidate fl.F) → Option (List (Point fl.F))
  dedupe_merge default_sim cluster_sim cands =
      merge_deduped (if fl.le cluster_sim fl.zero_f then default_sim else cluster_sim)
        (dedupe_candidates fl lower cands)
