-- ===== src/Interest/Merge.antt =====
-- internal/interest/merge.go: the text and the similarity of points, connectedComponents on points,
-- and mergeCluster. The embedder and the chat client are functions; `none` is their error.
pub mod Spared
pub mod Similar
pub mod Linked
use interest_memory.Prelude.{
  ℕ, zero, suc, ◌+◌, String, Bool, true, false, not, ◌||◌, Option, none, some, List, [], ◌∷◌, ◌++◌,
  length, get_elem?, Eq, ◌==◌, nat_eq, string_eq, list_beq, if◌then◌else◌, Text, codes, Float, keep,
}
use interest_memory.Fork.Candidates.{Candidate, Range, contains_string}
use interest_memory.Interest.UnionFind.{◌>>=◌, components}

pub record Point (F : Type 0) : Type 0 where
  pub candidate : Candidate F
  pub vec : List F

pub record MergeCandidate (F : Type 0) : Type 0 where
  pub topic : Text
  pub reason : Text
  pub confidence : F
  pub tags : List Text
  pub turn_range : Range
  pub subjective : Bool
  pub wiki_worthy : Option Bool

pub record MergeVerdict (F : Type 0) : Type 0 where
  pub action : String
  pub source_topics : List Text
  pub merged : MergeCandidate F

-- The time of the event is not set, which is 0 here.
abbrev pub merge_candidate_to_fork : {F : Type 0} → MergeCandidate F → Candidate F
merge_candidate_to_fork m = record {
  topic = m.topic;
  reason = m.reason;
  confidence = m.confidence;
  tags = m.tags;
  turn_range = m.turn_range;
  subjective = m.subjective;
  wiki_worthy = m.wiki_worthy;
  event_time = 0;
}

unfoldable pub candidate_text : {F : Type 0} → Candidate F → Text
candidate_text c = if list_beq c.reason [] then c.topic else c.topic ++ codes "\n" ++ c.reason

module _ (fl : Float) where
  open fl use {F, lt, is_zero, zero_f, add, mul, div, sqrt}

  -- `dot`, `na` and `nb` after the loop, on vectors of the same length.
  abbrev pub sums : List F → List F → F × (F × F) → F × (F × F)
  sums (x ∷ a) (y ∷ b) (dot, (na, nb)) =
      sums a b (add dot (mul x y), (add na (mul x x), add nb (mul y y)))
  sums (x ∷ a) [] s = s
  sums [] b s = s

  abbrev pub similarity : F × (F × F) → F
  similarity (dot, (na, nb)) =
      if is_zero na || is_zero nb then zero_f else div dot (mul (sqrt na) (sqrt nb))

  unfoldable pub cosine : List F → List F → F
  cosine a b =
      if length a == length b then similarity (sums a b (zero_f, (zero_f, zero_f))) else zero_f

  -- `cosine(pts[i].Vec, pts[j].Vec) > threshold`
  abbrev pub above : F → Option (Point F) → Option (Point F) → Bool
  above threshold none q = false
  above threshold (some p) none = false
  above threshold (some p) (some q) = lt threshold (cosine p.vec q.vec)

  -- `comp = append(comp, pts[i])`
  abbrev pub select : List (Point F) → List ℕ → Option (List (Point F))
  select pts [] = some []
  select pts (i ∷ is) = do p ← get_elem? pts i; ps ← select pts is; some (p ∷ ps)

  abbrev pub select_all : List (Point F) → List (ℕ × List ℕ) → Option (List (List (Point F)))
  select_all pts [] = some []
  select_all pts ((r, is) ∷ groups) = do
    comp ← select pts is
    out ← select_all pts groups
    some (comp ∷ out)

  unfoldable pub connected_components : List (Point F) → F → Option (List (List (Point F)))
  connected_components pts threshold = do
    groups ← components (length pts) (λ i j. above threshold (get_elem? pts i) (get_elem? pts j))
    select_all pts groups

abbrev pub fuses : {F : Type 0} → MergeVerdict F → Bool
fuses vd = vd.action == "merge" || vd.action == "compose"

abbrev pub sources : {F : Type 0} → List Text → Point F → Bool
sources topics p = contains_string topics p.candidate.topic

module _ {F : Type 0} (embed : Text → Option (List F)) where
  abbrev pub fused : MergeVerdict F → Option (List (Point F))
  fused vd = do
    vec ← embed (candidate_text (merge_candidate_to_fork vd.merged))
    some (record { candidate = merge_candidate_to_fork vd.merged; vec = vec } ∷ [])

  -- What one verdict appends; an action that is not known appends nothing.
  unfoldable pub verdict_points : List (Point F) → MergeVerdict F → Option (List (Point F))
  verdict_points grp vd =
      if fuses vd
      then fused vd
      else (if vd.action == "keep" then some (keep (sources vd.source_topics) grp) else some [])

  -- The loop over the verdicts, with `out` and the keys of `consumed`.
  unfoldable pub verdict_loop :
      List (Point F)
      → List (MergeVerdict F)
      → List (Point F)
      → List Text
      → Option (List (Point F) × List Text)
  verdict_loop grp [] out consumed = some (out, consumed)
  verdict_loop grp (vd ∷ verdicts) out consumed = do
    ps ← verdict_points grp vd
    verdict_loop grp verdicts (out ++ ps) (consumed ++ vd.source_topics)

  -- `reply` is what ChatJSON reads from the model's answer to the prompt on `grp`.
  unfoldable pub merge_cluster :
      List (Point F) → Option (List (MergeVerdict F)) → Option (List (Point F))
  merge_cluster grp reply = do
    verdicts ← reply
    (out, consumed) ← verdict_loop grp verdicts [] []
    some (out ++ keep (λ p. not (sources consumed p)) grp)
