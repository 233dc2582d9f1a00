-- ===== src/Interest/Adjudicate.antt =====
-- internal/interest/adjudicate.go: the replies of the model, and the lookups of Adjudicate.
pub mod Verdicts
pub mod Settled
pub mod Updated
pub mod Sound
use interest_memory.Prelude.{
  ℕ, zero, suc, ◌+◌, ℤ, pos, Bool, true, false, not, ◌||◌, ◌&&◌, Option, none, some, List, [], ◌∷◌,
  ◌++◌, String, string_eq, text_eq, Eq, ◌==◌, Text, if◌then◌else◌, Float,
}
use interest_memory.Fork.Candidates.{Candidate, Range}
use interest_memory.Store.{InterestPoint, Contradiction}
use interest_memory.Interest.Merge.{Point, MergeCandidate, candidate_text, merge_candidate_to_fork}
use interest_memory.Interest.Cluster.{HistPoint, Component, ClusterResult}
use interest_memory.Interest.Persist.{FinalPoint, Adjudication}

pub record AdjudicateMeta (F : Type 0) : Type 0 where
  pub subjective : Bool
  pub reliability_status : String
  pub confidence : F
  pub freshness_level : String
  pub ttl_days : ℤ
  pub wiki_worthy : Option Bool

pub record AdjudicateUpdate (F : Type 0) : Type 0 where
  pub target_id : Text
  pub merged : MergeCandidate F

pub record AdjudicateDecision (F : Type 0) : Type 0 where
  pub source_topic : Text
  pub action : String
  pub target_id : Text
  pub merged : MergeCandidate F
  pub updates : List (AdjudicateUpdate F)

pub record AdjudicateContradiction : Type 0 where
  pub left : Text
  pub right : Text
  pub description : Text

pub record AdjudicateOutput (F : Type 0) : Type 0 where
  pub decisions : List (AdjudicateDecision F)
  pub contradictions : List AdjudicateContradiction
  pub meta : Option (AdjudicateMeta F)

-- `kw`, where the tags of the first list that has any count.
abbrev pub or_tags : List Text → List Text → List Text
or_tags [] fallback = fallback
or_tags (t ∷ tags) fallback = t ∷ tags

abbrev pub or_verdict : Option Bool → Option Bool → Option Bool
or_verdict none old = old
or_verdict (some v) old = some v

module _ {F : Type 0} where
  -- findHist
  abbrev pub find_hist : List (HistPoint F) → Text → Option (InterestPoint F)
  find_hist [] id = none
  find_hist (h ∷ hs) id = if h.pt.id == id then some h.pt else find_hist hs id

  abbrev pub has_member : List (Point F) → Text → Bool
  has_member [] topic = false
  has_member (m ∷ ms) topic = m.candidate.topic == topic || has_member ms topic

  abbrev pub is_decided : List (AdjudicateDecision F) → Text → Bool
  is_decided [] topic = false
  is_decided (d ∷ ds) topic = d.source_topic == topic || is_decided ds topic

  -- Whether every member has a decision.
  abbrev pub is_complete : List (AdjudicateDecision F) → List (Point F) → Bool
  is_complete ds [] = true
  is_complete ds (m ∷ ms) = is_decided ds m.candidate.topic && is_complete ds ms

  -- `memberTags[topic]`, where the last member of a topic counts.
  abbrev pub member_tags : List Text → List (Point F) → Text → List Text
  member_tags tags [] topic = tags
  member_tags tags (m ∷ ms) topic =
      member_tags (if m.candidate.topic == topic then m.candidate.tags else tags) ms topic

  -- mergeCandidateFromPoint
  abbrev pub merge_candidate_from_point : Point F → MergeCandidate F
  merge_candidate_from_point p = record {
    topic = p.candidate.topic;
    reason = p.candidate.reason;
    confidence = p.candidate.confidence;
    tags = p.candidate.tags;
    turn_range = p.candidate.turn_range;
    subjective = p.candidate.subjective;
    wiki_worthy = p.candidate.wiki_worthy;
  }

  abbrev pub with_meta : Option (AdjudicateMeta F) → MergeCandidate F → MergeCandidate F
  with_meta none m = m
  with_meta (some meta) m = record m {
    subjective = meta.subjective;
    wiki_worthy = meta.wiki_worthy;
  }

  abbrev pub reliability_meta : Option (AdjudicateMeta F) → InterestPoint F → InterestPoint F
  reliability_meta none pt = pt
  reliability_meta (some meta) pt = record pt {
    reliability = record {
      confidence = meta.confidence;
      evidence = [];
      status = meta.reliability_status;
    };
    freshness = record {
      level = meta.freshness_level;
      updated_at = pt.freshness.updated_at;
      ttl_days = meta.ttl_days;
    };
  }

  -- The vector of an embedding, or nil on its error.
  abbrev pub vector_of : Option (List F) → List F
  vector_of none = []
  vector_of (some v) = v
