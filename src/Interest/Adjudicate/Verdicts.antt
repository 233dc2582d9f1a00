-- ===== src/Interest/Adjudicate/Verdicts.antt =====
-- internal/interest/adjudicate.go: Adjudicate on the result of Cluster. The embedder, the model's
-- replies and the hash newID are functions, and `now` is the clock, which stands still in a run. A nil
-- vector is the empty list, and a field that the source leaves out has its zero value.
use interest_memory.Prelude.{
  ℕ, suc, pos, false, ◌||◌, Option, none, some, List, [], ◌∷◌, ◌++◌, string_eq, text_eq, ◌==◌, Text,
  if◌then◌else◌,
}
use interest_memory.Store.{InterestPoint, Contradiction}
use interest_memory.Interest.Merge.{Point, MergeCandidate, candidate_text, merge_candidate_to_fork}
use interest_memory.Interest.Cluster.{Component, ClusterResult}
use interest_memory.Interest.Persist.{FinalPoint, Adjudication}
use interest_memory.Interest.Adjudicate.{
  AdjudicateMeta, AdjudicateUpdate, AdjudicateDecision, AdjudicateContradiction, AdjudicateOutput,
  find_hist, has_member, is_complete, member_tags, or_tags, or_verdict, merge_candidate_from_point,
  with_meta, reliability_meta, vector_of,
}

module _ {F : Type 0} (zero_score : F) (new_id : Text → Text) (embed : Text → Option (List F))
    (now : ℕ) (agent : Text) where
  -- The point that void, created and isolated make of a candidate, with these keywords.
  unfoldable pub new_point : MergeCandidate F → List Text → InterestPoint F
  new_point m keywords = record {
    id = new_id m.topic;
    agent_id = agent;
    name = m.topic;
    summary = m.reason;
    keywords = keywords;
    importance = m.confidence;
    status = "active";
    subjective = m.subjective;
    turn_range = m.turn_range;
    event_time = 0;
    reliability = record { confidence = m.confidence; evidence = []; status = "unknown" };
    freshness = record { level = "unknown"; updated_at = now; ttl_days = pos 0 };
    first_seen_at = now;
    last_seen_at = now;
    seen_count = 1;
    source_sessions = [];
    wiki_worthy = m.wiki_worthy;
  }

  abbrev pub embedded : MergeCandidate F → List F
  embedded m = vector_of (embed (candidate_text (merge_candidate_to_fork m)))

  abbrev pub void_point : Point F → FinalPoint F
  void_point m = record {
    point = new_point (merge_candidate_from_point m) m.candidate.tags;
    vec = m.vec;
    action = "create";
  }

  unfoldable pub void : List (Point F) → List (FinalPoint F)
  void [] = []
  void (m ∷ ms) = void_point m ∷ void ms

  unfoldable pub created : MergeCandidate F → List Text → FinalPoint F
  created m fallback = record {
    point = new_point m (or_tags m.tags fallback);
    vec = embedded m;
    action = "create";
  }

  unfoldable pub updated_point :
      Option (InterestPoint F) → MergeCandidate F → Text → List Text → InterestPoint F
  updated_point none m id fallback = record {
    id = id;
    agent_id = agent;
    name = m.topic;
    summary = m.reason;
    keywords = m.tags;
    importance = m.confidence;
    status = "active";
    subjective = false;
    turn_range = record { start = pos 0; stop = pos 0 };
    event_time = 0;
    reliability = record { confidence = zero_score; evidence = []; status = "" };
    freshness = record { level = ""; updated_at = 0; ttl_days = pos 0 };
    first_seen_at = 0;
    last_seen_at = 0;
    seen_count = 0;
    source_sessions = [];
    wiki_worthy = none;
  }
  updated_point (some pt) m id fallback = record pt {
    name = m.topic;
    summary = m.reason;
    keywords = or_tags (or_tags m.tags pt.keywords) fallback;
    importance = m.confidence;
    status = "active";
    seen_count = suc pt.seen_count;
    last_seen_at = now;
    wiki_worthy = or_verdict m.wiki_worthy pt.wiki_worthy;
  }

  abbrev pub update_of : Component F → Text → MergeCandidate F → List Text → FinalPoint F
  update_of comp id m fallback = record {
    point = updated_point (find_hist comp.hist id) m id fallback;
    vec = embedded m;
    action = "update";
  }

  abbrev pub updates_of : Component F → List Text → List (AdjudicateUpdate F) → List (FinalPoint F)
  updates_of comp fallback [] = []
  updates_of comp fallback (u ∷ us) =
      update_of comp u.target_id u.merged fallback ∷ updates_of comp fallback us

  -- What one decision appends to FinalPoints, and to Archived.
  unfoldable pub decision_points : Component F → AdjudicateDecision F → List (FinalPoint F)
  decision_points comp d =
      let tags = member_tags [] comp.members d.source_topic in
      if d.action == "merge"
      then update_of comp d.target_id d.merged tags ∷ []
      else if d.action == "keep"
      then created d.merged tags ∷ updates_of comp tags d.updates
      else if d.action == "archive"
      then created d.merged tags ∷ []
      else []

  abbrev pub found_hist : Option (InterestPoint F) → List (InterestPoint F)
  found_hist none = []
  found_hist (some pt) = pt ∷ []

  unfoldable pub decision_archived : Component F → AdjudicateDecision F → List (InterestPoint F)
  decision_archived comp d =
      if d.action == "archive" then found_hist (find_hist comp.hist d.target_id) else []

  -- A historical id passes through, and a topic becomes the id of its new point.
  unfoldable pub resolve_side : Component F → Text → Text
  resolve_side comp s = elim (find_hist comp.hist s) [
    | some pt ↦ s
    | none ↦ if has_member comp.members s then new_id s else []
  ]

  abbrev pub contradiction : Text → Text → Text → Contradiction
  contradiction left right description = record {
    id = [];
    agent_id = agent;
    left_id = left;
    right_id = right;
    description = description;
    status = "open";
    created_at = now;
  }

  unfoldable pub contradiction_of : Component F → AdjudicateContradiction → List Contradiction
  contradiction_of comp c =
      let left = resolve_side comp c.left in
      let right = resolve_side comp c.right in
      if left == [] || (right == [] || left == right)
      then []
      else contradiction left right c.description ∷ []

  abbrev pub all_points : Component F → List (AdjudicateDecision F) → List (FinalPoint F)
  all_points comp [] = []
  all_points comp (d ∷ ds) = decision_points comp d ++ all_points comp ds

  abbrev pub all_archived : Component F → List (AdjudicateDecision F) → List (InterestPoint F)
  all_archived comp [] = []
  all_archived comp (d ∷ ds) = decision_archived comp d ++ all_archived comp ds

  abbrev pub all_contradictions : Component F → List AdjudicateContradiction → List Contradiction
  all_contradictions comp [] = []
  all_contradictions comp (c ∷ cs) = contradiction_of comp c ++ all_contradictions comp cs

  abbrev pub voided : Component F → Adjudication F
  voided comp = record { final_points = void comp.members; archived = []; contradictions = [] }

  -- What one component appends; `none` is an error of the model's call.
  unfoldable pub apply_component : Component F → Option (AdjudicateOutput F) → Adjudication F
  apply_component comp none = voided comp
  apply_component comp (some out) =
      if is_complete out.decisions comp.members
      then record {
        final_points = all_points comp out.decisions;
        archived = all_archived comp out.decisions;
        contradictions = all_contradictions comp out.contradictions;
      }
      else voided comp

  abbrev pub meta_of : Option (AdjudicateOutput F) → Option (AdjudicateMeta F)
  meta_of none = none
  meta_of (some out) = out.meta

  unfoldable pub isolated : Point F → Option (AdjudicateMeta F) → FinalPoint F
  isolated p meta =
      let m = with_meta meta (merge_candidate_from_point p) in
      record { point = reliability_meta meta (new_point m m.tags); vec = p.vec; action = "create" }

  -- One slice after the other.
  abbrev pub join_results : Adjudication F → Adjudication F → Adjudication F
  join_results a b = record {
    final_points = a.final_points ++ b.final_points;
    archived = a.archived ++ b.archived;
    contradictions = a.contradictions ++ b.contradictions;
  }

  abbrev pub no_results : Adjudication F
  no_results = record { final_points = []; archived = []; contradictions = [] }

  abbrev pub apply_all :
      (Component F → Option (AdjudicateOutput F)) → List (Component F) → Adjudication F
  apply_all chat [] = no_results
  apply_all chat (comp ∷ units) =
      join_results (apply_component comp (chat comp)) (apply_all chat units)

  abbrev pub all_isolated :
      (Point F → Option (AdjudicateOutput F)) → List (Point F) → List (FinalPoint F)
  all_isolated ask [] = []
  all_isolated ask (p ∷ ps) = isolated p (meta_of (ask p)) ∷ all_isolated ask ps

  abbrev pub queue_units : List (List (Component F)) → List (Component F)
  queue_units [] = []
  queue_units (queue ∷ queues) = queue ++ queue_units queues

  -- The components of the plain list, and those of the conflict queues.
  abbrev pub units_of : ClusterResult F → List (Component F)
  units_of res = res.components ++ queue_units res.conflicts

  -- The calls run in parallel, and their replies are applied in order.
  unfoldable pub adjudicate :
      (Component F → Option (AdjudicateOutput F))
      → (Point F → Option (AdjudicateOutput F))
      → ClusterResult F
      → Adjudication F
  adjudicate chat ask res =
      join_results (apply_all chat (units_of res)) (record {
        final_points = all_isolated ask res.isolated;
        archived = [];
        contradictions = [];
      })
