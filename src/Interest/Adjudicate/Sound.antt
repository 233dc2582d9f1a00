-- ===== src/Interest/Adjudicate/Sound.antt =====
-- The output of Adjudicate (internal/interest/adjudicate.go): ids, event times and archived points.
use interest_memory.Prelude.{
  ◌≢◌, ◌⊎◌, inl, inr, refl, ℕ, ◌||◌, Option, none, some, List, [], ◌∷◌, string_eq, text_eq, ◌==◌,
  Text, arith, Bool-cases, Option-cases, All, All-append, All-map, Among, Among-cons,
}
use interest_memory.Store.{Contradiction}
use interest_memory.Interest.Merge.{Point}
use interest_memory.Interest.Cluster.{Component, ClusterResult}
use interest_memory.Interest.Persist.{FinalPoint, Adjudication}
use interest_memory.Interest.Adjudicate.{
  AdjudicateDecision, AdjudicateContradiction, AdjudicateOutput, find_hist, is_complete,
}
use interest_memory.Interest.Adjudicate.Verdicts.{
  void, decision_archived, resolve_side, contradiction_of, all_points, all_archived,
  all_contradictions, apply_component, apply_all, all_isolated, units_of, adjudicate,
}
use interest_memory.Interest.Adjudicate.Updated.{
  Old, find_hist-Old, Fresh, Renewed, void-Fresh, all_isolated-Fresh, all_points-OfDecisions,
}

abbrev pub Apart : Contradiction → Type 0
Apart c = (c.left_id ≢ []) × (c.right_id ≢ []) × (c.left_id ≢ c.right_id)

module _ {F : Type 0} (zero_score : F) (new_id : Text → Text) (embed : Text → Option (List F))
    (now : ℕ) (agent : Text) where
  -- A final point of the reply on a component.
  abbrev pub FromVerdict : Component F → Option (AdjudicateOutput F) → FinalPoint F → Type 0
  FromVerdict comp reply fp = Fresh zero_score new_id embed now agent fp ⊎ Renewed comp reply fp

  decision_archived-Old :
      (comp : Component F) (d : AdjudicateDecision F)
      → All (Old comp) (decision_archived zero_score new_id embed now agent comp d)
  unfolding decision_archived
  decision_archived-Old comp d = elim (Bool-cases (d.action == "archive")) [
    | inr other ↦ rw other tt
    | inl archive ↦ elim (Option-cases (find_hist comp.hist d.target_id)) [
      | inl gone ↦ rw (archive, gone) tt
      | inr (pt, at) ↦ rw (archive, at) (find_hist-Old comp.hist d.target_id pt at, tt)
    ]
  ]

  all_archived-Old :
      (comp : Component F) (ds : List (AdjudicateDecision F))
      → All (Old comp) (all_archived zero_score new_id embed now agent comp ds)
  all_archived-Old comp [] = tt
  all_archived-Old comp (d ∷ ds) =
      All-append _ (decision_archived zero_score new_id embed now agent comp d) _
        (decision_archived-Old comp d) (all_archived-Old comp ds)

  contradiction_of-Apart :
      (comp : Component F) (c : AdjudicateContradiction)
      → All Apart (contradiction_of zero_score new_id embed now agent comp c)
  unfolding contradiction_of
  contradiction_of-Apart comp c =
      let left = resolve_side zero_score new_id embed now agent comp c.left in
      let right = resolve_side zero_score new_id embed now agent comp c.right in
      elim (Bool-cases (left == [] || (right == [] || left == right))) [
        | inl skip ↦ rw skip tt
        | inr apart ↦ rw apart (
          (
            (λ e. ground (arith, apart, text_eq.beq_iff left [], e)),
            (λ e. ground (arith, apart, text_eq.beq_iff right [], e)),
            λ e. ground (arith, apart, text_eq.beq_iff left right, e),
          ),
          tt,
        )
      ]

  all_contradictions-Apart :
      (comp : Component F) (cs : List AdjudicateContradiction)
      → All Apart (all_contradictions zero_score new_id embed now agent comp cs)
  all_contradictions-Apart comp [] = tt
  all_contradictions-Apart comp (c ∷ cs) =
      All-append _ (contradiction_of zero_score new_id embed now agent comp c) _
        (contradiction_of-Apart comp c) (all_contradictions-Apart comp cs)

  -- What one component appends.
  pub record SoundHere (comp : Component F) (reply : Option (AdjudicateOutput F))
      (adj : Adjudication F) : Type 0 where
    pub points : All (FromVerdict comp reply) adj.final_points
    pub archived : All (Old comp) adj.archived
    pub contradictions : All Apart adj.contradictions

  void-Here :
      (comp : Component F) (reply : Option (AdjudicateOutput F)) (ms : List (Point F))
      → All (FromVerdict comp reply) (void zero_score new_id embed now agent ms)
  void-Here comp reply ms =
      All-map (λ fp h. inl h) (void zero_score new_id embed now agent ms)
        (void-Fresh zero_score new_id embed now agent ms)

  apply_component-SoundHere :
      (comp : Component F) (reply : Option (AdjudicateOutput F))
      → SoundHere comp reply (apply_component zero_score new_id embed now agent comp reply)
  unfolding apply_component
  apply_component-SoundHere comp none = record {
    points = void-Here comp none comp.members;
    archived = tt;
    contradictions = tt;
  }
  apply_component-SoundHere comp (some out) =
      elim (Bool-cases (is_complete out.decisions comp.members)) [
        | inr partial ↦ rw partial (record {
          points = void-Here comp (some out) comp.members;
          archived = tt;
          contradictions = tt;
        })
        | inl complete ↦ rw complete (record {
          points =
              All-map (λ fp h. elim h [ inl new ↦ inl new | inr old ↦ inr (out, refl, old) ])
                (all_points zero_score new_id embed now agent comp out.decisions)
                (all_points-OfDecisions zero_score new_id embed now agent comp out.decisions);
          archived = all_archived-Old comp out.decisions;
          contradictions = all_contradictions-Apart comp out.contradictions;
        })
      ]

  -- It holds of one of the components.
  abbrev pub InUnits : List (Component F) → (Component F → Type 0) → Type 0
  InUnits units P = (comp : Component F) × Among comp units × P comp

  -- A final point is new, or updates a point for a reply on one of the components; an archived point is a
  -- historical point of one of them; and the two sides of a contradiction are given and differ.
  pub record Sound (chat : Component F → Option (AdjudicateOutput F)) (units : List (Component F))
      (adj : Adjudication F) : Type 0 where
    pub points :
        All
          (λ fp.
            Fresh zero_score new_id embed now agent fp
            ⊎ InUnits units (λ comp. Renewed comp (chat comp) fp))
          adj.final_points
    pub archived : All (λ pt. InUnits units (λ comp. Old comp pt)) adj.archived
    pub contradictions : All Apart adj.contradictions

  apply_all-Sound :
      (chat : Component F → Option (AdjudicateOutput F)) (units : List (Component F))
      → Sound chat units (apply_all zero_score new_id embed now agent chat units)
  apply_all-Sound chat [] = record { points = tt; archived = tt; contradictions = tt }
  apply_all-Sound chat (comp ∷ units) =
      let here = apply_component-SoundHere comp (chat comp) in
      let rest = apply_all-Sound chat units in
      let one = apply_component zero_score new_id embed now agent comp (chat comp) in
      let more = apply_all zero_score new_id embed now agent chat units in
      record {
        points =
            All-append _ one.final_points more.final_points
              (All-map
                (λ fp h. elim h [
                  | inl new ↦ inl new
                  | inr old ↦ inr (comp, ([], units, refl), old)
                ])
                one.final_points here.points)
              (All-map
                (λ fp h. elim h [
                  | inl new ↦ inl new
                  | inr (c, i, old) ↦ inr (c, Among-cons c comp units i, old)
                ])
                more.final_points rest.points);
        archived =
            All-append _ one.archived more.archived
              (All-map (λ pt h. (comp, ([], units, refl), h)) one.archived here.archived)
              (All-map (λ pt h. (h.0, Among-cons h.0 comp units h.1, h.2)) more.archived
                rest.archived);
        contradictions =
            All-append Apart one.contradictions more.contradictions here.contradictions
              rest.contradictions;
      }

  -- Each final point of Adjudicate is active. It is new, with the id of its name and without an event
  -- time; or it updates, and then it has the id that a decision of the reply on one of the components
  -- merges into, or keeps and lists, and either the event time of a historical point of the component
  -- with that id, or none where the component has no historical point with that id. Each archived
  -- point is a historical point of one of the components, and the sides of a contradiction are given
  -- and differ.
  pub adjudicate-Sound :
      (chat : Component F → Option (AdjudicateOutput F))
      (ask : Point F → Option (AdjudicateOutput F)) (res : ClusterResult F)
      → Sound chat
          (units_of zero_score new_id embed now agent res)
          (adjudicate zero_score new_id embed now agent chat ask res)
  unfolding adjudicate
  adjudicate-Sound chat ask res =
      let units = units_of zero_score new_id embed now agent res in
      let all = apply_all-Sound chat units in
      let made = apply_all zero_score new_id embed now agent chat units in
      let alone = all_isolated zero_score new_id embed now agent ask res.isolated in
      record {
        points = All-append _ made.final_points alone all.points (
            All-map (λ fp h. inl h) alone
              (all_isolated-Fresh zero_score new_id embed now agent ask res.isolated));
        archived = All-append _ made.archived [] all.archived tt;
        contradictions = All-append Apart made.contradictions [] all.contradictions tt;
      }
