-- ===== src/Interest/Adjudicate/Settled.antt =====
-- The points that Adjudicate (internal/interest/adjudicate.go) keeps.
use interest_memory.Prelude.{
  ◌≡◌, ◌⊎◌, inl, inr, refl, sym, ap, ◌∙◌, subst, ℕ, true, false, ◌||◌, Option, none, some, List, [],
  ◌∷◌, string_eq, text_eq, ◌==◌, Text, arith, Bool-cases, Among, Among-left, Among-right,
  Among-cons, Among-cases, not_Among,
}
use interest_memory.Store.{InterestPoint, Contradiction}
use interest_memory.Interest.Merge.{Point}
use interest_memory.Interest.Cluster.{Component, ClusterResult}
use interest_memory.Interest.Persist.{Adjudication}
use interest_memory.Interest.Adjudicate.{
  AdjudicateDecision, AdjudicateOutput, find_hist, is_decided, is_complete, member_tags,
}
use interest_memory.Interest.Adjudicate.Verdicts.{
  void_point, void, created, update_of, decision_points, decision_archived, all_points,
  all_archived, apply_component, isolated, meta_of, apply_all, all_isolated, units_of, join_results,
  adjudicate,
}

module _ {F : Type 0} where
  is_decided-Among :
      (ds : List (AdjudicateDecision F)) (topic : Text)
      → is_decided ds topic ≡ true
      → (d : AdjudicateDecision F) × Among d ds × (d.source_topic ≡ topic)
  is_decided-Among [] topic h = absurd (ground (arith, h))
  is_decided-Among (d ∷ ds) topic h = elim (Bool-cases (d.source_topic == topic)) [
    | inl here ↦ (d, ([], ds, refl), (text_eq.beq_iff d.source_topic topic).0 here)
    | inr other ↦
        let (e, i, same) = is_decided-Among ds topic (ground (arith, h, other)) in
        (e, Among-cons e d ds i, same)
  ]

  is_complete-decided :
      (ds : List (AdjudicateDecision F)) (ms : List (Point F)) (m : Point F)
      → is_complete ds ms ≡ true
      → Among m ms
      → is_decided ds m.candidate.topic ≡ true
  is_complete-decided ds [] m h i = not_Among m i
  is_complete-decided ds (k ∷ ms) m h i = elim (Among-cases m k ms i) [
    | inl same ↦
        ap (λ (q : Point F). is_decided ds q.candidate.topic) (sym same) ∙ ground (arith, h)
    | inr later ↦ is_complete-decided ds ms m (ground (arith, h)) later
  ]

module _ {F : Type 0} (zero_score : F) (new_id : Text → Text) (embed : Text → Option (List F))
    (now : ℕ) (agent : Text) where
  -- What a decision on a member has made, for each of the actions that are known.
  pub record Acted (comp : Component F) (adj : Adjudication F) (d : AdjudicateDecision F)
      : Type 0 where
    pub merged :
        d.action == "merge" ≡ true
        → Among
            (update_of zero_score new_id embed now agent comp d.target_id d.merged
              (member_tags [] comp.members d.source_topic))
            adj.final_points
    pub kept :
        (d.action == "keep" || d.action == "archive") ≡ true
        → Among
            (created zero_score new_id embed now agent d.merged
              (member_tags [] comp.members d.source_topic))
            adj.final_points
    pub archived :
        d.action == "archive" ≡ true
        → (pt : InterestPoint F) → find_hist comp.hist d.target_id ≡ some pt
        → Among pt adj.archived

  decision-Acted :
      (comp : Component F) (d : AdjudicateDecision F) (cs : List Contradiction)
      → Acted comp
          (record {
            final_points = decision_points zero_score new_id embed now agent comp d;
            archived = decision_archived zero_score new_id embed now agent comp d;
            contradictions = cs;
          })
          d
  unfolding decision_points decision_archived
  decision-Acted comp d cs = record {
    merged = λ h. rw h ([], [], refl);
    kept = λ h. elim (Bool-cases (d.action == "keep")) [
      | inl keep ↦
          let same = (string_eq.beq_iff d.action "keep").0 keep in
          let other : d.action == "merge" ≡ false = ap (λ s. s == "merge") same in
          rw (other, keep) ([], _, refl)
      | inr unkept ↦
          let archive : d.action == "archive" ≡ true = ground (arith, h, unkept) in
          let same = (string_eq.beq_iff d.action "archive").0 archive in
          let other : d.action == "merge" ≡ false = ap (λ s. s == "merge") same in
          rw (other, unkept, archive) ([], [], refl)
    ];
    archived = λ h pt found. rw (h, found) ([], [], refl);
  }

  Acted-left :
      (comp : Component F) (a b : Adjudication F) (d : AdjudicateDecision F)
      → Acted comp a d
      → Acted comp (join_results zero_score new_id embed now agent a b) d
  Acted-left comp a b d h = record {
    merged = λ q. Among-left _ a.final_points b.final_points (h.merged q);
    kept = λ q. Among-left _ a.final_points b.final_points (h.kept q);
    archived = λ q pt found. Among-left pt a.archived b.archived (h.archived q pt found);
  }

  Acted-right :
      (comp : Component F) (a b : Adjudication F) (d : AdjudicateDecision F)
      → Acted comp b d
      → Acted comp (join_results zero_score new_id embed now agent a b) d
  Acted-right comp a b d h = record {
    merged = λ q. Among-right _ a.final_points b.final_points (h.merged q);
    kept = λ q. Among-right _ a.final_points b.final_points (h.kept q);
    archived = λ q pt found. Among-right pt a.archived b.archived (h.archived q pt found);
  }

  -- What the decisions make, as the three slices.
  abbrev pub made : Component F → List (AdjudicateDecision F) → List Contradiction → Adjudication F
  made comp ds cs = record {
    final_points = all_points zero_score new_id embed now agent comp ds;
    archived = all_archived zero_score new_id embed now agent comp ds;
    contradictions = cs;
  }

  made-Acted :
      (comp : Component F) (ds : List (AdjudicateDecision F)) (cs : List Contradiction)
      (d : AdjudicateDecision F)
      → Among d ds
      → Acted comp (made comp ds cs) d
  made-Acted comp [] cs d i = not_Among d i
  made-Acted comp (e ∷ ds) cs d i = elim (Among-cases d e ds i) [
    | inl same ↦
        let acted = subst (Acted comp _) same (decision-Acted comp e cs) in
        let a = Acted-left comp _ (made comp ds []) d acted in
        record { merged = a.merged; kept = a.kept; archived = a.archived }
    | inr later ↦
        let a =
          Acted-right comp
            (record {
              final_points = decision_points zero_score new_id embed now agent comp e;
              archived = decision_archived zero_score new_id embed now agent comp e;
              contradictions = [];
            })
            (made comp ds cs) d (made-Acted comp ds cs d later) in
        record { merged = a.merged; kept = a.kept; archived = a.archived }
  ]

  void-Among :
      (ms : List (Point F)) (m : Point F)
      → Among m ms
      → Among
          (void_point zero_score new_id embed now agent m)
          (void zero_score new_id embed now agent ms)
  unfolding void
  void-Among [] m i = not_Among m i
  void-Among (k ∷ ms) m i = elim (Among-cases m k ms i) [
    | inl same ↦ (
      [],
      void zero_score new_id embed now agent ms,
      ap
          (λ (q : Point F).
            void_point zero_score new_id embed now agent q
            ∷ void zero_score new_id embed now agent ms)
          same,
    )
    | inr later ↦
        Among-cons _ (void_point zero_score new_id embed now agent k) _ (void-Among ms m later)
  ]

  -- No reply, or one without a decision on each member.
  abbrev pub Unusable : Component F → Option (AdjudicateOutput F) → Type 0
  Unusable comp reply =
      (reply ≡ none)
      ⊎ ((out : AdjudicateOutput F) × (reply ≡ some out)
          × (is_complete out.decisions comp.members ≡ false))

  -- A member is a new point of its own, where the reply is of no use; else it is settled by a decision.
  abbrev pub Settled : Component F → Option (AdjudicateOutput F) → Adjudication F → Point F → Type 0
  Settled comp reply adj m =
      (Unusable comp reply
        × Among (void_point zero_score new_id embed now agent m) adj.final_points)
      ⊎ ((out : AdjudicateOutput F) × (d : AdjudicateDecision F) × (reply ≡ some out)
          × Among d out.decisions
          × (d.source_topic ≡ m.candidate.topic)
          × Acted comp adj d)

  apply_component-Settled :
      (comp : Component F) (reply : Option (AdjudicateOutput F)) (m : Point F)
      → Among m comp.members
      → Settled comp reply (apply_component zero_score new_id embed now agent comp reply) m
  unfolding apply_component
  apply_component-Settled comp none m i = inl (inl refl, void-Among comp.members m i)
  apply_component-Settled comp (some out) m i =
      elim (Bool-cases (is_complete out.decisions comp.members)) [
        | inr partial ↦ rw partial (inl (inr (out, refl, partial), void-Among comp.members m i))
        | inl complete ↦
            let (d, among, same) =
              is_decided-Among out.decisions m.candidate.topic
                (is_complete-decided out.decisions comp.members m complete i) in
            rw complete (inr (out, d, refl, among, same, made-Acted comp out.decisions _ d among))
      ]

  Settled-left :
      (comp : Component F) (reply : Option (AdjudicateOutput F)) (a b : Adjudication F)
      (m : Point F)
      → Settled comp reply a m
      → Settled comp reply (join_results zero_score new_id embed now agent a b) m
  Settled-left comp reply a b m (inl (u, i)) = inl (u, Among-left _ a.final_points b.final_points i)
  Settled-left comp reply a b m (inr (out, d, e, i, same, acted)) =
      inr (out, d, e, i, same, Acted-left comp a b d acted)

  Settled-right :
      (comp : Component F) (reply : Option (AdjudicateOutput F)) (a b : Adjudication F)
      (m : Point F)
      → Settled comp reply b m
      → Settled comp reply (join_results zero_score new_id embed now agent a b) m
  Settled-right comp reply a b m (inl (u, i)) =
      inl (u, Among-right _ a.final_points b.final_points i)
  Settled-right comp reply a b m (inr (out, d, e, i, same, acted)) =
      inr (out, d, e, i, same, Acted-right comp a b d acted)

  apply_all-Settled :
      (chat : Component F → Option (AdjudicateOutput F)) (units : List (Component F))
      (comp : Component F) (m : Point F)
      → Among comp units
      → Among m comp.members
      → Settled comp (chat comp) (apply_all zero_score new_id embed now agent chat units) m
  apply_all-Settled chat [] comp m i j = not_Among comp i
  apply_all-Settled chat (k ∷ units) comp m i j = elim (Among-cases comp k units i) [
    | inl same ↦
        subst
          (λ (c : Component F).
            Settled c (chat c) (apply_all zero_score new_id embed now agent chat (k ∷ units)) m)
          same
          (Settled-left k (chat k) _ _ m (
            apply_component-Settled k (chat k) m
              (subst (λ (c : Component F). Among m c.members) (sym same) j)))
    | inr later ↦ Settled-right comp (chat comp) _ _ m (apply_all-Settled chat units comp m later j)
  ]

  all_isolated-Among :
      (ask : Point F → Option (AdjudicateOutput F)) (ps : List (Point F)) (p : Point F)
      → Among p ps
      → Among
          (isolated zero_score new_id embed now agent p
            (meta_of zero_score new_id embed now agent (ask p)))
          (all_isolated zero_score new_id embed now agent ask ps)
  all_isolated-Among ask [] p i = not_Among p i
  all_isolated-Among ask (q ∷ ps) p i = elim (Among-cases p q ps i) [
    | inl same ↦ (
      [],
      all_isolated zero_score new_id embed now agent ask ps,
      ap
          (λ (r : Point F).
            isolated zero_score new_id embed now agent r
              (meta_of zero_score new_id embed now agent (ask r))
            ∷ all_isolated zero_score new_id embed now agent ask ps)
          same,
    )
    | inr later ↦ Among-cons _ _ _ (all_isolated-Among ask ps p later)
  ]

  -- Each isolated point becomes a new point. Each member of a component, of the plain list or of a
  -- conflict queue, becomes a new point with its own text and vector where the model gave no reply, or
  -- one that leaves out a member. Else a decision of the reply has its topic. Where that says to merge,
  -- the historical point that it names is updated; where it says to keep or to archive, a new point is
  -- created; and where it says to archive, the historical point that it names is archived, if there is
  -- one.
  pub adjudicate-Settled :
      (chat : Component F → Option (AdjudicateOutput F))
      (ask : Point F → Option (AdjudicateOutput F)) (res : ClusterResult F)
      → ((p : Point F)
          → Among p res.isolated
          → Among
              (isolated zero_score new_id embed now agent p
                (meta_of zero_score new_id embed now agent (ask p)))
              (adjudicate zero_score new_id embed now agent chat ask res).final_points)
        × ((comp : Component F) (m : Point F)
            → Among comp (units_of zero_score new_id embed now agent res)
            → Among m comp.members
            → Settled comp
                (chat comp)
                (adjudicate zero_score new_id embed now agent chat ask res)
                m)
  unfolding adjudicate
  adjudicate-Settled chat ask res = (
    (λ p i. Among-right _ _ _ (all_isolated-Among ask res.isolated p i)),
    λ comp m i j.
        Settled-left comp (chat comp) _ _ m
          (apply_all-Settled chat (units_of zero_score new_id embed now agent res) comp m i j),
  )
