-- ===== src/Interest/Adjudicate/Updated.antt =====
-- The final points of Adjudicate (internal/interest/adjudicate.go): new ones, and those that update
-- a historical point.
use interest_memory.Prelude.{
  ◌≡◌, ◌≢◌, ◌⊎◌, inl, inr, refl, ℕ, Option, none, some, List, [], ◌∷◌, string_eq, text_eq, ◌==◌,
  Text, arith, Bool-cases, Option-cases, All, All-append, All-map, Among, Among-cons, Among-cases,
  not_Among, sym, ap, ◌∙◌,
}
use interest_memory.Store.{InterestPoint}
use interest_memory.Interest.Merge.{Point, MergeCandidate}
use interest_memory.Interest.Cluster.{HistPoint, Component}
use interest_memory.Interest.Persist.{FinalPoint}
use interest_memory.Interest.Adjudicate.{
  AdjudicateMeta, AdjudicateUpdate, AdjudicateDecision, AdjudicateOutput, find_hist, member_tags,
}
use interest_memory.Interest.Adjudicate.Verdicts.{
  new_point, void, created, updated_point, update_of, updates_of, decision_points, all_points,
  isolated, meta_of, all_isolated,
}

module _ {F : Type 0} where
  -- A historical point of the component.
  abbrev pub Old : Component F → InterestPoint F → Type 0
  Old comp pt = (h : HistPoint F) × Among h comp.hist × (h.pt ≡ pt)

  pub find_hist-Old :
      (hs : List (HistPoint F)) (id : Text) (pt : InterestPoint F)
      → find_hist hs id ≡ some pt
      → (h : HistPoint F) × Among h hs × (h.pt ≡ pt)
  find_hist-Old [] id pt e = absurd (ground (arith, e))
  find_hist-Old (h ∷ hs) id pt e = elim (Bool-cases (h.pt.id == id)) [
    | inl here ↦ (h, ([], hs, refl), ground (arith, e, here))
    | inr other ↦
        let (k, i, same) = find_hist-Old hs id pt (ground (arith, e, other)) in
        (k, Among-cons k h hs i, same)
  ]

  find_hist-id :
      (hs : List (HistPoint F)) (id : Text) (pt : InterestPoint F)
      → find_hist hs id ≡ some pt
      → pt.id ≡ id
  find_hist-id [] id pt e = absurd (ground (arith, e))
  find_hist-id (h ∷ hs) id pt e = elim (Bool-cases (h.pt.id == id)) [
    | inl here ↦
        let same : h.pt ≡ pt = ground (arith, e, here) in
        sym (ap (λ u. u.id) same) ∙ (text_eq.beq_iff h.pt.id id).0 here
    | inr other ↦ find_hist-id hs id pt (ground (arith, e, other))
  ]

  find_hist-none :
      (hs : List (HistPoint F)) (id : Text)
      → find_hist hs id ≡ none
      → (h : HistPoint F) → Among h hs
      → h.pt.id ≢ id
  find_hist-none [] id e h i = not_Among h i
  find_hist-none (k ∷ hs) id e h i = elim (Bool-cases (k.pt.id == id)) [
    | inl here ↦ absurd (ground (arith, e, here))
    | inr other ↦ elim (Among-cases h k hs i) [
      | inl same ↦
          λ eq. ground (arith, other, (text_eq.beq_iff k.pt.id id).1 (ap (λ u. u.pt.id) same ∙ eq))
      | inr later ↦ find_hist-none hs id (ground (arith, e, other)) h later
    ]
  ]

  -- A final point that updates the point of the id: it has the id and the event time of a historical
  -- point of the component; or no historical point of the component has the id, and it has no event
  -- time.
  abbrev pub Updates : Component F → Text → FinalPoint F → Type 0
  Updates comp id fp =
      (fp.action ≡ "update")
      × (fp.point.status ≡ "active")
      × (fp.point.id ≡ id)
      × (((pt : InterestPoint F) × Old comp pt
            × (pt.id ≡ id)
            × (fp.point.event_time ≡ pt.event_time))
          ⊎ (((pt : InterestPoint F) → Old comp pt → pt.id ≢ id) × (fp.point.event_time ≡ 0)))

  -- The decision asks for an update of the id: it merges into it, or keeps and lists it.
  abbrev pub AsksFor : AdjudicateDecision F → Text → Type 0
  AsksFor d id =
      ((d.action ≡ "merge") × (d.target_id ≡ id))
      ⊎ ((d.action ≡ "keep") × ((u : AdjudicateUpdate F) × Among u d.updates × (u.target_id ≡ id)))

  -- It updates the point that a decision of the reply on the component asks for.
  abbrev pub Renewed : Component F → Option (AdjudicateOutput F) → FinalPoint F → Type 0
  Renewed comp reply fp =
      (out : AdjudicateOutput F) × (reply ≡ some out)
      × ((d : AdjudicateDecision F) × Among d out.decisions
          × ((id : Text) × AsksFor d id × Updates comp id fp))

module _ {F : Type 0} (zero_score : F) (new_id : Text → Text) (embed : Text → Option (List F))
    (now : ℕ) (agent : Text) where
  -- A final point that is new: its id is that of its name, and it has no event time.
  abbrev pub Fresh : FinalPoint F → Type 0
  Fresh fp =
      (fp.action ≡ "create")
      × (fp.point.status ≡ "active")
      × (fp.point.id ≡ new_id fp.point.name)
      × (fp.point.event_time ≡ 0)

  pub void-Fresh : (ms : List (Point F)) → All Fresh (void zero_score new_id embed now agent ms)
  unfolding void new_point
  void-Fresh [] = tt
  void-Fresh (m ∷ ms) = ((refl, refl, refl, refl), void-Fresh ms)

  created-Fresh :
      (m : MergeCandidate F) (tags : List Text)
      → Fresh (created zero_score new_id embed now agent m tags)
  unfolding created new_point
  created-Fresh m tags = (refl, refl, refl, refl)

  isolated-Fresh :
      (p : Point F) (meta : Option (AdjudicateMeta F))
      → Fresh (isolated zero_score new_id embed now agent p meta)
  unfolding isolated new_point
  isolated-Fresh p none = (refl, refl, refl, refl)
  isolated-Fresh p (some meta) = (refl, refl, refl, refl)

  pub all_isolated-Fresh :
      (ask : Point F → Option (AdjudicateOutput F)) (ps : List (Point F))
      → All Fresh (all_isolated zero_score new_id embed now agent ask ps)
  all_isolated-Fresh ask [] = tt
  all_isolated-Fresh ask (p ∷ ps) = (
    isolated-Fresh p (meta_of zero_score new_id embed now agent (ask p)),
    all_isolated-Fresh ask ps,
  )

  update_of-Updates :
      (comp : Component F) (id : Text) (m : MergeCandidate F) (tags : List Text)
      → Updates comp id (update_of zero_score new_id embed now agent comp id m tags)
  unfolding updated_point
  update_of-Updates comp id m tags = elim (Option-cases (find_hist comp.hist id)) [
    | inl gone ↦ rw gone (
      refl,
      refl,
      refl,
      inr (
        (λ pt old same. find_hist-none comp.hist id gone old.0 old.1 (ap (λ u. u.id) old.2 ∙ same)),
        refl,
      ),
    )
    | inr (pt, at) ↦
        let own = find_hist-id comp.hist id pt at in
        rw at (refl, refl, own, inl (pt, find_hist-Old comp.hist id pt at, own, refl))
  ]

  -- A final point of one decision.
  abbrev pub OfDecision : Component F → AdjudicateDecision F → FinalPoint F → Type 0
  OfDecision comp d fp = Fresh fp ⊎ ((id : Text) × AsksFor d id × Updates comp id fp)

  updates_of-Updates :
      (comp : Component F) (tags : List Text) (us : List (AdjudicateUpdate F))
      → All
          (λ fp.
            (id : Text) × ((u : AdjudicateUpdate F) × Among u us × (u.target_id ≡ id))
            × Updates comp id fp)
          (updates_of zero_score new_id embed now agent comp tags us)
  updates_of-Updates comp tags [] = tt
  updates_of-Updates comp tags (u ∷ us) = (
    (u.target_id, (u, ([], us, refl), refl), update_of-Updates comp u.target_id u.merged tags),
    All-map (λ fp h. (h.0, (h.1.0, Among-cons h.1.0 u us h.1.1, h.1.2), h.2))
        (updates_of zero_score new_id embed now agent comp tags us)
        (updates_of-Updates comp tags us),
  )

  decision_points-OfDecision :
      (comp : Component F) (d : AdjudicateDecision F)
      → All (OfDecision comp d) (decision_points zero_score new_id embed now agent comp d)
  unfolding decision_points
  decision_points-OfDecision comp d =
      let tags = member_tags [] comp.members d.source_topic in
      elim (Bool-cases (d.action == "merge")) [
        | inl merge ↦
            let says = (string_eq.beq_iff d.action "merge").0 merge in
            rw merge (
              inr (d.target_id, inl (says, refl), update_of-Updates comp d.target_id d.merged tags),
              tt,
            )
        | inr unmerged ↦ elim (Bool-cases (d.action == "keep")) [
          | inl keep ↦
              let says = (string_eq.beq_iff d.action "keep").0 keep in
              let made = updates_of zero_score new_id embed now agent comp tags d.updates in
              rw (unmerged, keep)
                (
                  inl (created-Fresh d.merged tags),
                  All-map (λ fp h. inr (h.0, inr (says, h.1), h.2)) made
                      (updates_of-Updates comp tags d.updates),
                )
          | inr unkept ↦ elim (Bool-cases (d.action == "archive")) [
            | inl archive ↦ rw (unmerged, unkept, archive) (inl (created-Fresh d.merged tags), tt)
            | inr unknown ↦ rw (unmerged, unkept, unknown) tt
          ]
        ]
      ]

  -- A final point of one of the decisions.
  abbrev pub OfDecisions : Component F → List (AdjudicateDecision F) → FinalPoint F → Type 0
  OfDecisions comp ds fp =
      Fresh fp
      ⊎ ((d : AdjudicateDecision F) × Among d ds
          × ((id : Text) × AsksFor d id × Updates comp id fp))

  pub all_points-OfDecisions :
      (comp : Component F) (ds : List (AdjudicateDecision F))
      → All (OfDecisions comp ds) (all_points zero_score new_id embed now agent comp ds)
  all_points-OfDecisions comp [] = tt
  all_points-OfDecisions comp (d ∷ ds) =
      let here = decision_points zero_score new_id embed now agent comp d in
      let later = all_points zero_score new_id embed now agent comp ds in
      All-append _ here _
        (All-map (λ fp h. elim h [ inl new ↦ inl new | inr old ↦ inr (d, ([], ds, refl), old) ])
          here (decision_points-OfDecision comp d))
        (All-map
          (λ fp h. elim h [
            | inl new ↦ inl new
            | inr (e, i, old) ↦ inr (e, Among-cons e d ds i, old)
          ])
          later (all_points-OfDecisions comp ds))
