-- ===== src/Interest/Persist/Stops.antt =====
-- Where Persist (internal/interest/persist.go) stops.
use mathlib.Core.List.{append_assoc}
use interest_memory.Prelude.{
  Among, Among-left, Among-right, Among-cases, not_Among, ◌≡◌, ◌⊎◌, inl, inr, refl, sym, ap, ◌∙◌,
  subst, Bool, true, false, not, ◌&&◌, ◌||◌, List, [], ◌∷◌, ◌++◌, Text, Float, arith, All,
  All-append, All-map, Bool-cases,
}
use interest_memory.Interest.Persist.Planned.{
  calls_of, is_log, planned, Pinned, calls_of-append, effects-Pinned, calls_of-effects,
}
use interest_memory.Interest.Persist.Written.{
  Upserted, Archived, point_effects-Upserted, archive_effects-Archived,
}
use interest_memory.Store.{InterestPoint, Contradiction, Edge}
use interest_memory.Interest.Persist.{
  FinalPoint, Adjudication, Call, Effect, add_edge_pairs, upsert_point, upsert_vector,
  delete_vector, append_log, upsert_contradiction, vector_effects, point_effects, archive_effects,
  contradiction_effects, edge_effects, row_effects, all_edges, run_effects, persist,
}

module _ {F : Type 0} where
  -- A call that succeeds, or one of the log.
  abbrev pub Done : (Call F → Bool) → Call F → Type 0
  Done succeeds c = (is_log c || succeeds c) ≡ true

  -- All calls are made, and there is no error; or those up to the first one that fails and is not
  -- one of the log, and there is an error.
  pub data Ran (succeeds : Call F → Bool) (cs : List (Call F)) (result : List (Call F) × Bool)
      : Type 0 where
    through : All (Done succeeds) cs → result ≡ (cs, true) → Ran succeeds cs result
    stopped :
        (before after : List (Call F)) (c : Call F)
        → cs ≡ before ++ c ∷ after
        → All (Done succeeds) before
        → is_log c ≡ false
        → succeeds c ≡ false
        → result ≡ (before ++ c ∷ [], false)
        → Ran succeeds cs result

  run_passing :
      (succeeds : Call F → Bool) (e : Effect F) (es : List (Effect F))
      → (e.required && not (succeeds e.call)) ≡ false
      → run_effects succeeds (e ∷ es)
        ≡ (e.call ∷ (run_effects succeeds es).0, (run_effects succeeds es).1)
  unfolding run_effects
  run_passing succeeds e es h = ground (arith, h)

  run_failing :
      (succeeds : Call F → Bool) (e : Effect F) (es : List (Effect F))
      → (e.required && not (succeeds e.call)) ≡ true
      → run_effects succeeds (e ∷ es) ≡ (e.call ∷ [], false)
  unfolding run_effects
  run_failing succeeds e es h = ground (arith, h)

  run_effects-Ran :
      (succeeds : Call F → Bool) (es : List (Effect F))
      → All Pinned es
      → Ran succeeds (calls_of es) (run_effects succeeds es)
  unfolding run_effects
  run_effects-Ran succeeds [] pinned = through tt refl
  run_effects-Ran succeeds (e ∷ es) pinned =
      elim (Bool-cases (e.required && not (succeeds e.call))) [
        | inl fails ↦
            stopped [] (calls_of es) e.call refl tt (ground (arith, fails, pinned.0))
              (ground (arith, fails)) (run_failing succeeds e es fails)
        | inr passes ↦
            let here : Done succeeds e.call = ground (arith, passes, pinned.0) in
            elim (run_effects-Ran succeeds es pinned.1) [
              | through all same ↦
                  through (here, all)
                    (run_passing succeeds e es passes ∙ ap (λ r. (e.call ∷ r.0, r.1)) same)
              | stopped before after c cut all needed bad same ↦
                  stopped (e.call ∷ before) after c (ap (◌∷◌ e.call) cut) (here, all) needed bad
                    (run_passing succeeds e es passes ∙ ap (λ r. (e.call ∷ r.0, r.1)) same)
            ]
      ]

  abbrev pub is_edges : Call F → Bool
  is_edges (upsert_point p) = false
  is_edges (upsert_vector ent) = false
  is_edges (delete_vector agent id) = false
  is_edges (append_log agent id title action) = false
  is_edges (upsert_contradiction c) = false
  is_edges (add_edge_pairs agent es) = true

  abbrev RowEffect : Effect F → Type 0
  RowEffect e = is_edges e.call ≡ false

  -- A list of effects and then another: the first one stops it, or the second one goes on.
  run_effects-append :
      (succeeds : Call F → Bool) (rows es : List (Effect F))
      → All RowEffect rows
      → (run_effects succeeds (rows ++ es)
          ≡ (calls_of rows ++ (run_effects succeeds es).0, (run_effects succeeds es).1))
        ⊎ All (λ c. is_edges c ≡ false) (run_effects succeeds (rows ++ es)).0
  unfolding run_effects
  run_effects-append succeeds [] es all = inl refl
  run_effects-append succeeds (e ∷ rows) es all =
      elim (Bool-cases (e.required && not (succeeds e.call))) [
        | inl fails ↦ inr (rw (run_failing succeeds e (rows ++ es) fails) (all.0, tt))
        | inr passes ↦ elim (run_effects-append succeeds rows es all.1) [
          | inl on ↦
              inl (run_passing succeeds e (rows ++ es) passes ∙ ap (λ r. (e.call ∷ r.0, r.1)) on)
          | inr stop ↦ inr (rw (run_passing succeeds e (rows ++ es) passes) (all.0, stop))
        ]
      ]

  not_among_rows :
      (agent : Text) (edges : List (Edge F)) (cs : List (Call F))
      → All (λ c. is_edges c ≡ false) cs
      → Among (add_edge_pairs agent edges) cs
      → {X : Type 0} → X
  not_among_rows agent edges [] all i = not_Among (add_edge_pairs agent edges) i
  not_among_rows agent edges (c ∷ cs) all i =
      elim (Among-cases (add_edge_pairs agent edges) c cs i) [
        | inl same ↦ absurd (ground (arith, all.0, ap is_edges same))
        | inr later ↦ not_among_rows agent edges cs all.1 later
      ]

  vector_effects-Row : (p : InterestPoint F) (v : List F) → All RowEffect (vector_effects p v)
  vector_effects-Row p [] = tt
  vector_effects-Row p (x ∷ v) = (refl, tt)

  point_effects-Row :
      (agent : Text) (fps : List (FinalPoint F)) → All RowEffect (point_effects agent fps)
  point_effects-Row agent [] = tt
  point_effects-Row agent (fp ∷ fps) = (
    refl,
    All-append _ (vector_effects fp.point fp.vec) _ (vector_effects-Row fp.point fp.vec)
        (refl, point_effects-Row agent fps),
  )

  archive_effects-Row :
      (agent : Text) (ps : List (InterestPoint F)) → All RowEffect (archive_effects agent ps)
  archive_effects-Row agent [] = tt
  archive_effects-Row agent (p ∷ ps) = (refl, (refl, (refl, archive_effects-Row agent ps)))

contradiction_effects-Row :
    (G : Type 0) (cs : List Contradiction)
    → All (λ (e : Effect G). is_edges e.call ≡ false) (contradiction_effects {F = G} cs)
contradiction_effects-Row G [] = tt
contradiction_effects-Row G (c ∷ cs) = (refl, contradiction_effects-Row G cs)

row_effects-Row :
    (G : Type 0) (agent : Text) (adj : Adjudication G)
    → All (λ (e : Effect G). is_edges e.call ≡ false) (row_effects agent adj)
row_effects-Row G agent adj =
    All-append (λ (e : Effect G). is_edges e.call ≡ false) (point_effects agent adj.final_points)
      (archive_effects agent adj.archived ++ contradiction_effects adj.contradictions)
      (point_effects-Row agent adj.final_points)
      (All-append (λ (e : Effect G). is_edges e.call ≡ false) (archive_effects agent adj.archived)
        (contradiction_effects adj.contradictions) (archive_effects-Row agent adj.archived)
        (contradiction_effects-Row G adj.contradictions))

module _ (fl : Float) (one relate_default : fl.F) where
  open fl use {F}

  -- Persist makes these calls in turn: for each final point its row, its vector where it has one, and
  -- a line of the log; for each archived point its row as archived, the deletion of its vector, and
  -- a line of the log; each contradiction; and the edges where there are any. It makes all of them
  -- without an error, if each but those of the log succeeds; else those up to the first one that
  -- fails and is not one of the log, and then it returns an error. If it adds edges, then it has put
  -- each final point, and has put each archived point as archived and deleted its vector.
  pub persist-Ran :
      (succeeds : Call F → Bool) (agent : Text) (adj : Adjudication F) (relate_sim : F)
      → Ran succeeds
          (planned agent adj (all_edges fl one relate_default adj relate_sim))
          (persist fl one relate_default succeeds agent adj relate_sim)
        × ((ns : Text) (edges : List (Edge F))
            → Among
                (add_edge_pairs ns edges)
                (persist fl one relate_default succeeds agent adj relate_sim).0
            → All
                (Upserted (persist fl one relate_default succeeds agent adj relate_sim).0)
                adj.final_points
              × All
                  (Archived agent (persist fl one relate_default succeeds agent adj relate_sim).0)
                  adj.archived)
  unfolding persist
  persist-Ran succeeds agent adj relate_sim =
      let points = point_effects agent adj.final_points in
      let olds = archive_effects agent adj.archived in
      let others = contradiction_effects adj.contradictions in
      let rows = row_effects agent adj in
      let es = edge_effects agent (all_edges fl one relate_default adj relate_sim) in
      let last = (run_effects succeeds es).0 in
      (
        subst (λ u. Ran succeeds u (run_effects succeeds (rows ++ es)))
            (calls_of-effects F agent adj (all_edges fl one relate_default adj relate_sim))
            (run_effects-Ran succeeds (rows ++ es)
              (effects-Pinned F agent adj (all_edges fl one relate_default adj relate_sim))),
        λ ns edges i. elim (run_effects-append succeeds rows es (row_effects-Row F agent adj)) [
          | inr stop ↦ not_among_rows ns edges (run_effects succeeds (rows ++ es)).0 stop i
          | inl on ↦
              let made : (run_effects succeeds (rows ++ es)).0
                  ≡ calls_of points ++ ((calls_of olds ++ calls_of others) ++ last) =
                ap (λ r. r.0) on
                ∙ ap (λ u. u ++ last)
                    (calls_of-append points (olds ++ others)
                      ∙ ap (λ u. calls_of points ++ u) (calls_of-append olds others))
                ∙ append_assoc (calls_of points) (calls_of olds ++ calls_of others) last in
              let keep_old : (c : Call F)
                  → Among c (calls_of olds)
                  → Among c (run_effects succeeds (rows ++ es)).0 =
                λ c k. subst (Among c) (sym made) (
                  Among-right c (calls_of points) _ (
                    Among-left c (calls_of olds ++ calls_of others) last
                      (Among-left c (calls_of olds) (calls_of others) k))) in
              (
                All-map
                    (λ fp k.
                      subst (Among (upsert_point fp.point)) (sym made)
                        (Among-left (upsert_point fp.point) (calls_of points) _ k))
                    adj.final_points (point_effects-Upserted agent adj.final_points),
                All-map
                    (λ p k. (
                      keep_old (upsert_point (record p { status = "archived" })) k.0,
                      keep_old (delete_vector agent p.id) k.1,
                    ))
                    adj.archived (archive_effects-Archived agent adj.archived),
              )
        ],
      )
