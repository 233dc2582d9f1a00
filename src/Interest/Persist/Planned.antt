-- ===== src/Interest/Persist/Planned.antt =====
-- The calls that Persist (internal/interest/persist.go) is to make for an adjudication.
use mathlib.Core.List.{append_assoc}
use interest_memory.Prelude.{
  ◌≡◌, refl, ap, ◌∙◌, Bool, true, false, not, List, [], ◌∷◌, ◌++◌, Text, All, All-append,
}
use interest_memory.Store.{InterestPoint, Contradiction, Edge}
use interest_memory.Interest.Persist.{
  FinalPoint, Adjudication, Call, Effect, add_edge_pairs, upsert_point, upsert_vector,
  delete_vector, append_log, upsert_contradiction, may, persist_entry, vector_effects,
  point_effects, archive_effects, contradiction_effects, edge_effects, row_effects,
}

module _ {F : Type 0} where
  abbrev pub calls_of : List (Effect F) → List (Call F)
  calls_of [] = []
  calls_of (e ∷ es) = e.call ∷ calls_of es

  abbrev pub is_log : Call F → Bool
  is_log (upsert_point p) = false
  is_log (upsert_vector ent) = false
  is_log (delete_vector agent id) = false
  is_log (append_log agent id title action) = true
  is_log (upsert_contradiction c) = false
  is_log (add_edge_pairs agent es) = false

  -- The error of the call is returned, unless it is one of the log.
  abbrev pub Pinned : Effect F → Type 0
  Pinned e = e.required ≡ not (is_log e.call)

  -- The calls for each final point, for each archived one and for each contradiction.
  abbrev pub vector_calls : InterestPoint F → List F → List (Call F)
  vector_calls p [] = []
  vector_calls p (x ∷ v) = upsert_vector (persist_entry p (x ∷ v)) ∷ []

  abbrev pub point_calls : Text → List (FinalPoint F) → List (Call F)
  point_calls agent [] = []
  point_calls agent (fp ∷ fps) =
      upsert_point fp.point ∷ vector_calls fp.point fp.vec
      ++ append_log agent fp.point.id fp.point.name fp.action ∷ point_calls agent fps

  abbrev pub archive_calls : Text → List (InterestPoint F) → List (Call F)
  archive_calls agent [] = []
  archive_calls agent (p ∷ ps) =
      upsert_point (record p { status = "archived" })
      ∷ delete_vector agent p.id
      ∷ append_log agent p.id p.name "archive"
      ∷ archive_calls agent ps

  abbrev pub contradiction_calls : List Contradiction → List (Call F)
  contradiction_calls [] = []
  contradiction_calls (c ∷ cs) = upsert_contradiction c ∷ contradiction_calls cs

  abbrev pub edge_calls : Text → List (Edge F) → List (Call F)
  edge_calls agent [] = []
  edge_calls agent (e ∷ es) = add_edge_pairs agent (e ∷ es) ∷ []

  -- The calls that an adjudication asks for.
  abbrev pub planned : Text → Adjudication F → List (Edge F) → List (Call F)
  planned agent adj edges =
      point_calls agent adj.final_points
      ++ (archive_calls agent adj.archived
          ++ (contradiction_calls adj.contradictions ++ edge_calls agent edges))

  pub calls_of-append : (xs ys : List (Effect F)) → calls_of (xs ++ ys) ≡ calls_of xs ++ calls_of ys
  calls_of-append [] ys = refl
  calls_of-append (x ∷ xs) ys = ap (◌∷◌ x.call) (calls_of-append xs ys)

  vector_effects-Pinned : (p : InterestPoint F) (v : List F) → All Pinned (vector_effects p v)
  vector_effects-Pinned p [] = tt
  vector_effects-Pinned p (x ∷ v) = (refl, tt)

  point_effects-Pinned :
      (agent : Text) (fps : List (FinalPoint F)) → All Pinned (point_effects agent fps)
  point_effects-Pinned agent [] = tt
  point_effects-Pinned agent (fp ∷ fps) = (
    refl,
    All-append _ (vector_effects fp.point fp.vec) _ (vector_effects-Pinned fp.point fp.vec)
        (refl, point_effects-Pinned agent fps),
  )

  archive_effects-Pinned :
      (agent : Text) (ps : List (InterestPoint F)) → All Pinned (archive_effects agent ps)
  archive_effects-Pinned agent [] = tt
  archive_effects-Pinned agent (p ∷ ps) = (refl, (refl, (refl, archive_effects-Pinned agent ps)))

  edge_effects-Pinned :
      (agent : Text) (edges : List (Edge F)) → All Pinned (edge_effects agent edges)
  edge_effects-Pinned agent [] = tt
  edge_effects-Pinned agent (e ∷ es) = (refl, tt)

  calls_of-vector_effects :
      (p : InterestPoint F) (v : List F) → calls_of (vector_effects p v) ≡ vector_calls p v
  calls_of-vector_effects p [] = refl
  calls_of-vector_effects p (x ∷ v) = refl

  calls_of-point_effects :
      (agent : Text) (fps : List (FinalPoint F))
      → calls_of (point_effects agent fps) ≡ point_calls agent fps
  calls_of-point_effects agent [] = refl
  calls_of-point_effects agent (fp ∷ fps) =
      let log = append_log agent fp.point.id fp.point.name fp.action in
      ap (◌∷◌ (upsert_point fp.point)) (
        calls_of-append (vector_effects fp.point fp.vec) (may log ∷ point_effects agent fps)
        ∙ ap (λ u. u ++ log ∷ calls_of (point_effects agent fps))
            (calls_of-vector_effects fp.point fp.vec)
        ∙ ap (λ u. vector_calls fp.point fp.vec ++ log ∷ u) (calls_of-point_effects agent fps))

  calls_of-archive_effects :
      (agent : Text) (ps : List (InterestPoint F))
      → calls_of (archive_effects agent ps) ≡ archive_calls agent ps
  calls_of-archive_effects agent [] = refl
  calls_of-archive_effects agent (p ∷ ps) =
      ap
        (λ u.
          upsert_point (record p { status = "archived" })
          ∷ delete_vector agent p.id
          ∷ append_log agent p.id p.name "archive"
          ∷ u)
        (calls_of-archive_effects agent ps)

  calls_of-edge_effects :
      (agent : Text) (edges : List (Edge F))
      → calls_of (edge_effects agent edges) ≡ edge_calls agent edges
  calls_of-edge_effects agent [] = refl
  calls_of-edge_effects agent (e ∷ es) = refl

contradiction_effects-Pinned :
    (G : Type 0) (cs : List Contradiction)
    → All (λ (e : Effect G). e.required ≡ not (is_log e.call)) (contradiction_effects {F = G} cs)
contradiction_effects-Pinned G [] = tt
contradiction_effects-Pinned G (c ∷ cs) = (refl, contradiction_effects-Pinned G cs)

calls_of-contradiction_effects :
    (G : Type 0) (cs : List Contradiction)
    → calls_of (contradiction_effects {F = G} cs) ≡ contradiction_calls {F = G} cs
calls_of-contradiction_effects G [] = refl
calls_of-contradiction_effects G (c ∷ cs) =
    ap (λ u. upsert_contradiction c ∷ u) (calls_of-contradiction_effects G cs)

-- All effects of Persist, in turn.
pub effects-Pinned :
    (G : Type 0) (agent : Text) (adj : Adjudication G) (edges : List (Edge G))
    → All
        (λ (e : Effect G). e.required ≡ not (is_log e.call))
        (row_effects agent adj ++ edge_effects agent edges)
effects-Pinned G agent adj edges =
    All-append _ (row_effects agent adj) (edge_effects agent edges)
      (All-append _ (point_effects agent adj.final_points)
        (archive_effects agent adj.archived ++ contradiction_effects adj.contradictions)
        (point_effects-Pinned agent adj.final_points)
        (All-append _ (archive_effects agent adj.archived)
          (contradiction_effects adj.contradictions) (archive_effects-Pinned agent adj.archived)
          (contradiction_effects-Pinned G adj.contradictions)))
      (edge_effects-Pinned agent edges)

pub calls_of-effects :
    (G : Type 0) (agent : Text) (adj : Adjudication G) (edges : List (Edge G))
    → calls_of (row_effects agent adj ++ edge_effects agent edges) ≡ planned agent adj edges
calls_of-effects G agent adj edges =
    let points = point_effects agent adj.final_points in
    let olds = archive_effects agent adj.archived in
    let others : List (Effect G) = contradiction_effects adj.contradictions in
    let last = edge_effects agent edges in
    calls_of-append (points ++ (olds ++ others)) last
    ∙ ap (λ u. u ++ calls_of last)
        (calls_of-append points (olds ++ others)
          ∙ ap (λ u. calls_of points ++ u) (calls_of-append olds others))
    ∙ append_assoc (calls_of points) (calls_of olds ++ calls_of others) (calls_of last)
    ∙ ap (λ u. calls_of points ++ u)
        (append_assoc (calls_of olds) (calls_of others) (calls_of last))
    ∙ ap (λ u. u ++ (calls_of olds ++ (calls_of others ++ calls_of last)))
        (calls_of-point_effects agent adj.final_points)
    ∙ ap (λ u. point_calls agent adj.final_points ++ (u ++ (calls_of others ++ calls_of last)))
        (calls_of-archive_effects agent adj.archived)
    ∙ ap
        (λ u.
          point_calls agent adj.final_points
          ++ (archive_calls agent adj.archived ++ (u ++ calls_of last)))
        (calls_of-contradiction_effects G adj.contradictions)
    ∙ ap
        (λ u.
          point_calls agent adj.final_points
          ++ (archive_calls agent adj.archived ++ (contradiction_calls adj.contradictions ++ u)))
        (calls_of-edge_effects agent edges)
