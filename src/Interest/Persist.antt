-- ===== src/Interest/Persist.antt =====
-- internal/interest/persist.go: Persist, as the calls of the store and of the vector index that it
-- makes in turn, and the types of internal/interest/adjudicate.go that it is given. A nil vector is
-- the empty list. A join of texts with blanks is written out.
pub mod Planned
pub mod Written
pub mod Stops
use interest_memory.Prelude.{
  ℕ, zero, suc, Bool, true, false, not, ◌||◌, ◌&&◌, List, [], ◌∷◌, ◌++◌, String, Text, codes,
  if◌then◌else◌, Float, Eq, ◌==◌,
}
use interest_memory.Store.{InterestPoint, Contradiction, Edge, EdgeType, related, contradict}
use interest_memory.Vec.{Entry}
use interest_memory.Interest.Merge.{cosine}

pub record FinalPoint (F : Type 0) : Type 0 where
  pub point : InterestPoint F
  pub vec : List F
  pub action : String

pub record Adjudication (F : Type 0) : Type 0 where
  pub final_points : List (FinalPoint F)
  pub archived : List (InterestPoint F)
  pub contradictions : List Contradiction

-- A call, with the fields of the log entry that Persist sets.
pub data Call (F : Type 0) : Type 0 where
  upsert_point : InterestPoint F → Call F
  upsert_vector : Entry F → Call F
  delete_vector : Text → Text → Call F
  append_log : Text → Text → Text → String → Call F
  upsert_contradiction : Contradiction → Call F
  add_edge_pairs : Text → List (Edge F) → Call F

-- Whether Persist returns the error of the call, or ignores it.
pub record Effect (F : Type 0) : Type 0 where
  pub call : Call F
  pub required : Bool

abbrev pub must : {F : Type 0} → Call F → Effect F
must c = record { call = c; required = true }

abbrev pub may : {F : Type 0} → Call F → Effect F
may c = record { call = c; required = false }

-- The keywords with a blank between two.
abbrev pub join_blank : List Text → Text
join_blank [] = []
join_blank (k ∷ []) = k
join_blank (k ∷ l ∷ ks) = k ++ codes " " ++ join_blank (l ∷ ks)

module _ {F : Type 0} where
  unfoldable pub persist_entry : InterestPoint F → List F → Entry F
  persist_entry p v = record {
    id = p.id;
    agent_id = p.agent_id;
    kind = "interest_point";
    vector = v;
    metadata = ("title", p.name) ∷ ("body", p.summary ++ codes " " ++ join_blank p.keywords) ∷ [];
  }

  abbrev pub vector_effects : InterestPoint F → List F → List (Effect F)
  vector_effects p [] = []
  vector_effects p (x ∷ v) = must (upsert_vector (persist_entry p (x ∷ v))) ∷ []

  abbrev pub point_effects : Text → List (FinalPoint F) → List (Effect F)
  point_effects agent [] = []
  point_effects agent (fp ∷ fps) =
      must (upsert_point fp.point) ∷ vector_effects fp.point fp.vec
      ++ may (append_log agent fp.point.id fp.point.name fp.action) ∷ point_effects agent fps

  abbrev pub archive_effects : Text → List (InterestPoint F) → List (Effect F)
  archive_effects agent [] = []
  archive_effects agent (p ∷ ps) =
      must (upsert_point (record p { status = "archived" }))
      ∷ must (delete_vector agent p.id)
      ∷ may (append_log agent p.id p.name "archive")
      ∷ archive_effects agent ps

  abbrev pub contradiction_effects : List Contradiction → List (Effect F)
  contradiction_effects [] = []
  contradiction_effects (c ∷ cs) = must (upsert_contradiction c) ∷ contradiction_effects cs

  -- The calls before the edges.
  abbrev pub row_effects : Text → Adjudication F → List (Effect F)
  row_effects agent adj =
      point_effects agent adj.final_points
      ++ (archive_effects agent adj.archived ++ contradiction_effects adj.contradictions)

  abbrev pub edge_effects : Text → List (Edge F) → List (Effect F)
  edge_effects agent [] = []
  edge_effects agent (e ∷ es) = must (add_edge_pairs agent (e ∷ es)) ∷ []

  -- The calls in turn, up to the first required one that fails, and whether none failed.
  unfoldable pub run_effects : (Call F → Bool) → List (Effect F) → List (Call F) × Bool
  run_effects succeeds [] = ([], true)
  run_effects succeeds (e ∷ es) =
      let rest = run_effects succeeds es in
      if e.required && not (succeeds e.call)
      then (e.call ∷ [], false)
      else (e.call ∷ rest.0, rest.1)

module _ (fl : Float) (one relate_default : fl.F) where
  open fl use {F, le, zero_f}

  -- The edge has no time yet, which is 0 here.
  abbrev pub contradict_edges : List Contradiction → List (Edge F)
  contradict_edges [] = []
  contradict_edges (c ∷ cs) =
      record {
        source_id = c.left_id;
        target_id = c.right_id;
        kind = contradict;
        weight = one;
        created_at = 0;
      }
      ∷ contradict_edges cs

  abbrev pub relate : F → FinalPoint F → FinalPoint F → List (Edge F)
  relate relate_sim a b =
      if le relate_sim (cosine fl a.vec b.vec)
      then record {
        source_id = a.point.id;
        target_id = b.point.id;
        kind = related;
        weight = cosine fl a.vec b.vec;
        created_at = 0;
      }
        ∷ []
      else []

  -- `Vec == nil` on either side joins nothing.
  abbrev pub relate_pair : F → FinalPoint F → FinalPoint F → List F → List F → List (Edge F)
  relate_pair relate_sim a b [] w = []
  relate_pair relate_sim a b (x ∷ v) [] = []
  relate_pair relate_sim a b (x ∷ v) (y ∷ w) = relate relate_sim a b

  abbrev pub relate_row : F → FinalPoint F → List (FinalPoint F) → List (Edge F)
  relate_row relate_sim a [] = []
  relate_row relate_sim a (b ∷ fps) =
      relate_pair relate_sim a b a.vec b.vec ++ relate_row relate_sim a fps

  abbrev pub related_edges : F → List (FinalPoint F) → List (Edge F)
  related_edges relate_sim [] = []
  related_edges relate_sim (a ∷ fps) = relate_row relate_sim a fps ++ related_edges relate_sim fps

  abbrev pub relate_threshold : F → F
  relate_threshold relate_sim = if le relate_sim zero_f then relate_default else relate_sim

  abbrev pub all_edges : Adjudication F → F → List (Edge F)
  all_edges adj relate_sim =
      contradict_edges adj.contradictions
      ++ related_edges (relate_threshold relate_sim) adj.final_points

  -- The calls that are made, and whether there was no error.
  unfoldable pub persist : (Call F → Bool) → Text → Adjudication F → F → List (Call F) × Bool
  persist succeeds agent adj relate_sim =
      run_effects succeeds (row_effects agent adj ++ edge_effects agent (all_edges adj relate_sim))
