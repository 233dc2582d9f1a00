-- ===== src/Verify.antt =====
-- internal/verify: the grading of recall hits in one namespace (GradeForRecall, substitute and
-- loadEntity of grade.go, Graded of verify.go).
pub mod Shown
use interest_memory.Prelude.{
  ℕ, Bool, true, false, not, ◌||◌, Option, none, some, List, [], ◌∷◌, ◌++◌, String, string_eq, ◌==◌,
  Eq, Text, codes, Float, if◌then◌else◌,
}
use interest_memory.Store.{InterestPoint, Page, Claim, Reads, archived, active_page}
use interest_memory.Store.Replace.{Replacement}
use interest_memory.Vec.{Hit}

pub record Graded (F : Type 0) : Type 0 where
  pub hit : Hit F
  pub title : Text
  pub confidence : F
  pub status : String
  pub fresh_level : String
  pub event_time : ℕ
  pub note : Text

-- PointStore: the queries, and ResolveReplacement, whose outer `none` is an error.
pub record Lookups (F : Type 0) : Type 0 where
  pub reads : Reads F
  pub resolve : Text → Option (Option (Replacement F))

abbrev pub is_point : {F : Type 0} → Hit F → Bool
is_point h = h.kind == "interest_point"

-- The hit on the replacement of an entity.
abbrev pub replacement_hit : {F : Type 0} → Text → F → Replacement F → Option (Page F) → Hit F
replacement_hit agent score rep (some pg) = record {
  id = pg.id;
  agent_id = agent;
  kind = "wiki_page";
  score = score;
  meta = [];
}
replacement_hit agent score rep none = record {
  id = rep.interest_point_id;
  agent_id = agent;
  kind = "interest_point";
  score = score;
  meta = [];
}

-- What loadEntity returns where it does not skip.
pub record Loaded (F : Type 0) : Type 0 where
  pub title : Text
  pub confidence : F
  pub status : String
  pub fresh_level : String
  pub event_time : ℕ

module _ (fl : Float) where
  open fl use {F, lt, zero_f}

  abbrev pub strongest : Claim F → List (Claim F) → Claim F
  strongest best [] = best
  strongest best (c ∷ cs) = strongest (if lt best.confidence c.confidence then c else best) cs

  abbrev pub load_point : Option (Option (InterestPoint F)) → Option (Loaded F)
  load_point none = none
  load_point (some none) = none
  load_point (some (some p)) =
      if archived p
      then none
      else some (record {
        title = p.name;
        confidence = p.reliability.confidence;
        status = p.reliability.status;
        fresh_level = p.freshness.level;
        event_time = p.event_time;
      })

  -- The grade of a page from its claims; an error of their query counts as no claims.
  abbrev pub load_claims : Page F → Option (List (Claim F)) → Loaded F
  load_claims pg (some (c ∷ cs)) =
      let best = strongest c (c ∷ cs) in
      record {
        title = pg.title;
        confidence = best.confidence;
        status = best.status;
        fresh_level = best.freshness.level;
        event_time = pg.event_time;
      }
  load_claims pg _ = record {
    title = pg.title;
    confidence = zero_f;
    status = "unknown";
    fresh_level = "unknown";
    event_time = pg.event_time;
  }

  abbrev pub load_page : Option (List (Claim F)) → Option (Option (Page F)) → Option (Loaded F)
  load_page claims none = none
  load_page claims (some none) = none
  load_page claims (some (some pg)) = if active_page pg then some (load_claims pg claims) else none

  -- `none` is skip.
  unfoldable pub load_entity : Reads F → Hit F → Option (Loaded F)
  load_entity r h =
      if is_point h
      then load_point (r.get_interest_point h.id)
      else load_page (r.list_claims h.id) (r.get_page h.id)

  -- An error counts as no replacement, as the caller takes it.
  abbrev pub substitute_with : Text → Hit F → Option (Option (Replacement F)) → Option (Hit F)
  substitute_with agent h none = none
  substitute_with agent h (some none) = none
  substitute_with agent h (some (some rep)) = some (replacement_hit agent h.score rep rep.page)

  unfoldable pub substitute : Lookups F → Text → Hit F → Option (Hit F)
  substitute st agent h = substitute_with agent h (st.resolve h.id)

  abbrev pub annotate : Hit F → Loaded F → Graded F
  annotate h l = record {
    hit = h;
    title = l.title;
    confidence = l.confidence;
    status = l.status;
    fresh_level = l.fresh_level;
    event_time = l.event_time;
    note = codes "may be outdated or inaccurate — please verify on your own";
  }

  abbrev pub grade_loaded : Hit F → Option (Loaded F) → List (Graded F)
  grade_loaded h none = []
  grade_loaded h (some l) = annotate h l ∷ []

  abbrev pub grade_substitute : Lookups F → Option (Hit F) → List (Graded F)
  grade_substitute st none = []
  grade_substitute st (some sub) = grade_loaded sub (load_entity st.reads sub)

  abbrev pub grade_first : Lookups F → Text → Hit F → Option (Loaded F) → List (Graded F)
  grade_first st agent h none = grade_substitute st (substitute st agent h)
  grade_first st agent h (some l) = annotate h l ∷ []

  -- One round of the loop: what it appends.
  unfoldable pub grade_hit : Lookups F → Text → Hit F → List (Graded F)
  grade_hit st agent h = grade_first st agent h (load_entity st.reads h)

  unfoldable pub grade_for_recall : Lookups F → Text → List (Hit F) → List (Graded F)
  grade_for_recall st agent [] = []
  grade_for_recall st agent (h ∷ hits) = grade_hit st agent h ++ grade_for_recall st agent hits
