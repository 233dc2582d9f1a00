-- ===== src/Recall/Lookup.antt =====
-- internal/recall/recall.go: resultFor, attachReplacement, getByIDIn, GetByID and Search.
pub mod Live
pub mod Agreed
pub mod Ends
pub mod Endless
use interest_memory.Prelude.{
  ℕ, zero, suc, ℤ, pos, positive_or, Bool, true, false, not, ◌||◌, ◌&&◌, Option, none, some, List,
  [], ◌∷◌, ◌++◌, String, string_eq, text_eq, ◌==◌, Eq, Text, trim_space, Float, if◌then◌else◌,
}
use interest_memory.Store.{InterestPoint, Page, Reads, archived, active_page}
use interest_memory.Store.Replace.{Replacement}
use interest_memory.Vec.{Hit}
use interest_memory.Verify.{is_point, replacement_hit}
use interest_memory.Recall.{visible, rank}
use interest_memory.Recall.Retrieve.{RecallStore, Sources, search_hits}
use interest_memory.Recall.Context.{Service}
use interest_memory.Recall.Entity.{
  Result, ReplacementRef, EntityCache, new_entity_cache, cached_point, cached_page, attach_edges,
  point_result, page_result,
}

-- A call with its result, or none within the fuel.
abbrev pub Answer : Type 0 → Type 0
Answer F = Option (Option (Result F) × EntityCache F)

module _ {F : Type 0} (st : RecallStore F) (ns : Text) (max_body_len : ℤ) where
  abbrev pub with_edges : Text → Result F → EntityCache F → Answer F
  with_edges id r ec = let (r', ec') = attach_edges st ns id r ec in some (some r', ec')

  -- The hit of the recursive call.
  abbrev pub successor_hit : Hit F → Option (Option (Replacement F)) → Option (Hit F)
  successor_hit h none = none
  successor_hit h (some none) = none
  successor_hit h (some (some rep)) = some (replacement_hit [] h.score rep rep.page)

  -- resultFor, where `again` is the recursive call on the live replacement.
  abbrev pub substituted :
      (Hit F → EntityCache F → Answer F) → EntityCache F → Option (Hit F) → Answer F
  substituted again ec none = some (none, ec)
  substituted again ec (some h) = again h ec

  abbrev pub point_or :
      (Hit F → EntityCache F → Answer F)
      → Hit F
      → Option (InterestPoint F) × EntityCache F
      → Answer F
  point_or again h (none, ec) = some (none, ec)
  point_or again h (some p, ec) =
      if not (archived p)
      then with_edges h.id (point_result p max_body_len) ec
      else substituted again ec (successor_hit h (st.resolve ns h.id))

  abbrev pub page_or :
      (Hit F → EntityCache F → Answer F) → Hit F → Option (Page F) × EntityCache F → Answer F
  page_or again h (none, ec) = some (none, ec)
  page_or again h (some pg, ec) =
      if active_page pg
      then with_edges h.id (page_result (st.reads ns) pg max_body_len) ec
      else substituted again ec (successor_hit h (st.resolve ns h.id))

  abbrev pub result_with : (Hit F → EntityCache F → Answer F) → Hit F → EntityCache F → Answer F
  result_with again h ec =
      if is_point h
      then point_or again h (cached_point (st.reads ns) h.id ec)
      else page_or again h (cached_page (st.reads ns) h.id ec)

  unfoldable pub result_for : ℕ → Hit F → EntityCache F → Answer F
  result_for zero h ec = none
  result_for (suc fuel) h ec = result_with (result_for fuel) h ec

  abbrev pub point_ref : Text → Option (Option (InterestPoint F)) → ReplacementRef
  point_ref id (some (some p)) = record {
    kind = "interest_point";
    id = id;
    title = p.name;
    status = p.status;
  }
  point_ref id _ = record { kind = "interest_point"; id = id; title = []; status = "" }

  abbrev pub page_or_point_ref : Text → Option (Page F) → ReplacementRef
  page_or_point_ref id (some pg) = record {
    kind = "wiki_page";
    id = pg.id;
    title = pg.title;
    status = pg.status;
  }
  page_or_point_ref id none = point_ref id ((st.reads ns).get_interest_point id)

  abbrev pub replacement_ref : Option (Option (Replacement F)) → Option ReplacementRef
  replacement_ref none = none
  replacement_ref (some none) = none
  replacement_ref (some (some rep)) = some (page_or_point_ref rep.interest_point_id rep.page)

  unfoldable pub attach_replacement : Text → Result F → Result F
  attach_replacement id r = record r { replacement = replacement_ref (st.resolve ns id) }

  -- The record of an archived entity, with its edges and what replaces it.
  abbrev pub archived_result : Text → Result F → EntityCache F → Answer F
  archived_result id r ec =
      let (r', ec') = attach_edges st ns id r ec in some (some (attach_replacement id r'), ec')

  abbrev pub bare_hit : Text → String → F → Hit F
  bare_hit id kind score = record { id = id; agent_id = []; kind = kind; score = score; meta = [] }

  abbrev pub page_in : ℕ → F → Text → EntityCache F → Option (Option (Page F)) → Answer F
  page_in fuel zero_score id ec none = some (none, ec)
  page_in fuel zero_score id ec (some none) = some (none, ec)
  page_in fuel zero_score id ec (some (some pg)) =
      if active_page pg
      then result_for fuel (bare_hit id "wiki_page" zero_score) ec
      else archived_result id (page_result (st.reads ns) pg max_body_len) ec

  abbrev pub entity_in :
      ℕ
      → F
      → Text
      → EntityCache F
      → Option (Option (InterestPoint F))
      → Option (Option (Page F))
      → Answer F
  entity_in fuel zero_score id ec (some (some p)) page =
      if archived p
      then archived_result id (point_result p max_body_len) ec
      else result_for fuel (bare_hit id "interest_point" zero_score) ec
  entity_in fuel zero_score id ec (some none) page = page_in fuel zero_score id ec page
  entity_in fuel zero_score id ec none page = page_in fuel zero_score id ec page

  -- getByIDIn; `zero_score` is the score of a hit without one.
  unfoldable pub get_by_id_in : ℕ → F → Text → EntityCache F → Answer F
  get_by_id_in fuel zero_score id ec =
      entity_in fuel zero_score id ec ((st.reads ns).get_interest_point id)
        ((st.reads ns).get_page id)

abbrev pub set_agent : {F : Type 0} → Bool → Text → Result F → Result F
set_agent annotate ns r = if annotate then record r { agent = ns } else r

module _ (fl : Float) (half : fl.F) where
  open fl use {F, zero_f}

  -- The namespaces in turn, until one has the entity.
  abbrev pub get_in_order : Service F → ℕ → ℤ → Text → List Text → Option (Option (Result F))
  get_in_order sv fuel max_body_len id [] = some none
  get_in_order sv fuel max_body_len id (ns ∷ nss) =
      let rest = get_in_order sv fuel max_body_len id nss in
      elim (get_by_id_in sv.sources.store ns max_body_len fuel zero_f id new_entity_cache) [
        | none ↦ none
        | some (none, ec) ↦ rest
        | some (some r, ec) ↦ some (some (set_agent sv.annotate ns r))
      ]

  unfoldable pub get_by_id : Service F → ℕ → Text → Text → ℤ → Option (Option (Result F))
  get_by_id sv fuel agent id max_body_len =
      if trim_space id == []
      then some none
      else get_in_order sv fuel max_body_len id (visible sv.resolver agent)

  -- The hits of all namespaces, of `Search`.
  abbrev pub search_all : Sources F → List Text → Text → ℕ → List (Hit F)
  search_all s [] query top_k = []
  search_all s (ns ∷ nss) query top_k =
      search_hits half s ns query top_k ++ search_all s nss query top_k

  abbrev pub add_result : Service F → Hit F → Option (Result F) → List (Result F) → List (Result F)
  add_result sv h none out = out
  add_result sv h (some r) out =
      set_agent (sv.annotate && not (h.agent_id == [])) h.agent_id r ∷ out

  -- The results of the hits in turn, with one cache.
  abbrev pub results_of :
      Service F → ℕ → ℤ → List (Hit F) → EntityCache F → Option (List (Result F))
  results_of sv fuel max_body_len [] ec = some []
  results_of sv fuel max_body_len (h ∷ hits) ec =
      elim (result_for sv.sources.store h.agent_id max_body_len fuel h ec) [
        | none ↦ none
        | some (r, ec') ↦ elim (results_of sv fuel max_body_len hits ec') [
          | none ↦ none
          | some out ↦ some (add_result sv h r out)
        ]
      ]

  -- `none` is a result that the fuel does not reach.
  unfoldable pub search : Service F → ℕ → Text → Text → ℤ → ℤ → Option (List (Result F))
  search sv fuel agent query top_k max_body_len =
      if trim_space query == []
      then some []
      else results_of sv fuel max_body_len
          (rank fl (positive_or 3 top_k)
            (search_all sv.sources (visible sv.resolver agent) query (positive_or 3 top_k)))
          new_entity_cache
