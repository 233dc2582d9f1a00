-- ===== src/Recall/Retrieve.antt =====
-- internal/recall/recall.go, the hits of one namespace: retrieve, eventTimes, vecSearch,
-- fullTextFallback and searchHits. The embedder, the vector index and the store are interfaces.
use interest_memory.Prelude.{
  ℕ, zero, suc, ◌-◌, ◌*◌, ℤ, pos, negsuc, Bool, true, false, not, ◌||◌, ◌&&◌, Option, none, some,
  List, [], ◌∷◌, ◌++◌, string_eq, text_eq, ◌==◌, Text, trim_space, Float, if◌then◌else◌, ltb, eqb,
  take, keep, lookup, insert,
}
use interest_memory.Store.{InterestPoint, Page, Reads, archived, active_page}
use interest_memory.Store.Replace.{Replacement}
use interest_memory.Vec.{Hit}
use interest_memory.Verify.{is_point}
use interest_memory.Recall.{Options}

-- VectorIndex: by namespace, query and the number of hits asked for.
pub record Index (F : Type 0) : Type 0 where
  pub search : Text → List F → ℕ → Option (List (Hit F))
  pub search_by_keywords : Text → Text → ℕ → Option (List (Hit F))

-- Store, by namespace.
pub record RecallStore (F : Type 0) : Type 0 where
  pub reads : Text → Reads F
  pub points_by_ids : Text → List Text → Option (List (InterestPoint F))
  pub pages_by_ids : Text → List Text → Option (List (Page F))
  pub search_points : Text → Text → ℕ → Option (List (InterestPoint F))
  pub search_pages : Text → Text → ℕ → Option (List (Page F))
  pub resolve : Text → Text → Option (Option (Replacement F))

-- The parts of `service` that searches use; `none` is nil.
pub record Sources (F : Type 0) : Type 0 where
  pub embedder : Option (Text → Option (List F))
  pub index : Option (Index F)
  pub store : RecallStore F

-- A failed query is one without results.
abbrev pub or_empty : {A : Type 0} → Option (List A) → List A
or_empty none = []
or_empty (some xs) = xs

-- Without ids there is no query.
abbrev pub batch : {A : Type 0} → (List Text → Option (List A)) → List Text → List A
batch query [] = []
batch query (id ∷ ids) = or_empty (query (id ∷ ids))

-- `if len(a) == 0 { a = b }`
abbrev pub or_else : {A : Type 0} → List A → List A → List A
or_else [] ys = ys
or_else (x ∷ xs) ys = x ∷ xs

module _ {F : Type 0} where
  abbrev pub search_with : Option (Index F) → Text → ℕ → Option (List F) → List (Hit F)
  search_with none ns top_k q = []
  search_with (some vi) ns top_k none = []
  search_with (some vi) ns top_k (some q) = or_empty (vi.search ns q top_k)

  -- vecSearch, whose errors its callers take for no hits.
  abbrev pub embed_search :
      Option (Text → Option (List F)) → Option (Index F) → Text → Text → ℕ → List (Hit F)
  embed_search none vi ns query top_k = []
  embed_search (some em) vi ns query top_k = search_with vi ns top_k (em query)

  unfoldable pub vec_search : Sources F → Text → Text → ℕ → List (Hit F)
  vec_search s ns query top_k = embed_search s.embedder s.index ns query top_k

  abbrev pub point_hits : Text → F → List (InterestPoint F) → List (Hit F)
  point_hits ns half [] = []
  point_hits ns half (p ∷ ps) =
      if archived p
      then point_hits ns half ps
      else record {
        id = p.id;
        agent_id = ns;
        kind = "interest_point";
        score = half;
        meta = ("title", p.name) ∷ [];
      }
        ∷ point_hits ns half ps

  abbrev pub page_hits : Text → F → List (Page F) → List (Hit F)
  page_hits ns half [] = []
  page_hits ns half (pg ∷ pgs) =
      if active_page pg
      then record {
        id = pg.id;
        agent_id = ns;
        kind = "wiki_page";
        score = half;
        meta = ("title", pg.title) ∷ [];
      }
        ∷ page_hits ns half pgs
      else page_hits ns half pgs

  -- `half` is 0.5.
  unfoldable pub full_text_fallback : F → RecallStore F → Text → Text → ℕ → List (Hit F)
  full_text_fallback half st ns query top_k =
      if trim_space query == [] || eqb top_k 0
      then []
      else take top_k (
          point_hits ns half (or_empty (st.search_points ns query top_k))
          ++ page_hits ns half (or_empty (st.search_pages ns query top_k)))

  -- The keyword search of the index, where there were no hits. `none` is the panic of a nil index.
  abbrev pub keyword_hits :
      Option (Index F) → Text → Text → ℕ → List (Hit F) → Option (List (Hit F))
  keyword_hits vi ns query top_k (h ∷ hits) = some (h ∷ hits)
  keyword_hits none ns query top_k [] = none
  keyword_hits (some vi) ns query top_k [] = some (or_empty (vi.search_by_keywords ns query top_k))

  -- The three searches of `retrieve`.
  unfoldable pub source_hits : F → Sources F → Text → Text → ℕ → Option (List (Hit F))
  source_hits half s ns query top_k =
      elim (keyword_hits s.index ns query top_k (vec_search s ns query top_k)) [
        | none ↦ none
        | some hits ↦ some (or_else hits (full_text_fallback half s.store ns query top_k))
      ]

  -- The three searches of `searchHits`, which checks for a nil index.
  abbrev pub safe_keywords : Option (Index F) → Text → Text → ℕ → List (Hit F)
  safe_keywords none ns query top_k = []
  safe_keywords (some vi) ns query top_k = or_empty (vi.search_by_keywords ns query top_k)

  unfoldable pub search_hits : F → Sources F → Text → Text → ℕ → List (Hit F)
  search_hits half s ns query top_k = take top_k (
      or_else (or_else (vec_search s ns query top_k) (safe_keywords s.index ns query top_k))
        (full_text_fallback half s.store ns query top_k))

  abbrev pub put_points : List (Text × ℕ) → List (InterestPoint F) → List (Text × ℕ)
  put_points out [] = out
  put_points out (p ∷ ps) = put_points (insert p.id p.event_time out) ps

  abbrev pub put_page : Option ℕ → Page F → List (Text × ℕ) → List (Text × ℕ)
  put_page none pg out = insert pg.id pg.event_time out
  put_page (some t) pg out = out

  abbrev pub put_pages : List (Text × ℕ) → List (Page F) → List (Text × ℕ)
  put_pages out [] = out
  put_pages out (pg ∷ pgs) = put_pages (put_page (lookup pg.id out) pg out) pgs

  abbrev pub ids_of : Bool → List (Hit F) → List Text
  ids_of point [] = []
  ids_of true (h ∷ hits) = if is_point h then h.id ∷ ids_of true hits else ids_of true hits
  ids_of false (h ∷ hits) = if is_point h then ids_of false hits else h.id ∷ ids_of false hits

  unfoldable pub event_times : RecallStore F → Text → List (Hit F) → List (Text × ℕ)
  event_times st ns hits =
      put_pages (put_points [] (batch (st.points_by_ids ns) (ids_of true hits)))
        (batch (st.pages_by_ids ns) (ids_of false hits))

-- The event time of a hit: the zero time where the map has none.
abbrev pub time_or_zero : Option ℕ → ℕ
time_or_zero none = 0
time_or_zero (some t) = t

-- The seconds of a day.
abbrev pub day : ℕ
day = 86_400

-- `t.After(*after)`
abbrev pub later_of : Option ℕ → ℕ → ℕ
later_of none t = t
later_of (some after) t = if ltb after t then t else after

-- The lower end of the event-time window.
abbrev pub window_start : ℕ → Option ℕ → ℤ → Option ℕ
window_start now after (pos zero) = after
window_start now after (pos (suc days)) = some (later_of after (now - suc days * day))
window_start now after (negsuc n) = after

abbrev pub too_early : Option ℕ → ℕ → Bool
too_early none t = false
too_early (some after) t = eqb t 0 || ltb t after

abbrev pub too_late : Option ℕ → ℕ → Bool
too_late none t = false
too_late (some before) t = eqb t 0 || ltb before t

module _ (fl : Float) (narrow : fl.F → fl.F) where
  open fl use {F, lt, zero_f}

  -- `narrow` is the conversion to float32.
  abbrev pub passes : Options F → Option ℕ → List (Text × ℕ) → Hit F → Bool
  passes opts after times h =
      not (lt zero_f opts.min_score && lt h.score (narrow opts.min_score))
      && (not (not opts.include_wiki && h.kind == "wiki_page")
          && (not (too_early after (time_or_zero (lookup h.id times)))
              && not (too_late opts.before (time_or_zero (lookup h.id times)))))

  -- The filter and the cap. Without a window the map of times is not read.
  unfoldable pub filter_hits :
      RecallStore F → Text → ℕ → Options F → ℕ → List (Hit F) → List (Hit F)
  filter_hits st ns now opts top_k hits = take top_k (
      keep (passes opts (window_start now opts.after opts.recent_days) (event_times st ns hits))
        hits)

  -- `none` is a panic; `top_k` is positive, as Recall sees to.
  unfoldable pub retrieve : F → Sources F → ℕ → Text → Text → Options F → ℕ → Option (List (Hit F))
  retrieve half s now ns query opts top_k = elim (source_hits half s ns query top_k) [
    | none ↦ none
    | some hits ↦ some (filter_hits s.store ns now opts top_k hits)
  ]
