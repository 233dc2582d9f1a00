-- ===== src/Wiki/Related.antt =====
-- internal/wiki/reconcile.go: collectRelated and allArchived, on the queries of the store. `none` is an error.
pub mod Reached
pub mod Takes
pub mod Complete
use interest_memory.Prelude.{
  ℕ, zero, suc, ℤ, pos, positive_or, String, string_eq, text_eq, Bool, true, false, not, ◌||◌,
  Option, none, some, List, [], ◌∷◌, ◌++◌, ◌==◌, if◌then◌else◌, Text,
}
use interest_memory.Fork.Windows.{◌>>=◌}
use interest_memory.Store.{Page, Edge, active_page}
use interest_memory.Store.Replace.{is_has_page}
use interest_memory.Recall.{contains}

-- The queries of one namespace.
pub record Queries (F : Type 0) : Type 0 where
  pub get_pages_by_ids : List Text → Option (List (Page F))
  pub outlinks : Text → Option (List (Edge F))
  pub backlinks : Text → Option (List (Edge F))

-- The ids of the queue that are not visited yet, each once, and those visited with them.
unfoldable pub fresh_ids : List Text → List Text → List Text × List Text
fresh_ids visited [] = ([], visited)
fresh_ids visited (id ∷ queue) = elim (id == [] || contains visited id) [
  | true ↦ fresh_ids visited queue
  | false ↦ (id ∷ (fresh_ids (id ∷ visited) queue).0, (fresh_ids (id ∷ visited) queue).1)
]

module _ {F : Type 0} where
  -- `pageByID[id]`, of which the last page with the id counts.
  abbrev pub page_by_id : Option (Page F) → List (Page F) → Text → Option (Page F)
  page_by_id found [] id = found
  page_by_id found (p ∷ batch) id = page_by_id (if p.id == id then some p else found) batch id

  abbrev pub new_targets : List Text → List (Edge F) → List Text
  new_targets visited [] = []
  new_targets visited (e ∷ es) =
      let rest = new_targets visited es in
      if contains visited e.target_id then rest else e.target_id ∷ rest

  abbrev pub new_sources : List Text → List (Edge F) → List Text
  new_sources visited [] = []
  new_sources visited (e ∷ es) =
      let rest = new_sources visited es in
      if contains visited e.source_id then rest else e.source_id ∷ rest

  abbrev pub new_pages : List Text → List (Edge F) → List Text
  new_pages visited [] = []
  new_pages visited (e ∷ es) =
      let rest = new_pages visited es in
      if is_has_page e.kind
      then (if contains visited e.target_id then rest else e.target_id ∷ rest)
      else rest

  -- An error of a query of edges is no edges.
  abbrev pub edges_or_none : Option (List (Edge F)) → List (Edge F)
  edges_or_none none = []
  edges_or_none (some es) = es

  abbrev pub page_next : Queries F → List Text → Text → List Text
  page_next st visited id =
      new_targets visited (edges_or_none (st.outlinks id))
      ++ new_sources visited (edges_or_none (st.backlinks id))

  abbrev pub point_next : Queries F → List Text → Text → List Text
  point_next st visited id = new_pages visited (edges_or_none (st.outlinks id))

  abbrev pub step_id :
      Queries F
      → List Text
      → Text
      → Option (Page F)
      → List (Page F) × List Text
      → List (Page F) × List Text
  step_id st visited id none (pages, next) = (pages, point_next st visited id ++ next)
  step_id st visited id (some p) (pages, next) = (p ∷ pages, page_next st visited id ++ next)

  -- The loop over the ids of one hop: its pages, and the queue of the next one.
  unfoldable pub walk_ids :
      Queries F → List Text → List (Page F) → List Text → List (Page F) × List Text
  walk_ids st visited batch [] = ([], [])
  walk_ids st visited batch (id ∷ ids) =
      step_id st visited id (page_by_id none batch id) (walk_ids st visited batch ids)

  -- Without ids there is no query.
  abbrev pub pages_of : Queries F → List Text → Option (List (Page F))
  pages_of st [] = some []
  pages_of st (id ∷ ids) = st.get_pages_by_ids (id ∷ ids)

  -- The hops that are left, from a queue.
  unfoldable pub collect_hops : Queries F → ℕ → List Text → List Text → Option (List (Page F))
  collect_hops st zero visited queue = some []
  collect_hops st (suc hops) visited [] = some []
  collect_hops st (suc hops) visited (q ∷ queue) = do
    let ids = (fresh_ids visited (q ∷ queue)).0
    let seen = (fresh_ids visited (q ∷ queue)).1
    batch ← pages_of st ids
    let walked = walk_ids st seen batch ids
    rest ← collect_hops st hops seen walked.1
    some (walked.0 ++ rest)

  -- The seeds are hop 0.
  unfoldable pub collect_related : Queries F → List Text → ℤ → Option (List (Page F))
  collect_related st seeds max_hops = collect_hops st (suc (positive_or 3 max_hops)) [] seeds

  unfoldable pub none_active : List (Page F) → Bool
  none_active [] = true
  none_active (p ∷ pages) = if active_page p then false else none_active pages
