-- ===== src/Tests/RelatedTests.antt =====
-- collectRelated of internal/wiki/reconcile.go on a point with a page, which refers to another one.
use interest_memory.Prelude.{
  ℕ, ◌≡◌, ◌≢◌, ◌≤◌, refl, Option, none, some, List, [], ◌∷◌, Text, codes, All, Among, text_eq, ◌==◌,
  if◌then◌else◌, false, pos, true,
}
use interest_memory.Tests.StoreTests.{page, edge}
use interest_memory.Store.{Page, Edge, has_page, reference}
use interest_memory.Recall.{contains}
use interest_memory.Wiki.Related.{Queries, page_by_id, collect_related}
use interest_memory.Wiki.Related.Reached.{Near}
use interest_memory.Wiki.Reconcile.{reconcile_related}
use interest_memory.Wiki.Reconcile.Batches.{Dispatched, reconcile_related-Dispatched}
use interest_memory.Wiki.Related.Complete.{Route, collect_related-Among}
use interest_memory.Wiki.Related.Takes.{Exact}

abbrev pages : List (Page ℕ)
pages = page (codes "p") "active" ∷ page (codes "q") "active" ∷ []

abbrev links : Text → Option (List (Edge ℕ))
links id =
    if id == codes "a"
    then some (edge (codes "a") (codes "p") has_page ∷ [])
    else if id == codes "p"
    then some (edge (codes "p") (codes "q") reference ∷ [])
    else none

-- The query answers with all pages that there are.
abbrev queries : Queries ℕ
queries = record { get_pages_by_ids = λ ids. some pages; outlinks = links; backlinks = λ id. none }

abbrev stored : Text → Option (Page ℕ)
stored id = page_by_id none pages id

abbrev answers :
    (ids : List Text)
    → (batch : List (Page ℕ)) × (queries.get_pages_by_ids ids ≡ some batch)
      × Exact queries stored ids batch
answers ids = (pages, refl, λ id i. refl)

collect_related-Among_example :
    (out : List (Page ℕ)) × (collect_related queries (codes "a" ∷ []) (pos 0) ≡ some out)
    × All (Near queries (codes "a" ∷ []) 4) out
    × ((k : ℕ) (seed goal : Text) (p : Page ℕ)
        → contains (codes "a" ∷ []) seed ≡ true
        → Route queries stored [] k seed goal
        → k ≤ 3
        → stored goal ≡ some p
        → Among p out)
collect_related-Among_example =
    collect_related-Among queries stored answers (codes "a" ∷ []) (pos 0)

related_pages :
    collect_related queries (codes "a" ∷ []) (pos 1) ≡ some (page (codes "p") "active" ∷ [])
unfolding collect_related interest_memory.Wiki.Related.collect_hops
    interest_memory.Wiki.Related.fresh_ids interest_memory.Wiki.Related.walk_ids
related_pages = refl

seeds_given : codes "a" ∷ [] ≢ []
seeds_given e = cc

reconcile_related-Dispatched_example :
    Dispatched
      (λ b. false)
      1
      (page (codes "p") "active" ∷ [])
      (reconcile_related (λ b. false) queries (some true) [] (codes "a" ∷ []) (pos 1) (pos 1))
reconcile_related-Dispatched_example =
    reconcile_related-Dispatched (λ b. false) queries [] (codes "a" ∷ []) (pos 1) (pos 1)
      (page (codes "p") "active" ∷ []) seeds_given related_pages
