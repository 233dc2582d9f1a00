-- ===== src/Service/Queries/Hidden.antt =====
-- The wiki pages in the results of Search of internal/service/service.go.
use interest_memory.Prelude.{
  ℕ, ℤ, positive_or, ◌≡◌, refl, ap, ◌⊎◌, inl, inr, Bool, true, false, not, some, List, [], ◌∷◌,
  string_eq, ◌==◌, Text, Float, All, Among, Among-keep, keep, Bool-cases, length, length-keep-le,
  ◌≤◌, arith,
}
use interest_memory.Recall.Context.{Service}
use interest_memory.Recall.Entity.{Result}
use interest_memory.Recall.Lookup.{search}
use interest_memory.Recall.Lookup.Live.{LiveResult, search-Live}
use interest_memory.Service.Queries.{Defaults, top_k_or, is_wiki, show_results, search_results}

-- An interest point that is not archived.
abbrev pub LivePoint : {F : Type 0} → Result F → Type 0
LivePoint r = (r.kind ≡ "interest_point") × ((r.status == "archived") ≡ false)

keep_points-LivePoint :
    {F : Type 0} (items : List (Result F))
    → All LiveResult items
    → All LivePoint (keep (λ r. not (is_wiki r)) items)
keep_points-LivePoint [] a = tt
keep_points-LivePoint (r ∷ items) (inl (kind, live), a) =
    let point : is_wiki r ≡ false = ap (λ k. k == "wiki_page") kind in
    rw point ((kind, live), keep_points-LivePoint items a)
keep_points-LivePoint (r ∷ items) (inr (kind, live), a) =
    let page : is_wiki r ≡ true = ap (λ k. k == "wiki_page") kind in
    rw page (keep_points-LivePoint items a)

-- The second list is the first one without its wiki pages, in the same order.
pub data Without {F : Type 0} : List (Result F) → List (Result F) → Type 0 where
  nothing : Without [] []
  hidden :
      (r : Result F) (items out : List (Result F))
      → is_wiki r ≡ true
      → Without items out
      → Without (r ∷ items) out
  shown :
      (r : Result F) (items out : List (Result F))
      → is_wiki r ≡ false
      → Without items out
      → Without (r ∷ items) (r ∷ out)

keep_points-Without :
    {F : Type 0} (items : List (Result F)) → Without items (keep (λ r. not (is_wiki r)) items)
keep_points-Without [] = nothing
keep_points-Without (r ∷ items) = elim (Bool-cases (is_wiki r)) [
  | inl page ↦ rw page (hidden r items _ page (keep_points-Without items))
  | inr point ↦ rw point (shown r items _ point (keep_points-Without items))
]

module _ (fl : Float) (half : fl.F) (cfg : Defaults fl.F) (sv : Service fl.F) where
  open fl use {F}

  -- What is shown of the results of the recall service.
  abbrev pub Reveals : List (Result F) → List (Result F) → Type 0
  Reveals items out =
      ((cfg.wiki_enabled ≡ true) × (out ≡ items) × All LiveResult out)
      ⊎ ((cfg.wiki_enabled ≡ false)
          × Without items out
          × All LivePoint out
          × ((r : Result F) → is_wiki r ≡ false → Among r items → Among r out))

  show_results-Reveals :
      (enabled : Bool) (items : List (Result F))
      → cfg.wiki_enabled ≡ enabled
      → All LiveResult items
      → Reveals items (show_results enabled items)
        × (length (show_results enabled items) ≤ length items)
  unfolding show_results
  show_results-Reveals true items on a = (inl (on, refl, a), omega arith)
  show_results-Reveals false items off a = (
    inr (
      off,
      keep_points-Without items,
      keep_points-LivePoint items a,
      λ r other i. Among-keep (λ s. not (is_wiki s)) r items (ap not other) i,
    ),
    length-keep-le (λ r. not (is_wiki r)) items,
  )

  -- Where the recall service gives results, so does Search: with the wiki enabled, those; with it disabled,
  -- those of them that are no wiki pages, all and in the same order, and each is then an interest
  -- point that is not archived. There are at most as many as asked for, which is the configured number, or 3, where
  -- the request has no positive one.
  pub search_results-Reveals :
      (fuel : ℕ) (agent query : Text) (top_k : ℤ) (items : List (Result F))
      → search fl half sv fuel agent query (top_k_or cfg.search_top_k top_k) cfg.search_max_body_len
        ≡ some items
      → (out : List (Result F)) × (search_results fl half cfg sv fuel agent query top_k ≡ some out)
        × Reveals items out
        × (length out ≤ positive_or 3 (top_k_or cfg.search_top_k top_k))
  unfolding search_results
  search_results-Reveals fuel agent query top_k items found =
      let n = top_k_or cfg.search_top_k top_k in
      let (live, short) =
        search-Live fl half sv fuel agent query n cfg.search_max_body_len items found in
      let (told, fewer) = show_results-Reveals cfg.wiki_enabled items refl live in
      (show_results cfg.wiki_enabled items, rw found refl, told, omega (arith, short, fewer))
