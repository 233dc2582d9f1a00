-- ===== src/Service/Queries.antt =====
-- internal/service/service.go, what the HTTP layer calls: Recall, Search, GetByID, Stats and ForkManual, with
-- the recall service of internal/recall. `none` is an error, or fuel that ran out.
pub mod Hidden
use interest_memory.Prelude.{
  ℕ, zero, suc, ℤ, pos, negsuc, Bool, true, false, not, ◌||◌, ◌&&◌, Option, none, some, List, [],
  ◌∷◌, String, string_eq, ◌==◌, Text, Float, keep, if◌then◌else◌,
}
use interest_memory.Cache.{Cache}
use interest_memory.Fork.Windows.{◌>>=◌}
use interest_memory.Recall.{Options}
use interest_memory.Recall.Context.{Format, CacheEntry, Service, recall}
use interest_memory.Recall.Entity.{Result}
use interest_memory.Recall.Lookup.{get_by_id, search}

-- The fields of the configuration that are read.
pub record Defaults (F : Type 0) : Type 0 where
  pub recall_top_k : ℤ
  pub recall_include_wiki : Bool
  pub recall_min_score : F
  pub search_top_k : ℤ
  pub search_max_body_len : ℤ
  pub wiki_enabled : Bool

-- `if topK <= 0 { topK = default }`
abbrev pub top_k_or : ℤ → ℤ → ℤ
top_k_or default (pos zero) = default
top_k_or default (pos (suc n)) = pos (suc n)
top_k_or default (negsuc n) = default

abbrev pub is_wiki : {F : Type 0} → Result F → Bool
is_wiki r = r.kind == "wiki_page"

-- What is shown of the results.
unfoldable pub show_results : {F : Type 0} → Bool → List (Result F) → List (Result F)
show_results true items = items
show_results false items = keep (λ r. not (is_wiki r)) items

unfoldable pub show_result : {F : Type 0} → Bool → Option (Result F) → Option (Result F)
show_result wiki_enabled none = none
show_result wiki_enabled (some r) = if not wiki_enabled && is_wiki r then none else some r

module _ (fl : Float) where
  open fl use {F, le, zero_f}

  unfoldable pub recall_options : Defaults F → Options F → Options F
  recall_options cfg opts = record opts {
    top_k = top_k_or cfg.recall_top_k opts.top_k;
    include_wiki = cfg.wiki_enabled && (opts.include_wiki || cfg.recall_include_wiki);
    min_score = if le opts.min_score zero_f then cfg.recall_min_score else opts.min_score;
  }

  -- Service.Recall, with the clock of the recall service and its cache.
  unfoldable pub recall_text :
      (F → F)
      → F
      → Format F
      → Defaults F
      → Service F
      → ℕ
      → ℕ
      → Cache Text CacheEntry
      → Text
      → Text
      → Options F
      → Cache Text CacheEntry × Option Text
  recall_text narrow half fm cfg sv now stored_at c agent query opts =
      recall fl narrow half fm sv now stored_at c agent query (recall_options cfg opts)

  unfoldable pub search_results :
      F → Defaults F → Service F → ℕ → Text → Text → ℤ → Option (List (Result F))
  search_results half cfg sv fuel agent query top_k = do
    items ←
        search fl half sv fuel agent query (top_k_or cfg.search_top_k top_k) cfg.search_max_body_len
    some (show_results cfg.wiki_enabled items)

  unfoldable pub result_by_id :
      F → Defaults F → Service F → ℕ → Text → Text → Option (Option (Result F))
  result_by_id half cfg sv fuel agent id = do
    r ← get_by_id fl half sv fuel agent id cfg.search_max_body_len
    some (show_result cfg.wiki_enabled r)

pub record Counts : Type 0 where
  pub interest_points : ℕ
  pub wiki_pages : ℕ
  pub contradictions : ℕ

-- The three counts of the store, in turn.
unfoldable pub stats : Option ℕ → Option ℕ → Option ℕ → Option Counts
stats ips pages cons = do
  i ← ips
  p ← pages
  c ← cons
  some (record { interest_points = i; wiki_pages = p; contradictions = c })
