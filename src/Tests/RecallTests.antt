-- ===== src/Tests/RecallTests.antt =====
-- The grading, the namespaces, the ranking and the filter of internal/verify and internal/recall on
-- the small store of StoreTests.
use interest_memory.Prelude.{
  ℕ, ◌≡◌, ◌≤◌, ◌<◌, ◌+◌, ◌⊎◌, pos, true, not, ◌&&◌, Option, none, some, List, [], ◌∷◌, ◌++◌, String,
  string_eq, text_eq, ◌==◌, Text, codes, All, Among, arith, if◌then◌else◌, length,
}
use interest_memory.Tests.Sample.{whole}
use interest_memory.Tests.StoreTests.{reads, point, page, heir}
use interest_memory.Store.Replace.{Replacement}
use interest_memory.Vec.{Hit}
use interest_memory.Verify.{Graded, Lookups, grade_for_recall}
use interest_memory.Verify.Shown.{Shown, FromHits, grade_for_recall-Shown}
use interest_memory.Recall.{Options, contains, visible, hit_key, rank}
use interest_memory.Recall.Namespaces.{Distinct, named, visible-Distinct}
use interest_memory.Recall.Ranking.{find_hit, DistinctHits, Comparable, Falls, Kept, rank-Falls}
use interest_memory.Recall.Retrieve.{RecallStore, filter_hits}
use interest_memory.Recall.Filtered.{Admitted, filter_hits-Admitted}
use interest_memory.Recall.Entity.{byte_len, rune_len, truncate}
use interest_memory.Recall.Entity.Cut.{truncate_bounds}

abbrev pub hit : Text → String → ℕ → Hit ℕ
hit id kind score = record {
  id = id;
  agent_id = codes "ada";
  kind = kind;
  score = score;
  meta = [];
}

abbrev pub resolve : Text → Option (Option (Replacement ℕ))
resolve id = if id == codes "a" then some (some heir) else some none

abbrev pub lookups : Lookups ℕ
lookups = record { reads = reads; resolve = resolve }

-- An archived point, a live one twice, and a page that is not there.
abbrev pub hits : List (Hit ℕ)
hits =
    hit (codes "a") "interest_point" 5
    ∷ hit (codes "b") "interest_point" 3
    ∷ hit (codes "b") "interest_point" 7
    ∷ hit (codes "z") "wiki_page" 4
    ∷ []

grade_for_recall-Shown_example :
    All
      (FromHits whole lookups (codes "ada") hits)
      (grade_for_recall whole lookups (codes "ada") hits)
    × All
        (λ h.
          Shown reads h
          → (g : Graded ℕ) × Among g (grade_for_recall whole lookups (codes "ada") hits)
            × (g.hit ≡ h))
        hits
grade_for_recall-Shown_example = grade_for_recall-Shown whole lookups (codes "ada") hits

abbrev resolver : Option (Text → Option (List Text))
resolver = some (λ agent. some (codes "team" ∷ agent ∷ [] ∷ codes "team" ∷ codes "all" ∷ []))

visible-Distinct_example :
    (ns : List Text) × (visible resolver (codes "ada") ≡ codes "ada" ∷ ns)
    × Distinct (codes "ada" ∷ ns)
    × ((n : Text)
        → contains ns n ≡ (
            contains (named resolver (codes "ada")) n && (not (n == []) && not (codes "ada" == n))))
visible-Distinct_example = visible-Distinct resolver (codes "ada")

pub whole-Comparable : Comparable whole
whole-Comparable a b c h k = ground arith

rank-Falls_example :
    (length (rank whole 2 hits) ≤ 2)
    × DistinctHits (rank whole 2 hits)
    × Falls whole (rank whole 2 hits)
    × All (λ h. find_hit (hit_key h) hits ≡ some h) (rank whole 2 hits)
    × ((k : Text) (h : Hit ℕ) → find_hit k hits ≡ some h → Kept whole 2 (rank whole 2 hits) h)
rank-Falls_example = rank-Falls whole 2 hits whole-Comparable

abbrev pub store : RecallStore ℕ
store = record {
  reads = λ ns. reads;
  points_by_ids = λ ns ids. some (point (codes "b") "active" ∷ point (codes "a") "archived" ∷ []);
  pages_by_ids = λ ns ids. none;
  search_points =
      λ ns query n. some (point (codes "b") "active" ∷ point (codes "a") "archived" ∷ []);
  search_pages = λ ns query n. some (page (codes "p") "active" ∷ []);
  resolve = λ ns id. resolve id;
}

abbrev pub options : Options ℕ
options = record {
  top_k = pos 2;
  include_wiki = true;
  min_score = 2;
  after = some 3;
  before = some 90;
  recent_days = pos 0;
}

filter_hits-Admitted_example :
    (length (filter_hits whole (λ x. x) store (codes "ada") 50 options 2 hits) ≤ 2)
    × All
        (Admitted whole (λ x. x) store (codes "ada") 50 options hits)
        (filter_hits whole (λ x. x) store (codes "ada") 50 options 2 hits)
filter_hits-Admitted_example =
    filter_hits-Admitted whole (λ x. x) store (codes "ada") 50 options 2 hits

abbrev open_options : Options ℕ
open_options = record options { min_score = 0; after = none; before = none }

truncate_bounds_example :
    ((byte_len (codes "añb") ≤ 2) × (truncate (codes "añb") (pos 2) ≡ codes "añb"))
    ⊎ ((c : ℕ) × (cut rest : Text) × (codes "añb" ≡ cut ++ c ∷ rest)
        × (truncate (codes "añb") (pos 2) ≡ cut ++ codes "...")
        × (byte_len cut ≤ 2)
        × (2 < byte_len cut + rune_len c)
        × (byte_len (truncate (codes "añb") (pos 2)) ≤ 2 + 3))
truncate_bounds_example = truncate_bounds (codes "añb") 1
