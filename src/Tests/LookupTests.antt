-- ===== src/Tests/LookupTests.antt =====
-- The requests of internal/recall on the small store of StoreTests.
use interest_memory.Prelude.{
  ℕ, ◌≡◌, ◌<◌, inl, inr, refl, subst, ℤ, pos, negsuc, Bool-cases, false, Option, none, some, List,
  [], ◌∷◌, string_eq, text_eq, ◌==◌, Text, codes, arith, trim_space,
}
use interest_memory.Tests.Sample.{whole}
use interest_memory.Tests.StoreTests.{reads, page, heir}
use interest_memory.Tests.RecallTests.{hit, lookups, store, options}
use interest_memory.Cache
use interest_memory.Cache.{Cache, new, room}
use interest_memory.Cache.Valid.{new-IsValid}
use interest_memory.Store.Replace.{Replacement}
use interest_memory.Verify.{grade_for_recall, grade_hit, load_entity, substitute, replacement_hit}
use interest_memory.Verify.Shown.{Shown}
use interest_memory.Recall.{visible, rank, sort_hits, dedupe_hits, place_hit}
use interest_memory.Recall.Retrieve.{
  RecallStore, Index, search_hits, vec_search, retrieve, source_hits, filter_hits, event_times,
}
use interest_memory.Recall.Context.{
  Format, CacheEntry, Service, fresh_context, unexpired, with_default, recall_cache_key, recall,
  grade_by_agent,
}
use interest_memory.Recall.Cached.{recall-recall}
use interest_memory.Recall.Entity.{cached_point, cached_page, new_entity_cache, Result}
use interest_memory.Recall.Lookup.{search, result_for}
use interest_memory.Recall.Lookup.Agreed.{Agrees}
use interest_memory.Recall.Lookup.Ends.{Lawful, Settles, result_for-Settles}
use interest_memory.Recall.Lookup.Endless.{Selfish, Inactive, result_for-Selfish}

-- An index with one hit, on the archived point.
abbrev index : Index ℕ
index = record {
  search = λ ns q n. none;
  search_by_keywords = λ ns query n. some (hit (codes "a") "interest_point" 5 ∷ []);
}

abbrev pub service : Service ℕ
service = record {
  sources = record { embedder = none; index = some index; store = store };
  grader = λ ns hs. some (grade_for_recall whole lookups ns hs);
  resolver = none;
  annotate = false;
}

abbrev pub results : Option (List (Result ℕ))
results = search whole 1 service 2 (codes "ada") (codes "q") (pos 0) (pos 9)

abbrev pub found : List (Result ℕ)
found = elim results [ none ↦ [] | some out ↦ out ]

pub answers : results ≡ some found
unfolding search trim_space rank sort_hits dedupe_hits visible search_hits vec_search place_hit
    result_for cached_point cached_page
answers = refl

resolve-Lawful : Lawful store (codes "ada") (pos 9)
resolve-Lawful id rep score e = elim (Bool-cases (id == codes "a")) [
  | inl here ↦
      let same : heir ≡ rep = ground (arith, e, here) in
      subst (λ (r : Replacement ℕ). Shown reads (replacement_hit [] score r r.page)) same
        (inr (refl, page (codes "p") "active", refl, refl))
  | inr other ↦ absurd (ground (arith, e, other))
]

start-Agrees : Agrees store (codes "ada") new_entity_cache
start-Agrees = record {
  points = λ id p e. absurd (ground (arith, e));
  pages = λ id pg e. absurd (ground (arith, e));
}

result_for-Settles_example :
    Settles store (codes "ada") (pos 9) (
      result_for store
        (codes "ada")
        (pos 9)
        2
        (hit (codes "a") "interest_point" 5)
        new_entity_cache)
result_for-Settles_example =
    result_for-Settles store (codes "ada") (pos 9) 0 (hit (codes "a") "interest_point" 5)
      new_entity_cache resolve-Lawful start-Agrees

-- The store resolves "q" to a point whose page is "q".
abbrev round_store : RecallStore ℕ
round_store = record store {
  resolve = λ ns id. some (
      some (record { interest_point_id = codes "b"; page = some (page (codes "q") "superseded") }));
}

q-Selfish : Selfish round_store (codes "ada") (pos 9) (codes "q")
q-Selfish = record {
  page = page (codes "q") "superseded";
  rep = record { interest_point_id = codes "b"; page = some (page (codes "q") "superseded") };
  heir = page (codes "q") "superseded";
  stored = refl;
  inactive = refl;
  resolved = refl;
  by_page = refl;
  same = refl;
}

start-Inactive : Inactive round_store (codes "ada") (pos 9) (codes "q") new_entity_cache
start-Inactive pg e = absurd (ground (arith, e))

result_for-Selfish_example :
    result_for round_store (codes "ada") (pos 9) 5 (hit (codes "q") "wiki_page" 4) new_entity_cache
    ≡ none
result_for-Selfish_example =
    result_for-Selfish round_store (codes "ada") (pos 9) (hit (codes "q") "wiki_page" 4)
      new_entity_cache refl q-Selfish start-Inactive 5

abbrev show_integer : ℤ → Text
show_integer (pos n) = n ∷ []
show_integer (negsuc n) = 45 ∷ n ∷ []

abbrev format : Format ℕ
format = record {
  integer = show_integer;
  four_digits = λ x. x ∷ [];
  two_digits = λ x. x ∷ [];
  rfc3339 = λ t. t ∷ [];
  date = λ t. t ∷ [];
}

abbrev start_cache : Cache Text CacheEntry
start_cache = new (pos 2)

abbrev first_context : Option (Option Text)
first_context =
    fresh_context whole (λ x. x) 1 format service 50 (codes "ada") (codes "q")
      (with_default options) 2

abbrev context : Text
context = elim first_context [ some (some t) ↦ t | some none ↦ [] | none ↦ [] ]

has_context : first_context ≡ some (some context)
unfolding fresh_context visible retrieve source_hits vec_search filter_hits event_times rank
    sort_hits dedupe_hits place_hit grade_by_agent grade_for_recall grade_hit load_entity substitute
has_context = refl

fits : 0 < room start_cache.cap
unfolding new
fits = omega arith

asks : trim_space (codes "q") == [] ≡ false
unfolding trim_space
asks = refl

is_cold :
    unexpired 50
      (Cache.get start_cache
        (recall_cache_key whole format (codes "ada") (codes "q") (with_default options))).1
    ≡ none
unfolding Cache.get new
is_cold = refl

recall-recall_example :
    ((recall whole (λ x. x) 1 format service 50 52 start_cache (codes "ada") (codes "q") options).1
      ≡ some context)
    × ((recall whole
          (λ x. x)
          1
          format
          service
          81
          82
          (recall whole
            (λ x. x)
            1
            format
            service
            50
            52
            start_cache
            (codes "ada")
            (codes "q")
            options).0
          (codes "ada")
          (codes "q")
          options).1
        ≡ some context)
recall-recall_example =
    recall-recall whole (λ x. x) 1 format service service start_cache 50 52 81 82 (codes "ada")
      (codes "q") options context (new-IsValid (pos 2)) fits asks is_cold has_context (omega arith)
