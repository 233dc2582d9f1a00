-- ===== src/Tests/StoreTests.antt =====
-- The read paths of internal/store, internal/verify and internal/recall on a small store: the point
-- "a" is archived with the sequel "b", which has the page "p"; "x" and "y" are each other's sequels;
-- the page "q" is superseded by itself.
use interest_memory.Prelude.{
  ℕ, ◌≡◌, ◌⊎◌, inl, inr, refl, sym, subst, pos, false, Option, none, some, List, [], ◌∷◌, String,
  string_eq, text_eq, Text, codes, lookup,
}
use interest_memory.Store.{InterestPoint, Page, Edge, EdgeType, sequel, has_page, Reads, Freshness}
use interest_memory.Store.Replace.{
  Replacement, done, unfinished, resolve_replacement, normalize_id, walk, successor, first_page,
}
use interest_memory.Store.Replace.Live.{Sequel, PointAt, Leads, resolve_replacement-Leads}
use interest_memory.Store.Replace.Cycle.{Turns, resolve_replacement-Turns}

abbrev young : Freshness
young = record { level = "fresh"; updated_at = 1; ttl_days = pos 30 }

abbrev pub point : Text → String → InterestPoint ℕ
point id status = record {
  id = id;
  agent_id = codes "ada";
  name = id;
  summary = codes "s";
  keywords = [];
  importance = 1;
  status = status;
  subjective = false;
  turn_range = record { start = pos 0; stop = pos 0 };
  event_time = 9;
  reliability = record { confidence = 1; evidence = []; status = "supported" };
  freshness = young;
  first_seen_at = 1;
  last_seen_at = 1;
  seen_count = 1;
  source_sessions = [];
  wiki_worthy = none;
}

abbrev pub page : Text → String → Page ℕ
page id status = record {
  id = id;
  agent_id = codes "ada";
  page_type = "concept";
  title = id;
  body_md = codes "body";
  status = status;
  tags = [];
  sources = [];
  event_time = 9;
  claims = [];
  created_at = 1;
  updated_at = 1;
}

abbrev pub edge : Text → Text → EdgeType → Edge ℕ
edge a b kind = record { source_id = a; target_id = b; kind = kind; weight = 1; created_at = 1 }

abbrev pub points : List (Text × InterestPoint ℕ)
points =
    (codes "a", point (codes "a") "archived")
    ∷ (codes "b", point (codes "b") "active")
    ∷ (codes "x", point (codes "x") "archived")
    ∷ (codes "y", point (codes "y") "archived")
    ∷ []

abbrev pages : List (Text × Page ℕ)
pages = (codes "p", page (codes "p") "active") ∷ (codes "q", page (codes "q") "superseded") ∷ []

abbrev outs : List (Text × List (Edge ℕ))
outs =
    (codes "a", edge (codes "a") (codes "b") sequel ∷ [])
    ∷ (codes "b", edge (codes "b") (codes "p") has_page ∷ [])
    ∷ (codes "x", edge (codes "x") (codes "y") sequel ∷ [])
    ∷ (codes "y", edge (codes "y") (codes "x") sequel ∷ [])
    ∷ []

abbrev edges_at : Option (List (Edge ℕ)) → List (Edge ℕ)
edges_at none = []
edges_at (some es) = es

abbrev pub reads : Reads ℕ
reads = record {
  get_interest_point = λ id. some (lookup id points);
  get_page = λ id. some (lookup id pages);
  list_claims = λ id. some [];
  outlinks = λ id. some (edges_at (lookup id outs));
  backlinks = λ id. some [];
}

abbrev pub heir : Replacement ℕ
heir = record { interest_point_id = codes "b"; page = some (page (codes "p") "active") }

finds : resolve_replacement reads 1 (codes "a") ≡ done (some heir)
unfolding resolve_replacement normalize_id walk successor first_page
finds = refl

resolve_replacement-Leads_example :
    (ip : Text) × (normalize_id reads (codes "a") ≡ some ip)
    × Leads reads ip (codes "b")
    × PointAt reads false (codes "b")
resolve_replacement-Leads_example = resolve_replacement-Leads reads 1 (codes "a") heir finds

-- From "x", the sequels go round.
abbrev Ring : Text → Type 0
Ring id = (id ≡ codes "x") ⊎ (id ≡ codes "y")

to_y : Sequel reads (codes "x") (codes "y")
to_y = ((λ e. cc), edge (codes "x") (codes "y") sequel ∷ [], refl, refl, (λ e. cc))

to_x : Sequel reads (codes "y") (codes "x")
to_x = ((λ e. cc), edge (codes "y") (codes "x") sequel ∷ [], refl, refl, (λ e. cc))

Ring-Turns : Turns reads Ring
Ring-Turns a (inl e) = (
  codes "y",
  subst (λ id. Sequel reads id (codes "y")) (sym e) to_y,
  (point (codes "y") "archived", refl, refl),
  inr refl,
)
Ring-Turns a (inr e) = (
  codes "x",
  subst (λ id. Sequel reads id (codes "x")) (sym e) to_x,
  (point (codes "x") "archived", refl, refl),
  inl refl,
)

starts_at_x : normalize_id reads (codes "x") ≡ some (codes "x")
unfolding normalize_id
starts_at_x = refl

resolve_replacement-Turns_example : resolve_replacement reads 7 (codes "x") ≡ unfinished
resolve_replacement-Turns_example =
    resolve_replacement-Turns reads Ring (codes "x") (codes "x") Ring-Turns starts_at_x (inl refl) 7
