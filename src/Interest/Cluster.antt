-- ===== src/Interest/Cluster.antt =====
-- internal/interest/cluster.go: Cluster, with the vector index and the store as functions. The order in
-- which Go ranges over the map of shared points is the parameter `order`.
pub mod Placed
pub mod Kept
pub mod Lossless
use mathlib.Core.List.{foldl, reverse}
use interest_memory.Prelude.{
  ℕ, zero, suc, ◌+◌, pos, negsuc, String, Bool, true, false, not, ◌||◌, Option, none, some, List,
  [], ◌∷◌, ◌++◌, length, get_elem?, Eq, ◌==◌, nat_eq, string_eq, text_eq, if◌then◌else◌, Text,
  codes, Float, insert, lookup, ltb, leb,
}
use interest_memory.Fork.Candidates.{Candidate, Range}
use interest_memory.Store.{InterestPoint}
use interest_memory.Vec.{Entry, Hit}
use interest_memory.Interest.UnionFind.{◌>>=◌, components}
use interest_memory.Interest.Merge.{Point, cosine, above, select}

pub record HistPoint (F : Type 0) : Type 0 where
  pub pt : InterestPoint F
  pub vec : List F

pub record Component (F : Type 0) : Type 0 where
  pub members : List (Point F)
  pub hist : List (HistPoint F)
  pub member_hist : List (Text × List (HistPoint F))

pub record ClusterResult (F : Type 0) : Type 0 where
  pub components : List (Component F)
  pub isolated : List (Point F)
  pub conflicts : List (List (Component F))

-- Of VectorIndex, in one namespace, what Cluster uses. A missing entry is the inner `none`.
pub record PointIndex (F : Type 0) : Type 0 where
  pub search : List F → ℕ → Option (List (Hit F))
  pub get : Text → Option (Option (Entry F))

-- `used[ci]`, and `used[ci] = true`.
abbrev pub Used : Type 0
Used = ℕ → Bool

abbrev pub set_used : Used → ℕ → Used
set_used used ci x = if x == ci then true else used x

abbrev pub fresh_used : Used
fresh_used ci = false

-- The indexes that go into a queue, of those that list a shared point.
unfoldable pub claim : Used → List ℕ → List ℕ × Used
claim used [] = ([], used)
claim used (ci ∷ cis) = elim (used ci) [
  | true ↦ claim used cis
  | false ↦ (ci ∷ (claim (set_used used ci) cis).0, (claim (set_used used ci) cis).1)
]

-- A shared point with the indexes that list it, and the indexes of its queue.
abbrev pub add_queue :
    Text → List ℕ → List ℕ → List (Text × List ℕ × List ℕ) → List (Text × List ℕ × List ℕ)
add_queue id cis q qs = if leb 2 (length q) then (id, cis, q) ∷ qs else qs

-- The loop over the shared points.
unfoldable pub queues : Used → List (Text × List ℕ) → List (Text × List ℕ × List ℕ) × Used
queues used [] = ([], used)
queues used ((id, cis) ∷ shared) = elim (ltb (length cis) 2) [
  | true ↦ queues used shared
  | false ↦ (
    add_queue id cis (claim used cis).0 (queues (claim used cis).1 shared).0,
    (queues (claim used cis).1 shared).1,
  )
]

-- `histInComps[id] = append(histInComps[id], ci)`
abbrev pub list_under : Text → ℕ → List (Text × List ℕ) → List (Text × List ℕ)
list_under id ci [] = (id, ci ∷ []) ∷ []
list_under id ci ((k, cis) ∷ table) =
    if k == id then (k, cis ++ ci ∷ []) ∷ table else (k, cis) ∷ list_under id ci table

module _ {F : Type 0} where
  abbrev pub list_hist : ℕ → List (HistPoint F) → List (Text × List ℕ) → List (Text × List ℕ)
  list_hist ci [] table = table
  list_hist ci (h ∷ hs) table = list_hist ci hs (list_under h.pt.id ci table)

  abbrev pub list_comps : ℕ → List (Component F) → List (Text × List ℕ) → List (Text × List ℕ)
  list_comps ci [] table = table
  list_comps ci (comp ∷ comps) table = list_comps (suc ci) comps (list_hist ci comp.hist table)

  -- The components that are not used, from index `ci` on.
  abbrev pub unused : Used → ℕ → List (Component F) → List (Component F)
  unused used ci [] = []
  unused used ci (comp ∷ comps) =
      if not (used ci) then comp ∷ unused used (suc ci) comps else unused used (suc ci) comps

  -- The vector of the last of these points with the id.
  abbrev pub vec_of : Text → List F → List (HistPoint F) → List F
  vec_of id shared [] = shared
  vec_of id shared (h ∷ hs) = vec_of id (if h.pt.id == id then h.vec else shared) hs

  abbrev pub shared_vec : List (Component F) → Text → List F → List ℕ → Option (List F)
  shared_vec comps id shared [] = some shared
  shared_vec comps id shared (ci ∷ cis) = do
    comp ← get_elem? comps ci
    shared_vec comps id (vec_of id shared comp.hist) cis

  abbrev pub select_comps : List (Component F) → List ℕ → Option (List (Component F))
  select_comps comps [] = some []
  select_comps comps (ci ∷ cis) = do
    comp ← get_elem? comps ci
    rest ← select_comps comps cis
    some (comp ∷ rest)

  -- `m[topic] = append(m[topic], h)` for each point.
  abbrev pub attach :
      Text
      → List (HistPoint F)
      → List (Text × List (HistPoint F))
      → List (Text × List (HistPoint F))
  attach topic [] m = m
  attach topic (h ∷ hs) m =
      attach topic hs
        (insert topic (elim (lookup topic m) [ none ↦ h ∷ [] | some old ↦ old ++ h ∷ [] ]) m)

  -- The loop that fills Hist and MemberHist of one component.
  abbrev pub ride :
      List (Point F) → List (List (HistPoint F)) → List ℕ → Component F → Option (Component F)
  ride pts hist_of [] comp = some comp
  ride pts hist_of (i ∷ is) comp = do
    p ← get_elem? pts i
    hs ← get_elem? hist_of i
    ride pts hist_of is (record comp {
      hist = comp.hist ++ hs;
      member_hist = attach p.candidate.topic hs comp.member_hist;
    })

module _ (fl : Float) (minus_one : fl.F) where
  open fl use {F, lt}

  abbrev pub best_affinity : List F → F → List (Point F) → F
  best_affinity shared best [] = best
  best_affinity shared best (m ∷ ms) =
      let s = cosine fl m.vec shared in best_affinity shared (if lt best s then s else best) ms

  unfoldable pub affinity_of : Component F → List F → F
  affinity_of comp shared = best_affinity shared minus_one comp.members

  -- One round of the insertion sort: the sorted part is given from its end.
  unfoldable pub settle : List F → List (Component F) → Component F → List (Component F)
  settle shared [] comp = comp ∷ []
  settle shared (prev ∷ done) comp =
      if lt (affinity_of prev shared) (affinity_of comp shared)
      then prev ∷ settle shared done comp
      else comp ∷ prev ∷ done

  unfoldable pub sort_conflict_queue : List F → List (Component F) → List (Component F)
  sort_conflict_queue shared queue = reverse (foldl (settle shared) [] queue)

  abbrev pub queue_up :
      List (Component F) → List (Text × List ℕ × List ℕ) → Option (List (List (Component F)))
  queue_up comps [] = some []
  queue_up comps ((id, cis, q) ∷ qs) = do
    shared ← shared_vec comps id [] cis
    queue ← select_comps comps q
    rest ← queue_up comps qs
    some (sort_conflict_queue shared queue ∷ rest)

  -- From the comment "Conflict detection" on.
  unfoldable pub split_conflicts :
      (List (Text × List ℕ) → List (Text × List ℕ))
      → List (Component F)
      → List (Point F)
      → Option (ClusterResult F)
  split_conflicts order comps isolated =
      let (qs, used) = queues fresh_used (order (list_comps 0 comps [])) in
      do
        conflicts ← queue_up comps qs
        some (record {
          components = unused used 0 comps;
          isolated = isolated;
          conflicts = conflicts;
        })

-- `n == 1` and no historical point.
abbrev pub no_hist : {F : Type 0} → Option (List (HistPoint F)) → Bool
no_hist none = false
no_hist (some []) = true
no_hist (some (h ∷ hs)) = false

abbrev pub alone : {F : Type 0} → List (List (HistPoint F)) → List ℕ → Bool
alone hist_of [] = false
alone hist_of (i ∷ []) = no_hist (get_elem? hist_of i)
alone hist_of (i ∷ j ∷ is) = false

module _ (fl : Float) (pts : List (Point fl.F)) (hist_of : List (List (HistPoint fl.F))) where
  open fl use {F}

  abbrev pub add_component :
      List (Point F)
      → Option (Component F)
      → List (Component F) × List (Point F)
      → Option (List (Component F) × List (Point F))
  add_component members none rest = none
  add_component members (some comp) (comps, isolated) = some (comp ∷ comps, isolated)

  -- The components and the isolated points of the groups.
  unfoldable pub group_comps : List (ℕ × List ℕ) → Option (List (Component F) × List (Point F))
  group_comps [] = some ([], [])
  group_comps ((r, is) ∷ groups) = do
    members ← select fl pts is
    rest ← group_comps groups
    (if alone hist_of is
        then some (rest.0, members ++ rest.1)
        else add_component members
            (ride pts hist_of is (record { members = members; hist = []; member_hist = [] })) rest)

abbrev pub text_or_empty : Option Text → Text
text_or_empty none = []
text_or_empty (some t) = t

module _ (fl : Float) (widen : fl.F → fl.F) (minus_one merge_default hist_default : fl.F) where
  open fl use {F, lt, le, zero_f}

  -- The point that the source makes of an entry where the store has none.
  abbrev pub entry_point : Entry F → InterestPoint F
  entry_point ent = record {
    id = ent.id;
    agent_id = ent.agent_id;
    name = text_or_empty (lookup "title" ent.metadata);
    summary = [];
    keywords = [];
    importance = zero_f;
    status = "";
    subjective = false;
    turn_range = record { start = pos 0; stop = pos 0 };
    event_time = 0;
    reliability = record { confidence = zero_f; evidence = []; status = "" };
    freshness = record { level = ""; updated_at = 0; ttl_days = pos 0 };
    first_seen_at = 0;
    last_seen_at = 0;
    seen_count = 0;
    source_sessions = [];
    wiki_worthy = none;
  }

  abbrev pub stored_or : InterestPoint F → Option (Option (InterestPoint F)) → InterestPoint F
  stored_or p none = p
  stored_or p (some none) = p
  stored_or p (some (some q)) = q

  -- The store, which may be nil, with its query in the namespace.
  abbrev pub hist_point : Option (Text → Option (Option (InterestPoint F))) → Entry F → HistPoint F
  hist_point none ent = record { pt = entry_point ent; vec = ent.vector }
  hist_point (some get) ent = record {
    pt = stored_or (entry_point ent) (get ent.id);
    vec = ent.vector;
  }

  abbrev pub near :
      Option (Text → Option (Option (InterestPoint F)))
      → F
      → List F
      → Option (Entry F)
      → Option (List (HistPoint F))
      → Option (List (HistPoint F))
  near st hist_sim v none rest = rest
  near st hist_sim v (some ent) rest =
      if le (cosine fl v ent.vector) hist_sim
      then rest
      else (do hs ← rest; some (hist_point st ent ∷ hs))

  -- The loop over the hits of one point: its historical points.
  unfoldable pub near_hits :
      Option (Text → Option (Option (InterestPoint F)))
      → PointIndex F
      → F
      → List F
      → List (Hit F)
      → Option (List (HistPoint F))
  near_hits st vi hist_sim v [] = some []
  near_hits st vi hist_sim v (h ∷ hits) =
      let rest = near_hits st vi hist_sim v hits in
      if not (h.kind == "interest_point")
      then rest
      else if lt (widen h.score) hist_sim
      then some []
      else (do ent ← vi.get h.id; near st hist_sim v ent rest)

  -- The historical points of each point.
  unfoldable pub hist_all :
      Option (Text → Option (Option (InterestPoint F)))
      → Option (PointIndex F)
      → F
      → List (Point F)
      → Option (List (List (HistPoint F)))
  hist_all st vi hist_sim [] = some []
  hist_all st none hist_sim (p ∷ pts) = do rest ← hist_all st none hist_sim pts; some ([] ∷ rest)
  hist_all st (some vi) hist_sim (p ∷ pts) = do
    hits ← vi.search p.vec 20
    hs ← near_hits st vi hist_sim p.vec hits
    rest ← hist_all st (some vi) hist_sim pts
    some (hs ∷ rest)

  abbrev pub or_default : F → F → F
  or_default default sim = if le sim zero_f then default else sim

  -- `none` is an error of the index.
  unfoldable pub cluster :
      (List (Text × List ℕ) → List (Text × List ℕ))
      → Option (PointIndex F)
      → Option (Text → Option (Option (InterestPoint F)))
      → List (Point F)
      → F
      → F
      → Option (ClusterResult F)
  cluster order vi st pts merge_sim hist_sim = do
    hist_of ← hist_all st vi (or_default hist_default hist_sim) pts
    groups ←
        components (length pts)
          (λ i j. above fl (or_default merge_default merge_sim) (get_elem? pts i) (get_elem? pts j))
    grouped ← group_comps fl pts hist_of groups
    split_conflicts fl minus_one order grouped.0 grouped.1
