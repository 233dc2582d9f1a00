-- ===== src/Wiki/Grouping.antt =====
-- internal/wiki/grouping.go: groupByCluster, with the vector index and the embedder as functions. A nil
-- vector is the empty list, which no entry and no embedding is.
pub mod Together
use interest_memory.Prelude.{
  ℕ, zero, suc, Bool, true, false, not, ◌||◌, ◌&&◌, Option, none, some, List, [], ◌∷◌, ◌++◌, length,
  get_elem?, Eq, ◌==◌, nat_eq, if◌then◌else◌, Text, Float,
}
use interest_memory.Store.{InterestPoint}
use interest_memory.Vec.{Entry}
use interest_memory.Interest.UnionFind.{◌>>=◌, components}
use interest_memory.Interest.Merge.{sums, similarity}

pub record PointWithVec (F : Type 0) : Type 0 where
  pub pt : InterestPoint F
  pub vec : List F

abbrev pub is_nil : {A : Type 0} → List A → Bool
is_nil [] = true
is_nil (x ∷ xs) = false

-- The points at these indexes.
abbrev pub pick : {A : Type 0} → List A → List ℕ → Option (List A)
pick xs [] = some []
pick xs (i ∷ is) = do x ← get_elem? xs i; rest ← pick xs is; some (x ∷ rest)

module _ {F : Type 0} where
  abbrev pub vector_in : Option (Entry F) → List F
  vector_in none = []
  vector_in (some ent) = ent.vector

  -- The vector of the index, which may be nil; `none` is its error.
  abbrev pub stored_vector : Option (Text → Option (Option (Entry F))) → Text → Option (List F)
  stored_vector none id = some []
  stored_vector (some get) id = do ent ← get id; some (vector_in ent)

  abbrev pub vector_or_nil : Option (List F) → List F
  vector_or_nil none = []
  vector_or_nil (some v) = v

  abbrev pub or_embedded : Option (Text → Option (List F)) → Text → List F → List F
  or_embedded embedder name (x ∷ v) = x ∷ v
  or_embedded none name [] = []
  or_embedded (some embed) name [] = vector_or_nil (embed name)

  -- The points with their vectors.
  unfoldable pub pair_up :
      Option (Text → Option (Option (Entry F)))
      → Option (Text → Option (List F))
      → List (InterestPoint F)
      → Option (List (PointWithVec F))
  pair_up vi embedder [] = some []
  pair_up vi embedder (p ∷ pts) = do
    v ← stored_vector vi p.id
    rest ← pair_up vi embedder pts
    some (record { pt = p; vec = or_embedded embedder p.name v } ∷ rest)

  -- A group of one is isolated.
  abbrev pub add_group :
      List (PointWithVec F)
      → List (List (PointWithVec F)) × List (PointWithVec F)
      → List (List (PointWithVec F)) × List (PointWithVec F)
  add_group [] (clusters, isolated) = ([] ∷ clusters, isolated)
  add_group (m ∷ []) (clusters, isolated) = (clusters, m ∷ isolated)
  add_group (m ∷ k ∷ ms) (clusters, isolated) = ((m ∷ k ∷ ms) ∷ clusters, isolated)

  unfoldable pub split_groups :
      List (PointWithVec F)
      → List (ℕ × List ℕ)
      → Option (List (List (PointWithVec F)) × List (PointWithVec F))
  split_groups pw [] = some ([], [])
  split_groups pw ((r, is) ∷ groups) = do
    ms ← pick pw is
    rest ← split_groups pw groups
    some (add_group ms rest)

module _ (fl : Float) (group_default : fl.F) where
  open fl use {F, lt, le, zero_f}

  unfoldable pub wiki_cosine : List F → List F → F
  wiki_cosine a b =
      if is_nil a || is_nil b || not (length a == length b)
      then zero_f
      else similarity fl (sums fl a b (zero_f, (zero_f, zero_f)))

  -- Whether the loops join the points.
  abbrev pub joins : F → Option (PointWithVec F) → Option (PointWithVec F) → Bool
  joins group_sim none q = false
  joins group_sim (some p) none = false
  joins group_sim (some p) (some q) =
      not (is_nil p.vec) && (not (is_nil q.vec) && le group_sim (wiki_cosine p.vec q.vec))

  abbrev pub threshold : F → F
  threshold group_sim = if le group_sim zero_f then group_default else group_sim

  unfoldable pub group_vectors :
      F → List (PointWithVec F) → Option (List (List (PointWithVec F)) × List (PointWithVec F))
  group_vectors group_sim pw = do
    groups ←
        components (length pw)
          (λ i j. joins (threshold group_sim) (get_elem? pw i) (get_elem? pw j))
    split_groups pw groups

  -- The clusters and the isolated points; `none` is an error of the index.
  unfoldable pub group_by_cluster :
      Option (Text → Option (Option (Entry F)))
      → Option (Text → Option (List F))
      → List (InterestPoint F)
      → F
      → Option (List (List (PointWithVec F)) × List (PointWithVec F))
  group_by_cluster vi embedder pts group_sim = do
    pw ← pair_up vi embedder pts
    group_vectors group_sim pw
