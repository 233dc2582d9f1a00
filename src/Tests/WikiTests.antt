-- ===== src/Tests/WikiTests.antt =====
-- The grouping of internal/wiki/grouping.go on two points with one vector.
use interest_memory.Prelude.{
  ℕ, ◌≡◌, ◌≢◌, refl, Option, none, some, List, [], ◌∷◌, Text, codes, Among, length, get_elem?,
  text_eq,
}
use interest_memory.Tests.Sample.{whole}
use interest_memory.Tests.StoreTests.{point}
use interest_memory.Store.{InterestPoint}
use interest_memory.Vec.{Entry}
use interest_memory.Interest.UnionFind.Components.{Chain}
use interest_memory.Wiki.Grouping.{PointWithVec, pair_up, group_by_cluster}
use interest_memory.Wiki.Grouping.Together.{Together, InSplit, joined, group_by_cluster-Together}

abbrev index : Option (Text → Option (Option (Entry ℕ)))
index = some (λ id. some (
    some (record {
      id = id;
      agent_id = codes "ada";
      kind = "interest_point";
      vector = 1 ∷ [];
      metadata = [];
    })))

abbrev points : List (InterestPoint ℕ)
points = point (codes "a") "active" ∷ point (codes "b") "active" ∷ []

abbrev paired : List (PointWithVec ℕ)
paired =
    record { pt = point (codes "a") "active"; vec = 1 ∷ [] }
    ∷ record { pt = point (codes "b") "active"; vec = 1 ∷ [] }
    ∷ []

answers : pair_up index none points ≡ some paired
unfolding pair_up
answers = refl

group_by_cluster-Together_example :
    (clusters : List (List (PointWithVec ℕ))) × (isolated : List (PointWithVec ℕ))
    × (group_by_cluster whole 1 index none points 1 ≡ some (clusters, isolated))
    × ((p : PointWithVec ℕ) → Among p paired → InSplit clusters isolated p)
    × ((i j : ℕ) (p q : PointWithVec ℕ)
        → get_elem? paired i ≡ some p
        → get_elem? paired j ≡ some q
        → i ≢ j
        → Chain (length paired) (joined whole 1 1 paired) i j
        → Together clusters p q)
group_by_cluster-Together_example =
    group_by_cluster-Together whole 1 index none points 1 paired answers
