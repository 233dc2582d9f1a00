-- ===== src/Tests/ClusterTests.antt =====
-- The conflict queues of internal/interest/cluster.go on lists of shared points.
use interest_memory.Prelude.{
  Among, ◌⊎◌, pos, none, some, Option, text_eq, ℕ, ◌≡◌, ◌≤◌, refl, true, false, List, [], ◌∷◌, Text,
  codes, All, arith, if◌then◌else◌, length, nat_eq, eqb_iff,
}
use interest_memory.Tests.Sample.{whole}
use interest_memory.Tests.StoreTests.{point, reads}
use interest_memory.Interest.Merge.{Point, cosine}
use interest_memory.Interest.Cluster.Kept.{Placed, cluster-Placed}
use interest_memory.Interest.Cluster.Lossless.{InQueue, split_conflicts-InQueue}
use interest_memory.Interest.Cluster.{
  HistPoint, Component, ClusterResult, PointIndex, list_comps, split_conflicts, hist_all, near_hits,
  cluster, fresh_used, queues, claim,
}
use interest_memory.Interest.Cluster.Placed.{queued, doubly_listed, competes, Apart, queues-Placed}

-- Two points share the component 1.
abbrev crossing : List (Text × List ℕ)
crossing = (codes "h", 0 ∷ 1 ∷ []) ∷ (codes "k", 1 ∷ 2 ∷ []) ∷ []

queues-Placed_example :
    All (λ t. 2 ≤ length t.2) (queues fresh_used crossing).0
    × ((y : ℕ) → (queues fresh_used crossing).1 y ≡ doubly_listed y crossing)
    × ((y : ℕ) → queued y (queues fresh_used crossing).0 ≤ (if competes y crossing then 1 else 0))
    × ((y : ℕ)
        → doubly_listed y crossing ≡ true
        → competes y crossing ≡ false
        → ((queues fresh_used crossing).1 y ≡ true) × (queued y (queues fresh_used crossing).0 ≡ 0))
queues-Placed_example = queues-Placed crossing

-- The component 0 lists one point twice, and stands neither in a queue nor in the plain list.
own_point_loses :
    (queued 0 (queues fresh_used ((codes "h", 0 ∷ 0 ∷ []) ∷ [])).0 ≡ 0)
    × ((queues fresh_used ((codes "h", 0 ∷ 0 ∷ []) ∷ [])).1 0 ≡ true)
unfolding queues claim
own_point_loses = (refl, refl)

-- The component 2 shares a point, and stands in no queue.
crossing_loses :
    (queued 2 (queues fresh_used crossing).0 ≡ 0) × ((queues fresh_used crossing).1 2 ≡ true)
unfolding queues claim
crossing_loses = (refl, refl)

abbrev pub near_point : Text → HistPoint ℕ
near_point id = record { pt = point id "active"; vec = 1 ∷ [] }

abbrev pub topic : Text → Point ℕ
topic name = record {
  candidate = record {
    topic = name;
    reason = [];
    confidence = 1;
    tags = [];
    turn_range = record { start = pos 0; stop = pos 0 };
    subjective = false;
    wiki_worthy = none;
    event_time = 0;
  };
  vec = 1 ∷ [];
}

-- Two components that share a point, and one with a point of its own.
abbrev pub rivals : List (Component ℕ)
rivals =
    record {
      members = topic (codes "a") ∷ [];
      hist = near_point (codes "h") ∷ [];
      member_hist = [];
    }
    ∷ record {
      members = topic (codes "b") ∷ [];
      hist = near_point (codes "h") ∷ [];
      member_hist = [];
    }
    ∷ record {
      members = topic (codes "c") ∷ [];
      hist = near_point (codes "k") ∷ [];
      member_hist = [];
    }
    ∷ []

rivals-Apart : Apart (list_comps 0 rivals [])
rivals-Apart =
    (λ h y. ground (arith, eqb_iff 0 y, eqb_iff 1 y, eqb_iff 2 y), (λ h y. ground (arith, h), tt))

split_conflicts-InQueue_example :
    (res : ClusterResult ℕ) × (split_conflicts whole 0 (λ t. t) rivals [] ≡ some res)
    × (res.isolated ≡ [])
    × ((c : Component ℕ)
        → Among c rivals
        → Among c res.components
          ⊎ InQueue whole 0 res.conflicts c
          ⊎ ¬ Apart (list_comps 0 rivals []))
split_conflicts-InQueue_example = split_conflicts-InQueue whole 0 (λ t. t) rivals [] (λ t h. h)

-- An index that finds the point "b" for each vector.
abbrev index : PointIndex ℕ
index = record {
  search = λ v n. some (
      record {
        id = codes "b";
        agent_id = codes "ada";
        kind = "interest_point";
        score = 5;
        meta = [];
      }
      ∷ []);
  get = λ id. some (
      some (record {
        id = id;
        agent_id = codes "ada";
        kind = "interest_point";
        vector = 1 ∷ [];
        metadata = ("title", id) ∷ [];
      }));
}

abbrev current : List (Point ℕ)
current = topic (codes "a") ∷ topic (codes "c") ∷ []

abbrev found : Option (List (List (HistPoint ℕ)))
found = hist_all whole (λ x. x) 0 1 0 (some reads.get_interest_point) (some index) 0 current

abbrev found_points : List (List (HistPoint ℕ))
found_points = elim found [ none ↦ [] | some hs ↦ hs ]

answers : found ≡ some found_points
unfolding hist_all near_hits cosine
answers = refl

cluster-Placed_example :
    (comps : List (Component ℕ)) × (isolated : List (Point ℕ)) × (cluster whole
        (λ x. x)
        0
        1
        0
        (λ t. t)
        (some index)
        (some reads.get_interest_point)
        current
        1
        0
      ≡ split_conflicts whole 0 (λ t. t) comps isolated)
    × ((p : Point ℕ) → Among p current → Placed comps isolated p)
cluster-Placed_example =
    cluster-Placed whole (λ x. x) 0 1 0 (λ t. t) (some index) (some reads.get_interest_point)
      current 1 0 found_points answers
