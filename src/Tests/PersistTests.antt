-- ===== src/Tests/PersistTests.antt =====
-- Persist of internal/interest/persist.go on a point and an archived one, where no vector is deleted.
use interest_memory.Prelude.{ℕ, Bool, true, false, List, [], ◌∷◌, Text, codes, All, Among}
use interest_memory.Tests.Sample.{whole}
use interest_memory.Tests.StoreTests.{point}
use interest_memory.Store.{Edge}
use interest_memory.Interest.Persist.{
  Adjudication, Call, add_edge_pairs, delete_vector, all_edges, persist,
}
use interest_memory.Interest.Persist.Planned.{planned}
use interest_memory.Interest.Persist.Stops.{Ran, persist-Ran}
use interest_memory.Interest.Persist.Written.{Upserted, Archived}

abbrev succeeds : Call ℕ → Bool
succeeds (delete_vector agent id) = false
succeeds c = true

abbrev verdict : Adjudication ℕ
verdict = record {
  final_points =
      record { point = point (codes "a") "active"; vec = 1 ∷ []; action = "create" }
      ∷ record { point = point (codes "b") "active"; vec = 1 ∷ []; action = "update" }
      ∷ [];
  archived = point (codes "c") "active" ∷ [];
  contradictions = [];
}

persist-Ran_example :
    Ran succeeds
      (planned (codes "ada") verdict (all_edges whole 1 1 verdict 1))
      (persist whole 1 1 succeeds (codes "ada") verdict 1)
    × ((ns : Text) (edges : List (Edge ℕ))
        → Among (add_edge_pairs ns edges) (persist whole 1 1 succeeds (codes "ada") verdict 1).0
        → All (Upserted (persist whole 1 1 succeeds (codes "ada") verdict 1).0) verdict.final_points
          × All
              (Archived (codes "ada") (persist whole 1 1 succeeds (codes "ada") verdict 1).0)
              verdict.archived)
persist-Ran_example = persist-Ran whole 1 1 succeeds (codes "ada") verdict 1
