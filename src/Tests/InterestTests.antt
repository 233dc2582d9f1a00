-- ===== src/Tests/InterestTests.antt =====
-- internal/interest on four points, of which the first and the last are similar.
use interest_memory.Prelude.{ℕ, ◌≡◌, ◌<◌, ◌↔◌, Bool, some, List, ◌∷◌, [], ◌&&◌, eqb, nat_eq, refl}
use interest_memory.Interest.UnionFind.{components, union, find, link_rows, link_row, group_loop}
use interest_memory.Interest.UnionFind.Components.{Chain}
use interest_memory.Interest.UnionFind.Groups.{Grouped, components-Chain}

-- Points 0 and 3 are similar.
abbrev ends_meet : ℕ → ℕ → Bool
ends_meet i j = eqb i 0 && eqb j 3

components-run : components 4 ends_meet ≡ some ((3, 0 ∷ 3 ∷ []) ∷ (1, 1 ∷ []) ∷ (2, 2 ∷ []) ∷ [])
unfolding components link_rows link_row union find group_loop
components-run = refl

components-Chain_example :
    (root : ℕ → ℕ) × (groups : List (ℕ × List ℕ)) × (components 4 ends_meet ≡ some groups)
    × Grouped root 4 groups
    × ((x y : ℕ) → x < 4 → y < 4 → (root x ≡ root y) ↔ Chain 4 ends_meet x y)
components-Chain_example = components-Chain 4 ends_meet
