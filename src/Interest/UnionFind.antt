-- ===== src/Interest/UnionFind.antt =====
-- The union-find over `parent []int` of connectedComponents and Cluster (internal/interest) and of
-- groupByCluster (internal/wiki). The slice is a function on indexes; `none` is a recursion of
-- `find` that is deeper than the number of points.
pub mod Forest
pub mod Components
pub mod Groups
use interest_memory.Prelude.{
  ℕ, zero, suc, ◌+◌, Bool, true, false, Option, none, some, List, [], ◌∷◌, ◌++◌, Eq, ◌==◌, nat_eq,
  insert, lookup, if◌then◌else◌,
}

infixl 5 ◌>>=◌
abbrev pub ◌>>=◌ {ℓ κ} : {A : Type ℓ} {B : Type κ} → Option A → (A → Option B) → Option B
none >>= f = none
some a >>= f = f a

abbrev pub Parent : Type 0
Parent = ℕ → ℕ

-- `parent[a] = v`
abbrev pub update : Parent → ℕ → ℕ → Parent
update p a v x = if x == a then v else p x

-- The root of `x`, and the slice with the path to it compressed.
unfoldable pub find : ℕ → Parent → ℕ → Option (ℕ × Parent)
find zero p x = none
find (suc fuel) p x = elim (p x == x) [
  | true ↦ some (x, p)
  | false ↦ do (r, p') ← find fuel p (p x); some (r, update p' x r)
]

unfoldable pub union : ℕ → Parent → ℕ → ℕ → Option Parent
union fuel p a b = do
  (ra, p1) ← find fuel p a
  (rb, p2) ← find fuel p1 b
  some (if ra == rb then p2 else update p2 ra rb)

module _ (n : ℕ) (similar : ℕ → ℕ → Bool) where
  -- `for j := i + 1; j < n; j++`, with `k` rounds left.
  unfoldable pub link_row : ℕ → ℕ → ℕ → Parent → Option Parent
  link_row zero i j p = some p
  link_row (suc k) i j p = do
    p' ← (if similar i j then union n p i j else some p)
    link_row k i (suc j) p'

  -- `for i := range pts`, with `k` rounds left.
  unfoldable pub link_rows : ℕ → ℕ → Parent → Option Parent
  link_rows zero i p = some p
  link_rows (suc k) i p = do p' ← link_row k i (suc i) p; link_rows k (suc i) p'

-- `parent[i] = i`
abbrev pub fresh_parent : Parent
fresh_parent i = i

-- `groups[r] = append(groups[r], i)`, and `order` when `r` is new: the groups in order.
abbrev pub append_group : ℕ → ℕ → List (ℕ × List ℕ) → List (ℕ × List ℕ)
append_group r i [] = (r, i ∷ []) ∷ []
append_group r i ((s, is) ∷ groups) =
    if s == r then (s, is ++ i ∷ []) ∷ groups else (s, is) ∷ append_group r i groups

-- The loop that groups the points by their roots, with `k` rounds left.
unfoldable pub group_loop : ℕ → ℕ → ℕ → Parent → List (ℕ × List ℕ) → Option (List (ℕ × List ℕ))
group_loop n zero i p groups = some groups
group_loop n (suc k) i p groups = do
  (r, p') ← find n p i
  group_loop n k (suc i) p' (append_group r i groups)

-- The groups of the `n` points, each under its root.
unfoldable pub components : ℕ → (ℕ → ℕ → Bool) → Option (List (ℕ × List ℕ))
components n similar = do p ← link_rows n similar n 0 fresh_parent; group_loop n n 0 p []
