-- ===== src/Prelude/Rising.antt =====
-- Lists of numbers that grow strictly, between bounds.
use Prim.Native.Nat.{ℕ, zero, suc, ◌≤◌, ◌<◌}
use mathlib.Core.List.{List, [], ◌∷◌, ◌++◌}
use mathlib.Core.Option.{some}
use mathlib.Core.Path.{◌≡◌, refl}
use native.Mathlib.Omega.{arith}
use interest_memory.Prelude.Lists.{length, get_elem?}

-- Positions grow from `lo` and stay below `hi`.
abbrev pub Growing : ℕ → ℕ → List ℕ → Type 0
Growing lo hi [] = Unit
Growing lo hi (p ∷ ps) = (lo ≤ p) × (p < hi) × Growing (suc p) hi ps

pub Growing-weaken : (lo hi : ℕ) (ps : List ℕ) → Growing (suc lo) hi ps → Growing lo hi ps
Growing-weaken lo hi [] g = tt
Growing-weaken lo hi (p ∷ ps) g = (omega arith, g.1, g.2)

pub Growing-get :
    (lo hi : ℕ) (ps : List ℕ) (k : ℕ)
    → Growing lo hi ps
    → k < length ps
    → (p : ℕ) × (get_elem? ps k ≡ some p) × (lo ≤ p) × (p < hi)
Growing-get lo hi [] k g h = absurd (omega arith)
Growing-get lo hi (p ∷ ps) zero g h = (p, refl, g.0, g.1)
Growing-get lo hi (p ∷ ps) (suc k) g h =
    let (q, at, l, u) = Growing-get (suc p) hi ps k g.2 (omega arith) in (q, at, omega arith, u)

get_elem?-lt : (ps : List ℕ) (k q : ℕ) → get_elem? ps k ≡ some q → k < length ps
get_elem?-lt [] k q y = ground arith
get_elem?-lt (p ∷ ps) zero q y = omega arith
get_elem?-lt (p ∷ ps) (suc k) q y = omega (arith, get_elem?-lt ps k q y)

-- A later position is a greater one.
pub Growing-lt :
    (lo hi : ℕ) (ps : List ℕ) (j k p q : ℕ)
    → Growing lo hi ps
    → j < k
    → get_elem? ps j ≡ some p
    → get_elem? ps k ≡ some q
    → p < q
Growing-lt lo hi [] j k p q g h x y = ground arith
Growing-lt lo hi (r ∷ ps) zero zero p q g h x y = absurd (omega arith)
Growing-lt lo hi (r ∷ ps) (suc j) zero p q g h x y = absurd (omega arith)
Growing-lt lo hi (r ∷ ps) zero (suc k) p q g h x y =
    let (q', at, l, u) = Growing-get (suc r) hi ps k g.2 (get_elem?-lt ps k q y) in ground arith
Growing-lt lo hi (r ∷ ps) (suc j) (suc k) p q g h x y =
    Growing-lt (suc r) hi ps j k p q g.2 (omega arith) x y

pub Growing-append :
    (lo hi p : ℕ) (ps : List ℕ) → Growing lo p ps → lo ≤ p → p < hi → Growing lo hi (ps ++ p ∷ [])
Growing-append lo hi p [] g l h = (l, h, tt)
Growing-append lo hi p (q ∷ ps) g l h =
    (g.0, omega (arith, g.1), Growing-append (suc q) hi p ps g.2 (omega (arith, g.1)) h)
