-- ===== src/Interest/UnionFind/Forest.antt =====
-- `find` and `union` of internal/interest/merge.go on a slice whose parents lead to roots.
use interest_memory.Prelude.{
  ℕ, zero, suc, ◌+◌, ◌≤◌, ◌<◌, ◌≡◌, ◌≢◌, refl, sym, ap, ◌∙◌, subst, some, ◌==◌, nat_eq, eqb_iff,
  if◌then◌else◌, arith, Bool-cases, inl, inr, ◌⊎◌,
}
use interest_memory.Interest.UnionFind.{Parent, update, find, union}

-- How many of the first `n` points are roots.
unfoldable pub roots : Parent → ℕ → ℕ
roots p zero = 0
roots p (suc n) = if p n == n then suc (roots p n) else roots p n

-- Each point has a root, and a height that falls on the way to it.
pub record IsForest (n : ℕ) (p root height : ℕ → ℕ) : Type 0 where
  pub inside : (x : ℕ) → x < n → p x < n
  pub same_root : (x : ℕ) → x < n → root (p x) ≡ root x
  pub self : (x : ℕ) → x < n → p x ≡ x → root x ≡ x
  pub falls : (x : ℕ) → x < n → p x ≢ x → height (p x) < height x
  pub root_inside : (x : ℕ) → x < n → root x < n
  pub root_fixed : (x : ℕ) → x < n → p (root x) ≡ root x
  pub floor : (x : ℕ) → x < n → p x ≡ x → height x ≡ 0
  pub low : (x : ℕ) → x < n → height x + roots p n ≤ n

roots_above : (p : Parent) (a v n : ℕ) → n ≤ a → roots (update p a v) n ≡ roots p n
unfolding roots
roots_above p a v zero h = refl
roots_above p a v (suc n) h = ground (arith, roots_above p a v n)

roots_same : (p : Parent) (a v n : ℕ) → p a ≢ a → v ≢ a → roots (update p a v) n ≡ roots p n
unfolding roots
roots_same p a v zero h k = refl
roots_same p a v (suc n) h k = elim (Bool-cases (n == a)) [
  | inl here ↦ let e = (eqb_iff _ _).0 here in ground (arith, roots_same p a v n, e)
  | inr there ↦ ground (arith, roots_same p a v n, there)
]

roots_fewer :
    (p : Parent) (a v n : ℕ) → a < n → p a ≡ a → v ≢ a → suc (roots (update p a v) n) ≡ roots p n
unfolding roots
roots_fewer p a v zero h f k = absurd (omega arith)
roots_fewer p a v (suc n) h f k = elim (Bool-cases (n == a)) [
  | inl here ↦ let e = (eqb_iff _ _).0 here in ground (arith, roots_above p a v n, e)
  | inr there ↦ ground (arith, roots_fewer p a v n, there)
]

pub roots-le : (p : Parent) (n : ℕ) → roots p n ≤ n
unfolding roots
roots-le p zero = omega arith
roots-le p (suc n) = ground (arith, roots-le p n)

roots-pos : (p : Parent) (a n : ℕ) → a < n → p a ≡ a → 0 < roots p n
unfolding roots
roots-pos p a zero h f = absurd (omega arith)
roots-pos p a (suc n) h f = elim (Bool-cases (n == a)) [
  | inl here ↦ let e = (eqb_iff _ _).0 here in ground (arith, e)
  | inr there ↦ ground (arith, roots-pos p a n, there)
]

module _ (n : ℕ) (root height : ℕ → ℕ) where
  -- Heights stay below the number of points, so that much fuel is enough.
  pub height-lt : (p : Parent) (x : ℕ) → IsForest n p root height → x < n → height x < n
  height-lt p x f h =
      omega (arith, f.low x h, roots-pos p (root x) n (f.root_inside x h) (f.root_fixed x h))

  root-root : (p : Parent) (x : ℕ) → IsForest n p root height → x < n → root (root x) ≡ root x
  root-root p x f h = f.self (root x) (f.root_inside x h) (f.root_fixed x h)

  -- A point hung below its root.
  compress-IsForest :
      (p : Parent) (a : ℕ)
      → IsForest n p root height
      → a < n
      → p a ≢ a
      → IsForest n (update p a (root a)) root height
  compress-IsForest p a f h moved = record {
    inside = λ x l. ground (arith, f.inside x l, f.root_inside a h);
    same_root = λ x l. ground (arith, f.same_root x l, root-root p a f h);
    self = λ x l e. ground (arith, f.self x l);
    falls = λ x l e. ground (
      arith,
      f.falls x l,
      f.falls a h moved,
      f.floor (root a) (f.root_inside a h) (f.root_fixed a h),
    );
    root_inside = f.root_inside;
    root_fixed = λ x l. ground (arith, f.root_fixed x l);
    floor = λ x l e. ground (arith, f.floor x l, f.root_fixed a h);
    low = λ x l. omega (arith, f.low x l, roots_same p a (root a) n moved away);
  }
    where
      away : root a ≢ a
      away e = moved (subst (λ u. p u ≡ u) e (f.root_fixed a h))

  find_step :
      (fuel : ℕ) (p p' : Parent) (x r : ℕ)
      → p x ≢ x
      → find fuel p (p x) ≡ some (r, p')
      → find (suc fuel) p x ≡ some (r, update p' x r)
  unfolding find
  find_step fuel p p' x r moved e = ground (arith, eqb_iff (p x) x, e)

  find_done : (fuel : ℕ) (p : Parent) (x : ℕ) → p x ≡ x → find (suc fuel) p x ≡ some (x, p)
  unfolding find
  find_done fuel p x e = ground (arith, eqb_iff (p x) x, e)

  -- `find` returns the root, and leaves a slice with the same roots.
  pub find-root :
      (fuel : ℕ) (p : Parent) (x : ℕ)
      → IsForest n p root height
      → x < n
      → height x < fuel
      → (p' : Parent) × (find fuel p x ≡ some (root x, p')) × IsForest n p' root height
  find-root zero p x f h k = absurd (omega arith)
  find-root (suc fuel) p x f h k = elim (Bool-cases (p x == x)) [
    | inl stop ↦
        let e = (eqb_iff (p x) x).0 stop in
        (p, find_done fuel p x e ∙ ap (λ r. some (r, p)) (sym (f.self x h e)), f)
    | inr go ↦
        let moved : p x ≢ x = ground (arith, go) in
        let fall = f.falls x h moved in
        let (p', found, f') = find-root fuel p (p x) f (f.inside x h) (omega (arith, fall)) in
        let still : p' x ≢ x = λ e. absurd (omega (arith, f'.floor x h e, fall)) in
        let same = f.same_root x h in
        (
          update p' x (root x),
          find_step fuel p p' x (root x) moved (found ∙ ap (λ r. some (r, p')) same),
          compress-IsForest p' x f' h still,
        )
  ]

  -- The roots and heights after the root `ra` is hung below the root `rb`.
  abbrev pub joined_root : ℕ → ℕ → ℕ → ℕ
  joined_root ra rb x = if root x == ra then rb else root x

  abbrev pub joined_height : ℕ → ℕ → ℕ
  joined_height ra x = if root x == ra then suc (height x) else height x

  join-IsForest :
      (p : Parent) (ra rb : ℕ)
      → IsForest n p root height
      → ra < n
      → rb < n
      → p ra ≡ ra
      → p rb ≡ rb
      → ra ≢ rb
      → IsForest n (update p ra rb) (joined_root ra rb) (joined_height ra)
  join-IsForest p ra rb f ha hb ea eb apart = record {
    inside = λ x l. ground (arith, f.inside x l);
    same_root = λ x l. ground (arith, f.same_root x l, self_a, self_b);
    self = λ x l e. ground (arith, f.self x l);
    falls = λ x l e. ground (arith, f.falls x l, f.same_root x l, self_a, self_b, f.floor rb hb eb);
    root_inside = λ x l. ground (arith, f.root_inside x l);
    root_fixed = λ x l. ground (arith, f.root_fixed x l);
    floor = λ x l e. ground (arith, f.floor x l, f.self x l);
    low = λ x l. ground (arith, f.low x l, roots_fewer p ra rb n ha ea (λ e. apart (sym e)));
  }
    where
      self_a : root ra ≡ ra
      self_a = f.self ra ha ea

      self_b : root rb ≡ rb
      self_b = f.self rb hb eb

-- On a forest of `n` points, `union` of two of them never fails, and leaves a forest in which they
-- have the same root. Only points of the first one's class change their root, to the root of the
-- second one, and points with the same root keep that.
pub union-IsForest :
    (n : ℕ) (p root height : ℕ → ℕ) (a b : ℕ)
    → IsForest n p root height
    → a < n
    → b < n
    → (p' root' height' : ℕ → ℕ) × (union n p a b ≡ some p')
      × IsForest n p' root' height'
      × (root' a ≡ root' b)
      × ((x : ℕ) → (root' x ≡ root x) ⊎ ((root x ≡ root a) × (root' x ≡ root b)))
      × ((x y : ℕ) → root x ≡ root y → root' x ≡ root' y)
unfolding union
union-IsForest n p root height a b f ha hb =
    let (p1, e1, f1) = find-root n root height n p a f ha (height-lt n root height p a f ha) in
    let (p2, e2, f2) = find-root n root height n p1 b f1 hb (height-lt n root height p1 b f1 hb) in
    elim (Bool-cases (root a == root b)) [
      | inl same ↦ (
        p2,
        root,
        height,
        ground (arith, e1, e2, same),
        f2,
        (eqb_iff _ _).0 same,
        λ x. inl refl,
        λ x y e. e,
      )
      | inr differ ↦ (
        update p2 (root a) (root b),
        joined_root n root height (root a) (root b),
        joined_height n root height (root a),
        ground (arith, e1, e2, differ),
        join-IsForest n root height p2 (root a) (root b) f2 (f.root_inside a ha)
            (f.root_inside b hb) (f2.root_fixed a ha) (f2.root_fixed b hb) (ground (arith, differ)),
        ground (arith, differ),
        λ x. ground arith,
        λ x y e. ground arith,
      )
    ]
