-- ===== src/Interest/UnionFind/Components.antt =====
-- Chains of similar points, and the roots after the loops of connectedComponents.
use interest_memory.Prelude.{
  ℕ, zero, suc, ◌+◌, ◌≤◌, ◌<◌, ◌≡◌, refl, sym, ◌∙◌, subst, Bool, true, some, ◌↔◌, ◌==◌, nat_eq,
  eqb_iff, arith, Bool-cases, inl, inr,
}
use interest_memory.Interest.UnionFind.{union, link_row, link_rows, fresh_parent}
use interest_memory.Interest.UnionFind.Forest.{IsForest, roots-le, union-IsForest}

-- Chains of similar pairs of the first `n` points; a pair is compared in the order of the indexes.
pub data Chain (n : ℕ) (similar : ℕ → ℕ → Bool) : ℕ → ℕ → Type 0 where
  here : (x : ℕ) → Chain n similar x x
  ahead :
      {x y z : ℕ} → y < z → z < n → similar y z ≡ true → Chain n similar x y → Chain n similar x z
  back :
      {x y z : ℕ} → z < y → y < n → similar z y ≡ true → Chain n similar x y → Chain n similar x z

module _ (n : ℕ) (similar : ℕ → ℕ → Bool) where
  pub Chain-trans : {x y z : ℕ} → Chain n similar x y → Chain n similar y z → Chain n similar x z
  Chain-trans c (here y) = c
  Chain-trans c (ahead h k s d) = ahead h k s (Chain-trans c d)
  Chain-trans c (back h k s d) = back h k s (Chain-trans c d)

  pub Chain-sym : {x y : ℕ} → Chain n similar x y → Chain n similar y x
  Chain-sym (here x) = here x
  Chain-sym (ahead h k s d) = Chain-trans (back h k s (here _)) (Chain-sym d)
  Chain-sym (back h k s d) = Chain-trans (ahead h k s (here _)) (Chain-sym d)

  -- What the loops keep: a forest whose roots are reached by chains.
  pub record Sound (p root height : ℕ → ℕ) : Type 0 where
    pub forest : IsForest n p root height
    pub reached : (x : ℕ) → x < n → Chain n similar x (root x)

  abbrev Coarser : (ℕ → ℕ) → (ℕ → ℕ) → Type 0
  Coarser root root' = (x y : ℕ) → root x ≡ root y → root' x ≡ root' y

  union-Sound :
      (p root height : ℕ → ℕ) (a b : ℕ)
      → Sound p root height
      → a < b
      → b < n
      → similar a b ≡ true
      → (p' root' height' : ℕ → ℕ) × (union n p a b ≡ some p')
        × Sound p' root' height'
        × (root' a ≡ root' b)
        × Coarser root root'
  union-Sound p root height a b s h k e =
      let (p', root', height', eq, f, joined, moves, coarser) =
        union-IsForest n p root height a b s.forest (omega arith) k in
      (
        p',
        root',
        height',
        eq,
        record {
          forest = f;
          reached = λ x l. elim (moves x) [
            | inl stays ↦ subst (Chain n similar x) (sym stays) (s.reached x l)
            | inr (at_a, to_b) ↦
                let to_a = subst (Chain n similar x) at_a (s.reached x l) in
                let from_a = Chain-sym (s.reached a (omega arith)) in
                let on_b = Chain-trans (ahead h k e (here a)) (s.reached b k) in
                subst (Chain n similar x) (sym to_b) (Chain-trans to_a (Chain-trans from_a on_b))
          ];
        },
        joined,
        coarser,
      )

  link_row-Sound :
      (k i j : ℕ) (p root height : ℕ → ℕ)
      → Sound p root height
      → i < j
      → j + k ≤ n
      → (p' root' height' : ℕ → ℕ) × (link_row n similar k i j p ≡ some p')
        × Sound p' root' height'
        × ((q : ℕ) → j ≤ q → q < j + k → similar i q ≡ true → root' i ≡ root' q)
        × Coarser root root'
  unfolding link_row
  link_row-Sound zero i j p root height s h fits =
      (p, root, height, refl, s, λ q l u e. absurd (omega arith), λ x y e. e)
  link_row-Sound (suc k) i j p root height s h fits = elim (Bool-cases (similar i j)) [
    | inl alike ↦
        let (p1, root1, height1, e1, s1, joined, c1) =
          union-Sound p root height i j s h (omega arith) alike in
        let (p2, root2, height2, e2, s2, all, c2) =
          link_row-Sound k i (suc j) p1 root1 height1 s1 (omega arith) (omega arith) in
        (
          p2,
          root2,
          height2,
          ground (arith, alike, e1, e2),
          s2,
          (λ q l u e. elim (Bool-cases (q == j)) [
            | inl first ↦
                subst (λ v. root2 i ≡ root2 v) (sym ((eqb_iff q j).0 first)) (c2 i j joined)
            | inr later ↦ all q (ground (arith, later)) (omega arith) e
          ]),
          λ x y e. c2 x y (c1 x y e),
        )
    | inr differ ↦
        let (p2, root2, height2, e2, s2, all, c2) =
          link_row-Sound k i (suc j) p root height s (omega arith) (omega arith) in
        (
          p2,
          root2,
          height2,
          ground (arith, differ, e2),
          s2,
          (λ q l u e. elim (Bool-cases (q == j)) [
            | inl first ↦ absurd (ground (arith, eqb_iff q j, first, differ, e))
            | inr later ↦ all q (ground (arith, later)) (omega arith) e
          ]),
          c2,
        )
  ]

  link_rows-Sound :
      (k i : ℕ) (p root height : ℕ → ℕ)
      → Sound p root height
      → i + k ≡ n
      → (p' root' height' : ℕ → ℕ) × (link_rows n similar k i p ≡ some p')
        × Sound p' root' height'
        × ((r q : ℕ) → i ≤ r → r < q → q < n → similar r q ≡ true → root' r ≡ root' q)
        × Coarser root root'
  unfolding link_rows
  link_rows-Sound zero i p root height s fits =
      (p, root, height, refl, s, λ r q l u v e. absurd (omega arith), λ x y e. e)
  link_rows-Sound (suc k) i p root height s fits =
      let (p1, root1, height1, e1, s1, row, c1) =
        link_row-Sound k i (suc i) p root height s (omega arith) (omega arith) in
      let (p2, root2, height2, e2, s2, all, c2) =
        link_rows-Sound k (suc i) p1 root1 height1 s1 (omega arith) in
      (
        p2,
        root2,
        height2,
        ground (arith, e1, e2),
        s2,
        (λ r q l u v e. elim (Bool-cases (r == i)) [
          | inl first ↦
              let f = (eqb_iff r i).0 first in
              c2 r q (rw f (row q (omega arith) (omega arith) (rw f at e)))
          | inr later ↦ all r q (ground (arith, later)) u v e
        ]),
        λ x y e. c2 x y (c1 x y e),
      )

  pub fresh-Sound : Sound fresh_parent fresh_parent (λ x. 0)
  fresh-Sound = record {
    forest = record {
      inside = λ x l. l;
      same_root = λ x l. refl;
      self = λ x l e. refl;
      falls = λ x l e. absurd (e refl);
      root_inside = λ x l. l;
      root_fixed = λ x l. refl;
      floor = λ x l e. refl;
      low = λ x l. omega (arith, roots-le fresh_parent n);
    };
    reached = λ x l. here x;
  }

  Chain-root :
      (root : ℕ → ℕ) {x y : ℕ}
      → ((r q : ℕ) → 0 ≤ r → r < q → q < n → similar r q ≡ true → root r ≡ root q)
      → Chain n similar x y
      → root x ≡ root y
  Chain-root root all (here x) = refl
  Chain-root root all (ahead h k s c) = Chain-root root all c ∙ all _ _ (omega arith) h k s
  Chain-root root all (back h k s c) = Chain-root root all c ∙ sym (all _ _ (omega arith) h k s)

  -- The loops end, with the same root for two points exactly if a chain joins them.
  pub link_rows-Chain :
      (p root height : ℕ → ℕ) × (link_rows n similar n 0 fresh_parent ≡ some p)
      × IsForest n p root height
      × ((x y : ℕ) → x < n → y < n → (root x ≡ root y) ↔ Chain n similar x y)
  link_rows-Chain =
      let (p, root, height, e, s, all, _) =
        link_rows-Sound n 0 fresh_parent fresh_parent (λ x. 0) fresh-Sound (omega arith) in
      (
        p,
        root,
        height,
        e,
        s.forest,
        λ x y l m. (
          (λ q.
              Chain-trans (s.reached x l)
                (Chain-sym (subst (Chain n similar y) (sym q) (s.reached y m)))),
          Chain-root root all,
        ),
      )
