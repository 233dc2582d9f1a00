-- ===== src/Wiki/Grouping/Together.antt =====
-- Where groupByCluster of internal/wiki/grouping.go puts its points.
use interest_memory.Prelude.{
  Among, Among-cons, Among-cases, not_Among, ℕ, suc, ◌<◌, ◌≤◌, ◌≡◌, ◌≢◌, ◌⊎◌, inl, inr, refl, sym,
  ap, ◌∙◌, subst, Bool, true, Option, some, List, [], ◌∷◌, ◌==◌, nat_eq, eqb_iff, length, get_elem?,
  arith, Float, lookup, Text, DistinctKeys, Bool-cases,
}
use interest_memory.Store.{InterestPoint}
use interest_memory.Vec.{Entry}
use interest_memory.Interest.UnionFind.Components.{Chain}
use interest_memory.Interest.UnionFind.Groups.{has, components-Chain}
use interest_memory.Interest.Merge.Similar.{get_elem?-lt, get_elem?-inside, get_elem?-split}
use interest_memory.Wiki.Grouping.{
  PointWithVec, pick, pair_up, add_group, split_groups, joins, threshold, group_vectors,
  group_by_cluster,
}

module _ {A : Type 0} where
  -- The values at indexes in range, as many as these.
  pick-some :
      (xs : List A) (is : List ℕ)
      → ((y : ℕ) → has is y ≡ true → y < length xs)
      → (out : List A) × (pick xs is ≡ some out)
        × (length out ≡ length is)
        × ((i : ℕ) (x : A) → has is i ≡ true → get_elem? xs i ≡ some x → Among x out)
  pick-some xs [] inside = ([], refl, refl, λ i x h. absurd (ground (arith, h)))
  pick-some xs (i ∷ is) inside =
      let (x, at) = get_elem?-lt xs i (inside i (ground (arith, eqb_iff i i))) in
      let (out, rest, same, among) = pick-some xs is (λ y h. inside y (ground (arith, h))) in
      (
        x ∷ out,
        rw (at, rest) refl,
        ap suc same,
        λ j q h found. elim (Bool-cases (i == j)) [
          | inl here ↦
              let e : x ≡ q = ground (arith, at, found, (eqb_iff i j).0 here) in
              ([], out, ap (λ u. u ∷ out) e)
          | inr other ↦ Among-cons q x out (among j q (ground (arith, h, other)) found)
        ],
      )

-- Two indexes in a list make it two long.
has-two : (is : List ℕ) (i j : ℕ) → i ≢ j → has is i ≡ true → has is j ≡ true → 2 ≤ length is
has-two [] i j ne h k = absurd (ground (arith, h))
has-two (x ∷ []) i j ne h k = absurd (ground (arith, h, k, ne, eqb_iff x i, eqb_iff x j))
has-two (x ∷ y ∷ is) i j ne h k = omega arith

module _ {F : Type 0} where
  -- The points stand in one cluster.
  abbrev pub Together : List (List (PointWithVec F)) → PointWithVec F → PointWithVec F → Type 0
  Together clusters p q = (c : List (PointWithVec F)) × Among c clusters × Among p c × Among q c

  -- What a group adds, and that the others stay.
  add_group-kept :
      (ms : List (PointWithVec F)) (clusters : List (List (PointWithVec F)))
      (isolated : List (PointWithVec F)) (p q : PointWithVec F)
      → Together clusters p q
      → Together (add_group ms (clusters, isolated)).0 p q
  add_group-kept [] clusters isolated p q (c, i, a, b) = (c, Among-cons c [] clusters i, a, b)
  add_group-kept (m ∷ []) clusters isolated p q t = t
  add_group-kept (m ∷ k ∷ ms) clusters isolated p q (c, i, a, b) =
      (c, Among-cons c (m ∷ k ∷ ms) clusters i, a, b)

  add_group-new :
      (ms : List (PointWithVec F)) (clusters : List (List (PointWithVec F)))
      (isolated : List (PointWithVec F)) (p q : PointWithVec F)
      → 2 ≤ length ms
      → Among p ms
      → Among q ms
      → Together (add_group ms (clusters, isolated)).0 p q
  add_group-new [] clusters isolated p q l a b = absurd (omega (arith, l))
  add_group-new (m ∷ []) clusters isolated p q l a b = absurd (omega (arith, l))
  add_group-new (m ∷ k ∷ ms) clusters isolated p q l a b = (m ∷ k ∷ ms, ([], clusters, refl), a, b)

  abbrev pub InSplit :
      List (List (PointWithVec F)) → List (PointWithVec F) → PointWithVec F → Type 0
  InSplit clusters isolated p = Among p isolated ⊎ Together clusters p p

  add_group-InSplit :
      (ms : List (PointWithVec F)) (clusters : List (List (PointWithVec F)))
      (isolated : List (PointWithVec F)) (p : PointWithVec F)
      → Among p ms
      → InSplit (add_group ms (clusters, isolated)).0 (add_group ms (clusters, isolated)).1 p
  add_group-InSplit [] clusters isolated p a = inr ([], ([], clusters, refl), a, a)
  add_group-InSplit (m ∷ []) clusters isolated p a = elim (Among-cases p m [] a) [
    | inl same ↦ inl ([], isolated, ap (λ u. u ∷ isolated) same)
    | inr none_left ↦ not_Among p none_left
  ]
  add_group-InSplit (m ∷ k ∷ ms) clusters isolated p a =
      inr (m ∷ k ∷ ms, ([], clusters, refl), a, a)

  add_group-stays :
      (ms : List (PointWithVec F)) (clusters : List (List (PointWithVec F)))
      (isolated : List (PointWithVec F)) (p : PointWithVec F)
      → InSplit clusters isolated p
      → InSplit (add_group ms (clusters, isolated)).0 (add_group ms (clusters, isolated)).1 p
  add_group-stays ms clusters isolated p (inr t) = inr (add_group-kept ms clusters isolated p p t)
  add_group-stays [] clusters isolated p (inl i) = inl i
  add_group-stays (m ∷ []) clusters isolated p (inl i) = inl (Among-cons p m isolated i)
  add_group-stays (m ∷ k ∷ ms) clusters isolated p (inl i) = inl i

  -- The split of groups whose indexes are in range.
  split_groups-some :
      (pw : List (PointWithVec F)) (groups : List (ℕ × List ℕ))
      → DistinctKeys groups
      → ((r : ℕ) (is : List ℕ)
          → lookup r groups ≡ some is
          → (y : ℕ) → has is y ≡ true
          → y < length pw)
      → (clusters : List (List (PointWithVec F))) × (isolated : List (PointWithVec F))
        × (split_groups pw groups ≡ some (clusters, isolated))
        × ((r i : ℕ) (is : List ℕ) (p : PointWithVec F)
            → lookup r groups ≡ some is
            → has is i ≡ true
            → get_elem? pw i ≡ some p
            → InSplit clusters isolated p)
        × ((r i j : ℕ) (is : List ℕ) (p q : PointWithVec F)
            → lookup r groups ≡ some is
            → i ≢ j
            → has is i ≡ true
            → has is j ≡ true
            → get_elem? pw i ≡ some p
            → get_elem? pw j ≡ some q
            → Together clusters p q)
  unfolding split_groups
  split_groups-some pw [] d good = (
    [],
    [],
    refl,
    (λ r i is p h. absurd (ground (arith, h))),
    λ r i j is p q h. absurd (ground (arith, h)),
  )
  split_groups-some pw ((s, js) ∷ groups) d good =
      let (ms, e, same, among) = pick-some pw js (good s js (ground (arith, eqb_iff s s))) in
      let (clusters, isolated, rest, each, pairs) =
        split_groups-some pw groups d.1
          (λ r is h. good r is (ground (arith, h, d.0, eqb_iff s r))) in
      (
        (add_group ms (clusters, isolated)).0,
        (add_group ms (clusters, isolated)).1,
        rw (e, rest) refl,
        (λ r i is p at h found. elim (Bool-cases (s == r)) [
          | inl here ↦
              let js_is : js ≡ is = ground (arith, at, here) in
              add_group-InSplit ms clusters isolated p
                (among i p (subst (λ u. has u i ≡ true) (sym js_is) h) found)
          | inr other ↦
              add_group-stays ms clusters isolated p
                (each r i is p (ground (arith, at, other)) h found)
        ]),
        λ r i j is p q at ne h k found found'. elim (Bool-cases (s == r)) [
          | inl here ↦
              let js_is : js ≡ is = ground (arith, at, here) in
              let h' = subst (λ u. has u i ≡ true) (sym js_is) h in
              let k' = subst (λ u. has u j ≡ true) (sym js_is) k in
              add_group-new ms clusters isolated p q (omega (arith, same, has-two js i j ne h' k'))
                (among i p h' found) (among j q k' found')
          | inr other ↦
              add_group-kept ms clusters isolated p q
                (pairs r i j is p q (ground (arith, at, other)) ne h k found found')
        ],
      )

module _ (fl : Float) (group_default : fl.F) where
  open fl use {F}

  -- The pairs that the loops join.
  abbrev pub joined : F → List (PointWithVec F) → ℕ → ℕ → Bool
  joined group_sim pw i j =
      joins fl group_default (threshold fl group_default group_sim) (get_elem? pw i)
        (get_elem? pw j)

  -- Where the index answers, groupByCluster ends, and each point with its vector is isolated or in a
  -- cluster; and two points that a chain of points, each as similar to the next as asked for, joins
  -- are in one cluster.
  pub group_by_cluster-Together :
      (vi : Option (Text → Option (Option (Entry F)))) (embedder : Option (Text → Option (List F)))
      (pts : List (InterestPoint F)) (group_sim : F) (pw : List (PointWithVec F))
      → pair_up vi embedder pts ≡ some pw
      → (clusters : List (List (PointWithVec F))) × (isolated : List (PointWithVec F))
        × (group_by_cluster fl group_default vi embedder pts group_sim ≡ some (clusters, isolated))
        × ((p : PointWithVec F) → Among p pw → InSplit clusters isolated p)
        × ((i j : ℕ) (p q : PointWithVec F)
            → get_elem? pw i ≡ some p
            → get_elem? pw j ≡ some q
            → i ≢ j
            → Chain (length pw) (joined group_sim pw) i j
            → Together clusters p q)
  unfolding group_by_cluster group_vectors
  group_by_cluster-Together vi embedder pts group_sim pw answered =
      let (root, groups, e, g, chains) = components-Chain (length pw) (joined group_sim pw) in
      let (clusters, isolated, done, each, pairs) =
        split_groups-some pw groups g.distinct
          (λ r is h y m. (((g.group r is h).members y).0 m).0) in
      (
        clusters,
        isolated,
        rw (answered, e, done) refl,
        (λ p a.
            let (b, c, cut) = a in
            let at : get_elem? pw (length b) ≡ some p =
              ap (λ u. get_elem? u (length b)) cut ∙ get_elem?-split b p c in
            let l = get_elem?-inside pw (length b) p at in
            let (is, there) = g.found (length b) l in
            each (root (length b)) (length b) is p there
              (((g.group (root (length b)) is there).members (length b)).1 (l, refl)) at),
        λ i j p q at at' ne chain.
            let l = get_elem?-inside pw i p at in
            let l' = get_elem?-inside pw j q at' in
            let (is, there) = g.found i l in
            let same = (chains i j l l').1 chain in
            pairs (root i) i j is p q there ne (((g.group (root i) is there).members i).1 (l, refl))
              (((g.group (root i) is there).members j).1 (l', sym same)) at at',
      )
