-- ===== src/Interest/Merge/Linked.antt =====
-- The clusters of connectedComponents (internal/interest/merge.go): chains of similar points.
use interest_memory.Prelude.{
  Among, Among-cons, not_Among, Among-cases, ℕ, zero, suc, ◌<◌, ◌≡◌, ◌≢◌, inl, inr, refl, sym, ap,
  Bool, ◌∙◌, subst, true, some, List, [], ◌∷◌, ◌==◌, nat_eq, eqb_iff, length, get_elem?, arith,
  Float, All, Bool-cases, Option-cases, ltb, ◌↔◌,
}
use interest_memory.Interest.UnionFind.Components.{Chain, here, ahead, back}
use interest_memory.Interest.UnionFind.Groups.{has, components-Chain}
use interest_memory.Interest.Merge.{Point, cosine, above, select, connected_components}
use interest_memory.Interest.Merge.Similar.{
  cosine_comm, get_elem?-lt, get_elem?-inside, get_elem?-split, select-some, select_all-some,
}

module _ (fl : Float) (P : Point fl.F → Type 0) (threshold : fl.F) where
  open fl use {F, lt}

  -- A chain of points of the kind, each more similar to the next than the threshold.
  pub data Linked : Point F → Point F → Type 0 where
    start : (p : Point F) → Linked p p
    step :
        {p q r : Point F}
        → Linked p q
        → P r
        → lt threshold (cosine fl q.vec r.vec) ≡ true
        → Linked p r

pub Linked-map :
    (fl : Float) (P Q : Point fl.F → Type 0) (threshold : fl.F)
    → ((r : Point fl.F) → P r → Q r)
    → {p q : Point fl.F} → Linked fl P threshold p q
    → Linked fl Q threshold p q
Linked-map fl P Q threshold f (start p) = start p
Linked-map fl P Q threshold f (step l there near) =
    step (Linked-map fl P Q threshold f l) (f _ there) near

module _ {A : Type 0} where
  get_elem?-Among : (xs : List A) (i : ℕ) (x : A) → get_elem? xs i ≡ some x → Among x xs
  get_elem?-Among [] i x h = absurd (ground (arith, h))
  get_elem?-Among (y ∷ xs) zero x h =
      let same : y ≡ x = ground (arith, h) in ([], xs, ap (λ u. u ∷ xs) same)
  get_elem?-Among (y ∷ xs) (suc i) x h = Among-cons x y xs (get_elem?-Among xs i x h)

  -- The index at which a member stands.
  Among-index : (xs : List A) (x : A) → Among x xs → (i : ℕ) × (get_elem? xs i ≡ some x)
  Among-index xs x (b, a, cut) =
      (length b, ap (λ u. get_elem? u (length b)) cut ∙ get_elem?-split b x a)

module _ (fl : Float) where
  open fl use {F, lt}

  -- A point that is picked stands at one of the indexes.
  select-index :
      (pts : List (Point F)) (is : List ℕ) (comp : List (Point F)) (q : Point F)
      → select fl pts is ≡ some comp
      → Among q comp
      → (i : ℕ) × (has is i ≡ true) × (get_elem? pts i ≡ some q)
  select-index pts [] comp q e i =
      let none_left : [] ≡ comp = ground (arith, e) in
      not_Among q (subst (Among q) (sym none_left) i)
  select-index pts (k ∷ is) comp q e i = elim (Option-cases (get_elem? pts k)) [
    | inl outside ↦ absurd (ground (arith, e, outside))
    | inr (p, at) ↦ elim (Option-cases (select fl pts is)) [
      | inl fails ↦ absurd (ground (arith, e, at, fails))
      | inr (rest, picked) ↦
          let cut : p ∷ rest ≡ comp = ground (arith, e, at, picked) in
          elim (Among-cases q p rest (subst (Among q) (sym cut) i)) [
            | inl same ↦ (k, ground (arith, eqb_iff k k), at ∙ ap some same)
            | inr later ↦
                let (j, h, found) = select-index pts is rest q picked later in
                (j, ground (arith, h), found)
          ]
    ]
  ]

  picked_inside :
      (pts : List (Point F)) (is : List ℕ) (comp : List (Point F))
      → select fl pts is ≡ some comp
      → (y : ℕ) → has is y ≡ true
      → y < length pts
  picked_inside pts [] comp e y h = absurd (ground (arith, h))
  picked_inside pts (k ∷ is) comp e y h = elim (Option-cases (get_elem? pts k)) [
    | inl outside ↦ absurd (ground (arith, e, outside))
    | inr (p, at) ↦ elim (Option-cases (select fl pts is)) [
      | inl fails ↦ absurd (ground (arith, e, at, fails))
      | inr (rest, picked) ↦ elim (Bool-cases (k == y)) [
        | inl same ↦
            subst (λ u. u < length pts) ((eqb_iff k y).0 same) (get_elem?-inside pts k p at)
        | inr other ↦ picked_inside pts is rest picked y (ground (arith, h, other))
      ]
    ]
  ]

  -- The points at the indexes are picked.
  select-has :
      (pts : List (Point F)) (is : List ℕ) (comp : List (Point F)) (i : ℕ) (q : Point F)
      → select fl pts is ≡ some comp
      → has is i ≡ true
      → get_elem? pts i ≡ some q
      → Among q comp
  select-has pts is comp i q e h found =
      let (made, done, _, among) = select-some fl pts is (λ y m. picked_inside pts is comp e y m) in
      let same : made ≡ comp = ground (arith, done, e) in subst (Among q) same (among i q h found)

module _ (fl : Float) (pts : List (Point fl.F)) (threshold : fl.F) where
  open fl use {F, lt}

  abbrev is_near : ℕ → ℕ → Bool
  is_near i j = above fl threshold (get_elem? pts i) (get_elem? pts j)

  abbrev LinkedHere : Point F → Point F → Type 0
  LinkedHere = Linked fl (λ r. Among r pts) threshold

  is_near-lt :
      (i j : ℕ) (p q : Point F)
      → get_elem? pts i ≡ some p
      → get_elem? pts j ≡ some q
      → is_near i j ≡ lt threshold (cosine fl p.vec q.vec)
  is_near-lt i j p q at at' = rw (at, at') refl

  Chain-Linked :
      (i j : ℕ) (p q : Point F)
      → Chain (length pts) is_near i j
      → get_elem? pts i ≡ some p
      → get_elem? pts j ≡ some q
      → LinkedHere p q
  Chain-Linked i j p q (here x) at at' =
      let same : p ≡ q = ground (arith, at, at') in subst (LinkedHere p) same (start p)
  Chain-Linked i j p q (ahead {y = y} h k s c) at at' =
      let (m, found) = get_elem?-lt pts y (omega (arith, h, k)) in
      step (Chain-Linked i y p m c at found) (get_elem?-Among pts j q at')
        (sym (is_near-lt y j m q found at') ∙ s)
  Chain-Linked i j p q (back {y = y} h k s c) at at' =
      let (m, found) = get_elem?-lt pts y k in
      step (Chain-Linked i y p m c at found) (get_elem?-Among pts j q at')
        (ap (lt threshold) (cosine_comm fl m.vec q.vec) ∙ sym (is_near-lt j y q m at' found) ∙ s)

  Linked-Chain :
      (i : ℕ) (p q : Point F)
      → LinkedHere p q
      → get_elem? pts i ≡ some p
      → (j : ℕ) × (get_elem? pts j ≡ some q) × Chain (length pts) is_near i j
  Linked-Chain i p q (start x) at = (i, at, here i)
  Linked-Chain i p r (step {q = q} l there near) at =
      let (j, found, c) = Linked-Chain i p q l at in
      let (k, at_k) = Among-index pts r there in
      let l_j = get_elem?-inside pts j q found in
      let l_k = get_elem?-inside pts k r at_k in
      elim (Bool-cases (j == k)) [
        | inl same ↦ (k, at_k, subst (Chain (length pts) is_near i) ((eqb_iff j k).0 same) c)
        | inr differ ↦ elim (Bool-cases (ltb j k)) [
          | inl below ↦
              (k, at_k, ahead (ground (arith, below)) l_k (is_near-lt j k q r found at_k ∙ near) c)
          | inr over ↦ (
            k,
            at_k,
            back (ground (arith, over, differ, eqb_iff j k)) l_j
                (is_near-lt k j r q at_k found
                  ∙ ap (lt threshold) (cosine_comm fl r.vec q.vec)
                  ∙ near)
                c,
          )
        ]
      ]

  -- connectedComponents never indexes out of bounds and ends; no component is empty, and each point
  -- stands in a component that has exactly the points to which a chain of similar points leads.
  pub connected_components-Linked :
      (out : List (List (Point F))) × (connected_components fl pts threshold ≡ some out)
      × All (λ c. c ≢ []) out
      × ((p : Point F)
          → Among p pts
          → (comp : List (Point F)) × Among comp out
            × Among p comp
            × ((q : Point F) → Among q comp ↔ LinkedHere p q))
  unfolding connected_components
  connected_components-Linked =
      let (root, groups, e, g, chains) = components-Chain (length pts) is_near in
      let (out, done, full, among) =
        select_all-some fl pts groups g.distinct
          (λ r is h. let k = g.group r is h in ((λ y m. ((k.members y).0 m).0), k.nonempty)) in
      (
        out,
        ground (arith, e, done),
        full,
        λ p i.
            let (x, at) = Among-index pts p i in
            let l = get_elem?-inside pts x p at in
            let (is, there) = g.found x l in
            let members = (g.group (root x) is there).members in
            let (comp, i_out, i_comp, picked) =
              among (root x) x is p there ((members x).1 (l, refl)) at in
            (
              comp,
              i_out,
              i_comp,
              λ q. (
                (λ k.
                    let (y, h, found) = select-index fl pts is comp q picked k in
                    let (m, same) = (members y).0 h in
                    Chain-Linked x y p q ((chains x y l m).0 (sym same)) at found),
                λ linked.
                    let (y, found, c) = Linked-Chain x p q linked at in
                    let m = get_elem?-inside pts y q found in
                    let same = (chains x y l m).1 c in
                    select-has fl pts is comp y q picked ((members y).1 (m, sym same)) found,
              ),
            ),
      )
