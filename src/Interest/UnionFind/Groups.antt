-- ===== src/Interest/UnionFind/Groups.antt =====
-- The groups of the points, in the order of their first members.
use interest_memory.Prelude.{
  ℕ, zero, suc, ◌+◌, ◌≤◌, ◌<◌, ◌≡◌, ◌≢◌, refl, sym, ap, ◌∙◌, subst, Bool, true, false, Option, none,
  some, ◌⊎◌, ◌↔◌, ◌||◌, ◌==◌, nat_eq, eqb_iff, if◌then◌else◌, arith, Bool-cases, inl, inr, List, [],
  ◌∷◌, ◌++◌, lookup, DistinctKeys, Growing, Growing-append, Option-cases,
}
use interest_memory.Interest.UnionFind.{Parent, append_group, group_loop, components}
use interest_memory.Interest.UnionFind.Forest.{IsForest, find-root, height-lt}
use interest_memory.Interest.UnionFind.Components.{Chain, link_rows-Chain}

abbrev pub has : List ℕ → ℕ → Bool
has [] y = false
has (x ∷ xs) y = x == y || has xs y

has-append : (xs : List ℕ) (a y : ℕ) → has (xs ++ a ∷ []) y ≡ (has xs y || a == y)
has-append [] a y = ground arith
has-append (x ∷ xs) a y = ground (arith, has-append xs a y)

append_to : Option (List ℕ) → ℕ → List ℕ
append_to none i = i ∷ []
append_to (some is) i = is ++ i ∷ []

lookup-append_group :
    (r s i : ℕ) (groups : List (ℕ × List ℕ))
    → lookup s (append_group r i groups)
      ≡ (if r == s then some (append_to (lookup r groups) i) else lookup s groups)
unfolding append_to
lookup-append_group r s i [] = refl
lookup-append_group r s i ((t, is) ∷ groups) = ground (arith, lookup-append_group r s i groups)

append_group-Distinct :
    (r i : ℕ) (groups : List (ℕ × List ℕ))
    → DistinctKeys groups
    → DistinctKeys (append_group r i groups)
append_group-Distinct r i [] d = (refl, tt)
append_group-Distinct r i ((t, is) ∷ groups) d = elim (Bool-cases (t == r)) [
  | inl same ↦ rw same d
  | inr differ ↦ rw differ (
    ground (arith, lookup-append_group r t i groups, eqb_iff t r, eqb_iff r t, differ, d.0),
    append_group-Distinct r i groups d.1,
  )
]

-- A group holds the indexes below `m` with its root, in order, and is not empty.
pub record IsGroup (root : ℕ → ℕ) (m r : ℕ) (is : List ℕ) : Type 0 where
  pub rising : Growing 0 m is
  pub members : (y : ℕ) → (has is y ≡ true) ↔ ((y < m) × (root y ≡ r))
  pub nonempty : is ≢ []

-- What the loop has grouped of the first `m` points.
pub record Grouped (root : ℕ → ℕ) (m : ℕ) (groups : List (ℕ × List ℕ)) : Type 0 where
  pub distinct : DistinctKeys groups
  pub found : (x : ℕ) → x < m → (is : List ℕ) × (lookup (root x) groups ≡ some is)
  pub group : (r : ℕ) (is : List ℕ) → lookup r groups ≡ some is → IsGroup root m r is

Growing-widen : (lo m n : ℕ) (ps : List ℕ) → m ≤ n → Growing lo m ps → Growing lo n ps
Growing-widen lo m n [] h g = tt
Growing-widen lo m n (p ∷ ps) h g = (g.0, omega (arith, g.1), Growing-widen (suc p) m n ps h g.2)

-- A bound of one more is the bound, or the last point.
below_suc : (y m : ℕ) → y < suc m → (y < m) ⊎ (m ≡ y)
below_suc y m h = grind arith

append-ne : (is : List ℕ) (m : ℕ) → is ++ m ∷ [] ≢ []
append-ne [] m e = cc
append-ne (x ∷ is) m e = cc

-- A point that starts a group, joins one, or leaves one alone.
first-IsGroup :
    (root : ℕ → ℕ) (m : ℕ)
    → ((x : ℕ) → x < m → root x ≢ root m)
    → IsGroup root (suc m) (root m) (m ∷ [])
first-IsGroup root m new = record {
  rising = (omega arith, omega arith, tt);
  members = λ y. (
    (λ h. let e : m ≡ y = (eqb_iff m y).0 (ground arith) in (omega (arith, e), ap root (sym e))),
    λ h. elim (below_suc y m h.0) [
      | inl old ↦ absurd (new y old h.1)
      | inr last ↦ ground (arith, eqb_iff m y, last)
    ],
  );
  nonempty = append-ne [] m;
}

more-IsGroup :
    (root : ℕ → ℕ) (m : ℕ) (is : List ℕ)
    → IsGroup root m (root m) is
    → IsGroup root (suc m) (root m) (is ++ m ∷ [])
more-IsGroup root m is g = record {
  rising = Growing-append 0 (suc m) m is g.rising (omega arith) (omega arith);
  members = λ y. (
    (λ h. elim (Bool-cases (has is y)) [
      | inl old ↦ let k = (g.members y).0 old in (omega (arith, k.0), k.1)
      | inr new ↦
          let e : m ≡ y = (eqb_iff m y).0 (ground (arith, has-append is m y, new)) in
          (omega (arith, e), ap root (sym e))
    ]),
    λ h. elim (below_suc y m h.0) [
      | inl old ↦ ground (arith, has-append is m y, (g.members y).1 (old, h.1))
      | inr last ↦ ground (arith, has-append is m y, eqb_iff m y, last)
    ],
  );
  nonempty = append-ne is m;
}

other-IsGroup :
    (root : ℕ → ℕ) (m r : ℕ) (is : List ℕ)
    → IsGroup root m r is
    → root m ≢ r
    → IsGroup root (suc m) r is
other-IsGroup root m r is g h = record {
  rising = Growing-widen 0 m (suc m) is (omega arith) g.rising;
  members = λ y. (
    (λ q. let k = (g.members y).0 q in (omega (arith, k.0), k.1)),
    λ q. elim (below_suc y m q.0) [
      | inl old ↦ (g.members y).1 (old, q.1)
      | inr last ↦ absurd (h (ap root last ∙ q.1))
    ],
  );
  nonempty = g.nonempty;
}

-- One round of the grouping.
append_group-Grouped :
    (root : ℕ → ℕ) (m : ℕ) (groups : List (ℕ × List ℕ))
    → Grouped root m groups
    → Grouped root (suc m) (append_group (root m) m groups)
unfolding append_to
append_group-Grouped root m groups g = record {
  distinct = append_group-Distinct (root m) m groups g.distinct;
  found = λ x l. elim (below_suc x m l) [
    | inl old ↦
        let (is, at) = g.found x old in
        elim (Bool-cases (root m == root x)) [
          | inl same ↦ (
            append_to (lookup (root m) groups) m,
            ground (arith, lookup-append_group (root m) (root x) m groups, same),
          )
          | inr differ ↦
              (is, ground (arith, lookup-append_group (root m) (root x) m groups, differ, at))
        ]
    | inr last ↦ (
      append_to (lookup (root m) groups) m,
      ground (
        arith,
        lookup-append_group (root m) (root x) m groups,
        eqb_iff (root m) (root x),
        ap root last,
      ),
    )
  ];
  group = λ r is at. elim (Bool-cases (root m == r)) [
    | inr differ ↦
        other-IsGroup root m r is
          (g.group r is (ground (arith, lookup-append_group (root m) r m groups, differ, at)))
          (ground (arith, differ))
    | inl same ↦
        let e : root m ≡ r = (eqb_iff (root m) r).0 same in
        let now : append_to (lookup (root m) groups) m ≡ is =
          ground (arith, lookup-append_group (root m) r m groups, same, at) in
        subst (λ u. IsGroup root (suc m) u is) e
          (subst (IsGroup root (suc m) (root m)) now (elim (Option-cases (lookup (root m) groups)) [
            | inl none_yet ↦ rw none_yet (
                first-IsGroup root m (λ x l q.
                  let (js, there) = g.found x l in absurd (ground (arith, none_yet, there, q))))
            | inr (js, there) ↦ rw there (more-IsGroup root m js (g.group (root m) js there))
          ]))
  ];
}

group_loop-Grouped :
    (n : ℕ) (root height : ℕ → ℕ) (k i : ℕ) (p : Parent) (groups : List (ℕ × List ℕ))
    → IsForest n p root height
    → i + k ≡ n
    → Grouped root i groups
    → (groups' : List (ℕ × List ℕ)) × (group_loop n k i p groups ≡ some groups')
      × Grouped root n groups'
unfolding group_loop
group_loop-Grouped n root height zero i p groups f fits g =
    (groups, refl, let e : i ≡ n = omega arith in subst (λ u. Grouped root u groups) e g)
group_loop-Grouped n root height (suc k) i p groups f fits g =
    let l : i < n = omega arith in
    let (p', e, f') = find-root n root height n p i f l (height-lt n root height p i f l) in
    let (groups', r, g') =
      group_loop-Grouped n root height k (suc i) p' (append_group (root i) i groups) f'
        (omega arith) (append_group-Grouped root i groups g) in
    (groups', ground (arith, e, r), g')

-- The grouping of the points ends. Each point stands in the group of its root; the members of a
-- group are, in rising order, the points that a chain of similar points joins to one of them; no
-- group is empty, and no root has two groups.
pub components-Chain :
    (n : ℕ) (similar : ℕ → ℕ → Bool)
    → (root : ℕ → ℕ) × (groups : List (ℕ × List ℕ)) × (components n similar ≡ some groups)
      × Grouped root n groups
      × ((x y : ℕ) → x < n → y < n → (root x ≡ root y) ↔ Chain n similar x y)
unfolding components
components-Chain n similar =
    let (p, root, height, e, f, chains) = link_rows-Chain n similar in
    let (groups, r, g) = group_loop-Grouped n root height n 0 p [] f (omega arith) (record {
      distinct = tt;
      found = λ x l. absurd (omega arith);
      group = λ s is q. absurd (ground arith);
    }) in
    (root, groups, ground (arith, e, r), g, chains)
