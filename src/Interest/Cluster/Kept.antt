-- ===== src/Interest/Cluster/Kept.antt =====
-- The components and isolated points of Cluster (internal/interest/cluster.go).
use interest_memory.Prelude.{
  Among, Among-cons, Among-left, Among-right, ℕ, ◌<◌, ◌≡◌, ◌⊎◌, inl, inr, refl, sym, ap, ◌∙◌, subst,
  true, false, Option, none, some, List, [], ◌∷◌, ◌++◌, ◌==◌, nat_eq, eqb_iff, length, get_elem?,
  arith, Float, lookup, Text, text_eq, DistinctKeys, Bool-cases, Option-cases,
}
use interest_memory.Store.{InterestPoint}
use interest_memory.Interest.UnionFind.Groups.{has, components-Chain}
use interest_memory.Interest.Merge.{Point, above, select}
use interest_memory.Interest.Merge.Similar.{
  get_elem?-lt, get_elem?-inside, get_elem?-split, select-some,
}
use interest_memory.Interest.Cluster.{
  HistPoint, Component, PointIndex, ride, attach, alone, group_comps, near_hits, hist_all,
  or_default, cluster, split_conflicts,
}

module _ {F : Type 0} where
  -- The point is isolated, or a member of a component.
  abbrev pub Placed : List (Component F) → List (Point F) → Point F → Type 0
  Placed comps isolated p =
      Among p isolated ⊎ ((c : Component F) × Among c comps × Among p c.members)

  -- Historical points ride along, and the members stay.
  ride-members :
      (pts : List (Point F)) (hist_of : List (List (HistPoint F))) (is : List ℕ)
      (comp : Component F)
      → length hist_of ≡ length pts
      → ((y : ℕ) → has is y ≡ true → y < length pts)
      → (c : Component F) × (ride pts hist_of is comp ≡ some c) × (c.members ≡ comp.members)
  ride-members pts hist_of [] comp same inside = (comp, refl, refl)
  ride-members pts hist_of (i ∷ is) comp same inside =
      let l : i < length pts = inside i (ground (arith, eqb_iff i i)) in
      let (p, at) = get_elem?-lt pts i l in
      let (hs, at') = get_elem?-lt hist_of i (omega (arith, l, same)) in
      let next : Component F = record comp {
        hist = comp.hist ++ hs;
        member_hist = attach p.candidate.topic hs comp.member_hist;
      } in
      let (c, e, m) = ride-members pts hist_of is next same (λ y h. inside y (ground (arith, h))) in
      (c, rw (at, at') e, m)

module _ (fl : Float) (pts : List (Point fl.F)) (hist_of : List (List (HistPoint fl.F))) where
  open fl use {F}

  group_alone :
      (r : ℕ) (is : List ℕ) (groups : List (ℕ × List ℕ)) (members : List (Point F))
      (comps : List (Component F)) (isolated : List (Point F))
      → select fl pts is ≡ some members
      → group_comps fl pts hist_of groups ≡ some (comps, isolated)
      → alone hist_of is ≡ true
      → group_comps fl pts hist_of ((r, is) ∷ groups) ≡ some (comps, members ++ isolated)
  unfolding group_comps
  group_alone r is groups members comps isolated e rest h = rw (e, rest, h) refl

  group_joined :
      (r : ℕ) (is : List ℕ) (groups : List (ℕ × List ℕ)) (members : List (Point F))
      (comps : List (Component F)) (isolated : List (Point F)) (c : Component F)
      → select fl pts is ≡ some members
      → group_comps fl pts hist_of groups ≡ some (comps, isolated)
      → alone hist_of is ≡ false
      → ride pts hist_of is (record { members = members; hist = []; member_hist = [] }) ≡ some c
      → group_comps fl pts hist_of ((r, is) ∷ groups) ≡ some (c ∷ comps, isolated)
  unfolding group_comps
  group_joined r is groups members comps isolated c e rest h ridden = rw (e, rest, h, ridden) refl

  group_comps-Placed :
      (groups : List (ℕ × List ℕ))
      → length hist_of ≡ length pts
      → DistinctKeys groups
      → ((r : ℕ) (is : List ℕ)
          → lookup r groups ≡ some is
          → (y : ℕ) → has is y ≡ true
          → y < length pts)
      → (comps : List (Component F)) × (isolated : List (Point F)) × (group_comps fl pts hist_of
            groups
          ≡ some (comps, isolated))
        × ((r i : ℕ) (is : List ℕ) (p : Point F)
            → lookup r groups ≡ some is
            → has is i ≡ true
            → get_elem? pts i ≡ some p
            → Placed comps isolated p)
  unfolding group_comps
  group_comps-Placed [] same d good = ([], [], refl, λ r i is p h. absurd (ground (arith, h)))
  group_comps-Placed ((s, js) ∷ groups) same d good =
      let inside = good s js (ground (arith, eqb_iff s s)) in
      let (members, e, _, among) = select-some fl pts js inside in
      let (comps, isolated, rest, more) =
        group_comps-Placed groups same d.1
          (λ r is h. good r is (ground (arith, h, d.0, eqb_iff s r))) in
      elim (Bool-cases (alone hist_of js)) [
        | inl by_itself ↦ (
          comps,
          members ++ isolated,
          group_alone s js groups members comps isolated e rest by_itself,
          λ r i is p at h found. elim (Bool-cases (s == r)) [
            | inl here ↦
                let js_is : js ≡ is = ground (arith, at, here) in
                inl (
                  Among-left p members isolated
                    (among i p (subst (λ u. has u i ≡ true) (sym js_is) h) found))
            | inr other ↦ elim (more r i is p (ground (arith, at, other)) h found) [
              | inl a ↦ inl (Among-right p members isolated a)
              | inr (c, a, b) ↦ inr (c, a, b)
            ]
          ],
        )
        | inr joined ↦
            let (c, ridden, kept) =
              ride-members pts hist_of js
                (record { members = members; hist = []; member_hist = [] }) same inside in
            (
              c ∷ comps,
              isolated,
              group_joined s js groups members comps isolated c e rest joined ridden,
              λ r i is p at h found. elim (Bool-cases (s == r)) [
                | inl here ↦
                    let js_is : js ≡ is = ground (arith, at, here) in
                    inr (
                      c,
                      ([], comps, refl),
                      subst (λ u. Among p u) (sym kept)
                          (among i p (subst (λ u. has u i ≡ true) (sym js_is) h) found),
                    )
                | inr other ↦ elim (more r i is p (ground (arith, at, other)) h found) [
                  | inl a ↦ inl a
                  | inr (k, a, b) ↦ inr (k, Among-cons k c comps a, b)
                ]
              ],
            )
      ]

module _ (fl : Float) (widen : fl.F → fl.F) (minus_one merge_default hist_default : fl.F) where
  open fl use {F}

  hist_all-length :
      (st : Option (Text → Option (Option (InterestPoint F)))) (vi : Option (PointIndex F))
      (hist_sim : F) (pts : List (Point F)) (hist_of : List (List (HistPoint F)))
      → hist_all fl widen minus_one merge_default hist_default st vi hist_sim pts ≡ some hist_of
      → length hist_of ≡ length pts
  unfolding hist_all
  hist_all-length st vi hist_sim [] hist_of h = ground (arith, h)
  hist_all-length st none hist_sim (p ∷ pts) hist_of h =
      elim (Option-cases
        (hist_all fl widen minus_one merge_default hist_default st none hist_sim pts)) [
          | inl bad ↦ absurd (ground (arith, bad, h))
          | inr (rest, e) ↦ ground (arith, e, h, hist_all-length st none hist_sim pts rest e)
        ]
  hist_all-length st (some vi) hist_sim (p ∷ pts) hist_of h =
      elim (Option-cases (vi.search p.vec 20)) [
        | inl bad ↦ absurd (ground (arith, bad, h))
        | inr (hits, found) ↦
            elim (Option-cases
              (near_hits fl widen minus_one merge_default hist_default st vi hist_sim p.vec hits)) [
                | inl bad ↦ absurd (ground (arith, found, bad, h))
                | inr (hs, near) ↦
                    elim (Option-cases (
                      hist_all fl widen minus_one merge_default hist_default st (some vi) hist_sim
                        pts)) [
                          | inl bad ↦ absurd (ground (arith, found, near, bad, h))
                          | inr (rest, e) ↦ ground (
                            arith,
                            found,
                            near,
                            e,
                            h,
                            hist_all-length st (some vi) hist_sim pts rest e,
                          )
                        ]
              ]
      ]

  -- Where the index answers, Cluster ends, up to the split of the conflicts, without an index out of
  -- bounds, and each current point is isolated or a member of one of the components that it splits.
  pub cluster-Placed :
      (order : List (Text × List ℕ) → List (Text × List ℕ)) (vi : Option (PointIndex F))
      (st : Option (Text → Option (Option (InterestPoint F)))) (pts : List (Point F))
      (merge_sim hist_sim : F) (hist_of : List (List (HistPoint F)))
      → hist_all fl widen minus_one merge_default hist_default st vi
          (or_default fl widen minus_one merge_default hist_default hist_default hist_sim)
          pts
        ≡ some hist_of
      → (comps : List (Component F)) × (isolated : List (Point F)) × (cluster fl widen minus_one
            merge_default hist_default order vi st pts merge_sim hist_sim
          ≡ split_conflicts fl minus_one order comps isolated)
        × ((p : Point F) → Among p pts → Placed comps isolated p)
  unfolding cluster
  cluster-Placed order vi st pts merge_sim hist_sim hist_of answered =
      let threshold =
        or_default fl widen minus_one merge_default hist_default merge_default merge_sim in
      let (root, groups, e, g, _) =
        components-Chain (length pts)
          (λ i j. above fl threshold (get_elem? pts i) (get_elem? pts j)) in
      let (comps, isolated, done, placed) =
        group_comps-Placed fl pts hist_of groups (hist_all-length st vi _ pts hist_of answered)
          g.distinct (λ r is h y m. (((g.group r is h).members y).0 m).0) in
      (
        comps,
        isolated,
        rw (answered, e, done) refl,
        λ p i.
            let (b, a, cut) = i in
            let at : get_elem? pts (length b) ≡ some p =
              ap (λ u. get_elem? u (length b)) cut ∙ get_elem?-split b p a in
            let l = get_elem?-inside pts (length b) p at in
            let (is, there) = g.found (length b) l in
            placed (root (length b)) (length b) is p there
              (((g.group (root (length b)) is there).members (length b)).1 (l, refl)) at,
      )
