-- ===== src/Interest/Merge/Similar.antt =====
-- The similarity of two vectors, and the points at the indexes of the groups of connectedComponents
-- (internal/interest/merge.go).
use interest_memory.Prelude.{
  Among, Among-cons, ℕ, zero, suc, ◌<◌, ◌≡◌, ◌≢◌, inl, inr, refl, sym, ap, ◌∙◌, subst, true, some,
  List, [], ◌∷◌, ◌++◌, ◌==◌, nat_eq, eqb_iff, length, get_elem?, arith, Float, All, lookup,
  DistinctKeys, Bool-cases,
}
use interest_memory.Interest.Merge.{Point, sums, similarity, cosine, select, select_all}
use interest_memory.Interest.UnionFind.Groups.{has}

module _ (fl : Float) where
  open fl use {F, lt, is_zero, zero_f, add, mul, div, sqrt, mul_comm}

  similarity-sums :
      (a b : List F) (dot na nb : F)
      → similarity fl (sums fl a b (dot, (na, nb))) ≡ similarity fl (sums fl b a (dot, (nb, na)))
  similarity-sums (x ∷ a) (y ∷ b) dot na nb =
      similarity-sums a b (add dot (mul x y)) (add na (mul x x)) (add nb (mul y y))
      ∙ ap (λ u. similarity fl (sums fl b a (add dot u, (add nb (mul y y), add na (mul x x)))))
          (mul_comm x y)
  similarity-sums (x ∷ a) [] dot na nb = ends na nb dot
    where
      ends : (na nb dot : F) → similarity fl (dot, (na, nb)) ≡ similarity fl (dot, (nb, na))
      ends na nb dot = ground (arith, mul_comm (sqrt na) (sqrt nb))
  similarity-sums [] (y ∷ b) dot na nb = ground (arith, mul_comm (sqrt na) (sqrt nb))
  similarity-sums [] [] dot na nb = ground (arith, mul_comm (sqrt na) (sqrt nb))

  -- The similarity of two vectors does not depend on their order.
  pub cosine_comm : (a b : List F) → cosine fl a b ≡ cosine fl b a
  unfolding cosine
  cosine_comm a b = ground (
    arith,
    similarity-sums a b zero_f zero_f zero_f,
    eqb_iff (length a) (length b),
    eqb_iff (length b) (length a),
  )

module _ {A : Type 0} where
  pub get_elem?-lt : (pts : List A) (i : ℕ) → i < length pts → (p : A) × (get_elem? pts i ≡ some p)
  get_elem?-lt [] i h = absurd (omega (arith, h))
  get_elem?-lt (p ∷ pts) zero h = (p, refl)
  get_elem?-lt (p ∷ pts) (suc i) h = get_elem?-lt pts i (omega (arith, h))

  pub get_elem?-inside : (pts : List A) (i : ℕ) (p : A) → get_elem? pts i ≡ some p → i < length pts
  get_elem?-inside [] i p h = absurd (ground (arith, h))
  get_elem?-inside (q ∷ pts) zero p h = omega arith
  get_elem?-inside (q ∷ pts) (suc i) p h = omega (arith, get_elem?-inside pts i p h)

  pub get_elem?-split :
      (b : List A) (p : A) (a : List A) → get_elem? (b ++ p ∷ a) (length b) ≡ some p
  get_elem?-split [] p a = refl
  get_elem?-split (q ∷ b) p a = get_elem?-split b p a

module _ (fl : Float) where
  open fl use {F}

  -- The points at indexes in range.
  pub select-some :
      (pts : List (Point F)) (is : List ℕ)
      → ((y : ℕ) → has is y ≡ true → y < length pts)
      → (comp : List (Point F)) × (select fl pts is ≡ some comp)
        × (is ≢ [] → comp ≢ [])
        × ((i : ℕ) (p : Point F) → has is i ≡ true → get_elem? pts i ≡ some p → Among p comp)
  select-some pts [] inside = ([], refl, λ h e. h refl, λ i p h. absurd (ground (arith, h)))
  select-some pts (i ∷ is) inside =
      let (p, at) = get_elem?-lt pts i (inside i (ground (arith, eqb_iff i i))) in
      let (comp, rest, _, among) = select-some pts is (λ y h. inside y (ground (arith, h))) in
      (
        p ∷ comp,
        ground (arith, at, rest),
        λ h e. ground (arith, e),
        λ j q h found. elim (Bool-cases (i == j)) [
          | inl here ↦
              let same : p ≡ q = ground (arith, at, found, (eqb_iff i j).0 here) in
              ([], comp, ap (λ u. u ∷ comp) same)
          | inr other ↦ Among-cons q p comp (among j q (ground (arith, h, other)) found)
        ],
      )

  -- The components of groups whose indexes are in range.
  pub select_all-some :
      (pts : List (Point F)) (groups : List (ℕ × List ℕ))
      → DistinctKeys groups
      → ((r : ℕ) (is : List ℕ)
          → lookup r groups ≡ some is
          → ((y : ℕ) → has is y ≡ true → y < length pts) × (is ≢ []))
      → (out : List (List (Point F))) × (select_all fl pts groups ≡ some out)
        × All (λ c. c ≢ []) out
        × ((r i : ℕ) (is : List ℕ) (p : Point F)
            → lookup r groups ≡ some is
            → has is i ≡ true
            → get_elem? pts i ≡ some p
            → (comp : List (Point F)) × Among comp out
              × Among p comp
              × (select fl pts is ≡ some comp))
  select_all-some pts [] d good = ([], refl, tt, λ r i is p h. absurd (ground (arith, h)))
  select_all-some pts ((s, js) ∷ groups) d good =
      let (inside, full) = good s js (ground (arith, eqb_iff s s)) in
      let (comp, e, kept, among) = select-some pts js inside in
      let (out, rest, all, more) =
        select_all-some pts groups d.1
          (λ r is h. good r is (ground (arith, h, d.0, eqb_iff s r))) in
      (
        comp ∷ out,
        ground (arith, e, rest),
        (kept full, all),
        λ r i is p at h found. elim (Bool-cases (s == r)) [
          | inl here ↦
              let same : js ≡ is = ground (arith, at, here) in
              (
                comp,
                ([], out, refl),
                among i p (subst (λ u. has u i ≡ true) (sym same) h) found,
                subst (λ u. select fl pts u ≡ some comp) same e,
              )
          | inr other ↦
              let (c, i_out, i_c, picked) = more r i is p (ground (arith, at, other)) h found in
              (c, Among-cons c comp out i_out, i_c, picked)
        ],
      )
