-- ===== src/Cache/Elems.antt =====
-- Elements by key and by pointer.
use interest_memory.Prelude.{
  ℕ, suc, ◌≡◌, refl, ◌≢◌, ap, sym, subst, Option, none, some, List, [], ◌++◌, ◌∷◌, length, Eq, ◌==◌,
  if◌then◌else◌, arith, All, Bool-cases, inl, inr,
}
use interest_memory.Cache.{Elem, take_out, split_last}

module _ {ℓ} {K V : Type ℓ} ⦃e : Eq K⦄ where
  -- The handle of the first element with a key.
  abbrev pub handle_of : K → List (Elem K V) → Option ℕ
  handle_of k [] = none
  handle_of k (x ∷ l) = if x.key == k then some x.handle else handle_of k l

  -- No key and no handle stands twice.
  abbrev pub DistinctElems : List (Elem K V) → Type 0
  DistinctElems [] = Unit
  DistinctElems (x ∷ l) =
      (handle_of x.key l ≡ none) × (All (λ y. y.handle ≢ x.handle) l) × DistinctElems l

  unfoldable pub without : K → List (Elem K V) → List (Elem K V)
  without k [] = []
  without k (x ∷ l) = if x.key == k then without k l else x ∷ without k l

  pub without_absent : (k : K) (l : List (Elem K V)) → handle_of k l ≡ none → without k l ≡ l
  unfolding without
  without_absent k [] h = refl
  without_absent k (x ∷ l) h = ground (arith, without_absent k l)

  pub handle_of-ne :
      (k : K) (l : List (Elem K V)) (a h : ℕ)
      → All (λ y. y.handle ≢ a) l
      → handle_of k l ≡ some h
      → h ≢ a
  handle_of-ne k [] a h all e = ground arith
  handle_of-ne k (x ∷ l) a h all e = ground (arith, handle_of-ne k l a h)

  pub handle_of-without :
      (k j : K) (l : List (Elem K V))
      → handle_of j (without k l) ≡ (if k == j then none else handle_of j l)
  unfolding without
  handle_of-without k j [] = ground arith
  handle_of-without k j (x ∷ l) =
      ground (arith, e.beq_iff k j, e.beq_iff x.key k, e.beq_iff x.key j, handle_of-without k j l)

  pub All-without :
      (P : Elem K V → Type 0) (k : K) (l : List (Elem K V)) → All P l → All P (without k l)
  unfolding without
  All-without P k [] a = tt
  All-without P k (x ∷ l) a = elim (Bool-cases (x.key == k)) [
    | inl here ↦ rw here (All-without P k l a.1)
    | inr there ↦ rw there (a.0, All-without P k l a.1)
  ]

  pub without-Distinct :
      (k : K) (l : List (Elem K V)) → DistinctElems l → DistinctElems (without k l)
  unfolding without
  without-Distinct k [] d = tt
  without-Distinct k (x ∷ l) d = elim (Bool-cases (x.key == k)) [
    | inl here ↦ rw here (without-Distinct k l d.2)
    | inr there ↦ rw there (
      ground (arith, handle_of-without k x.key l, d.0),
      All-without _ k l d.1,
      without-Distinct k l d.2,
    )
  ]

  pub length-without :
      (k : K) (h : ℕ) (l : List (Elem K V))
      → DistinctElems l
      → handle_of k l ≡ some h
      → suc (length (without k l)) ≡ length l
  unfolding without
  length-without k h [] d q = ground arith
  length-without k h (x ∷ l) d q =
      ground (arith, e.beq_iff x.key k, length-without k h l, without_absent k l)

  pub handle-without :
      (k : K) (h : ℕ) (l : List (Elem K V))
      → DistinctElems l
      → handle_of k l ≡ some h
      → All (λ y. y.handle ≢ h) (without k l)
  unfolding without
  handle-without k h [] d q = tt
  handle-without k h (x ∷ l) d q = elim (Bool-cases (x.key == k)) [
    | inl here ↦
        let f : x.handle ≡ h = ground arith in
        rw
          (
            here,
            without_absent k l (subst (λ u. handle_of u l ≡ none) ((e.beq_iff _ _).0 here) d.0),
            ← f,
          )
          d.1
    | inr there ↦
        let r : handle_of k l ≡ some h = ground arith in
        rw there ((λ u. handle_of-ne k l x.handle h d.1 r (sym u)), handle-without k h l d.2 r)
  ]

  -- The pointer of a key leads to the element of that key.
  pub take_out-without :
      (k : K) (h : ℕ) (l : List (Elem K V))
      → DistinctElems l
      → handle_of k l ≡ some h
      → (x : Elem K V) × (take_out h l ≡ some (x, without k l)) × (x.key ≡ k) × (x.handle ≡ h)
  unfolding take_out without
  take_out-without k h [] d q = ground arith
  take_out-without k h (x ∷ l) d q = elim (Bool-cases (x.key == k)) [
    | inl here ↦ (
      x,
      ground (arith, e.beq_iff x.key k, without_absent k l),
      (e.beq_iff _ _).0 here,
      ground arith,
    )
    | inr there ↦
        let r : handle_of k l ≡ some h = ground arith in
        let (y, out, same, at) = take_out-without k h l d.2 r in
        let other = handle_of-ne k l x.handle h d.1 r in
        (y, ground (arith, out, other, there), same, at)
  ]

  -- `Back` and `Remove` split the last element off.
  pub split_last-append :
      (x : Elem K V) (l : List (Elem K V))
      → (y : Elem K V) × (r : List (Elem K V)) × (split_last (x ∷ l) ≡ some (y, r))
        × (x ∷ l ≡ r ++ y ∷ [])
  unfolding split_last
  split_last-append x [] = (x, [], refl, refl)
  split_last-append x (z ∷ l) =
      let (y, r, q, s) = split_last-append z l in (y, x ∷ r, rw q, ap (◌∷◌ x) s)

  pub handle_of-last :
      (y : Elem K V) (r : List (Elem K V))
      → DistinctElems (r ++ y ∷ [])
      → (h : ℕ) × (handle_of y.key (r ++ y ∷ []) ≡ some h)
  handle_of-last y [] d = (y.handle, ground (arith, e.beq_iff y.key y.key))
  handle_of-last y (x ∷ r) d = elim (Bool-cases (x.key == y.key)) [
    | inl here ↦ (x.handle, rw here)
    | inr there ↦ let (h, q) = handle_of-last y r d.2 in (h, rw there q)
  ]

  pub handle_of-init :
      (y : Elem K V) (j : K) (r : List (Elem K V))
      → DistinctElems (r ++ y ∷ [])
      → handle_of j r ≡ (if y.key == j then none else handle_of j (r ++ y ∷ []))
  handle_of-init y j [] d = ground arith
  handle_of-init y j (x ∷ r) d = ground (
    arith,
    e.beq_iff y.key j,
    e.beq_iff x.key j,
    e.beq_iff y.key x.key,
    handle_of-init y j r d.2,
    handle_of-init y x.key r d.2,
    handle_of-last y r d.2,
    d.0,
  )

  pub All-init :
      (P : Elem K V → Type 0) (y : Elem K V) (r : List (Elem K V)) → All P (r ++ y ∷ []) → All P r
  All-init P y [] a = tt
  All-init P y (x ∷ r) a = (a.0, All-init P y r a.1)

  pub init-Distinct :
      (y : Elem K V) (r : List (Elem K V)) → DistinctElems (r ++ y ∷ []) → DistinctElems r
  init-Distinct y [] d = tt
  init-Distinct y (x ∷ r) d =
      (ground (arith, handle_of-init y x.key r d.2, d.0), All-init _ y r d.1, init-Distinct y r d.2)

  pub handle_of-All :
      (P : ℕ → Type 0) (k : K) (h : ℕ) (l : List (Elem K V))
      → All (λ x. P x.handle) l
      → handle_of k l ≡ some h
      → P h
  handle_of-All P k h [] a q = cc
  handle_of-All P k h (x ∷ l) a q = elim (Bool-cases (x.key == k)) [
    | inl here ↦ let f : x.handle ≡ h = ground arith in subst P f a.0
    | inr there ↦ handle_of-All P k h l a.1 (rw there at q)
  ]
