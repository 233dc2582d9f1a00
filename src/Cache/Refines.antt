-- ===== src/Cache/Refines.antt =====
-- The cache as a list of pairs, the most recently used first.
use interest_memory.Prelude.{
  ℕ, zero, suc, ◌≤◌, ◌≡◌, refl, ◌∙◌, ap, sym, true, false, Option, none, some, List, [], ◌∷◌, ◌++◌,
  ℤ, length, Eq, ◌==◌, lookup, delete, take, arith, Bool-cases, Option-cases, inl, inr,
  length-append, length-insert_new, take_of_length-le, delete_absent,
}
use interest_memory.Cache.{
  Elem, Cache, disabled, exceeds, room, take_out, get, set, evict, push_front,
}
use interest_memory.Cache.Elems.{
  handle_of, DistinctElems, without, handle_of-ne, length-without, take_out-without,
  split_last-append,
}
use interest_memory.Cache.Valid.{IsValid}

disabled-room : (z : ℤ) → disabled z ≡ true → room z ≡ 0
disabled-room z h = ground arith

module _ {ℓ} {K V : Type ℓ} ⦃e : Eq K⦄ where
  abbrev pub pairs : List (Elem K V) → List (K × V)
  pairs [] = []
  pairs (x ∷ l) = (x.key, x.val) ∷ pairs l

  abbrev pub view : Cache K V → List (K × V)
  view c = pairs c.ll

  pairs-without : (k : K) (l : List (Elem K V)) → pairs (without k l) ≡ delete k (pairs l)
  unfolding without
  pairs-without k [] = refl
  pairs-without k (x ∷ l) = ground (arith, pairs-without k l)

  lookup-pairs_miss :
      (k : K) (l : List (Elem K V)) → handle_of k l ≡ none → lookup k (pairs l) ≡ none
  lookup-pairs_miss k [] q = refl
  lookup-pairs_miss k (x ∷ l) q = ground (arith, lookup-pairs_miss k l)

  lookup-pairs_hit :
      (k : K) (h : ℕ) (l r : List (Elem K V)) (x : Elem K V)
      → DistinctElems l
      → handle_of k l ≡ some h
      → take_out h l ≡ some (x, r)
      → lookup k (pairs l) ≡ some x.val
  unfolding take_out
  lookup-pairs_hit k h [] r x d q out = ground arith
  lookup-pairs_hit k h (y ∷ l) r x d q out = elim (Bool-cases (y.key == k)) [
    | inl here ↦ ground (arith, here)
    | inr there ↦
        let q' : handle_of k l ≡ some h = ground arith in
        let (z, out', _, _) = take_out-without k h l d.2 q' in
        let found = lookup-pairs_hit k h l _ z d.2 q' out' in
        ground (arith, there, out', found, handle_of-ne k l y.handle h d.1 q')
  ]

  take-init :
      (n : ℕ) (y : Elem K V) (r : List (Elem K V))
      → length r ≡ n
      → pairs r ≡ take n (pairs (r ++ y ∷ []))
  take-init zero y [] q = refl
  take-init zero y (x ∷ r) q = absurd (omega arith)
  take-init (suc n) y [] q = absurd (omega arith)
  take-init (suc n) y (x ∷ r) q = ap (◌∷◌ (x.key, x.val)) (take-init n y r (omega arith))

  length-pairs : (l : List (Elem K V)) → length (pairs l) ≡ length l
  length-pairs [] = refl
  length-pairs (x ∷ l) = ap suc (length-pairs l)

  -- A lookup in the recency list, which moves a hit to the front.
  abbrev pub recency_at : K → List (K × V) → Option V → List (K × V) × Option V
  recency_at k l none = (l, none)
  recency_at k l (some v) = ((k, v) ∷ delete k l, some v)

  abbrev pub recency_get : K → List (K × V) → List (K × V) × Option V
  recency_get k l = recency_at k l (lookup k l)

  -- With caching off the cache stays empty.
  disabled-empty : (c : Cache K V) → IsValid c → disabled c.cap ≡ true → c.ll ≡ []
  disabled-empty c w off = nothing c.ll (omega (arith, disabled-room c.cap off, w.bounded))
    where
      nothing : (l : List (Elem K V)) → length l ≤ 0 → l ≡ []
      nothing [] h = refl
      nothing (x ∷ l) h = absurd (omega arith)

  -- On a valid cache, `Get` is the lookup in the recency list: a hit returns the value and moves its
  -- pair to the front, and a miss changes nothing.
  pub get-recency_get :
      (c : Cache K V) (k : K)
      → IsValid c
      → ◌≡◌ {A = List (K × V) × Option V} (view (get c k).0, (get c k).1) (recency_get k (view c))
  unfolding get
  get-recency_get c k w = elim (Bool-cases (disabled c.cap)) [
    | inl off ↦ rw (off, disabled-empty c w off)
    | inr on ↦ elim (Option-cases (lookup k c.idx)) [
      | inl miss ↦ rw (on, miss, lookup-pairs_miss k c.ll (sym (w.agree k) ∙ miss))
      | inr (h, hit) ↦
          let at = sym (w.agree k) ∙ hit in
          let (x, out, same, _) = take_out-without k h c.ll w.distinct at in
          let found = lookup-pairs_hit k h c.ll _ x w.distinct at out in
          rw (on, hit, out, found) (rw (pairs-without, same))
    ]
  ]

  evict-view :
      (c : Cache K V) (x : Elem K V) (l : List (Elem K V))
      → c.ll ≡ x ∷ l
      → length c.idx ≡ suc (length l)
      → length l ≤ room c.cap
      → disabled c.cap ≡ false
      → view (evict c) ≡ take (room c.cap) (pairs (x ∷ l))
  unfolding evict
  evict-view c x l front size fits on = elim (Bool-cases (exceeds (length c.idx) c.cap)) [
    | inl over ↦
        let (y, r, split, parts) = split_last-append x l in
        let full : length l ≡ room c.cap = ground arith in
        rw (over, front, split)
          (take-init (room c.cap) y r
              (omega (arith, full, ap length parts, length-append r (y ∷ [])))
            ∙ ap (λ u. take (room c.cap) (pairs u)) (sym parts))
    | inr under ↦
        rw (under, front)
          (sym (
            take_of_length-le (room c.cap) (pairs (x ∷ l)) (
              let q : suc (length l) ≤ room c.cap = ground arith in
              omega (arith, q, length-pairs l))))
  ]

  -- On a valid cache, `Set` puts the pair in front of the recency list, in place of the key's old
  -- pair, and keeps the most recent ones up to the capacity.
  pub set-take :
      (c : Cache K V) (k : K) (v : V)
      → IsValid c
      → view (set c k v) ≡ take (room c.cap) ((k, v) ∷ delete k (view c))
  unfolding set push_front
  set-take c k v w = elim (Bool-cases (disabled c.cap)) [
    | inl off ↦ rw (off, disabled-room c.cap off) (ap pairs (disabled-empty c w off))
    | inr on ↦ elim (Option-cases (lookup k c.idx)) [
      | inl miss ↦
          let absent = lookup-pairs_miss k c.ll (sym (w.agree k) ∙ miss) in
          rw (on, miss, delete_absent k (pairs c.ll) absent)
            (evict-view (push_front c k v) _ c.ll refl
              (length-insert_new k c.next c.idx miss ∙ ap suc w.sizes) w.bounded on)
      | inr (h, hit) ↦
          let at = sym (w.agree k) ∙ hit in
          let (x, out, same, _) = take_out-without k h c.ll w.distinct at in
          let fits : length ((k, v) ∷ pairs (without k c.ll)) ≤ room c.cap = omega (
            arith,
            length-pairs (without k c.ll),
            length-without k h c.ll w.distinct at,
            w.bounded,
          ) in
          rw (on, hit, out, same, ← pairs-without k c.ll)
            (sym (take_of_length-le (room c.cap) ((k, v) ∷ pairs (without k c.ll)) fits))
    ]
  ]
