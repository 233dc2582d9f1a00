-- ===== src/Cache/History.antt =====
-- A run of the cache against an unbounded history of the entries.
use interest_memory.Prelude.{
  ℕ, zero, suc, ◌≤◌, ◌≡◌, refl, ◌∙◌, ap, sym, Option, none, some, List, [], ◌∷◌, ℤ, length, Eq,
  ◌==◌, lookup, delete, take, arith, DistinctKeys, lookup-delete, delete-DistinctKeys,
  delete_absent, Option-cases, take-take, length-delete, length-take-le, take_of_length-le, inl,
  inr, Bool-cases, subst, take-nil,
}
use mathlib.Core.List.{foldl}
use interest_memory.Cache.{Cache, room, get, set, new, get-cap, set-cap}
use interest_memory.Cache.Valid.{IsValid, get-IsValid, set-IsValid, new-IsValid}
use interest_memory.Cache.Refines.{view, get-recency_get, set-take}

pub data Call {ℓ} (K V : Type ℓ) : Type ℓ where
  gets : K → Call K V
  sets : K → V → Call K V

module _ {ℓ} {K V : Type ℓ} ⦃e : Eq K⦄ where
  pub run : Cache K V → List (Call K V) → Cache K V
  run c [] = c
  run c (gets k ∷ calls) = run (get c k).0 calls
  run c (sets k v ∷ calls) = run (set c k v) calls

  -- The history keeps every entry ever set. A lookup is a use only of one of the `n` latest.
  abbrev pub note_at : K → List (K × V) → Option V → List (K × V)
  note_at k h none = h
  note_at k h (some v) = (k, v) ∷ delete k h

  abbrev pub note : ℕ → List (K × V) → Call K V → List (K × V)
  note n h (gets k) = note_at k h (lookup k (take n h))
  note n h (sets k v) = (k, v) ∷ delete k h

  front-Distinct :
      (k : K) (v : V) (h : List (K × V)) → DistinctKeys h → DistinctKeys ((k, v) ∷ delete k h)
  front-Distinct k v h d =
      (ground (arith, lookup-delete k k h, e.beq_iff k k), delete-DistinctKeys k h d)

  note-Distinct :
      (n : ℕ) (h : List (K × V)) (c : Call K V) → DistinctKeys h → DistinctKeys (note n h c)
  note-Distinct n h (sets k v) d = front-Distinct k v h d
  note-Distinct n h (gets k) d = elim (Option-cases (lookup k (take n h))) [
    | inl q ↦ rw q d
    | inr (v, q) ↦ rw q (front-Distinct k v h d)
  ]

  lookup-take_absent :
      (n : ℕ) (k : K) (h : List (K × V)) → lookup k h ≡ none → lookup k (take n h) ≡ none
  lookup-take_absent zero k h q = refl
  lookup-take_absent (suc n) k [] q = refl
  lookup-take_absent (suc n) k ((j, v) ∷ h) q = ground (arith, lookup-take_absent n k h)

  take-Distinct : (n : ℕ) (h : List (K × V)) → DistinctKeys h → DistinctKeys (take n h)
  take-Distinct zero h d = tt
  take-Distinct (suc n) [] d = tt
  take-Distinct (suc n) ((j, v) ∷ h) d = (lookup-take_absent n j h d.0, take-Distinct n h d.1)

  take-delete-take :
      (m : ℕ) (k : K) (h : List (K × V))
      → DistinctKeys h
      → take m (delete k (take (suc m) h)) ≡ take m (delete k h)
  take-delete-take zero k h d = refl
  take-delete-take (suc m) k [] d = refl
  take-delete-take (suc m) k ((j, v) ∷ h) d = elim (Bool-cases (j == k)) [
    | inl here ↦
        let absent = subst (λ u. lookup u h ≡ none) ((e.beq_iff _ _).0 here) d.0 in
        rw
          (
            here,
            delete_absent k h absent,
            delete_absent k (take (suc m) h) (lookup-take_absent (suc m) k h absent),
          )
          (take-take (suc m) h)
    | inr there ↦ rw there (ap (◌∷◌ (j, v)) (take-delete-take m k h d.1))
  ]

  take-front :
      (n : ℕ) (k : K) (v : V) (h : List (K × V))
      → DistinctKeys h
      → take n ((k, v) ∷ delete k (take n h)) ≡ take n ((k, v) ∷ delete k h)
  take-front zero k v h d = refl
  take-front (suc m) k v h d = ap (◌∷◌ (k, v)) (take-delete-take m k h d)

  -- A hit among the latest `n` entries keeps their number.
  length-front :
      (n : ℕ) (k : K) (v : V) (h : List (K × V))
      → DistinctKeys h
      → lookup k (take n h) ≡ some v
      → length ((k, v) ∷ delete k (take n h)) ≤ n
  length-front n k v h d q =
      omega (arith, length-delete k v (take n h) (take-Distinct n h d) q, length-take-le n h)

  tracks :
      (n : ℕ) (c : Cache K V) (h : List (K × V)) (calls : List (Call K V))
      → room c.cap ≡ n
      → IsValid c
      → DistinctKeys h
      → view c ≡ take n h
      → view (run c calls) ≡ take n (foldl (note n) h calls)
  unfolding run
  tracks n c h [] size w d q = q
  tracks n c h (gets k ∷ calls) size w d q =
      tracks n (get c k).0 (note n h (gets k)) calls (ap room (get-cap c k) ∙ size)
        (get-IsValid c k w) (note-Distinct n h (gets k) d)
        (elim (Option-cases (lookup k (take n h))) [
          | inl miss ↦ ground (arith, get-recency_get c k w, miss, q)
          | inr (v, hit) ↦
              let fits =
                take_of_length-le n ((k, v) ∷ delete k (take n h)) (length-front n k v h d hit) in
              ground (arith, get-recency_get c k w, hit, q, fits, take-front n k v h d)
        ])
  tracks n c h (sets k v ∷ calls) size w d q =
      tracks n (set c k v) (note n h (sets k v)) calls (ap room (set-cap c k v) ∙ size)
        (set-IsValid c k v w) (note-Distinct n h (sets k v) d)
        (set-take c k v w
          ∙ ap (λ u. take u ((k, v) ∷ delete k (view c))) size
          ∙ ap (λ u. take n ((k, v) ∷ delete k u)) q
          ∙ take-front n k v h d)

  -- From an empty cache of capacity `cap`, after any calls, the cache holds exactly the latest
  -- entries of the history, in order, up to its capacity (none if `cap` is not positive).
  pub run-window :
      (cap : ℤ) (calls : List (Call K V))
      → view (run (new cap) calls) ≡ take (room cap) (foldl (note (room cap)) [] calls)
  unfolding new
  run-window cap calls =
      tracks (room cap) (new cap) [] calls refl (new-IsValid cap) tt (sym (take-nil (room cap)))
