-- ===== src/Prelude/Assoc.antt =====
-- Go's `map[K]V` as an association list: `insert` keeps the place of a key, `delete` drops it.
use mathlib.Core.List.{List, [], ◌∷◌}
use mathlib.Core.Option.{Option, none, some}
use mathlib.Core.Path.{◌≡◌, refl}
use Prim.Native.Nat.{suc}
use native.Mathlib.Omega.{arith}
use interest_memory.Prelude.Equality.{Eq, ◌==◌}
use interest_memory.Prelude.Lists.{length}
use interest_memory.Prelude.Tests.{if◌then◌else◌}

module _ {ℓ κ} {K : Type ℓ} ⦃e : Eq K⦄ {V : Type κ} where
  abbrev pub lookup : K → List (K × V) → Option V
  lookup k [] = none
  lookup k ((j, v) ∷ m) = if j == k then some v else lookup k m

  abbrev pub insert : K → V → List (K × V) → List (K × V)
  insert k v [] = (k, v) ∷ []
  insert k v ((j, w) ∷ m) = if j == k then (k, v) ∷ m else (j, w) ∷ insert k v m

  abbrev pub delete : K → List (K × V) → List (K × V)
  delete k [] = []
  delete k ((j, v) ∷ m) = if j == k then delete k m else (j, v) ∷ delete k m

  -- No key stands twice, as in a map.
  abbrev pub DistinctKeys : List (K × V) → Type κ
  DistinctKeys [] = Unit
  DistinctKeys ((k, v) ∷ m) = (lookup k m ≡ none) × DistinctKeys m

  pub lookup-insert :
      (k j : K) (v : V) (m : List (K × V))
      → lookup j (insert k v m) ≡ (if k == j then some v else lookup j m)
  lookup-insert k j v [] = refl
  lookup-insert k j v ((i, w) ∷ m) =
      ground (arith, e.beq_iff k j, e.beq_iff i k, e.beq_iff i j, lookup-insert k j v m)

  pub lookup-delete :
      (k j : K) (m : List (K × V)) → lookup j (delete k m) ≡ (if k == j then none else lookup j m)
  lookup-delete k j [] = ground arith
  lookup-delete k j ((i, w) ∷ m) =
      ground (arith, e.beq_iff k j, e.beq_iff i k, e.beq_iff i j, lookup-delete k j m)

  pub insert-DistinctKeys :
      (k : K) (v : V) (m : List (K × V)) → DistinctKeys m → DistinctKeys (insert k v m)
  insert-DistinctKeys k v [] d = (refl, tt)
  insert-DistinctKeys k v ((i, w) ∷ m) d =
      ground (arith, e.beq_iff i k, e.beq_iff k i, lookup-insert k i v m, insert-DistinctKeys k v m)

  pub delete-DistinctKeys : (k : K) (m : List (K × V)) → DistinctKeys m → DistinctKeys (delete k m)
  delete-DistinctKeys k [] d = tt
  delete-DistinctKeys k ((i, w) ∷ m) d =
      ground (arith, e.beq_iff i k, e.beq_iff k i, lookup-delete k i m, delete-DistinctKeys k m)

  pub length-insert_new :
      (k : K) (v : V) (m : List (K × V))
      → lookup k m ≡ none
      → length (insert k v m) ≡ suc (length m)
  length-insert_new k v [] h = refl
  length-insert_new k v ((i, w) ∷ m) h = ground (arith, length-insert_new k v m)

  pub length-insert_old :
      (k : K) (v w : V) (m : List (K × V)) → lookup k m ≡ some w → length (insert k v m) ≡ length m
  length-insert_old k v w [] h = ground arith
  length-insert_old k v w ((i, u) ∷ m) h = ground (arith, length-insert_old k v w m)

  pub delete_absent : (k : K) (m : List (K × V)) → lookup k m ≡ none → delete k m ≡ m
  delete_absent k [] h = refl
  delete_absent k ((i, u) ∷ m) h = ground (arith, delete_absent k m)

  pub length-delete :
      (k : K) (w : V) (m : List (K × V))
      → DistinctKeys m
      → lookup k m ≡ some w
      → suc (length (delete k m)) ≡ length m
  length-delete k w [] d h = ground arith
  length-delete k w ((i, u) ∷ m) d h =
      ground (arith, e.beq_iff i k, length-delete k w m, delete_absent k m)
