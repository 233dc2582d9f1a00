-- ===== src/Wiki/Reconcile.antt =====
-- internal/wiki/reconcile.go: ReconcileRelated, from the collected pages on. A run of the agent on a batch is a
-- parameter, which says whether it succeeds. The queries are those after applyCodeFallback, which never fails.
pub mod Batches
use interest_memory.Prelude.{
  ℕ, zero, suc, ◌+◌, ℤ, positive_or, Bool, true, false, not, ◌||◌, Option, none, some, List, [],
  ◌∷◌, ◌++◌, length, slice, ltb, if◌then◌else◌, Text,
}
use interest_memory.Fork.Windows.{◌>>=◌}
use interest_memory.Store.{Page}
use interest_memory.Wiki.Related.{Queries, collect_related, none_active}

-- The loop over `start`, with `batchSize` as the step; an outer `none` is a panic, or fuel that ran out.
unfoldable pub batch_loop : {A : Type 0} → ℕ → ℕ → ℕ → List A → Option (List (List A))
batch_loop zero size start xs = none
batch_loop (suc fuel) size start xs = elim (ltb start (length xs)) [
  | false ↦ some []
  | true ↦ do
    b ← slice start (if ltb (length xs) (start + size) then length xs else start + size) xs
    rest ← batch_loop fuel size (start + size) xs
    some (b ∷ rest)
]

-- The batches that are run, and whether there was no error.
pub record Reconciled (F : Type 0) : Type 0 where
  pub runs : List (List (Page F))
  pub ok : Bool

module _ {F : Type 0} (succeeds : List (Page F) → Bool) where
  unfoldable pub run_batches : List (List (Page F)) → Reconciled F
  run_batches [] = record { runs = []; ok = true }
  run_batches (b ∷ batches) =
      let rest = run_batches batches in
      if succeeds b
      then record { runs = b ∷ rest.runs; ok = rest.ok }
      else record { runs = b ∷ []; ok = false }

  -- From the collected pages on.
  unfoldable pub dispatch : ℕ → Option (List (Page F)) → Option (Reconciled F)
  dispatch size none = some (record { runs = []; ok = false })
  dispatch size (some pages) =
      if none_active pages
      then some (record { runs = []; ok = true })
      else (do batches ← batch_loop (suc (length pages)) size 0 pages; some (run_batches batches))

  -- The provider: not set, failing, or there. Without seeds there is nothing to do.
  unfoldable pub reconcile_related :
      Queries F → Option Bool → List Text → List Text → ℤ → ℤ → Option (Reconciled F)
  reconcile_related st none touched archived max_hops batch_size =
      some (record { runs = []; ok = true })
  reconcile_related st (some false) touched archived max_hops batch_size =
      some (record { runs = []; ok = false })
  reconcile_related st (some true) [] [] max_hops batch_size =
      some (record { runs = []; ok = true })
  reconcile_related st (some true) touched archived max_hops batch_size =
      dispatch (positive_or 10 batch_size) (collect_related st (touched ++ archived) max_hops)
