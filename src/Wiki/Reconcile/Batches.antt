-- ===== src/Wiki/Reconcile/Batches.antt =====
-- The batches of ReconcileRelated of internal/wiki/reconcile.go.
use interest_memory.Prelude.{
  ℕ, zero, suc, ◌+◌, ◌-◌, ◌≤◌, ◌<◌, ◌≡◌, ◌≢◌, ◌⊎◌, inl, inr, refl, sym, ap, subst, ◌∙◌, ℤ,
  positive_or, positive_or-pos, Bool, true, false, Option, some, List, [], ◌∷◌, ◌++◌, length, drop,
  slice_split, flatten, ltb, ltb→lt, Text, All, Bool-cases, arith,
}
use mathlib.Core.List.{append_assoc, append-nil}
use interest_memory.Store.{Page}
use interest_memory.Wiki.Related.{Queries, collect_related, none_active}
use interest_memory.Wiki.Reconcile.{
  batch_loop, Reconciled, run_batches, dispatch, reconcile_related,
}

-- A batch of at least one page, and at most `n`.
abbrev pub Sized : {A : Type 0} → ℕ → List A → Type 0
Sized n b = (0 < length b) × (length b ≤ n)

drop_all : {A : Type 0} (n : ℕ) (xs : List A) → length xs ≤ n → drop n xs ≡ []
drop_all zero [] h = refl
drop_all zero (x ∷ xs) h = absurd (omega arith)
drop_all (suc n) [] h = refl
drop_all (suc n) (x ∷ xs) h = drop_all n xs (omega arith)

batch_loop-Sized :
    {A : Type 0} (fuel size start : ℕ) (xs : List A)
    → 0 < size
    → length xs - start < fuel
    → (bs : List (List A)) × (batch_loop fuel size start xs ≡ some bs)
      × (flatten bs ≡ drop start xs)
      × All (Sized size) bs
unfolding batch_loop
batch_loop-Sized zero size start xs hs hf = absurd (omega arith)
batch_loop-Sized (suc fuel) size start xs hs hf = elim (Bool-cases (ltb start (length xs))) [
  | inr ended ↦ ([], ground (arith, ended), sym (drop_all start xs (ground arith)), tt)
  | inl more ↦
      let lt = ltb→lt start (length xs) more in
      let (bs, r, parts, sizes) =
        batch_loop-Sized fuel size (start + size) xs hs (omega (arith, lt)) in
      elim (Bool-cases (ltb (length xs) (start + size))) [
        | inl short ↦
            let beyond = ltb→lt (length xs) (start + size) short in
            let (b, cut, e, long) =
              slice_split start (length xs) xs (omega (arith, lt)) (omega arith) in
            (
              b ∷ bs,
              ground (arith, more, short, cut, r),
              ap (◌++◌ b) (
                    parts
                    ∙ drop_all (start + size) xs (omega (arith, beyond))
                    ∙ sym (drop_all (length xs) xs (omega arith)))
                  ∙ e,
              ((omega (arith, long, lt), omega (arith, long, beyond)), sizes),
            )
        | inr full ↦
            let within : start + size ≤ length xs = ground (arith, full) in
            let (b, cut, e, long) = slice_split start (start + size) xs (omega arith) within in
            (
              b ∷ bs,
              ground (arith, more, full, cut, r),
              ap (◌++◌ b) parts ∙ e,
              ((omega (arith, long, hs), omega (arith, long)), sizes),
            )
      ]
]

module _ {F : Type 0} (succeeds : List (Page F) → Bool) where
  -- All pages went to the agent, without an error; or the last batch that did failed, and some were left.
  abbrev pub Outcome : List (Page F) → Reconciled F → Type 0
  Outcome pages r =
      ((r.ok ≡ true) × (flatten r.runs ≡ pages) × All (λ b. succeeds b ≡ true) r.runs)
      ⊎ ((r.ok ≡ false)
          × (done : List (List (Page F))) × (last : List (Page F)) × (left : List (Page F))
          × (r.runs ≡ done ++ last ∷ [])
          × All (λ b. succeeds b ≡ true) done
          × (succeeds last ≡ false)
          × (flatten r.runs ++ left ≡ pages))

  run_batches-Outcome :
      (size : ℕ) (bs : List (List (Page F)))
      → All (Sized size) bs
      → Outcome (flatten bs) (run_batches succeeds bs)
        × All (Sized size) (run_batches succeeds bs).runs
  unfolding run_batches
  run_batches-Outcome size [] a = (inl (refl, refl, tt), tt)
  run_batches-Outcome size (b ∷ bs) a = elim (Bool-cases (succeeds b)) [
    | inr bad ↦ rw bad (
      inr (refl, [], b, flatten bs, refl, tt, bad, ap (λ u. u ++ flatten bs) (append-nil b)),
      (a.0, tt),
    )
    | inl good ↦
        let (outcome, sizes) = run_batches-Outcome size bs a.1 in
        rw good (
          elim outcome [
            | inl (ok, whole, all) ↦ inl (ok, ap (◌++◌ b) whole, (good, all))
            | inr (ok, done, last, left, runs, all, bad, split) ↦ inr (
              ok,
              b ∷ done,
              last,
              left,
              ap (λ u. b ∷ u) runs,
              (good, all),
              bad,
              append_assoc b (flatten (run_batches succeeds bs).runs) left ∙ ap (◌++◌ b) split,
            )
          ],
          (a.0, sizes),
        )
  ]

  -- What comes of the collected pages.
  abbrev pub Dispatched : ℕ → List (Page F) → Option (Reconciled F) → Type 0
  Dispatched size pages result =
      (r : Reconciled F) × (result ≡ some r)
      × All (Sized size) r.runs
      × (((none_active pages ≡ true) × (r.runs ≡ []) × (r.ok ≡ true))
          ⊎ ((none_active pages ≡ false) × Outcome pages r))

  dispatch-Dispatched :
      (size : ℕ) (pages : List (Page F))
      → 0 < size
      → Dispatched size pages (dispatch succeeds size (some pages))
  unfolding dispatch
  dispatch-Dispatched size pages hs = elim (Bool-cases (none_active pages)) [
    | inl idle ↦ (record { runs = []; ok = true }, rw idle refl, tt, inl (idle, refl, refl))
    | inr busy ↦
        let (bs, r, parts, sizes) =
          batch_loop-Sized (suc (length pages)) size 0 pages hs (omega arith) in
        let (outcome, sized) = run_batches-Outcome size bs sizes in
        (
          run_batches succeeds bs,
          rw (busy, r) refl,
          sized,
          inr (busy, subst (λ u. Outcome u (run_batches succeeds bs)) parts outcome),
        )
  ]

  -- With a provider and a change, where the related pages are collected: if none of them is active,
  -- ReconcileRelated ends without a run of the agent. Else it gives them to the agent in order, in batches of
  -- at least one page and at most batch_size (10 where that is not positive): all of them, without
  -- an error, or up to the first batch whose run fails, and then it returns an error. No slice panics.
  pub reconcile_related-Dispatched :
      (st : Queries F) (touched archived : List Text) (max_hops batch_size : ℤ)
      (pages : List (Page F))
      → touched ++ archived ≢ []
      → collect_related st (touched ++ archived) max_hops ≡ some pages
      → Dispatched
          (positive_or 10 batch_size)
          pages
          (reconcile_related succeeds st (some true) touched archived max_hops batch_size)
  unfolding reconcile_related
  reconcile_related-Dispatched st [] [] max_hops batch_size pages some_seed e =
      absurd (some_seed refl)
  reconcile_related-Dispatched st [] (a ∷ archived) max_hops batch_size pages some_seed e =
      subst
        (λ u.
          Dispatched (positive_or 10 batch_size) pages
            (dispatch succeeds (positive_or 10 batch_size) u))
        (sym e)
        (dispatch-Dispatched (positive_or 10 batch_size) pages
          (positive_or-pos 10 batch_size (omega arith)))
  reconcile_related-Dispatched st (t ∷ touched) archived max_hops batch_size pages some_seed e =
      subst
        (λ u.
          Dispatched (positive_or 10 batch_size) pages
            (dispatch succeeds (positive_or 10 batch_size) u))
        (sym e)
        (dispatch-Dispatched (positive_or 10 batch_size) pages
          (positive_or-pos 10 batch_size (omega arith)))
