-- ===== src/Worker/Prune.antt =====
-- What pruneLocked of internal/worker/worker.go evicts.
use interest_memory.Prelude.{
  ℕ, zero, suc, ◌+◌, ◌-◌, ◌≤◌, ◌≡◌, refl, ap, ◌∙◌, min, true, false, none, some, List, [], ◌∷◌,
  String, string_eq, length, lookup, delete, if◌then◌else◌, arith, All, take, DistinctKeys,
  lookup-delete, length-delete, delete-DistinctKeys, inl, inr, ◌⊎◌, beq_refl, All-take,
  length-take-min,
}
use interest_memory.Worker.{Job, Jobs, Term, terms, sort_terms, drop_terms, prune_to, is_terminal}
use interest_memory.Worker.Terms.{
  has_id, Finished, terms-All, terms-Finished, DistinctIds, terms-DistinctIds,
  sort_terms-DistinctIds, All-sort_terms, All-sorted, sort_terms-Rises, Rises-take,
  length-sort_terms,
}

pub lookup-drop_terms :
    (id : String) (k : ℕ) (ts : List Term) (jobs : Jobs)
    → lookup id (drop_terms k ts jobs) ≡ (if has_id id (take k ts) then none else lookup id jobs)
unfolding drop_terms
lookup-drop_terms id zero ts jobs = refl
lookup-drop_terms id (suc k) [] jobs = refl
lookup-drop_terms id (suc k) (t ∷ ts) jobs =
    ground (arith, lookup-drop_terms id k ts (delete t.0 jobs), lookup-delete t.0 id jobs)

pub drop_terms-DistinctKeys :
    (k : ℕ) (ts : List Term) (jobs : Jobs) → DistinctKeys jobs → DistinctKeys (drop_terms k ts jobs)
unfolding drop_terms
drop_terms-DistinctKeys zero ts jobs d = d
drop_terms-DistinctKeys (suc k) [] jobs d = d
drop_terms-DistinctKeys (suc k) (t ∷ ts) jobs d =
    drop_terms-DistinctKeys k ts (delete t.0 jobs) (delete-DistinctKeys t.0 jobs d)

-- A term that is in the table still is when another one is deleted.
Finished-delete :
    (id : String) (ts : List Term) (jobs : Jobs)
    → has_id id ts ≡ false
    → All (Finished jobs) ts
    → All (Finished (delete id jobs)) ts
Finished-delete id [] jobs h f = tt
Finished-delete id (t ∷ ts) jobs h f =
    let (j, found, ended, stamped) = f.0 in
    (
      (
        j,
        ground (arith, lookup-delete id t.0 jobs, found, string_eq.beq_iff id t.0, beq_refl id, h),
        ended,
        stamped,
      ),
      Finished-delete id ts jobs (ground (arith, h)) f.1,
    )

length-drop_terms :
    (k : ℕ) (ts : List Term) (jobs : Jobs)
    → DistinctKeys jobs
    → DistinctIds ts
    → All (Finished jobs) ts
    → length (drop_terms k ts jobs) + length (take k ts) ≡ length jobs
unfolding drop_terms
length-drop_terms zero ts jobs d u f = omega arith
length-drop_terms (suc k) [] jobs d u f = omega arith
length-drop_terms (suc k) (t ∷ ts) jobs d u f =
    let (j, found, _, _) = f.0 in
    let rest =
      length-drop_terms k ts (delete t.0 jobs) (delete-DistinctKeys t.0 jobs d) u.1
        (Finished-delete t.0 ts jobs u.0 f.1) in
    omega (arith, rest, length-delete t.0 j jobs d found)

-- On a table of distinct ids, pruneLocked at any bound evicts the jobs of a list `gone` and no others. These
-- are terminal, and as many as the table is over the bound, or all terminal jobs where they are
-- fewer; and none finished later than a terminal job that stays.
pub prune_to-oldest :
    (bound : ℕ) (jobs : Jobs)
    → DistinctKeys jobs
    → (gone : List Term) × ((id : String)
        → lookup id (prune_to bound jobs) ≡ (if has_id id gone then none else lookup id jobs))
      × All (Finished jobs) gone
      × ((length (prune_to bound jobs) + length gone ≡ length jobs)
          × (length gone ≡ min (length jobs - bound) (length (terms jobs))))
      × ((id : String) (j : Job) (at : ℕ)
          → lookup id (prune_to bound jobs) ≡ some j
          → is_terminal j.status ≡ true
          → j.done_at ≡ some at
          → All (λ g. g.1 ≤ at) gone)
unfolding prune_to
prune_to-oldest bound jobs d =
    let excess = length jobs - bound in
    let ts = sort_terms (terms jobs) in
    let inside = All-sort_terms (Finished jobs) (terms jobs) (terms-Finished jobs d) in
    (
      take excess ts,
      λ id. lookup-drop_terms id excess ts jobs,
      All-take (Finished jobs) excess ts inside,
      (
        length-drop_terms excess ts jobs d
            (sort_terms-DistinctIds (terms jobs) (terms-DistinctIds jobs d)) inside,
        length-take-min excess ts ∙ ap (min excess) (length-sort_terms (terms jobs)),
      ),
      λ id j at found ended stamped.
          let old : has_id id (take excess ts) ≡ false =
            ground (arith, lookup-drop_terms id excess ts jobs, found) in
          elim (terms-All
            (λ t. (has_id t.0 (take excess ts) ≡ true) ⊎ All (λ g. g.1 ≤ t.1) (take excess ts)) jobs
            id j at
            (All-sorted _ (terms jobs) (Rises-take excess ts (sort_terms-Rises (terms jobs))))
            (ground (arith, lookup-drop_terms id excess ts jobs, found, old)) ended stamped) [
              | inl there ↦ absurd (ground (arith, there, old))
              | inr below ↦ below
            ],
    )
