-- ===== src/Worker/Table.antt =====
-- The job table of internal/worker/worker.go after one update.
use interest_memory.Prelude.{
  ℕ, ◌≡◌, Bool, true, false, Option, none, some, String, string_eq, Text, length, lookup, insert,
  DistinctKeys, insert-DistinctKeys, lookup-insert, Bool-cases, Option-cases, inl, inr, ◌⊎◌, arith,
  ltb, ◌==◌, ◌-◌,
}
use interest_memory.Worker.{
  Status, Job, Jobs, is_terminal, mark, set_status, add_job, prune_locked, prune_to, max_jobs,
  prune_over, new_job, sort_terms, terms,
}
use interest_memory.Worker.Prune.{lookup-drop_terms, drop_terms-DistinctKeys}

abbrev pub is_some {ℓ} : {A : Type ℓ} → Option A → Bool
is_some none = false
is_some (some a) = true

-- A job has a completion time exactly if it is terminal.
abbrev pub Stamped : Job → Type 0
Stamped j = is_some j.done_at ≡ is_terminal j.status

pub mark-Stamped : (j : Job) (s : Status) (err : Text) (now : ℕ) → Stamped (mark j s err now)
mark-Stamped j s err now = ground arith

pub lookup-set_status :
    (id k : String) (s : Status) (err : Text) (now : ℕ) (jobs : Jobs) (j : Job)
    → lookup k (set_status id s err now jobs) ≡ some j
    → ((id ≡ k) × (i : Job) × (j ≡ mark i s err now))
      ⊎ ((id == k ≡ false) × (lookup k jobs ≡ some j))
unfolding set_status
lookup-set_status id k s err now jobs j h = elim (Option-cases (lookup id jobs)) [
  | inl absent ↦ inr (ground (arith, absent, h, string_eq.beq_iff id k), rw absent at h)
  | inr (i, there) ↦
      let at : lookup k (insert id (mark i s err now) jobs) ≡ some j = rw there at h in
      let law = lookup-insert id k (mark i s err now) jobs in
      elim (Bool-cases (id == k)) [
        | inl same ↦ inl ((string_eq.beq_iff id k).0 same, i, ground (arith, law, at, same))
        | inr differ ↦ inr (differ, ground (arith, law, at, differ))
      ]
]

pub set_status-DistinctKeys :
    (id : String) (s : Status) (err : Text) (now : ℕ) (jobs : Jobs)
    → DistinctKeys jobs
    → DistinctKeys (set_status id s err now jobs)
unfolding set_status
set_status-DistinctKeys id s err now jobs d = elim (Option-cases (lookup id jobs)) [
  | inl absent ↦ rw absent d
  | inr (i, there) ↦ rw there (insert-DistinctKeys id _ jobs d)
]

lookup-prune_locked :
    (k : String) (jobs : Jobs) (j : Job)
    → lookup k (prune_locked jobs) ≡ some j
    → lookup k jobs ≡ some j
unfolding prune_to
lookup-prune_locked k jobs j h =
    ground (arith, lookup-drop_terms k (length jobs - max_jobs) (sort_terms (terms jobs)) jobs, h)

prune_locked-DistinctKeys : (jobs : Jobs) → DistinctKeys jobs → DistinctKeys (prune_locked jobs)
unfolding prune_to
prune_locked-DistinctKeys jobs d =
    drop_terms-DistinctKeys (length jobs - max_jobs) (sort_terms (terms jobs)) jobs d

-- A job of the table after Enqueue is the new one, which is queued, or was there before.
pub lookup-add_job :
    (id agent session k : String) (now : ℕ) (jobs : Jobs) (j : Job)
    → lookup k (add_job id agent session now jobs) ≡ some j
    → (j ≡ new_job agent session now) ⊎ (lookup k jobs ≡ some j)
unfolding add_job prune_over
lookup-add_job id agent session k now jobs j h =
    let more = insert id (new_job agent session now) jobs in
    let law = lookup-insert id k (new_job agent session now) jobs in
    let at : lookup k more ≡ some j = elim (Bool-cases (ltb max_jobs (length more))) [
      | inl over ↦ lookup-prune_locked k more j (rw over at h)
      | inr under ↦ rw under at h
    ] in
    elim (Bool-cases (id == k)) [
      | inl same ↦ inl (ground (arith, law, at, same))
      | inr differ ↦ inr (ground (arith, law, at, differ))
    ]

pub add_job-DistinctKeys :
    (id agent session : String) (now : ℕ) (jobs : Jobs)
    → DistinctKeys jobs
    → DistinctKeys (add_job id agent session now jobs)
unfolding add_job prune_over
add_job-DistinctKeys id agent session now jobs d =
    let more = insert id (new_job agent session now) jobs in
    let e = insert-DistinctKeys id (new_job agent session now) jobs d in
    elim (Bool-cases (ltb max_jobs (length more))) [
      | inl over ↦ rw over (prune_locked-DistinctKeys more e)
      | inr under ↦ rw under e
    ]
