-- ===== src/Worker/Invariant.antt =====
-- The invariant of the worker of internal/worker/worker.go, and the steps of a caller of Enqueue.
use interest_memory.Prelude.{
  ℕ, ◌≡◌, ◌≢◌, ◌≤◌, ◌<◌, ◌∙◌, sym, refl, ap, subst, none, some, List, [], ◌∷◌, ◌++◌, String,
  string_eq, length, lookup, insert, DistinctKeys, lookup-insert, Bool-cases, Option-cases, inl,
  inr, arith, ◌==◌, length-append,
}
use interest_memory.Worker.{Job, queued, running}
use interest_memory.Worker.Table.{Stamped, lookup-add_job, add_job-DistinctKeys}
use interest_memory.Worker.Steps.{Item, Queue, Worker, capacity, register, admit, send}

-- The loop of `agent` has the job in hand.
abbrev pub InHand : List (String × Queue) → String → String → Type 0
InHand queues id agent =
    (q : Queue) × (it : Item) × (lookup agent queues ≡ some q)
    × (q.current ≡ some it)
    × (it.job_id ≡ id)

-- The table has distinct ids and each job a completion time exactly if it is terminal; a running
-- job is in hand; a channel holds at most 64 items.
pub record Sound (w : Worker) : Type 0 where
  pub distinct : DistinctKeys w.jobs
  pub stamped : (id : String) (j : Job) → lookup id w.jobs ≡ some j → Stamped j
  pub in_hand :
      (id : String) (j : Job)
      → lookup id w.jobs ≡ some j
      → j.status ≡ running
      → (agent : String) × InHand w.queues id agent
  pub bounded :
      (agent : String) (q : Queue) → lookup agent w.queues ≡ some q → length q.buffer ≤ capacity

-- A queue whose update keeps the item in hand keeps the job in hand.
pub InHand-insert :
    (queues : List (String × Queue)) (id a agent : String) (old q : Queue)
    → lookup a queues ≡ some old
    → q.current ≡ old.current
    → InHand queues id agent
    → InHand (insert a q queues) id agent
InHand-insert queues id a agent old q there same (r, it, at, hand, e) =
    elim (Bool-cases (a == agent)) [
      | inr differ ↦ (r, it, ground (arith, lookup-insert a agent q queues, at, differ), hand, e)
      | inl eq ↦ (
        q,
        it,
        ground (arith, lookup-insert a agent q queues, eq),
        same ∙ ground (arith, there, at, (string_eq.beq_iff a agent).0 eq, hand),
        e,
      )
    ]

pub bounded-insert :
    (queues : List (String × Queue)) (a : String) (q : Queue)
    → ((agent : String) (r : Queue) → lookup agent queues ≡ some r → length r.buffer ≤ capacity)
    → length q.buffer ≤ capacity
    → (agent : String) (r : Queue) → lookup agent (insert a q queues) ≡ some r
    → length r.buffer ≤ capacity
bounded-insert queues a q all fits agent r h = elim (Bool-cases (a == agent)) [
  | inl eq ↦
      let e : q ≡ r = ground (arith, lookup-insert a agent q queues, eq, h) in
      subst (λ u. length u.buffer ≤ capacity) e fits
  | inr differ ↦ all agent r (ground (arith, lookup-insert a agent q queues, differ, h))
]

pub enqueue-Sound :
    (w : Worker) (id agent session : String) (now : ℕ)
    → Sound w
    → Sound (register id agent session now w)
enqueue-Sound w id agent session now s = record {
  distinct = add_job-DistinctKeys id agent session now w.jobs s.distinct;
  stamped = λ k j h. elim (lookup-add_job id agent session k now w.jobs j h) [
    | inl e ↦ subst Stamped (sym e) refl
    | inr old ↦ s.stamped k j old
  ];
  in_hand = λ k j h r. elim (lookup-add_job id agent session k now w.jobs j h) [
    | inl e ↦ absurd (queued-running (sym (ap (λ u. u.status) e) ∙ r))
    | inr old ↦ s.in_hand k j old r
  ];
  bounded = s.bounded;
}
  where
    queued-running : queued ≢ running
    queued-running e = cc

pub send-Sound :
    (w : Worker) (it : Item) (q : Queue) (others : List Item)
    → lookup it.agent w.queues ≡ some q
    → length q.buffer < capacity
    → Sound w
    → Sound (send it q others w)
send-Sound w it q others there fits s = record {
  distinct = s.distinct;
  stamped = s.stamped;
  in_hand = λ k j h r.
      let (agent, hand) = s.in_hand k j h r in
      (
        agent,
        InHand-insert w.queues k it.agent agent q (record q { buffer = q.buffer ++ it ∷ [] }) there
            refl hand,
      );
  bounded =
      bounded-insert w.queues it.agent _ s.bounded
        (omega (arith, fits, length-append q.buffer (it ∷ [])));
}

-- A new channel is empty, and takes no other's place.
pub admit-Sound :
    (w : Worker) (it : Item) (others : List Item) → Sound w → Sound (admit it others w)
admit-Sound w it others s = elim (Bool-cases w.closed) [
  | inl shut ↦ rw shut (record {
    distinct = s.distinct;
    stamped = s.stamped;
    in_hand = s.in_hand;
    bounded = s.bounded;
  })
  | inr up ↦ rw up (elim (Option-cases (lookup it.agent w.queues)) [
    | inr (q, there) ↦ rw there (record {
      distinct = s.distinct;
      stamped = s.stamped;
      in_hand = s.in_hand;
      bounded = s.bounded;
    })
    | inl absent ↦ rw absent (record {
      distinct = s.distinct;
      stamped = s.stamped;
      in_hand = λ k j h r.
          let (agent, (q, i, at, hand, e)) = s.in_hand k j h r in
          (
            agent,
            (
              q,
              i,
              ground (
                arith,
                lookup-insert it.agent agent (record { buffer = []; current = none }) w.queues,
                at,
                absent,
                string_eq.beq_iff it.agent agent,
              ),
              hand,
              e,
            ),
          );
      bounded = bounded-insert w.queues it.agent _ s.bounded (omega arith);
    })
  ])
]
