-- ===== src/Worker/Running.antt =====
-- The steps of the loops of internal/worker/worker.go, and the states that steps reach.
use interest_memory.Prelude.{
  ℕ, ◌≡◌, ◌≢◌, ◌∙◌, sym, refl, ap, subst, true, none, some, List, [], ◌∷◌, ◌++◌, String, string_eq,
  Text, lookup, lookup-insert, Bool-cases, inl, inr, arith, ◌==◌, beq_refl,
}
use interest_memory.Worker.{Status, running, is_terminal, process_end}
use interest_memory.Worker.Table.{Stamped, mark-Stamped, lookup-set_status, set_status-DistinctKeys}
use interest_memory.Worker.Outcome.{process_end-done}
use interest_memory.Worker.Steps.{
  Item, Queue, Worker, new, start, finish, Step, enqueue, admitted, sent, dropped, started,
  finished, closing, Reach, at_start, after,
}
use interest_memory.Worker.Invariant.{
  InHand, Sound, bounded-insert, enqueue-Sound, send-Sound, admit-Sound,
}

-- A job that the update sets running is in hand, and the others stay.
start-Sound :
    (w : Worker) (agent : String) (it : Item) (rest : List Item) (now : ℕ)
    → lookup agent w.queues ≡ some (record { buffer = it ∷ rest; current = none })
    → Sound w
    → Sound (start agent it rest now w)
start-Sound w agent it rest now there s = record {
  distinct = set_status-DistinctKeys it.job_id running [] now w.jobs s.distinct;
  stamped = λ k j h. elim (lookup-set_status it.job_id k running [] now w.jobs j h) [
    | inl (_, i, e) ↦ subst Stamped (sym e) (mark-Stamped i running [] now)
    | inr (_, old) ↦ s.stamped k j old
  ];
  in_hand = λ k j h r. elim (lookup-set_status it.job_id k running [] now w.jobs j h) [
    | inl (same, _, _) ↦ (
      agent,
      (
        taken,
        it,
        ground (arith, lookup-insert agent agent taken w.queues, beq_refl agent),
        refl,
        same,
      ),
    )
    | inr (_, old) ↦
        let (a, (q, i, at, hand, e)) = s.in_hand k j old r in
        (
          a,
          (
            q,
            i,
            ground (
              arith,
              lookup-insert agent a taken w.queues,
              at,
              there,
              hand,
              string_eq.beq_iff agent a,
            ),
            hand,
            e,
          ),
        )
  ];
  bounded =
      bounded-insert w.queues agent taken s.bounded
        (let b = s.bounded agent _ there in omega (arith, b));
}
  where
    taken : Queue
    taken = record { buffer = rest; current = some it }

-- A job that ends was the one in hand, and no other job loses its loop.
finish-Sound :
    (w : Worker) (agent : String) (it : Item) (q : Queue) (end : Status × Text) (now : ℕ)
    → lookup agent w.queues ≡ some q
    → q.current ≡ some it
    → is_terminal end.0 ≡ true
    → Sound w
    → Sound (finish agent it q end now w)
finish-Sound w agent it q end now there hand ended s = record {
  distinct = set_status-DistinctKeys it.job_id end.0 end.1 now w.jobs s.distinct;
  stamped = λ k j h. elim (lookup-set_status it.job_id k end.0 end.1 now w.jobs j h) [
    | inl (_, i, e) ↦ subst Stamped (sym e) (mark-Stamped i end.0 end.1 now)
    | inr (_, old) ↦ s.stamped k j old
  ];
  in_hand = λ k j h r. elim (lookup-set_status it.job_id k end.0 end.1 now w.jobs j h) [
    | inl (_, i, e) ↦ absurd (not_running end.0 ended (ap (λ u. u.status) (sym e) ∙ r))
    | inr (differ, old) ↦
        let (a, (p, i, at, held, e)) = s.in_hand k j old r in
        (
          a,
          (
            p,
            i,
            elim (Bool-cases (agent == a)) [
              | inr other ↦
                  ground
                    (arith, lookup-insert agent a (record q { current = none }) w.queues, other, at)
              | inl own ↦
                  let same : some it ≡ some i =
                    ground (arith, there, at, hand, held, (string_eq.beq_iff agent a).0 own) in
                  let same_item : it ≡ i = ground (arith, same) in
                  absurd (
                    ground (
                      arith,
                      differ,
                      (string_eq.beq_iff it.job_id k).1 (ap (λ u. u.job_id) same_item ∙ e),
                    ))
            ],
            held,
            e,
          ),
        )
  ];
  bounded = bounded-insert w.queues agent _ s.bounded (s.bounded agent q there);
}
  where
    not_running : (s : Status) → is_terminal s ≡ true → s ≢ running
    not_running s h e = ground (arith, h, e)

Step-Sound : {v w : Worker} → Step v w → Sound v → Sound w
Step-Sound (enqueue w id agent session now) s = enqueue-Sound w id agent session now s
Step-Sound (admitted w it b a _) s = admit-Sound w it (b ++ a) s
Step-Sound (sent w it q b a _ _ there fits) s = send-Sound w it q (b ++ a) there fits s
Step-Sound (dropped w it b a _ _) s = record {
  distinct = s.distinct;
  stamped = s.stamped;
  in_hand = s.in_hand;
  bounded = s.bounded;
}
Step-Sound (started w agent it rest now there) s = start-Sound w agent it rest now there s
Step-Sound (finished w agent it q now T tx p m there hand) s =
    finish-Sound w agent it q (process_end tx p m) now there hand (process_end-done tx p m).0 s
Step-Sound (closing w) s = record {
  distinct = s.distinct;
  stamped = s.stamped;
  in_hand = s.in_hand;
  bounded = s.bounded;
}

Reach-Sound : {w : Worker} → Reach w → Sound w
unfolding new
Reach-Sound at_start = record {
  distinct = tt;
  stamped = λ id j h. absurd (ground arith);
  in_hand = λ id j h r. absurd (ground arith);
  bounded = λ agent q h. absurd (ground arith);
}
Reach-Sound (after r step) = Step-Sound step (Reach-Sound r)

-- In each state of the worker that steps reach: the ids of the table are distinct, a job has a
-- completion time exactly if it is done or failed, a channel holds at most 64 items, each running
-- job is the one that the loop of some agent has in hand, and two running jobs of one agent's loop
-- are the same job.
pub Reach-serial :
    (w : Worker)
    → Reach w
    → Sound w
      × ((agent id k : String) → InHand w.queues id agent → InHand w.queues k agent → id ≡ k)
Reach-serial w r = (
  Reach-Sound r,
  λ agent id k h i.
      let (q, x, at, hand, e) = h in
      let (q', y, at', hand', e') = i in
      let same : q ≡ q' = ground (arith, at, at') in
      let same_item : x ≡ y = ground (arith, same, hand, hand') in
      sym e ∙ ap (λ u. u.job_id) same_item ∙ e',
)
