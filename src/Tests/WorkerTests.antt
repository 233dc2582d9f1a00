-- ===== src/Tests/WorkerTests.antt =====
-- internal/worker on a session of one agent, and on a table of three jobs.
use interest_memory.Prelude.{
  ℕ, ◌≡◌, ◌↔◌, ◌≤◌, ◌+◌, ◌-◌, min, refl, true, Option, none, some, List, [], ◌∷◌, String, string_eq,
  Text, length, lookup, if◌then◌else◌, All, arith,
}
use interest_memory.Worker.{
  Job, Jobs, Term, done, running, is_terminal, prune_to, terms, sort_terms, place_term, drop_terms,
  Fetched, fetched, process_end,
}
use interest_memory.Worker.Terms.{has_id, Finished}
use interest_memory.Worker.Prune.{prune_to-oldest}
use interest_memory.Worker.Table.{is_some}
use interest_memory.Worker.Outcome.{process_end-done}
use interest_memory.Worker.Steps.{
  Worker, Item, Queue, Reach, at_start, after, new, enqueue, admitted, sent, started, register,
  admit, send, start,
}
use interest_memory.Worker.Invariant.{Sound, InHand}
use interest_memory.Worker.Running.{Reach-serial}

abbrev job : Text → Option ℕ → Job
job err at = record {
  agent_id = "ada";
  session_id = "s";
  status = if is_some at then done else running;
  error = err;
  created_at = 0;
  done_at = at;
}

abbrev table : Jobs
table = ("a", job [] (some 5)) ∷ ("b", job [] none) ∷ ("c", job [] (some 3)) ∷ []

-- The job that finished first goes.
prune-run : prune_to 2 table ≡ ("a", job [] (some 5)) ∷ ("b", job [] none) ∷ []
unfolding prune_to terms sort_terms place_term drop_terms
prune-run = refl

prune_to-oldest_example :
    (gone : List Term) × ((id : String)
      → lookup id (prune_to 2 table) ≡ (if has_id id gone then none else lookup id table))
    × All (Finished table) gone
    × ((length (prune_to 2 table) + length gone ≡ length table)
        × (length gone ≡ min (length table - 2) (length (terms table))))
    × ((id : String) (j : Job) (at : ℕ)
        → lookup id (prune_to 2 table) ≡ some j
        → is_terminal j.status ≡ true
        → j.done_at ≡ some at
        → All (λ g. g.1 ≤ at) gone)
prune_to-oldest_example = prune_to-oldest 2 table (refl, (refl, (refl, tt)))

abbrev read : Fetched ℕ
read = fetched 7

abbrev no_error : Option Text
no_error = none

abbrev succeeds : ℕ → Option Text
succeeds t = none

process_end-done_example :
    (is_terminal (process_end read succeeds no_error).0 ≡ true)
    × (((process_end read succeeds no_error).0 ≡ done)
        ↔ ((t : ℕ) × (read ≡ fetched t) × (succeeds t ≡ none) × (no_error ≡ none)))
process_end-done_example = process_end-done read succeeds no_error

abbrev item : Item
item = record { job_id = "j"; agent = "ada"; session = "s" }

abbrev registered : Worker
registered = register "j" "ada" "s" 1 new

abbrev idle : Queue
idle = record { buffer = []; current = none }

abbrev waiting : Worker
waiting = send item idle [] (admit item [] registered)

abbrev busy : Worker
busy = start "ada" item [] 2 waiting

busy-Reach : Reach busy
unfolding new
busy-Reach =
    after
      (after
        (after (after at_start (enqueue new "j" "ada" "s" 1)) (admitted registered item [] [] refl))
        (sent (admit item [] registered) item idle [] [] refl refl refl (omega arith)))
      (started waiting "ada" item [] 2 refl)

Reach-serial_example :
    Sound busy
    × ((agent id k : String) → InHand busy.queues id agent → InHand busy.queues k agent → id ≡ k)
Reach-serial_example = Reach-serial busy busy-Reach
