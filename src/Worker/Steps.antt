-- ===== src/Worker/Steps.antt =====
-- The goroutines of internal/worker/worker.go as a step relation: callers of Enqueue, one loop
-- `runAgent` per agent, and Close. A step is what happens under the lock, or one communication.
-- A send that is chosen after Close, on a channel then closed, panics and is no step.
use interest_memory.Prelude.{
  ℕ, ◌≡◌, ◌<◌, Bool, true, false, Option, none, some, List, [], ◌∷◌, ◌++◌, String, string_eq, Text,
  length, lookup, insert, if◌then◌else◌,
}
use interest_memory.Worker.{Status, running, Jobs, add_job, set_status, Fetched, process_end}

-- `jobItem`
pub record Item : Type 0 where
  pub job_id : String
  pub agent : String
  pub session : String

-- The channel of an agent, and the item that its loop has in hand.
pub record Queue : Type 0 where
  pub buffer : List Item
  pub current : Option Item

-- `arriving`: items between the two locks of Enqueue. `sending`: items at the `select`.
pub record Worker : Type 0 where
  pub queues : List (String × Queue)
  pub jobs : Jobs
  pub closed : Bool
  pub arriving : List Item
  pub sending : List Item

unfoldable pub new : Worker
new = record { queues = []; jobs = []; closed = false; arriving = []; sending = [] }

abbrev pub capacity : ℕ
capacity = 64

-- The first lock of Enqueue.
abbrev pub register : String → String → String → ℕ → Worker → Worker
register id agent session now w = record w {
  jobs = add_job id agent session now w.jobs;
  arriving = record { job_id = id; agent = agent; session = session } ∷ w.arriving;
}

abbrev pub open_queue : String → Option Queue → List (String × Queue) → List (String × Queue)
open_queue agent none queues = insert agent (record { buffer = []; current = none }) queues
open_queue agent (some q) queues = queues

-- The lock of enqueueItem: the item is dropped, or has a queue.
abbrev pub admit : Item → List Item → Worker → Worker
admit it others w = if w.closed then record w { arriving = others } else record w {
  arriving = others;
  queues = open_queue it.agent (lookup it.agent w.queues) w.queues;
  sending = it ∷ w.sending;
}

-- `ch <- it`
abbrev pub send : Item → Queue → List Item → Worker → Worker
send it q others w = record w {
  sending = others;
  queues = insert it.agent (record q { buffer = q.buffer ++ it ∷ [] }) w.queues;
}

-- runAgent receives an item, and `process` sets it running.
abbrev pub start : String → Item → List Item → ℕ → Worker → Worker
start agent it rest now w = record w {
  queues = insert agent (record { buffer = rest; current = some it }) w.queues;
  jobs = set_status it.job_id running [] now w.jobs;
}

-- The end of `process`.
abbrev pub finish : String → Item → Queue → Status × Text → ℕ → Worker → Worker
finish agent it q end now w = record w {
  queues = insert agent (record q { current = none }) w.queues;
  jobs = set_status it.job_id end.0 end.1 now w.jobs;
}

abbrev pub close : Worker → Worker
close w = record w { closed = true }

pub data Step : Worker → Worker → Type 1 where
  enqueue :
      (w : Worker) (id agent session : String) (now : ℕ) → Step w (register id agent session now w)
  admitted :
      (w : Worker) (it : Item) (before after : List Item)
      → w.arriving ≡ before ++ it ∷ after
      → Step w (admit it (before ++ after) w)
  sent :
      (w : Worker) (it : Item) (q : Queue) (before after : List Item)
      → w.sending ≡ before ++ it ∷ after
      → w.closed ≡ false
      → lookup it.agent w.queues ≡ some q
      → length q.buffer < capacity
      → Step w (send it q (before ++ after) w)
  dropped :
      (w : Worker) (it : Item) (before after : List Item)
      → w.sending ≡ before ++ it ∷ after
      → w.closed ≡ true
      → Step w (record w { sending = before ++ after })
  started :
      (w : Worker) (agent : String) (it : Item) (rest : List Item) (now : ℕ)
      → lookup agent w.queues ≡ some (record { buffer = it ∷ rest; current = none })
      → Step w (start agent it rest now w)
  finished :
      (w : Worker) (agent : String) (it : Item) (q : Queue) (now : ℕ) (T : Type 0) (tx : Fetched T)
      (process_session : T → Option Text) (marked : Option Text)
      → lookup agent w.queues ≡ some q
      → q.current ≡ some it
      → Step w (finish agent it q (process_end tx process_session marked) now w)
  closing : (w : Worker) → Step w (close w)

pub data Reach : Worker → Type 1 where
  at_start : Reach new
  after : {v w : Worker} → Reach v → Step v w → Reach w
