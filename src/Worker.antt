-- ===== src/Worker.antt =====
-- internal/worker/worker.go: the job table, and what becomes of a job. The table is a map from job
-- ids; times are numbers, read from the clock by the caller.
pub mod Terms
pub mod Prune
pub mod Table
pub mod Outcome
pub mod Steps
pub mod Invariant
pub mod Running
use interest_memory.Prelude.{
  ℕ, zero, suc, ◌-◌, Bool, true, false, Option, none, some, List, [], ◌∷◌, ◌++◌, String, string_eq,
  Text, codes, length, lookup, insert, delete, ltb, if◌then◌else◌,
}

pub data Status : Type 0 where
  queued : Status
  running : Status
  done : Status
  failed : Status

pub record Job : Type 0 where
  pub agent_id : String
  pub session_id : String
  pub status : Status
  pub error : Text
  pub created_at : ℕ
  pub done_at : Option ℕ

abbrev pub Jobs : Type 0
Jobs = List (String × Job)

abbrev pub max_jobs : ℕ
max_jobs = 1000

abbrev pub is_terminal : Status → Bool
is_terminal queued = false
is_terminal running = false
is_terminal done = true
is_terminal failed = true

-- `struct { id; at }`
abbrev pub Term : Type 0
Term = String × ℕ

abbrev pub term_of : String → Option ℕ → List Term
term_of id none = []
term_of id (some at) = (id, at) ∷ []

-- The terminal jobs with a time, in the order that the map's iteration gives.
unfoldable pub terms : Jobs → List Term
terms [] = []
terms ((id, j) ∷ jobs) = (if is_terminal j.status then term_of id j.done_at else []) ++ terms jobs

-- sort.Slice by `at`
unfoldable pub place_term : Term → List Term → List Term
place_term t [] = t ∷ []
place_term t (u ∷ ts) = if ltb u.1 t.1 then u ∷ place_term t ts else t ∷ u ∷ ts

unfoldable pub sort_terms : List Term → List Term
sort_terms [] = []
sort_terms (t ∷ ts) = place_term t (sort_terms ts)

-- `for i := 0; i < excess && i < len(terms); i++ { delete(w.jobs, terms[i].id) }`
unfoldable pub drop_terms : ℕ → List Term → Jobs → Jobs
drop_terms zero ts jobs = jobs
drop_terms (suc k) [] jobs = jobs
drop_terms (suc k) (t ∷ ts) jobs = drop_terms k ts (delete t.0 jobs)

-- pruneLocked at a bound, which is maxJobs. A negative `excess` runs no round, as 0.
unfoldable pub prune_to : ℕ → Jobs → Jobs
prune_to bound jobs = drop_terms (length jobs - bound) (sort_terms (terms jobs)) jobs

abbrev pub prune_locked : Jobs → Jobs
prune_locked jobs = prune_to max_jobs jobs

abbrev pub new_job : String → String → ℕ → Job
new_job agent session now = record {
  agent_id = agent;
  session_id = session;
  status = queued;
  error = [];
  created_at = now;
  done_at = none;
}

unfoldable pub prune_over : Jobs → Jobs
prune_over jobs = if ltb max_jobs (length jobs) then prune_locked jobs else jobs

-- The table part of Enqueue.
unfoldable pub add_job : String → String → String → ℕ → Jobs → Jobs
add_job id agent session now jobs = prune_over (insert id (new_job agent session now) jobs)

abbrev pub mark : Job → Status → Text → ℕ → Job
mark j status err now = record j {
  status = status;
  error = err;
  done_at = if is_terminal status then some now else none;
}

abbrev pub set_found : String → Status → Text → ℕ → Jobs → Option Job → Jobs
set_found id status err now jobs none = jobs
set_found id status err now jobs (some j) = insert id (mark j status err now) jobs

unfoldable pub set_status : String → Status → Text → ℕ → Jobs → Jobs
set_status id status err now jobs = set_found id status err now jobs (lookup id jobs)

pub get_job : String → Jobs → Option Job
get_job id jobs = lookup id jobs

-- What GetTranscript returns.
pub data Fetched (T : Type 0) : Type 0 where
  fetch_error : Text → Fetched T
  missing : Fetched T
  fetched : T → Fetched T

-- What `process` sets at its end, and whether it has marked the transcript. The pipeline and
-- MarkTranscriptProcessed are functions that return their errors.
abbrev pub after_mark : Option Text → Status × Text
after_mark (some err) = (failed, codes "mark processed: " ++ err)
after_mark none = (done, [])

abbrev pub after_process : Option Text → Option Text → Status × Text
after_process (some err) marked = (failed, err)
after_process none marked = after_mark marked

pub process_end : {T : Type 0} → Fetched T → (T → Option Text) → Option Text → Status × Text
process_end (fetch_error err) process_session marked = (failed, err)
process_end missing process_session marked = (failed, codes "transcript not found")
process_end (fetched t) process_session marked = after_process (process_session t) marked
