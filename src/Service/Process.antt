-- ===== src/Service/Process.antt =====
-- internal/service/service.go: ProcessSession and setCandidateEventTime. The stages are the interface
-- that the service calls; an error of a stage is `none` or false, and an error of ProcessSession is the
-- prefix of its message. The calls that write are recorded in order.
pub mod Order
pub mod Forked
pub mod Full
use interest_memory.Prelude.{
  ℕ, ℤ, String, string_eq, Bool, true, false, not, ◌||◌, ◌&&◌, Option, none, some, List, [], ◌∷◌,
  ◌==◌, if◌then◌else◌, Text,
}
use interest_memory.Fork.Message.{Message}
use interest_memory.Fork.Windows.{split_prefix_windows}
use interest_memory.Fork.Candidates.{Candidate}
use interest_memory.Store.{InterestPoint}
use interest_memory.Interest.Merge.{Point}
use interest_memory.Interest.Cluster.{ClusterResult}
use interest_memory.Interest.Persist.{FinalPoint, Adjudication}
use interest_memory.Service.Transcript.{AgentMessage}

-- What ProcessSession calls, for one agent and the thresholds of one configuration. The two functions
-- on transcripts are those of Service.Transcript.
pub record Stages (F R : Type 0) : Type 0 where
  pub to_messages : Text → Option (List (AgentMessage R))
  pub to_llm_messages : List (AgentMessage R) → List Message
  pub analyze : List (List Message) → Option (List (Candidate F))
  pub dedupe_merge : List (Candidate F) → Option (List (Point F))
  pub cluster : List (Point F) → Option (ClusterResult F)
  pub adjudicate : ClusterResult F → Option (Adjudication F)
  pub persist : Adjudication F → Bool
  pub compile : List (InterestPoint F) → List (AgentMessage R) → Option (List Text)
  pub rebuild_edges : List Text → Bool
  pub reconcile_related : List Text → List Text → Bool

-- The configuration, and whether the embedder, the model and the index are set.
pub record Setup : Type 0 where
  pub prefix_step : ℤ
  pub max_windows : ℤ
  pub wiki_enabled : Bool
  pub backends : Bool

-- The fields of store.Transcript that are read.
pub record Transcript : Type 0 where
  pub raw_turns : Text
  pub session_date : Option ℕ
  pub received_at : ℕ

pub data Event (F R : Type 0) : Type 0 where
  called_persist : Adjudication F → Event F R
  called_compile : List (InterestPoint F) → List (AgentMessage R) → Event F R
  called_rebuild : List Text → Event F R
  called_reconcile : List Text → List Text → Event F R

pub record Run (F R : Type 0) : Type 0 where
  pub calls : List (Event F R)
  pub failed : Option String

abbrev pub or_received : Option ℕ → ℕ → ℕ
or_received none received_at = received_at
or_received (some date) received_at = date

abbrev pub is_empty : {A : Type 0} → List A → Bool
is_empty [] = true
is_empty (x ∷ xs) = false

module _ {F : Type 0} where
  unfoldable pub set_candidate_event_time : List (Candidate F) → Option ℕ → ℕ → List (Candidate F)
  set_candidate_event_time [] session_date received_at = []
  set_candidate_event_time (c ∷ cands) session_date received_at =
      record c { event_time = or_received session_date received_at }
      ∷ set_candidate_event_time cands session_date received_at

  -- The points that are given to the wiki.
  abbrev pub final_pts : List (FinalPoint F) → List (InterestPoint F)
  final_pts [] = []
  final_pts (fp ∷ fps) =
      if fp.action == "create" || fp.action == "update"
      then fp.point ∷ final_pts fps
      else final_pts fps

  abbrev pub archived_ids : List (InterestPoint F) → List Text
  archived_ids [] = []
  archived_ids (p ∷ ps) = p.id ∷ archived_ids ps

  -- Nothing for the wiki: the two checks after Persist.
  abbrev pub nothing_to_write : Adjudication F → Bool
  nothing_to_write adj =
      (is_empty adj.final_points && is_empty adj.archived)
      || (is_empty (final_pts adj.final_points) && is_empty (archived_ids adj.archived))

module _ {F R : Type 0} where
  abbrev pub quiet : Run F R
  quiet = record { calls = []; failed = none }

  abbrev pub failing : String → Run F R
  failing stage = record { calls = []; failed = some stage }

  -- The call, and then the rest.
  abbrev pub then_run : Event F R → Run F R → Run F R
  then_run e run = record { calls = e ∷ run.calls; failed = run.failed }

  module _ (st : Stages F R) (setup : Setup) where
    abbrev pub reconcile_stage : List Text → List Text → Run F R
    reconcile_stage touched ids =
        then_run (called_reconcile touched ids)
          (if st.reconcile_related touched ids then quiet else failing "reconcile")

    abbrev pub rebuild_stage : List Text → List Text → Run F R
    rebuild_stage touched ids =
        then_run (called_rebuild touched) (
          if st.rebuild_edges touched then reconcile_stage touched ids else failing "rebuild edges")

    abbrev pub compiled : List Text → Option (List Text) → Run F R
    compiled ids none = failing "wiki compile"
    compiled ids (some touched) = rebuild_stage touched ids

    abbrev pub compile_stage : List (AgentMessage R) → Adjudication F → Run F R
    compile_stage msgs adj =
        then_run (called_compile (final_pts adj.final_points) msgs)
          (compiled (archived_ids adj.archived) (st.compile (final_pts adj.final_points) msgs))

    -- From Persist on.
    abbrev pub persist_stage : List (AgentMessage R) → Adjudication F → Run F R
    persist_stage msgs adj = then_run (called_persist adj) (
        if st.persist adj
        then (if nothing_to_write adj || not setup.wiki_enabled
            then quiet
            else compile_stage msgs adj)
        else failing "persist")

    abbrev pub adjudicated : List (AgentMessage R) → Option (Adjudication F) → Run F R
    adjudicated msgs none = failing "adjudicate"
    adjudicated msgs (some adj) = persist_stage msgs adj

    abbrev pub clustered : List (AgentMessage R) → Option (ClusterResult F) → Run F R
    clustered msgs none = failing "cluster"
    clustered msgs (some res) = adjudicated msgs (st.adjudicate res)

    abbrev pub merged : List (AgentMessage R) → Option (List (Point F)) → Run F R
    merged msgs none = failing "dedupe-merge"
    merged msgs (some []) = quiet
    merged msgs (some (p ∷ pts)) = clustered msgs (st.cluster (p ∷ pts))

    -- From the candidates on, which have their event time.
    abbrev pub analyzed : List (AgentMessage R) → Transcript → Option (List (Candidate F)) → Run F R
    analyzed msgs t none = failing "fork"
    analyzed msgs t (some []) = quiet
    analyzed msgs t (some (c ∷ cands)) =
        if setup.backends
        then merged msgs
            (st.dedupe_merge (set_candidate_event_time (c ∷ cands) t.session_date t.received_at))
        else quiet

    -- `none` is a panic of SplitPrefixWindows, which it never has.
    abbrev pub on_windows : Option (List (List Message)) → Option (List (Candidate F))
    on_windows none = none
    on_windows (some windows) = st.analyze windows

    abbrev pub fork_stage : List (AgentMessage R) → Option (List (Candidate F))
    fork_stage msgs =
        on_windows
          (split_prefix_windows (st.to_llm_messages msgs) setup.prefix_step setup.max_windows)

    abbrev pub parsed : Transcript → Option (List (AgentMessage R)) → Run F R
    parsed t none = failing "transcript parse"
    parsed t (some []) = quiet
    parsed t (some (m ∷ msgs)) = analyzed (m ∷ msgs) t (fork_stage (m ∷ msgs))

    unfoldable pub process_session : Transcript → Run F R
    process_session t = parsed t (st.to_messages t.raw_turns)
