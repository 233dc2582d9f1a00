-- ===== src/Service/Process/Order.antt =====
-- The order of the calls of ProcessSession of internal/service/service.go, as a state machine.
use interest_memory.Prelude.{
  ◌≡◌, refl, ◌≢◌, ◌⊎◌, inl, inr, Bool, true, false, not, Option, none, some, List, [], ◌∷◌, String,
  if◌then◌else◌, Text, Bool-cases, Option-cases,
}
use interest_memory.Interest.Persist.{Adjudication}
use interest_memory.Service.Transcript.{AgentMessage}
use interest_memory.Fork.Candidates.{Candidate}
use interest_memory.Interest.Merge.{Point}
use interest_memory.Interest.Cluster.{ClusterResult}
use interest_memory.Service.Process.{
  Stages, Setup, Transcript, Event, called_persist, called_compile, called_rebuild,
  called_reconcile, Run, final_pts, archived_ids, nothing_to_write, set_candidate_event_time, quiet,
  reconcile_stage, rebuild_stage, compile_stage, persist_stage, adjudicated, clustered, merged,
  analyzed, fork_stage, parsed, process_session,
}

-- How far a session has come: what is persisted, and which pages were written for it.
pub data Progress (F : Type 0) : Type 0 where
  unsaved : Progress F
  persisted : Adjudication F → Progress F
  written : Adjudication F → List Text → Progress F
  linked : Adjudication F → List Text → Progress F
  reconciled : Adjudication F → List Text → Progress F
  broken : Progress F

-- What a call may do, where `made` is what there is to persist. The wiki gets the final points of what was persisted, and the later calls get
-- the pages that it wrote, and the ids of the points that were archived.
pub data Next {F R : Type 0} (st : Stages F R) (made : Option (Adjudication F))
    : Progress F → Event F R → Progress F → Type 0 where
  saves :
      (adj : Adjudication F)
      → made ≡ some adj
      → st.persist adj ≡ true
      → Next st made unsaved (called_persist adj) (persisted adj)
  save_fails :
      (adj : Adjudication F)
      → made ≡ some adj
      → st.persist adj ≡ false
      → Next st made unsaved (called_persist adj) broken
  writes :
      (adj : Adjudication F) (msgs : List (AgentMessage R)) (touched : List Text)
      → nothing_to_write adj ≡ false
      → st.compile (final_pts adj.final_points) msgs ≡ some touched
      → Next st made
          (persisted adj)
          (called_compile (final_pts adj.final_points) msgs)
          (written adj touched)
  write_fails :
      (adj : Adjudication F) (msgs : List (AgentMessage R))
      → st.compile (final_pts adj.final_points) msgs ≡ none
      → Next st made (persisted adj) (called_compile (final_pts adj.final_points) msgs) broken
  links :
      (adj : Adjudication F) (touched : List Text)
      → st.rebuild_edges touched ≡ true
      → Next st made (written adj touched) (called_rebuild touched) (linked adj touched)
  link_fails :
      (adj : Adjudication F) (touched : List Text)
      → st.rebuild_edges touched ≡ false
      → Next st made (written adj touched) (called_rebuild touched) broken
  reconciles :
      (adj : Adjudication F) (touched : List Text)
      → st.reconcile_related touched (archived_ids adj.archived) ≡ true
      → Next st made
          (linked adj touched)
          (called_reconcile touched (archived_ids adj.archived))
          (reconciled adj touched)
  reconcile_fails :
      (adj : Adjudication F) (touched : List Text)
      → st.reconcile_related touched (archived_ids adj.archived) ≡ false
      → Next st made
          (linked adj touched)
          (called_reconcile touched (archived_ids adj.archived))
          broken

pub data Steps {F R : Type 0} (st : Stages F R) (made : Option (Adjudication F))
    : Progress F → List (Event F R) → Progress F → Type 0 where
  ends : (s : Progress F) → Steps st made s [] s
  then_step :
      {s t u : Progress F} {e : Event F R} {es : List (Event F R)}
      → Next st made s e t
      → Steps st made t es u
      → Steps st made s (e ∷ es) u

module _ {F R : Type 0} (st : Stages F R) (setup : Setup) where
  -- What the stages before Persist make of a session, stage by stage, if each of them has a result
  -- that is not empty.
  abbrev pub of_clusters : Option (ClusterResult F) → Option (Adjudication F)
  of_clusters none = none
  of_clusters (some res) = st.adjudicate res

  abbrev pub of_points : Option (List (Point F)) → Option (Adjudication F)
  of_points none = none
  of_points (some []) = none
  of_points (some (p ∷ pts)) = of_clusters (st.cluster (p ∷ pts))

  abbrev pub of_candidates : Transcript → Option (List (Candidate F)) → Option (Adjudication F)
  of_candidates t none = none
  of_candidates t (some []) = none
  of_candidates t (some (c ∷ cands)) =
      if setup.backends
      then of_points
          (st.dedupe_merge (set_candidate_event_time (c ∷ cands) t.session_date t.received_at))
      else none

  abbrev pub of_messages : Transcript → Option (List (AgentMessage R)) → Option (Adjudication F)
  of_messages t none = none
  of_messages t (some []) = none
  of_messages t (some (m ∷ msgs)) = of_candidates t (fork_stage st setup (m ∷ msgs))

module _ {F R : Type 0} (st : Stages F R) (setup : Setup) (made : Option (Adjudication F)) where
  -- Where a session may stop, and with which error.
  abbrev pub Stops : Progress F → Option String → Type 0
  Stops unsaved failed = made ≡ none
  Stops (persisted adj) failed =
      (failed ≡ none) × ((nothing_to_write adj ≡ true) ⊎ (setup.wiki_enabled ≡ false))
  Stops (written adj touched) failed = ⊥
  Stops (linked adj touched) failed = ⊥
  Stops (reconciled adj touched) failed = (failed ≡ none) × (setup.wiki_enabled ≡ true)
  Stops broken failed = failed ≢ none

  abbrev pub Course : Progress F → Run F R → Type 0
  Course s run = (t : Progress F) × Steps st made s run.calls t × Stops t run.failed

  some_error : (stage : String) → some stage ≢ none
  some_error stage e = cc

  reconcile_stage-Course :
      (adj : Adjudication F) (touched : List Text)
      → setup.wiki_enabled ≡ true
      → Course (linked adj touched) (reconcile_stage st setup touched (archived_ids adj.archived))
  reconcile_stage-Course adj touched on =
      elim (Bool-cases (st.reconcile_related touched (archived_ids adj.archived))) [
        | inl ok ↦
            rw ok
              (reconciled adj touched, then_step (reconciles adj touched ok) (ends _), (refl, on))
        | inr bad ↦
            rw bad
              (broken, then_step (reconcile_fails adj touched bad) (ends _), some_error "reconcile")
      ]

  rebuild_stage-Course :
      (adj : Adjudication F) (touched : List Text)
      → setup.wiki_enabled ≡ true
      → Course (written adj touched) (rebuild_stage st setup touched (archived_ids adj.archived))
  rebuild_stage-Course adj touched on = elim (Bool-cases (st.rebuild_edges touched)) [
    | inl ok ↦
        let (t, steps, stops) = reconcile_stage-Course adj touched on in
        rw ok (t, then_step (links adj touched ok) steps, stops)
    | inr bad ↦
        rw bad (broken, then_step (link_fails adj touched bad) (ends _), some_error "rebuild edges")
  ]

  compile_stage-Course :
      (adj : Adjudication F) (msgs : List (AgentMessage R))
      → nothing_to_write adj ≡ false
      → setup.wiki_enabled ≡ true
      → Course (persisted adj) (compile_stage st setup msgs adj)
  compile_stage-Course adj msgs some_work on =
      elim (Option-cases (st.compile (final_pts adj.final_points) msgs)) [
        | inl bad ↦
            rw bad
              (broken, then_step (write_fails adj msgs bad) (ends _), some_error "wiki compile")
        | inr (touched, ok) ↦
            let (t, steps, stops) = rebuild_stage-Course adj touched on in
            rw ok (t, then_step (writes adj msgs touched some_work ok) steps, stops)
      ]

  wiki_stage-Course :
      (adj : Adjudication F) (msgs : List (AgentMessage R))
      → nothing_to_write adj ≡ false
      → (enabled : Bool) → setup.wiki_enabled ≡ enabled
      → Course (persisted adj) (if not enabled then quiet else compile_stage st setup msgs adj)
  wiki_stage-Course adj msgs busy true on = compile_stage-Course adj msgs busy on
  wiki_stage-Course adj msgs busy false off = (persisted adj, ends _, (refl, inr off))

  persist_stage-Course :
      (msgs : List (AgentMessage R)) (adj : Adjudication F)
      → made ≡ some adj
      → Course unsaved (persist_stage st setup msgs adj)
  persist_stage-Course msgs adj is = elim (Bool-cases (st.persist adj)) [
    | inr bad ↦ rw bad (broken, then_step (save_fails adj is bad) (ends _), some_error "persist")
    | inl ok ↦ elim (Bool-cases (nothing_to_write adj)) [
      | inl idle ↦
          rw (ok, idle) (persisted adj, then_step (saves adj is ok) (ends _), (refl, inl idle))
      | inr busy ↦
          let (t, steps, stops) = wiki_stage-Course adj msgs busy setup.wiki_enabled refl in
          rw (ok, busy) (t, then_step (saves adj is ok) steps, stops)
    ]
  ]

module _ {F R : Type 0} (st : Stages F R) (setup : Setup) where
  -- A run that ends before Persist makes no call that writes.
  abbrev still :
      (failed : Option String)
      → Course st setup none unsaved (record { calls = []; failed = failed })
  still failed = (unsaved, ends _, refl)

  adjudicated-Course :
      (msgs : List (AgentMessage R)) (adj : Option (Adjudication F))
      → Course st setup adj unsaved (adjudicated st setup msgs adj)
  adjudicated-Course msgs none = still _
  adjudicated-Course msgs (some adj) = persist_stage-Course st setup (some adj) msgs adj refl

  clustered-Course :
      (msgs : List (AgentMessage R)) (res : Option (ClusterResult F))
      → Course st setup (of_clusters st setup res) unsaved (clustered st setup msgs res)
  clustered-Course msgs none = still _
  clustered-Course msgs (some res) = adjudicated-Course msgs (st.adjudicate res)

  merged-Course :
      (msgs : List (AgentMessage R)) (pts : Option (List (Point F)))
      → Course st setup (of_points st setup pts) unsaved (merged st setup msgs pts)
  merged-Course msgs none = still _
  merged-Course msgs (some []) = still _
  merged-Course msgs (some (p ∷ pts)) = clustered-Course msgs (st.cluster (p ∷ pts))

  analyzed-Course :
      (msgs : List (AgentMessage R)) (t : Transcript) (cands : Option (List (Candidate F)))
      → Course st setup (of_candidates st setup t cands) unsaved (analyzed st setup msgs t cands)
  analyzed-Course msgs t none = still _
  analyzed-Course msgs t (some []) = still _
  analyzed-Course msgs t (some (c ∷ cands)) =
      let pts =
        st.dedupe_merge (set_candidate_event_time (c ∷ cands) t.session_date t.received_at) in
      elim setup.backends
        as (λ b.
          Course st setup (if b then of_points st setup pts else none) unsaved
            (if b then merged st setup msgs pts else quiet)) [
              | true ↦ merged-Course msgs pts
              | false ↦ still none
            ]

  parsed-Course :
      (t : Transcript) (msgs : Option (List (AgentMessage R)))
      → Course st setup (of_messages st setup t msgs) unsaved (parsed st setup t msgs)
  parsed-Course t none = still _
  parsed-Course t (some []) = still _
  parsed-Course t (some (m ∷ msgs)) = analyzed-Course (m ∷ msgs) t (fork_stage st setup (m ∷ msgs))

  -- ProcessSession persists what the stages before make of a session: the adjudication of the clusters
  -- of the merged candidates, which have their event time. Where a stage fails or has nothing, it
  -- makes no call that writes. Then its calls go forward only, each after the ones before it succeeded:
  -- Compile with the final points of what was persisted, where there are any points and the wiki is
  -- enabled, RebuildEdges for the pages that Compile returned, and ReconcileRelated for those pages and
  -- the ids of the archived points. A call that fails is the last one, and the session returns an
  -- error. Else it ends without one, and only after Persist, where there is nothing to write or
  -- the wiki is disabled, or after ReconcileRelated.
  pub process_session-Course :
      (t : Transcript)
      → Course st setup
          (of_messages st setup t (st.to_messages t.raw_turns))
          unsaved
          (process_session st setup t)
  unfolding process_session
  process_session-Course t = parsed-Course t (st.to_messages t.raw_turns)
