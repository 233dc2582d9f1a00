-- ===== src/Fork/Analyze/Answered.antt =====
-- Analyze of internal/fork/fork.go where the model answers every call.
use interest_memory.Prelude.{
  ℕ, ℤ, pos, negsuc, zero, suc, ◌≡◌, refl, Bool, true, false, Option, some, List, [], ◌∷◌, ◌++◌,
  last?, ◌==◌, string_eq, nat_eq, list_beq, Bool-cases, Option-cases, inl, inr, Text, Float, All,
  All-append, All-take,
}
use interest_memory.Fork.Message.{Message}
use interest_memory.Fork.Windows.{split_prefix_windows}
use interest_memory.Fork.Windows.Prefixes.{split_prefix_windows-chain}
use interest_memory.Fork.Windows.Segments.{split_non_prefix_windows-cut}
use interest_memory.Fork.Candidates.{
  Candidate, map_turn_range, render_indices, normalize_topic, merge_into, place, dedupe_step,
  dedupe_loop, dedupe,
}
use interest_memory.Fork.Candidates.Ranges.{map_turn_range-total}
use interest_memory.Fork.Candidates.Dedupe.{DistinctTopics}
use interest_memory.Fork.Candidates.Topics.{dedupe-DistinctTopics}
use interest_memory.Fork.Analyze.{
  Analyzer, cap_candidates, existing_topics, filter_confident, keep_answer, summarize, ask, extract,
  extract_additional, extract_all, analyze_windows, analyze_turns, analyze,
}

module _ (fl : Float) where
  open fl use {F, le}

  -- The confidence reaches the threshold.
  abbrev pub Confident : F → Candidate F → Type 0
  Confident min c = le min c.confidence ≡ true

  map_turn_range-confidence :
      (c : Candidate F) (turns : List Message) (include_tool : Bool)
      → (c' : Candidate F) × (map_turn_range c (render_indices turns include_tool) ≡ some c')
        × (c'.confidence ≡ c.confidence)
  map_turn_range-confidence c turns include_tool =
      elim (map_turn_range-total c turns include_tool) [
        | inl (_, e) ↦ (c, e, refl)
        | inr (a, b, e, _, _, _) ↦
            (record c { turn_range = record { start = pos a; stop = pos b } }, e, refl)
      ]

  filter_confident-Confident :
      (min : F) (turns : List Message) (include_tool : Bool) (cands : List (Candidate F))
      → (out : List (Candidate F)) × (filter_confident fl min
            (render_indices turns include_tool)
            cands
          ≡ some out)
        × All (Confident min) out
  unfolding filter_confident
  filter_confident-Confident min turns include_tool [] = ([], refl, tt)
  filter_confident-Confident min turns include_tool (c ∷ cands) =
      let (out, e, a) = filter_confident-Confident min turns include_tool cands in
      let (c', e', same) = map_turn_range-confidence c turns include_tool in
      elim (Bool-cases (le min c.confidence)) [
        | inl high ↦ (c' ∷ out, rw (e, high, e'), (rw same high, a))
        | inr low ↦ (out, rw (e, low), a)
      ]

  cap-All :
      (P : Candidate F → Type 0) (max : ℤ) (cands : List (Candidate F))
      → All P cands
      → All P (cap_candidates max cands)
  cap-All P (pos zero) cands a = a
  cap-All P (pos (suc n)) cands a = All-take P (suc n) cands a
  cap-All P (negsuc n) cands a = a

  -- The candidates of a call that the model answers are confident ones.
  abbrev Kept : F → Option (List (Candidate F)) → Type 0
  Kept min r = (out : List (Candidate F)) × (r ≡ some out) × All (Confident min) out

  keep_answer-Kept :
      (a : Analyzer F) (turns : List Message) (include_tool : Bool)
      (answer : Option (List (Candidate F))) (cands : List (Candidate F))
      → answer ≡ some cands
      → Kept a.min_confidence (keep_answer fl a (render_indices turns include_tool) answer)
  keep_answer-Kept a turns include_tool answer cands answered =
      let (out, e, high) = filter_confident-Confident a.min_confidence turns include_tool cands in
      (cap_candidates a.max_candidates out, rw (answered, e), cap-All _ a.max_candidates out high)

module _ (fl : Float) (lower : ℕ → ℕ) where
  open fl use {F, lt, le}

  merge_into-Confident :
      (min : F) (m c : Candidate F)
      → Confident fl min m
      → Confident fl min c
      → Confident fl min (merge_into fl lower m c)
  unfolding merge_into
  merge_into-Confident min m c hm hc = elim (Bool-cases (lt m.confidence c.confidence)) [
    | inl better ↦ rw better hc
    | inr worse ↦ rw worse hm
  ]

  place-Confident :
      (min : F) (key : Text) (c : Candidate F) (out : List (Candidate F))
      → Confident fl min c
      → All (Confident fl min) out
      → All (Confident fl min) (place fl lower key c out)
  unfolding place
  place-Confident min key c [] hc a = (hc, tt)
  place-Confident min key c (m ∷ out) hc a =
      elim (Bool-cases (list_beq (normalize_topic lower m.topic) key)) [
        | inl same ↦ rw same (merge_into-Confident min m c a.0 hc, a.1)
        | inr differs ↦ rw differs (a.0, place-Confident min key c out hc a.1)
      ]

  loop-Confident :
      (min : F) (cands out : List (Candidate F))
      → All (Confident fl min) cands
      → All (Confident fl min) out
      → All (Confident fl min) (dedupe_loop fl lower out cands)
  unfolding dedupe_loop dedupe_step
  loop-Confident min [] out h a = a
  loop-Confident min (c ∷ cands) out h a = loop-Confident min cands _ h.1 step
    where
      step : All (Confident fl min) (dedupe_step fl lower out c)
      step = elim (Bool-cases (list_beq (normalize_topic lower c.topic) [])) [
        | inl empty ↦ rw empty (All-append (Confident fl min) out (c ∷ []) a (h.0, tt))
        | inr full ↦ rw full (place-Confident min _ c out h.0 a)
      ]

  dedupe-Confident :
      (min : F) (cands : List (Candidate F))
      → All (Confident fl min) cands
      → All (Confident fl min) (dedupe fl lower cands)
  unfolding dedupe
  dedupe-Confident min cands h = loop-Confident min cands [] h tt

  -- Confident candidates with different topics.
  abbrev pub Answered : F → Option (List (Candidate F)) → Type 0
  Answered min r =
      (out : List (Candidate F)) × (r ≡ some out)
      × All (Confident fl min) out
      × DistinctTopics fl lower out

  dedupe-Answered :
      (min : F) (cands : List (Candidate F))
      → All (Confident fl min) cands
      → Answered min (some (dedupe fl lower cands))
  dedupe-Answered min cands h = (
    dedupe fl lower cands,
    refl,
    dedupe-Confident min cands h,
    (dedupe-DistinctTopics fl lower cands).0,
  )

module _ (fl : Float) (lower : ℕ → ℕ) (show : ℕ → Text)
    (chat : Text → Option (List (Candidate fl.F)))
    (chat_more : List Text → Text → Option (List (Candidate fl.F)))
    (answers : (excerpt : Text) → (cands : List (Candidate fl.F)) × (chat excerpt ≡ some cands))
    (answers_more : (topics : List Text) (excerpt : Text)
      → (cands : List (Candidate fl.F)) × (chat_more topics excerpt ≡ some cands)) where
  open fl use {F}

  ask-Kept :
      (a : Analyzer F) (turns : List Message) (include_tool : Bool) (snapshot : Text)
      (answer : Option (List (Candidate F))) (cands : List (Candidate F))
      → answer ≡ some cands
      → Kept fl a.min_confidence
          (ask fl lower show chat chat_more a (render_indices turns include_tool) snapshot answer)
  ask-Kept a turns include_tool [] answer cands answered = ([], refl, tt)
  ask-Kept a turns include_tool (c ∷ snapshot) answer cands answered =
      keep_answer-Kept fl a turns include_tool answer cands answered

  extract-Kept :
      (a : Analyzer F) (turns : List Message)
      → Kept fl a.min_confidence (extract fl lower show chat chat_more a turns)
  unfolding extract
  extract-Kept a turns =
      let include_tool = a.route == "prefix" in
      let snapshot = summarize show turns include_tool in
      let (cands, answered) = answers snapshot in
      ask-Kept a turns include_tool snapshot (chat snapshot) cands answered

  extract_additional-Kept :
      (a : Analyzer F) (turns : List Message) (first : List (Candidate F))
      → Kept fl a.min_confidence (extract_additional fl lower show chat chat_more a turns first)
  unfolding extract_additional
  extract_additional-Kept a turns first =
      let snapshot = summarize show turns false in
      let (cands, answered) = answers_more (existing_topics lower first) snapshot in
      ask-Kept a turns false snapshot (chat_more (existing_topics lower first) snapshot) cands
        answered

  extract_all-Kept :
      (a : Analyzer F) (windows : List (List Message))
      → Kept fl a.min_confidence (extract_all fl lower show chat chat_more a windows)
  unfolding extract_all
  extract_all-Kept a [] = ([], refl, tt)
  extract_all-Kept a (w ∷ windows) =
      let (cands, e, h) = extract-Kept a w in
      let (rest, e', h') = extract_all-Kept a windows in
      (cands ++ rest, rw (e, e'), All-append _ cands rest h h')

  analyze_windows-Answered :
      (a : Analyzer F) (windows : List (List Message))
      → Answered fl lower a.min_confidence (analyze_windows fl lower show chat chat_more a windows)
  unfolding analyze_windows
  analyze_windows-Answered a windows =
      let (cands, e, h) = extract_all-Kept a windows in
      rw e (dedupe-Answered fl lower a.min_confidence cands h)

  prefix_windows-some :
      (turns : List Message) (step max : ℤ)
      → (ws : List (List Message)) × (split_prefix_windows turns step max ≡ some ws)
  unfolding split_prefix_windows
  prefix_windows-some [] step max = ([], refl)
  prefix_windows-some (m ∷ ms) step max =
      let (ns, e, _, _, _) = split_prefix_windows-chain m ms step max in (_, e)

  pub analyze_turns-Answered :
      (a : Analyzer F) (turns : List Message)
      → Answered fl lower a.min_confidence (analyze_turns fl lower show chat chat_more a turns)
  unfolding analyze_turns
  analyze_turns-Answered a turns = elim (Bool-cases (a.route == "full")) [
    | inl full ↦
        let (cands, e, h) = extract-Kept a turns in
        rw (full, e) (dedupe-Answered fl lower a.min_confidence cands h)
    | inr not_full ↦ elim (Bool-cases (a.route == "full2")) [
      | inl full2 ↦
          let (first, e, h) = extract-Kept a turns in
          let (added, e', h') = extract_additional-Kept a turns first in
          rw (not_full, full2, e, e')
            (dedupe-Answered fl lower a.min_confidence (first ++ added)
              (All-append _ first added h h'))
      | inr not_full2 ↦ elim (Bool-cases (a.route == "non_prefix")) [
        | inl apart ↦
            let (_, ws, e, _, _, _, _) =
              split_non_prefix_windows-cut turns a.prefix_step a.max_windows in
            rw (not_full, not_full2, apart, e) (analyze_windows-Answered a ws)
        | inr prefix ↦
            let (ws, e) = prefix_windows-some turns a.prefix_step a.max_windows in
            rw (not_full, not_full2, prefix, e) (analyze_windows-Answered a ws)
      ]
    ]
  ]

  -- Where the model answers every call, Analyze gives a result on every route and for whatever windows:
  -- no index or slice panics. All its candidates reach the threshold of the confidence, also where
  -- candidates were merged, and no two have the same topic, up to case and spaces, unless that is empty.
  pub analyze-Answered :
      (a : Analyzer F) (windows : List (List Message))
      → Answered fl lower a.min_confidence (analyze fl lower show chat chat_more a windows)
  unfolding analyze
  analyze-Answered a windows = elim (Option-cases (last? windows)) [
    | inl empty ↦ rw empty ([], refl, tt, tt)
    | inr (turns, last) ↦ rw last (analyze_turns-Answered a turns)
  ]
