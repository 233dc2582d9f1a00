-- ===== src/Fork/Analyze.antt =====
-- internal/fork/fork.go: NewAnalyzer, summarize, extract, extractAdditional and Analyze. The model is a
-- function of the excerpt, and of the known topics in the second pass, which are what the prompt has
-- besides fixed text. `none` is an error of the model, or a panic. The calls on the windows run in
-- parallel, and their results are used in order.
pub mod Turns
pub mod Answered
use interest_memory.Prelude.{
  ℕ, zero, suc, ◌+◌, ℤ, pos, negsuc, positive_or, String, string_eq, text_eq, Bool, true, false,
  not, ◌||◌, ◌&&◌, Option, none, some, List, [], ◌∷◌, ◌++◌, length, take, last?, Eq, ◌==◌,
  if◌then◌else◌, Text, codes, trim_space, Float,
}
use interest_memory.Fork.Message.{Message}
use interest_memory.Fork.Windows.{◌>>=◌, split_prefix_windows, split_non_prefix_windows}
use interest_memory.Fork.Candidates.{
  Candidate, render_indices, map_turn_range, normalize_topic, dedupe,
}

-- What NewAnalyzer reads of ForkConfig.
pub record ForkConfig (F : Type 0) : Type 0 where
  pub prefix_step : ℤ
  pub max_windows : ℤ
  pub max_candidates : ℤ
  pub min_confidence : F
  pub route : String

-- The fields of Analyzer that its results depend on.
pub record Analyzer (F : Type 0) : Type 0 where
  pub prefix_step : ℤ
  pub max_windows : ℤ
  pub max_candidates : ℤ
  pub min_confidence : F
  pub route : String

-- The label of a message that the excerpt shows.
abbrev pub role_label : Bool → String → Option Text
role_label include_tool role =
    if role == "user"
    then some (codes "USER")
    else if role == "assistant"
    then some (codes "ASSISTANT")
    else if role == "tool" && include_tool
    then some (codes "TOOL")
    else none

abbrev pub turn_label : Bool → Message → Option Text
turn_label include_tool m =
    if trim_space m.content == [] then none else role_label include_tool m.role

-- The line of a message, and the number of the next one; `show` is the verb `%d`.
abbrev pub turn_line : (ℕ → Text) → ℕ → Message → Option Text → Text
turn_line show n m none = []
turn_line show n m (some label) =
    codes "Turn "
    ++ (show n ++ (codes " [" ++ (label ++ (codes "]: " ++ (trim_space m.content ++ codes "\n")))))

abbrev pub next_turn : ℕ → Option Text → ℕ
next_turn n none = n
next_turn n (some label) = suc n

unfoldable pub summarize_from : (ℕ → Text) → ℕ → List Message → Bool → Text
summarize_from show n [] include_tool = []
summarize_from show n (m ∷ ms) include_tool =
    let label = turn_label include_tool m in
    turn_line show n m label ++ summarize_from show (next_turn n label) ms include_tool

unfoldable pub summarize : (ℕ → Text) → List Message → Bool → Text
summarize show turns include_tool = summarize_from show 1 turns include_tool

abbrev pub cap_candidates : {A : Type 0} → ℤ → List A → List A
cap_candidates (pos zero) cands = cands
cap_candidates (pos (suc n)) cands = take (suc n) cands
cap_candidates (negsuc n) cands = cands

-- The topics that the second pass is told not to repeat.
abbrev pub existing_topics : {F : Type 0} → (ℕ → ℕ) → List (Candidate F) → List Text
existing_topics lower [] = []
existing_topics lower (c ∷ cands) =
    let rest = existing_topics lower cands in
    if normalize_topic lower c.topic == [] then rest else normalize_topic lower c.topic ∷ rest

module _ (fl : Float) where
  open fl use {F, le, zero_f}

  -- The first number is the default of the confidence, 0.3.
  unfoldable pub new_analyzer : F → ForkConfig F → Analyzer F
  new_analyzer default_confidence cfg = record {
    prefix_step = pos (positive_or 5 cfg.prefix_step);
    max_windows = pos (positive_or 8 cfg.max_windows);
    max_candidates = cfg.max_candidates;
    min_confidence =
        if le cfg.min_confidence zero_f then default_confidence else cfg.min_confidence;
    route = if cfg.route == "" then "prefix" else cfg.route;
  }

  -- The filter of the confident candidates, with their ranges mapped.
  unfoldable pub filter_confident : F → List ℕ → List (Candidate F) → Option (List (Candidate F))
  filter_confident min idx [] = some []
  filter_confident min idx (c ∷ cands) = do
    rest ← filter_confident min idx cands
    (if le min c.confidence then (do c' ← map_turn_range c idx; some (c' ∷ rest)) else some rest)

  abbrev pub keep_answer :
      Analyzer F → List ℕ → Option (List (Candidate F)) → Option (List (Candidate F))
  keep_answer a idx answer = do
    cands ← answer
    filtered ← filter_confident a.min_confidence idx cands
    some (cap_candidates a.max_candidates filtered)

module _ (fl : Float) (lower : ℕ → ℕ) (show : ℕ → Text)
    (chat : Text → Option (List (Candidate fl.F)))
    (chat_more : List Text → Text → Option (List (Candidate fl.F))) where
  open fl use {F}

  -- An excerpt without a line needs no call.
  abbrev pub ask :
      Analyzer F → List ℕ → Text → Option (List (Candidate F)) → Option (List (Candidate F))
  ask a idx [] answer = some []
  ask a idx (c ∷ snapshot) answer = keep_answer fl a idx answer

  unfoldable pub extract : Analyzer F → List Message → Option (List (Candidate F))
  extract a turns =
      let include_tool = a.route == "prefix" in
      let snapshot = summarize show turns include_tool in
      ask a (render_indices turns include_tool) snapshot (chat snapshot)

  unfoldable pub extract_additional :
      Analyzer F → List Message → List (Candidate F) → Option (List (Candidate F))
  extract_additional a turns first =
      let snapshot = summarize show turns false in
      ask a (render_indices turns false) snapshot (chat_more (existing_topics lower first) snapshot)

  -- The results of the windows, joined in order.
  unfoldable pub extract_all : Analyzer F → List (List Message) → Option (List (Candidate F))
  extract_all a [] = some []
  extract_all a (w ∷ windows) = do
    cands ← extract a w
    rest ← extract_all a windows
    some (cands ++ rest)

  unfoldable pub analyze_windows : Analyzer F → List (List Message) → Option (List (Candidate F))
  analyze_windows a windows = do out ← extract_all a windows; some (dedupe fl lower out)

  -- Analyze on the turns of the last window.
  unfoldable pub analyze_turns : Analyzer F → List Message → Option (List (Candidate F))
  analyze_turns a turns =
      if a.route == "full"
      then (do first ← extract a turns; some (dedupe fl lower first))
      else if a.route == "full2"
      then (do
        first ← extract a turns
        added ← extract_additional a turns first
        some (dedupe fl lower (first ++ added)))
      else if a.route == "non_prefix"
      then (do
        ws ← split_non_prefix_windows turns a.prefix_step a.max_windows
        analyze_windows a ws)
      else (do ws ← split_prefix_windows turns a.prefix_step a.max_windows; analyze_windows a ws)

  abbrev pub analyze_last : Analyzer F → Option (List Message) → Option (List (Candidate F))
  analyze_last a none = some []
  analyze_last a (some turns) = analyze_turns a turns

  unfoldable pub analyze : Analyzer F → List (List Message) → Option (List (Candidate F))
  analyze a windows = analyze_last a (last? windows)
