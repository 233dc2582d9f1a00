-- ===== src/Tests/AnalyzeTests.antt =====
-- Analyze of internal/fork at concrete inputs.
use interest_memory.Prelude.{
  ℕ, ◌≡◌, ◌≤◌, some, List, [], ◌∷◌, ◌++◌, pos, codes, Text, take, get_elem?, map, arith, refl, true,
  false,
}
use interest_memory.Tests.Sample.{whole}
use interest_memory.Fork.Message.{Message}
use interest_memory.Fork.Candidates.{Candidate, render_indices}
use interest_memory.Fork.Analyze.{Analyzer, ForkConfig, new_analyzer, summarize, analyze}
use interest_memory.Fork.Analyze.Turns.{numbered, summarize-render_indices, summarize-take}
use interest_memory.Fork.Analyze.Answered.{Answered, analyze-Answered}

abbrev dialogue : List Message
dialogue =
    record { role = "user"; content = codes " hi " }
    ∷ record { role = "tool"; content = codes "7" }
    ∷ record { role = "assistant"; content = codes "yes" }
    ∷ []

-- Every number is shown as one stroke.
abbrev pub stroke : ℕ → Text
stroke n = codes "I"

summarize-dialogue :
    summarize stroke dialogue false ≡ codes "Turn I [USER]: hi\nTurn I [ASSISTANT]: yes\n"
unfolding summarize interest_memory.Fork.Analyze.summarize_from interest_memory.Prelude.trim_space
summarize-dialogue = refl

summarize-render_indices_example :
    (ms : List Message) × (summarize stroke dialogue true ≡ numbered stroke 1 ms)
    × (map (λ p. get_elem? dialogue p) (render_indices dialogue true) ≡ map (λ m. some m) ms)
summarize-render_indices_example = summarize-render_indices stroke dialogue true

summarize-take_example :
    (rest : Text) × (summarize stroke (take 2 dialogue) false
      ≡ summarize stroke (take 1 dialogue) false ++ rest)
summarize-take_example = summarize-take stroke dialogue false 1 2 (omega arith)

abbrev pub gardens : ℕ → Candidate ℕ
gardens confidence = record {
  topic = codes "Gardens";
  reason = [];
  confidence = confidence;
  tags = [];
  turn_range = record { start = pos 1; stop = pos 2 };
  subjective = true;
  wiki_worthy = some true;
  event_time = 0;
}

abbrev pub two_passes : Analyzer ℕ
two_passes = new_analyzer whole 3 (record {
  prefix_step = pos 1;
  max_windows = pos 2;
  max_candidates = pos 5;
  min_confidence = 0;
  route = "full2";
})

analyze-Answered_example :
    Answered whole
      (λ c. c)
      two_passes.min_confidence
      (analyze whole
        (λ c. c)
        stroke
        (λ excerpt. some (gardens 2 ∷ gardens 4 ∷ []))
        (λ topics excerpt. some (gardens 9 ∷ []))
        two_passes
        (take 1 dialogue ∷ dialogue ∷ []))
analyze-Answered_example =
    analyze-Answered whole (λ c. c) stroke (λ excerpt. some (gardens 2 ∷ gardens 4 ∷ []))
      (λ topics excerpt. some (gardens 9 ∷ [])) (λ excerpt. (gardens 2 ∷ gardens 4 ∷ [], refl))
      (λ topics excerpt. (gardens 9 ∷ [], refl)) two_passes (take 1 dialogue ∷ dialogue ∷ [])
