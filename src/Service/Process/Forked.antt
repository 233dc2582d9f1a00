-- ===== src/Service/Process/Forked.antt =====
-- The candidates of a session of internal/service/service.go, with the analyzer of internal/fork/fork.go.
use interest_memory.Prelude.{
  ℕ, ◌≡◌, ap, ◌∙◌, Option, some, List, ◌∷◌, last?, Text, Float, length, take_of_length-le, arith,
}
use interest_memory.Fork.Message.{Message}
use interest_memory.Fork.Windows.Prefixes.{prefixes, last?-prefixes, split_prefix_windows-chain}
use interest_memory.Fork.Candidates.{Candidate}
use interest_memory.Fork.Analyze.{Analyzer, analyze_turns, analyze}
use interest_memory.Service.Transcript.{
  Roles, RawTurn, AgentMessage, to_messages, llm_role, to_llm_messages,
}
use interest_memory.Service.Process.{Stages, Setup, on_windows, fork_stage}

module _ (fl : Float) (lower : ℕ → ℕ) (show : ℕ → Text)
    (chat : Text → Option (List (Candidate fl.F)))
    (chat_more : List Text → Text → Option (List (Candidate fl.F))) (roles : Roles)
    (parse : Text → Option (List RawTurn)) where
  open fl use {F}
  open roles use {Role}

  -- The stages with the functions of internal/transcript and internal/fork.
  abbrev pub forked : Analyzer F → Stages F Role → Stages F Role
  forked a st = record st {
    to_messages = to_messages roles lower parse;
    to_llm_messages = to_llm_messages roles lower parse;
    analyze = analyze fl lower show chat chat_more a;
  }

  analyze_prefixes :
      (a : Analyzer F) (turns : List Message) (ns : List ℕ)
      → last? ns ≡ some (length turns)
      → analyze fl lower show chat chat_more a (prefixes turns ns)
        ≡ analyze_turns fl lower show chat chat_more a turns
  unfolding analyze
  analyze_prefixes a turns ns whole =
      rw (last?-prefixes turns ns, whole, take_of_length-le (length turns) turns (omega arith))

  -- The candidates of a session with messages are those that Analyze finds in the whole
  -- transcript on the route of its configuration: what ProcessSession cuts it into plays no part.
  pub fork_stage-analyze_turns :
      (a : Analyzer F) (st : Stages F Role) (setup : Setup) (m : AgentMessage Role)
      (msgs : List (AgentMessage Role))
      → fork_stage (forked a st) setup (m ∷ msgs)
        ≡ analyze_turns fl lower show chat chat_more a
            (to_llm_messages roles lower parse (m ∷ msgs))
  unfolding to_llm_messages
  fork_stage-analyze_turns a st setup m msgs =
      let (ns, e, _, whole, _) =
        split_prefix_windows-chain
          (record { role = llm_role roles lower parse m.role; content = m.text })
          (to_llm_messages roles lower parse msgs) setup.prefix_step setup.max_windows in
      ap (on_windows (forked a st) setup) e
      ∙ analyze_prefixes a (to_llm_messages roles lower parse (m ∷ msgs)) ns whole
