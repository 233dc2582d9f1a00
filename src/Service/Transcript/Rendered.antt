-- ===== src/Service/Transcript/Rendered.antt =====
-- The messages of ToMessages of internal/transcript/transcript.go in the prompt of internal/fork/fork.go.
use interest_memory.Prelude.{
  ℕ, zero, suc, ◌≡◌, refl, sym, ap, ◌∙◌, Bool, true, false, not, ◌||◌, Option, some, List, [], ◌∷◌,
  ◌++◌, reverse, string_eq, text_eq, nat_eq, ◌==◌, Text, is_space, trim_left, trim_space, to_lower,
  length, All, arith, Bool-cases, Option-cases, inl, inr,
}
use mathlib.Core.List.{reverse-cons}
use interest_memory.Fork.Message.{Message}
use interest_memory.Fork.Candidates.{rendered, render_from, render_indices}
use interest_memory.Service.Transcript.{
  Roles, RawTurn, AgentMessage, role_of, messages_of, to_messages, llm_role, to_llm_messages,
}

-- The text has a character that is no space.
abbrev inked : Text → Bool
inked [] = false
inked (c ∷ s) = not (is_space c) || inked s

inked-append : (s t : Text) → inked (s ++ t) ≡ (inked s || inked t)
inked-append [] t = refl
inked-append (c ∷ s) t = ground (arith, inked-append s t)

inked-reverse : (s : Text) → inked (reverse s) ≡ inked s
inked-reverse [] = refl
inked-reverse (c ∷ s) =
    ap inked (reverse-cons c s)
    ∙ inked-append (reverse s) (c ∷ [])
    ∙ ground (arith, inked-reverse s)

inked-trim_left : (s : Text) → inked (trim_left s) ≡ inked s
unfolding trim_left
inked-trim_left [] = refl
inked-trim_left (c ∷ s) = ground (arith, inked-trim_left s)

inked-trim_space : (s : Text) → inked (trim_space s) ≡ inked s
unfolding trim_space
inked-trim_space s =
    inked-reverse (trim_left (reverse (trim_left s)))
    ∙ inked-trim_left (reverse (trim_left s))
    ∙ inked-reverse (trim_left s)
    ∙ inked-trim_left s

trim_left-empty : (s : Text) → (trim_left s == []) ≡ not (inked s)
unfolding trim_left
trim_left-empty [] = refl
trim_left-empty (c ∷ s) = ground (arith, trim_left-empty s)

append_empty : (s : Text) (c : ℕ) → (s ++ c ∷ [] == []) ≡ false
append_empty [] c = refl
append_empty (d ∷ s) c = refl

reverse_empty : (s : Text) → (reverse s == []) ≡ (s == [])
reverse_empty [] = refl
reverse_empty (c ∷ s) = ap (λ u. u == []) (reverse-cons c s) ∙ append_empty (reverse s) c

trim_space-empty : (s : Text) → (trim_space s == []) ≡ not (inked s)
unfolding trim_space
trim_space-empty s =
    reverse_empty (trim_left (reverse (trim_left s)))
    ∙ trim_left-empty (reverse (trim_left s))
    ∙ ap not (inked-reverse (trim_left s) ∙ inked-trim_left s)

-- A text that was trimmed is blank only if it is empty.
trim_space-trim_space : (s : Text) → (trim_space (trim_space s) == []) ≡ (trim_space s == [])
trim_space-trim_space s =
    trim_space-empty (trim_space s) ∙ ap not (inked-trim_space s) ∙ sym (trim_space-empty s)

abbrev pub upto : ℕ → ℕ → List ℕ
upto i zero = []
upto i (suc n) = i ∷ upto (suc i) n

render_from-upto :
    (i : ℕ) (ms : List Message)
    → All (λ m. rendered true m ≡ true) ms
    → render_from i ms true ≡ upto i (length ms)
unfolding render_from
render_from-upto i [] a = refl
render_from-upto i (m ∷ ms) a = rw (a.0, render_from-upto (suc i) ms a.1)

module _ (roles : Roles) (lower : ℕ → ℕ) (parse : Text → Option (List RawTurn)) where
  open roles use {Role, role_eq, role_assistant, role_tool_result}

  llm_role-rendered :
      (role : Role) (content : Text)
      → (trim_space content == []) ≡ false
      → rendered true (record { role = llm_role roles lower parse role; content = content }) ≡ true
  unfolding rendered
  llm_role-rendered role content h = elim (Bool-cases (role_eq.beq role role_assistant)) [
    | inl assistant ↦ rw (assistant, h) refl
    | inr other ↦ elim (Bool-cases (role_eq.beq role role_tool_result)) [
      | inl tool ↦ rw (other, tool, h) refl
      | inr user ↦ rw (other, user, h) refl
    ]
  ]

  abbrev pub AllRendered : List (AgentMessage Role) → Type 0
  AllRendered msgs = All (λ m. rendered true m ≡ true) (to_llm_messages roles lower parse msgs)

  messages_of-AllRendered :
      (turns : List RawTurn) → AllRendered (messages_of roles lower parse turns)
  unfolding messages_of to_llm_messages
  messages_of-AllRendered [] = tt
  messages_of-AllRendered (t ∷ turns) = elim (Bool-cases (trim_space t.content == [])) [
    | inl blank ↦ rw blank (messages_of-AllRendered turns)
    | inr text ↦ elim (Option-cases (role_of roles lower parse (to_lower lower t.role))) [
      | inl unknown ↦ rw (text, unknown) (messages_of-AllRendered turns)
      | inr (role, known) ↦
          rw (text, known)
            (
              llm_role-rendered role (trim_space t.content)
                  (trim_space-trim_space t.content ∙ text),
              messages_of-AllRendered turns,
            )
    ]
  ]

  length-to_llm_messages :
      (msgs : List (AgentMessage Role))
      → length (to_llm_messages roles lower parse msgs) ≡ length msgs
  unfolding to_llm_messages
  length-to_llm_messages [] = refl
  length-to_llm_messages (m ∷ msgs) = ap suc (length-to_llm_messages msgs)

  -- Where the decoder reads the transcript, ToMessages gives messages that the prompt with the tool
  -- results shows, all of them: its turn `k` is the `k`-th message.
  pub to_messages-rendered :
      (raw : Text) (turns : List RawTurn)
      → parse raw ≡ some turns
      → (msgs : List (AgentMessage Role)) × (to_messages roles lower parse raw ≡ some msgs)
        × AllRendered msgs
        × (render_indices (to_llm_messages roles lower parse msgs) true ≡ upto 0 (length msgs))
  unfolding to_messages render_indices to_llm_messages render_from
  to_messages-rendered raw turns parsed = elim (Bool-cases (trim_space raw == [])) [
    | inl blank ↦ ([], rw blank refl, tt, refl)
    | inr text ↦ (
      messages_of roles lower parse turns,
      rw (text, parsed),
      messages_of-AllRendered turns,
      render_from-upto 0 (to_llm_messages roles lower parse (messages_of roles lower parse turns))
            (messages_of-AllRendered turns)
          ∙ ap (upto 0) (length-to_llm_messages (messages_of roles lower parse turns)),
    )
  ]
