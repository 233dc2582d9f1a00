-- ===== src/Fork/Analyze/Turns.antt =====
-- The excerpt that summarize of internal/fork/fork.go makes, and the indexes of renderIndices.
use interest_memory.Prelude.{
  ℕ, zero, suc, ◌+◌, ◌≤◌, ◌≡◌, refl, ◌∙◌, ap, sym, Bool, Option, some, List, [], ◌∷◌, ◌++◌, map,
  String, get_elem?, take, take-nil, subst, ◌==◌, string_eq, if◌then◌else◌, arith, Bool-cases, inl,
  inr, Text, codes,
}
use mathlib.Core.List.{append_assoc}
use interest_memory.Fork.Message.{Message}
use interest_memory.Fork.Candidates.{rendered, render_from, render_indices}
use interest_memory.Fork.Analyze.{turn_label, turn_line, next_turn, summarize_from, summarize}

-- The name that the excerpt has for a role that it shows.
abbrev pub speaker : String → Text
speaker role =
    if role == "user"
    then codes "USER"
    else if role == "assistant"
    then codes "ASSISTANT"
    else codes "TOOL"

-- The messages as lines, numbered from `n`.
abbrev pub numbered : (ℕ → Text) → ℕ → List Message → Text
numbered show n [] = []
numbered show n (m ∷ ms) = turn_line show n m (some (speaker m.role)) ++ numbered show (suc n) ms

-- The messages that the prompt shows.
abbrev pub shown_messages : Bool → List Message → List Message
shown_messages include_tool [] = []
shown_messages include_tool (m ∷ ms) =
    let rest = shown_messages include_tool ms in if rendered include_tool m then m ∷ rest else rest

turn_label-rendered :
    (include_tool : Bool) (m : Message)
    → turn_label include_tool m
      ≡ (if rendered include_tool m then some (speaker m.role) else Option.none)
unfolding rendered
turn_label-rendered include_tool m = ground arith

summarize_from-numbered :
    (show : ℕ → Text) (include_tool : Bool) (n : ℕ) (ms : List Message)
    → summarize_from show n ms include_tool ≡ numbered show n (shown_messages include_tool ms)
unfolding summarize_from
summarize_from-numbered show include_tool n [] = refl
summarize_from-numbered show include_tool n (m ∷ ms) = elim (Bool-cases (rendered include_tool m)) [
  | inl shown ↦
      rw (turn_label-rendered include_tool m, shown)
        (ap (λ u. turn_line show n m (some (speaker m.role)) ++ u)
          (summarize_from-numbered show include_tool (suc n) ms))
  | inr hidden ↦
      rw (turn_label-rendered include_tool m, hidden)
        (summarize_from-numbered show include_tool n ms)
]

render_from-messages :
    (whole : List Message) (include_tool : Bool) (i : ℕ) (ms : List Message)
    → ((k : ℕ) → get_elem? whole (i + k) ≡ get_elem? ms k)
    → map (λ p. get_elem? whole p) (render_from i ms include_tool)
      ≡ map (λ m. some m) (shown_messages include_tool ms)
unfolding render_from
render_from-messages whole include_tool i [] at = refl
render_from-messages whole include_tool i (m ∷ ms) at =
    let later : (k : ℕ) → get_elem? whole (suc i + k) ≡ get_elem? ms k =
      λ k. subst (λ j. get_elem? whole j ≡ get_elem? ms k) (omega arith) (at (suc k)) in
    let at_zero : get_elem? whole i ≡ some m =
      subst (λ j. get_elem? whole j ≡ some m) (omega arith) (at zero) in
    let rest = render_from-messages whole include_tool (suc i) ms later in
    elim (Bool-cases (rendered include_tool m)) [
      | inl shown ↦ rw (shown, rest, at_zero)
      | inr hidden ↦ rw hidden rest
    ]

-- The excerpt is, for some messages, a line for each of them, numbered from 1; and they are the
-- messages of the transcript at the indexes of renderIndices, in order: turn `k` of the prompt is
-- the message at the `k`-th index.
pub summarize-render_indices :
    (show : ℕ → Text) (turns : List Message) (include_tool : Bool)
    → (ms : List Message) × (summarize show turns include_tool ≡ numbered show 1 ms)
      × (map (λ p. get_elem? turns p) (render_indices turns include_tool) ≡ map (λ m. some m) ms)
unfolding summarize render_indices
summarize-render_indices show turns include_tool = (
  shown_messages include_tool turns,
  summarize_from-numbered show include_tool 1 turns,
  render_from-messages turns include_tool 0 turns (λ k. ap (get_elem? turns) (omega arith)),
)

summarize_from-append :
    (show : ℕ → Text) (include_tool : Bool) (n : ℕ) (xs ys : List Message)
    → (k : ℕ) × (summarize_from show n (xs ++ ys) include_tool
        ≡ summarize_from show n xs include_tool ++ summarize_from show k ys include_tool)
unfolding summarize_from
summarize_from-append show include_tool n [] ys = (n, refl)
summarize_from-append show include_tool n (m ∷ xs) ys =
    let label = turn_label include_tool m in
    let (k, rest) = summarize_from-append show include_tool (next_turn n label) xs ys in
    (
      k,
      ap (λ u. turn_line show n m label ++ u) rest
          ∙ sym (
              append_assoc (turn_line show n m label)
                (summarize_from show (next_turn n label) xs include_tool) _),
    )

take_longer :
    (turns : List Message) (n m : ℕ)
    → n ≤ m
    → (rest : List Message) × (take m turns ≡ take n turns ++ rest)
take_longer turns zero m h = (take m turns, refl)
take_longer [] (suc n) m h = ([], take-nil m)
take_longer (t ∷ turns) (suc n) zero h = absurd (omega arith)
take_longer (t ∷ turns) (suc n) (suc m) h =
    let (rest, e) = take_longer turns n m (omega arith) in (rest, ap (λ u. t ∷ u) e)

-- The excerpt of a longer prefix of the transcript starts with the excerpt of a shorter one.
pub summarize-take :
    (show : ℕ → Text) (turns : List Message) (include_tool : Bool) (n m : ℕ)
    → n ≤ m
    → (rest : Text) × (summarize show (take m turns) include_tool
        ≡ summarize show (take n turns) include_tool ++ rest)
unfolding summarize
summarize-take show turns include_tool n m h =
    let (more, e) = take_longer turns n m h in
    let (k, r) = summarize_from-append show include_tool 1 (take n turns) more in
    (summarize_from show k more include_tool, rw e r)
