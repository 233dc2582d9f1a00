-- ===== src/Fork/Windows.antt =====
-- internal/fork/fork.go, SplitWindows, SplitPrefixWindows, SplitNonPrefixWindows and sameWindow.
-- `none` is a panic of an index or a slice, or fuel that ran out.
pub mod Prefixes
pub mod Segments
use interest_memory.Prelude.{
  ℕ, zero, suc, ◌+◌, ◌-◌, String, Bool, true, false, Option, none, some, List, [], ◌∷◌, ◌++◌, ℤ,
  pos, negsuc, positive_or, length, get_elem?, take, drop, last?, slice, Eq, ◌==◌, string_eq,
  list_beq, ltb, leb, if◌then◌else◌,
}
use interest_memory.Fork.Message.{Message, message_eq}

infixl 5 ◌>>=◌
abbrev pub ◌>>=◌ {ℓ κ} : {A : Type ℓ} {B : Type κ} → Option A → (A → Option B) → Option B
none >>= f = none
some a >>= f = f a

-- The loop of SplitWindows over `i`, while `i < len(turns)`.
unfoldable pub turn_loop :
    ℕ → List Message → ℕ → ℕ → List (List Message) → Option (List (List Message))
turn_loop zero turns step i out = none
turn_loop (suc fuel) turns step i out = elim (ltb i (length turns)) [
  | false ↦ some out
  | true ↦ do
    let end = if ltb (length turns) (i + step) then length turns else i + step
    w ← slice i end turns
    turn_loop fuel turns step (i + step) (out ++ w ∷ [])
]

pub split_windows : List Message → ℤ → Option (List (List Message))
split_windows turns window_turns =
    turn_loop (suc (length turns)) turns (positive_or 10 window_turns) 0 []

-- The indexes of the user messages, counted from `i`.
unfoldable pub user_positions : ℕ → List Message → List ℕ
user_positions i [] = []
user_positions i (m ∷ ms) =
    let rest = user_positions (suc i) ms in if m.role == "user" then i ∷ rest else rest

pub same_window : List Message → List Message → Bool
same_window = list_beq

-- `len(out) == 0 || !sameWindow(out[len(out)-1], w)`, and the append.
abbrev append_unless :
    List (List Message) → List Message → Option (List Message) → List (List Message)
append_unless out w none = out ++ w ∷ []
append_unless out w (some v) = if same_window v w then out else out ++ w ∷ []

unfoldable pub append_new : List (List Message) → List Message → List (List Message)
append_new out w = append_unless out w (last? out)

-- `maxWindows > 0 && len(out) > maxWindows`: the last windows stay.
abbrev over : ℕ → ℤ → Bool
over n (pos zero) = false
over n (pos (suc m)) = ltb (suc m) n
over n (negsuc m) = false

unfoldable pub cap_windows : ℤ → List (List Message) → List (List Message)
cap_windows max out =
    if over (length out) max then drop (length out - positive_or 0 max) out else out

-- The loop over `k`, `step` at a time, while `k <= len(pos)`.
unfoldable pub prefix_loop :
    ℕ → List Message → List ℕ → ℕ → ℕ → List (List Message) → Option (List (List Message))
prefix_loop zero turns positions step k out = none
prefix_loop (suc fuel) turns positions step k out = elim (leb k (length positions)) [
  | false ↦ some out
  | true ↦ do
    p ← get_elem? positions (k - 1)
    w ← slice 0 (p + 1) turns
    prefix_loop fuel turns positions step (k + step) (append_new out w)
]

unfoldable pub split_prefix_windows : List Message → ℤ → ℤ → Option (List (List Message))
split_prefix_windows [] user_step max_windows = some []
split_prefix_windows (m ∷ ms) user_step max_windows =
    let turns = m ∷ ms in
    let step = positive_or 5 user_step in
    let positions = user_positions 0 turns in
    if ltb (length positions) step then some (turns ∷ []) else (do
      out ← prefix_loop (suc (length positions)) turns positions step step []
      some (cap_windows max_windows (append_new out turns)))

-- The loop of SplitNonPrefixWindows: the windows, and where the next one starts.
unfoldable pub segment_loop :
    ℕ → List Message → List ℕ → ℕ → ℕ → ℕ → List (List Message) → Option (List (List Message) × ℕ)
segment_loop zero turns positions step k start out = none
segment_loop (suc fuel) turns positions step k start out = elim (leb k (length positions)) [
  | false ↦ some (out, start)
  | true ↦ do
    p ← get_elem? positions (k - 1)
    w ← slice start (p + 1) turns
    segment_loop fuel turns positions step (k + step) (p + 1) (out ++ w ∷ [])
]

-- The turns after the last boundary.
abbrev trailing : List Message → List (List Message) → ℕ → List (List Message)
trailing turns out start = if ltb start (length turns) then out ++ drop start turns ∷ [] else out

pub split_non_prefix_windows : List Message → ℤ → ℤ → Option (List (List Message))
split_non_prefix_windows [] user_step max_windows = some []
split_non_prefix_windows (m ∷ ms) user_step max_windows = do
  let turns = m ∷ ms
  let step = positive_or 5 user_step
  let positions = user_positions 0 turns
  (out, start) ← segment_loop (suc (length positions)) turns positions step step 0 []
  some (cap_windows max_windows (trailing turns out start))
