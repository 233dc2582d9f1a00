-- ===== src/Fork/Windows/Segments.antt =====
-- The windows of SplitWindows and SplitNonPrefixWindows of internal/fork/fork.go as pieces.
use interest_memory.Prelude.{
  Growing, Growing-get, Growing-lt, ℕ, zero, suc, ◌+◌, ◌-◌, ◌≤◌, ◌<◌, ◌≡◌, refl, ◌∙◌, ap, sym,
  subst, ◌⊎◌, inl, inr, some, List, [], ◌∷◌, ◌++◌, ℤ, pos, negsuc, positive_or, positive_or-pos,
  length, get_elem?, take, drop, ltb, leb, if◌then◌else◌, arith, Bool-cases, leb→le, ltb→lt, All,
  All-append, flatten, flatten-append, slice_split, take-append-drop, length-drop,
}
use mathlib.Core.List.{append_assoc, append-nil}
use interest_memory.Fork.Message.{Message}
use interest_memory.Fork.Windows.{
  user_positions, turn_loop, split_windows, segment_loop, trailing, cap_windows,
  split_non_prefix_windows,
}
use interest_memory.Fork.Windows.Prefixes.{user_positions-Growing, WithinCap}

-- A window of at least one turn, and at most `n`.
abbrev pub Sized : ℕ → List Message → Type 0
Sized n w = (0 < length w) × (length w ≤ n)

-- One more window of a cut transcript.
cut_step :
    (turns : List Message) (out : List (List Message)) (w : List Message) (lo hi : ℕ)
    → flatten out ++ drop lo turns ≡ turns
    → w ++ drop hi turns ≡ drop lo turns
    → flatten (out ++ w ∷ []) ++ drop hi turns ≡ turns
cut_step turns out w lo hi q e =
    ap (λ u. u ++ drop hi turns)
      (flatten-append out (w ∷ []) ∙ ap (◌++◌ (flatten out)) (append-nil w))
    ∙ append_assoc (flatten out) w (drop hi turns)
    ∙ ap (◌++◌ (flatten out)) e
    ∙ q

drop_all : (n : ℕ) (xs : List Message) → length xs ≤ n → drop n xs ≡ []
drop_all zero [] h = refl
drop_all zero (x ∷ xs) h = absurd (omega arith)
drop_all (suc n) [] h = refl
drop_all (suc n) (x ∷ xs) h = drop_all n xs (omega arith)

-- The end of the window that starts at `i`.
abbrev end_of : ℕ → ℕ → ℕ → ℕ
end_of size i step = if ltb size (i + step) then size else i + step

end_of_bounds :
    (size i step : ℕ)
    → i < size
    → 0 < step
    → (i < end_of size i step) × (end_of size i step ≤ size) × (end_of size i step ≤ i + step)
end_of_bounds size i step h k = ground arith

drop-end_of :
    (turns : List Message) (i step : ℕ)
    → drop (end_of (length turns) i step) turns ≡ drop (i + step) turns
drop-end_of turns i step = elim (Bool-cases (ltb (length turns) (i + step))) [
  | inl short ↦ rw short (
      drop_all (length turns) turns (omega arith)
      ∙ sym (drop_all (i + step) turns (omega (arith, ltb→lt _ _ short))))
  | inr full ↦ rw full
]

turn_loop-cut :
    (fuel : ℕ) (turns : List Message) (step i : ℕ) (out : List (List Message))
    → 0 < step
    → length turns - i < fuel
    → flatten out ++ drop i turns ≡ turns
    → All (Sized step) out
    → (ws : List (List Message)) × (turn_loop fuel turns step i out ≡ some ws)
      × (flatten ws ≡ turns)
      × All (Sized step) ws
unfolding turn_loop
turn_loop-cut zero turns step i out hs hf q a = absurd (omega arith)
turn_loop-cut (suc fuel) turns step i out hs hf q a = elim (Bool-cases (ltb i (length turns))) [
  | inr done ↦ (
    out,
    ground (arith, done),
    sym (append-nil (flatten out))
        ∙ ap (◌++◌ (flatten out)) (sym (drop_all i turns (ground arith)))
        ∙ q,
    a,
  )
  | inl more ↦
      let n = length turns in
      let lt = ltb→lt i n more in
      let b = end_of_bounds n i step lt hs in
      let (w, cut, e, long) = slice_split i (end_of n i step) turns (omega (arith, b.0)) b.1 in
      let (ws, r, parts, sizes) =
        turn_loop-cut fuel turns step (i + step) (out ++ w ∷ []) hs (omega (arith, lt))
          (ap (λ u. flatten (out ++ w ∷ []) ++ u) (sym (drop-end_of turns i step))
            ∙ cut_step turns out w i (end_of n i step) q e)
          (All-append (Sized step) out (w ∷ []) a
            ((omega (arith, long, b), omega (arith, long, b)), tt)) in
      (ws, ground (arith, more, cut, r), parts, sizes)
]

-- SplitWindows never panics; its windows joined are the transcript, and each has at least one turn
-- and at most `window_turns` (10 where that is not positive).
split_windows-cut :
    (turns : List Message) (window_turns : ℤ)
    → (ws : List (List Message)) × (split_windows turns window_turns ≡ some ws)
      × (flatten ws ≡ turns)
      × All (Sized (positive_or 10 window_turns)) ws
unfolding split_windows
split_windows-cut turns window_turns =
    turn_loop-cut (suc (length turns)) turns (positive_or 10 window_turns) 0 []
      (positive_or-pos 10 window_turns (omega arith)) (omega arith) refl tt

abbrev pub NonEmpty : List Message → Type 0
NonEmpty w = 0 < length w

segment_loop-cut :
    (fuel : ℕ) (turns : List Message) (positions : List ℕ) (step k start : ℕ)
    (out : List (List Message))
    → Growing 0 (length turns) positions
    → 0 < step
    → 0 < k
    → suc (length positions) - k < fuel
    → start ≤ length turns
    → ((p : ℕ) → get_elem? positions (k - 1) ≡ some p → start ≤ p)
    → flatten out ++ drop start turns ≡ turns
    → All NonEmpty out
    → (ws : List (List Message)) × (end : ℕ) × (segment_loop fuel turns positions step k start out
        ≡ some (ws, end))
      × (end ≤ length turns)
      × (flatten ws ++ drop end turns ≡ turns)
      × All NonEmpty ws
unfolding segment_loop
segment_loop-cut zero turns positions step k start out g hs hk hf fits later q a =
    absurd (omega arith)
segment_loop-cut (suc fuel) turns positions step k start out g hs hk hf fits later q a =
    elim (Bool-cases (leb k (length positions))) [
      | inr done ↦ (out, start, ground (arith, done), fits, q, a)
      | inl more ↦
          let le : k ≤ length positions = leb→le _ _ more in
          let (p, at, _, lt) = Growing-get 0 (length turns) positions (k - 1) g (omega arith) in
          let from : start ≤ p = later p at in
          let (w, cut, e, long) = slice_split start (p + 1) turns (omega arith) (omega arith) in
          let (ws, end, r, in_range, parts, full) =
            segment_loop-cut fuel turns positions step (k + step) (p + 1) (out ++ w ∷ []) g hs
              (omega arith) (omega arith) (omega arith)
              (λ q' at'.
                let l =
                  Growing-lt 0 (length turns) positions (k - 1) (k + step - 1) p q' g (omega arith)
                    at at' in
                omega (arith, l))
              (cut_step turns out w start (p + 1) q e)
              (All-append NonEmpty out (w ∷ []) a (omega (arith, long), tt)) in
          (ws, end, ground (arith, more, at, cut, r), in_range, parts, full)
    ]

-- The cap drops windows from the front, and only down to the cap.
cap_windows-suffix :
    (max : ℤ) (ws : List (List Message))
    → (ds : List (List Message)) × (ds ++ cap_windows max ws ≡ ws)
      × WithinCap max (length (cap_windows max ws))
      × ((ds ≡ []) ⊎ (max ≡ pos (length (cap_windows max ws))))
unfolding cap_windows
cap_windows-suffix (pos zero) ws = ([], refl, tt, inl refl)
cap_windows-suffix (negsuc m) ws = ([], refl, tt, inl refl)
cap_windows-suffix (pos (suc m)) ws = elim (Bool-cases (ltb (suc m) (length ws))) [
  | inr under ↦ ([], rw under, ground arith, inl refl)
  | inl above ↦
      let k = length ws - suc m in
      let left : length (drop k ws) ≡ suc m = omega (arith, ltb→lt _ _ above, length-drop k ws) in
      (
        take k ws,
        rw above (take-append-drop k ws),
        rw (above, left) (omega arith),
        inr (rw (above, left)),
      )
]

All-trailing :
    (turns : List Message) (out : List (List Message)) (start : ℕ)
    → start ≤ length turns
    → flatten out ++ drop start turns ≡ turns
    → All NonEmpty out
    → (flatten (trailing turns out start) ≡ turns) × All NonEmpty (trailing turns out start)
All-trailing turns out start h q a = elim (Bool-cases (ltb start (length turns))) [
  | inl more ↦ rw more (
    flatten-append out (drop start turns ∷ [])
        ∙ ap (◌++◌ (flatten out)) (append-nil (drop start turns))
        ∙ q,
    All-append NonEmpty out _ a (omega (arith, ltb→lt _ _ more, length-drop start turns), tt),
  )
  | inr done ↦ rw done (
    sym (append-nil (flatten out))
        ∙ ap (◌++◌ (flatten out)) (sym (drop_all start turns (ground arith)))
        ∙ q,
    a,
  )
]

-- SplitNonPrefixWindows never panics; some windows `ds` that the cap leaves out, and then its own
-- windows, none empty, joined are the transcript; the cap holds, and `ds` is empty or the cap is met.
pub split_non_prefix_windows-cut :
    (turns : List Message) (user_step max_windows : ℤ)
    → (ds ws : List (List Message)) × (split_non_prefix_windows turns user_step max_windows
        ≡ some ws)
      × (flatten (ds ++ ws) ≡ turns)
      × All NonEmpty (ds ++ ws)
      × WithinCap max_windows (length ws)
      × ((ds ≡ []) ⊎ (max_windows ≡ pos (length ws)))
unfolding split_non_prefix_windows
split_non_prefix_windows-cut [] user_step max_windows =
    ([], [], refl, refl, tt, within max_windows, inl refl)
  where
    within : (z : ℤ) → WithinCap z 0
    within (pos zero) = tt
    within (pos (suc k)) = omega arith
    within (negsuc k) = tt
split_non_prefix_windows-cut (m ∷ ms) user_step max_windows =
    let (out, start, r, in_range, parts, full) =
      segment_loop-cut (suc (length positions)) turns positions step step 0 []
        (user_positions-Growing 0 (length turns) turns (omega arith)) positive positive
        (omega (arith, positive)) (omega arith) (λ p at. omega arith) refl tt in
    let (whole, ne) = All-trailing turns out start in_range parts full in
    let (ds, joined, within, met) = cap_windows-suffix max_windows (trailing turns out start) in
    (
      ds,
      cap_windows max_windows (trailing turns out start),
      ground (arith, r),
      ap flatten joined ∙ whole,
      subst (All NonEmpty) (sym joined) ne,
      within,
      met,
    )
  where
    turns : List Message
    turns = m ∷ ms

    step : ℕ
    step = positive_or 5 user_step

    positions : List ℕ
    positions = user_positions 0 turns

    positive : 0 < step
    positive = positive_or-pos 5 user_step (omega arith)
