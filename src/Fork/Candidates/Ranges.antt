-- ===== src/Fork/Candidates/Ranges.antt =====
-- mapTurnRange of internal/fork/fork.go, and the messages that the prompt shows.
use interest_memory.Prelude.{
  Growing, Growing-weaken, Growing-get, Growing-lt, ℕ, zero, suc, ◌+◌, ◌-◌, ◌≤◌, ◌<◌, ◌≡◌, refl,
  Bool, true, false, some, List, [], ◌∷◌, pos, positive_or, positive_or-pos, length, get_elem?, ltb,
  arith, ◌==◌, nat_eq, eqb_iff, Bool-cases, inl, inr, ltb→lt, lt_or_eq, ◌⊎◌,
}
use native.Mathlib.Nat.{zero-add}
use interest_memory.Fork.Message.{Message}
use interest_memory.Fork.Candidates.{
  Candidate, rendered, render_from, render_indices, is_zero_range, clamp_end, map_turn_range,
}

-- The message at an index, which the prompt shows.
abbrev pub Rendered : List Message → Bool → ℕ → Type 0
Rendered turns include_tool i =
    (m : Message) × (get_elem? turns i ≡ some m) × (rendered include_tool m ≡ true)

render_from-get :
    (i : ℕ) (ms : List Message) (include_tool : Bool) (k p : ℕ)
    → get_elem? (render_from i ms include_tool) k ≡ some p
    → (j : ℕ) × (p ≡ i + j) × Rendered ms include_tool j
unfolding render_from
render_from-get i [] include_tool k p q = ground arith
render_from-get i (m ∷ ms) include_tool k p q = elim (Bool-cases (rendered include_tool m)) [
  | inr hidden ↦
      let (j, e, r) = render_from-get (suc i) ms include_tool k p (rw hidden at q) in
      (suc j, omega arith, r)
  | inl shown ↦ at_index k (rw shown at q) shown (render_from-get (suc i) ms include_tool)
]
  where
    at_index :
        (k : ℕ)
        → get_elem? (i ∷ render_from (suc i) ms include_tool) k ≡ some p
        → rendered include_tool m ≡ true
        → ((k p : ℕ)
            → get_elem? (render_from (suc i) ms include_tool) k ≡ some p
            → (j : ℕ) × (p ≡ suc i + j) × Rendered ms include_tool j)
        → (j : ℕ) × (p ≡ i + j) × Rendered (m ∷ ms) include_tool j
    at_index zero q shown rest = (0, ground arith, (m, refl, shown))
    at_index (suc k) q shown rest = let (j, e, r) = rest k p q in (suc j, omega arith, r)

render_from-Growing :
    (i hi : ℕ) (ms : List Message) (include_tool : Bool)
    → i + length ms ≤ hi
    → Growing i hi (render_from i ms include_tool)
unfolding render_from
render_from-Growing i hi [] include_tool h = tt
render_from-Growing i hi (m ∷ ms) include_tool h = elim (Bool-cases (rendered include_tool m)) [
  | inl shown ↦
      rw shown
        (omega arith, omega arith, render_from-Growing (suc i) hi ms include_tool (omega arith))
  | inr hidden ↦
      rw hidden
        (Growing-weaken i hi _ (render_from-Growing (suc i) hi ms include_tool (omega arith)))
]

Growing-le :
    (hi : ℕ) (ps : List ℕ) (j k p q : ℕ)
    → Growing 0 hi ps
    → j ≤ k
    → get_elem? ps j ≡ some p
    → get_elem? ps k ≡ some q
    → p ≤ q
Growing-le hi ps j k p q g h x y = elim (lt_or_eq h) [
  | inl less ↦ let l = Growing-lt 0 hi ps j k p q g less x y in omega (arith, l)
  | inr same ↦ let z : get_elem? ps j ≡ some q = rw same y in ground arith
]

clamp_end_bounds :
    (size s e : ℕ) → s ≤ size → 0 < s → (s ≤ clamp_end size s e) × (clamp_end size s e ≤ size)
clamp_end_bounds size s e h k = ground arith

-- A candidate whose range is left alone.
abbrev pub Unmapped : {F : Type 0} → Candidate F → List ℕ → Type 0
Unmapped c idx =
    (length idx ≡ 0)
    ⊎ (is_zero_range c.turn_range ≡ true)
    ⊎ (length idx < positive_or 1 c.turn_range.start)

mapped :
    {F : Type 0} (c : Candidate F) (idx : List ℕ) (a b : ℕ)
    → (length idx == 0) ≡ false
    → is_zero_range c.turn_range ≡ false
    → ltb (length idx) (positive_or 1 c.turn_range.start) ≡ false
    → get_elem? idx (positive_or 1 c.turn_range.start - 1) ≡ some a
    → get_elem? idx (
        clamp_end (length idx) (positive_or 1 c.turn_range.start) (positive_or 1 c.turn_range.stop)
        - 1)
      ≡ some b
    → map_turn_range c idx ≡ some (record c { turn_range = record { start = pos a; stop = pos b } })
unfolding map_turn_range
mapped c idx a b some_idx nonzero inside at_a at_b = rw (some_idx, nonzero, inside, at_a, at_b)

pub map_turn_range-total :
    {F : Type 0} (c : Candidate F) (turns : List Message) (include_tool : Bool)
    → let idx = render_indices turns include_tool in
      (Unmapped c idx × (map_turn_range c idx ≡ some c))
      ⊎ ((a b : ℕ) × (map_turn_range c idx
            ≡ some (record c { turn_range = record { start = pos a; stop = pos b } }))
          × (a ≤ b)
          × Rendered turns include_tool a
          × Rendered turns include_tool b)
unfolding map_turn_range render_indices
map_turn_range-total c turns include_tool = elim (Bool-cases (length idx == 0)) [
  | inl empty ↦ inl (inl ((eqb_iff _ _).0 empty), rw empty)
  | inr some_idx ↦ elim (Bool-cases (is_zero_range c.turn_range)) [
    | inl zero_range ↦ inl (inr (inl zero_range), rw (some_idx, zero_range))
    | inr nonzero ↦ elim (Bool-cases (ltb (length idx) s)) [
      | inl beyond ↦ inl (inr (inr (ltb→lt _ _ beyond)), rw (some_idx, nonzero, beyond))
      | inr inside ↦
          let hs : 0 < s = positive_or-pos 1 c.turn_range.start (omega arith) in
          let bounds = clamp_end_bounds (length idx) s e (ground arith) hs in
          let (a, at_a, _, _) =
            Growing-get 0 (length turns) idx (s - 1) grows (ground (arith, inside)) in
          let (b, at_b, _, _) =
            Growing-get 0 (length turns) idx (clamp_end (length idx) s e - 1) grows
              (omega (arith, bounds.0, bounds.1)) in
          let (_, ea, ra) = render_from-get 0 turns include_tool (s - 1) a at_a in
          let (_, eb, rb) =
            render_from-get 0 turns include_tool (clamp_end (length idx) s e - 1) b at_b in
          inr (
            a,
            b,
            mapped c idx a b some_idx nonzero inside at_a at_b,
            Growing-le (length turns) idx (s - 1) (clamp_end (length idx) s e - 1) a b grows
                (omega (arith, bounds.0)) at_a at_b,
            rw (ea, zero-add) ra,
            rw (eb, zero-add) rb,
          )
    ]
  ]
]
  where
    idx : List ℕ
    idx = render_from 0 turns include_tool

    s : ℕ
    s = positive_or 1 c.turn_range.start

    e : ℕ
    e = positive_or 1 c.turn_range.stop

    grows : Growing 0 (length turns) idx
    grows = render_from-Growing 0 (length turns) turns include_tool (omega arith)
