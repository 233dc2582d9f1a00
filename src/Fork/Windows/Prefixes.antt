-- ===== src/Fork/Windows/Prefixes.antt =====
-- The windows of SplitPrefixWindows of internal/fork/fork.go as prefixes of the transcript.
use interest_memory.Prelude.{
  Growing, Growing-weaken, Growing-get, Growing-lt, ℕ, zero, suc, ◌+◌, ◌-◌, ◌≤◌, ◌<◌, ◌≡◌, refl,
  ◌∙◌, ap, sym, subst, none, some, List, [], ◌∷◌, ◌++◌, map, ℤ, pos, negsuc, positive_or,
  positive_or-pos, length, get_elem?, take, drop, last?, ◌==◌, ltb, leb, arith, Bool-cases, inl,
  inr, take_of_length-le, last?-append, last?-cons, slice_prefix, last?-drop, length-drop,
  length-take_of_le, Option-cases, leb→le, ltb→lt, lt_or_eq, All-append, All-map, string_eq,
  list_beq_iff, length-map, map-drop, All,
}
use mathlib.Core.List.{map-append}
use mathlib.Core.Option
use interest_memory.Fork.Message.{Message, message_eq}
use interest_memory.Fork.Windows.{
  user_positions, same_window, append_new, cap_windows, prefix_loop, split_prefix_windows,
}

pub user_positions-Growing :
    (i hi : ℕ) (ms : List Message) → i + length ms ≤ hi → Growing i hi (user_positions i ms)
unfolding user_positions
user_positions-Growing i hi [] h = tt
user_positions-Growing i hi (m ∷ ms) h = elim (Bool-cases (m.role == "user")) [
  | inl user ↦
      rw user (omega arith, omega arith, user_positions-Growing (suc i) hi ms (omega arith))
  | inr other ↦
      rw other (Growing-weaken i hi _ (user_positions-Growing (suc i) hi ms (omega arith)))
]

-- The windows that end at the given turns.
abbrev pub prefixes : List Message → List ℕ → List (List Message)
prefixes turns = map (λ n. take n turns)

-- Ends grow strictly, from above `lo`.
abbrev pub Ends : ℕ → List ℕ → Type 0
Ends lo [] = Unit
Ends lo (n ∷ ns) = (lo < n) × Ends n ns

Ends-append :
    (lo e : ℕ) (ns : List ℕ) → Ends lo ns → lo < e → All (λ n. n < e) ns → Ends lo (ns ++ e ∷ [])
Ends-append lo e [] s h a = (h, tt)
Ends-append lo e (n ∷ ns) s h a = (s.0, Ends-append n e ns s.1 a.0 a.1)

pub last?-prefixes :
    (turns : List Message) (ns : List ℕ)
    → last? (prefixes turns ns) ≡ Option.map (λ n. take n turns) (last? ns)
last?-prefixes turns [] = refl
last?-prefixes turns (n ∷ []) = refl
last?-prefixes turns (n ∷ m ∷ ns) = last?-prefixes turns (m ∷ ns)

All-last : (P : ℕ → Type 0) (ns : List ℕ) (n : ℕ) → All P ns → last? ns ≡ some n → P n
All-last P [] n a q = cc
All-last P (m ∷ []) n a q = subst P (ground arith) a.0
All-last P (m ∷ k ∷ ns) n a q = All-last P (k ∷ ns) n a.1 q

Ends-below :
    (lo e : ℕ) (ns : List ℕ) (n : ℕ) → Ends lo ns → last? ns ≡ some n → n < e → All (λ m. m < e) ns
Ends-below lo e [] n s q h = tt
Ends-below lo e (m ∷ []) n s q h = ground arith
Ends-below lo e (m ∷ k ∷ ns) n s q h =
    let rest = Ends-below m e (k ∷ ns) n s.1 q h in (omega arith, rest)

last?-empty : (P : ℕ → Type 0) (ns : List ℕ) → last? ns ≡ none → All P ns
last?-empty P [] q = tt
last?-empty P (n ∷ []) q = cc
last?-empty P (n ∷ m ∷ ns) q = let (k, r) = last?-cons m ns in cc

-- The ends of a chain, of which `e` is the last.
abbrev pub ChainTo : List Message → ℕ → List ℕ → List (List Message) → Type 0
ChainTo turns e ns ws =
    (ws ≡ prefixes turns ns) × Ends 0 ns × All (λ n. n ≤ e) ns × (last? ns ≡ some e)

longer-chain :
    (turns : List Message) (ns : List ℕ) (e : ℕ)
    → Ends 0 ns
    → 0 < e
    → All (λ n. n < e) ns
    → ChainTo turns e (ns ++ e ∷ []) (prefixes turns ns ++ take e turns ∷ [])
longer-chain turns ns e s h a = (
  sym (map-append (λ n. take n turns) ns (e ∷ [])),
  Ends-append 0 e ns s h a,
  All-append (λ n. n ≤ e) ns (e ∷ []) (All-map (λ n l. omega arith) ns a) (omega arith, tt),
  last?-append ns e,
)

-- A window that reaches at least as far as the others joins the chain, or is its end already.
append_new-chain :
    (turns : List Message) (ns : List ℕ) (e : ℕ)
    → Ends 0 ns
    → All (λ n. n ≤ e) ns
    → 0 < e
    → e ≤ length turns
    → (ns' : List ℕ) × ChainTo turns e ns' (append_new (prefixes turns ns) (take e turns))
unfolding append_new same_window
append_new-chain turns ns e s a h fits = elim (Option-cases (last? ns)) [
  | inl empty ↦ (
    ns ++ e ∷ [],
    rw (last?-prefixes turns ns, empty) (longer-chain turns ns e s h (last?-empty _ ns empty)),
  )
  | inr (n, last) ↦ elim (Bool-cases (same_window (take n turns) (take e turns))) [
    | inl same ↦
        let eq : take n turns ≡ take e turns = (list_beq_iff _ _).0 same in
        let le : n ≤ e = All-last (λ m. m ≤ e) ns n a last in
        let n≡e : n ≡ e = omega (
          arith,
          ap length eq,
          length-take_of_le n turns (omega arith),
          length-take_of_le e turns fits,
        ) in
        (ns, rw (last?-prefixes turns ns, last, same) (refl, s, a, ap some n≡e))
    | inr differ ↦
        let le : n ≤ e = All-last (λ m. m ≤ e) ns n a last in
        let lt : n < e = elim (lt_or_eq le) [
          | inl l ↦ l
          | inr q ↦ absurd (
              let r = (list_beq_iff (take n turns) (take e turns)).1 (ap (λ u. take u turns) q) in
              cc)
        ] in
        (
          ns ++ e ∷ [],
          rw (last?-prefixes turns ns, last, differ)
              (longer-chain turns ns e s h (Ends-below 0 e ns n s last lt)),
        )
  ]
]

prefix_loop_step :
    (fuel : ℕ) (turns : List Message) (positions : List ℕ) (step k p : ℕ)
    (out : List (List Message))
    → k ≤ length positions
    → get_elem? positions (k - 1) ≡ some p
    → p < length turns
    → prefix_loop (suc fuel) turns positions step k out
      ≡ prefix_loop fuel turns positions step (k + step) (append_new out (take (p + 1) turns))
unfolding prefix_loop
prefix_loop_step fuel turns positions step k p out h at lt =
    ground (arith, slice_prefix (p + 1) turns (omega arith))

-- The loop gives a chain too, and never panics nor runs out of fuel.
prefix_loop-chain :
    (fuel : ℕ) (turns : List Message) (positions : List ℕ) (step k b : ℕ) (ns : List ℕ)
    → Growing 0 (length turns) positions
    → 0 < step
    → 0 < k
    → suc (length positions) - k < fuel
    → Ends 0 ns
    → All (λ n. n ≤ b) ns
    → b ≤ length turns
    → ((p : ℕ) → get_elem? positions (k - 1) ≡ some p → b ≤ p)
    → (ns' : List ℕ) × (prefix_loop fuel turns positions step k (prefixes turns ns)
        ≡ some (prefixes turns ns'))
      × Ends 0 ns'
      × All (λ n. n ≤ length turns) ns'
unfolding prefix_loop
prefix_loop-chain zero turns positions step k b ns g hs hk hf s a hb later = absurd (omega arith)
prefix_loop-chain (suc fuel) turns positions step k b ns g hs hk hf s a hb later =
    elim (Bool-cases (leb k (length positions))) [
      | inr done ↦ (ns, ground (arith, done), s, All-map (λ n l. omega arith) ns a)
      | inl more ↦
          let hk' : k ≤ length positions = leb→le _ _ more in
          let (p, at, _, lt) = Growing-get 0 (length turns) positions (k - 1) g (omega arith) in
          let le : b ≤ p = later p at in
          let (ns1, c) =
            append_new-chain turns ns (p + 1) s (All-map (λ n l. omega arith) ns a) (omega arith)
              (omega arith) in
          let (ns2, r, s2, a2) =
            prefix_loop-chain fuel turns positions step (k + step) (p + 1) ns1 g hs (omega arith)
              (omega arith) c.1 c.2 (omega arith)
              (λ q at'.
                let l =
                  Growing-lt 0 (length turns) positions (k - 1) (k + step - 1) p q g (omega arith)
                    at at' in
                omega (arith, l)) in
          (
            ns2,
            prefix_loop_step fuel turns positions step k p (prefixes turns ns) hk' at lt
                ∙ ap (prefix_loop fuel turns positions step (k + step)) c.0
                ∙ r,
            s2,
            a2,
          )
    ]

-- How many windows the setting lets through.
abbrev pub WithinCap : ℤ → ℕ → Type 0
WithinCap (pos zero) n = Unit
WithinCap (pos (suc m)) n = n ≤ suc m
WithinCap (negsuc m) n = Unit

Ends-weaken : (lo hi : ℕ) (ns : List ℕ) → lo ≤ hi → Ends hi ns → Ends lo ns
Ends-weaken lo hi [] h s = tt
Ends-weaken lo hi (n ∷ ns) h s = (omega arith, s.1)

Ends-drop : (lo k : ℕ) (ns : List ℕ) → Ends lo ns → Ends lo (drop k ns)
Ends-drop lo zero ns s = s
Ends-drop lo (suc k) [] s = tt
Ends-drop lo (suc k) (n ∷ ns) s = Ends-drop lo k ns (Ends-weaken lo n ns (omega arith) s.1)

-- The cap keeps the longest windows.
cap_windows-prefixes :
    (max : ℤ) (turns : List Message) (e : ℕ) (ns : List ℕ)
    → Ends 0 ns
    → last? ns ≡ some e
    → (ns' : List ℕ) × (cap_windows max (prefixes turns ns) ≡ prefixes turns ns')
      × Ends 0 ns'
      × (last? ns' ≡ some e)
      × WithinCap max (length ns')
unfolding cap_windows
cap_windows-prefixes (pos zero) turns e ns s q = (ns, refl, s, q, tt)
cap_windows-prefixes (negsuc m) turns e ns s q = (ns, refl, s, q, tt)
cap_windows-prefixes (pos (suc m)) turns e ns s q =
    elim (Bool-cases (ltb (suc m) (length (prefixes turns ns)))) [
      | inr under ↦ (ns, rw under, s, q, ground (arith, length-map (λ n. take n turns) ns))
      | inl above ↦
          let k = length (prefixes turns ns) - suc m in
          (
            drop k ns,
            rw above (sym (map-drop (λ n. take n turns) k ns)),
            Ends-drop 0 k ns s,
            last?-drop k ns (omega (arith, ltb→lt _ _ above, length-map (λ n. take n turns) ns))
                ∙ q,
            omega (arith, ltb→lt _ _ above, length-map (λ n. take n turns) ns, length-drop k ns),
          )
    ]

-- Of a transcript with messages, SplitPrefixWindows makes, without a panic, a chain of windows:
-- the `i`-th is the first `n i` messages, `n` grows strictly, the last window is the whole
-- transcript, and there are at most `max_windows` of them where that is positive.
pub split_prefix_windows-chain :
    (m : Message) (ms : List Message) (user_step max_windows : ℤ)
    → (ns : List ℕ) × (split_prefix_windows (m ∷ ms) user_step max_windows
        ≡ some (prefixes (m ∷ ms) ns))
      × Ends 0 ns
      × (last? ns ≡ some (length (m ∷ ms)))
      × WithinCap max_windows (length ns)
unfolding split_prefix_windows
split_prefix_windows-chain m ms user_step max_windows =
    elim (Bool-cases (ltb (length positions) step)) [
      | inl few ↦ (
        length turns ∷ [],
        ground (arith, few, whole),
        (omega arith, tt),
        refl,
        within max_windows,
      )
      | inr enough ↦
          let (ns1, r1, s1, a1) =
            prefix_loop-chain (suc (length positions)) turns positions step step 0 []
              (user_positions-Growing 0 (length turns) turns (omega arith)) positive positive
              (omega (arith, positive)) tt tt (omega arith) (λ p at. omega arith) in
          let (ns2, c2) =
            append_new-chain turns ns1 (length turns) s1 a1 (omega arith) (omega arith) in
          let (ns3, r3, s3, l3, w3) =
            cap_windows-prefixes max_windows turns (length turns) ns2 c2.1 c2.3 in
          (ns3, ground (arith, enough, r1, c2.0, r3, whole), s3, l3, w3)
    ]
  where
    turns : List Message
    turns = m ∷ ms

    step : ℕ
    step = positive_or 5 user_step

    positions : List ℕ
    positions = user_positions 0 turns

    positive : 0 < step
    positive = positive_or-pos 5 user_step (omega arith)

    whole : take (length turns) turns ≡ turns
    whole = take_of_length-le (length turns) turns (omega arith)

    within : (z : ℤ) → WithinCap z 1
    within (pos zero) = tt
    within (pos (suc k)) = omega arith
    within (negsuc k) = tt
