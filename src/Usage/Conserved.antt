-- ===== src/Usage/Conserved.antt =====
-- What the tracker of internal/usage/usage.go has persisted of the deltas that it was given.
use interest_memory.Prelude.{
  ℕ, ◌≡◌, refl, sym, ap, ◌∙◌, subst, true, false, List, [], ◌∷◌, ◌==◌, nat_eq, eqb_iff,
  if◌then◌else◌, arith, All, Bool-cases, inl, inr,
}
use interest_memory.Usage.{
  Usage, no_usage, plus, Tracker, new_tracker, flush, count, add, ask_today, close,
}

-- A call of the tracker, with the day of the clock: Add, a flush by the loop, which runs in batched
-- mode only, and Today.
pub data Call : Type 0 where
  adds : ℕ → Usage → Call
  flushes : ℕ → Call
  asks : ℕ → Call

unfoldable pub step : Tracker → Call → Tracker
step t (adds day u) = add day u t
step t (flushes day) = close day t
step t (asks day) = (ask_today day t).0

unfoldable pub run : Tracker → List Call → Tracker
run t [] = t
run t (c ∷ cs) = run (step t c) cs

-- The usage that the rows of a day sum up to, as the store does.
unfoldable pub saved : ℕ → List (ℕ × Usage) → Usage
saved day [] = no_usage
saved day ((d, u) ∷ rows) = if d == day then plus (saved day rows) u else saved day rows

-- The deltas that Add is given on a day, after `a`.
unfoldable pub given : ℕ → Usage → List Call → Usage
given day a [] = a
given day a (adds d u ∷ cs) = given day (if d == day then plus a u else a) cs
given day a (flushes d ∷ cs) = given day a cs
given day a (asks d ∷ cs) = given day a cs

abbrev pub day_of : Call → ℕ
day_of (adds d u) = d
day_of (flushes d) = d
day_of (asks d) = d

step-modes :
    (t : Tracker) (c : Call) → ((step t c).batched ≡ t.batched) × ((step t c).persists ≡ t.persists)
unfolding step add flush close ask_today
step-modes t (adds d u) = (ground arith, ground arith)
step-modes t (flushes d) = (ground arith, ground arith)
step-modes t (asks d) = (ground arith, ground arith)

-- Without batches, each Add is a row, and no other call is.
sync-step :
    (t : Tracker) (c : Call) (day : ℕ)
    → t.batched ≡ false
    → t.persists ≡ true
    → saved day (step t c).saved_rows ≡ given day (saved day t.saved_rows) (c ∷ [])
unfolding step add close ask_today saved given
sync-step t (adds d u) day b p = ground (arith, b, p)
sync-step t (flushes d) day b p = ground (arith, b)
sync-step t (asks d) day b p = ground arith

given-cons :
    (day : ℕ) (a : Usage) (c : Call) (cs : List Call)
    → given day a (c ∷ cs) ≡ given day (given day a (c ∷ [])) cs
unfolding given
given-cons day a (adds d u) cs = refl
given-cons day a (flushes d) cs = refl
given-cons day a (asks d) cs = refl

sync-loop :
    (t : Tracker) (cs : List Call) (day : ℕ)
    → t.batched ≡ false
    → t.persists ≡ true
    → saved day (run t cs).saved_rows ≡ given day (saved day t.saved_rows) cs
unfolding run given
sync-loop t [] day b p = refl
sync-loop t (c ∷ cs) day b p =
    let m = step-modes t c in
    sync-loop (step t c) cs day (m.0 ∙ b) (m.1 ∙ p)
    ∙ ap (λ u. given day u cs) (sync-step t c day b p)
    ∙ sym (given-cons day (saved day t.saved_rows) c cs)

-- In batched mode on one day: the rows and what is kept back sum up to all deltas.
abbrev Balanced : ℕ → Tracker → Usage → Type 0
Balanced day t a =
    (t.today ≡ day)
    × (plus (saved day t.saved_rows) t.acc ≡ a)
    × ((t.dirty ≡ false) → t.acc ≡ no_usage)

plus_assoc : (a b c : Usage) → plus a (plus b c) ≡ plus (plus a b) c
plus_assoc a b c = ground arith

plus_zero : (a : Usage) → plus a no_usage ≡ a
plus_zero a = ground arith

-- The calls on the tracker's own day, in batched mode.
add-same_day :
    (t : Tracker) (d : ℕ) (u : Usage)
    → t.batched ≡ true
    → d == t.today ≡ true
    → add d u t ≡ count u t
unfolding add
add-same_day t d u b s = rw (s, b) refl

close-clean : (t : Tracker) (d : ℕ) → t.batched ≡ true → t.dirty ≡ false → close d t ≡ t
unfolding close flush
close-clean t d b c = rw (b, c) refl

close-same_day :
    (t : Tracker) (d : ℕ)
    → t.batched ≡ true
    → t.persists ≡ true
    → t.dirty ≡ true
    → d == t.today ≡ true
    → close d t ≡ record t { saved_rows = (d, t.acc) ∷ t.saved_rows; acc = no_usage; dirty = false }
unfolding close flush
close-same_day t d b p c s = rw (b, c, s, p) refl

ask_today-same_day : (t : Tracker) (d : ℕ) → d == t.today ≡ true → (ask_today d t).0 ≡ t
unfolding ask_today
ask_today-same_day t d s = rw s refl

batch-step :
    (t : Tracker) (c : Call) (day : ℕ) (a : Usage)
    → t.batched ≡ true
    → t.persists ≡ true
    → day_of c ≡ day
    → Balanced day t a
    → Balanced day (step t c) (given day a (c ∷ []))
unfolding step saved given
batch-step t (adds d u) day a b p e (at, sum, clean) =
    rw (add-same_day t d u b (ground (arith, eqb_iff d t.today))) (
      at,
      plus_assoc (saved day t.saved_rows) t.acc u
          ∙ ap (λ v. plus v u) sum
          ∙ ground (arith, e, eqb_iff d day),
      λ q. absurd (ground (arith, q)),
    )
batch-step t (flushes d) day a b p e (at, sum, clean) = elim (Bool-cases t.dirty) [
  | inr c ↦ rw (close-clean t d b c) (at, sum, clean)
  | inl c ↦
      rw (close-same_day t d b p c (ground (arith, eqb_iff d t.today)))
        (at, ground (arith, e, sum, eqb_iff d day, plus_zero a), λ q. refl)
]
batch-step t (asks d) day a b p e (at, sum, clean) =
    rw (ask_today-same_day t d (ground (arith, eqb_iff d t.today))) (at, sum, clean)

batch-loop :
    (t : Tracker) (cs : List Call) (day : ℕ) (a : Usage)
    → t.batched ≡ true
    → t.persists ≡ true
    → All (λ c. day_of c ≡ day) cs
    → Balanced day t a
    → (Balanced day (run t cs) (given day a cs) × ((run t cs).batched ≡ true))
      × ((run t cs).persists ≡ true)
unfolding run given
batch-loop t [] day a b p all h = ((h, b), p)
batch-loop t (c ∷ cs) day a b p all h =
    let m = step-modes t c in
    let k = batch-step t c day a b p all.0 h in
    subst
      (λ v.
        (Balanced day (run (step t c) cs) v × ((run (step t c) cs).batched ≡ true))
        × ((run (step t c) cs).persists ≡ true))
      (sym (given-cons day a c cs))
      (batch-loop (step t c) cs day (given day a (c ∷ [])) (m.0 ∙ b) (m.1 ∙ p) all.1 k)

close-acc :
    (t : Tracker) (day : ℕ)
    → t.batched ≡ true
    → (t.dirty ≡ false → t.acc ≡ no_usage)
    → (close day t).acc ≡ no_usage
unfolding close flush
close-acc t day b clean = elim (Bool-cases t.dirty) [
  | inr c ↦ rw (b, c) (clean c)
  | inl c ↦ rw (b, c) (ground arith)
]

-- Without batches, the rows of each day sum up to the deltas that Add was given on that day, over
-- any calls on any days.
run-given :
    (start day : ℕ) (calls : List Call)
    → saved day (run (new_tracker start false true) calls).saved_rows ≡ given day no_usage calls
unfolding new_tracker saved
run-given start day calls = sync-loop (new_tracker start false true) calls day refl refl

-- In batched mode, after calls and a Close all on the day that the tracker was made, the rows of
-- the day sum up to the deltas that Add was given.
pub close-given :
    (day : ℕ) (calls : List Call)
    → All (λ c. day_of c ≡ day) calls
    → saved day (close day (run (new_tracker day true true) calls)).saved_rows
      ≡ given day no_usage calls
unfolding new_tracker saved step given
close-given day calls all =
    let t = run (new_tracker day true true) calls in
    let ((h, b), p) =
      batch-loop (new_tracker day true true) calls day no_usage refl refl all
        (refl, refl, λ q. refl) in
    let total = batch-step t (flushes day) day (given day no_usage calls) b p refl h in
    sym (plus_zero (saved day (close day t).saved_rows))
    ∙ ap (λ u. plus (saved day (close day t).saved_rows) u) (sym (close-acc t day b h.2))
    ∙ total.1
