-- ===== src/Worker/Terms.antt =====
-- The terminal jobs of the table of internal/worker/worker.go, and their sorting by time.
use interest_memory.Prelude.{
  ℕ, zero, suc, ◌≤◌, ◌≡◌, refl, sym, ap, ◌∙◌, subst, Bool, true, false, ◌||◌, none, some, List, [],
  ◌∷◌, String, string_eq, ◌==◌, length, lookup, ltb, arith, All, take, DistinctKeys, Bool-cases,
  inl, inr, ◌⊎◌, Option-cases, beq_refl, All-map,
}
use interest_memory.Worker.{Job, Jobs, Term, terms, place_term, sort_terms, is_terminal}

abbrev pub has_id : String → List Term → Bool
has_id id [] = false
has_id id (t ∷ ts) = t.0 == id || has_id id ts

-- The table has a terminal job with this id and time.
abbrev pub Finished : Jobs → Term → Type 0
Finished jobs t =
    (j : Job) × (lookup t.0 jobs ≡ some j) × (is_terminal j.status ≡ true) × (j.done_at ≡ some t.1)

-- The first job of a table is a term, or is none.
term_cases :
    (k : String) (i : Job) (jobs : Jobs)
    → ((at : ℕ) × (terms ((k, i) ∷ jobs) ≡ (k, at) ∷ terms jobs)
        × (is_terminal i.status ≡ true)
        × (i.done_at ≡ some at))
      ⊎ ((terms ((k, i) ∷ jobs) ≡ terms jobs)
          × ((is_terminal i.status ≡ false) ⊎ (i.done_at ≡ none)))
unfolding terms
term_cases k i jobs = elim (Bool-cases (is_terminal i.status)) [
  | inr live ↦ inr (rw live refl, inl live)
  | inl ended ↦ elim (Option-cases i.done_at) [
    | inl unstamped ↦ inr (rw (ended, unstamped) refl, inr unstamped)
    | inr (at, stamped) ↦ inl (at, rw (ended, stamped) refl, ended, stamped)
  ]
]

-- What holds of all terms holds of a terminal job's.
pub terms-All :
    (P : Term → Type 0) (jobs : Jobs) (id : String) (j : Job) (at : ℕ)
    → All P (terms jobs)
    → lookup id jobs ≡ some j
    → is_terminal j.status ≡ true
    → j.done_at ≡ some at
    → P (id, at)
terms-All P [] id j at h found ended stamped = absurd (ground arith)
terms-All P ((k, i) ∷ jobs) id j at h found ended stamped = elim (Bool-cases (k == id)) [
  | inr other ↦
      terms-All P jobs id j at
        (elim (term_cases k i jobs) [
          | inl (a, e, _, _) ↦ (subst (All P) e h).1
          | inr (e, _) ↦ subst (All P) e h
        ])
        (ground (arith, found, other)) ended stamped
  | inl here ↦
      let q : i ≡ j = ground (arith, found, here) in
      elim (term_cases k i jobs) [
        | inl (a, e, _, s) ↦
            subst P (ground (arith, s, stamped, q, (string_eq.beq_iff k id).0 here))
              (subst (All P) e h).0
        | inr (e, r) ↦ absurd (elim r [
          | inl live ↦ ground (arith, live, q, ended)
          | inr unstamped ↦ ground (arith, unstamped, q, stamped)
        ])
      ]
]

Finished-cons :
    (k : String) (i : Job) (jobs : Jobs) (t : Term)
    → lookup k jobs ≡ none
    → Finished jobs t
    → Finished ((k, i) ∷ jobs) t
Finished-cons k i jobs t new (j, found, ended, stamped) =
    (j, ground (arith, found, new, string_eq.beq_iff k t.0), ended, stamped)

pub terms-Finished : (jobs : Jobs) → DistinctKeys jobs → All (Finished jobs) (terms jobs)
unfolding terms
terms-Finished [] d = tt
terms-Finished ((k, i) ∷ jobs) d =
    let rest =
      All-map (λ t h. Finished-cons k i jobs t d.0 h) (terms jobs) (terms-Finished jobs d.1) in
    elim (term_cases k i jobs) [
      | inl (at, e, ended, stamped) ↦
          subst (All (Finished ((k, i) ∷ jobs))) (sym e)
            ((i, ground (arith, beq_refl k), ended, stamped), rest)
      | inr (e, _) ↦ subst (All (Finished ((k, i) ∷ jobs))) (sym e) rest
    ]

abbrev pub DistinctIds : List Term → Type 0
DistinctIds [] = Unit
DistinctIds (t ∷ ts) = (has_id t.0 ts ≡ false) × DistinctIds ts

has_id-terms : (id : String) (jobs : Jobs) → lookup id jobs ≡ none → has_id id (terms jobs) ≡ false
unfolding terms
has_id-terms id [] h = refl
has_id-terms id ((k, i) ∷ jobs) h =
    let rest = has_id-terms id jobs in
    elim (term_cases k i jobs) [
      | inl (at, e, _, _) ↦ ap (has_id id) e ∙ ground (arith, rest, h)
      | inr (e, _) ↦ ap (has_id id) e ∙ ground (arith, rest, h)
    ]

pub terms-DistinctIds : (jobs : Jobs) → DistinctKeys jobs → DistinctIds (terms jobs)
unfolding terms
terms-DistinctIds [] d = tt
terms-DistinctIds ((k, i) ∷ jobs) d = elim (term_cases k i jobs) [
  | inl (at, e, _, _) ↦
      subst DistinctIds (sym e) (has_id-terms k jobs d.0, terms-DistinctIds jobs d.1)
  | inr (e, _) ↦ subst DistinctIds (sym e) (terms-DistinctIds jobs d.1)
]

-- Sorting keeps the ids, and what holds of all terms.
has_id-place_term :
    (id : String) (t : Term) (ts : List Term)
    → has_id id (place_term t ts) ≡ (t.0 == id || has_id id ts)
unfolding place_term
has_id-place_term id t [] = refl
has_id-place_term id t (u ∷ ts) = ground (arith, has_id-place_term id t ts)

pub has_id-sort_terms : (id : String) (ts : List Term) → has_id id (sort_terms ts) ≡ has_id id ts
unfolding sort_terms
has_id-sort_terms id [] = refl
has_id-sort_terms id (t ∷ ts) =
    ground (arith, has_id-place_term id t (sort_terms ts), has_id-sort_terms id ts)

place_term-DistinctIds :
    (t : Term) (ts : List Term)
    → has_id t.0 ts ≡ false
    → DistinctIds ts
    → DistinctIds (place_term t ts)
unfolding place_term
place_term-DistinctIds t [] h d = (refl, tt)
place_term-DistinctIds t (u ∷ ts) h d = ground (
  arith,
  has_id-place_term u.0 t ts,
  place_term-DistinctIds t ts,
  string_eq.beq_iff u.0 t.0,
  string_eq.beq_iff t.0 u.0,
)

pub sort_terms-DistinctIds : (ts : List Term) → DistinctIds ts → DistinctIds (sort_terms ts)
unfolding sort_terms
sort_terms-DistinctIds [] d = tt
sort_terms-DistinctIds (t ∷ ts) d =
    place_term-DistinctIds t (sort_terms ts) (has_id-sort_terms t.0 ts ∙ d.0)
      (sort_terms-DistinctIds ts d.1)

module _ (P : Term → Type 0) where
  All-place_term : (t : Term) (ts : List Term) → P t → All P ts → All P (place_term t ts)
  unfolding place_term
  All-place_term t [] p h = (p, tt)
  All-place_term t (u ∷ ts) p h = elim (Bool-cases (ltb u.1 t.1)) [
    | inl later ↦ rw later (h.0, All-place_term t ts p h.1)
    | inr here ↦ rw here (p, h)
  ]

  pub All-sort_terms : (ts : List Term) → All P ts → All P (sort_terms ts)
  unfolding sort_terms
  All-sort_terms [] h = tt
  All-sort_terms (t ∷ ts) h = All-place_term t (sort_terms ts) h.0 (All-sort_terms ts h.1)

  All-placed : (t : Term) (ts : List Term) → All P (place_term t ts) → P t × All P ts
  unfolding place_term
  All-placed t [] h = h
  All-placed t (u ∷ ts) h = elim (Bool-cases (ltb u.1 t.1)) [
    | inl later ↦
        let k : P u × All P (place_term t ts) = rw later at h in
        let (p, r) = All-placed t ts k.1 in (p, (k.0, r))
    | inr here ↦ rw here at h
  ]

  pub All-sorted : (ts : List Term) → All P (sort_terms ts) → All P ts
  unfolding sort_terms
  All-sorted [] h = tt
  All-sorted (t ∷ ts) h = let (p, r) = All-placed t (sort_terms ts) h in (p, All-sorted ts r)

-- Each term is no later than those after it.
abbrev pub Rises : List Term → Type 0
Rises [] = Unit
Rises (t ∷ ts) = All (λ u. t.1 ≤ u.1) ts × Rises ts

place_term-Rises : (t : Term) (ts : List Term) → Rises ts → Rises (place_term t ts)
unfolding place_term
place_term-Rises t [] h = (tt, tt)
place_term-Rises t (u ∷ ts) h = elim (Bool-cases (ltb u.1 t.1)) [
  | inl later ↦
      rw later (All-place_term (λ v. u.1 ≤ v.1) t ts (ground arith) h.0, place_term-Rises t ts h.1)
  | inr here ↦
      let l : t.1 ≤ u.1 = ground arith in
      rw here ((l, All-map (λ v m. omega (arith, l, m)) ts h.0), h)
]

pub sort_terms-Rises : (ts : List Term) → Rises (sort_terms ts)
unfolding sort_terms
sort_terms-Rises [] = tt
sort_terms-Rises (t ∷ ts) = place_term-Rises t (sort_terms ts) (sort_terms-Rises ts)

-- A term is among the first `k`, or none of these is later.
pub Rises-take :
    (k : ℕ) (ts : List Term)
    → Rises ts
    → All (λ t. (has_id t.0 (take k ts) ≡ true) ⊎ All (λ g. g.1 ≤ t.1) (take k ts)) ts
Rises-take k [] h = tt
Rises-take zero (t ∷ ts) h = (inr tt, Rises-take zero ts h.1)
Rises-take (suc k) (t ∷ ts) h =
    (inl (ground (arith, beq_refl t.0)), both ts h.0 (Rises-take k ts h.1))
  where
    both :
        (us : List Term)
        → All (λ u. t.1 ≤ u.1) us
        → All (λ u. (has_id u.0 (take k ts) ≡ true) ⊎ All (λ g. g.1 ≤ u.1) (take k ts)) us
        → All (λ u. (has_id u.0 (t ∷ take k ts) ≡ true) ⊎ All (λ g. g.1 ≤ u.1) (t ∷ take k ts)) us
    both [] l m = tt
    both (u ∷ us) l m = (
      elim m.0 [ inl there ↦ inl (ground (arith, there)) | inr below ↦ inr (l.0, below) ],
      both us l.1 m.1,
    )

length-place_term : (t : Term) (ts : List Term) → length (place_term t ts) ≡ suc (length ts)
unfolding place_term
length-place_term t [] = refl
length-place_term t (u ∷ ts) = ground (arith, length-place_term t ts)

pub length-sort_terms : (ts : List Term) → length (sort_terms ts) ≡ length ts
unfolding sort_terms
length-sort_terms [] = refl
length-sort_terms (t ∷ ts) = length-place_term t (sort_terms ts) ∙ ap suc (length-sort_terms ts)
