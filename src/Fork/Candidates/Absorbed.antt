-- ===== src/Fork/Candidates/Absorbed.antt =====
-- What dedupe of internal/fork/fork.go puts into the first candidate of a topic.
use interest_memory.Prelude.{
  ℕ, ◌≡◌, ◌≢◌, sym, ap, subst, ◌∙◌, true, false, List, [], ◌∷◌, nat_eq, list_beq, list_beq_iff,
  arith, Bool-cases, inl, inr, Text, Float, All, All-append,
}
use interest_memory.Fork.Candidates.{Candidate, place, dedupe_step, dedupe_loop, dedupe}
use interest_memory.Fork.Candidates.Dedupe.{
  text_eq, key, has_key, DistinctTopics, Absorbs, key-merge_into, merge_into-Absorbs,
  merge_into-Absorbs_old, Absorbs-refl,
}
use interest_memory.Fork.Candidates.Topics.{step-Distinct, has_key-step}

module _ (fl : Float) (lower : ℕ → ℕ) where
  open fl use {F}

  -- Whatever has the topic of `c` has all that `c` has.
  abbrev pub Holds : Candidate F → List (Candidate F) → Type 0
  Holds c out =
      (has_key fl lower (key fl lower c) out ≡ true)
      × All (λ o. key fl lower o ≡ key fl lower c → Absorbs fl lower o c) out

  place-Holds_old :
      (d c : Candidate F) (out : List (Candidate F))
      → All (λ o. key fl lower o ≡ key fl lower d → Absorbs fl lower o d) out
      → (key fl lower c ≡ key fl lower d → has_key fl lower (key fl lower c) out ≡ true)
      → All
          (λ o. key fl lower o ≡ key fl lower d → Absorbs fl lower o d)
          (place fl lower (key fl lower c) c out)
  unfolding place
  place-Holds_old d c [] a found = (λ e. let f = found e in cc, tt)
  place-Holds_old d c (m ∷ out) a found =
      elim (Bool-cases (list_beq (key fl lower m) (key fl lower c))) [
        | inl same ↦
            let k = key-merge_into fl lower m c (sym ((list_beq_iff _ _).0 same)) in
            rw same ((λ e. merge_into-Absorbs_old fl lower m c d (a.0 (sym k ∙ e))), a.1)
        | inr differs ↦
            rw differs (a.0, place-Holds_old d c out a.1 (λ e. ground (arith, found e, differs)))
      ]

  All-absent :
      (c : Candidate F) (k : Text) (out : List (Candidate F))
      → has_key fl lower k out ≡ false
      → All (λ o. key fl lower o ≡ k → Absorbs fl lower o c) out
  All-absent c k [] h = tt
  All-absent c k (m ∷ out) h = (
    (λ e. let b = (list_beq_iff (key fl lower m) k).1 e in absurd (ground arith)),
    All-absent c k out (ground arith),
  )

  place-Holds_new :
      (c : Candidate F) (out : List (Candidate F))
      → DistinctTopics fl lower out
      → key fl lower c ≢ []
      → All
          (λ o. key fl lower o ≡ key fl lower c → Absorbs fl lower o c)
          (place fl lower (key fl lower c) c out)
  unfolding place
  place-Holds_new c [] d h = ((λ e. Absorbs-refl fl lower c), tt)
  place-Holds_new c (m ∷ out) d h = elim (Bool-cases (list_beq (key fl lower m) (key fl lower c))) [
    | inl same ↦
        let e = (list_beq_iff _ _).0 same in
        rw same (
          (λ _. merge_into-Absorbs fl lower m c),
          All-absent c (key fl lower c) out
              (subst (λ u. has_key fl lower u out ≡ false) e (d.0 (λ q. h (sym e ∙ q)))),
        )
    | inr differs ↦ rw differs (
      (λ e. let b = (list_beq_iff (key fl lower m) (key fl lower c)).1 e in cc),
      place-Holds_new c out d.1 h,
    )
  ]

  step-Holds_old :
      (d c : Candidate F) (out : List (Candidate F))
      → key fl lower d ≢ []
      → Holds d out
      → Holds d (dedupe_step fl lower out c)
  unfolding dedupe_step
  step-Holds_old d c out h (found, a) = (
    found',
    elim (Bool-cases (list_beq (key fl lower c) [])) [
      | inl empty ↦
          let e = (list_beq_iff _ _).0 empty in
          rw empty (All-append _ out (c ∷ []) a ((λ q. absurd (h (sym q ∙ e))), tt))
      | inr full ↦
          rw full (place-Holds_old d c out a (λ e. ap (λ u. has_key fl lower u out) e ∙ found))
    ],
  )
    where
      found' : has_key fl lower (key fl lower d) (dedupe_step fl lower out c) ≡ true
      found' = rw (has_key-step fl lower (key fl lower d) out c, found)

  step-Holds_new :
      (c : Candidate F) (out : List (Candidate F))
      → DistinctTopics fl lower out
      → key fl lower c ≢ []
      → Holds c (dedupe_step fl lower out c)
  unfolding dedupe_step
  step-Holds_new c out d h = (
    found,
    elim (Bool-cases (list_beq (key fl lower c) [])) [
      | inl empty ↦ absurd (h ((list_beq_iff _ _).0 empty))
      | inr full ↦ rw full (place-Holds_new c out d h)
    ],
  )
    where
      found : has_key fl lower (key fl lower c) (dedupe_step fl lower out c) ≡ true
      found =
          has_key-step fl lower (key fl lower c) out c
          ∙ ground (arith, list_beq_iff (key fl lower c) (key fl lower c))

  loop-Holds_old :
      (d : Candidate F) (cs out : List (Candidate F))
      → key fl lower d ≢ []
      → Holds d out
      → Holds d (dedupe_loop fl lower out cs)
  unfolding dedupe_loop
  loop-Holds_old d [] out h held = held
  loop-Holds_old d (c ∷ cs) out h held =
      loop-Holds_old d cs (dedupe_step fl lower out c) h (step-Holds_old d c out h held)

  loop-Holds :
      (cs out : List (Candidate F))
      → DistinctTopics fl lower out
      → All (λ c. key fl lower c ≢ [] → Holds c (dedupe_loop fl lower out cs)) cs
  unfolding dedupe_loop
  loop-Holds [] out d = tt
  loop-Holds (c ∷ cs) out d = (
    (λ h. loop-Holds_old c cs (dedupe_step fl lower out c) h (step-Holds_new c out d h)),
    loop-Holds cs (dedupe_step fl lower out c) (step-Distinct fl lower out c d),
  )

  -- For each candidate with a topic that is not blank, dedupe returns one of that topic, and that one
  -- is no less confident, has all its tags, and its turns do not end before.
  pub dedupe-Holds :
      (cands : List (Candidate F))
      → All (λ c. key fl lower c ≢ [] → Holds c (dedupe fl lower cands)) cands
  unfolding dedupe
  dedupe-Holds cands = loop-Holds cands [] tt
