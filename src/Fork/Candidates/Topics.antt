-- ===== src/Fork/Candidates/Topics.antt =====
-- The topics that dedupe of internal/fork/fork.go returns.
use interest_memory.Prelude.{
  ℕ, ◌≡◌, ◌≢◌, refl, sym, ap, subst, ◌∙◌, true, false, ◌||◌, List, [], ◌∷◌, ◌++◌, nat_eq, list_beq,
  list_beq_iff, arith, Bool-cases, inl, inr, Text, Float,
}
use mathlib.Core.List.{append_assoc, append-nil}
use interest_memory.Fork.Candidates.{Candidate, place, dedupe_step, dedupe_loop, dedupe}
use interest_memory.Fork.Candidates.Dedupe.{text_eq, key, has_key, DistinctTopics, key-merge_into}

nil_beq : (k : Text) → k ≢ [] → list_beq [] k ≡ false
nil_beq [] h = absurd (h refl)
nil_beq (x ∷ k) h = refl

module _ (fl : Float) (lower : ℕ → ℕ) where
  open fl use {F}

  has_key-append :
      (j : Text) (out : List (Candidate F)) (c : Candidate F)
      → has_key fl lower j (out ++ c ∷ []) ≡ (has_key fl lower j out || list_beq (key fl lower c) j)
  has_key-append j [] c = ground arith
  has_key-append j (m ∷ out) c = ground (arith, has_key-append j out c)

  has_key-place :
      (j : Text) (c : Candidate F) (out : List (Candidate F))
      → has_key fl lower j (place fl lower (key fl lower c) c out)
        ≡ (has_key fl lower j out || list_beq (key fl lower c) j)
  unfolding place
  has_key-place j c [] = ground arith
  has_key-place j c (m ∷ out) = elim (Bool-cases (list_beq (key fl lower m) (key fl lower c))) [
    | inl same ↦
        let e = sym ((list_beq_iff _ _).0 same) in
        rw (same, key-merge_into fl lower m c e, e) (ground arith)
    | inr differs ↦ rw differs (ground (arith, has_key-place j c out))
  ]

  place-Distinct :
      (c : Candidate F) (out : List (Candidate F))
      → DistinctTopics fl lower out
      → DistinctTopics fl lower (place fl lower (key fl lower c) c out)
  unfolding place
  place-Distinct c [] d = (λ h. refl, tt)
  place-Distinct c (m ∷ out) d = elim (Bool-cases (list_beq (key fl lower m) (key fl lower c))) [
    | inl same ↦
        let e = sym ((list_beq_iff _ _).0 same) in rw (same, key-merge_into fl lower m c e) d
    | inr differs ↦ rw differs (
      (λ h.
          rw (has_key-place (key fl lower m) c out, d.0 h)
            (ground (
              arith,
              differs,
              list_beq_iff (key fl lower m) (key fl lower c),
              list_beq_iff (key fl lower c) (key fl lower m),
            ))),
      place-Distinct c out d.1,
    )
  ]

  append-Distinct :
      (c : Candidate F) (out : List (Candidate F))
      → key fl lower c ≡ []
      → DistinctTopics fl lower out
      → DistinctTopics fl lower (out ++ c ∷ [])
  append-Distinct c [] e d = ((λ h. refl), tt)
  append-Distinct c (m ∷ out) e d = (
    (λ h. rw (has_key-append (key fl lower m) out c, d.0 h, e) (nil_beq (key fl lower m) h)),
    append-Distinct c out e d.1,
  )

  pub step-Distinct :
      (out : List (Candidate F)) (c : Candidate F)
      → DistinctTopics fl lower out
      → DistinctTopics fl lower (dedupe_step fl lower out c)
  unfolding dedupe_step
  step-Distinct out c d = elim (Bool-cases (list_beq (key fl lower c) [])) [
    | inl empty ↦ rw empty (append-Distinct c out ((list_beq_iff _ _).0 empty) d)
    | inr full ↦ rw full (place-Distinct c out d)
  ]

  pub has_key-step :
      (j : Text) (out : List (Candidate F)) (c : Candidate F)
      → has_key fl lower j (dedupe_step fl lower out c)
        ≡ (has_key fl lower j out || list_beq (key fl lower c) j)
  unfolding dedupe_step
  has_key-step j out c = elim (Bool-cases (list_beq (key fl lower c) [])) [
    | inl empty ↦ rw empty (has_key-append j out c)
    | inr full ↦ rw full (has_key-place j c out)
  ]

  loop-Distinct :
      (cs out : List (Candidate F))
      → DistinctTopics fl lower out
      → DistinctTopics fl lower (dedupe_loop fl lower out cs)
  unfolding dedupe_loop
  loop-Distinct [] out d = d
  loop-Distinct (c ∷ cs) out d =
      loop-Distinct cs (dedupe_step fl lower out c) (step-Distinct out c d)

  has_key-loop :
      (j : Text) (cs out : List (Candidate F))
      → has_key fl lower j (dedupe_loop fl lower out cs)
        ≡ (has_key fl lower j out || has_key fl lower j cs)
  unfolding dedupe_loop
  has_key-loop j [] out = ground arith
  has_key-loop j (c ∷ cs) out =
      ground (arith, has_key-loop j cs (dedupe_step fl lower out c), has_key-step j out c)

  -- No two candidates that dedupe returns have the same topic, up to case and spaces, unless that
  -- is empty; and its topics are those of its input.
  pub dedupe-DistinctTopics :
      (cands : List (Candidate F))
      → DistinctTopics fl lower (dedupe fl lower cands)
        × ((j : Text) → has_key fl lower j (dedupe fl lower cands) ≡ has_key fl lower j cands)
  unfolding dedupe
  dedupe-DistinctTopics cands = (loop-Distinct cands [] tt, λ j. has_key-loop j cands [])

  place_new :
      (c : Candidate F) (out : List (Candidate F))
      → has_key fl lower (key fl lower c) out ≡ false
      → place fl lower (key fl lower c) c out ≡ out ++ c ∷ []
  unfolding place
  place_new c [] h = refl
  place_new c (m ∷ out) h = ground (arith, place_new c out)

  has_key-middle :
      (out : List (Candidate F)) (c : Candidate F) (cs : List (Candidate F))
      → has_key fl lower (key fl lower c) (out ++ c ∷ cs) ≡ true
  has_key-middle [] c cs = ground (arith, list_beq_iff (key fl lower c) (key fl lower c))
  has_key-middle (m ∷ out) c cs = ground (arith, has_key-middle out c cs)

  append_first-Distinct :
      (out : List (Candidate F)) (c : Candidate F) (cs : List (Candidate F))
      → DistinctTopics fl lower (out ++ c ∷ cs)
      → key fl lower c ≢ []
      → has_key fl lower (key fl lower c) out ≡ false
  append_first-Distinct [] c cs d h = refl
  append_first-Distinct (m ∷ out) c cs d h =
      elim (Bool-cases (list_beq (key fl lower m) (key fl lower c))) [
        | inr differs ↦ rw differs (append_first-Distinct out c cs d.1 h)
        | inl same ↦
            let e = (list_beq_iff _ _).0 same in
            let no_more = d.0 (λ q. h (sym e ∙ q)) in
            let still = has_key-middle out c cs in
            let clash : true ≡ false =
              sym still ∙ ap (λ u. has_key fl lower u (out ++ c ∷ cs)) (sym e) ∙ no_more in
            cc
      ]

  step_Distinct_id :
      (out : List (Candidate F)) (c : Candidate F) (cs : List (Candidate F))
      → DistinctTopics fl lower (out ++ c ∷ cs)
      → dedupe_step fl lower out c ≡ out ++ c ∷ []
  unfolding dedupe_step
  step_Distinct_id out c cs d = elim (Bool-cases (list_beq (key fl lower c) [])) [
    | inl empty ↦ rw empty
    | inr full ↦ rw full (
        place_new c out (
          append_first-Distinct out c cs d
            (λ q. let b = (list_beq_iff (key fl lower c) []).1 q in cc)))
  ]

  loop_Distinct_id :
      (cs out : List (Candidate F))
      → DistinctTopics fl lower (out ++ cs)
      → dedupe_loop fl lower out cs ≡ out ++ cs
  unfolding dedupe_loop
  loop_Distinct_id [] out d = sym (append-nil out)
  loop_Distinct_id (c ∷ cs) out d =
      let regroup = append_assoc out (c ∷ []) cs in
      ap (λ u. dedupe_loop fl lower u cs) (step_Distinct_id out c cs d)
      ∙ loop_Distinct_id cs (out ++ c ∷ []) (subst (DistinctTopics fl lower) (sym regroup) d)
      ∙ regroup

  -- Candidates without a repeated topic stay as they are; so a second dedupe changes nothing.
  dedupe-dedupe :
      (cands : List (Candidate F)) → dedupe fl lower (dedupe fl lower cands) ≡ dedupe fl lower cands
  unfolding dedupe
  dedupe-dedupe cands = loop_Distinct_id (dedupe fl lower cands) [] (dedupe-DistinctTopics cands).0
