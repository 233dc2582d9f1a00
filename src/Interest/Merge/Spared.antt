-- ===== src/Interest/Merge/Spared.antt =====
-- What mergeCluster of internal/interest/merge.go emits.
use interest_memory.Prelude.{
  Among, Among-left, Among-right, Among-keep, ◌≡◌, ◌⊎◌, inl, inr, refl, true, false, not, ◌||◌,
  Option, none, some, List, [], ◌∷◌, ◌++◌, ◌==◌, string_eq, arith, Text, All, keep, All-map,
  Bool-cases, Option-cases,
}
use interest_memory.Fork.Candidates.{contains_string}
use interest_memory.Interest.Merge.{
  Point, MergeVerdict, candidate_text, merge_candidate_to_fork, fuses, sources, verdict_points,
  verdict_loop, merge_cluster,
}

contains_string-append :
    (xs ys : List Text) (v : Text)
    → contains_string (xs ++ ys) v ≡ (contains_string xs v || contains_string ys v)
contains_string-append [] ys v = refl
contains_string-append (x ∷ xs) ys v = ground (arith, contains_string-append xs ys v)

module _ {F : Type 0} (embed : Text → Option (List F)) where
  -- The fused candidate of a verdict has no embedding.
  abbrev pub Unembedded : MergeVerdict F → Type 0
  Unembedded vd =
      (fuses vd ≡ true) × (embed (candidate_text (merge_candidate_to_fork vd.merged)) ≡ none)

  -- Some verdict's has none.
  abbrev pub SomeUnembedded : List (MergeVerdict F) → Type 0
  SomeUnembedded verdicts = (vd : MergeVerdict F) × Among vd verdicts × Unembedded vd

  -- A fusing verdict's candidate stands in the list, with its embedding.
  abbrev pub Emitted : List (Point F) → MergeVerdict F → Type 0
  Emitted out vd =
      fuses vd ≡ true
      → (vec : List F) × (embed (candidate_text (merge_candidate_to_fork vd.merged)) ≡ some vec)
        × Among {A = Point F} (record { candidate = merge_candidate_to_fork vd.merged; vec = vec })
            out

  -- Each verdict that names the point's topic keeps it.
  abbrev pub Spared : Point F → List (MergeVerdict F) → Type 0
  Spared p verdicts =
      All
        (λ vd.
          sources vd.source_topics p ≡ true → (fuses vd ≡ false) × (vd.action == "keep" ≡ true))
        verdicts

  verdict_points-cases :
      (grp : List (Point F)) (vd : MergeVerdict F)
      → (Unembedded vd × (verdict_points embed grp vd ≡ none))
        ⊎ ((ps : List (Point F)) × (verdict_points embed grp vd ≡ some ps)
            × Emitted ps vd
            × ((p : Point F)
                → Among p grp
                → Spared p (vd ∷ [])
                → sources vd.source_topics p ≡ true
                → Among p ps))
  unfolding verdict_points
  verdict_points-cases grp vd = elim (Bool-cases (fuses vd)) [
    | inl fusing ↦
        elim (Option-cases (embed (candidate_text (merge_candidate_to_fork vd.merged)))) [
          | inl fails ↦ inl ((fusing, fails), rw (fusing, fails) refl)
          | inr (vec, ok) ↦ inr (
            record { candidate = merge_candidate_to_fork vd.merged; vec = vec } ∷ [],
            rw (fusing, ok) refl,
            λ h. (vec, ok, ([], [], refl)),
            λ p i s n. absurd (ground (arith, fusing, (s.0 n).0)),
          )
        ]
    | inr plain ↦ elim (Bool-cases (vd.action == "keep")) [
      | inl kept ↦ inr (
        keep (sources vd.source_topics) grp,
        rw (plain, kept) refl,
        λ h. absurd (ground (arith, plain, h)),
        λ p i s n. Among-keep (sources vd.source_topics) p grp n i,
      )
      | inr unknown ↦ inr (
        [],
        rw (plain, unknown) refl,
        λ h. absurd (ground (arith, plain, h)),
        λ p i s n. absurd (ground (arith, unknown, (s.0 n).1)),
      )
    ]
  ]

  -- A verdict's own points stand among those of a longer list.
  Emitted-mono :
      (vd : MergeVerdict F) (ps out : List (Point F))
      → ((p : Point F) → Among p ps → Among p out)
      → Emitted ps vd
      → Emitted out vd
  Emitted-mono vd ps out more e h = let (vec, ok, i) = e h in (vec, ok, more _ i)

  -- The loop fails at a verdict, or emits what they ask for, and loses no point that it has.
  verdict_loop-cases :
      (grp : List (Point F)) (verdicts : List (MergeVerdict F)) (out : List (Point F))
      (consumed : List Text)
      → (SomeUnembedded verdicts × (verdict_loop embed grp verdicts out consumed ≡ none))
        ⊎ ((out' : List (Point F)) × (consumed' : List Text) × (verdict_loop embed grp verdicts out
                consumed
              ≡ some (out', consumed'))
            × ((p : Point F) → Among p out → Among p out')
            × All (Emitted out') verdicts
            × ((p : Point F)
                → Among p grp
                → Spared p verdicts
                → sources consumed' p ≡ true
                → (sources consumed p ≡ true) ⊎ Among p out'))
  unfolding verdict_loop
  verdict_loop-cases grp [] out consumed = inr (out, consumed, refl, λ p i. i, tt, λ p i s h. inl h)
  verdict_loop-cases grp (vd ∷ verdicts) out consumed = elim (verdict_points-cases grp vd) [
    | inl (bad, e) ↦ inl ((vd, ([], verdicts, refl), bad), ground (arith, e))
    | inr (ps, e, emits, spares) ↦
        elim (verdict_loop-cases grp verdicts (out ++ ps) (consumed ++ vd.source_topics)) [
          | inl ((w, at, bad), fails) ↦
              inl ((w, Among-right w (vd ∷ []) verdicts at, bad), rw e fails)
          | inr (out', consumed', done, more, all, rest) ↦ inr (
            out',
            consumed',
            rw e done,
            λ p i. more p (Among-left p out ps i),
            (Emitted-mono vd ps out' (λ p i. more p (Among-right p out ps i)) emits, all),
            λ p i s h. elim (rest p i s.1 h) [
              | inr there ↦ inr there
              | inl named ↦ elim (Bool-cases (sources vd.source_topics p)) [
                | inl here ↦ inr (more p (Among-right p out ps (spares p i (s.0, tt) here)))
                | inr not_here ↦ inl (
                    ground (
                      arith,
                      named,
                      not_here,
                      contains_string-append consumed vd.source_topics p.candidate.topic,
                    ))
              ]
            ],
          )
        ]
  ]

  -- On a reply, mergeCluster fails only where the fused candidate of a verdict has no embedding.
  -- Else its result has the fused candidate of each merge or compose verdict, with its embedding,
  -- and each point of the cluster that no verdict names but to keep it, unchanged.
  pub merge_cluster-Spared :
      (grp : List (Point F)) (verdicts : List (MergeVerdict F))
      → (SomeUnembedded verdicts × (merge_cluster embed grp (some verdicts) ≡ none))
        ⊎ ((out : List (Point F)) × (merge_cluster embed grp (some verdicts) ≡ some out)
            × All (Emitted out) verdicts
            × ((p : Point F) → Among p grp → Spared p verdicts → Among p out))
  unfolding merge_cluster
  merge_cluster-Spared grp verdicts = elim (verdict_loop-cases grp verdicts [] []) [
    | inl (bad, e) ↦ inl (bad, ground (arith, e))
    | inr (out, consumed, e, _, all, rest) ↦
        let left = keep (λ p. not (sources consumed p)) grp in
        inr (
          out ++ left,
          ground (arith, e),
          All-map (λ vd h. Emitted-mono vd out (out ++ left) (λ p i. Among-left p out left i) h)
              verdicts all,
          λ p i s. elim (Bool-cases (sources consumed p)) [
            | inl named ↦ elim (rest p i s named) [
              | inl none_yet ↦ absurd (ground (arith, none_yet))
              | inr there ↦ Among-left p out left there
            ]
            | inr free ↦
                Among-right p out left
                  (Among-keep (λ q. not (sources consumed q)) p grp (ground (arith, free)) i)
          ],
        )
  ]
