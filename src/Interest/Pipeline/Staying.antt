-- ===== src/Interest/Pipeline/Staying.antt =====
-- The points that DedupeMerge (internal/interest/merge.go) keeps, and the clusters they stand in.
use interest_memory.Prelude.{
  Among, Among-left, Among-right, Among-cons, not_Among, Among-cases, ℕ, ◌≡◌, ◌⊎◌, inl, inr, refl,
  sym, ap, ◌∙◌, subst, Option, some, List, [], ◌∷◌, ◌++◌, Text, codes, Float, text_eq, ◌==◌, ◌↔◌,
  arith, if◌then◌else◌,
}
use interest_memory.Fork.Candidates.{Candidate}
use interest_memory.Interest.Merge.{
  Point, MergeVerdict, candidate_text, merge_candidate_to_fork, merge_cluster,
}
use interest_memory.Interest.Merge.Spared.{Spared, merge_cluster-Spared}
use interest_memory.Interest.Merge.Linked.{Linked, Linked-map, connected_components-Linked}
use interest_memory.Interest.Pipeline.{
  dedupe_candidates, embed_all, merge_group, merge_groups, merge_deduped, dedupe_merge,
}

-- The text that is embedded: the topic, and the reason on a line of its own if there is one.
abbrev pub topic_and_reason : {F : Type 0} → Candidate F → Text
topic_and_reason c = if c.reason == [] then c.topic else c.topic ++ codes "\n" ++ c.reason

candidate_text_lem : {F : Type 0} (c : Candidate F) → candidate_text c ≡ topic_and_reason c
unfolding candidate_text
candidate_text_lem c = refl

module _ {F : Type 0} (embed : Text → Option (List F)) where
  -- One of the candidates, with the embedding of its text.
  abbrev pub IsEmbedded : List (Candidate F) → Point F → Type 0
  IsEmbedded cands p = Among p.candidate cands × (embed (topic_and_reason p.candidate) ≡ some p.vec)

module _ {F : Type 0} (embed : Text → Option (List F))
    (chat : List (Point F) → Option (List (MergeVerdict F))) where
  -- A point of a cluster stays if it is alone, or if the verdicts on the cluster spare it.
  abbrev pub Stays : Point F → List (Point F) → Type 0
  Stays p grp =
      (grp ≡ p ∷ [])
      ⊎ ((verdicts : List (MergeVerdict F)) × (chat grp ≡ some verdicts) × Spared embed p verdicts)

module _ (fl : Float) (embed : Text → Option (List fl.F))
    (chat : List (Point fl.F) → Option (List (MergeVerdict fl.F))) where
  -- What becomes of a candidate: its text is embedded, its cluster has exactly the points of the run
  -- to which a chain of similar points leads from it, and it is in the result if it stays.
  abbrev pub Course : fl.F → List (Candidate fl.F) → List (Point fl.F) → Point fl.F → Type 0
  Course sim cands out p =
      (embed (topic_and_reason p.candidate) ≡ some p.vec)
      × ((grp : List (Point fl.F)) × ((q : Point fl.F)
            → Among q grp ↔ Linked fl (IsEmbedded embed cands) sim p q)
          × (Stays embed chat p grp → Among p out))

module _ {F : Type 0} (embed : Text → Option (List F))
    (chat : List (Point F) → Option (List (MergeVerdict F)))
    (embeds : (t : Text) → (v : List F) × (embed t ≡ some v))
    (answers : (grp : List (Point F))
      → (verdicts : List (MergeVerdict F)) × (chat grp ≡ some verdicts)) where
  embed_all-some :
      (cands : List (Candidate F))
      → (pts : List (Point F)) × (embed_all embed chat cands ≡ some pts)
        × ((p : Point F) → Among p pts ↔ IsEmbedded embed cands p)
  embed_all-some [] = ([], refl, λ p. ((λ i. not_Among p i), λ h. not_Among p.candidate h.0))
  embed_all-some (d ∷ cands) =
      let (v, e) = embeds (candidate_text d) in
      let (pts, rest, among) = embed_all-some cands in
      let first : Point F = record { candidate = d; vec = v } in
      let text : embed (topic_and_reason d) ≡ some v = ap embed (sym (candidate_text_lem d)) ∙ e in
      (
        first ∷ pts,
        ground (arith, e, rest),
        λ p. (
          (λ i. elim (Among-cases p first pts i) [
            | inl same ↦ subst (IsEmbedded embed (d ∷ cands)) same (([], cands, refl), text)
            | inr later ↦
                let (j, done) = (among p).0 later in (Among-cons p.candidate d cands j, done)
          ]),
          λ h. elim (Among-cases p.candidate d cands h.0) [
            | inl same ↦
                let vec : v ≡ p.vec =
                  ground (arith, text, h.1, ap (λ u. embed (topic_and_reason u)) same) in
                (
                  [],
                  pts,
                  ap (λ u. record { candidate = u; vec = v } ∷ pts) same
                      ∙ ap (λ u. record { candidate = p.candidate; vec = u } ∷ pts) vec,
                )
            | inr later ↦ Among-cons p first pts ((among p).1 (later, h.1))
          ],
        ),
      )

  cluster-some :
      (grp : List (Point F))
      → (out : List (Point F)) × (merge_cluster embed grp (chat grp) ≡ some out)
        × ((p : Point F)
            → Among p grp
            → (verdicts : List (MergeVerdict F)) → chat grp ≡ some verdicts
            → Spared embed p verdicts
            → Among p out)
  cluster-some grp =
      let (verdicts, said) = answers grp in
      elim (merge_cluster-Spared embed grp verdicts) [
        | inl ((vd, _, (_, bad)), _) ↦ absurd (
            let (v, ok) = embeds (candidate_text (merge_candidate_to_fork vd.merged)) in
            ground (arith, ok, bad))
        | inr (out, e, _, spares) ↦ (
          out,
          ap (merge_cluster embed grp) said ∙ e,
          λ p i vs asked s. spares p i (subst (Spared embed p) (ground (arith, said, asked)) s),
        )
      ]

  group-some :
      (grp : List (Point F))
      → (out : List (Point F)) × (merge_group embed chat grp ≡ some out)
        × ((p : Point F) → Among p grp → Stays embed chat p grp → Among p out)
  group-some [] = let (out, e, _) = cluster-some [] in (out, e, λ p i. not_Among p i)
  group-some (q ∷ []) = (q ∷ [], refl, λ p i s. i)
  group-some (q ∷ r ∷ grp) =
      let (out, e, spares) = cluster-some (q ∷ r ∷ grp) in
      (
        out,
        e,
        λ p i s. elim s [
          | inl alone ↦ absurd (ground (arith, alone))
          | inr (verdicts, said, spared) ↦ spares p i verdicts said spared
        ],
      )

  groups-some :
      (clusters : List (List (Point F)))
      → (out : List (Point F)) × (merge_groups embed chat clusters ≡ some out)
        × ((grp : List (Point F)) (p : Point F)
            → Among grp clusters
            → Among p grp
            → Stays embed chat p grp
            → Among p out)
  groups-some [] = ([], refl, λ grp p i. not_Among grp i)
  groups-some (g ∷ clusters) =
      let (r, e, stays) = group-some g in
      let (out, rest, later) = groups-some clusters in
      (
        r ++ out,
        ground (arith, e, rest),
        λ grp p i j s. elim (Among-cases grp g clusters i) [
          | inl same ↦
              Among-left p r out
                (stays p (subst (Among p) (sym same) j) (subst (Stays embed chat p) (sym same) s))
          | inr other ↦ Among-right p r out (later grp p other j s)
        ],
      )

module _ (fl : Float) (lower : ℕ → ℕ) (embed : Text → Option (List fl.F))
    (chat : List (Point fl.F) → Option (List (MergeVerdict fl.F)))
    (embeds : (t : Text) → (v : List fl.F) × (embed t ≡ some v))
    (answers : (grp : List (Point fl.F))
      → (verdicts : List (MergeVerdict fl.F)) × (chat grp ≡ some verdicts)) where
  deduped-Stays :
      (sim : fl.F) (cands : List (Candidate fl.F))
      → (out : List (Point fl.F)) × (merge_deduped fl lower embed chat sim cands ≡ some out)
        × ((c : Candidate fl.F)
            → Among c cands
            → (v : List fl.F) × Course fl embed chat sim cands out
                (record { candidate = c; vec = v }))
  deduped-Stays sim [] = ([], refl, λ c i. not_Among c i)
  deduped-Stays sim (d ∷ cands) =
      let (pts, e, among) = embed_all-some embed chat embeds answers (d ∷ cands) in
      let (clusters, f, _, covers) = connected_components-Linked fl pts sim in
      let (out, g, stays) = groups-some embed chat embeds answers clusters in
      let Run = IsEmbedded embed (d ∷ cands) in
      let Here = λ (r : Point fl.F). Among r pts in
      (
        out,
        rw (e, f) g,
        λ c i.
            let (v, text) = embeds (candidate_text c) in
            let p : Point fl.F = record { candidate = c; vec = v } in
            let shown = ap embed (sym (candidate_text_lem c)) ∙ text in
            let (grp, k, l, same) = covers p ((among p).1 (i, shown)) in
            (
              v,
              (
                shown,
                (
                  grp,
                  (λ q. (
                    (λ m. Linked-map fl Here Run sim (λ r. (among r).0) ((same q).0 m)),
                    λ m. (same q).1 (Linked-map fl Run Here sim (λ r. (among r).1) m),
                  )),
                  λ s. stays grp p k l s,
                ),
              ),
            ),
      )

  -- Where the embedder and the model answer each call, DedupeMerge ends with a result. Each
  -- candidate that the dedupe leaves gets the embedding of its topic and reason; its cluster has
  -- exactly the embedded candidates to which a chain leads from it, in which each is more similar to
  -- the next than the threshold, which is the default where none above 0 is given; and it stays in
  -- the result if it is alone there, or if the model's verdicts on the cluster name it only to keep
  -- it.
  pub dedupe_merge-Stays :
      (default_sim cluster_sim : fl.F) (cands : List (Candidate fl.F))
      → (out : List (Point fl.F)) × (dedupe_merge fl lower embed chat default_sim cluster_sim cands
          ≡ some out)
        × ((c : Candidate fl.F)
            → Among c (dedupe_candidates fl lower cands)
            → (v : List fl.F) × Course fl embed chat
                (if fl.le cluster_sim fl.zero_f then default_sim else cluster_sim)
                (dedupe_candidates fl lower cands)
                out
                (record { candidate = c; vec = v }))
  unfolding dedupe_merge
  dedupe_merge-Stays default_sim cluster_sim cands =
      deduped-Stays (if fl.le cluster_sim fl.zero_f then default_sim else cluster_sim)
        (dedupe_candidates fl lower cands)
