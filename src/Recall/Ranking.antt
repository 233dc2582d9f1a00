-- ===== src/Recall/Ranking.antt =====
-- The merged, ranked and capped hits of internal/recall/recall.go.
use interest_memory.Prelude.{
  ℕ, zero, suc, ◌≤◌, ◌≡◌, ◌⊎◌, inl, inr, refl, sym, ap, ◌∙◌, subst, true, false, Option, none, some,
  List, [], ◌∷◌, text_eq, ◌==◌, Text, arith, Float, if◌then◌else◌, Bool-cases, beq_refl, All,
  All-map, All-take, take, length, length-take-le, Among, Among-cons,
}
use interest_memory.Vec.{Hit}
use interest_memory.Recall.{contains, hit_key, dedupe_seen, dedupe_hits, place_hit, sort_hits, rank}

module _ {F : Type 0} where
  -- The first hit with a key.
  abbrev pub find_hit : Text → List (Hit F) → Option (Hit F)
  find_hit k [] = none
  find_hit k (h ∷ hits) = if hit_key h == k then some h else find_hit k hits

  find_hit-dedupe_seen :
      (seen : List Text) (hits : List (Hit F)) (k : Text)
      → find_hit k (dedupe_seen seen hits) ≡ (if contains seen k then none else find_hit k hits)
  find_hit-dedupe_seen seen [] k = ground arith
  find_hit-dedupe_seen seen (h ∷ hits) k = ground (
    arith,
    find_hit-dedupe_seen (hit_key h ∷ seen) hits k,
    find_hit-dedupe_seen seen hits k,
    text_eq.beq_iff (hit_key h) k,
  )

  abbrev pub DistinctHits : List (Hit F) → Type 0
  DistinctHits [] = Unit
  DistinctHits (h ∷ hits) = (find_hit (hit_key h) hits ≡ none) × DistinctHits hits

  dedupe_seen-Distinct :
      (seen : List Text) (hits : List (Hit F)) → DistinctHits (dedupe_seen seen hits)
  dedupe_seen-Distinct seen [] = tt
  dedupe_seen-Distinct seen (h ∷ hits) = ground (
    arith,
    find_hit-dedupe_seen (hit_key h ∷ seen) hits (hit_key h),
    beq_refl (hit_key h),
    dedupe_seen-Distinct (hit_key h ∷ seen) hits,
    dedupe_seen-Distinct seen hits,
  )

  -- dedupeHits leaves each pair of an agent and an id once, as the key tells pairs apart, and keeps
  -- its first hit.
  dedupe_hits-Distinct :
      (hits : List (Hit F))
      → DistinctHits (dedupe_hits hits)
        × ((k : Text) → find_hit k (dedupe_hits hits) ≡ find_hit k hits)
  unfolding dedupe_hits
  dedupe_hits-Distinct hits = (dedupe_seen-Distinct [] hits, λ k. find_hit-dedupe_seen [] hits k)

module _ (fl : Float) where
  open fl use {F, lt, lt_irrefl, lt_trans}

  -- Scores are comparable, as numbers that are not NaN are.
  abbrev pub Comparable : Type 0
  Comparable = (a b c : F) → lt a b ≡ false → lt b c ≡ false → lt a c ≡ false

  -- No hit is before one with a higher score.
  abbrev pub Falls : List (Hit F) → Type 0
  Falls [] = Unit
  Falls (h ∷ hits) = All (λ k. lt h.score k.score ≡ false) hits × Falls hits

  lt_asym : (a b : F) → lt a b ≡ true → lt b a ≡ false
  lt_asym a b q = ground (arith, lt_trans a b a, lt_irrefl a, q)

  All-place_hit :
      (P : Hit F → Type 0) (h : Hit F) (ks : List (Hit F))
      → P h
      → All P ks
      → All P (place_hit fl h ks)
  unfolding place_hit
  All-place_hit P h [] p all = (p, tt)
  All-place_hit P h (k ∷ ks) p all = elim (Bool-cases (lt h.score k.score)) [
    | inl less ↦ rw less (all.0, All-place_hit P h ks p all.1)
    | inr here ↦ rw here (p, all)
  ]

  place_hit-Falls :
      Comparable → (h : Hit F) (ks : List (Hit F)) → Falls ks → Falls (place_hit fl h ks)
  unfolding place_hit
  place_hit-Falls comp h [] f = (tt, tt)
  place_hit-Falls comp h (k ∷ ks) f = elim (Bool-cases (lt h.score k.score)) [
    | inl less ↦ rw less (
      All-place_hit (λ j. lt k.score j.score ≡ false) h ks (lt_asym h.score k.score less) f.0,
      place_hit-Falls comp h ks f.1,
    )
    | inr here ↦ rw here ((here, All-map (λ j q. comp h.score k.score j.score here q) ks f.0), f)
  ]

  sort_hits-Falls : Comparable → (hits : List (Hit F)) → Falls (sort_hits fl hits)
  unfolding sort_hits
  sort_hits-Falls comp [] = tt
  sort_hits-Falls comp (h ∷ hits) =
      place_hit-Falls comp h (sort_hits fl hits) (sort_hits-Falls comp hits)

  -- Sorting keeps the keys.
  find_hit-place_hit :
      (h : Hit F) (ks : List (Hit F)) (k : Text)
      → find_hit (hit_key h) ks ≡ none
      → find_hit k (place_hit fl h ks) ≡ find_hit k (h ∷ ks)
  unfolding place_hit
  find_hit-place_hit h [] k new = refl
  find_hit-place_hit h (j ∷ ks) k new = ground (
    arith,
    find_hit-place_hit h ks k,
    text_eq.beq_iff (hit_key j) k,
    text_eq.beq_iff (hit_key h) k,
    text_eq.beq_iff (hit_key j) (hit_key h),
    new,
  )

  place_hit-Distinct :
      (h : Hit F) (ks : List (Hit F))
      → find_hit (hit_key h) ks ≡ none
      → DistinctHits ks
      → DistinctHits (place_hit fl h ks)
  unfolding place_hit
  place_hit-Distinct h [] new d = (refl, tt)
  place_hit-Distinct h (j ∷ ks) new d = ground (
    arith,
    find_hit-place_hit h ks (hit_key j),
    place_hit-Distinct h ks,
    text_eq.beq_iff (hit_key j) (hit_key h),
    text_eq.beq_iff (hit_key h) (hit_key j),
    new,
    d.0,
  )

  sort_hits-Distinct :
      (hits : List (Hit F))
      → DistinctHits hits
      → DistinctHits (sort_hits fl hits)
        × ((k : Text) → find_hit k (sort_hits fl hits) ≡ find_hit k hits)
  unfolding sort_hits
  sort_hits-Distinct [] d = (tt, λ k. refl)
  sort_hits-Distinct (h ∷ hits) d =
      let (d', same) = sort_hits-Distinct hits d.1 in
      let new : find_hit (hit_key h) (sort_hits fl hits) ≡ none = same (hit_key h) ∙ d.0 in
      (
        place_hit-Distinct h (sort_hits fl hits) new d',
        λ k.
            find_hit-place_hit h (sort_hits fl hits) k new
            ∙ ap (λ u. if hit_key h == k then some h else u) (same k),
      )

module _ {F : Type 0} where
  find_hit-take :
      (n : ℕ) (l : List (Hit F)) (k : Text) → find_hit k l ≡ none → find_hit k (take n l) ≡ none
  find_hit-take zero l k h = refl
  find_hit-take (suc n) [] k h = refl
  find_hit-take (suc n) (j ∷ l) k h = ground (arith, find_hit-take n l k, h)

  Distinct-take : (n : ℕ) (l : List (Hit F)) → DistinctHits l → DistinctHits (take n l)
  Distinct-take zero l d = tt
  Distinct-take (suc n) [] d = tt
  Distinct-take (suc n) (j ∷ l) d = (find_hit-take n l (hit_key j) d.0, Distinct-take n l d.1)

  -- In a list of distinct keys each hit is found by its key.
  Distinct-found :
      (l : List (Hit F)) → DistinctHits l → All (λ h. find_hit (hit_key h) l ≡ some h) l
  Distinct-found [] d = tt
  Distinct-found (j ∷ l) d = (
    ground (arith, beq_refl (hit_key j)),
    All-map (λ h found. ground (arith, found, d.0, text_eq.beq_iff (hit_key j) (hit_key h))) l
        (Distinct-found l d.1),
  )

  find_hit-All :
      (P : Hit F → Type 0) (l : List (Hit F)) (k : Text) (h : Hit F)
      → All P l
      → find_hit k l ≡ some h
      → P h
  find_hit-All P [] k h all found = absurd (ground (arith, found))
  find_hit-All P (j ∷ l) k h all found = elim (Bool-cases (hit_key j == k)) [
    | inl here ↦ let same : j ≡ h = ground (arith, found, here) in subst P same all.0
    | inr other ↦ find_hit-All P l k h all.1 (ground (arith, found, other))
  ]

module _ (fl : Float) where
  open fl use {F, lt}

  -- A hit is kept, or those kept are as many as asked for and score no less.
  abbrev pub Kept : ℕ → List (Hit F) → Hit F → Type 0
  Kept top_k kept h =
      Among h kept ⊎ ((length kept ≡ top_k) × All (λ g. lt g.score h.score ≡ false) kept)

  take-Kept : (n : ℕ) (l : List (Hit F)) → Falls fl l → All (Kept n (take n l)) l
  take-Kept zero [] f = tt
  take-Kept zero (j ∷ l) f = (inr (refl, tt), take-Kept zero l f.1)
  take-Kept (suc n) [] f = tt
  take-Kept (suc n) (j ∷ l) f = (inl ([], take n l, refl), more l f.0 (take-Kept n l f.1))
    where
      more :
          (hs : List (Hit F))
          → All (λ k. lt j.score k.score ≡ false) hs
          → All (Kept n (take n l)) hs
          → All (Kept (suc n) (j ∷ take n l)) hs
      more [] below kept = tt
      more (h ∷ hs) below kept = (
        elim kept.0 [
          | inl i ↦ inl (Among-cons h j (take n l) i)
          | inr (full, all) ↦ inr (ap suc full, (below.0, all))
        ],
        more hs below.1 kept.1,
      )

  Falls-take : (n : ℕ) (l : List (Hit F)) → Falls fl l → Falls fl (take n l)
  Falls-take zero l f = tt
  Falls-take (suc n) [] f = tt
  Falls-take (suc n) (j ∷ l) f = (All-take _ n l f.0, Falls-take n l f.1)

  -- What Recall and Search keep of the hits of all namespaces, where scores are comparable: at most
  -- `top_k` hits, of distinct keys, by falling scores, each the first one of its key; and a first
  -- hit that is left out scores no more than each that is kept, of which there are `top_k`.
  pub rank-Falls :
      (top_k : ℕ) (all : List (Hit F))
      → Comparable fl
      → (length (rank fl top_k all) ≤ top_k)
        × DistinctHits (rank fl top_k all)
        × Falls fl (rank fl top_k all)
        × All (λ h. find_hit (hit_key h) all ≡ some h) (rank fl top_k all)
        × ((k : Text) (h : Hit F) → find_hit k all ≡ some h → Kept top_k (rank fl top_k all) h)
  unfolding rank
  rank-Falls top_k all comp =
      let (distinct, first) = dedupe_hits-Distinct all in
      let (distinct', same) = sort_hits-Distinct fl (dedupe_hits all) distinct in
      let l = sort_hits fl (dedupe_hits all) in
      let falls = sort_hits-Falls fl comp (dedupe_hits all) in
      (
        length-take-le top_k l,
        Distinct-take top_k l distinct',
        Falls-take top_k l falls,
        All-take _ top_k l (
            All-map (λ h found. sym (first (hit_key h)) ∙ sym (same (hit_key h)) ∙ found) l
              (Distinct-found l distinct')),
        λ k h found.
            find_hit-All (Kept top_k (take top_k l)) l k h (take-Kept top_k l falls)
              (same k ∙ first k ∙ found),
      )
