-- ===== src/Wiki/Related/Reached.antt =====
-- The pages that collectRelated of internal/wiki/reconcile.go finds.
use interest_memory.Prelude.{
  ℕ, zero, suc, ◌+◌, ◌<◌, ◌≡◌, ◌⊎◌, inl, inr, refl, sym, subst, string_eq, text_eq, nat_eq, true,
  false, ◌||◌, Option, none, some, List, [], ◌∷◌, ◌++◌, ◌==◌, Text, All, All-append, All-map, Among,
  Among-cons, Bool-cases, arith, list_beq_iff,
}
use interest_memory.Store.{Page, Edge}
use interest_memory.Recall.{contains}
use interest_memory.Store.Replace.{is_has_page}
use interest_memory.Wiki.Related.{
  Queries, fresh_ids, page_by_id, new_targets, new_sources, new_pages, edges_or_none, page_next,
  point_next, step_id, walk_ids, pages_of, collect_hops,
}

module _ {F : Type 0} (st : Queries F) where
  -- An edge of the store leads from one to the other, in either direction.
  abbrev pub Adjacent : Text → Text → Type 0
  Adjacent id next =
      ((e : Edge F) × Among e (edges_or_none (st.outlinks id)) × (e.target_id ≡ next))
      ⊎ ((e : Edge F) × Among e (edges_or_none (st.backlinks id)) × (e.source_id ≡ next))

-- The id is so many edges away from a seed.
pub data Hops {F : Type 0} (st : Queries F) (seeds : List Text) : ℕ → Text → Type 0 where
  at_seed : (id : Text) → Among id seeds → Hops st seeds 0 id
  over_edge :
      (k : ℕ) (id next : Text)
      → Hops st seeds k id
      → Adjacent st id next
      → Hops st seeds (suc k) next

abbrev pub EndsAt : {F : Type 0} → (Edge F → Text) → List (Edge F) → Text → Type 0
EndsAt {F = F} end es x = (e : Edge F) × Among e es × (end e ≡ x)

EndsAt-cons :
    {F : Type 0} (end : Edge F → Text) (e : Edge F) (es : List (Edge F)) (xs : List Text)
    → All (EndsAt end es) xs
    → All (EndsAt end (e ∷ es)) xs
EndsAt-cons end e es xs a = All-map (λ x h. (h.0, Among-cons h.0 e es h.1, h.2)) xs a

module _ {F : Type 0} (visited : List Text) where
  new_targets-EndsAt :
      (es : List (Edge F)) → All (EndsAt (λ e. e.target_id) es) (new_targets visited es)
  new_targets-EndsAt [] = tt
  new_targets-EndsAt (e ∷ es) =
      let rest =
        EndsAt-cons (λ d. d.target_id) e es (new_targets visited es) (new_targets-EndsAt es) in
      elim (Bool-cases (contains visited e.target_id)) [
        | inl old ↦ rw old rest
        | inr new ↦ rw new ((e, ([], es, refl), refl), rest)
      ]

  new_sources-EndsAt :
      (es : List (Edge F)) → All (EndsAt (λ e. e.source_id) es) (new_sources visited es)
  new_sources-EndsAt [] = tt
  new_sources-EndsAt (e ∷ es) =
      let rest =
        EndsAt-cons (λ d. d.source_id) e es (new_sources visited es) (new_sources-EndsAt es) in
      elim (Bool-cases (contains visited e.source_id)) [
        | inl old ↦ rw old rest
        | inr new ↦ rw new ((e, ([], es, refl), refl), rest)
      ]

  new_pages-EndsAt :
      (es : List (Edge F)) → All (EndsAt (λ e. e.target_id) es) (new_pages visited es)
  new_pages-EndsAt [] = tt
  new_pages-EndsAt (e ∷ es) =
      let rest = EndsAt-cons (λ d. d.target_id) e es (new_pages visited es) (new_pages-EndsAt es) in
      elim (Bool-cases (is_has_page e.kind)) [
        | inr other ↦ rw other rest
        | inl page ↦ elim (Bool-cases (contains visited e.target_id)) [
          | inl old ↦ rw (page, old) rest
          | inr new ↦ rw (page, new) ((e, ([], es, refl), refl), rest)
        ]
      ]

-- The first id of a queue is passed over, or visited.
pub fresh_ids-cases :
    (visited : List Text) (id : Text) (queue : List Text)
    → (((id == [] || contains visited id) ≡ true)
        × (fresh_ids visited (id ∷ queue) ≡ fresh_ids visited queue))
      ⊎ (((id == [] || contains visited id) ≡ false)
          × (fresh_ids visited (id ∷ queue)
              ≡ (id ∷ (fresh_ids (id ∷ visited) queue).0, (fresh_ids (id ∷ visited) queue).1)))
unfolding fresh_ids
fresh_ids-cases visited id queue = elim (Bool-cases (id == [] || contains visited id)) [
  | inl skip ↦ inl (skip, ground (arith, skip))
  | inr new ↦ inr (new, ground (arith, new))
]

fresh_ids-All :
    (P : Text → Type 0) (visited queue : List Text)
    → All P queue
    → All P (fresh_ids visited queue).0
unfolding fresh_ids
fresh_ids-All P visited [] a = tt
fresh_ids-All P visited (id ∷ queue) a = elim (fresh_ids-cases visited id queue) [
  | inl (_, skip) ↦ subst (λ u. All P u.0) (sym skip) (fresh_ids-All P visited queue a.1)
  | inr (_, new) ↦ subst (λ u. All P u.0) (sym new) (a.0, fresh_ids-All P (id ∷ visited) queue a.1)
]

module _ {F : Type 0} (st : Queries F) where
  page_by_id-id :
      (found : Option (Page F)) (batch : List (Page F)) (id : Text) (p : Page F)
      → ((q : Page F) → found ≡ some q → q.id ≡ id)
      → page_by_id found batch id ≡ some p
      → p.id ≡ id
  page_by_id-id found [] id p ok e = ok p e
  page_by_id-id found (q ∷ batch) id p ok e = elim (Bool-cases (q.id == id)) [
    | inr differs ↦ page_by_id-id found batch id p ok (rw differs at e)
    | inl same ↦
        page_by_id-id (some q) batch id p
          (λ r s.
            let q≡r : q ≡ r = ground (arith, s) in
            subst (λ (u : Page F). u.id ≡ id) q≡r ((list_beq_iff q.id id).0 same))
          (rw same at e)
  ]

  page_next-Adjacent :
      (visited : List Text) (id : Text) → All (Adjacent st id) (page_next st visited id)
  page_next-Adjacent visited id =
      All-append (Adjacent st id) (new_targets visited (edges_or_none (st.outlinks id)))
        (new_sources visited (edges_or_none (st.backlinks id)))
        (All-map (λ x h. inl h) _ (new_targets-EndsAt visited (edges_or_none (st.outlinks id))))
        (All-map (λ x h. inr h) _ (new_sources-EndsAt visited (edges_or_none (st.backlinks id))))

  module _ (seeds : List Text) where
    abbrev Walked : ℕ → List (Page F) × List Text → Type 0
    Walked k w = All (λ (p : Page F). Hops st seeds k p.id) w.0 × All (Hops st seeds (suc k)) w.1

    step_id-Walked :
        (k : ℕ) (visited : List Text) (id : Text) (found : Option (Page F))
        (w : List (Page F) × List Text)
        → ((p : Page F) → found ≡ some p → p.id ≡ id)
        → Hops st seeds k id
        → Walked k w
        → Walked k (step_id st visited id found w)
    step_id-Walked k visited id none (pages, next) same h a = (
      a.0,
      All-append (Hops st seeds (suc k)) (point_next st visited id) next
          (All-map (λ x e. over_edge k id x h (inl e)) _
            (new_pages-EndsAt visited (edges_or_none (st.outlinks id))))
          a.1,
    )
    step_id-Walked k visited id (some p) (pages, next) same h a = (
      (subst (Hops st seeds k) (sym (same p refl)) h, a.0),
      All-append (Hops st seeds (suc k)) (page_next st visited id) next
          (All-map (λ x e. over_edge k id x h e) _ (page_next-Adjacent visited id)) a.1,
    )

    walk_ids-Walked :
        (k : ℕ) (visited : List Text) (batch : List (Page F)) (ids : List Text)
        → All (Hops st seeds k) ids
        → Walked k (walk_ids st visited batch ids)
    unfolding walk_ids
    walk_ids-Walked k visited batch [] a = (tt, tt)
    walk_ids-Walked k visited batch (id ∷ ids) a =
        step_id-Walked k visited id (page_by_id none batch id) (walk_ids st visited batch ids)
          (λ p e. page_by_id-id none batch id p (λ q f. absurd (cc)) e) a.0
          (walk_ids-Walked k visited batch ids a.1)

    -- A page that is fewer edges than these away from a seed.
    abbrev pub Near : ℕ → Page F → Type 0
    Near bound p = (k : ℕ) × (k < bound) × Hops st seeds k p.id

    pages_of-some :
        (answers : (ids : List Text)
          → (batch : List (Page F)) × (st.get_pages_by_ids ids ≡ some batch))
        (ids : List Text)
        → (batch : List (Page F)) × (pages_of st ids ≡ some batch)
    pages_of-some answers [] = ([], refl)
    pages_of-some answers (id ∷ ids) = answers (id ∷ ids)

    pub collect_hops-Near :
        (answers : (ids : List Text)
          → (batch : List (Page F)) × (st.get_pages_by_ids ids ≡ some batch))
        (hops k : ℕ) (visited queue : List Text)
        → All (Hops st seeds k) queue
        → (out : List (Page F)) × (collect_hops st hops visited queue ≡ some out)
          × All (Near (k + hops)) out
    unfolding collect_hops
    collect_hops-Near answers zero k visited queue a = ([], refl, tt)
    collect_hops-Near answers (suc hops) k visited [] a = ([], refl, tt)
    collect_hops-Near answers (suc hops) k visited (q ∷ queue) a =
        let ids = (fresh_ids visited (q ∷ queue)).0 in
        let seen = (fresh_ids visited (q ∷ queue)).1 in
        let (batch, e) = pages_of-some answers ids in
        let (here, next) =
          walk_ids-Walked k seen batch ids
            (fresh_ids-All (Hops st seeds k) visited (q ∷ queue) a) in
        let (rest, f, later) =
          collect_hops-Near answers hops (suc k) seen (walk_ids st seen batch ids).1 next in
        (
          (walk_ids st seen batch ids).0 ++ rest,
          rw (e, f),
          All-append (Near (k + suc hops)) (walk_ids st seen batch ids).0 rest
              (All-map (λ p h. (k, omega arith, h)) _ here)
              (All-map (λ p h. (h.0, omega (arith, h.1), h.2)) _ later),
        )
