-- ===== src/Wiki/Related/Complete.antt =====
-- The pages that collectRelated of internal/wiki/reconcile.go does not miss.
use interest_memory.Prelude.{
  ℕ, zero, suc, ◌≤◌, ◌<◌, ◌≡◌, ◌≢◌, ◌⊎◌, inl, inr, refl, sym, ◌∙◌, subst, ℤ, positive_or, string_eq,
  text_eq, nat_eq, true, false, ◌||◌, Option, some, List, [], ◌∷◌, ◌++◌, Text, All, All-map, Among,
  Among-cons, Among-left, Among-right, Bool-cases, Option-cases, arith,
}
use interest_memory.Store.{Page}
use interest_memory.Recall.{contains}
use interest_memory.Wiki.Related.{
  Queries, fresh_ids, walk_ids, pages_of, collect_hops, collect_related,
}
use interest_memory.Wiki.Related.Reached.{at_seed, Near, collect_hops-Near}
use interest_memory.Wiki.Related.Takes.{
  Leads, Exact, contains-fresh_ids, fresh_ids-takes, walk_ids-takes, walk_ids-Among,
}

-- A way of so many steps from an id to another, on which no id is blank or among these.
pub data Route {F : Type 0} (st : Queries F) (stored : Text → Option (Page F)) (visited : List Text)
    : ℕ → Text → Text → Type 0 where
  arrive : (id : Text) → id ≢ [] → contains visited id ≡ false → Route st stored visited 0 id id
  along :
      (k : ℕ) (id next goal : Text)
      → id ≢ []
      → contains visited id ≡ false
      → Leads st stored (stored id) id next
      → Route st stored visited k next goal
      → Route st stored visited (suc k) id goal

module _ {F : Type 0} (st : Queries F) (stored : Text → Option (Page F))
    (visited ids seen : List Text)
    (sees : (x : Text) → contains seen x ≡ (contains visited x || contains ids x)) where
  -- The rest of a way from the last of the ids that stand on it: it ends there, or goes on from there.
  abbrev Leaves : ℕ → Text → Type 0
  Leaves bound goal =
      (contains ids goal ≡ true)
      ⊎ ((k : ℕ) × (id next : Text) × (suc k ≤ bound)
          × (contains ids id ≡ true)
          × Leads st stored (stored id) id next
          × Route st stored seen k next goal)

  Leaves-longer : (k : ℕ) (goal : Text) → Leaves k goal → Leaves (suc k) goal
  Leaves-longer k goal (inl here) = inl here
  Leaves-longer k goal (inr (j, id, next, le, i, lead, r)) =
      inr (j, id, next, omega (arith, le), i, lead, r)

  unseen :
      (x : Text) → contains visited x ≡ false → contains ids x ≡ false → contains seen x ≡ false
  unseen x new out = sees x ∙ ground (arith, new, out)

  Route-Leaves :
      (k : ℕ) (id goal : Text)
      → Route st stored visited k id goal
      → (Route st stored seen k id goal × (contains ids id ≡ false)) ⊎ Leaves k goal
  Route-Leaves k id goal (arrive _ full new) = elim (Bool-cases (contains ids id)) [
    | inl here ↦ inr (inl here)
    | inr out ↦ inl (arrive id full (unseen id new out), out)
  ]
  Route-Leaves _ id goal (along k _ next _ full new lead r) = elim (Route-Leaves k next goal r) [
    | inr leaves ↦ inr (Leaves-longer k goal leaves)
    | inl (clear, _) ↦ elim (Bool-cases (contains ids id)) [
      | inl here ↦ inr (inr (k, id, next, omega arith, here, lead, clear))
      | inr out ↦ inl (along k id next goal full (unseen id new out) lead clear, out)
    ]
  ]

Route-new :
    {F : Type 0} (st : Queries F) (stored : Text → Option (Page F)) (visited : List Text) (k : ℕ)
    (id goal : Text)
    → Route st stored visited k id goal
    → (id ≢ []) × (contains visited id ≡ false)
Route-new st stored visited k id goal (arrive _ full new) = (full, new)
Route-new st stored visited k id goal (along _ _ _ _ full new lead r) = (full, new)

each-Among : (xs : List Text) → All (λ x. Among x xs) xs
each-Among [] = tt
each-Among (x ∷ xs) = (([], xs, refl), All-map (λ y i. Among-cons y x xs i) xs (each-Among xs))

module _ {F : Type 0} (st : Queries F) (stored : Text → Option (Page F))
    (answers : (ids : List Text)
      → (batch : List (Page F)) × (st.get_pages_by_ids ids ≡ some batch)
        × Exact st stored ids batch) where
  pages_of-Exact :
      (ids : List Text)
      → (batch : List (Page F)) × (pages_of st ids ≡ some batch) × Exact st stored ids batch
  pages_of-Exact [] = ([], refl, λ id i. absurd (cc))
  pages_of-Exact (id ∷ ids) = answers (id ∷ ids)

  collect_hops-Among :
      (hops k : ℕ) (visited queue : List Text) (id goal : Text) (p : Page F) (out : List (Page F))
      → contains queue id ≡ true
      → Route st stored visited k id goal
      → k < hops
      → stored goal ≡ some p
      → collect_hops st hops visited queue ≡ some out
      → Among p out
  unfolding collect_hops
  collect_hops-Among zero k visited queue id goal p out i r lt at e = absurd (omega (arith, lt))
  collect_hops-Among (suc hops) k visited [] id goal p out i r lt at e = absurd (cc)
  collect_hops-Among (suc hops) k visited (q ∷ queue) id goal p out i r lt at e =
      let ids = (fresh_ids visited (q ∷ queue)).0 in
      let seen = (fresh_ids visited (q ∷ queue)).1 in
      let (batch, asked, exact) = pages_of-Exact ids in
      let pages = (walk_ids st seen batch ids).0 in
      let next = (walk_ids st seen batch ids).1 in
      let (full, new) = Route-new st stored visited k id goal r in
      let taken = fresh_ids-takes visited (q ∷ queue) id i full new in
      elim (Option-cases (collect_hops st hops seen next)) [
        | inl failed ↦ absurd (ground (arith, asked, failed, e))
        | inr (rest, later) ↦
            let same : pages ++ rest ≡ out = ground (arith, asked, later, e) in
            subst (Among p) same
              (elim (Route-Leaves st stored visited ids seen
                (contains-fresh_ids visited (q ∷ queue)) k id goal r) [
                  | inl (_, untaken) ↦ absurd (cc)
                  | inr (inl here) ↦
                      Among-left p pages rest
                        (walk_ids-Among st stored seen batch ids goal p here (exact goal here ∙ at))
                  | inr (inr (j, y, z, le, here, lead, way)) ↦ Among-right p pages rest (
                      collect_hops-Among hops j seen next z goal p rest
                        (walk_ids-takes st stored seen batch ids y z here
                          (subst (λ u. Leads st stored u y z) (sym (exact y here)) lead)
                          (Route-new st stored seen j z goal way).1)
                        way (omega (arith, le, lt)) at later)
                ])
      ]

  -- Where the store answers its query for pages, collectRelated has a result. Each of its pages is at most
  -- max_hops edges (3 where that is not positive) away from a seed; and it has each page that a way of at
  -- most so many steps leads to from a seed, where a step goes from a page over an edge in either
  -- direction, and from the id of a point over a has_page edge, and no id is blank.
  pub collect_related-Among :
      (seeds : List Text) (max_hops : ℤ)
      → (out : List (Page F)) × (collect_related st seeds max_hops ≡ some out)
        × All (Near st seeds (suc (positive_or 3 max_hops))) out
        × ((k : ℕ) (seed goal : Text) (p : Page F)
            → contains seeds seed ≡ true
            → Route st stored [] k seed goal
            → k ≤ positive_or 3 max_hops
            → stored goal ≡ some p
            → Among p out)
  unfolding collect_related
  collect_related-Among seeds max_hops =
      let bound = suc (positive_or 3 max_hops) in
      let (out, e, near) =
        collect_hops-Near st seeds (λ ids. let (batch, asked, _) = answers ids in (batch, asked))
          bound 0 [] seeds (All-map (λ x i. at_seed x i) seeds (each-Among seeds)) in
      (
        out,
        e,
        All-map (λ p h. (h.0, omega (arith, h.1), h.2)) out near,
        λ k seed goal p i way le at.
            collect_hops-Among bound k [] seeds seed goal p out i way (omega (arith, le)) at e,
      )
