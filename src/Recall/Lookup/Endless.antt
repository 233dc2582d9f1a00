-- ===== src/Recall/Lookup/Endless.antt =====
-- resultFor of internal/recall/recall.go on a page that replaces itself.
use interest_memory.Prelude.{
  ℕ, zero, suc, ◌≡◌, inl, inr, refl, sym, ap, ◌∙◌, subst, ℤ, false, none, some, [], text_eq, Text,
  arith, lookup, insert, lookup-insert, beq_refl, Option-cases,
}
use interest_memory.Store.{Page, active_page}
use interest_memory.Store.Replace.{Replacement}
use interest_memory.Vec.{Hit}
use interest_memory.Verify.{is_point, replacement_hit}
use interest_memory.Recall.Retrieve.{RecallStore}
use interest_memory.Recall.Entity.{EntityCache, cached_page}
use interest_memory.Recall.Lookup.{result_for}

module _ {F : Type 0} (st : RecallStore F) (ns : Text) (max_body_len : ℤ) where
  -- The cache has no page for the id, or one that is not active.
  abbrev pub Inactive : Text → EntityCache F → Type 0
  Inactive id ec = (pg : Page F) → lookup id ec.pgs ≡ some pg → active_page pg ≡ false

  -- The page of the id is not active, and the store says that it is replaced by a page of that id.
  pub record Selfish (id : Text) : Type 0 where
    pub page : Page F
    pub rep : Replacement F
    pub heir : Page F
    pub stored : (st.reads ns).get_page id ≡ some (some page)
    pub inactive : active_page page ≡ false
    pub resolved : st.resolve ns id ≡ some (some rep)
    pub by_page : rep.page ≡ some heir
    pub same : heir.id ≡ id

  reads_off :
      (id : Text) (ec : EntityCache F)
      → Selfish id
      → Inactive id ec
      → (pg : Page F) × (ec' : EntityCache F) × (cached_page (st.reads ns) id ec ≡ (some pg, ec'))
        × (active_page pg ≡ false)
        × Inactive id ec'
  unfolding cached_page
  reads_off id ec s h = elim (Option-cases (lookup id ec.pgs)) [
    | inr (pg, there) ↦ (pg, ec, rw there refl, h pg there, h)
    | inl absent ↦ (
      s.page,
      record ec { pgs = insert id s.page ec.pgs },
      rw (absent, s.stored) refl,
      s.inactive,
      λ pg e.
          ap (λ (q : Page F). active_page q) {x = pg} {y = s.page}
            (ground (arith, e, lookup-insert id id s.page ec.pgs, beq_refl id))
          ∙ s.inactive,
    )
  ]

  -- A hit on a page that is not active and that the store replaces by a page of the same id has no
  -- result on any fuel: the recursion of resultFor does not end. It is of no use that the cache of
  -- the request holds the page.
  pub result_for-Selfish :
      (h : Hit F) (ec : EntityCache F)
      → is_point h ≡ false
      → Selfish h.id
      → Inactive h.id ec
      → (fuel : ℕ) → result_for st ns max_body_len fuel h ec ≡ none
  unfolding result_for
  result_for-Selfish h ec page s i zero = refl
  result_for-Selfish h ec page s i (suc fuel) =
      let (pg, ec', read, off, i') = reads_off h.id ec s i in
      let h' = replacement_hit [] h.score s.rep s.rep.page in
      let same : h'.id ≡ h.id =
        ap (λ o. (replacement_hit [] h.score s.rep o).id) s.by_page ∙ s.same in
      let kind : is_point h' ≡ false =
        ap (λ o. is_point (replacement_hit [] h.score s.rep o)) s.by_page in
      rw (page, read, off, s.resolved)
        (result_for-Selfish h' ec' kind (subst Selfish (sym same) s)
          (subst (λ id. Inactive id ec') (sym same) i') fuel)
