-- ===== src/Recall/Lookup/Ends.antt =====
-- The end of resultFor in internal/recall/recall.go on a store whose replacements are live.
use interest_memory.Prelude.{
  ℕ, suc, ◌≡◌, inl, inr, refl, ap, ◌∙◌, ℤ, Option, none, some, [], text_eq, Text, Option-cases,
  Bool-cases,
}
use interest_memory.Store.{active_page, archived}
use interest_memory.Store.Replace.{Replacement}
use interest_memory.Vec.{Hit}
use interest_memory.Verify.{is_point, replacement_hit}
use interest_memory.Verify.Shown.{Shown}
use interest_memory.Recall.Retrieve.{RecallStore}
use interest_memory.Recall.Entity.{Result, EntityCache, attach_edges, point_result, page_result}
use interest_memory.Recall.Lookup.{
  Answer, with_edges, successor_hit, substituted, result_for, result_with,
}
use interest_memory.Recall.Lookup.Agreed.{
  Agrees, cached_point-Agrees, cached_page-Agrees, attach_edges-Agrees,
}

module _ {F : Type 0} (st : RecallStore F) (ns : Text) (max_body_len : ℤ) where
  -- The replacement that the store gives for an id is a point that is not archived or an active page.
  abbrev pub Lawful : Type 0
  Lawful =
      (id : Text) (rep : Replacement F) (score : F)
      → st.resolve ns id ≡ some (some rep)
      → Shown (st.reads ns) (replacement_hit [] score rep rep.page)

  -- A call has a result, with a cache that agrees.
  abbrev pub Settles : Answer F → Type 0
  Settles answer =
      (o : Option (Result F)) × (ec : EntityCache F) × (answer ≡ some (o, ec)) × Agrees st ns ec

  with_edges-Settles :
      (id : Text) (r : Result F) (ec : EntityCache F)
      → Agrees st ns ec
      → Settles (with_edges st ns max_body_len id r ec)
  with_edges-Settles id r ec a = (
    some (attach_edges st ns id r ec).0,
    (attach_edges st ns id r ec).1,
    refl,
    attach_edges-Agrees st ns id r ec a,
  )

  -- An entity that is shown has its own result, whatever the recursive call is.
  Shown-Settles :
      (again : Hit F → EntityCache F → Answer F) (h : Hit F) (ec : EntityCache F)
      → Shown (st.reads ns) h
      → Agrees st ns ec
      → Settles (result_with st ns max_body_len again h ec)
  Shown-Settles again h ec (inl (point, p, at, live)) a =
      let (o, ec', read, a', found) = cached_point-Agrees st ns h.id ec a in
      rw (point, read)
        (rw (found p at) (rw live (with_edges-Settles h.id (point_result p max_body_len) ec' a')))
  Shown-Settles again h ec (inr (page, pg, at, live)) a =
      let (o, ec', read, a', found) = cached_page-Agrees st ns h.id ec a in
      rw (page, read)
        (rw (found pg at)
          (rw live (with_edges-Settles h.id (page_result (st.reads ns) pg max_body_len) ec' a')))

  -- Else it is the recursive call's on the replacement, if there is one.
  substituted-Settles :
      (again : Hit F → EntityCache F → Answer F) (h : Hit F) (ec : EntityCache F)
      → Lawful
      → Agrees st ns ec
      → ((h' : Hit F) → Shown (st.reads ns) h' → Settles (again h' ec))
      → Settles (
          substituted st ns max_body_len again ec
            (successor_hit st ns max_body_len h (st.resolve ns h.id)))
  substituted-Settles again h ec lawful a settled = elim (Option-cases (st.resolve ns h.id)) [
    | inl bad ↦ rw bad (none, ec, refl, a)
    | inr (o, at) ↦ elim (Option-cases o) [
      | inl alone ↦ rw (at, alone) (none, ec, refl, a)
      | inr (rep, there) ↦
          rw (at, there)
            (settled (replacement_hit [] h.score rep rep.page)
              (lawful h.id rep h.score (at ∙ ap some there)))
    ]
  ]

  any-Settles :
      (again : Hit F → EntityCache F → Answer F) (h : Hit F) (ec : EntityCache F)
      → Lawful
      → Agrees st ns ec
      → ((h' : Hit F) (ec' : EntityCache F)
          → Shown (st.reads ns) h'
          → Agrees st ns ec'
          → Settles (again h' ec'))
      → Settles (result_with st ns max_body_len again h ec)
  any-Settles again h ec lawful a settled = elim (Bool-cases (is_point h)) [
    | inl point ↦
        let (o, ec', read, a', _) = cached_point-Agrees st ns h.id ec a in
        rw (point, read)
          (elim (Option-cases o) [
            | inl gone ↦ rw gone (none, ec', refl, a')
            | inr (p, there) ↦ rw there (elim (Bool-cases (archived p)) [
              | inr live ↦ rw live (with_edges-Settles h.id (point_result p max_body_len) ec' a')
              | inl old ↦
                  rw old (substituted-Settles again h ec' lawful a' (λ h' s. settled h' ec' s a'))
            ])
          ])
    | inr page ↦
        let (o, ec', read, a', _) = cached_page-Agrees st ns h.id ec a in
        rw (page, read)
          (elim (Option-cases o) [
            | inl gone ↦ rw gone (none, ec', refl, a')
            | inr (pg, there) ↦ rw there (elim (Bool-cases (active_page pg)) [
              | inl live ↦
                  rw live
                    (with_edges-Settles h.id (page_result (st.reads ns) pg max_body_len) ec' a')
              | inr old ↦
                  rw old (substituted-Settles again h ec' lawful a' (λ h' s. settled h' ec' s a'))
            ])
          ])
  ]

  -- Where the store's replacements are live, resultFor ends after one substitution at most: on two
  -- rounds of recursion or more it answers, and the cache of the request still holds what the store
  -- has.
  pub result_for-Settles :
      (fuel : ℕ) (h : Hit F) (ec : EntityCache F)
      → Lawful
      → Agrees st ns ec
      → Settles (result_for st ns max_body_len (suc (suc fuel)) h ec)
  unfolding result_for
  result_for-Settles fuel h ec lawful a =
      any-Settles (result_for st ns max_body_len (suc fuel)) h ec lawful a
        (λ h' ec' s a'. Shown-Settles (result_for st ns max_body_len fuel) h' ec' s a')
