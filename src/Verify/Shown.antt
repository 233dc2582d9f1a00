-- ===== src/Verify/Shown.antt =====
-- What the grading of internal/verify lets through.
use interest_memory.Prelude.{
  ◌≡◌, ◌⊎◌, inl, inr, refl, ap, ◌∙◌, true, false, some, List, [], ◌∷◌, string_eq, Text, Float,
  arith, All, All-append, All-map, Among, Among-left, Among-right, Among-cons, Bool-cases,
  Option-cases,
}
use interest_memory.Store.{InterestPoint, Page, Reads, archived, active_page}
use interest_memory.Vec.{Hit}
use interest_memory.Verify.{
  Graded, Lookups, Loaded, is_point, load_point, load_page, load_claims, load_entity, substitute,
  annotate, grade_hit, grade_for_recall,
}

-- The entity that the hit names stands in the store, and is a point that is not archived or a page
-- that is active.
abbrev pub Shown : {F : Type 0} → Reads F → Hit F → Type 0
Shown {F = F} r h =
    ((is_point h ≡ true)
      × (p : InterestPoint F) × (r.get_interest_point h.id ≡ some (some p))
      × (archived p ≡ false))
    ⊎ ((is_point h ≡ false)
        × (pg : Page F) × (r.get_page h.id ≡ some (some pg))
        × (active_page pg ≡ true))

module _ (fl : Float) where
  open fl use {F}

  -- The hit itself, or the one that replaces it.
  abbrev pub Stands : Lookups F → Text → Hit F → Hit F → Type 0
  Stands st agent h h' = (h' ≡ h) ⊎ (substitute fl st agent h ≡ some h')

  load_entity-Shown :
      (r : Reads F) (h : Hit F) (l : Loaded F) → load_entity fl r h ≡ some l → Shown r h
  unfolding load_entity
  load_entity-Shown r h l e = elim (Bool-cases (is_point h)) [
    | inl point ↦
        let q : load_point fl (r.get_interest_point h.id) ≡ some l = ground (arith, point, e) in
        elim (Option-cases (r.get_interest_point h.id)) [
          | inl bad ↦ absurd (ground (arith, q, bad))
          | inr (o, at) ↦ elim (Option-cases o) [
            | inl gone ↦ absurd (ground (arith, q, at, gone))
            | inr (p, there) ↦ elim (Bool-cases (archived p)) [
              | inl old ↦ absurd (ground (arith, q, at, there, old))
              | inr live ↦ inl (point, p, at ∙ ap some there, live)
            ]
          ]
        ]
    | inr page ↦
        let q : load_page fl (r.list_claims h.id) (r.get_page h.id) ≡ some l =
          ground (arith, page, e) in
        elim (Option-cases (r.get_page h.id)) [
          | inl bad ↦ absurd (ground (arith, q, bad))
          | inr (o, at) ↦ elim (Option-cases o) [
            | inl gone ↦ absurd (ground (arith, q, at, gone))
            | inr (pg, there) ↦ elim (Bool-cases (active_page pg)) [
              | inr old ↦ absurd (ground (arith, q, at, there, old))
              | inl live ↦ inr (page, pg, at ∙ ap some there, live)
            ]
          ]
        ]
  ]

  -- Conversely, what is shown is loaded.
  Shown-load_entity :
      (r : Reads F) (h : Hit F) → Shown r h → (l : Loaded F) × (load_entity fl r h ≡ some l)
  unfolding load_entity
  Shown-load_entity r h (inl (point, p, at, live)) = (
    record {
      title = p.name;
      confidence = p.reliability.confidence;
      status = p.reliability.status;
      fresh_level = p.freshness.level;
      event_time = p.event_time;
    },
    ground (arith, point, at, live),
  )
  Shown-load_entity r h (inr (page, pg, at, live)) =
      (load_claims fl pg (r.list_claims h.id), ground (arith, page, at, live))

  -- What a graded hit is: shown, loaded from the store, and the hit or its replacement.
  abbrev pub Faithful : Lookups F → Text → Hit F → Graded F → Type 0
  Faithful st agent h g =
      Shown st.reads g.hit
      × Stands st agent h g.hit
      × ((l : Loaded F) × (load_entity fl st.reads g.hit ≡ some l) × (g ≡ annotate fl g.hit l))

  grade_hit-All :
      (st : Lookups F) (agent : Text) (h : Hit F)
      → All (Faithful st agent h) (grade_hit fl st agent h)
  unfolding grade_hit
  grade_hit-All st agent h = elim (Option-cases (load_entity fl st.reads h)) [
    | inr (l, e) ↦ rw e ((load_entity-Shown st.reads h l e, inl refl, (l, e, refl)), tt)
    | inl skip ↦ elim (Option-cases (substitute fl st agent h)) [
      | inl none_left ↦ rw (skip, none_left) tt
      | inr (sub, s) ↦ elim (Option-cases (load_entity fl st.reads sub)) [
        | inl again ↦ rw (skip, s) (rw again tt)
        | inr (l, e) ↦
            rw (skip, s) (rw e ((load_entity-Shown st.reads sub l e, inr s, (l, e, refl)), tt))
      ]
    ]
  ]

  grade_hit_loaded :
      (st : Lookups F) (agent : Text) (h : Hit F) (l : Loaded F)
      → load_entity fl st.reads h ≡ some l
      → Among {A = Graded F} (annotate fl h l) (grade_hit fl st agent h)
  unfolding grade_hit
  grade_hit_loaded st agent h l e = ([], [], rw e refl)

  -- Each graded hit is faithful to a hit that was given.
  abbrev pub FromHits : Lookups F → Text → List (Hit F) → Graded F → Type 0
  FromHits st agent hits g = (h : Hit F) × Among h hits × Faithful st agent h g

  -- Each entry that GradeForRecall returns is of an entity that the store has, a point that is not
  -- archived or a page that is active, with the grade that the store has for it; it is one of the
  -- hits, or the replacement of one. And each hit on such an entity has its entry.
  pub grade_for_recall-Shown :
      (st : Lookups F) (agent : Text) (hits : List (Hit F))
      → All (FromHits st agent hits) (grade_for_recall fl st agent hits)
        × All
            (λ h.
              Shown st.reads h
              → (g : Graded F) × Among g (grade_for_recall fl st agent hits) × (g.hit ≡ h))
            hits
  unfolding grade_for_recall
  grade_for_recall-Shown st agent [] = (tt, tt)
  grade_for_recall-Shown st agent (h ∷ hits) =
      let (sound, complete) = grade_for_recall-Shown st agent hits in
      let rest = grade_for_recall fl st agent hits in
      (
        All-append _ (grade_hit fl st agent h) rest
            (All-map (λ g f. (h, ([], hits, refl), f)) (grade_hit fl st agent h)
              (grade_hit-All st agent h))
            (All-map (λ g f. let (k, i, q) = f in (k, Among-cons k h hits i, q)) rest sound),
        (
          (λ s.
              let (l, e) = Shown-load_entity st.reads h s in
              (
                annotate fl h l,
                Among-left _ (grade_hit fl st agent h) rest (grade_hit_loaded st agent h l e),
                refl,
              )),
          All-map
              (λ k f s.
                let (g, i, e) = f s in (g, Among-right g (grade_hit fl st agent h) rest i, e))
              hits complete,
        ),
      )
