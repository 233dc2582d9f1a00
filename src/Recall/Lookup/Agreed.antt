-- ===== src/Recall/Lookup/Agreed.antt =====
-- The cache of one request of internal/recall/recall.go, and the store that it reads.
use interest_memory.Prelude.{
  ◌≡◌, inl, inr, refl, Option, none, some, text_eq, ◌==◌, Text, arith, lookup, insert,
  lookup-insert, Option-cases, Bool-cases,
}
use interest_memory.Store.{InterestPoint, Page}
use interest_memory.Recall.Retrieve.{RecallStore}
use interest_memory.Recall.Entity.{
  Result, EntityCache, cached_page, cached_point, attach_edges, resolve_titles,
}

module _ {F : Type 0} (st : RecallStore F) (ns : Text) where
  -- The cache of the request holds what the store has.
  pub record Agrees (ec : EntityCache F) : Type 0 where
    pub points :
        (id : Text) (p : InterestPoint F)
        → lookup id ec.ips ≡ some p
        → (st.reads ns).get_interest_point id ≡ some (some p)
    pub pages :
        (id : Text) (pg : Page F)
        → lookup id ec.pgs ≡ some pg
        → (st.reads ns).get_page id ≡ some (some pg)

  -- What the cached read of a point gives: the point of the store, if there is one.
  pub cached_point-Agrees :
      (id : Text) (ec : EntityCache F)
      → Agrees ec
      → (o : Option (InterestPoint F)) × (ec' : EntityCache F) × (cached_point (st.reads ns) id ec
          ≡ (o, ec'))
        × Agrees ec'
        × ((p : InterestPoint F) → (st.reads ns).get_interest_point id ≡ some (some p) → o ≡ some p)
  unfolding cached_point
  cached_point-Agrees id ec a = elim (Option-cases (lookup id ec.ips)) [
    | inr (p, there) ↦ (some p, ec, rw there refl, a, λ q e. ground (arith, e, a.points id p there))
    | inl absent ↦ elim (Option-cases ((st.reads ns).get_interest_point id)) [
      | inl bad ↦ (none, ec, rw (absent, bad) refl, a, λ q e. absurd (ground (arith, e, bad)))
      | inr (o, at) ↦ elim (Option-cases o) [
        | inl gone ↦
            (none, ec, rw (absent, at, gone) refl, a, λ q e. absurd (ground (arith, e, at, gone)))
        | inr (p, there) ↦ (
          some p,
          record ec { ips = insert id p ec.ips },
          rw (absent, at, there) refl,
          record {
            points = λ k q e. elim (Bool-cases (id == k)) [
              | inl same ↦ ground (
                arith,
                e,
                at,
                there,
                (text_eq.beq_iff id k).0 same,
                lookup-insert id k p ec.ips,
                same,
              )
              | inr other ↦ a.points k q (ground (arith, e, other, lookup-insert id k p ec.ips))
            ];
            pages = a.pages;
          },
          λ q e. ground (arith, e, at, there),
        )
      ]
    ]
  ]

  pub cached_page-Agrees :
      (id : Text) (ec : EntityCache F)
      → Agrees ec
      → (o : Option (Page F)) × (ec' : EntityCache F) × (cached_page (st.reads ns) id ec ≡ (o, ec'))
        × Agrees ec'
        × ((pg : Page F) → (st.reads ns).get_page id ≡ some (some pg) → o ≡ some pg)
  unfolding cached_page
  cached_page-Agrees id ec a = elim (Option-cases (lookup id ec.pgs)) [
    | inr (pg, there) ↦
        (some pg, ec, rw there refl, a, λ q e. ground (arith, e, a.pages id pg there))
    | inl absent ↦ elim (Option-cases ((st.reads ns).get_page id)) [
      | inl bad ↦ (none, ec, rw (absent, bad) refl, a, λ q e. absurd (ground (arith, e, bad)))
      | inr (o, at) ↦ elim (Option-cases o) [
        | inl gone ↦
            (none, ec, rw (absent, at, gone) refl, a, λ q e. absurd (ground (arith, e, at, gone)))
        | inr (pg, there) ↦ (
          some pg,
          record ec { pgs = insert id pg ec.pgs },
          rw (absent, at, there) refl,
          record {
            points = a.points;
            pages = λ k q e. elim (Bool-cases (id == k)) [
              | inl same ↦ ground (
                arith,
                e,
                at,
                there,
                (text_eq.beq_iff id k).0 same,
                lookup-insert id k pg ec.pgs,
                same,
              )
              | inr other ↦ a.pages k q (ground (arith, e, other, lookup-insert id k pg ec.pgs))
            ];
          },
          λ q e. ground (arith, e, at, there),
        )
      ]
    ]
  ]

  -- Attaching edges changes the titles of the cache only.
  pub attach_edges-Agrees :
      (id : Text) (r : Result F) (ec : EntityCache F)
      → Agrees ec
      → Agrees (attach_edges st ns id r ec).1
  unfolding attach_edges resolve_titles
  attach_edges-Agrees id r ec a = record { points = a.points; pages = a.pages }
