-- ===== src/Recall/Filtered.antt =====
-- The filter of retrieve in internal/recall/recall.go.
use interest_memory.Prelude.{
  ℕ, ◌≤◌, ◌≡◌, ◌⊎◌, inl, inr, refl, sym, ap, ◌∙◌, Bool, true, false, Option, none, some, List, [],
  ◌∷◌, string_eq, text_eq, ◌==◌, Text, Float, length, take, keep, lookup, insert, arith, All,
  All-map, All-take, length-take-le, Among, Among-cons, lookup-insert, Bool-cases,
}
use interest_memory.Store.{InterestPoint, Page}
use interest_memory.Vec.{Hit}
use interest_memory.Recall.{Options}
use interest_memory.Recall.Retrieve.{
  RecallStore, put_points, put_page, put_pages, ids_of, batch, event_times, time_or_zero,
  window_start, too_early, too_late, passes, filter_hits,
}

module _ {F : Type 0} where
  -- A point or a page among these has the id and the time.
  abbrev PointTimed : List (InterestPoint F) → Text → ℕ → Type 0
  PointTimed ps id t = (p : InterestPoint F) × Among p ps × (p.id ≡ id) × (p.event_time ≡ t)

  abbrev PageTimed : List (Page F) → Text → ℕ → Type 0
  PageTimed pgs id t = (pg : Page F) × Among pg pgs × (pg.id ≡ id) × (pg.event_time ≡ t)

  put_points-Timed :
      (out : List (Text × ℕ)) (ps : List (InterestPoint F)) (id : Text) (t : ℕ)
      → lookup id (put_points out ps) ≡ some t
      → (lookup id out ≡ some t) ⊎ PointTimed ps id t
  put_points-Timed out [] id t h = inl h
  put_points-Timed out (p ∷ ps) id t h =
      elim (put_points-Timed (insert p.id p.event_time out) ps id t h) [
        | inr (q, i, same, at) ↦ inr (q, Among-cons q p ps i, same, at)
        | inl e ↦ elim (Bool-cases (p.id == id)) [
          | inl same ↦ inr (
            p,
            ([], ps, refl),
            (text_eq.beq_iff p.id id).0 same,
            ground (arith, e, same, lookup-insert p.id id p.event_time out),
          )
          | inr other ↦ inl (ground (arith, e, other, lookup-insert p.id id p.event_time out))
        ]
      ]

  put_page-Timed :
      (o : Option ℕ) (pg : Page F) (out : List (Text × ℕ)) (id : Text) (t : ℕ)
      → lookup id (put_page o pg out) ≡ some t
      → (lookup id out ≡ some t) ⊎ ((pg.id ≡ id) × (pg.event_time ≡ t))
  put_page-Timed (some u) pg out id t h = inl h
  put_page-Timed none pg out id t h = elim (Bool-cases (pg.id == id)) [
    | inl same ↦ inr (
      (text_eq.beq_iff pg.id id).0 same,
      ground (arith, h, same, lookup-insert pg.id id pg.event_time out),
    )
    | inr other ↦ inl (ground (arith, h, other, lookup-insert pg.id id pg.event_time out))
  ]

  put_pages-Timed :
      (out : List (Text × ℕ)) (pgs : List (Page F)) (id : Text) (t : ℕ)
      → lookup id (put_pages out pgs) ≡ some t
      → (lookup id out ≡ some t) ⊎ PageTimed pgs id t
  put_pages-Timed out [] id t h = inl h
  put_pages-Timed out (pg ∷ pgs) id t h =
      elim (put_pages-Timed (put_page (lookup pg.id out) pg out) pgs id t h) [
        | inr (q, i, same, at) ↦ inr (q, Among-cons q pg pgs i, same, at)
        | inl e ↦ elim (put_page-Timed (lookup pg.id out) pg out id t e) [
          | inl old ↦ inl old
          | inr (same, at) ↦ inr (pg, ([], pgs, refl), same, at)
        ]
      ]

  -- The store answers the batch query with an entity of this id and event time.
  abbrev pub Timed : RecallStore F → Text → List (Hit F) → Text → ℕ → Type 0
  Timed st ns hits id t =
      PointTimed (batch (st.points_by_ids ns) (ids_of true hits)) id t
      ⊎ PageTimed (batch (st.pages_by_ids ns) (ids_of false hits)) id t

  event_times-Timed :
      (st : RecallStore F) (ns : Text) (hits : List (Hit F)) (id : Text) (t : ℕ)
      → lookup id (event_times st ns hits) ≡ some t
      → Timed st ns hits id t
  unfolding event_times
  event_times-Timed st ns hits id t h =
      let points = batch (st.points_by_ids ns) (ids_of true hits) in
      elim (put_pages-Timed (put_points [] points) (batch (st.pages_by_ids ns) (ids_of false hits))
        id t h) [
          | inr page ↦ inr page
          | inl e ↦ elim (put_points-Timed [] points id t e) [
            | inl nothing ↦ absurd (ground (arith, nothing))
            | inr point ↦ inl point
          ]
        ]

-- What is kept stood in the list, and passes the test.
keep-Among :
    {A : Type 0} (p : A → Bool) (xs : List A) → All (λ x. Among x xs × (p x ≡ true)) (keep p xs)
keep-Among p [] = tt
keep-Among p (x ∷ xs) =
    let rest = All-map (λ y q. (Among-cons y x xs q.0, q.1)) (keep p xs) (keep-Among p xs) in
    elim (Bool-cases (p x)) [ inl h ↦ rw h ((([], xs, refl), h), rest) | inr h ↦ rw h rest ]

-- A time that is neither too early nor the zero time was found.
not_early :
    (a : ℕ) (o : Option ℕ)
    → too_early (some a) (time_or_zero o) ≡ false
    → (t : ℕ) × (o ≡ some t) × (a ≤ t)
not_early a none h = absurd (ground (arith, h))
not_early a (some t) h = (t, refl, ground (arith, h))

not_late :
    (b : ℕ) (o : Option ℕ)
    → too_late (some b) (time_or_zero o) ≡ false
    → (t : ℕ) × (o ≡ some t) × (t ≤ b)
not_late b none h = absurd (ground (arith, h))
not_late b (some t) h = (t, refl, ground (arith, h))

module _ (fl : Float) (narrow : fl.F → fl.F) where
  open fl use {F, lt, zero_f}

  -- What the options ask of a hit, with the event time that the store has for it.
  pub record Admitted (st : RecallStore F) (ns : Text) (now : ℕ) (opts : Options F)
      (hits : List (Hit F)) (h : Hit F) : Type 0 where
    pub given : Among h hits
    pub scored : lt zero_f opts.min_score ≡ true → lt h.score (narrow opts.min_score) ≡ false
    pub kind_asked : opts.include_wiki ≡ false → h.kind == "wiki_page" ≡ false
    pub not_before :
        (a : ℕ)
        → window_start now opts.after opts.recent_days ≡ some a
        → (t : ℕ) × Timed st ns hits h.id t × (a ≤ t)
    pub not_after : (b : ℕ) → opts.before ≡ some b → (t : ℕ) × Timed st ns hits h.id t × (t ≤ b)

  passes-Admitted :
      (st : RecallStore F) (ns : Text) (now : ℕ) (opts : Options F) (hits : List (Hit F))
      (h : Hit F)
      → Among h hits
      → passes fl narrow opts
          (window_start now opts.after opts.recent_days)
          (event_times st ns hits)
          h
        ≡ true
      → Admitted st ns now opts hits h
  passes-Admitted st ns now opts hits h i p =
      let times = event_times st ns hits in
      let start = window_start now opts.after opts.recent_days in
      let early : too_early start (time_or_zero (lookup h.id times)) ≡ false = ground (arith, p) in
      let late : too_late opts.before (time_or_zero (lookup h.id times)) ≡ false =
        ground (arith, p) in
      record {
        given = i;
        scored = λ q. ground (arith, p, q);
        kind_asked = λ q. ground (arith, p, q);
        not_before = λ a e.
            let (t, at, le) =
              not_early a (lookup h.id times)
                (ap (λ o. too_early o (time_or_zero (lookup h.id times))) (sym e) ∙ early) in
            (t, event_times-Timed st ns hits h.id t at, le);
        not_after = λ b e.
            let (t, at, le) =
              not_late b (lookup h.id times)
                (ap (λ o. too_late o (time_or_zero (lookup h.id times))) (sym e) ∙ late) in
            (t, event_times-Timed st ns hits h.id t at, le);
      }

  keep_all : (p : Hit F → Bool) (xs : List (Hit F)) → ((x : Hit F) → p x ≡ true) → keep p xs ≡ xs
  keep_all p [] h = refl
  keep_all p (x ∷ xs) h = ground (arith, h x, keep_all p xs h)

  -- The hits that `retrieve` lets through are at most as many as asked for. Each is one that was
  -- found and is what the options ask for: its score is not below the minimum, it is no wiki page
  -- unless they are asked for, and the store has an event time for it that is not before the start
  -- nor after the end of the window, as far as these are given.
  pub filter_hits-Admitted :
      (st : RecallStore F) (ns : Text) (now : ℕ) (opts : Options F) (top_k : ℕ)
      (hits : List (Hit F))
      → (length (filter_hits fl narrow st ns now opts top_k hits) ≤ top_k)
        × All (Admitted st ns now opts hits) (filter_hits fl narrow st ns now opts top_k hits)
  unfolding filter_hits
  filter_hits-Admitted st ns now opts top_k hits =
      let test : Hit F → Bool =
        passes fl narrow opts (window_start now opts.after opts.recent_days)
          (event_times st ns hits) in
      let kept = keep test hits in
      (
        length-take-le top_k kept,
        All-take _ top_k kept (
            All-map (λ h r. passes-Admitted st ns now opts hits h r.0 r.1) kept
              (keep-Among test hits)),
      )

  -- Without a positive minimum and without a window, and with wiki pages, `retrieve` lets through
  -- all that was found, in order, up to the number asked for.
  filter_hits-take :
      (st : RecallStore F) (ns : Text) (now : ℕ) (opts : Options F) (top_k : ℕ)
      (hits : List (Hit F))
      → lt zero_f opts.min_score ≡ false
      → opts.include_wiki ≡ true
      → window_start now opts.after opts.recent_days ≡ none
      → opts.before ≡ none
      → filter_hits fl narrow st ns now opts top_k hits ≡ take top_k hits
  unfolding filter_hits
  filter_hits-take st ns now opts top_k hits low wiki open_start open_end =
      ap (take top_k) (keep_all _ hits (λ h. ground (arith, low, wiki, open_start, open_end)))
