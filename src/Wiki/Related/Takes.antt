-- ===== src/Wiki/Related/Takes.antt =====
-- What one hop of collectRelated of internal/wiki/reconcile.go takes in.
use interest_memory.Prelude.{
  ◌≡◌, ◌≢◌, inl, inr, refl, sym, ap, ◌∙◌, subst, string_eq, text_eq, nat_eq, true, false, ◌||◌,
  Option, none, some, List, [], ◌∷◌, ◌++◌, ◌==◌, Text, Among, Among-cons, Among-cases, not_Among,
  Bool-cases, arith, list_beq_iff,
}
use interest_memory.Store.{Page, Edge}
use interest_memory.Recall.{contains}
use interest_memory.Store.Replace.{is_has_page}
use interest_memory.Wiki.Related.{
  Queries, fresh_ids, page_by_id, new_targets, new_sources, new_pages, edges_or_none, step_id,
  walk_ids,
}
use interest_memory.Wiki.Related.Reached.{Adjacent, EndsAt, fresh_ids-cases}

contains_here : (x y : Text) (ids : List Text) → x ≡ y → contains (x ∷ ids) y ≡ true
contains_here x y ids q = ap (λ b. b || contains ids y) ((list_beq_iff x y).1 q)

contains_later :
    (x y : Text) (ids : List Text) → contains ids y ≡ true → contains (x ∷ ids) y ≡ true
contains_later x y ids i = ground (arith, i)

contains-append :
    (xs ys : List Text) (x : Text) → contains (xs ++ ys) x ≡ (contains xs x || contains ys x)
contains-append [] ys x = refl
contains-append (y ∷ xs) ys x = ground (arith, contains-append xs ys x)

contains_left : (xs ys : List Text) (x : Text) → contains xs x ≡ true → contains (xs ++ ys) x ≡ true
contains_left xs ys x i = contains-append xs ys x ∙ ap (λ b. b || contains ys x) i

contains_right :
    (xs ys : List Text) (x : Text) → contains ys x ≡ true → contains (xs ++ ys) x ≡ true
contains_right xs ys x i = contains-append xs ys x ∙ ground (arith, i)

-- What is seen after a hop.
pub contains-fresh_ids :
    (visited queue : List Text) (x : Text)
    → contains (fresh_ids visited queue).1 x
      ≡ (contains visited x || contains (fresh_ids visited queue).0 x)
unfolding fresh_ids
contains-fresh_ids visited [] x = ground arith
contains-fresh_ids visited (id ∷ queue) x = elim (fresh_ids-cases visited id queue) [
  | inl (_, skip) ↦
      subst (λ u. contains u.1 x ≡ (contains visited x || contains u.0 x)) (sym skip)
        (contains-fresh_ids visited queue x)
  | inr (_, new) ↦
      subst (λ u. contains u.1 x ≡ (contains visited x || contains u.0 x)) (sym new)
        (contains-fresh_ids (id ∷ visited) queue x ∙ ground arith)
]

not_blank : (x : Text) → x ≢ [] → (x == []) ≡ false
not_blank [] full = absurd (full refl)
not_blank (c ∷ x) full = refl

-- An id of the queue that is new and not blank is taken.
pub fresh_ids-takes :
    (visited queue : List Text) (x : Text)
    → contains queue x ≡ true
    → x ≢ []
    → contains visited x ≡ false
    → contains (fresh_ids visited queue).0 x ≡ true
unfolding fresh_ids
fresh_ids-takes visited [] x i full new = absurd (cc)
fresh_ids-takes visited (id ∷ queue) x i full new = elim (fresh_ids-cases visited id queue) [
  | inl (known, skip) ↦ elim (Bool-cases (id == x)) [
    | inl same ↦ absurd (
        let q = (list_beq_iff id x).0 same in
        let blank : (x == [] || contains visited x) ≡ true =
          ap (λ u. u == [] || contains visited u) (sym q) ∙ known in
        let full' : (x == []) ≡ false = not_blank x full in ground (arith, blank, full', new))
    | inr differs ↦
        ap (λ u. contains u.0 x) skip
        ∙ fresh_ids-takes visited queue x (ground (arith, differs, i)) full new
  ]
  | inr (_, taken) ↦ ap (λ u. contains u.0 x) taken ∙ elim (Bool-cases (id == x)) [
    | inl same ↦ contains_here id x _ ((list_beq_iff id x).0 same)
    | inr differs ↦ contains_later id x _ (
        fresh_ids-takes (id ∷ visited) queue x (ground (arith, differs, i)) full
          (ground (arith, differs, new)))
  ]
]

new_targets-takes :
    {F : Type 0} (visited : List Text) (es : List (Edge F)) (x : Text)
    → EndsAt (λ e. e.target_id) es x
    → contains visited x ≡ false
    → contains (new_targets visited es) x ≡ true
new_targets-takes visited [] x (e, i, q) new = not_Among e i
new_targets-takes visited (d ∷ es) x (e, i, q) new = elim (Among-cases e d es i) [
  | inl same ↦
      let at : d.target_id ≡ x = ap (λ u. u.target_id) same ∙ q in
      let fresh : contains visited d.target_id ≡ false = ap (contains visited) at ∙ new in
      rw fresh (contains_here d.target_id x _ at)
  | inr later ↦
      let rest = new_targets-takes visited es x (e, later, q) new in
      elim (Bool-cases (contains visited d.target_id)) [
        | inl old ↦ rw old rest
        | inr first ↦ rw first (contains_later d.target_id x _ rest)
      ]
]

new_sources-takes :
    {F : Type 0} (visited : List Text) (es : List (Edge F)) (x : Text)
    → EndsAt (λ e. e.source_id) es x
    → contains visited x ≡ false
    → contains (new_sources visited es) x ≡ true
new_sources-takes visited [] x (e, i, q) new = not_Among e i
new_sources-takes visited (d ∷ es) x (e, i, q) new = elim (Among-cases e d es i) [
  | inl same ↦
      let at : d.source_id ≡ x = ap (λ u. u.source_id) same ∙ q in
      let fresh : contains visited d.source_id ≡ false = ap (contains visited) at ∙ new in
      rw fresh (contains_here d.source_id x _ at)
  | inr later ↦
      let rest = new_sources-takes visited es x (e, later, q) new in
      elim (Bool-cases (contains visited d.source_id)) [
        | inl old ↦ rw old rest
        | inr first ↦ rw first (contains_later d.source_id x _ rest)
      ]
]

-- A has_page edge that ends there.
abbrev pub HasPage : {F : Type 0} → List (Edge F) → Text → Type 0
HasPage {F = F} es x = (e : Edge F) × Among e es × (is_has_page e.kind ≡ true) × (e.target_id ≡ x)

new_pages-takes :
    {F : Type 0} (visited : List Text) (es : List (Edge F)) (x : Text)
    → HasPage es x
    → contains visited x ≡ false
    → contains (new_pages visited es) x ≡ true
new_pages-takes visited [] x (e, i, h, q) new = not_Among e i
new_pages-takes visited (d ∷ es) x (e, i, h, q) new = elim (Among-cases e d es i) [
  | inl same ↦
      let at : d.target_id ≡ x = ap (λ u. u.target_id) same ∙ q in
      let page : is_has_page d.kind ≡ true = ap (λ u. is_has_page u.kind) same ∙ h in
      let fresh : contains visited d.target_id ≡ false = ap (contains visited) at ∙ new in
      rw (page, fresh) (contains_here d.target_id x _ at)
  | inr later ↦
      let rest = new_pages-takes visited es x (e, later, h, q) new in
      elim (Bool-cases (is_has_page d.kind)) [
        | inr other ↦ rw other rest
        | inl page ↦ elim (Bool-cases (contains visited d.target_id)) [
          | inl old ↦ rw (page, old) rest
          | inr first ↦ rw (page, first) (contains_later d.target_id x _ rest)
        ]
      ]
]

module _ {F : Type 0} (st : Queries F) (stored : Text → Option (Page F)) where
  -- From a page, an edge in either direction; from any other id, which is one of an interest point, a
  -- has_page edge.
  abbrev pub Leads : Option (Page F) → Text → Text → Type 0
  Leads none id next = HasPage (edges_or_none (st.outlinks id)) next
  Leads (some p) id next = Adjacent st id next

  -- The batch has the pages that the store has under the ids.
  abbrev pub Exact : List Text → List (Page F) → Type 0
  Exact ids batch = (id : Text) → contains ids id ≡ true → page_by_id none batch id ≡ stored id

  step_id-takes :
      (visited : List Text) (id next : Text) (found : Option (Page F))
      (w : List (Page F) × List Text)
      → Leads found id next
      → contains visited next ≡ false
      → contains (step_id st visited id found w).1 next ≡ true
  step_id-takes visited id next none (pages, queue) lead new =
      contains_left _ queue next
        (new_pages-takes visited (edges_or_none (st.outlinks id)) next lead new)
  step_id-takes visited id next (some p) (pages, queue) (inl out) new = contains_left _ queue next (
      contains_left _ _ next
        (new_targets-takes visited (edges_or_none (st.outlinks id)) next out new))
  step_id-takes visited id next (some p) (pages, queue) (inr back) new =
      contains_left _ queue next (
        contains_right _ _ next
          (new_sources-takes visited (edges_or_none (st.backlinks id)) next back new))

  step_id-keeps :
      (visited : List Text) (id next : Text) (found : Option (Page F))
      (w : List (Page F) × List Text)
      → contains w.1 next ≡ true
      → contains (step_id st visited id found w).1 next ≡ true
  step_id-keeps visited id next none (pages, queue) i = contains_right _ queue next i
  step_id-keeps visited id next (some p) (pages, queue) i = contains_right _ queue next i

  step_id-Among :
      (visited : List Text) (id : Text) (found : Option (Page F)) (w : List (Page F) × List Text)
      (p : Page F)
      → Among p w.0
      → Among p (step_id st visited id found w).0
  step_id-Among visited id none (pages, queue) p i = i
  step_id-Among visited id (some q) (pages, queue) p i = Among-cons p q pages i

  pub walk_ids-takes :
      (visited : List Text) (batch : List (Page F)) (ids : List Text) (id next : Text)
      → contains ids id ≡ true
      → Leads (page_by_id none batch id) id next
      → contains visited next ≡ false
      → contains (walk_ids st visited batch ids).1 next ≡ true
  unfolding walk_ids
  walk_ids-takes visited batch [] id next i lead new = absurd (cc)
  walk_ids-takes visited batch (j ∷ ids) id next i lead new = elim (Bool-cases (j == id)) [
    | inl same ↦
        let q = (list_beq_iff j id).0 same in
        step_id-takes visited j next (page_by_id none batch j) (walk_ids st visited batch ids)
          (subst (λ u. Leads (page_by_id none batch u) u next) (sym q) lead) new
    | inr differs ↦
        step_id-keeps visited j next (page_by_id none batch j) (walk_ids st visited batch ids)
          (walk_ids-takes visited batch ids id next (ground (arith, differs, i)) lead new)
  ]

  pub walk_ids-Among :
      (visited : List Text) (batch : List (Page F)) (ids : List Text) (id : Text) (p : Page F)
      → contains ids id ≡ true
      → page_by_id none batch id ≡ some p
      → Among p (walk_ids st visited batch ids).0
  unfolding walk_ids
  walk_ids-Among visited batch [] id p i e = absurd (cc)
  walk_ids-Among visited batch (j ∷ ids) id p i e = elim (Bool-cases (j == id)) [
    | inl same ↦
        let q = (list_beq_iff j id).0 same in
        let at : page_by_id none batch j ≡ some p = ap (page_by_id none batch) q ∙ e in
        rw at ([], (walk_ids st visited batch ids).0, refl)
    | inr differs ↦
        step_id-Among visited j (page_by_id none batch j) (walk_ids st visited batch ids) p
          (walk_ids-Among visited batch ids id p (ground (arith, differs, i)) e)
  ]
