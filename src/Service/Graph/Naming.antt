-- ===== src/Service/Graph/Naming.antt =====
-- How the ids of entities are resolved in the graph of internal/service/graph.go.
use interest_memory.Prelude.{
  ◌≡◌, refl, sym, ap, ◌∙◌, String, string_eq, text_eq, nat_eq, list_beq_iff, Bool, true, false, not,
  ◌||◌, ◌&&◌, Option, none, some, List, [], ◌∷◌, ◌==◌, if◌then◌else◌, Text, Bool-cases, ◌⊎◌, inl,
  inr, arith,
}
use interest_memory.Store.{InterestPoint, Page}
use interest_memory.Recall.{contains}
use interest_memory.Recall.Namespaces.{Distinct}
use interest_memory.Service.Graph.{
  Names, no_names, new_name, prefix_name, name_point, name_page, resolve_kind, resolve_node,
  point_ids, page_ids, name_points, name_pages, names_of,
}

-- The kind that is known, or else this one if the id is listed.
abbrev known_or : Option String → Bool → String → Option String
known_or (some k) listed kind = some k
known_or none listed kind = if listed then some kind else none

-- A kind that clashes with that of a page.
abbrev clashes : Option String → Bool
clashes none = false
clashes (some k) = not (k == "wiki_page")

known_or_unlisted : (found : Option String) (kind : String) → found ≡ known_or found false kind
known_or_unlisted none kind = refl
known_or_unlisted (some k) kind = refl

abbrev pub Same : Text → Text → Type 0
Same p id =
    ((p ≡ id) × ((p == id) ≡ true) × ((id == p) ≡ true))
    ⊎ (((p == id) ≡ false) × ((id == p) ≡ false))

pub Same-cases : (p id : Text) → Same p id
Same-cases p id = elim (Bool-cases (p == id)) [
  | inl here ↦ let q = (list_beq_iff p id).0 here in inl (q, here, (list_beq_iff id p).1 (sym q))
  | inr differs ↦ inr (differs, ground (arith, differs, list_beq_iff p id, list_beq_iff id p))
]

point-kind_of :
    (found : Option String) (t : Names) (p id : Text) (listed : Bool)
    → t.kind_of p ≡ found
    → known_or ((name_point found t p).kind_of id) listed "interest_point"
      ≡ known_or (t.kind_of id) (p == id || listed) "interest_point"
point-kind_of none t p id listed e = elim (Same-cases p id) [
  | inl (q, there, here) ↦ rw (here, there, ap t.kind_of (sym q) ∙ e) refl
  | inr (there, here) ↦ rw (here, there) refl
]
point-kind_of (some k) t p id listed e = elim (Same-cases p id) [
  | inl (q, there, here) ↦ rw (there, ap t.kind_of (sym q) ∙ e) refl
  | inr (there, here) ↦ rw there refl
]

-- A page's id that is known already keeps its kind.
page_known-kind_of :
    (clash : Bool) (t : Names) (p id : Text)
    → (if clash then prefix_name t p else t).kind_of id ≡ t.kind_of id
page_known-kind_of true t p id = refl
page_known-kind_of false t p id = refl

page-kind_of :
    (found : Option String) (t : Names) (p id : Text) (listed : Bool)
    → t.kind_of p ≡ found
    → known_or ((name_page found t p).kind_of id) listed "wiki_page"
      ≡ known_or (t.kind_of id) (p == id || listed) "wiki_page"
page-kind_of none t p id listed e = elim (Same-cases p id) [
  | inl (q, there, here) ↦ rw (here, there, ap t.kind_of (sym q) ∙ e) refl
  | inr (there, here) ↦ rw (here, there) refl
]
page-kind_of (some k) t p id listed e =
    ap (λ u. known_or u listed "wiki_page") (page_known-kind_of (not (k == "wiki_page")) t p id)
    ∙ elim (Same-cases p id) [
      | inl (q, there, here) ↦ rw (there, ap t.kind_of (sym q) ∙ e) refl
      | inr (there, here) ↦ rw there refl
    ]

-- The flag of a page's id, when its kind is known.
page_known-prefixed :
    (clash : Bool) (t : Names) (p id : Text)
    → (if clash then prefix_name t p else t).prefixed id ≡ (t.prefixed id || (id == p && clash))
page_known-prefixed true t p id = ground arith
page_known-prefixed false t p id = ground arith

page-prefixed :
    (found : Option String) (t : Names) (p id : Text) (listed : Bool)
    → t.kind_of p ≡ found
    → ((name_page found t p).prefixed id || (listed && clashes ((name_page found t p).kind_of id)))
      ≡ (t.prefixed id || ((p == id || listed) && clashes (t.kind_of id)))
page-prefixed none t p id listed e = elim (Same-cases p id) [
  | inl (q, there, here) ↦ rw (here, there, ap t.kind_of (sym q) ∙ e) (ground arith)
  | inr (there, here) ↦ rw (here, there) refl
]
page-prefixed (some k) t p id listed e =
    ap (λ u. u || (listed && clashes ((name_page (some k) t p).kind_of id)))
      (page_known-prefixed (not (k == "wiki_page")) t p id)
    ∙ ap (λ u. (t.prefixed id || (id == p && not (k == "wiki_page"))) || (listed && clashes u))
        (page_known-kind_of (not (k == "wiki_page")) t p id)
    ∙ elim (Same-cases p id) [
      | inl (q, there, here) ↦ rw (here, there, ap t.kind_of (sym q) ∙ e) (ground arith)
      | inr (there, here) ↦ rw (here, there) (ground arith)
    ]

module _ {F : Type 0} where
  name_points-kind_of :
      (t : Names) (ips : List (InterestPoint F)) (id : Text)
      → (name_points t ips).kind_of id
        ≡ known_or (t.kind_of id) (contains (point_ids ips) id) "interest_point"
  name_points-kind_of t [] id = known_or_unlisted (t.kind_of id) "interest_point"
  name_points-kind_of t (p ∷ ips) id =
      name_points-kind_of (name_point (t.kind_of p.id) t p.id) ips id
      ∙ point-kind_of (t.kind_of p.id) t p.id id (contains (point_ids ips) id) refl

  name_pages-kind_of :
      (t : Names) (pages : List (Page F)) (id : Text)
      → (name_pages t pages).kind_of id
        ≡ known_or (t.kind_of id) (contains (page_ids pages) id) "wiki_page"
  name_pages-kind_of t [] id = known_or_unlisted (t.kind_of id) "wiki_page"
  name_pages-kind_of t (p ∷ pages) id =
      name_pages-kind_of (name_page (t.kind_of p.id) t p.id) pages id
      ∙ page-kind_of (t.kind_of p.id) t p.id id (contains (page_ids pages) id) refl

  name_pages-prefixed :
      (t : Names) (pages : List (Page F)) (id : Text)
      → (name_pages t pages).prefixed id
        ≡ (t.prefixed id || (contains (page_ids pages) id && clashes (t.kind_of id)))
  name_pages-prefixed t [] id = ground arith
  name_pages-prefixed t (p ∷ pages) id =
      name_pages-prefixed (name_page (t.kind_of p.id) t p.id) pages id
      ∙ page-prefixed (t.kind_of p.id) t p.id id (contains (page_ids pages) id) refl

  name_points-prefixed :
      (t : Names) (ips : List (InterestPoint F)) (id : Text)
      → Distinct (point_ids ips)
      → ((j : Text) → contains (point_ids ips) j ≡ true → t.kind_of j ≡ none)
      → (name_points t ips).prefixed id ≡ t.prefixed id
  name_points-prefixed t [] id d free = refl
  name_points-prefixed t (p ∷ ips) id d free =
      let new : t.kind_of p.id ≡ none = free p.id (ground (arith, list_beq_iff p.id p.id)) in
      ap (λ u. (name_points (name_point u t p.id) ips).prefixed id) new
      ∙ name_points-prefixed (new_name t p.id "interest_point") ips id d.1 (λ j i.
        elim (Same-cases p.id j) [
          | inl (q, there, here) ↦
              absurd (let r = ap (contains (point_ids ips)) q in ground (arith, d.0, i, r))
          | inr (there, here) ↦ rw here (free j (ground (arith, i)))
        ])

-- The id is that of a point, or of a page, and not of both.
abbrev pub single : {F : Type 0} → List (InterestPoint F) → List (Page F) → Text → Bool
single ips pages id =
    (contains (point_ids ips) id || contains (page_ids pages) id)
    && not (contains (point_ids ips) id && contains (page_ids pages) id)

abbrev one_of : Bool → Bool → Bool
one_of point page = (point || page) && not (point && page)

resolve_kind-one_of :
    (id : Text) (point page : Bool)
    → resolve_kind id
        (false || (page && clashes (known_or none point "interest_point")))
        (known_or (known_or none point "interest_point") page "wiki_page")
      ≡ (if one_of point page then some id else none)
resolve_kind-one_of id true true = refl
resolve_kind-one_of id true false = refl
resolve_kind-one_of id false true = refl
resolve_kind-one_of id false false = refl

one_of-clashes :
    (point page : Bool)
    → one_of point page ≡ true
    → (false || (page && clashes (known_or none point "interest_point"))) ≡ false
one_of-clashes true true one = sym one
one_of-clashes true false one = refl
one_of-clashes false true one = refl
one_of-clashes false false one = refl

module _ {F : Type 0} (ips : List (InterestPoint F)) (pages : List (Page F))
    (d : Distinct (point_ids ips)) where
  names_of-prefixed :
      (id : Text)
      → (names_of ips pages).prefixed id ≡ (
          false
          || (contains (page_ids pages) id
              && clashes (known_or none (contains (point_ids ips) id) "interest_point")))
  names_of-prefixed id =
      name_pages-prefixed (name_points no_names ips) pages id
      ∙ ap
          (λ u.
            u || (contains (page_ids pages) id && clashes ((name_points no_names ips).kind_of id)))
          (name_points-prefixed no_names ips id d (λ j i. refl))
      ∙ ap (λ u. false || (contains (page_ids pages) id && clashes u))
          (name_points-kind_of no_names ips id)

  names_of-kind_of :
      (id : Text)
      → (names_of ips pages).kind_of id
        ≡ known_or
            (known_or none (contains (point_ids ips) id) "interest_point")
            (contains (page_ids pages) id)
            "wiki_page"
  names_of-kind_of id =
      name_pages-kind_of (name_points no_names ips) pages id
      ∙ ap (λ u. known_or u (contains (page_ids pages) id) "wiki_page")
          (name_points-kind_of no_names ips id)

  pub resolve_node-single :
      (id : Text)
      → resolve_node (names_of ips pages) id ≡ (if single ips pages id then some id else none)
  unfolding resolve_node
  resolve_node-single id =
      ap (λ b. resolve_kind id b ((names_of ips pages).kind_of id)) (names_of-prefixed id)
      ∙ ap (resolve_kind id _) (names_of-kind_of id)
      ∙ resolve_kind-one_of id (contains (point_ids ips) id) (contains (page_ids pages) id)

  pub single-prefixed :
      (id : Text) → single ips pages id ≡ true → (names_of ips pages).prefixed id ≡ false
  single-prefixed id one = names_of-prefixed id ∙ one_of-clashes _ _ one
