-- ===== src/Service/Graph/Edges.antt =====
-- The edges of the graph of internal/service/graph.go.
use interest_memory.Prelude.{
  ◌≡◌, refl, ap, String, string_eq, text_eq, nat_eq, list_beq_iff, Bool, true, false, ◌||◌, ◌&&◌,
  none, some, List, [], ◌∷◌, ◌++◌, if◌then◌else◌, Text, Float, keep, map, Bool-cases, inl, inr,
  arith,
}
use interest_memory.Store.{InterestPoint, Page, Edge}
use interest_memory.Recall.{contains}
use interest_memory.Recall.Namespaces.{Distinct}
use interest_memory.Service.Graph.{
  Names, resolve_node, node_id, GraphEdge, point_ids, page_ids, names_of, node_ids, graph_edges,
  point_nodes, page_nodes, graph_of,
}
use interest_memory.Service.Graph.Naming.{Same-cases, single, resolve_node-single, single-prefixed}

contains_here : (x id : Text) (ids : List Text) → x ≡ id → contains (x ∷ ids) id ≡ true
contains_here x id ids q = ap (λ b. b || contains ids id) ((list_beq_iff x id).1 q)

contains_later :
    (x id : Text) (ids : List Text) → contains ids id ≡ true → contains (x ∷ ids) id ≡ true
contains_later x id ids i = ground (arith, i)

node_id_bare :
    (t : Names) (kind : String) (p id : Text)
    → p ≡ id
    → t.prefixed id ≡ false
    → node_id t kind p ≡ id
node_id_bare t kind p id q bare = rw (q, bare) refl

module _ (fl : Float) (t : Names) where
  open fl use {F}

  node_ids-page_nodes :
      (pages : List (Page F)) (id : Text)
      → t.prefixed id ≡ false
      → contains (page_ids pages) id ≡ true
      → contains (node_ids (page_nodes fl t pages)) id ≡ true
  node_ids-page_nodes [] id bare i = i
  node_ids-page_nodes (p ∷ pages) id bare i = elim (Same-cases p.id id) [
    | inl (q, there, here) ↦ contains_here _ id _ (node_id_bare t "wiki_page" p.id id q bare)
    | inr (there, here) ↦
        contains_later _ id _ (node_ids-page_nodes pages id bare (ground (arith, i)))
  ]

  -- The nodes of the points, before those of the pages.
  node_ids-nodes :
      (ips : List (InterestPoint F)) (pages : List (Page F)) (id : Text)
      → t.prefixed id ≡ false
      → (contains (point_ids ips) id || contains (page_ids pages) id) ≡ true
      → contains (node_ids (point_nodes fl t ips ++ page_nodes fl t pages)) id ≡ true
  node_ids-nodes [] pages id bare i = node_ids-page_nodes pages id bare i
  node_ids-nodes (p ∷ ips) pages id bare i = elim (Same-cases p.id id) [
    | inl (q, there, here) ↦ contains_here _ id _ (node_id_bare t "interest_point" p.id id q bare)
    | inr (there, here) ↦
        contains_later _ id _ (node_ids-nodes ips pages id bare (ground (arith, i)))
  ]

abbrev pub plain_edge : {F : Type 0} → Edge F → GraphEdge F
plain_edge e = record {
  source = e.source_id;
  target = e.target_id;
  kind = e.kind;
  weight = e.weight;
}

graph_edges-keep :
    {F : Type 0} (t : Names) (seen only : Text → Bool)
    → ((id : Text) → resolve_node t id ≡ (if only id then some id else none))
    → ((id : Text) → only id ≡ true → seen id ≡ true)
    → (edges : List (Edge F))
    → graph_edges t seen edges
      ≡ map plain_edge (keep (λ e. only e.source_id && only e.target_id) edges)
unfolding graph_edges
graph_edges-keep t seen only resolved shown [] = refl
graph_edges-keep t seen only resolved shown (e ∷ edges) =
    let rest = graph_edges-keep t seen only resolved shown edges in
    elim (Bool-cases (only e.source_id)) [
      | inr foreign ↦ rw (resolved e.source_id, foreign, rest) refl
      | inl from ↦ elim (Bool-cases (only e.target_id)) [
        | inr foreign ↦ rw (resolved e.source_id, resolved e.target_id, from, foreign, rest) refl
        | inl to ↦
            rw
              (
                resolved e.source_id,
                resolved e.target_id,
                from,
                to,
                shown e.source_id from,
                shown e.target_id to,
                rest,
              )
              refl
      ]
    ]

node_ids-map :
    (fl : Float) (t : Names) (ips : List (InterestPoint fl.F)) (pages : List (Page fl.F))
    → node_ids (point_nodes fl t ips ++ page_nodes fl t pages)
      ≡ map (node_id t "interest_point") (point_ids ips)
        ++ map (node_id t "wiki_page") (page_ids pages)
node_ids-map fl t [] [] = refl
node_ids-map fl t [] (p ∷ pages) =
    ap (λ u. node_id t "wiki_page" p.id ∷ u) (node_ids-map fl t [] pages)
node_ids-map fl t (p ∷ ips) pages =
    ap (λ u. node_id t "interest_point" p.id ∷ u) (node_ids-map fl t ips pages)

-- Where the store's points have different ids, the edges of the graph are those of the store, in
-- order and with their own ends, of which both ends are entities, each a point or a page and not both.
-- Each of their ends is the id of a node, and each entity has a node, points first.
pub graph_of-single :
    (fl : Float) (ips : List (InterestPoint fl.F)) (pages : List (Page fl.F))
    (edges : List (Edge fl.F))
    → Distinct (point_ids ips)
    → let g = graph_of fl ips pages edges in
      let t = names_of ips pages in
      (g.edges
        ≡ map plain_edge
            (keep (λ e. single ips pages e.source_id && single ips pages e.target_id) edges))
      × ((id : Text) → single ips pages id ≡ true → contains (node_ids g.nodes) id ≡ true)
      × (node_ids g.nodes
          ≡ map (node_id t "interest_point") (point_ids ips)
            ++ map (node_id t "wiki_page") (page_ids pages))
unfolding graph_of
graph_of-single fl ips pages edges d =
    let t = names_of ips pages in
    let shown : (id : Text)
        → single ips pages id ≡ true
        → contains (node_ids (graph_of fl ips pages edges).nodes) id ≡ true =
      λ id one.
        node_ids-nodes fl t ips pages id (single-prefixed ips pages d id one)
          (ground (arith, one)) in
    (
      graph_edges-keep t _ (single ips pages) (resolve_node-single ips pages d) shown edges,
      shown,
      node_ids-map fl t ips pages,
    )
