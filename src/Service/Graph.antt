-- ===== src/Service/Graph.antt =====
-- internal/service/graph.go: ListGraph, on what the store lists, and resolveNode. The maps are functions; `none` is
-- an error of the store.
pub mod Naming
pub mod Edges
use interest_memory.Prelude.{
  String, string_eq, text_eq, Bool, true, false, not, ◌||◌, ◌&&◌, Option, none, some, List, [], ◌∷◌,
  ◌++◌, ◌==◌, if◌then◌else◌, Text, codes, Float,
}
use interest_memory.Fork.Windows.{◌>>=◌}
use interest_memory.Store.{InterestPoint, Page, Edge, EdgeType}
use interest_memory.Recall.{contains}

pub record GraphNode (F : Type 0) : Type 0 where
  pub id : Text
  pub kind : String
  pub title : Text
  pub status : String
  pub page_type : String
  pub importance : F
  pub subjective : Bool
  pub tags : List Text

pub record GraphEdge (F : Type 0) : Type 0 where
  pub source : Text
  pub target : Text
  pub kind : EdgeType
  pub weight : F

pub record Graph (F : Type 0) : Type 0 where
  pub nodes : List (GraphNode F)
  pub edges : List (GraphEdge F)

-- `kindOf` and `prefixed`.
pub record Names : Type 0 where
  pub kind_of : Text → Option String
  pub prefixed : Text → Bool

abbrev pub no_names : Names
no_names = record { kind_of = λ id. none; prefixed = λ id. false }

-- `m[k] = v`
abbrev pub put : {A : Type 0} → (Text → A) → Text → A → Text → A
put m k v x = if x == k then v else m x

abbrev pub new_name : Names → Text → String → Names
new_name t id kind = record t { kind_of = put t.kind_of id (some kind) }

abbrev pub prefix_name : Names → Text → Names
prefix_name t id = record t { prefixed = put t.prefixed id true }

-- The two loops over the map, by what it has for the id.
abbrev pub name_point : Option String → Names → Text → Names
name_point none t id = new_name t id "interest_point"
name_point (some k) t id = prefix_name t id

abbrev pub name_page : Option String → Names → Text → Names
name_page none t id = new_name t id "wiki_page"
name_page (some k) t id = if not (k == "wiki_page") then prefix_name t id else t

abbrev pub resolve_kind : Text → Bool → Option String → Option Text
resolve_kind bare prefixed none = none
resolve_kind bare prefixed (some kind) =
    if prefixed
    then none
    else if not (kind == "interest_point") && not (kind == "wiki_page")
    then none
    else some bare

unfoldable pub resolve_node : Names → Text → Option Text
resolve_node t bare = resolve_kind bare (t.prefixed bare) (t.kind_of bare)

abbrev pub node_id : Names → String → Text → Text
node_id t kind id = if t.prefixed id then codes kind ++ codes ":" ++ id else id

module _ {F : Type 0} where
  abbrev pub point_ids : List (InterestPoint F) → List Text
  point_ids [] = []
  point_ids (p ∷ ips) = p.id ∷ point_ids ips

  abbrev pub page_ids : List (Page F) → List Text
  page_ids [] = []
  page_ids (pg ∷ pages) = pg.id ∷ page_ids pages

  abbrev pub name_points : Names → List (InterestPoint F) → Names
  name_points t [] = t
  name_points t (p ∷ ips) = name_points (name_point (t.kind_of p.id) t p.id) ips

  abbrev pub name_pages : Names → List (Page F) → Names
  name_pages t [] = t
  name_pages t (pg ∷ pages) = name_pages (name_page (t.kind_of pg.id) t pg.id) pages

  abbrev pub names_of : List (InterestPoint F) → List (Page F) → Names
  names_of ips pages = name_pages (name_points no_names ips) pages

  abbrev pub node_ids : List (GraphNode F) → List Text
  node_ids [] = []
  node_ids (n ∷ nodes) = n.id ∷ node_ids nodes

  abbrev pub edge_between : Edge F → Option Text → Option Text → (Text → Bool) → List (GraphEdge F)
  edge_between e none dst seen = []
  edge_between e (some src) none seen = []
  edge_between e (some src) (some dst) seen =
      if not (seen src) || not (seen dst)
      then []
      else record { source = src; target = dst; kind = e.kind; weight = e.weight } ∷ []

  -- The loop over the edges.
  unfoldable pub graph_edges : Names → (Text → Bool) → List (Edge F) → List (GraphEdge F)
  graph_edges t seen [] = []
  graph_edges t seen (e ∷ edges) =
      edge_between e (resolve_node t e.source_id) (resolve_node t e.target_id) seen
      ++ graph_edges t seen edges

module _ (fl : Float) where
  open fl use {F, zero_f}

  abbrev pub point_nodes : Names → List (InterestPoint F) → List (GraphNode F)
  point_nodes t [] = []
  point_nodes t (p ∷ ips) =
      record {
        id = node_id t "interest_point" p.id;
        kind = "interest_point";
        title = p.name;
        status = p.status;
        page_type = "";
        importance = p.importance;
        subjective = p.subjective;
        tags = p.keywords;
      }
      ∷ point_nodes t ips

  abbrev pub page_nodes : Names → List (Page F) → List (GraphNode F)
  page_nodes t [] = []
  page_nodes t (pg ∷ pages) =
      record {
        id = node_id t "wiki_page" pg.id;
        kind = "wiki_page";
        title = pg.title;
        status = pg.status;
        page_type = pg.page_type;
        importance = zero_f;
        subjective = false;
        tags = pg.tags;
      }
      ∷ page_nodes t pages

  unfoldable pub graph_of : List (InterestPoint F) → List (Page F) → List (Edge F) → Graph F
  graph_of ips pages edges =
      let t = names_of ips pages in
      let nodes = point_nodes t ips ++ page_nodes t pages in
      record { nodes = nodes; edges = graph_edges t (contains (node_ids nodes)) edges }

  unfoldable pub list_graph :
      Option (List (InterestPoint F))
      → Option (List (Page F))
      → Option (List (Edge F))
      → Option (Graph F)
  list_graph ips pages edges = do is ← ips; ps ← pages; es ← edges; some (graph_of is ps es)
