-- ===== src/Tests/ServiceTests.antt =====
-- internal/service and internal/transcript at concrete inputs.
use interest_memory.Prelude.{
  ℕ, ◌≡◌, ◌≤◌, refl, true, false, Option, some, none, List, [], ◌∷◌, ◌++◌, pos, codes, Text, map,
  keep, length, nat_eq, ◌&&◌,
}
use interest_memory.Tests.Sample.{whole}
use interest_memory.Tests.StoreTests.{point, page}
use interest_memory.Tests.AnalyzeTests.{gardens, two_passes, stroke}
use interest_memory.Tests.AdjudicateTests.{cluster_result, output}
use interest_memory.Tests.LookupTests.{service, found, answers}
use interest_memory.Fork.Candidates.{render_indices}
use interest_memory.Fork.Analyze.{analyze_turns}
use interest_memory.Store.{InterestPoint, Page, Edge, related}
use interest_memory.Interest.Merge.{Point}
use interest_memory.Recall.{contains}
use interest_memory.Recall.Entity.{Result}
use interest_memory.Service.Transcript.{Roles, RawTurn, AgentMessage, to_messages, to_llm_messages}
use interest_memory.Service.Transcript.Rendered.{AllRendered, upto, to_messages-rendered}
use interest_memory.Service.Process.{Stages, Setup, Transcript, fork_stage, process_session}
use interest_memory.Service.Process.Order.{unsaved, of_messages, Course, process_session-Course}
use interest_memory.Service.Process.Forked.{forked, fork_stage-analyze_turns}
use interest_memory.Service.Queries.{Defaults, search_results}
use interest_memory.Service.Queries.Hidden.{Reveals, search_results-Reveals}
use interest_memory.Service.Sharing.{Lookup, no_namespaces, resolve_in_turn}
use interest_memory.Service.Sharing.Backed.{AllBacked, resolve_in_turn-AllBacked}
use interest_memory.Service.Graph.{graph_of, names_of, node_ids, node_id, point_ids, page_ids}
use interest_memory.Service.Graph.Naming.{single}
use interest_memory.Service.Graph.Edges.{plain_edge, graph_of-single}

abbrev roles : Roles
roles = record {
  Role = ℕ;
  role_eq = nat_eq;
  role_user = 0;
  role_assistant = 1;
  role_tool_result = 2;
}

abbrev raw_turns : List RawTurn
raw_turns =
    record { role = codes "system"; content = codes "rules" }
    ∷ record { role = codes "user"; content = codes " hi " }
    ∷ record { role = codes "toolresult"; content = codes "7" }
    ∷ []

abbrev parse : Text → Option (List RawTurn)
parse raw = some raw_turns

abbrev same : ℕ → ℕ
same c = c

to_messages-rendered_example :
    (msgs : List (AgentMessage ℕ)) × (to_messages roles same parse (codes "json") ≡ some msgs)
    × AllRendered roles same parse msgs
    × (render_indices (to_llm_messages roles same parse msgs) true ≡ upto 0 (length msgs))
to_messages-rendered_example = to_messages-rendered roles same parse (codes "json") raw_turns refl

abbrev gardener : Point ℕ
gardener = record { candidate = gardens 2; vec = 1 ∷ [] }

-- One point is found, and the wiki writes a page for it.
abbrev stages : Stages ℕ ℕ
stages = record {
  to_messages = to_messages roles same parse;
  to_llm_messages = to_llm_messages roles same parse;
  analyze = λ windows. some (gardens 2 ∷ []);
  dedupe_merge = λ cands. some (gardener ∷ []);
  cluster = λ pts. some cluster_result;
  adjudicate = λ res. some output;
  persist = λ adj. true;
  compile = λ pts msgs. some (codes "garden" ∷ []);
  rebuild_edges = λ touched. true;
  reconcile_related = λ touched ids. false;
}

abbrev setup : Setup
setup = record { prefix_step = pos 5; max_windows = pos 8; wiki_enabled = true; backends = true }

abbrev session : Transcript
session = record { raw_turns = codes "json"; session_date = some 7; received_at = 9 }

process_session-Course_example :
    Course stages setup
      (of_messages stages setup session (stages.to_messages session.raw_turns))
      unsaved
      (process_session stages setup session)
process_session-Course_example = process_session-Course stages setup session

abbrev greeting : AgentMessage ℕ
greeting = record { role = 0; text = codes "hi" }

fork_stage-analyze_turns_example :
    fork_stage
      (forked whole same stroke
        (λ excerpt. some (gardens 4 ∷ []))
        (λ topics excerpt. none)
        roles
        parse
        two_passes
        stages)
      setup
      (greeting ∷ greeting ∷ [])
    ≡ analyze_turns whole same stroke
        (λ excerpt. some (gardens 4 ∷ []))
        (λ topics excerpt. none)
        two_passes
        (to_llm_messages roles same parse (greeting ∷ greeting ∷ []))
fork_stage-analyze_turns_example =
    fork_stage-analyze_turns whole same stroke (λ excerpt. some (gardens 4 ∷ []))
      (λ topics excerpt. none) roles parse two_passes stages setup greeting (greeting ∷ [])

abbrev defaults : Defaults ℕ
defaults = record {
  recall_top_k = pos 8;
  recall_include_wiki = true;
  recall_min_score = 0;
  search_top_k = pos 0;
  search_max_body_len = pos 9;
  wiki_enabled = false;
}

search_results-Reveals_example :
    (out : List (Result ℕ)) × (search_results whole 1 defaults service 2
        (codes "ada")
        (codes "q")
        (pos 0)
      ≡ some out)
    × Reveals whole 1 defaults service found out
    × (length out ≤ 3)
search_results-Reveals_example =
    search_results-Reveals whole 1 defaults service 2 (codes "ada") (codes "q") (pos 0) found
      answers

-- The second call comes in the cache's lifetime, and the third after it.
abbrev lookups : List Lookup
lookups =
    record { now = 1; stored_at = 2; read = some (some (codes "a" ∷ [])) }
    ∷ record { now = 31; stored_at = 31; read = none }
    ∷ record { now = 32; stored_at = 33; read = none }
    ∷ []

three_answers :
    resolve_in_turn lookups no_namespaces
    ≡ some (codes "a" ∷ []) ∷ some (codes "a" ∷ []) ∷ none ∷ []
unfolding resolve_in_turn interest_memory.Service.Sharing.resolve_all
three_answers = refl

resolve_in_turn-AllBacked_example : AllBacked [] lookups (resolve_in_turn lookups no_namespaces)
resolve_in_turn-AllBacked_example = resolve_in_turn-AllBacked lookups

abbrev edge : Text → Text → Edge ℕ
edge a b = record { source_id = a; target_id = b; kind = related; weight = 1; created_at = 0 }

-- The id of the first point is also that of a page.
abbrev points : List (InterestPoint ℕ)
points = point (codes "p") "active" ∷ point (codes "b") "active" ∷ []

abbrev pages : List (Page ℕ)
pages = page (codes "p") "active" ∷ page (codes "q") "active" ∷ []

abbrev edges : List (Edge ℕ)
edges =
    edge (codes "p") (codes "q")
    ∷ edge (codes "b") (codes "q")
    ∷ edge (codes "b") (codes "gone")
    ∷ []

graph_of-single_example :
    ((graph_of whole points pages edges).edges
      ≡ map plain_edge
          (keep (λ e. single points pages e.source_id && single points pages e.target_id) edges))
    × ((id : Text)
        → single points pages id ≡ true
        → contains (node_ids (graph_of whole points pages edges).nodes) id ≡ true)
    × (node_ids (graph_of whole points pages edges).nodes
        ≡ map (node_id (names_of points pages) "interest_point") (point_ids points)
          ++ map (node_id (names_of points pages) "wiki_page") (page_ids pages))
graph_of-single_example = graph_of-single whole points pages edges (refl, (refl, tt))
