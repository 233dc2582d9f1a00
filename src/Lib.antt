-- ===== src/Lib.antt =====
-- interest-memory is a memory service for agents. At the end of a session it splits the transcript
-- into windows and asks a model for interest points (internal/fork), merges these points and
-- clusters them with those of earlier sessions, and persists what the model decides on them
-- (internal/interest); the points are grouped again for the writer of wiki pages (internal/wiki). At
-- the start of the next session it searches the points and pages of the namespaces that an agent
-- may read, ranks them (internal/recall), grades them and replaces outdated ones
-- (internal/verify, internal/store). A worker runs the pipeline per agent, and a cache keeps
-- embeddings, replies and recalled contexts.
--
-- Files and the code they model:
--   Cache: internal/cache/lru.go. `list.List` is a list of elements with handles, the most recent
--     one in front; the map is an association list from keys to handles. Cache/Valid holds the
--     invariant, Cache/Refines the recency list, Cache/History the unbounded history.
--   Fork/Message: Message of internal/llm/llm.go.
--   Fork/Windows: SplitWindows, SplitPrefixWindows and SplitNonPrefixWindows of
--     internal/fork/fork.go. A slice out of bounds is `none`. Windows/Prefixes and Windows/Segments
--     hold their results.
--   Fork/Candidates: renderIndices, mapTurnRange, normalizeTopic and dedupe of the same file, with
--     the results in Candidates/Ranges, Dedupe, Topics and Absorbed.
--   Fork/Analyze: NewAnalyzer, summarize, extract, extractAdditional and Analyze of the same file;
--     Analyze/Turns is about the excerpt, Analyze/Answered about the candidates.
--   Interest/UnionFind: the closures `find` and `union` and the loops of connectedComponents of
--     internal/interest/merge.go, over indexes, for any relation of similarity.
--     UnionFind/Forest, Components and Groups hold its results.
--   Interest/Merge: cosine, candidateText, connectedComponents on points, and mergeCluster of the
--     same file, with the results in Merge/Similar, Merge/Linked and Merge/Spared.
--   Interest/Pipeline: DedupeMerge, from the dedupe to the merged points; Pipeline/Staying is about
--     the clusters of its points and those that it keeps.
--   Interest/Cluster: Cluster, affinityOf and sortConflictQueue of internal/interest/cluster.go. The
--     order in which Go ranges over a map is a parameter. Cluster/Kept is about its points,
--     Cluster/Placed and Cluster/Lossless about the conflict queues.
--   Interest/Adjudicate: the replies of the model and the lookups of internal/interest/adjudicate.go;
--     Adjudicate/Verdicts: Adjudicate, applyComponent, void, created, updatedPoint and isolated.
--     Adjudicate/Settled is about the members of its components, Adjudicate/Updated and Sound about
--     its output.
--   Interest/Persist: Persist of internal/interest/persist.go as the calls that it makes in turn, each
--     of which may fail, with the types of internal/interest/adjudicate.go that it is given;
--     Persist/Planned writes out the calls that an adjudication asks for, Persist/Written is about
--     what they put, and Persist/Stops about where it stops.
--   Worker: the job table of internal/worker/worker.go, and how process ends. Worker/Terms and
--     Worker/Prune are about pruneLocked, Worker/Table about updates, Worker/Outcome about process.
--   Worker/Steps: the callers of Enqueue, the loops runAgent and Close as steps on one state;
--     Worker/Invariant and Worker/Running are about the states that they reach. The panic of a send
--     on a channel that Close has closed is no step.
--   Usage: internal/usage/usage.go, with the rows given to the persist callback as a log;
--     Usage/Conserved sums them up.
--   Store: the entities of internal/store/types.go, and the queries of one namespace that the read
--     paths make, as an interface Reads. Store/Replace: ResolveReplacement of
--     internal/store/replace.go; Replace/Live is about where its walk ends, Replace/Cycle about
--     sequels that lead round.
--   Vec: Entry and Hit of internal/vec/vec.go.
--   Verify: GradeForRecall, substitute and loadEntity of internal/verify/grade.go, with the store as
--     an interface Lookups; Verify/Shown is about what it lets through.
--   Recall: visible, dedupeHits and the ranking of internal/recall/recall.go, with Recall/Namespaces
--     and Recall/Ranking about them. Recall/Retrieve: the searches of one namespace and the filter,
--     over the interfaces Index and RecallStore; Recall/Filtered is about the filter.
--     Recall/Context: Recall with its cache, the grading by namespace and the rendered lines, over
--     an interface Format for the verbs of fmt; Recall/Cached is about the cache, by the lemmas of
--     Cache. Recall/Entity: the cache of a request, edges, titles and bodies, with Entity/Cut about
--     truncate. Recall/Lookup: resultFor, GetByID and Search; Lookup/Live, Agreed, Ends and Endless
--     are about them.
--   Service/Transcript: ToMessages of internal/transcript/transcript.go and toLLMMessages of
--     internal/service/service.go, with Transcript/Rendered about their messages. Service/Process:
--     ProcessSession over an interface Stages; Process/Order is about its calls, Process/Forked and
--     Process/Full put the functions of Fork and of Interest/Adjudicate in. Service/Queries: Recall,
--     Search, GetByID and Stats over those of Recall, with Queries/Hidden about wiki pages.
--     Service/Sharing: the namespace resolver and internal/service/kanban.go, with Sharing/Backed and
--     Sharing/Boards about them. Service/Graph: internal/service/graph.go, with Graph/Naming about
--     its ids and Graph/Edges about its edges.
--   Wiki/Grouping: groupByCluster of internal/wiki/grouping.go, on the same union-find;
--     Grouping/Together is about its clusters. Wiki/Related: collectRelated and allArchived of
--     internal/wiki/reconcile.go; Related/Reached is about the pages it finds, Related/Takes about
--     one hop, Related/Complete about the pages it may not miss. Wiki/Reconcile: ReconcileRelated
--     of the same file but for its prompts and for applyCodeFallback, which changes the store
--     before; Reconcile/Batches is about its batches.
--   Prelude: the shared notation, lists, maps, integers, texts and floats. Tests: runs.
--
-- How the source is read:
--   A Go int is an integer without a bound where it can be negative, and a natural number where it
--   is a length or an index; no sum here grows beyond the length of a transcript. A string is a
--   list of code points. A float64 is an element of an interface Float, with an order that is
--   irreflexive and transitive as `<` of IEEE floats is, NaN included, and a product that commutes.
--   unicode.ToLower is a parameter; strings.Fields and strings.TrimSpace are written out for the
--   spaces of Unicode.
--   A loop of the window code and that over the batches of ReconcileRelated run on
--   fuel of one more than its list's length, which is enough as each round uses up an item. The recursion of `find` runs on fuel of the number of points, which
--   is enough as a chain of parents visits a point once. The walk of ResolveReplacement and the
--   recursion of resultFor have no bound in the source: they run on fuel, and a run that the fuel
--   does not reach is told apart from an error and from an empty result.
--   In the read paths an error of a query or a panic is `none`, and a query takes no time: the clock
--   is an input, in seconds, 0 for Go's zero time. A cut body is a list of code points, with its
--   bytes counted as in UTF-8. A namespace is a text, and `narrow` is the conversion to float32.
--
-- Not modelled: calls of models and embedders, HTTP, SQL, configuration files, prompts, the
-- mutexes (each modelled operation holds its lock throughout, but for Recall, whose two critical
-- sections run without another request between them, and for the namespace resolver, whose calls
-- are taken one after the other), the deadline and the cancelling of parallel calls, and of the
-- pipeline the writing and the reconciling of wiki pages. The clock stands still in a run of
-- Adjudicate, and the hash that makes ids is a function. An embedder or a chat client is a
-- function that may fail, and mergeCluster gives it the cluster in place of the prompt. Of the
-- store, ResolveReplacement is modelled; the queries that it and the read paths make are
-- interfaces.
pub mod Prelude
pub mod Cache
pub mod Fork
pub mod Interest
pub mod Worker
pub mod Store
pub mod Vec
pub mod Verify
pub mod Recall
pub mod Service
pub mod Wiki
pub mod Usage
pub mod Tests
