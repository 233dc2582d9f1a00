-- ===== src/Tests.antt =====
-- Each result at a concrete input.
mod Sample
mod CacheTests
mod AnalyzeTests
mod ForkTests
mod InterestTests
mod MergeTests
mod WorkerTests
mod UsageTests
mod StoreTests
mod RecallTests
mod LookupTests
mod ClusterTests
mod ServiceTests
mod RelatedTests
mod WikiTests
mod PersistTests
mod AdjudicateTests
