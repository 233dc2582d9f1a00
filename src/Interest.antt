-- ===== src/Interest.antt =====
-- internal/interest: merging and clustering of interest points.
pub mod UnionFind
pub mod Merge
pub mod Pipeline
pub mod Cluster
pub mod Persist
pub mod Adjudicate
