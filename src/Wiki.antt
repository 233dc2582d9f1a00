-- ===== src/Wiki.antt =====
-- internal/wiki: the grouping of interest points for the writer, and the pages that a change reaches.
pub mod Grouping
pub mod Related
pub mod Reconcile
