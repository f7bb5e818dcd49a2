-- ===== src/Query.antt =====
-- The query path of query_core/src: predicates, the pruning of files and of row groups, read plans.
pub mod Path
pub mod Plan
pub mod Order
pub mod Statistics
pub mod Pruning
pub mod Groups
