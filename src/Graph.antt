-- ===== src/Graph.antt =====
-- src/graph: the graph store.
pub mod Model
pub mod Db
