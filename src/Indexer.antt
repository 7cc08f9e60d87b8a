-- ===== src/Indexer.antt =====
-- src/indexer: from documentSymbol results to the rows of the graph.
pub mod Symbol
pub mod Drift
