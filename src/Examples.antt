-- ===== src/Examples.antt =====
-- Concrete runs of the modelled code, and the witnesses of the theorems.
mod Reconcile
mod Graph
mod Indexer
mod Query
mod Lsp
mod Find
mod CallPath
mod Drift
