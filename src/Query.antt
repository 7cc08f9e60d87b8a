-- ===== src/Query.antt =====
-- src/query: the query layer over the graph.
pub mod Dto
pub mod Filter
pub mod Page
pub mod Group
pub mod Find
pub mod Client
pub mod Engine
pub mod Resolve
pub mod Hints
pub mod Operations
pub mod CallPath
