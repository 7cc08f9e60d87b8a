-- ===== src/Graph/Db.antt =====
-- src/graph/db.rs and migrations/*.sql: the tables that the db actor owns, and the statements that
-- it runs on them. A statement that breaks a constraint of the schema fails and changes nothing;
-- SQLite itself is not modelled further than by the meaning of the statements in the source.
pub mod State
pub mod Nodes
pub mod Edges
pub mod Meta
pub mod Reconcile
pub mod Actor
pub mod Unique
pub mod Position
pub mod EdgeKeys
pub mod Linked
pub mod Invariant
