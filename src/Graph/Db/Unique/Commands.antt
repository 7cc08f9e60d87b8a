-- ===== src/Graph/Db/Unique/Commands.antt =====
-- src/graph/db.rs: every command of the db actor keeps the keys of `nodes` unique.
use semnav.Base.{
  ℕ, ◌≡◌, refl, Bool-cases, Option-cases, inl, inr, List, Str, str_eq, any, find_first, ◌==◌, ◌&&◌,
}
use semnav.Graph.Model.{Node, Edge}
use semnav.Graph.Db.State.{NodeRow, Db, empty_db, update_row, has_id, edge_types}
use semnav.Graph.Db.Nodes.{update_node_signature_by_fqn}
use semnav.Graph.Db.Edges.{
  upsert_edge, insert_edge, same_edge, invalidate_edges, invalidate_outgoing_calls,
}
use semnav.Graph.Db.Meta.{
  drop_callees_cache, set_meta, set_callees_cache_hash, is_materialized, mark_materialized,
}
use semnav.Graph.Db.Reconcile.Matching.{BodyFingerprinted}
use semnav.Graph.Db.Reconcile.Apply.{park_row, parked}
use semnav.Graph.Db.Actor.{DbCommand, run}
use semnav.Graph.Db.Unique.{Unique, Holds}
use semnav.Graph.Db.Unique.Rows.{
  Unique-map, write_row-Unique, upsert_node-Unique, delete_node-Unique,
}
use semnav.Graph.Db.Invariant.{Invariant}
use semnav.Graph.Db.Invariant.Commands.{run-Kept}

park_row-KeepsKeys :
    (uri : Str) (r : NodeRow)
    → ((park_row uri r).id ≡ r.id) × ((park_row uri r).node.fqn ≡ r.node.fqn)
park_row-KeepsKeys uri r = elim (Bool-cases (str_eq r.node.uri uri)) [
  | inl e ↦ rw e (refl, refl)
  | inr e ↦ rw e (refl, refl)
]

parked-Unique : (uri : Str) (db : Db) → Unique db → Unique (parked uri db)
unfolding parked
parked-Unique uri db u = Unique-map (park_row uri) db (park_row-KeepsKeys uri) u

invalidate_edges-Unique : (id : ℕ) (db : Db) → Unique db → Unique (invalidate_edges id db)
unfolding invalidate_edges
invalidate_edges-Unique id db u = record { apart = u.apart; fresh = u.fresh }

insert_edge-Unique : (e : Edge) (db : Db) → Unique db → Holds (λ r. Unique r.1) (insert_edge e db)
unfolding insert_edge
insert_edge-Unique e db u = elim (Bool-cases (any (str_eq e.edge_type) edge_types)) [
  | inr h ↦ rw (insert_edge, h) tt
  | inl h ↦ elim (Bool-cases (has_id e.src_id db.nodes && has_id e.dst_id db.nodes)) [
    | inr t ↦ rw (insert_edge, h, t) tt
    | inl t ↦ rw (insert_edge, h, t) (record { apart = u.apart; fresh = u.fresh })
  ]
]

upsert_edge-Unique : (e : Edge) (db : Db) → Unique db → Holds (λ r. Unique r.1) (upsert_edge e db)
unfolding upsert_edge
upsert_edge-Unique e db u = elim (Option-cases (find_first (same_edge e) db.edges)) [
  | inr (r, h) ↦ rw (upsert_edge, h) (record { apart = u.apart; fresh = u.fresh })
  | inl h ↦ rw (upsert_edge, h) (insert_edge-Unique e db u)
]

drop_callees_cache-Unique : (uri : Str) (db : Db) → Unique db → Unique (drop_callees_cache uri db)
unfolding drop_callees_cache
drop_callees_cache-Unique uri db u = record { apart = u.apart; fresh = u.fresh }

-- An UPDATE of other columns than the id and the full name.
update_row-Unique :
    (id : ℕ) (f : Node → Node) (db : Db)
    → ((n : Node) → (f n).fqn ≡ n.fqn)
    → Unique db
    → Unique (record db { nodes = update_row id f db.nodes })
unfolding update_row
update_row-Unique id f db k u =
    Unique-map _ db
      (λ r. elim (Bool-cases (r.id == id)) [
        | inl e ↦ rw e (refl, k r.node)
        | inr e ↦ rw e (refl, refl)
      ])
      u

by_fqn-Unique :
    (fqn signature : Str) (db : Db)
    → Unique db
    → Unique (update_node_signature_by_fqn fqn signature db)
unfolding update_node_signature_by_fqn
by_fqn-Unique fqn signature db u =
    Unique-map _ db
      (λ r. elim (Bool-cases (str_eq r.node.fqn fqn)) [
        | inl e ↦ rw e (refl, refl)
        | inr e ↦ rw e (refl, refl)
      ])
      u

set_callees_cache_hash-Unique :
    (id : ℕ) (hash : Str) (db : Db) → Unique db → Holds Unique (set_callees_cache_hash id hash db)
unfolding set_callees_cache_hash
set_callees_cache_hash-Unique id hash db u = elim (Bool-cases (has_id id db.nodes)) [
  | inl e ↦ rw (set_callees_cache_hash, e) (record { apart = u.apart; fresh = u.fresh })
  | inr e ↦ rw (set_callees_cache_hash, e) tt
]

mark_materialized-Unique :
    (id : ℕ) (edge_type : Str) (db : Db)
    → Unique db
    → Holds Unique (mark_materialized id edge_type db)
unfolding mark_materialized
mark_materialized-Unique id edge_type db u = elim (Bool-cases (is_materialized id edge_type db)) [
  | inl e ↦ rw (mark_materialized, e) u
  | inr e ↦ elim (Bool-cases (has_id id db.nodes)) [
    | inl t ↦ rw (mark_materialized, e, t) (record { apart = u.apart; fresh = u.fresh })
    | inr t ↦ rw (mark_materialized, e, t) tt
  ]
]

set_meta-Unique : (key value : Str) (db : Db) → Unique db → Unique (set_meta key value db)
unfolding set_meta
set_meta-Unique key value db u = record { apart = u.apart; fresh = u.fresh }

invalidate_outgoing-Unique :
    (id : ℕ) (db : Db) → Unique db → Unique (invalidate_outgoing_calls id db)
unfolding invalidate_outgoing_calls
invalidate_outgoing-Unique id db u = record { apart = u.apart; fresh = u.fresh }

pub Unique-IsInvariant : Invariant Unique
Unique-IsInvariant = record {
  keeps_write_row = write_row-Unique;
  keeps_upsert_node = upsert_node-Unique;
  keeps_delete_node = delete_node-Unique;
  keeps_parked = parked-Unique;
  keeps_drop_callees_cache = drop_callees_cache-Unique;
  keeps_invalidate_edges = invalidate_edges-Unique;
  keeps_upsert_edge = upsert_edge-Unique;
  keeps_update_row = update_row-Unique;
  keeps_by_fqn = by_fqn-Unique;
  keeps_set_meta = set_meta-Unique;
  keeps_invalidate_outgoing = invalidate_outgoing-Unique;
  keeps_set_hash = set_callees_cache_hash-Unique;
  keeps_mark = mark_materialized-Unique;
}

module _ (hash : BodyFingerprinted → ℕ) where
  -- Whatever commands the db actor has taken since the database was created, failed ones included, no
  -- two nodes have the same id or the same full name, and the next id is larger than all in use.
  pub run-Unique : (cs : List DbCommand) → Unique (run hash cs empty_db).1
  run-Unique cs = run-Kept Unique-IsInvariant hash cs empty_db (record { apart = tt; fresh = tt })
