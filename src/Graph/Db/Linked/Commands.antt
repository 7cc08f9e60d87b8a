-- ===== src/Graph/Db/Linked/Commands.antt =====
-- src/graph/db.rs: every command of the db actor keeps the edges linked and single.
use semnav.Base.{ℕ, Bool-cases, inl, inr, Str, List}
use semnav.Graph.Db.State.{Result, ok, err, Db, empty_db, update_row, has_id}
use semnav.Graph.Db.Nodes.{write_row, upsert_node}
use semnav.Graph.Db.Edges.{upsert_edge}
use semnav.Graph.Db.Meta.{
  drop_callees_cache, set_meta, set_callees_cache_hash, is_materialized, mark_materialized,
}
use semnav.Graph.Db.Reconcile.Matching.{BodyFingerprinted}
use semnav.Graph.Db.Actor.{DbCommand, run}
use semnav.Graph.Db.Unique.{Holds}
use semnav.Graph.Db.EdgeKeys.{EdgeKeys}
use semnav.Graph.Db.EdgeKeys.Commands.{EdgeKeys-IsInvariant}
use semnav.Graph.Db.Linked.{IsLinked}
use semnav.Graph.Db.Invariant.{Invariant}
use semnav.Graph.Db.Invariant.Commands.{run-Kept}
use semnav.Graph.Db.Linked.Nodes.{
  Linked-nodes, update_row-KeepsNodes, write_row-Linked, upsert_node-Linked, delete_node-Linked,
  parked-Linked, by_fqn-Linked,
}
use semnav.Graph.Db.Linked.Edges.{
  invalidate_edges-Linked, invalidate_outgoing-Linked, upsert_edge-Linked,
}

drop_callees_cache-Linked :
    (uri : Str) (db : Db) → IsLinked db → IsLinked (drop_callees_cache uri db)
unfolding drop_callees_cache
drop_callees_cache-Linked uri db l = record { ends = l.ends; single = l.single }

set_meta-Linked : (key value : Str) (db : Db) → IsLinked db → IsLinked (set_meta key value db)
unfolding set_meta
set_meta-Linked key value db l = record { ends = l.ends; single = l.single }

set_hash-Linked :
    (id : ℕ) (hash : Str) (db : Db)
    → IsLinked db
    → Holds IsLinked (set_callees_cache_hash id hash db)
unfolding set_callees_cache_hash
set_hash-Linked id hash db l = elim (Bool-cases (has_id id db.nodes)) [
  | inl e ↦ rw (set_callees_cache_hash, e) (record { ends = l.ends; single = l.single })
  | inr e ↦ rw (set_callees_cache_hash, e) tt
]

mark_materialized-Linked :
    (id : ℕ) (edge_type : Str) (db : Db)
    → IsLinked db
    → Holds IsLinked (mark_materialized id edge_type db)
unfolding mark_materialized
mark_materialized-Linked id edge_type db l = elim (Bool-cases (is_materialized id edge_type db)) [
  | inl e ↦ rw (mark_materialized, e) l
  | inr e ↦ elim (Bool-cases (has_id id db.nodes)) [
    | inl t ↦ rw (mark_materialized, e, t) (record { ends = l.ends; single = l.single })
    | inr t ↦ rw (mark_materialized, e, t) tt
  ]
]

-- The ids of edges are needed to see that an UPDATE by id concerns the row that was found.
pub record IsSound (db : Db) : Type 0 where
  pub keys : EdgeKeys db
  pub linked : IsLinked db

both : {db : Db} → EdgeKeys db → IsLinked db → IsSound db
both k l = record { keys = k; linked = l }

Holds-both :
    {A : Type 0} (f : A → Db) (m : Result A)
    → Holds (λ a. EdgeKeys (f a)) m
    → Holds (λ a. IsLinked (f a)) m
    → Holds (λ a. IsSound (f a)) m
Holds-both f (ok a) k l = both k l
Holds-both f (err e) k l = tt

IsSound-IsInvariant : Invariant IsSound
IsSound-IsInvariant =
    let i = EdgeKeys-IsInvariant in
    record {
      keeps_write_row = λ id n db s.
          Holds-both (λ x. x) (write_row id n db) (i.keeps_write_row id n db s.keys)
            (write_row-Linked id n db s.linked);
      keeps_upsert_node = λ n db s.
          Holds-both (λ x. x.1) (upsert_node n db) (i.keeps_upsert_node n db s.keys)
            (upsert_node-Linked n db s.linked);
      keeps_delete_node =
          λ id db s. both (i.keeps_delete_node id db s.keys) (delete_node-Linked id db s.linked);
      keeps_parked =
          λ uri db s. both (i.keeps_parked uri db s.keys) (parked-Linked uri db s.linked);
      keeps_drop_callees_cache = λ uri db s.
          both (i.keeps_drop_callees_cache uri db s.keys)
            (drop_callees_cache-Linked uri db s.linked);
      keeps_invalidate_edges = λ id db s.
          both (i.keeps_invalidate_edges id db s.keys) (invalidate_edges-Linked id db s.linked);
      keeps_upsert_edge = λ e db s.
          Holds-both (λ x. x.1) (upsert_edge e db) (i.keeps_upsert_edge e db s.keys)
            (upsert_edge-Linked e db s.keys s.linked);
      keeps_update_row = λ id f db h s. both (i.keeps_update_row id f db h s.keys) (
          Linked-nodes (update_row id f db.nodes) db.next_node db
            (update_row-KeepsNodes id f db.nodes) s.linked);
      keeps_by_fqn = λ fqn signature db s.
          both (i.keeps_by_fqn fqn signature db s.keys) (by_fqn-Linked fqn signature db s.linked);
      keeps_set_meta = λ key value db s.
          both (i.keeps_set_meta key value db s.keys) (set_meta-Linked key value db s.linked);
      keeps_invalidate_outgoing = λ id db s.
          both (i.keeps_invalidate_outgoing id db s.keys)
            (invalidate_outgoing-Linked id db s.linked);
      keeps_set_hash = λ id hash db s.
          Holds-both (λ x. x) (set_callees_cache_hash id hash db)
            (i.keeps_set_hash id hash db s.keys) (set_hash-Linked id hash db s.linked);
      keeps_mark = λ id edge_type db s.
          Holds-both (λ x. x) (mark_materialized id edge_type db)
            (i.keeps_mark id edge_type db s.keys)
            (mark_materialized-Linked id edge_type db s.linked);
    }

module _ (hash : BodyFingerprinted → ℕ) where
  -- Whatever commands the db actor has taken since the database was created, failed ones included: both
  -- ends of every edge are nodes of the table, and no two edges have the same ends, type, file and
  -- start of the range at which they are written.
  pub run-IsLinked : (cs : List DbCommand) → IsLinked (run hash cs empty_db).1
  run-IsLinked cs =
      let s = run-Kept IsSound-IsInvariant hash cs empty_db (record {
        keys = record { separate = tt; fresh = tt };
        linked = record { ends = tt; single = tt };
      }) in
      s.linked
