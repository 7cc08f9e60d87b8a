-- ===== src/Graph/Db/EdgeKeys/Commands.antt =====
-- src/graph/db.rs: every command of the db actor keeps the ids of `edges` unique.
use semnav.Base.{
  ℕ, ◌<◌, ◌≢◌, refl, Bool, not, ◌||◌, Bool-cases, Option-cases, inl, inr, List, [], ◌∷◌, ◌++◌, map,
  retain, find_first, Str, ◌==◌, All-retain,
}
use semnav.Graph.Model.{Node, Edge}
use semnav.Graph.Db.State.{
  Result, ok, err, same_fqn, same_phys, reference_ok, clashes, EdgeRow, NodeRow, Db, update_row,
  has_id,
}
use semnav.Graph.Db.Nodes.{
  written, stored, write_row, insert_row, upsert_node, update_node_signature_by_fqn,
}
use semnav.Graph.Db.Edges.{upsert_edge, delete_node, invalidate_edges, invalidate_outgoing_calls}
use semnav.Graph.Db.Meta.{
  drop_callees_cache, set_meta, set_callees_cache_hash, is_materialized, mark_materialized,
}
use semnav.Graph.Db.Reconcile.Apply.{parked}
use semnav.Graph.Db.Unique.{Holds, Holds-map}
use semnav.Graph.Db.EdgeKeys.{DistinctIds, EdgeKeys, KeepsIds, DistinctIds-map, fresh-map}
use semnav.Graph.Db.EdgeKeys.Touches.{
  Touches, one_of-id, upsert_edge-Touches, set_callees_cache_hash-Touches,
}
use semnav.Graph.Db.Invariant.{Invariant}

pub DistinctIds-retain :
    (p : EdgeRow → Bool) (rows : List EdgeRow) → DistinctIds rows → DistinctIds (retain p rows)
DistinctIds-retain p [] d = tt
DistinctIds-retain p (r ∷ rows) d = elim (Bool-cases (p r)) [
  | inl e ↦ rw e (All-retain (λ q. r.id ≢ q.id) p rows d.0, DistinctIds-retain p rows d.1)
  | inr e ↦ rw e (DistinctIds-retain p rows d.1)
]

-- A statement that changes no edge.
EdgeKeys-nodes :
    (nodes : List NodeRow) (next_node : ℕ) (db : Db)
    → EdgeKeys db
    → EdgeKeys (record db { nodes = nodes; next_node = next_node })
EdgeKeys-nodes nodes next_node db k = record { separate = k.separate; fresh = k.fresh }

-- An UPDATE of other columns than the id.
EdgeKeys-map :
    (f : EdgeRow → EdgeRow) (db : Db)
    → KeepsIds f
    → EdgeKeys db
    → EdgeKeys (record db { edges = map f db.edges })
EdgeKeys-map f db h k = record {
  separate = DistinctIds-map f db.edges h k.separate;
  fresh = fresh-map f db.edges db.next_edge h k.fresh;
}

write_row-EdgeKeys :
    (id : ℕ) (n : Node) (db : Db) → EdgeKeys db → Holds EdgeKeys (write_row id n db)
unfolding write_row
write_row-EdgeKeys id n db k = elim (Bool-cases (clashes id n db.nodes)) [
  | inl e ↦ rw e tt
  | inr e ↦ elim (Bool-cases (reference_ok n.container_id db.nodes)) [
    | inl t ↦ rw (e, t) (record { separate = k.separate; fresh = k.fresh })
    | inr t ↦ rw (e, t) tt
  ]
]

insert_row-EdgeKeys :
    (n : Node) (db : Db) → EdgeKeys db → Holds (λ r. EdgeKeys r.1) (insert_row n db)
unfolding insert_row
insert_row-EdgeKeys n db k = elim (Bool-cases (clashes db.next_node n db.nodes)) [
  | inl e ↦ rw e tt
  | inr e ↦
      let rows = db.nodes ++ record { id = db.next_node; node = stored n } ∷ [] in
      elim (Bool-cases (reference_ok n.container_id rows)) [
        | inl t ↦ rw (e, t) (record { separate = k.separate; fresh = k.fresh })
        | inr t ↦ rw (e, t) tt
      ]
]

written-EdgeKeys :
    (id : ℕ) (r : Result Db) → Holds EdgeKeys r → Holds (λ r. EdgeKeys r.1) (written id r)
written-EdgeKeys id (ok db) h = h
written-EdgeKeys id (err e) h = tt

upsert_node-EdgeKeys :
    (n : Node) (db : Db) → EdgeKeys db → Holds (λ r. EdgeKeys r.1) (upsert_node n db)
unfolding upsert_node
upsert_node-EdgeKeys n db k = elim (Option-cases (find_first (λ r. same_fqn r.node n) db.nodes)) [
  | inr (r, e) ↦
      rw (upsert_node, e)
        (written-EdgeKeys r.id (write_row r.id n db) (write_row-EdgeKeys r.id n db k))
  | inl e ↦ elim (Option-cases (find_first (λ r. same_phys r.node n) db.nodes)) [
    | inr (r, t) ↦
        rw (upsert_node, e, t)
          (written-EdgeKeys r.id (write_row r.id n db) (write_row-EdgeKeys r.id n db k))
    | inl t ↦ rw (upsert_node, e, t) (insert_row-EdgeKeys n db k)
  ]
]

delete_node-EdgeKeys : (id : ℕ) (db : Db) → EdgeKeys db → EdgeKeys (delete_node id db)
unfolding delete_node
delete_node-EdgeKeys id db k =
    let p = λ (r : EdgeRow). not (r.src_id == id || r.dst_id == id) in
    record {
      separate = DistinctIds-retain p db.edges k.separate;
      fresh = All-retain (λ r. r.id < db.next_edge) p db.edges k.fresh;
    }

parked-EdgeKeys : (uri : Str) (db : Db) → EdgeKeys db → EdgeKeys (parked uri db)
unfolding parked
parked-EdgeKeys uri db k = EdgeKeys-nodes _ db.next_node db k

by_fqn-EdgeKeys :
    (fqn signature : Str) (db : Db)
    → EdgeKeys db
    → EdgeKeys (update_node_signature_by_fqn fqn signature db)
unfolding update_node_signature_by_fqn
by_fqn-EdgeKeys fqn signature db k = EdgeKeys-nodes _ db.next_node db k

drop_callees_cache-EdgeKeys :
    (uri : Str) (db : Db) → EdgeKeys db → EdgeKeys (drop_callees_cache uri db)
unfolding drop_callees_cache
drop_callees_cache-EdgeKeys uri db k = record { separate = k.separate; fresh = k.fresh }

invalidate_edges-EdgeKeys : (id : ℕ) (db : Db) → EdgeKeys db → EdgeKeys (invalidate_edges id db)
unfolding invalidate_edges
invalidate_edges-EdgeKeys id db k =
    EdgeKeys-map _ db (λ q. one_of-id (q.src_id == id || q.dst_id == id) q _ refl) k

invalidate_outgoing-EdgeKeys :
    (id : ℕ) (db : Db) → EdgeKeys db → EdgeKeys (invalidate_outgoing_calls id db)
unfolding invalidate_outgoing_calls
invalidate_outgoing-EdgeKeys id db k = EdgeKeys-map _ db (λ q. one_of-id _ q _ refl) k

upsert_edge-EdgeKeys :
    (e : Edge) (db : Db) → EdgeKeys db → Holds (λ r. EdgeKeys r.1) (upsert_edge e db)
upsert_edge-EdgeKeys e db k =
    Holds-map (λ p. Touches e.src_id db p.1) (λ p. EdgeKeys p.1) (λ p t. t.keys) (upsert_edge e db)
      (upsert_edge-Touches e.src_id e db (λ _. refl) k)

set_meta-EdgeKeys : (key value : Str) (db : Db) → EdgeKeys db → EdgeKeys (set_meta key value db)
unfolding set_meta
set_meta-EdgeKeys key value db k = record { separate = k.separate; fresh = k.fresh }

mark_materialized-EdgeKeys :
    (id : ℕ) (edge_type : Str) (db : Db)
    → EdgeKeys db
    → Holds EdgeKeys (mark_materialized id edge_type db)
unfolding mark_materialized
mark_materialized-EdgeKeys id edge_type db k = elim (Bool-cases (is_materialized id edge_type db)) [
  | inl e ↦ rw (mark_materialized, e) k
  | inr e ↦ elim (Bool-cases (has_id id db.nodes)) [
    | inl t ↦ rw (mark_materialized, e, t) (record { separate = k.separate; fresh = k.fresh })
    | inr t ↦ rw (mark_materialized, e, t) tt
  ]
]

pub EdgeKeys-IsInvariant : Invariant EdgeKeys
EdgeKeys-IsInvariant = record {
  keeps_write_row = write_row-EdgeKeys;
  keeps_upsert_node = upsert_node-EdgeKeys;
  keeps_delete_node = delete_node-EdgeKeys;
  keeps_parked = parked-EdgeKeys;
  keeps_drop_callees_cache = drop_callees_cache-EdgeKeys;
  keeps_invalidate_edges = invalidate_edges-EdgeKeys;
  keeps_upsert_edge = upsert_edge-EdgeKeys;
  keeps_update_row = λ id f db h k. EdgeKeys-nodes (update_row id f db.nodes) db.next_node db k;
  keeps_by_fqn = by_fqn-EdgeKeys;
  keeps_set_meta = set_meta-EdgeKeys;
  keeps_invalidate_outgoing = invalidate_outgoing-EdgeKeys;
  keeps_set_hash = λ id hash db k.
      Holds-map (Touches 0 db) EdgeKeys (λ p t. t.keys) (set_callees_cache_hash id hash db)
        (set_callees_cache_hash-Touches 0 id hash db k);
  keeps_mark = mark_materialized-EdgeKeys;
}
