-- ===== src/Graph/Db/Linked/Nodes.antt =====
-- src/graph/db.rs: the statements on nodes keep the edges linked and single.
use semnav.Base.{
  ℕ, ◌≡◌, ◌≢◌, refl, sym, ◌∙◌, Bool, true, false, not, ◌||◌, Bool-cases, Option-cases, inl, inr,
  Str, List, [], ◌∷◌, ◌++◌, All-map_of, map, retain, find_first, if◌then◌else◌, str_eq, ◌==◌,
  ==_iff, arith,
}
use semnav.Base.Any.{retain-All}
use semnav.Graph.Model.{Node}
use semnav.Graph.Db.State.{
  Result, ok, err, same_fqn, same_phys, reference_ok, clashes, EdgeRow, NodeRow, Db, update_row,
  has_id,
}
use semnav.Graph.Db.Nodes.{
  written, stored, write_row, insert_row, upsert_node, update_node_signature_by_fqn,
}
use semnav.Graph.Db.Edges.{clear_container, delete_node}
use semnav.Graph.Db.Reconcile.Apply.{park_row, parked}
use semnav.Graph.Db.Unique.{Holds}
use semnav.Graph.Db.Linked.{
  HasEnds, IsLinked, DistinctLinks-retain, KeepsNodes, KeepsNodes-map, KeepsNodes-append,
  has_id-retain,
}

-- A statement on nodes that deletes none.
pub Linked-nodes :
    (nodes : List NodeRow) (next_node : ℕ) (db : Db)
    → KeepsNodes db.nodes nodes
    → IsLinked db
    → IsLinked (record db { nodes = nodes; next_node = next_node })
Linked-nodes nodes next_node db k l = record {
  ends =
      All-map_of (λ (r : EdgeRow) (h : HasEnds db.nodes r). (k r.src_id h.0, k r.dst_id h.1))
        db.edges l.ends;
  single = l.single;
}

one_of-id : (b : Bool) (q p : NodeRow) → p.id ≡ q.id → (if b then p else q).id ≡ q.id
one_of-id true q p e = e
one_of-id false q p e = refl

pub update_row-KeepsNodes :
    (id : ℕ) (f : Node → Node) (nodes : List NodeRow) → KeepsNodes nodes (update_row id f nodes)
unfolding update_row
update_row-KeepsNodes id f nodes = KeepsNodes-map _ nodes (λ r. one_of-id (r.id == id) r _ refl)

pub write_row-Linked :
    (id : ℕ) (n : Node) (db : Db) → IsLinked db → Holds IsLinked (write_row id n db)
unfolding write_row
write_row-Linked id n db l = elim (Bool-cases (clashes id n db.nodes)) [
  | inl e ↦ rw e tt
  | inr e ↦ elim (Bool-cases (reference_ok n.container_id db.nodes)) [
    | inl t ↦
        rw (e, t)
          (Linked-nodes (update_row id (λ _. stored n) db.nodes) db.next_node db
            (update_row-KeepsNodes id (λ _. stored n) db.nodes) l)
    | inr t ↦ rw (e, t) tt
  ]
]

insert_row-Linked : (n : Node) (db : Db) → IsLinked db → Holds (λ r. IsLinked r.1) (insert_row n db)
unfolding insert_row
insert_row-Linked n db l = elim (Bool-cases (clashes db.next_node n db.nodes)) [
  | inl e ↦ rw e tt
  | inr e ↦
      let rows = db.nodes ++ record { id = db.next_node; node = stored n } ∷ [] in
      elim (Bool-cases (reference_ok n.container_id rows)) [
        | inl t ↦ rw (e, t) (Linked-nodes rows _ db (KeepsNodes-append db.nodes _) l)
        | inr t ↦ rw (e, t) tt
      ]
]

written-Linked :
    (id : ℕ) (r : Result Db) → Holds IsLinked r → Holds (λ r. IsLinked r.1) (written id r)
written-Linked id (ok db) h = h
written-Linked id (err e) h = tt

pub upsert_node-Linked :
    (n : Node) (db : Db) → IsLinked db → Holds (λ r. IsLinked r.1) (upsert_node n db)
unfolding upsert_node
upsert_node-Linked n db l = elim (Option-cases (find_first (λ r. same_fqn r.node n) db.nodes)) [
  | inr (r, e) ↦
      rw (upsert_node, e) (written-Linked r.id (write_row r.id n db) (write_row-Linked r.id n db l))
  | inl e ↦ elim (Option-cases (find_first (λ r. same_phys r.node n) db.nodes)) [
    | inr (r, t) ↦
        rw (upsert_node, e, t)
          (written-Linked r.id (write_row r.id n db) (write_row-Linked r.id n db l))
    | inl t ↦ rw (upsert_node, e, t) (insert_row-Linked n db l)
  ]
]

-- The edges that a deletion leaves have other ends than the deleted node.
other_ends :
    (id : ℕ) (r : EdgeRow)
    → not (r.src_id == id || r.dst_id == id) ≡ true
    → (r.src_id ≢ id) × (r.dst_id ≢ id)
other_ends id r h =
    (λ e. ground (arith, ==_iff r.src_id id), λ e. ground (arith, ==_iff r.dst_id id))

pub delete_node-Linked : (id : ℕ) (db : Db) → IsLinked db → IsLinked (delete_node id db)
unfolding delete_node
delete_node-Linked id db l =
    let left = retain (λ (r : NodeRow). not (r.id == id)) db.nodes in
    let kept = λ (r : EdgeRow). not (r.src_id == id || r.dst_id == id) in
    let there = λ (end : ℕ) (ne : end ≢ id) (h : has_id end db.nodes ≡ true).
      KeepsNodes-map (clear_container id) left (λ r. refl) end
        (has_id-retain (λ (r : NodeRow). not (r.id == id)) end db.nodes
          (λ r e. let other : r.id ≢ id = λ t. ne (sym e ∙ t) in ground (arith, ==_iff r.id id))
          h) in
    record {
      ends = retain-All (HasEnds (map (clear_container id) left)) kept db.edges (
          All-map_of {Q = λ r. kept r ≡ true → HasEnds (map (clear_container id) left) r}
            (λ r h stays.
              let (src, dst) = other_ends id r stays in
              (there r.src_id src h.0, there r.dst_id dst h.1))
            db.edges l.ends);
      single = DistinctLinks-retain _ db.edges l.single;
    }

pub parked-Linked : (uri : Str) (db : Db) → IsLinked db → IsLinked (parked uri db)
unfolding parked
parked-Linked uri db l =
    Linked-nodes _ db.next_node db
      (KeepsNodes-map (park_row uri) db.nodes (λ r. one_of-id (str_eq r.node.uri uri) r _ refl)) l

pub by_fqn-Linked :
    (fqn signature : Str) (db : Db)
    → IsLinked db
    → IsLinked (update_node_signature_by_fqn fqn signature db)
unfolding update_node_signature_by_fqn
by_fqn-Linked fqn signature db l =
    Linked-nodes _ db.next_node db
      (KeepsNodes-map _ db.nodes (λ r. one_of-id (str_eq r.node.fqn fqn) r _ refl)) l
