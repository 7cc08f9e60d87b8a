-- ===== src/Graph/Db/Invariant.antt =====
-- src/graph/db.rs: the passes of a reconcile, and the commands, keep what each statement keeps.
pub mod Commands
use semnav.Base.{
  ℕ, suc, ◌≡◌, refl, Bool, true, false, not, Bool-cases, Option-cases, inl, inr, Option, none, some,
  List, [], ◌∷◌, Str, str_eq, opt_eq, any, find_first, get_elem?, set, ◌==◌, replicate, length,
  ◌&&◌,
}
use semnav.Graph.Model.{Node, Edge, ReconcileSymbol, ReconcileOutcome, default_outcome}
use semnav.Graph.Db.State.{Result, ok, err, NodeRow, Db, update_row, has_id, edge_types}
use semnav.Graph.Db.Nodes.{write_row, upsert_node, nodes_by_uri, update_node_signature_by_fqn}
use semnav.Graph.Db.Edges.{
  upsert_edge, delete_node, invalidate_outgoing_calls, insert_edge, same_edge, invalidate_edges,
}
use semnav.Graph.Db.Meta.{drop_callees_cache, set_meta, set_callees_cache_hash, mark_materialized}
use semnav.Graph.Db.Reconcile.Matching.{BodyFingerprinted}
use semnav.Graph.Db.Reconcile.Apply.{
  park_row, occupied, parked, park, id_at, or_no_id, container_of, patched, update_where_id,
  fresh_node, keep_row, keep_symbol, apply_symbol, apply_symbols, orphaned_node, reclaim_one,
  reclaim, contains_edge, link_contains,
}
use semnav.Graph.Db.Reconcile.{assign, ended, reconcile_file_symbols_tx, reconcile_file_symbols}
use semnav.Graph.Db.Unique.{Holds, Holds-bind, Holds-any}

-- A property of databases that each statement of the actor keeps.
pub record Invariant (P : Db → Type 0) : Type 0 where
  pub keeps_write_row : (id : ℕ) (n : Node) (db : Db) → P db → Holds P (write_row id n db)
  pub keeps_upsert_node : (n : Node) (db : Db) → P db → Holds (λ r. P r.1) (upsert_node n db)
  pub keeps_delete_node : (id : ℕ) (db : Db) → P db → P (delete_node id db)
  pub keeps_parked : (uri : Str) (db : Db) → P db → P (parked uri db)
  pub keeps_drop_callees_cache : (uri : Str) (db : Db) → P db → P (drop_callees_cache uri db)
  pub keeps_invalidate_edges : (id : ℕ) (db : Db) → P db → P (invalidate_edges id db)
  pub keeps_upsert_edge : (e : Edge) (db : Db) → P db → Holds (λ r. P r.1) (upsert_edge e db)
  pub keeps_update_row :
      (id : ℕ) (f : Node → Node) (db : Db)
      → ((n : Node) → (f n).fqn ≡ n.fqn)
      → P db
      → P (record db { nodes = update_row id f db.nodes })
  pub keeps_by_fqn :
      (fqn signature : Str) (db : Db) → P db → P (update_node_signature_by_fqn fqn signature db)
  pub keeps_set_meta : (key value : Str) (db : Db) → P db → P (set_meta key value db)
  pub keeps_invalidate_outgoing : (id : ℕ) (db : Db) → P db → P (invalidate_outgoing_calls id db)
  pub keeps_set_hash :
      (id : ℕ) (hash : Str) (db : Db) → P db → Holds P (set_callees_cache_hash id hash db)
  pub keeps_mark :
      (id : ℕ) (edge_type : Str) (db : Db) → P db → Holds P (mark_materialized id edge_type db)

module _ {P : Db → Type 0} (inv : Invariant P) where
  update_where_id-Kept :
      (id : ℕ) (f : Node → Node) (db : Db) → P db → Holds P (update_where_id id f db)
  unfolding update_where_id
  update_where_id-Kept id f db u = elim (Option-cases (find_first (λ r. r.id == id) db.nodes)) [
    | inl e ↦ rw (Holds, update_where_id, e) u
    | inr (r, e) ↦ rw (Holds, update_where_id, e) (inv.keeps_write_row id (f r.node) db u)
  ]

  keep_row-Kept :
      (old : Node) (sym : ReconcileSymbol) (id : ℕ) (o : ReconcileOutcome) (db : Db)
      → P db
      → P (keep_row old sym id o db).1
  unfolding keep_row
  keep_row-Kept old sym id o db u = elim (Bool-cases (not (str_eq old.fqn sym.fqn))) [
    | inl e ↦ rw e (inv.keeps_invalidate_edges id db u)
    | inr e ↦ elim (Bool-cases (not (opt_eq str_eq old.signature_hash (some sym.signature_hash)))) [
      | inl t ↦ rw (e, t) (inv.keeps_invalidate_edges id db u)
      | inr t ↦ rw (e, t) u
    ]
  ]

  keep_symbol-Kept :
      (old : Node) (sym : ReconcileSymbol) (container : Option ℕ) (o : ReconcileOutcome) (db : Db)
      → P db
      → Holds (λ r. P r.2) (keep_symbol old sym container o db)
  unfolding keep_symbol
  keep_symbol-Kept old sym container o db u =
      Holds-bind (λ id. Unit) (λ r. P r.2) (or_no_id old.id) _ (Holds-any (or_no_id old.id))
        (λ id q.
          Holds-bind P (λ r. P r.2) (update_where_id id (patched sym container) db) _
            (update_where_id-Kept id (patched sym container) db u)
            (λ db' v. keep_row-Kept old sym id o db' v))

  apply_symbol-Kept :
      (uri language : Str) (is_external : Bool) (olds : List Node) (sym : ReconcileSymbol)
      (a : Option ℕ) (ids : List (Option ℕ)) (o : ReconcileOutcome) (db : Db)
      → P db
      → Holds (λ r. P r.2) (apply_symbol uri language is_external olds sym a ids o db)
  unfolding apply_symbol
  apply_symbol-Kept uri language is_external olds sym none ids o db u =
      Holds-bind (λ c. Unit) (λ r. P r.2) (container_of ids sym.parent) _ (Holds-any _)
        (λ container q.
          let node = fresh_node uri language is_external sym container in
          Holds-bind (λ r. P r.1) (λ r. P r.2) (upsert_node node db) _
            (inv.keeps_upsert_node node db u) (λ r v. v))
  apply_symbol-Kept uri language is_external olds sym (some j) ids o db u =
      Holds-bind (λ c. Unit) (λ r. P r.2) (container_of ids sym.parent) _ (Holds-any _)
        (λ container q. elim (Option-cases (get_elem? olds j)) [
          | inl e ↦ rw e tt
          | inr (old, e) ↦ rw e (keep_symbol-Kept old sym container o db u)
        ])

  apply_symbols-Kept :
      (uri language : Str) (is_external : Bool) (olds : List Node) (ss : List ReconcileSymbol)
      (as' : List (Option ℕ)) (i : ℕ) (ids : List (Option ℕ)) (o : ReconcileOutcome) (db : Db)
      → P db
      → Holds (λ r. P r.2) (apply_symbols uri language is_external olds ss as' i ids o db)
  unfolding apply_symbols
  apply_symbols-Kept uri language is_external olds [] as' i ids o db u = u
  apply_symbols-Kept uri language is_external olds (s ∷ ss) [] i ids o db u = tt
  apply_symbols-Kept uri language is_external olds (s ∷ ss) (a ∷ as') i ids o db u =
      Holds-bind (λ r. P r.2) (λ r. P r.2) (apply_symbol uri language is_external olds s a ids o db)
        _ (apply_symbol-Kept uri language is_external olds s a ids o db u)
        (λ r v.
          apply_symbols-Kept uri language is_external olds ss as' (suc i) (set ids i (some r.0)) r.1
            r.2 v)

  reclaim_one-Kept :
      (old : Node) (o : ReconcileOutcome) (db : Db)
      → P db
      → Holds (λ r. P r.1) (reclaim_one old o db)
  unfolding reclaim_one
  reclaim_one-Kept old o db u =
      Holds-bind (λ id. Unit) (λ r. P r.1) (or_no_id old.id) _ (Holds-any _)
        (λ id q. elim (Bool-cases old.orphan) [
          | inl e ↦ rw e (inv.keeps_delete_node id db u)
          | inr e ↦ rw e (
              Holds-bind P (λ r. P r.1) (update_where_id id (orphaned_node old.range.start_line) db)
                _ (update_where_id-Kept id (orphaned_node old.range.start_line) db u) (λ db' v. v))
        ])

  reclaim-Kept :
      (olds : List Node) (used : List Bool) (o : ReconcileOutcome) (db : Db)
      → P db
      → Holds (λ r. P r.1) (reclaim olds used o db)
  unfolding reclaim
  reclaim-Kept [] used o db u = u
  reclaim-Kept (n ∷ ns) [] o db u = tt
  reclaim-Kept (n ∷ ns) (true ∷ us) o db u = reclaim-Kept ns us o db u
  reclaim-Kept (n ∷ ns) (false ∷ us) o db u =
      Holds-bind (λ r. P r.1) (λ r. P r.1) (reclaim_one n o db) _ (reclaim_one-Kept n o db u)
        (λ r v. reclaim-Kept ns us r.0 r.1 v)

  link_contains-Kept :
      (ids : List (Option ℕ)) (ss : List ReconcileSymbol) (i : ℕ) (db : Db)
      → P db
      → Holds P (link_contains ids ss i db)
  unfolding link_contains
  link_contains-Kept ids [] i db u = u
  link_contains-Kept ids (s ∷ ss) i db u = elim (Option-cases s.parent) [
    | inl h ↦ rw (link_contains, h) (link_contains-Kept ids ss (suc i) db u)
    | inr (p, h) ↦
        rw (link_contains, h)
          (Holds-bind (λ src. Unit) P (id_at ids p) _ (Holds-any _)
            (λ src q.
              Holds-bind (λ dst. Unit) P (id_at ids i) _ (Holds-any _)
                (λ dst q'.
                  Holds-bind (λ r. P r.1) P (upsert_edge (contains_edge src dst) db) _
                    (inv.keeps_upsert_edge (contains_edge src dst) db u)
                    (λ r v. link_contains-Kept ids ss (suc i) r.1 v))))
  ]

module _ {P : Db → Type 0} (inv : Invariant P) (hash : BodyFingerprinted → ℕ) where
  park-Kept : (uri : Str) (db : Db) → P db → Holds P (park uri db)
  unfolding park
  park-Kept uri db p = elim (Bool-cases (any (occupied uri db.nodes) db.nodes)) [
    | inl e ↦ rw (park, e) tt
    | inr e ↦ rw (park, e) (inv.keeps_parked uri db p)
  ]

  tx-Kept :
      (uri language : Str) (is_external : Bool) (symbols : List ReconcileSymbol) (db : Db)
      → P db
      → Holds (λ r. P r.1) (reconcile_file_symbols_tx hash uri language is_external symbols db)
  unfolding reconcile_file_symbols_tx
  tx-Kept uri language is_external symbols db u =
      let db1 = drop_callees_cache uri db in
      let olds = nodes_by_uri uri db1 in
      let a = assign hash olds symbols in
      Holds-bind P (λ r. P r.1) (park uri db1) _
        (park-Kept uri db1 (inv.keeps_drop_callees_cache uri db u))
        (λ db2 p.
          Holds-bind (λ r. P r.2) (λ r. P r.1)
            (apply_symbols uri language is_external olds symbols a.0 0
              (replicate (length symbols) none) default_outcome db2)
            _
            (apply_symbols-Kept inv uri language is_external olds symbols a.0 0
              (replicate (length symbols) none) default_outcome db2 p)
            (λ r v.
              Holds-bind (λ p. P p.1) (λ p. P p.1) (reclaim olds a.1 r.1 r.2) _
                (reclaim-Kept inv olds a.1 r.1 r.2 v)
                (λ p w.
                  Holds-bind P (λ q. P q.1) (link_contains r.0 symbols 0 p.1) _
                    (link_contains-Kept inv r.0 symbols 0 p.1 w) (λ db5 x. x))))

  ended-Kept :
      (r : Result (ReconcileOutcome × Db)) (db : Db)
      → Holds (λ p. P p.1) r
      → P db
      → P (ended hash r db).1
  ended-Kept (ok p) db h u = h
  ended-Kept (err e) db h u = u

  pub reconcile_file_symbols-Kept :
      (uri language : Str) (is_external : Bool) (symbols : List ReconcileSymbol) (db : Db)
      → P db
      → P (reconcile_file_symbols hash uri language is_external symbols db).1
  unfolding reconcile_file_symbols
  reconcile_file_symbols-Kept uri language is_external symbols db u =
      ended-Kept (reconcile_file_symbols_tx hash uri language is_external symbols db) db
        (tx-Kept uri language is_external symbols db u) u
