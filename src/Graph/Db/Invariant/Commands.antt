-- ===== src/Graph/Db/Invariant/Commands.antt =====
-- src/graph/db.rs: every command of the db actor keeps what each statement keeps.
use semnav.Base.{ℕ, refl, some, List, [], ◌∷◌}
use semnav.Graph.Model.{ReconcileOutcome}
use semnav.Graph.Db.State.{Result, ok, err, Db}
use semnav.Graph.Db.Nodes.{upsert_node, update_node_construct, update_node_signature}
use semnav.Graph.Db.Edges.{upsert_edge}
use semnav.Graph.Db.Reconcile.Matching.{BodyFingerprinted}
use semnav.Graph.Db.Reconcile.{reconcile_file_symbols}
use semnav.Graph.Db.Actor.{
  DbCommand, upsert_node_cmd, get_node_by_fqn_cmd, get_node_cmd, list_nodes_cmd,
  find_node_by_position_cmd, get_neighbors_cmd, upsert_edge_cmd, set_meta_cmd, get_meta_cmd,
  reconcile_file_symbols_cmd, update_node_construct_cmd, update_node_signature_cmd,
  update_node_signature_by_fqn_cmd, get_callees_cache_hash_cmd, set_callees_cache_hash_cmd,
  is_materialized_cmd, mark_materialized_cmd, invalidate_outgoing_calls_cmd, known_uris_cmd,
  count_real_nodes_cmd, id_reply, done_reply, outcome_reply, run_command, run,
}
use semnav.Graph.Db.Unique.{Holds}
use semnav.Graph.Db.Invariant.{Invariant, reconcile_file_symbols-Kept}

id_reply-Kept :
    (P : Db → Type 0) (db : Db) (r : Result (ℕ × Db))
    → P db
    → Holds (λ p. P p.1) r
    → P (id_reply db r).1
id_reply-Kept P db (ok p) u h = h
id_reply-Kept P db (err e) u h = u

done_reply-Kept :
    (P : Db → Type 0) (db : Db) (r : Result Db) → P db → Holds P r → P (done_reply db r).1
done_reply-Kept P db (ok db') u h = h
done_reply-Kept P db (err e) u h = u

outcome_reply-Kept :
    (P : Db → Type 0) (r : Result ReconcileOutcome × Db) → P r.1 → P (outcome_reply r).1
outcome_reply-Kept P (ok o, db) u = u
outcome_reply-Kept P (err e, db) u = u

module _ {P : Db → Type 0} (inv : Invariant P) (hash : BodyFingerprinted → ℕ) where
  run_command-Kept : (c : DbCommand) (db : Db) → P db → P (run_command hash c db).1
  unfolding run_command update_node_construct update_node_signature
  run_command-Kept (upsert_node_cmd n) db u =
      id_reply-Kept P db (upsert_node n db) u (inv.keeps_upsert_node n db u)
  run_command-Kept (upsert_edge_cmd e) db u =
      id_reply-Kept P db (upsert_edge e db) u (inv.keeps_upsert_edge e db u)
  run_command-Kept (reconcile_file_symbols_cmd uri language is_external symbols) db u =
      outcome_reply-Kept P (reconcile_file_symbols hash uri language is_external symbols db)
        (reconcile_file_symbols-Kept inv hash uri language is_external symbols db u)
  run_command-Kept (update_node_construct_cmd id construct) db u =
      inv.keeps_update_row id (λ n. record n { construct = some construct }) db (λ n. refl) u
  run_command-Kept (update_node_signature_cmd id signature) db u =
      inv.keeps_update_row id (λ n. record n { signature = some signature }) db (λ n. refl) u
  run_command-Kept (update_node_signature_by_fqn_cmd fqn signature) db u =
      inv.keeps_by_fqn fqn signature db u
  run_command-Kept (set_callees_cache_hash_cmd id content_hash) db u =
      done_reply-Kept P db _ u (inv.keeps_set_hash id content_hash db u)
  run_command-Kept (mark_materialized_cmd id edge_type) db u =
      done_reply-Kept P db _ u (inv.keeps_mark id edge_type db u)
  run_command-Kept (set_meta_cmd key value) db u = inv.keeps_set_meta key value db u
  run_command-Kept (invalidate_outgoing_calls_cmd id) db u = inv.keeps_invalidate_outgoing id db u
  run_command-Kept (get_node_by_fqn_cmd fqn) db u = u
  run_command-Kept (get_node_cmd id) db u = u
  run_command-Kept (list_nodes_cmd language) db u = u
  run_command-Kept (find_node_by_position_cmd uri line col) db u = u
  run_command-Kept (get_neighbors_cmd id edge_type direction) db u = u
  run_command-Kept (get_meta_cmd key) db u = u
  run_command-Kept (get_callees_cache_hash_cmd id) db u = u
  run_command-Kept (is_materialized_cmd id edge_type) db u = u
  run_command-Kept known_uris_cmd db u = u
  run_command-Kept (count_real_nodes_cmd uri module_fqn) db u = u

  pub run-Kept : (cs : List DbCommand) (db : Db) → P db → P (run hash cs db).1
  unfolding run
  run-Kept [] db u = u
  run-Kept (c ∷ cs) db u = run-Kept cs (run_command hash c db).1 (run_command-Kept c db u)
