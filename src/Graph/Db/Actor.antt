-- ===== src/Graph/Db/Actor.antt =====
-- src/graph/db.rs: the commands of the db actor and its loop, one command after another.
use semnav.Base.{ℕ, ℤ, Bool, Option, List, [], ◌∷◌, Str}
use semnav.Graph.Model.{Node, Edge, ReconcileSymbol, ReconcileOutcome}
use semnav.Graph.Db.State.{DbError, Result, ok, err, Db}
use semnav.Graph.Db.Nodes.{
  upsert_node, get_node_by_fqn, get_node, list_nodes, known_uris, count_real_nodes,
  find_node_by_position, update_node_construct, update_node_signature, update_node_signature_by_fqn,
}
use semnav.Graph.Db.Edges.{
  Direction, Neighbor, upsert_edge, get_neighbors, invalidate_outgoing_calls,
}
use semnav.Graph.Db.Meta.{
  set_meta, get_meta, get_callees_cache_hash, set_callees_cache_hash, is_materialized,
  mark_materialized,
}
use semnav.Graph.Db.Reconcile.{reconcile_file_symbols}
use semnav.Graph.Db.Reconcile.Matching.{BodyFingerprinted}

-- `DbCommand`, without the channels that carry the replies.
pub data DbCommand : Type 0 where
  upsert_node_cmd : Node → DbCommand
  get_node_by_fqn_cmd : Str → DbCommand
  get_node_cmd : ℕ → DbCommand
  list_nodes_cmd : Option Str → DbCommand
  find_node_by_position_cmd : Str → ℤ → ℤ → DbCommand
  get_neighbors_cmd : ℕ → Str → Direction → DbCommand
  upsert_edge_cmd : Edge → DbCommand
  set_meta_cmd : Str → Str → DbCommand
  get_meta_cmd : Str → DbCommand
  reconcile_file_symbols_cmd : Str → Str → Bool → List ReconcileSymbol → DbCommand
  update_node_construct_cmd : ℕ → Str → DbCommand
  update_node_signature_cmd : ℕ → Str → DbCommand
  update_node_signature_by_fqn_cmd : Str → Str → DbCommand
  get_callees_cache_hash_cmd : ℕ → DbCommand
  set_callees_cache_hash_cmd : ℕ → Str → DbCommand
  is_materialized_cmd : ℕ → Str → DbCommand
  mark_materialized_cmd : ℕ → Str → DbCommand
  invalidate_outgoing_calls_cmd : ℕ → DbCommand
  known_uris_cmd : DbCommand
  count_real_nodes_cmd : Str → Str → DbCommand

-- What is sent back.
pub data Reply : Type 0 where
  failed : DbError → Reply
  done : Reply
  row_id : ℕ → Reply
  node : Option Node → Reply
  nodes : List Node → Reply
  neighbors : List Neighbor → Reply
  text : Option Str → Reply
  texts : List Str → Reply
  flag : Bool → Reply
  count : ℕ → Reply
  outcome : ReconcileOutcome → Reply

-- A statement that fails leaves the database as it was.
abbrev pub id_reply : Db → Result (ℕ × Db) → Reply × Db
id_reply db (ok (id, db')) = (row_id id, db')
id_reply db (err e) = (failed e, db)

abbrev pub done_reply : Db → Result Db → Reply × Db
done_reply db (ok db') = (done, db')
done_reply db (err e) = (failed e, db)

abbrev pub outcome_reply : Result ReconcileOutcome × Db → Reply × Db
outcome_reply (ok o, db) = (outcome o, db)
outcome_reply (err e, db) = (failed e, db)

module _ (body_hash : BodyFingerprinted → ℕ) where
  -- One turn of `DbActor::run`.
  unfoldable pub run_command : DbCommand → Db → Reply × Db
  run_command (upsert_node_cmd n) db = id_reply db (upsert_node n db)
  run_command (get_node_by_fqn_cmd fqn) db = (node (get_node_by_fqn fqn db), db)
  run_command (get_node_cmd id) db = (node (get_node id db), db)
  run_command (list_nodes_cmd language) db = (nodes (list_nodes language db), db)
  run_command (find_node_by_position_cmd uri line col) db =
      (node (find_node_by_position uri line col db), db)
  run_command (get_neighbors_cmd id edge_type direction) db =
      (neighbors (get_neighbors id edge_type direction db), db)
  run_command (upsert_edge_cmd e) db = id_reply db (upsert_edge e db)
  run_command (set_meta_cmd key value) db = (done, set_meta key value db)
  run_command (get_meta_cmd key) db = (text (get_meta key db), db)
  run_command (reconcile_file_symbols_cmd uri language is_external symbols) db =
      outcome_reply (reconcile_file_symbols body_hash uri language is_external symbols db)
  run_command (update_node_construct_cmd id construct) db =
      (done, update_node_construct id construct db)
  run_command (update_node_signature_cmd id signature) db =
      (done, update_node_signature id signature db)
  run_command (update_node_signature_by_fqn_cmd fqn signature) db =
      (done, update_node_signature_by_fqn fqn signature db)
  run_command (get_callees_cache_hash_cmd anchor_id) db =
      (text (get_callees_cache_hash anchor_id db), db)
  run_command (set_callees_cache_hash_cmd anchor_id content_hash) db =
      done_reply db (set_callees_cache_hash anchor_id content_hash db)
  run_command (is_materialized_cmd anchor_id edge_type) db =
      (flag (is_materialized anchor_id edge_type db), db)
  run_command (mark_materialized_cmd anchor_id edge_type) db =
      done_reply db (mark_materialized anchor_id edge_type db)
  run_command (invalidate_outgoing_calls_cmd anchor_id) db =
      (done, invalidate_outgoing_calls anchor_id db)
  run_command known_uris_cmd db = (texts (known_uris db), db)
  run_command (count_real_nodes_cmd uri module_fqn) db =
      (count (count_real_nodes uri module_fqn db), db)

  -- The loop over the commands that arrive, with the replies in their order.
  unfoldable pub run : List DbCommand → Db → List Reply × Db
  run [] db = ([], db)
  run (c ∷ cs) db =
      let (reply, db') = run_command c db in
      let (replies, db″) = run cs db' in (reply ∷ replies, db″)
