-- ===== src/Graph/Db/Reconcile/Apply.antt =====
-- src/graph/db.rs: passes 3 to 5 of `reconcile_file_symbols_tx`, which write the rows.
use semnav.Base.{
  ℕ, suc, ◌+◌, ℤ, pos, neg, Bool, true, false, not, Option, none, some, List, [], ◌∷◌, Str, str,
  str_eq, opt_eq, ◌==◌, ◌&&◌, if◌then◌else◌, get_elem?, set, map, any, find_first,
}
use semnav.Graph.Model.{Node, Edge, ReconcileSymbol, ReconcileOutcome}
use semnav.Graph.Db.State.{
  unique_violation, same_phys, parent_before_child, no_id, index_panic, Result, ok, err, ◌>>=◌,
  NodeRow, Db,
}
use semnav.Graph.Db.Nodes.{write_row, upsert_node}
use semnav.Graph.Db.Edges.{upsert_edge, invalidate_edges, delete_node}

-- `range_start_line = ?`
abbrev pub with_line : ℤ → Node → Node
with_line line n = record n { range = record n.range { start_line = line } }

abbrev pub park_row : Str → NodeRow → NodeRow
park_row uri r =
    if str_eq r.node.uri uri then record r { node = with_line (neg r.id) r.node } else r

-- Every row of the file moves to the line that is minus its id. The source skips the statement when
-- there is no such row.
unfoldable pub parked : Str → Db → Db
parked uri db = record db { nodes = map (park_row uri) db.nodes }

-- Another row stands where a row of the file would move to. SQLite checks idx_nodes_phys at each row,
-- and lets this pass if the other one has moved away before; lines below zero are needed for it.
abbrev pub occupied : Str → List NodeRow → NodeRow → Bool
occupied uri rows r =
    str_eq r.node.uri uri
    && any (λ q. not (q.id == r.id) && same_phys q.node (with_line (neg r.id) r.node)) rows

unfoldable pub park : Str → Db → Result Db
unfolding parked
park uri db =
    if any (occupied uri db.nodes) db.nodes then err unique_violation else ok (parked uri db)

-- `ids[p].ok_or_else(…)?`
unfoldable pub id_at : List (Option ℕ) → ℕ → Result ℕ
id_at ids p = elim (get_elem? ids p) [
  | none ↦ err index_panic
  | some o ↦ elim o [ none ↦ err parent_before_child | some id ↦ ok id ]
]

abbrev pub or_no_id : Option ℕ → Result ℕ
or_no_id none = err no_id
or_no_id (some id) = ok id

unfoldable pub container_of : List (Option ℕ) → Option ℕ → Result (Option ℕ)
container_of ids none = ok none
container_of ids (some p) = do id ← id_at ids p; ok (some id)

-- The columns that UPDATE_NODE_SQL sets.
abbrev pub patched : ReconcileSymbol → Option ℕ → Node → Node
patched sym container n = record n {
  fqn = sym.fqn;
  name = sym.name;
  kind = sym.kind;
  node_kind = sym.node_kind;
  container_id = container;
  range = sym.range;
  sel = sym.sel;
  detail = sym.detail;
  signature_hash = some sym.signature_hash;
  valid = true;
  orphan = false;
}

-- An UPDATE by id that finds no row changes nothing.
unfoldable pub update_where_id : ℕ → (Node → Node) → Db → Result Db
update_where_id id f db = elim (find_first (λ r. r.id == id) db.nodes) [
  | none ↦ ok db
  | some r ↦ write_row id (f r.node) db
]

abbrev pub fresh_node : Str → Str → Bool → ReconcileSymbol → Option ℕ → Node
fresh_node uri language is_external sym container = record {
  id = none;
  fqn = sym.fqn;
  uri = uri;
  name = sym.name;
  language = language;
  kind = sym.kind;
  node_kind = sym.node_kind;
  construct = none;
  container_id = container;
  range = sym.range;
  sel = sym.sel;
  signature = none;
  documentation = none;
  detail = sym.detail;
  signature_hash = some sym.signature_hash;
  valid = true;
  orphan = false;
  generation = pos 0;
  is_external = is_external;
}

-- How a kept node is counted, and whether its edges become invalid.
unfoldable pub keep_row : Node → ReconcileSymbol → ℕ → ReconcileOutcome → Db → ReconcileOutcome × Db
keep_row old sym id o db =
    if not (str_eq old.fqn sym.fqn)
    then (record o { renamed = o.renamed + 1 }, invalidate_edges id db)
    else if not (opt_eq str_eq old.signature_hash (some sym.signature_hash))
    then (record o { updated = o.updated + 1 }, invalidate_edges id db)
    else (record o { unchanged = o.unchanged + 1 }, db)

-- The branch of pass 3 for a symbol that keeps an old node.
unfoldable pub keep_symbol :
    Node → ReconcileSymbol → Option ℕ → ReconcileOutcome → Db → Result (ℕ × ReconcileOutcome × Db)
keep_symbol old sym container o db = do
  id ← or_no_id old.id
  db' ← update_where_id id (patched sym container) db
  let kept = keep_row old sym id o db'
  ok (id, kept.0, kept.1)

-- One symbol of pass 3: the id of its row.
module _ (uri language : Str) (is_external : Bool) where
  unfoldable pub apply_symbol :
      List Node
      → ReconcileSymbol
      → Option ℕ
      → List (Option ℕ)
      → ReconcileOutcome
      → Db
      → Result (ℕ × ReconcileOutcome × Db)
  apply_symbol olds sym none ids o db = do
    container ← container_of ids sym.parent
    (id, db') ← upsert_node (fresh_node uri language is_external sym container) db
    ok (id, record o { inserted = o.inserted + 1 }, db')
  apply_symbol olds sym (some j) ids o db = do
    container ← container_of ids sym.parent
    elim (get_elem? olds j) [
      | none ↦ err index_panic
      | some old ↦ keep_symbol old sym container o db
    ]

  -- Pass 3, from symbol `i` on.
  unfoldable pub apply_symbols :
      List Node
      → List ReconcileSymbol
      → List (Option ℕ)
      → ℕ
      → List (Option ℕ)
      → ReconcileOutcome
      → Db
      → Result (List (Option ℕ) × ReconcileOutcome × Db)
  apply_symbols olds [] assigned i ids o db = ok (ids, o, db)
  apply_symbols olds (s ∷ ss) [] i ids o db = err index_panic
  apply_symbols olds (s ∷ ss) (a ∷ as') i ids o db = do
    (id, o', db') ← apply_symbol olds s a ids o db
    apply_symbols olds ss as' (suc i) (set ids i (some id)) o' db'

-- ORPHAN_NODE_SQL
abbrev pub orphaned_node : ℤ → Node → Node
orphaned_node line n = record (with_line line n) { orphan = true; valid = false }

-- Pass 4 at one unclaimed old node: the first miss makes it an orphan, the second one deletes it.
unfoldable pub reclaim_one : Node → ReconcileOutcome → Db → Result (ReconcileOutcome × Db)
reclaim_one old o db = do
  id ← or_no_id old.id
  if old.orphan then ok (record o { deleted = o.deleted + 1 }, delete_node id db) else do
    db' ← update_where_id id (orphaned_node old.range.start_line) db
    ok (record o { orphaned = o.orphaned + 1 }, db')

unfoldable pub reclaim :
    List Node → List Bool → ReconcileOutcome → Db → Result (ReconcileOutcome × Db)
reclaim [] used o db = ok (o, db)
reclaim (n ∷ ns) [] o db = err index_panic
reclaim (n ∷ ns) (true ∷ us) o db = reclaim ns us o db
reclaim (n ∷ ns) (false ∷ us) o db = do (o', db') ← reclaim_one n o db; reclaim ns us o' db'

abbrev pub contains_edge : ℕ → ℕ → Edge
contains_edge src dst = record {
  id = none;
  src_id = src;
  dst_id = dst;
  edge_type = str "contains";
  site = none;
  valid = true;
}

-- Pass 5, from symbol `i` on.
unfoldable pub link_contains : List (Option ℕ) → List ReconcileSymbol → ℕ → Db → Result Db
link_contains ids [] i db = ok db
link_contains ids (s ∷ ss) i db = elim s.parent [
  | none ↦ link_contains ids ss (suc i) db
  | some p ↦ do
    src ← id_at ids p
    dst ← id_at ids i
    (edge, db') ← upsert_edge (contains_edge src dst) db
    link_contains ids ss (suc i) db'
]
