-- ===== src/Examples/Reconcile.antt =====
-- Runs of the reconcile pass of src/graph/db.rs on a small file.
use Prim.Native.String.{String}
use semnav.Base.{ℕ, pos, false, none, some, List, [], ◌∷◌, ◌++◌, Str, str, ◌≡◌, refl}
use semnav.Graph.Model.{Range, ReconcileSymbol, ReconcileOutcome}
use semnav.Graph.Db.State.{Result, ok, err, unique_violation, Db, empty_db}
use semnav.Graph.Db.Reconcile.{assign, reconcile_file_symbols_tx, reconcile_file_symbols}
use semnav.Graph.Db.Reconcile.Matching.{BodyFingerprinted, claim_all, candidates, exact_matches}
use semnav.Graph.Db.Reconcile.Apply.{
  apply_symbols, apply_symbol, container_of, id_at, update_where_id, keep_symbol, keep_row, park,
  parked, reclaim, reclaim_one, link_contains,
}
use semnav.Graph.Db.Nodes.{nodes_by_uri, write_row, upsert_node}
use semnav.Graph.Db.Edges.{invalidate_edges, delete_node, upsert_edge}
use semnav.Graph.Db.Meta.{drop_callees_cache}
use semnav.Base.Sort.{sort_by}

abbrev pub file_uri : Str
file_uri = str "f:/m.py"

abbrev pub at_lines : ℕ → ℕ → ℕ → Range
at_lines a b c = record { start_line = pos a; start_col = pos c; end_line = pos b; end_col = pos 0 }

abbrev pub class_symbol : String → ReconcileSymbol
class_symbol name = record {
  fqn = str "m." ++ str name;
  name = str name;
  kind = pos 5;
  node_kind = str "Class";
  range = at_lines 5 9 0;
  sel = at_lines 5 5 6;
  detail = none;
  signature_hash = str name;
  parent = none;
}

abbrev pub method_symbol : String → ReconcileSymbol
method_symbol container = record {
  fqn = str "m." ++ (str container ++ str ".new");
  name = str "new";
  kind = pos 6;
  node_kind = str "Method";
  range = at_lines 6 8 4;
  sel = at_lines 6 6 8;
  detail = none;
  signature_hash = str "new";
  parent = some 0;
}

abbrev pub batch : String → List ReconcileSymbol
batch name = class_symbol name ∷ method_symbol name ∷ []

abbrev pub zero_hash : BodyFingerprinted → ℕ
zero_hash b = 0

unfoldable pub run_batch : String → Db → Result ReconcileOutcome × Db
unfolding reconcile_file_symbols reconcile_file_symbols_tx assign exact_matches candidates sort_by
    claim_all nodes_by_uri drop_callees_cache park parked apply_symbols apply_symbol container_of
    id_at update_where_id keep_symbol write_row keep_row invalidate_edges upsert_node reclaim
    reclaim_one delete_node link_contains upsert_edge
run_batch name = reconcile_file_symbols zero_hash file_uri (str "python") false (batch name)

abbrev pub indexed : Db
indexed = (run_batch "Foo" empty_db).1

first_run :
    (run_batch "Foo" empty_db).0
    ≡ ok (record {
      unchanged = 0;
      updated = 0;
      renamed = 0;
      inserted = 2;
      orphaned = 0;
      deleted = 0;
    })
unfolding run_batch
first_run = refl

second_run :
    (run_batch "Foo" indexed).0
    ≡ ok (record {
      unchanged = 2;
      updated = 0;
      renamed = 0;
      inserted = 0;
      orphaned = 0;
      deleted = 0;
    })
unfolding run_batch
second_run = refl

class_rename : (run_batch "Bar" indexed).0 ≡ err unique_violation
unfolding run_batch
class_rename = refl
