-- ===== src/Examples/Graph.antt =====
-- The theorems on the reconcile pass at a small file.
use Prim.Native.String.{String}
use semnav.Base.{
  ℕ, zero, suc, ◌+◌, pos, true, false, none, some, List, [], ◌∷◌, ◌++◌, str, str_eq, ◌≡◌, ◌≢◌, refl,
  ap, ◌∙◌, length, get_elem?,
}
use semnav.Graph.Model.{Node, ReconcileSymbol, ReconcileOutcome}
use semnav.Graph.Db.State.{ok, Db}
use semnav.Graph.Db.Nodes.{nodes_by_uri}
use semnav.Graph.Db.Reconcile.{assign, reconcile_file_symbols_tx}
use semnav.Graph.Db.Reconcile.Outcome.{reconcile_counts}
use semnav.Graph.Db.Reconcile.Claims.{Claims, assign-Claims}
use semnav.Graph.Db.Reconcile.Exact.{assign-exact}
use semnav.Graph.Db.Reconcile.Renames.{MayKeep, assign-MayKeep}
use semnav.Examples.Reconcile.{
  file_uri, at_lines, class_symbol, batch, zero_hash, run_batch, indexed,
}

abbrev pub class_node : String → Node
class_node name = record {
  id = some 1;
  fqn = str "m." ++ str name;
  uri = file_uri;
  name = str name;
  language = str "python";
  kind = pos 5;
  node_kind = str "Class";
  construct = none;
  container_id = none;
  range = at_lines 4 8 0;
  sel = at_lines 4 4 6;
  signature = none;
  documentation = none;
  detail = none;
  signature_hash = none;
  valid = true;
  orphan = false;
  generation = pos 0;
  is_external = false;
}

abbrev two_nodes : List Node
two_nodes = class_node "Foo" ∷ class_node "Qux" ∷ []

abbrev two_symbols : List ReconcileSymbol
two_symbols = class_symbol "Bar" ∷ class_symbol "Qux" ∷ []

abbrev second_outcome : ReconcileOutcome
second_outcome = record {
  unchanged = 2;
  updated = 0;
  renamed = 0;
  inserted = 0;
  orphaned = 0;
  deleted = 0;
}

abbrev second_db : Db
second_db = (run_batch "Foo" indexed).1

second_ok :
    reconcile_file_symbols_tx zero_hash file_uri (str "python") false (batch "Foo") indexed
    ≡ ok (second_outcome, second_db)
unfolding run_batch
second_ok = refl

reconcile_counts_example :
    (2 + 0 + 0 + 0 ≡ length (batch "Foo"))
    × (2 + 0 + 0 + 0 + 0 ≡ length (nodes_by_uri file_uri indexed))
reconcile_counts_example =
    reconcile_counts zero_hash file_uri (str "python") false (batch "Foo") indexed second_db
      second_outcome second_ok

assign-Claims_example :
    Claims (assign zero_hash two_nodes two_symbols).0 (assign zero_hash two_nodes two_symbols).1
assign-Claims_example = assign-Claims zero_hash two_nodes two_symbols

differ : str "m.Foo" ≢ str "m.Qux"
differ e = let t : false ≡ true = ap (λ l. str_eq l (str "m.Qux")) e in cc

differ' : str "m.Bar" ≢ str "m.Qux"
differ' e = let t : false ≡ true = ap (λ l. str_eq l (str "m.Qux")) e in cc

one_qux_node :
    (k : ℕ) (x : Node) → get_elem? two_nodes k ≡ some x → x.fqn ≡ (class_symbol "Qux").fqn → k ≡ 1
one_qux_node zero x h e =
    let q : class_node "Foo" ≡ x = cc in absurd (differ (ap (λ n. n.fqn) q ∙ e))
one_qux_node (suc zero) x h e = refl
one_qux_node (suc (suc k)) x h e = cc

one_qux_symbol :
    (k : ℕ) (t : ReconcileSymbol)
    → get_elem? two_symbols k ≡ some t
    → t.fqn ≡ (class_symbol "Qux").fqn
    → k ≡ 1
one_qux_symbol zero x h e =
    let q : class_symbol "Bar" ≡ x = cc in absurd (differ' (ap (λ t. t.fqn) q ∙ e))
one_qux_symbol (suc zero) x h e = refl
one_qux_symbol (suc (suc k)) x h e = cc

assign-exact_example : get_elem? (assign zero_hash two_nodes two_symbols).0 1 ≡ some (some 1)
assign-exact_example =
    assign-exact zero_hash two_nodes two_symbols 1 1 (class_symbol "Qux") (class_node "Qux") refl
      refl refl one_qux_node one_qux_symbol

renamed : get_elem? (assign zero_hash two_nodes two_symbols).0 0 ≡ some (some 0)
unfolding run_batch
renamed = refl

assign-MayKeep_example : MayKeep (class_node "Foo") (class_symbol "Bar")
assign-MayKeep_example =
    assign-MayKeep zero_hash two_nodes two_symbols 0 0 (class_symbol "Bar") (class_node "Foo") refl
      refl renamed
