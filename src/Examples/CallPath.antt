-- ===== src/Examples/CallPath.antt =====
-- The theorems on call paths at two functions of one file, with a server that answers that each of
-- them calls the second.
use mathlib.Core.Option
use semnav.Base.{
  arith, ℕ, suc, ◌≡◌, ◌≢◌, ◌≤◌, map, refl, Bool, true, false, Option, none, some, List, [], ◌∷◌,
  length, str, str_eq,
}
use semnav.Indexer.Symbol.{LspRange}
use semnav.Graph.Model.{Node}
use semnav.Graph.Db.State.{Result, ok, err, Db, empty_db}
use semnav.Graph.Db.Nodes.{upsert_node, get_node_by_fqn, find_node_by_position}
use semnav.Graph.Db.Edges.{outgoing, upsert_edge, invalidate_outgoing_calls}
use semnav.Graph.Db.Actor.{DbCommand, upsert_node_cmd, run_command, run}
use semnav.Graph.Db.Unique.Commands.{run-Unique}
use semnav.Graph.Db.EdgeKeys.{EdgeKeys}
use semnav.Graph.Db.Meta.{get_callees_cache_hash, set_callees_cache_hash}
use semnav.Query.Group.{group_sorted, group_from}
use semnav.Query.Filter.{SymbolRef, fqn_ref, Filter, Page}
use semnav.Query.Client.{CallHierarchyItem, value, failed, LspQueryClient}
use semnav.Query.Engine.{QueryEngine, World, ◌>>=◌, ◌>>◌, pure, read_db, change_db, try_db, ask}
use semnav.Query.Operations.{
  CallGraphResult, resolve_anchor_id, read_calls_page, rebuild_callees, find_references,
  find_callers, find_callees,
}
use semnav.Query.Operations.Cache.{Cached, find_callees_again}
use semnav.Query.Operations.Failed.{NoCalls, rebuild_callees_failed}
use semnav.Query.CallPath.Keeps.{LeavesNodes, edge_queries_leave_nodes}
use semnav.Query.CallPath.{FindCallPathResult, no_path, find_call_path}
use semnav.Query.CallPath.Exhausted.{CallChain}
use semnav.Query.CallPath.Found.{IsPath}
use semnav.Query.Dto.{from_node}
use semnav.Query.CallPath.Result.{
  find_call_path_ends, find_call_path_honest, find_call_path_answered,
}
use semnav.Examples.Reconcile.{file_uri, at_lines, zero_hash}
use semnav.Examples.Graph.{class_node}

abbrev pub second : Node
second = record (class_node "Qux") { range = at_lines 10 12 0; sel = at_lines 10 10 6 }

abbrev pub two_nodes_cmds : List DbCommand
two_nodes_cmds = upsert_node_cmd (class_node "Foo") ∷ upsert_node_cmd second ∷ []

abbrev pub two_nodes_db : Db
two_nodes_db = (run zero_hash two_nodes_cmds empty_db).1

abbrev pub lsp_range : ℕ → LspRange
lsp_range line = record {
  start = record { line = line; character = 0 };
  end = record { line = line; character = 3 };
}

abbrev second_item : CallHierarchyItem (Unit {0})
second_item = record {
  name = str "Qux";
  kind = 12;
  uri = file_uri;
  range = lsp_range 10;
  selection_range = lsp_range 10;
  raw = tt;
}

-- Its state counts the requests for calls.
abbrev pub server : LspQueryClient ℕ (Unit {0})
server = record {
  open_document = λ uri text n. (value tt, n);
  definition = λ uri line character n. (value [], n);
  references = λ uri line character declaration n. (value [], n);
  implementation = λ uri line character n. (value [], n);
  prepare_call_hierarchy = λ uri line character n. (value (second_item ∷ []), suc n);
  incoming_calls = λ item n. (value [], n);
  outgoing_calls =
      λ item n. (value (record { to = second_item; from_ranges = lsp_range 5 ∷ [] } ∷ []), suc n);
  hover = λ uri line character n. (value none, n);
}

abbrev pub engine : QueryEngine
engine = record {
  root_uri = str "file:///r/";
  read_file_text = λ uri. some (str "text");
  content_hash = λ text. text;
  similar = str_eq;
}

abbrev pub world : World ℕ
world = record { db = two_nodes_db; client = 0 }

abbrev foo : SymbolRef
foo = fqn_ref (str "m.Foo")

abbrev qux : SymbolRef
qux = fqn_ref (str "m.Qux")

two_nodes-EdgeKeys : EdgeKeys two_nodes_db
unfolding run run_command upsert_node
two_nodes-EdgeKeys = record { separate = tt; fresh = tt }

abbrev summary :
    Result (Option (FindCallPathResult × Bool)) × World ℕ → Option (Bool × ℕ × Bool × ℕ)
summary (ok (some (r, timed_out)), w) = some (r.reachable, length r.path, r.limit_reached, w.client)
summary (_, w) = none

-- Whether there is a path, its length, whether a limit was reached, and the requests for calls.
unfoldable asked : SymbolRef → SymbolRef → Option (Bool × ℕ × Bool × ℕ)
unfolding find_call_path run run_command upsert_node ◌>>=◌ ◌>>◌ pure read_db change_db try_db ask
    get_node_by_fqn upsert_edge Option.bind get_callees_cache_hash find_node_by_position
    invalidate_outgoing_calls set_callees_cache_hash group_sorted group_from
asked from to = summary (find_call_path engine from to 3 5 (some server) world)

-- Two requests expand the first node.
reaches : asked foo qux ≡ some (true, 2, false, 2)
unfolding asked
reaches = refl

-- Nothing calls the first node.
unreached : asked qux foo ≡ some (false, 0, false, 2)
unfolding asked
unreached = refl

-- The runs as the model computes them.
abbrev negative : Result (Option (FindCallPathResult × Bool)) × World ℕ
negative = find_call_path engine qux foo 3 5 (some server) world

abbrev positive : Result (Option (FindCallPathResult × Bool)) × World ℕ
positive = find_call_path engine foo qux 3 5 (some server) world

abbrev path_of : Result (Option (FindCallPathResult × Bool)) → FindCallPathResult
path_of (ok (some (r, t))) = r
path_of _ = no_path false [] []

abbrev foo_node : Node
foo_node = record (class_node "Foo") { id = some 1 }

abbrev qux_node : Node
qux_node = record second { id = some 2 }

find_call_path_ends_example : negative ≢ (ok none, negative.1)
unfolding resolve_anchor_id run run_command upsert_node ◌>>=◌ pure read_db get_node_by_fqn
    Option.bind
find_call_path_ends_example =
    find_call_path_ends engine (some server) qux foo 3 5 world world world negative.1 2 1 qux_node
      foo_node false false (run-Unique zero_hash two_nodes_cmds) two_nodes-EdgeKeys refl refl

find_call_path_honest_example : ¬ CallChain negative.1.db 2 1
unfolding asked
find_call_path_honest_example =
    find_call_path_honest engine (some server) qux foo 3 5 world world world negative.1 2 1 qux_node
      foo_node false false false (path_of negative.0) (run-Unique zero_hash two_nodes_cmds)
      two_nodes-EdgeKeys refl refl refl refl refl

find_call_path_answered_example :
    (p : List Node) × ((path_of positive.0).path ≡ map from_node p)
    × IsPath (λ v. Unit) positive.1.db 1 2 p
    × (length p ≤ 4)
unfolding asked
find_call_path_answered_example =
    find_call_path_answered engine (some server) foo qux 3 5 world world world positive.1 1 2
      foo_node qux_node false false false (path_of positive.0) (omega arith)
      (run-Unique zero_hash two_nodes_cmds) two_nodes-EdgeKeys refl refl refl refl

abbrev any_node : Filter
any_node = record { language = none; kind = none; include_external = true }

abbrev first_page : Page
first_page = record { limit = 10; cursor = none }

abbrev first_callees : Result (CallGraphResult × Bool) × World ℕ
first_callees = find_callees engine foo any_node first_page (some server) world

abbrev value_of : Result (CallGraphResult × Bool) → CallGraphResult × Bool
value_of (ok r) = r
value_of (err e) = (record { items = []; next_cursor = none; hint_fqns = [] }, false)

-- The second query makes no request for calls: the counter stays at two.
find_callees_again_example :
    find_callees engine foo any_node first_page (some server) first_callees.1 ≡ (
      ok (read_calls_page 1 outgoing any_node first_page first_callees.1.db, false),
      record first_callees.1 { client = first_callees.1.client },
    )
unfolding find_callees resolve_anchor_id run run_command upsert_node ◌>>=◌ ◌>>◌ pure read_db
    change_db try_db ask get_node_by_fqn upsert_edge Option.bind get_callees_cache_hash
    find_node_by_position invalidate_outgoing_calls set_callees_cache_hash
find_callees_again_example =
    find_callees_again engine server (str "m.Foo") 1 foo_node (str "text") any_node any_node
      first_page first_page world first_callees.1 (value_of first_callees.0) two_nodes-EdgeKeys refl
      refl refl

-- A server that times out.
abbrev silent : LspQueryClient ℕ (Unit {0})
silent = record server { prepare_call_hierarchy = λ uri line character n. (failed true, suc n) }

abbrev failed_run : Result Bool × World ℕ
failed_run = rebuild_callees engine 1 foo_node (some (str "text")) silent world

rebuild_callees_failed_example : NoCalls 1 failed_run.1.db × Cached 1 (str "text") failed_run.1.db
unfolding rebuild_callees run run_command upsert_node ◌>>=◌ ◌>>◌ pure change_db try_db ask
    invalidate_outgoing_calls set_callees_cache_hash
rebuild_callees_failed_example =
    rebuild_callees_failed engine silent 1 foo_node (str "text") true true world failed_run.1 refl
      refl

edge_queries_leave_nodes_example :
    LeavesNodes (find_references engine foo any_node first_page (some server)) world
    × LeavesNodes (find_callers engine foo any_node first_page (some server)) world
    × LeavesNodes (find_callees engine foo any_node first_page (some server)) world
    × LeavesNodes (find_call_path engine foo qux 3 5 (some server)) world
edge_queries_leave_nodes_example =
    edge_queries_leave_nodes engine foo qux any_node first_page 3 5 (some server) world
      (run-Unique zero_hash two_nodes_cmds) two_nodes-EdgeKeys
