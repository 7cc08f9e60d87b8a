-- ===== src/Examples/Drift.antt =====
-- The theorems on the pass at the start of the daemon, at one indexed file whose server lists one
-- symbol, and at one whose server lists none.
use semnav.Base.{false, ℕ, suc, ◌≡◌, refl, true, none, some, [], ◌∷◌, str}
use semnav.Base.Sort.{sort_by}
use semnav.Graph.Db.State.{Db, empty_db}
use semnav.Graph.Db.Reconcile.{reconcile_file_symbols, reconcile_file_symbols_tx, assign}
use semnav.Graph.Db.Reconcile.Matching.{exact_matches, candidates, claim_all}
use semnav.Graph.Db.Reconcile.Apply.{
  park, parked, apply_symbols, apply_symbol, container_of, reclaim, link_contains,
}
use semnav.Graph.Db.Meta.{get_meta, drop_callees_cache}
use semnav.Graph.Db.Nodes.{count_real_nodes, upsert_node, nodes_by_uri}
use semnav.Indexer.Symbol.{
  Children, end_of, child, document_symbol, absent, module_path_from_uri, flatten_document_symbols,
  flatten_children, module_root,
}
use semnav.Indexer.Drift.{
  recorded, reconciled, to_reconcile, suspicious, Outside, Workspace, committed, suspicious_empty,
  current_content_hash, fetch_uri_symbols, fetched_symbols, commit, reconcile_uri_for_startup_drift,
}
use semnav.Indexer.Drift.Startup.{retry, suspicious_retry_attempts, reconcile_startup_drift}
use semnav.Indexer.Drift.Keeps.{OnlyWaits, retry-skipped}
use semnav.Indexer.Drift.Unserved.{NoFailures, startup_unserved}
use semnav.Indexer.Drift.Again.{drift_again}
use semnav.Adapters.{select_for_uri}
use semnav.Adapters.Kind.{function_kind, to_u32, from_u32, from_u32-to_u32}
use semnav.Examples.Reconcile.{file_uri, zero_hash, run_batch, indexed}
use semnav.Examples.CallPath.{lsp_range}

abbrev one_symbol : Children
one_symbol =
    child (document_symbol (str "run") none 12 none (lsp_range 5) (lsp_range 5) absent) end_of

-- The state counts the requests for symbols.
abbrev outside : Children → Outside ℕ
outside symbols = record {
  custom_adapters = [];
  root_uri = str "file:///r/";
  symbol_hash = λ f. f.name;
  body_hash = zero_hash;
  bytes_hash = λ bytes. bytes;
  read = λ uri n. some (str "text");
  read_to_string = λ uri n. some (str "text");
  acquire_for_watcher = λ language n. (true, n);
  ensure_document = λ uri language text n. (true, n);
  request_document_symbols = λ uri n. (some symbols, suc n);
  discover_files = λ n. some (file_uri ∷ []);
  hash_order = λ uris. uris;
  wait = λ w. w;
  hash_written = λ uri n. true;
}

abbrev start : Db → Workspace ℕ
start db = record { db = db; state = 0 }

-- A server that lists nothing of a file that has symbols.
held_back :
    (reconcile_uri_for_startup_drift (outside end_of) file_uri (start indexed)).0
    ≡ some suspicious_empty
unfolding reconcile_uri_for_startup_drift current_content_hash commit fetch_uri_symbols
    select_for_uri fetched_symbols get_meta count_real_nodes module_path_from_uri
    flatten_document_symbols module_root reconcile_file_symbols run_batch flatten_children recorded
    reconciled to_reconcile suspicious
held_back = refl

never_settled : (retry (outside end_of) suspicious_retry_attempts file_uri (start indexed)).0 ≡ none
unfolding retry reconcile_uri_for_startup_drift current_content_hash commit fetch_uri_symbols
    select_for_uri fetched_symbols get_meta count_real_nodes module_path_from_uri
    flatten_document_symbols module_root reconcile_file_symbols run_batch flatten_children recorded
    reconciled to_reconcile suspicious
never_settled = refl

retry-skipped_example :
    OnlyWaits
      (outside end_of)
      indexed
      (retry (outside end_of) suspicious_retry_attempts file_uri (start indexed)).1.db
retry-skipped_example =
    retry-skipped (outside end_of) suspicious_retry_attempts file_uri (start indexed) never_settled

abbrev first : Workspace ℕ
first = (reconcile_uri_for_startup_drift (outside one_symbol) file_uri (start empty_db)).1

first_committed :
    (reconcile_uri_for_startup_drift (outside one_symbol) file_uri (start empty_db)).0
    ≡ some committed
unfolding reconcile_uri_for_startup_drift current_content_hash commit fetch_uri_symbols
    select_for_uri fetched_symbols get_meta count_real_nodes module_path_from_uri
    flatten_document_symbols module_root reconcile_file_symbols run_batch flatten_children
    reconcile_file_symbols_tx upsert_node exact_matches assign candidates claim_all nodes_by_uri
    drop_callees_cache park parked apply_symbols apply_symbol container_of reclaim link_contains
    sort_by recorded reconciled to_reconcile suspicious
first_committed = refl

drift_again_example :
    reconcile_uri_for_startup_drift (outside one_symbol) file_uri first ≡ (some committed, first)
drift_again_example =
    drift_again (outside one_symbol) file_uri (str "text") (start empty_db) first first_committed
      refl refl refl

abbrev unserved : Outside ℕ
unserved = record (outside one_symbol) { acquire_for_watcher = λ language n. (false, n) }

startup_unserved_example :
    NoFailures (reconcile_startup_drift unserved (start indexed)).0
    × OnlyWaits unserved indexed (reconcile_startup_drift unserved (start indexed)).1.db
startup_unserved_example = startup_unserved unserved (λ language n. refl) (start indexed)

from_u32-to_u32_example : from_u32 (to_u32 function_kind) ≡ some function_kind
from_u32-to_u32_example = from_u32-to_u32 function_kind
