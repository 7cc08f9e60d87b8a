-- ===== src/Indexer/Drift.antt =====
-- src/indexer/reconcile.rs: one file brought up to date, by the watcher and by the pass at the start
-- of the daemon. An error is only logged by the callers, so it has no value here.
pub mod Startup
pub mod Keeps
pub mod Again
pub mod Unserved
use mathlib.Core.Option
use semnav.Base.{
  ℕ, suc, zero, ◌+◌, pos, Bool, true, false, not, ◌&&◌, Option, none, some, is_some, opt_eq, List,
  [], ◌∷◌, ◌++◌, Str, str, str_eq, length, map, unwrap_or, if◌then◌else◌, ltb, ◌==◌,
}
use semnav.Graph.Model.{ReconcileSymbol, ReconcileOutcome}
use semnav.Graph.Db.State.{Result, ok, err, Db}
use semnav.Graph.Db.Nodes.{known_uris, count_real_nodes, distinct}
use semnav.Graph.Db.Meta.{get_meta, set_meta}
use semnav.Graph.Db.Reconcile.{reconcile_file_symbols}
use semnav.Graph.Db.Reconcile.Matching.{BodyFingerprinted}
use semnav.Indexer.Symbol.{
  Children, FlatSymbol, Fingerprinted, module_root, flatten_document_symbols, signature_fingerprint,
  module_path_from_uri,
}
use semnav.Adapters.{LanguageAdapter, is_external, select_for_uri}
use semnav.Adapters.Kind.{to_label, map_symbol_kind}

pub record FetchedSymbols : Type 0 where
  pub language : Str
  pub is_external : Bool
  pub module_fqn : Str
  pub file_exists : Bool
  pub real_symbol_count : ℕ
  pub reconcile_symbols : List ReconcileSymbol

pub data FetchOutcome : Type 0 where
  unsupported lsp_unavailable : FetchOutcome
  fetched : FetchedSymbols → FetchOutcome

pub data DriftAttempt : Type 0 where
  committed suspicious_empty no_server : DriftAttempt

-- The database, and the state of the file system and of the servers.
pub record Workspace (S : Type 0) : Type 0 where
  pub db : Db
  pub state : S

-- What the code is run with. The first fields are the configured adapters, the root, and the hasher
-- of the standard library on a symbol, on a body and on the bytes of a file. The others are the file
-- system and the language servers, with the state `S`: the bytes and the text of a file, whether a
-- server for a language is there, the notification that opens a document and the request for its
-- symbols (`false` and `none` are errors), whether the row of a file's hash can be written to the
-- disk, the walk of the root, and the order in which a `HashSet` gives its members. `wait` is what
-- happens while the code waits, also to the database, which other users of the db actor write to.
-- Reading changes nothing.
pub record Outside (S : Type 0) : Type 0 where
  pub custom_adapters : List LanguageAdapter
  pub root_uri : Str
  pub symbol_hash : Fingerprinted → Str
  pub body_hash : BodyFingerprinted → ℕ
  pub bytes_hash : Str → Str
  pub read : Str → S → Option Str
  pub read_to_string : Str → S → Option Str
  pub acquire_for_watcher : Str → S → Bool × S
  pub ensure_document : Str → Str → Str → S → Bool × S
  pub request_document_symbols : Str → S → Option Children × S
  pub hash_written : Str → S → Bool
  pub discover_files : S → Option (List Str)
  pub hash_order : List Str → List Str
  pub wait : Workspace S → Workspace S

-- The rows of a file's symbols.
unfoldable pub to_reconcile : (Fingerprinted → Str) → FlatSymbol → ReconcileSymbol
unfolding signature_fingerprint
to_reconcile symbol_hash sym = record {
  fqn = sym.fqn;
  name = sym.name;
  kind = pos sym.kind;
  node_kind = to_label (map_symbol_kind sym.kind);
  range = sym.range;
  sel = sym.sel;
  detail = sym.detail;
  signature_hash = signature_fingerprint symbol_hash sym;
  parent = sym.parent;
}

-- `index_meta` keys of the content fingerprints.
abbrev pub content_hash_meta_key : Str → Str
content_hash_meta_key uri = str "startup_drift_content_hash::" ++ uri

module _ {S : Type 0} (o : Outside S) where
  -- The symbols of a file that a server has answered with.
  unfoldable pub fetched_symbols : LanguageAdapter → Str → Bool → Children → FetchedSymbols
  unfolding module_path_from_uri flatten_document_symbols module_root is_external to_reconcile
  fetched_symbols adapter uri file_exists symbols =
      let module_path = module_path_from_uri uri o.root_uri in
      let flat = flatten_document_symbols symbols module_path in
      let flat' = if file_exists then flat ++ (module_root module_path ∷ []) else flat in
      record {
        language = adapter.language_name;
        is_external = is_external adapter uri o.root_uri;
        module_fqn = module_path;
        file_exists = file_exists;
        real_symbol_count = length flat;
        reconcile_symbols = map (to_reconcile o.symbol_hash) flat';
      }

  abbrev pub answered : LanguageAdapter → Str → Bool → Option Children × S → Option FetchOutcome × S
  answered adapter uri file_exists (none, s) = (none, s)
  answered adapter uri file_exists (some symbols, s) =
      (some (fetched (fetched_symbols adapter uri file_exists symbols)), s)

  abbrev pub opened : LanguageAdapter → Str → Bool → Bool × S → Option FetchOutcome × S
  opened adapter uri file_exists (false, s) = (none, s)
  opened adapter uri file_exists (true, s) =
      answered adapter uri file_exists (o.request_document_symbols uri s)

  abbrev pub acquired : LanguageAdapter → Str → Bool × S → Option FetchOutcome × S
  acquired adapter uri (false, s) = (some lsp_unavailable, s)
  acquired adapter uri (true, s) =
      let text = o.read_to_string uri s in
      opened adapter uri (is_some text)
        (o.ensure_document uri adapter.language_name (unwrap_or text []) s)

  unfoldable pub fetch_uri_symbols : Str → S → Option FetchOutcome × S
  unfolding select_for_uri fetched_symbols
  fetch_uri_symbols uri s = elim (select_for_uri o.custom_adapters uri) [
    | none ↦ (some unsupported, s)
    | some adapter ↦ acquired adapter uri (o.acquire_for_watcher adapter.language_name s)
  ]

  unfoldable pub reconciled : Str → FetchedSymbols → Db → Result ReconcileOutcome × Db
  unfolding reconcile_file_symbols
  reconciled uri f db =
      reconcile_file_symbols o.body_hash uri f.language f.is_external f.reconcile_symbols db

  abbrev pub after_fetch : Str → Db → Option FetchOutcome × S → Bool × Workspace S
  after_fetch uri db (none, s) = (false, record { db = db; state = s })
  after_fetch uri db (some (fetched f), s) =
      let (r, db') = reconciled uri f db in
      (elim r [ ok _ ↦ true | err _ ↦ false ], record { db = db'; state = s })
  after_fetch uri db (some unsupported, s) = (true, record { db = db; state = s })
  after_fetch uri db (some lsp_unavailable, s) = (true, record { db = db; state = s })

  -- What the watcher runs; whether there was no error.
  unfoldable pub reconcile_uri : Str → Workspace S → Bool × Workspace S
  unfolding fetch_uri_symbols reconciled
  reconcile_uri uri w = after_fetch uri w.db (fetch_uri_symbols uri w.state)

  unfoldable pub current_content_hash : Str → S → Option Str
  current_content_hash uri s = Option.map o.bytes_hash (o.read uri s)

  -- The file exists and its hash is the recorded one.
  abbrev pub unchanged : Option Str → Option Str → Bool
  unchanged none recorded = false
  unchanged (some hash) recorded = opt_eq str_eq recorded (some hash)

  -- A file that exists and has lost all its symbols.
  unfoldable pub suspicious : Str → FetchedSymbols → Db → Bool
  unfolding count_real_nodes
  suspicious uri f db =
      f.file_exists && (f.real_symbol_count == 0 && ltb 0 (count_real_nodes uri f.module_fqn db))

  -- The hash is recorded after the reconcile is committed; if that fails, so does the attempt.
  unfoldable pub recorded :
      Str → Option Str → S → Result ReconcileOutcome × Db → Option DriftAttempt × Workspace S
  unfolding set_meta
  recorded uri hash s (err e, db) = (none, record { db = db; state = s })
  recorded uri hash s (ok outcome, db) =
      if o.hash_written uri s
      then (
        some committed,
        record { db = set_meta (content_hash_meta_key uri) (unwrap_or hash []) db; state = s },
      )
      else (none, record { db = db; state = s })

  unfoldable pub commit :
      Str → Option Str → Db → Option FetchOutcome × S → Option DriftAttempt × Workspace S
  unfolding suspicious recorded reconciled
  commit uri hash db (none, s) = (none, record { db = db; state = s })
  commit uri hash db (some unsupported, s) = (some committed, record { db = db; state = s })
  commit uri hash db (some lsp_unavailable, s) = (some no_server, record { db = db; state = s })
  commit uri hash db (some (fetched f), s) =
      if suspicious uri f db
      then (some suspicious_empty, record { db = db; state = s })
      else recorded uri hash s (reconciled uri f db)

  unfoldable pub reconcile_uri_for_startup_drift :
      Str → Workspace S → Option DriftAttempt × Workspace S
  unfolding fetch_uri_symbols current_content_hash get_meta commit select_for_uri
  reconcile_uri_for_startup_drift uri w =
      let hash = current_content_hash uri w.state in
      if not (is_some (select_for_uri o.custom_adapters uri))
      then (some committed, w)
      else if unchanged hash (get_meta (content_hash_meta_key uri) w.db)
      then (some committed, w)
      else commit uri hash w.db (fetch_uri_symbols uri w.state)
