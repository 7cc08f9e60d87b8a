-- ===== src/Lib.antt =====
-- semnav: a model of the code-navigation server semnav in a cubical type theory, and proofs about it.
--
-- semnav indexes the symbols of a workspace, with the help of language servers, into an SQLite graph
-- of nodes and edges, and answers queries on that graph. An indexer fetches the symbol tree of a file
-- (`textDocument/documentSymbol`), flattens it, and reconciles the rows of the file with it. A
-- supervisor per language starts the language server and restarts it after failures; a client talks
-- to it over framed JSON. Queries read the graph, ask the server for edges that are missing, and
-- return pages.
--
-- The parts and their files:
-- - Base/: shared types and lemmas: bytes for text, lists, `i64` values, comparison functions, stable
--   insertion sort for `sort_by`, association lists. No code of the repository.
-- - Graph/Model: src/graph/model.rs, the records of nodes, edges and symbols.
-- - Graph/Db/: src/graph/db.rs and the tables of migrations/. State has the tables as lists of rows
--   with the unique indexes, references and checks of the schema as failures; Nodes, Edges and Meta
--   have one function per SQL statement; Actor has the commands of the database actor (`DbCommand`,
--   `DbActor::run`) one after another, as its thread takes them.
-- - Graph/Db/Reconcile/: `reconcile_file_symbols` of src/graph/db.rs. Matching is passes 1 and 2
--   (which old node a symbol keeps), Apply is the parking of rows and passes 3 to 5; the parent puts
--   them together, and a failure undoes the transaction. The other files prove what they are named
--   for.
-- - Indexer/Symbol: src/indexer/symbol.rs, the symbol tree, its flattening, fingerprints and names.
-- - Indexer/Drift: src/indexer/reconcile.rs, one file brought up to date by the watcher or by the pass
--   at the start of the daemon; Drift/Startup is that pass with its retries. Language servers, the file
--   system, whether the hash of a file can be written, and what happens while the code waits, also to
--   the database, are parameters. The other files below it prove what they are named for.
-- - Adapters: src/adapters/mod.rs, the built-in adapters of src/adapters/ and the symbol kinds of
--   src/adapters/kind.rs (Kind).
-- - Graph/Db/Position: what the query by position finds. Graph/Db/Invariant/: the passes of a reconcile
--   and the commands keep a property of databases that each statement keeps. Graph/Db/Unique/,
--   Graph/Db/EdgeKeys/ and Graph/Db/Linked/ are three such properties: the keys of nodes, the keys of
--   edges, and the ends of edges and what they say. EdgeKeys also says what a statement on edges leaves
--   alone.
-- - Query/: src/query/filter.rs (Filter), src/query/mod.rs (Page, pagination), src/query/dto.rs (Dto),
--   `find_symbol` of src/query/ops.rs (Find) and `group_by_node` of src/query/resolver.rs (Group).
-- - Query/Client: the trait `LspQueryClient` of src/query/lsp_query.rs as a record of operations on a
--   state of the client, so that a server may answer differently each time. Query/Engine: the
--   statements and requests that an operation is made of, one after another, with the database error
--   that ends it. Query/Resolve: the rest of src/query/resolver.rs, edges made on demand.
-- - Query/Hints, Query/Operations, Query/CallPath: `hint_fqns_for`, `find_references`, `find_callers`,
--   `find_callees` and `find_call_path` of src/query/ops.rs. `search` is the loop of the last one, with
--   its variables in a record. The files below them prove what they are named for; Engine/Keeps and
--   Engine/Post are the rules for operations.
-- - Lsp/Supervisor: src/lsp/supervisor.rs, each method of the actor as a function of its state, and
--   the arms of its loop as step relations, one for those that go on and one for those that end it.
--   What a start gives and what the clock shows are in the steps.
-- - Lsp/Transport: src/lsp/transport.rs, the framing of messages on a finite stream of bytes.
-- - Lsp/Client/: src/lsp/client.rs and src/lsp/proto.rs. Actor is `actor_loop` on a run of events,
--   Documents is `ensure_document`.
-- - Examples/: concrete runs.
--
-- Bounds and fuel. Text is its UTF-8 bytes. Row ids are natural numbers; `i64` columns are integers
-- without a bound, which the code does not come near: it adds and compares values that language
-- servers send as 32-bit numbers. The failure counter saturates, ids of requests and versions of
-- documents wrap around, as in the code. `decimal` recurses on a bound on its digits, which is proved
-- to suffice. The search for a call path has two turns more than there are nodes, which is proved to
-- suffice. `all_pages` and `walk` are a client that asks for one page at a time, at most as often
-- as told.
--
-- Parameters: the hash functions of the standard hasher, the similarity of `strsim`, JSON printing and
-- parsing, the language server behind a query client, the text of the files that may be read, the walk
-- of the root, and the adapters that the environment configures. Not modelled: sockets, processes,
-- file watching, the file system, the MCP server and the command line, which are input and output; and
-- `find_definition`, `read_range`, the runtime pool and the pipeline. A statement of the database fails
-- by a constraint of the schema or as the code says; that SQLite cannot read or write its file is not
-- part of the model, with one exception: the hash of a file that `reconcile_uri_for_startup_drift`
-- records after the reconcile of the file is committed.
pub mod Adapters
pub mod Base
pub mod Graph
pub mod Indexer
pub mod Lsp
pub mod Query
pub mod Examples
