-- ===== src/Query/Operations.antt =====
-- src/query/ops.rs: references, callers and callees. A result carries a flag: whether a request to
-- the language server timed out. A cursor is the sort key that it encodes.
use mathlib.Core.Option
pub mod Keeps
pub mod Frames
pub mod Cache
pub mod Failed
use semnav.Base.{
  ℕ, pos, Bool, true, false, ◌||◌, Option, none, some, List, [], ◌∷◌, Str, str, str_eq, opt_eq, map,
  retain, if◌then◌else◌,
}
use semnav.Graph.Model.{Site, Node}
use semnav.Graph.Db.State.{Db, ok, err, Result}
use semnav.Graph.Db.Nodes.{get_node_by_fqn, find_node_by_position}
use semnav.Graph.Db.Edges.{Direction, incoming, outgoing, get_neighbors, invalidate_outgoing_calls}
use semnav.Graph.Db.Meta.{get_callees_cache_hash, set_callees_cache_hash}
use semnav.Query.Dto.{NodeDto, RangeDto, from_node, range_dto}
use semnav.Query.Filter.{SymbolRef, fqn_ref, at, Filter, filter_matches, SortKey, key_of_node, Page}
use semnav.Query.Page.{paginate}
use semnav.Query.Group.{group_by_node}
use semnav.Query.Hints.{hint_fqns_for_symref}
use semnav.Query.Client.{LspQueryClient}
use semnav.Query.Engine.{QueryEngine, Op, ◌>>=◌, ◌>>◌, pure, read_db, change_db, try_db}
use semnav.Query.Resolve.{
  opened, ensure_open, definition_anchor, materialize_references, materialize_call_edges,
}

-- `ReferenceGroup`
pub record ReferenceGroup : Type 0 where
  pub node : NodeDto
  pub sites : List RangeDto

pub record FindReferencesResult : Type 0 where
  pub references : List ReferenceGroup
  pub next_cursor : Option SortKey
  pub hint_fqns : List Str

pub record CallGraphNode : Type 0 where
  pub node : NodeDto
  pub call_sites : List RangeDto

pub record CallGraphResult : Type 0 where
  pub items : List CallGraphNode
  pub next_cursor : Option SortKey
  pub hint_fqns : List Str

abbrev pub Group : Type 0
Group = Node × List Site

abbrev pub group_key : Group → SortKey
group_key (n, sites) = key_of_node n

abbrev pub site_ranges : List Site → List RangeDto
site_ranges = map (λ s. range_dto s.range)

-- The neighbors of a node by edges of one type, grouped and filtered.
unfoldable pub adjacent : ℕ → Str → Direction → Filter → Db → List Group
unfolding get_neighbors group_by_node filter_matches
adjacent anchor_id edge_type direction filter db =
    retain (λ (n, sites). filter_matches filter n)
      (group_by_node (get_neighbors anchor_id edge_type direction db))

abbrev pub call_node : Group → CallGraphNode
call_node (n, sites) = record { node = from_node n; call_sites = site_ranges sites }

abbrev pub reference_group : Group → ReferenceGroup
reference_group (n, sites) = record { node = from_node n; sites = site_ranges sites }

abbrev calls_result : List Group × Option SortKey → CallGraphResult
calls_result (items, next) = record {
  items = map call_node items;
  next_cursor = next;
  hint_fqns = [];
}

abbrev references_result : List Group × Option SortKey → FindReferencesResult
references_result (items, next) = record {
  references = map reference_group items;
  next_cursor = next;
  hint_fqns = [];
}

unfoldable pub read_calls_page : ℕ → Direction → Filter → Page → Db → CallGraphResult
unfolding adjacent paginate from_node range_dto
read_calls_page anchor_id direction filter page db =
    calls_result (paginate group_key (adjacent anchor_id (str "calls") direction filter db) page)

unfoldable pub callers_from_cache : ℕ → Filter → Page → Db → CallGraphResult
unfolding read_calls_page
callers_from_cache anchor_id filter page db = read_calls_page anchor_id incoming filter page db

-- Also the last part of `find_references`.
unfoldable pub references_from_cache : ℕ → Filter → Page → Db → FindReferencesResult
unfolding adjacent paginate from_node range_dto
references_from_cache anchor_id filter page db =
    references_result
      (paginate group_key (adjacent anchor_id (str "references") incoming filter db) page)

-- An optional anchor with its id.
abbrev pub with_id : Option Node → Option (ℕ × Node)
with_id found = Option.bind found (λ n. Option.map (λ id. (id, n)) n.id)

-- A client, if there is one.
abbrev pub Client : Type 0 → Type 0 → Type 0
Client S Raw = Option (LspQueryClient S Raw)

-- Whether the hash in the cache is that of the text.
abbrev pub is_fresh : Option Str → Option Str → Bool
is_fresh cached none = false
is_fresh cached (some hash) = opt_eq str_eq cached (some hash)

abbrev pub text_hash : QueryEngine → Node → Option Str
text_hash engine anchor = Option.map engine.content_hash (engine.read_file_text anchor.uri)

abbrev pub without_value : Result Db → Result (Unit {0} × Db)
without_value (ok db) = ok (tt, db)
without_value (err e) = err e

module _ {S : Type 0} where
  abbrev pub set_hash : ℕ → Option Str → Op S (Unit {0})
  set_hash anchor_id none = pure tt
  set_hash anchor_id (some hash) =
      try_db (λ db. without_value (set_callees_cache_hash anchor_id hash db))

  -- `hint_fqns` of a result without an anchor.
  abbrev pub hints : QueryEngine → SymbolRef → Op S (List Str)
  hints engine symref = read_db (hint_fqns_for_symref engine.similar symref)

  abbrev pub unresolved_calls : QueryEngine → SymbolRef → Bool → Op S (CallGraphResult × Bool)
  unresolved_calls engine symref timed_out = do
    fqns ← hints engine symref
    pure (record { items = []; next_cursor = none; hint_fqns = fqns }, timed_out)

module _ {S Raw : Type 0} (engine : QueryEngine) where
  unfoldable pub resolve_anchor_id : SymbolRef → Client S Raw → Op S (Option (ℕ × Node) × Bool)
  unfolding definition_anchor
  resolve_anchor_id (fqn_ref fqn) client = do
    found ← read_db (get_node_by_fqn fqn)
    pure (with_id found, false)
  resolve_anchor_id (at uri line character) (some client) = do
    (found, timed_out) ← definition_anchor engine client uri line character
    pure (with_id found, timed_out)
  resolve_anchor_id (at uri line character) none = do
    found ← read_db (find_node_by_position uri (pos line) (pos character))
    pure (with_id found, false)

  -- What a request to the server adds to the references, if there is a client.
  abbrev pub refresh_references : ℕ → Node → Client S Raw → Op S Bool
  refresh_references anchor_id anchor none = pure false
  refresh_references anchor_id anchor (some client) = do
    ensure_open engine client anchor.uri
    materialize_references engine client anchor_id anchor

  abbrev pub references_of :
      SymbolRef
      → Filter
      → Page
      → Client S Raw
      → Option (ℕ × Node)
      → Bool
      → Op S (FindReferencesResult × Bool)
  references_of symref filter page client none timed_out = do
    fqns ← hints engine symref
    pure (record { references = []; next_cursor = none; hint_fqns = fqns }, timed_out)
  references_of symref filter page client (some (anchor_id, anchor)) timed_out = do
    later ← refresh_references anchor_id anchor client
    result ← read_db (references_from_cache anchor_id filter page)
    pure (result, timed_out || later)

  unfoldable pub find_references :
      SymbolRef → Filter → Page → Client S Raw → Op S (FindReferencesResult × Bool)
  unfolding resolve_anchor_id ensure_open materialize_references references_from_cache
  find_references symref filter page client = do
    (anchor, timed_out) ← resolve_anchor_id symref client
    references_of symref filter page client anchor timed_out

  abbrev pub refresh_calls : ℕ → Node → Direction → Client S Raw → Op S Bool
  refresh_calls anchor_id anchor direction none = pure false
  refresh_calls anchor_id anchor direction (some client) = do
    ensure_open engine client anchor.uri
    materialize_call_edges engine client anchor_id anchor direction

  abbrev pub calls_of_anchor :
      SymbolRef
      → Direction
      → Filter
      → Page
      → Client S Raw
      → Option (ℕ × Node)
      → Bool
      → Op S (CallGraphResult × Bool)
  calls_of_anchor symref direction filter page client none timed_out =
      unresolved_calls engine symref timed_out
  calls_of_anchor symref direction filter page client (some (anchor_id, anchor)) timed_out = do
    later ← refresh_calls anchor_id anchor direction client
    result ← read_db (read_calls_page anchor_id direction filter page)
    pure (result, timed_out || later)

  unfoldable pub call_graph :
      SymbolRef → Direction → Filter → Page → Client S Raw → Op S (CallGraphResult × Bool)
  unfolding resolve_anchor_id ensure_open materialize_call_edges read_calls_page
  call_graph symref direction filter page client = do
    (anchor, timed_out) ← resolve_anchor_id symref client
    calls_of_anchor symref direction filter page client anchor timed_out

  unfoldable pub find_callers :
      SymbolRef → Filter → Page → Client S Raw → Op S (CallGraphResult × Bool)
  unfolding call_graph
  find_callers symref filter page client = call_graph symref incoming filter page client

  -- The outgoing calls are dropped, asked for again, and marked with the hash of the text, if there
  -- is one.
  unfoldable pub rebuild_callees : ℕ → Node → Option Str → LspQueryClient S Raw → Op S Bool
  unfolding materialize_call_edges
  rebuild_callees anchor_id anchor hash client = do
    change_db (invalidate_outgoing_calls anchor_id)
    timed_out ← materialize_call_edges engine client anchor_id anchor outgoing
    set_hash anchor_id hash
    pure timed_out

  abbrev pub unless_fresh : ℕ → Node → LspQueryClient S Raw → Bool → Op S Bool
  unless_fresh anchor_id anchor client true = pure false
  unless_fresh anchor_id anchor client false =
      rebuild_callees anchor_id anchor (text_hash engine anchor) client

  abbrev pub refresh_callees : ℕ → Node → Client S Raw → Op S Bool
  refresh_callees anchor_id anchor none = pure false
  refresh_callees anchor_id anchor (some client) = do
    opened engine client anchor.uri (engine.read_file_text anchor.uri)
    cached ← read_db (get_callees_cache_hash anchor_id)
    unless_fresh anchor_id anchor client (is_fresh cached (text_hash engine anchor))

  abbrev pub callees_of_anchor :
      SymbolRef
      → Filter
      → Page
      → Client S Raw
      → Option (ℕ × Node)
      → Bool
      → Op S (CallGraphResult × Bool)
  callees_of_anchor symref filter page client none timed_out =
      unresolved_calls engine symref timed_out
  callees_of_anchor symref filter page client (some (anchor_id, anchor)) timed_out = do
    later ← refresh_callees anchor_id anchor client
    result ← read_db (read_calls_page anchor_id outgoing filter page)
    pure (result, timed_out || later)

  unfoldable pub find_callees :
      SymbolRef → Filter → Page → Client S Raw → Op S (CallGraphResult × Bool)
  unfolding resolve_anchor_id rebuild_callees read_calls_page
  find_callees symref filter page client = do
    (anchor, timed_out) ← resolve_anchor_id symref client
    callees_of_anchor symref filter page client anchor timed_out
