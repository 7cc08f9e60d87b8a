-- ===== src/Query/Resolve.antt =====
-- src/query/resolver.rs: anchors, and edges that are made on demand from what the server answers.
pub mod Keeps
use semnav.Base.{
  ℕ, ℤ, pos, Bool, true, false, ◌&&◌, ◌||◌, not, Option, none, some, List, [], ◌∷◌, ◌++◌, Str, str,
  str_eq, ◌==◌, if◌then◌else◌,
}
use semnav.Indexer.Symbol.{LspRange, module_path_from_uri}
use semnav.Graph.Model.{Range, Site, Node, Edge}
use semnav.Graph.Db.Nodes.{get_node_by_fqn, get_node, find_node_by_position}
use semnav.Graph.Db.Edges.{Direction, incoming, outgoing, upsert_edge}
use semnav.Query.Client.{
  Location, CallHierarchyItem, IncomingCall, OutgoingCall, LspReply, value, failed, LspQueryClient,
  or_empty,
}
use semnav.Query.Engine.{QueryEngine, Op, ◌>>=◌, ◌>>◌, pure, read_db, try_db, ask, as_u32}

unfoldable pub lsp_range_to_range : LspRange → Range
lsp_range_to_range r = record {
  start_line = pos r.start.line;
  start_col = pos r.start.character;
  end_line = pos r.end.line;
  end_col = pos r.end.character;
}

unfoldable pub located_edge : ℕ → ℕ → Str → Option Site → Edge
located_edge src dst edge_type site = record {
  id = none;
  src_id = src;
  dst_id = dst;
  edge_type = edge_type;
  site = site;
  valid = true;
}

-- The id of a node that was read.
abbrev pub id_of : Option Node → Option ℕ
id_of none = none
id_of (some n) = n.id

abbrev pub is_zero_range : LspRange → Bool
is_zero_range r =
    r.start.line == 0 && (r.start.character == 0 && (r.end.line == 0 && r.end.character == 0))

module _ {S Raw : Type 0} (engine : QueryEngine) (client : LspQueryClient S Raw) where
  abbrev pub opened : Str → Option Str → Op S (Unit {0})
  opened uri none = pure tt
  opened uri (some text) = do _ ← ask (client.open_document uri text); pure tt

  unfoldable pub ensure_open : Str → Op S (Unit {0})
  ensure_open uri = opened uri (engine.read_file_text uri)

  -- The node at the start of a location.
  abbrev pub node_at : Str → LspRange → Op S (Option Node)
  node_at uri r = read_db (find_node_by_position uri (pos r.start.line) (pos r.start.character))

  -- The loop of `definition_anchor`, up to its return.
  unfoldable pub first_indexed : List Location → Op S (Option Node)
  first_indexed [] = pure none
  first_indexed (loc ∷ locs) = do
    found ← node_at loc.uri loc.range
    elim found [ some n ↦ pure (some n) | none ↦ first_indexed locs ]

  unfoldable pub definition_anchor : Str → ℕ → ℕ → Op S (Option Node × Bool)
  unfolding first_indexed
  definition_anchor uri line character = do
    reply ← ask (client.definition uri line character)
    let (locs, timed_out) = or_empty reply
    found ← first_indexed locs
    elim found [
      | some n ↦ pure (some n, timed_out)
      | none ↦ do
        n ← read_db (find_node_by_position uri (pos line) (pos character))
        pure (n, timed_out)
    ]

  -- `let _ = self.db.upsert_edge(…).await?`
  abbrev pub add_edge : Edge → Op S (Unit {0})
  add_edge e = do _ ← try_db (upsert_edge e); pure tt

  abbrev pub add_reference : ℕ → Location → Option ℕ → Op S (Unit {0})
  add_reference anchor_id loc none = pure tt
  add_reference anchor_id loc (some container_id) = add_edge (
      located_edge container_id anchor_id (str "references")
        (some (record { uri = loc.uri; range = lsp_range_to_range loc.range })))

  unfoldable pub add_references : ℕ → List Location → Op S (Unit {0})
  unfolding located_edge lsp_range_to_range
  add_references anchor_id [] = pure tt
  add_references anchor_id (loc ∷ locs) = do
    container ← node_at loc.uri loc.range
    add_reference anchor_id loc (id_of container)
    add_references anchor_id locs

  unfoldable pub materialize_references : ℕ → Node → Op S Bool
  unfolding add_references
  materialize_references anchor_id anchor = do
    reply ← ask (
        client.references anchor.uri (as_u32 anchor.sel.start_line) (as_u32 anchor.sel.start_col)
          true)
    let (locs, timed_out) = or_empty reply
    add_references anchor_id locs
    pure timed_out

  -- One `calls` edge for each call site.
  unfoldable pub add_calls : ℕ → ℕ → Str → List LspRange → Op S (Unit {0})
  unfolding located_edge lsp_range_to_range
  add_calls src dst uri [] = pure tt
  add_calls src dst uri (r ∷ rs) = do
    add_edge (
        located_edge src dst (str "calls")
          (some (record { uri = uri; range = lsp_range_to_range r })))
    add_calls src dst uri rs

  -- The caller of an incoming call: the module itself for the range that servers report for a call
  -- outside every definition.
  abbrev pub caller_of : CallHierarchyItem Raw → Op S (Option Node)
  caller_of item =
      if is_zero_range item.selection_range
      then read_db (get_node_by_fqn (module_path_from_uri item.uri engine.root_uri))
      else node_at item.uri item.selection_range

  abbrev pub add_incoming_calls : ℕ → IncomingCall Raw → Option ℕ → Op S (Unit {0})
  add_incoming_calls anchor_id call none = pure tt
  add_incoming_calls anchor_id call (some caller_id) =
      add_calls caller_id anchor_id call.from.uri call.from_ranges

  unfoldable pub add_incoming : ℕ → List (IncomingCall Raw) → Op S (Unit {0})
  unfolding add_calls
  add_incoming anchor_id [] = pure tt
  add_incoming anchor_id (call ∷ calls) = do
    caller ← caller_of call.from
    add_incoming_calls anchor_id call (id_of caller)
    add_incoming anchor_id calls

  abbrev pub container_is_interface : Option Node → Bool
  container_is_interface none = false
  container_is_interface (some c) = str_eq c.node_kind (str "Interface")

  abbrev pub in_interface : Option ℕ → Op S Bool
  in_interface none = pure false
  in_interface (some container_id) = do
    c ← read_db (get_node container_id)
    pure (container_is_interface c)

  abbrev pub add_implements : ℕ → Option ℕ → Op S (List ℕ)
  add_implements callee_id none = pure []
  add_implements callee_id (some concrete_id) = do
    add_edge (located_edge callee_id concrete_id (str "implements") none)
    pure (concrete_id ∷ [])

  -- The loop over the implementations, with the ids it has collected.
  unfoldable pub concrete_ids : ℕ → List Location → Op S (List ℕ)
  unfolding located_edge
  concrete_ids callee_id [] = pure []
  concrete_ids callee_id (loc ∷ locs) = do
    concrete ← node_at loc.uri loc.range
    ids ← add_implements callee_id (id_of concrete)
    rest ← concrete_ids callee_id locs
    pure (ids ++ rest)

  abbrev pub or_callee : ℕ → List ℕ → List ℕ
  or_callee callee_id [] = callee_id ∷ []
  or_callee callee_id (id ∷ ids) = id ∷ ids

  -- The answer to `implementation` in place of the method of the interface.
  unfoldable pub implementations_of : Node → ℕ → Op S (List ℕ × Bool)
  unfolding ensure_open concrete_ids
  implementations_of callee callee_id = do
    ensure_open callee.uri
    reply ← ask (
        client.implementation callee.uri (as_u32 callee.sel.start_line)
          (as_u32 callee.sel.start_col))
    let (locs, timed_out) = or_empty reply
    ids ← concrete_ids callee_id locs
    pure (or_callee callee_id ids, timed_out)

  unfoldable pub resolve_outgoing_callee : Node → Node → ℕ → Op S (List ℕ × Bool)
  unfolding implementations_of
  resolve_outgoing_callee anchor callee callee_id =
      if not (str_eq anchor.language (str "typescript") || str_eq anchor.language (str "go"))
      then pure (callee_id ∷ [], false)
      else do
        is_interface ← in_interface callee.container_id
        if not is_interface
            then pure (callee_id ∷ [], false)
            else implementations_of callee callee_id

  unfoldable pub add_targets : ℕ → Str → List LspRange → List ℕ → Op S (Unit {0})
  unfolding add_calls
  add_targets anchor_id uri ranges [] = pure tt
  add_targets anchor_id uri ranges (target_id ∷ rest) = do
    add_calls anchor_id target_id uri ranges
    add_targets anchor_id uri ranges rest

  abbrev pub callee_targets : ℕ → Node → Node → List LspRange → Option ℕ → Op S Bool
  callee_targets anchor_id anchor callee ranges none = pure false
  callee_targets anchor_id anchor callee ranges (some callee_id) = do
    (target_ids, timed_out) ← resolve_outgoing_callee anchor callee callee_id
    add_targets anchor_id anchor.uri ranges target_ids
    pure timed_out

  abbrev pub add_callee : ℕ → Node → OutgoingCall Raw → Option Node → Op S Bool
  add_callee anchor_id anchor call none = pure false
  add_callee anchor_id anchor call (some callee) =
      callee_targets anchor_id anchor callee call.from_ranges callee.id

  -- Whether one of the corrections timed out.
  unfoldable pub add_outgoing : ℕ → Node → List (OutgoingCall Raw) → Op S Bool
  unfolding resolve_outgoing_callee add_targets
  add_outgoing anchor_id anchor [] = pure false
  add_outgoing anchor_id anchor (call ∷ calls) = do
    callee ← node_at call.to.uri call.to.selection_range
    timed_out ← add_callee anchor_id anchor call callee
    later ← add_outgoing anchor_id anchor calls
    pure (timed_out || later)

  abbrev pub call_edges : ℕ → Node → CallHierarchyItem Raw → Direction → Op S Bool
  call_edges anchor_id anchor item incoming = do
    reply ← ask (client.incoming_calls item)
    let (calls, timed_out) = or_empty reply
    add_incoming anchor_id calls
    pure timed_out
  call_edges anchor_id anchor item outgoing = do
    reply ← ask (client.outgoing_calls item)
    let (calls, timed_out) = or_empty reply
    later ← add_outgoing anchor_id anchor calls
    pure (timed_out || later)

  abbrev pub first_item : ℕ → Node → Direction → List (CallHierarchyItem Raw) → Bool → Op S Bool
  first_item anchor_id anchor direction [] timed_out = pure timed_out
  first_item anchor_id anchor direction (item ∷ items) timed_out =
      call_edges anchor_id anchor item direction

  -- With an item the first request did not time out.
  unfoldable pub materialize_call_edges : ℕ → Node → Direction → Op S Bool
  unfolding add_incoming add_outgoing
  materialize_call_edges anchor_id anchor direction = do
    reply ← ask (
        client.prepare_call_hierarchy anchor.uri (as_u32 anchor.sel.start_line)
          (as_u32 anchor.sel.start_col))
    let (items, timed_out) = or_empty reply
    first_item anchor_id anchor direction items timed_out
