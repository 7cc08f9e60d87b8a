-- ===== src/Query/CallPath.antt =====
-- src/query/ops.rs: `find_call_path`, a breadth-first search over outgoing calls that asks the
-- server for the calls of a node whose cached ones are not fresh.
pub mod Loop
pub mod Callees
pub mod Scan
pub mod Exhausted
pub mod Found
pub mod Keeps
pub mod Result
use semnav.Base.{
  ℕ, zero, suc, ◌%◌, ◌^◌, ◌==◌, ltb, Bool, true, false, ◌&&◌, ◌||◌, not, Option, none, some, List,
  [], ◌∷◌, ◌++◌, Str, str, map, any, length, if◌then◌else◌,
}
use semnav.Graph.Model.{Site, Node}
use semnav.Graph.Db.Edges.{outgoing, get_neighbors}
use semnav.Graph.Db.Meta.{get_callees_cache_hash}
use semnav.Query.Dto.{NodeDto, from_node}
use semnav.Query.Filter.{SymbolRef}
use semnav.Query.Group.{group_by_node}
use semnav.Query.Client.{LspQueryClient}
use semnav.Query.Engine.{QueryEngine, World, Op, ◌>>=◌, ◌>>◌, pure, read_db}
use semnav.Query.Resolve.{opened}
use semnav.Query.Operations.{
  Group, Client, hints, is_fresh, text_hash, rebuild_callees, resolve_anchor_id,
}

pub record FindCallPathResult : Type 0 where
  pub reachable : Bool
  pub path : List NodeDto
  pub limit_reached : Bool
  pub from_hint_fqns : List Str
  pub to_hint_fqns : List Str

-- What stands in the queue: a node's id, the node, and the path to it.
pub record Entry : Type 0 where
  pub id : ℕ
  pub node : Node
  pub path : List Node

-- The variables of the loop.
pub record Search : Type 0 where
  pub visited : List ℕ
  pub queue : List Entry
  pub remaining : ℕ
  pub limit_reached : Bool
  pub timed_out : Bool

-- How the loop ends: with a path, with the queue empty, or out of fuel.
pub data SearchOutcome : Type 0 where
  found : List Node → Bool → SearchOutcome
  exhausted : Search → SearchOutcome
  out_of_fuel : SearchOutcome

-- What a node's expansion leaves in the variables.
abbrev pub expanded : Search → Bool → Bool → ℕ → Search
expanded s usable timed_out remaining = record s {
  remaining = remaining;
  limit_reached = s.limit_reached || not usable;
  timed_out = s.timed_out || timed_out;
}

-- `visited.insert(id)` and what is pushed when the id is new.
unfoldable pub visit : ℕ → Node → List Node → Search → Search
visit id node path s = if any (λ v. v == id) s.visited then s else record s {
  visited = id ∷ s.visited;
  queue = s.queue ++ (record { id = id; node = node; path = path ++ (node ∷ []) } ∷ []);
}

-- The loop over the callees of one node: the path if `to` is among them, or the new state.
unfoldable pub scan : ℕ → List Node → List Group → Search → Option (List Node) × Search
unfolding visit
scan to_id path [] s = (none, s)
scan to_id path ((callee, sites) ∷ groups) s = elim callee.id [
  | none ↦ scan to_id path groups s
  | some callee_id ↦
      if callee_id == to_id
      then (some (path ++ (callee ∷ [])), s)
      else scan to_id path groups (visit callee_id callee path s)
]

abbrev pub start_search : ℕ → Node → ℕ → Bool → Search
start_search from_id origin max_lsp_calls timed_out = record {
  visited = from_id ∷ [];
  queue = record { id = from_id; node = origin; path = origin ∷ [] } ∷ [];
  remaining = max_lsp_calls;
  limit_reached = false;
  timed_out = timed_out;
}

abbrev pub no_path : Bool → List Str → List Str → FindCallPathResult
no_path limit_reached from_hint_fqns to_hint_fqns = record {
  reachable = false;
  path = [];
  limit_reached = limit_reached;
  from_hint_fqns = from_hint_fqns;
  to_hint_fqns = to_hint_fqns;
}

-- `none` would be a search that ran out of fuel.
abbrev pub path_result : SearchOutcome → Option (FindCallPathResult × Bool)
path_result out_of_fuel = none
path_result (exhausted s) = some (no_path s.limit_reached [] [], s.timed_out)
path_result (found path timed_out) = some (
  record {
    reachable = true;
    path = map from_node path;
    limit_reached = false;
    from_hint_fqns = [];
    to_hint_fqns = [];
  },
  timed_out,
)

-- `path.len() as u32` counts the hops so far and the one to come.
abbrev pub too_long : ℕ → Entry → Bool
too_long max_depth e = ltb max_depth (length e.path % 2 ^ 32)

module _ {S : Type 0} where
  -- After a turn: the path that it found, or the rest of the search.
  abbrev pub after_turn :
      (Search → Op S SearchOutcome) → Search → Option (List Node) → Op S SearchOutcome
  after_turn continue s (some path) = pure (found path s.timed_out)
  after_turn continue s none = continue s

  abbrev pub hints_for : QueryEngine → SymbolRef → Option (ℕ × Node) → Op S (List Str)
  hints_for engine symref none = hints engine symref
  hints_for engine symref (some anchor) = pure []

  abbrev pub unresolved :
      QueryEngine
      → SymbolRef
      → SymbolRef
      → Option (ℕ × Node)
      → Option (ℕ × Node)
      → Bool
      → Op S (Option (FindCallPathResult × Bool))
  unresolved engine from to from_anchor to_anchor timed_out = do
    from_hint_fqns ← hints_for engine from from_anchor
    to_hint_fqns ← hints_for engine to to_anchor
    pure (some (no_path false from_hint_fqns to_hint_fqns, timed_out))

module _ {S Raw : Type 0} (engine : QueryEngine) where
  -- The call of `max_lsp_calls` that a rebuild spends: usable, timed out, and what is left.
  abbrev pub expand_stale : ℕ → Node → LspQueryClient S Raw → ℕ → Op S (Bool × Bool × ℕ)
  expand_stale anchor_id anchor client zero = pure (false, false, zero)
  expand_stale anchor_id anchor client (suc remaining) = do
    timed_out ← rebuild_callees engine anchor_id anchor (text_hash engine anchor) client
    pure (true, timed_out, remaining)

  abbrev pub expand_unless : ℕ → Node → LspQueryClient S Raw → ℕ → Bool → Op S (Bool × Bool × ℕ)
  expand_unless anchor_id anchor client remaining true = pure (true, false, remaining)
  expand_unless anchor_id anchor client remaining false =
      expand_stale anchor_id anchor client remaining

  unfoldable pub expand_outgoing_calls : ℕ → Node → Client S Raw → ℕ → Op S (Bool × Bool × ℕ)
  unfolding rebuild_callees
  expand_outgoing_calls anchor_id anchor none remaining = pure (false, false, remaining)
  expand_outgoing_calls anchor_id anchor (some client) remaining = do
    opened engine client anchor.uri (engine.read_file_text anchor.uri)
    cached ← read_db (get_callees_cache_hash anchor_id)
    expand_unless anchor_id anchor client remaining (is_fresh cached (text_hash engine anchor))

  -- A turn of the loop for a path that is not too long.
  unfoldable pub step : ℕ → Client S Raw → Entry → Search → Op S (Option (List Node) × Search)
  unfolding expand_outgoing_calls get_neighbors group_by_node scan
  step to_id client e s = do
    (usable, timed_out, remaining) ← expand_outgoing_calls e.id e.node client s.remaining
    neighbors ← read_db (get_neighbors e.id (str "calls") outgoing)
    pure (scan to_id e.path (group_by_node neighbors) (expanded s usable timed_out remaining))

  abbrev pub entry_turn :
      Bool → ℕ → Client S Raw → Entry → Search → Op S (Option (List Node) × Search)
  entry_turn true to_id client e s = pure (none, record s { limit_reached = true })
  entry_turn false to_id client e s = step to_id client e s

  -- `while let Some(…) = queue.pop_front()`
  abbrev pub next_entry :
      (Search → Op S SearchOutcome)
      → ℕ
      → ℕ
      → Client S Raw
      → Search
      → List Entry
      → Op S SearchOutcome
  next_entry continue to_id max_depth client s [] = pure (exhausted s)
  next_entry continue to_id max_depth client s (e ∷ rest) = do
    (path, s') ← entry_turn (too_long max_depth e) to_id client e (record s { queue = rest })
    after_turn continue s' path

  unfoldable pub search : ℕ → ℕ → ℕ → Client S Raw → Search → Op S SearchOutcome
  unfolding step
  search zero to_id max_depth client s = pure out_of_fuel
  search (suc fuel) to_id max_depth client s =
      next_entry (search fuel to_id max_depth client) to_id max_depth client s s.queue

  abbrev pub search_from : ℕ → ℕ → Client S Raw → Search → Op S SearchOutcome
  search_from to_id max_depth client s w =
      search (suc (suc (length w.db.nodes))) to_id max_depth client s w

  unfoldable pub path_between : ℕ → Node → ℕ → ℕ → ℕ → Client S Raw → Bool → Op S SearchOutcome
  unfolding search
  path_between from_id origin to_id max_depth max_lsp_calls client timed_out =
      if from_id == to_id
      then pure (found (origin ∷ []) timed_out)
      else search_from to_id max_depth client (start_search from_id origin max_lsp_calls timed_out)

  abbrev pub path_of_anchors :
      SymbolRef
      → SymbolRef
      → ℕ
      → ℕ
      → Client S Raw
      → Option (ℕ × Node)
      → Option (ℕ × Node)
      → Bool
      → Op S (Option (FindCallPathResult × Bool))
  path_of_anchors from to max_depth max_lsp_calls client (some (from_id, origin))
        (some (to_id, to_node)) timed_out =
      do
        outcome ← path_between from_id origin to_id max_depth max_lsp_calls client timed_out
        pure (path_result outcome)
  path_of_anchors from to max_depth max_lsp_calls client none to_anchor timed_out =
      unresolved engine from to none to_anchor timed_out
  path_of_anchors from to max_depth max_lsp_calls client (some a) none timed_out =
      unresolved engine from to (some a) none timed_out

  unfoldable pub find_call_path :
      SymbolRef → SymbolRef → ℕ → ℕ → Client S Raw → Op S (Option (FindCallPathResult × Bool))
  unfolding resolve_anchor_id path_between from_node
  find_call_path from to max_depth max_lsp_calls client = do
    (from_anchor, from_timed_out) ← resolve_anchor_id engine from client
    (to_anchor, to_timed_out) ← resolve_anchor_id engine to client
    path_of_anchors from to max_depth max_lsp_calls client from_anchor to_anchor
        (from_timed_out || to_timed_out)
