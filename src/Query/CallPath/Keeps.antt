-- ===== src/Query/CallPath/Keeps.antt =====
-- src/query/ops.rs: no query changes a node.
use semnav.Base.{
  ℕ, zero, suc, ◌≡◌, Bool, true, false, Bool-cases, inl, inr, Option, none, some, List, [], ◌∷◌,
  length, ◌==◌,
}
use semnav.Graph.Model.{Node}
use semnav.Graph.Db.Edges.{incoming, outgoing}
use semnav.Graph.Db.Unique.{Unique}
use semnav.Graph.Db.EdgeKeys.{EdgeKeys}
use semnav.Query.Filter.{SymbolRef, Filter, Page}
use semnav.Query.Client.{LspQueryClient}
use semnav.Query.Engine.{QueryEngine, World, Op}
use semnav.Query.Engine.Keeps.{
  Keeps, Keeps-bind, Keeps-then, Keeps-run, Keeps-on, read-Keeps, pure-Keeps,
}
use semnav.Query.Resolve.Keeps.{opened-Keeps}
use semnav.Query.Operations.{
  Client, is_fresh, text_hash, find_references, find_callers, find_callees,
}
use semnav.Query.Operations.Keeps.{
  resolve_anchor_id-Keeps, rebuild_callees-Keeps, find_references-Keeps, call_graph-Keeps,
  find_callees-Keeps,
}
use semnav.Query.Operations.Frames.{
  KeepsNodes-Unique, OnlyEdges, edges_frame, edges-Rebuilds, edges-Writes,
}
use semnav.Query.CallPath.{
  Entry, Search, SearchOutcome, too_long, after_turn, hints_for, unresolved, expand_stale,
  expand_unless, expand_outgoing_calls, step, entry_turn, next_entry, search, start_search,
  path_between, path_of_anchors, find_call_path,
}

module _ {S : Type 0} where
  after_turn-Keeps :
      (continue : Search → Op S SearchOutcome) (s : Search) (path : Option (List Node))
      → ((x : Search) → Keeps OnlyEdges (continue x))
      → Keeps OnlyEdges (after_turn continue s path)
  after_turn-Keeps continue s none h = h s
  after_turn-Keeps continue s (some path) h = pure-Keeps S edges_frame _

-- After a run, failed or not, the nodes are those of before, and their keys and the ids of the
-- edges are unique.
abbrev pub LeavesNodes : {S A : Type 0} → Op S A → World S → Type 0
LeavesNodes m w = ((m w).1.db.nodes ≡ w.db.nodes) × Unique (m w).1.db × EdgeKeys (m w).1.db

leaves :
    {S A : Type 0} (m : Op S A) (w : World S)
    → Keeps OnlyEdges m
    → Unique w.db
    → EdgeKeys w.db
    → LeavesNodes m w
leaves m w h u k =
    let kept = Keeps-on OnlyEdges m w h k in
    (kept.nodes, KeepsNodes-Unique w.db (m w).1.db kept u, kept.keys)

module _ (S : Type 0) where
  hints_for-Keeps :
      (engine : QueryEngine) (symref : SymbolRef) (anchor : Option (ℕ × Node))
      → Keeps {S = S} OnlyEdges (hints_for engine symref anchor)
  hints_for-Keeps engine symref none = read-Keeps S edges_frame _
  hints_for-Keeps engine symref (some a) = pure-Keeps S edges_frame []

  unresolved-Keeps :
      (engine : QueryEngine) (from to : SymbolRef) (from_anchor to_anchor : Option (ℕ × Node))
      (timed_out : Bool)
      → Keeps {S = S} OnlyEdges (unresolved engine from to from_anchor to_anchor timed_out)
  unresolved-Keeps engine from to from_anchor to_anchor timed_out =
      Keeps-bind edges_frame _ _ (hints_for-Keeps engine from from_anchor) (λ f.
        Keeps-bind edges_frame _ _ (hints_for-Keeps engine to to_anchor)
          (λ t. pure-Keeps S edges_frame _))

module _ {S Raw : Type 0} (engine : QueryEngine) where
  expand_stale-Keeps :
      (id : ℕ) (anchor : Node) (client : LspQueryClient S Raw) (remaining : ℕ)
      → Keeps OnlyEdges (expand_stale engine id anchor client remaining)
  expand_stale-Keeps id anchor client zero = pure-Keeps S edges_frame (false, false, zero)
  expand_stale-Keeps id anchor client (suc remaining) =
      Keeps-bind edges_frame _ _
        (rebuild_callees-Keeps engine edges_frame id anchor (text_hash engine anchor) client
          (edges-Writes id outgoing) (edges-Rebuilds id))
        (λ timed_out. pure-Keeps S edges_frame (true, timed_out, remaining))

  expand_unless-Keeps :
      (id : ℕ) (anchor : Node) (client : LspQueryClient S Raw) (remaining : ℕ) (fresh : Bool)
      → Keeps OnlyEdges (expand_unless engine id anchor client remaining fresh)
  expand_unless-Keeps id anchor client remaining true =
      pure-Keeps S edges_frame (true, false, remaining)
  expand_unless-Keeps id anchor client remaining false =
      expand_stale-Keeps id anchor client remaining

  expand-Keeps :
      (id : ℕ) (anchor : Node) (client : Client S Raw) (remaining : ℕ)
      → Keeps OnlyEdges (expand_outgoing_calls engine id anchor client remaining)
  unfolding expand_outgoing_calls
  expand-Keeps id anchor none remaining = pure-Keeps S edges_frame (false, false, remaining)
  expand-Keeps id anchor (some client) remaining =
      Keeps-then edges_frame _ _
        (opened-Keeps engine client edges_frame anchor.uri (engine.read_file_text anchor.uri))
        (Keeps-bind edges_frame _ _ (read-Keeps S edges_frame _) (λ cached.
          expand_unless-Keeps id anchor client remaining
            (is_fresh cached (text_hash engine anchor))))

  entry_turn-Keeps :
      (long : Bool) (to_id : ℕ) (client : Client S Raw) (e : Entry) (s : Search)
      → Keeps OnlyEdges (entry_turn engine long to_id client e s)
  unfolding step
  entry_turn-Keeps true to_id client e s = pure-Keeps S edges_frame _
  entry_turn-Keeps false to_id client e s =
      Keeps-bind edges_frame _ _ (expand-Keeps e.id e.node client s.remaining) (λ r.
        Keeps-bind edges_frame _ _ (read-Keeps S edges_frame _)
          (λ neighbors. pure-Keeps S edges_frame _))

  next_entry-Keeps :
      (continue : Search → Op S SearchOutcome) (to_id max_depth : ℕ) (client : Client S Raw)
      (s : Search) (queue : List Entry)
      → ((x : Search) → Keeps OnlyEdges (continue x))
      → Keeps OnlyEdges (next_entry engine continue to_id max_depth client s queue)
  next_entry-Keeps continue to_id max_depth client s [] h = pure-Keeps S edges_frame _
  next_entry-Keeps continue to_id max_depth client s (e ∷ rest) h =
      Keeps-bind edges_frame _ _ (entry_turn-Keeps (too_long max_depth e) to_id client e _)
        (λ r. after_turn-Keeps continue r.1 r.0 h)

  search-Keeps :
      (fuel to_id max_depth : ℕ) (client : Client S Raw) (s : Search)
      → Keeps OnlyEdges (search engine fuel to_id max_depth client s)
  unfolding search
  search-Keeps zero to_id max_depth client s = pure-Keeps S edges_frame _
  search-Keeps (suc fuel) to_id max_depth client s =
      next_entry-Keeps (search engine fuel to_id max_depth client) to_id max_depth client s s.queue
        (search-Keeps fuel to_id max_depth client)

  path_between-Keeps :
      (from_id : ℕ) (origin : Node) (to_id max_depth budget : ℕ) (client : Client S Raw)
      (timed_out : Bool)
      → Keeps OnlyEdges (path_between engine from_id origin to_id max_depth budget client timed_out)
  unfolding path_between
  path_between-Keeps from_id origin to_id max_depth budget client timed_out =
      elim (Bool-cases (from_id == to_id)) [
        | inl e ↦ rw (path_between, e) (pure-Keeps S edges_frame _)
        | inr e ↦
            rw (path_between, e)
              (Keeps-run edges_frame _ (λ w. Keeps-on OnlyEdges _ w (
                search-Keeps (suc (suc (length w.db.nodes))) to_id max_depth client
                  (start_search from_id origin budget timed_out))))
      ]

  path_of_anchors-Keeps :
      (from to : SymbolRef) (max_depth budget : ℕ) (client : Client S Raw)
      (from_anchor to_anchor : Option (ℕ × Node)) (timed_out : Bool)
      → Keeps OnlyEdges
          (path_of_anchors engine from to max_depth budget client from_anchor to_anchor timed_out)
  path_of_anchors-Keeps from to max_depth budget client (some (a, n)) (some (b, m)) timed_out =
      Keeps-bind edges_frame _ _ (path_between-Keeps a n b max_depth budget client timed_out)
        (λ outcome. pure-Keeps S edges_frame _)
  path_of_anchors-Keeps from to max_depth budget client none to_anchor timed_out =
      unresolved-Keeps S engine from to none to_anchor timed_out
  path_of_anchors-Keeps from to max_depth budget client (some a) none timed_out =
      unresolved-Keeps S engine from to (some a) none timed_out

  find_call_path-Keeps :
      (from to : SymbolRef) (max_depth budget : ℕ) (client : Client S Raw)
      → Keeps OnlyEdges (find_call_path engine from to max_depth budget client)
  unfolding find_call_path
  find_call_path-Keeps from to max_depth budget client =
      Keeps-bind edges_frame _ _ (resolve_anchor_id-Keeps engine edges_frame from client) (λ f.
        Keeps-bind edges_frame _ _ (resolve_anchor_id-Keeps engine edges_frame to client)
          (λ t. path_of_anchors-Keeps from to max_depth budget client f.0 t.0 _))

  -- `find_references`, `find_callers`, `find_callees` and `find_call_path` of the query engine, whatever
  -- the server answers, or if there is none, and also when a statement fails, leave every node as it
  -- is, no two nodes with the same id or full name, and no two edges with the same id. (Signatures are
  -- filled in after the second and third by the runtime pool, which is not part of them.)
  pub edge_queries_leave_nodes :
      (symref to : SymbolRef) (filter : Filter) (page : Page) (max_depth budget : ℕ)
      (client : Client S Raw) (w : World S)
      → Unique w.db
      → EdgeKeys w.db
      → LeavesNodes (find_references engine symref filter page client) w
        × LeavesNodes (find_callers engine symref filter page client) w
        × LeavesNodes (find_callees engine symref filter page client) w
        × LeavesNodes (find_call_path engine symref to max_depth budget client) w
  unfolding find_callers
  edge_queries_leave_nodes symref to filter page max_depth budget client w u k = (
    leaves _ w
        (find_references-Keeps engine edges_frame symref filter page client (λ id src site. tt)) u
        k,
    leaves _ w
        (call_graph-Keeps engine edges_frame symref incoming filter page client
          (λ id. edges-Writes id incoming))
        u k,
    leaves _ w
        (find_callees-Keeps engine edges_frame symref filter page client
          (λ id. (edges-Writes id outgoing, edges-Rebuilds id)))
        u k,
    leaves _ w (find_call_path-Keeps symref to max_depth budget client) u k,
  )
