-- ===== src/Query/Operations/Keeps.antt =====
-- src/query/ops.rs: what the queries keep in the database.
use semnav.Base.{ℕ, Bool, true, false, Option, none, some, Str, ◌||◌}
use semnav.Graph.Model.{Node, Edge}
use semnav.Graph.Db.State.{Result, ok, err, Db}
use semnav.Graph.Db.Edges.{Direction, outgoing, invalidate_outgoing_calls}
use semnav.Graph.Db.Meta.{set_callees_cache_hash}
use semnav.Graph.Db.Unique.{Holds}
use semnav.Query.Filter.{SymbolRef, fqn_ref, at, Filter, Page}
use semnav.Query.Client.{LspQueryClient}
use semnav.Query.Engine.{QueryEngine, World, change_db}
use semnav.Query.Engine.Keeps.{
  Keeps, Frame, Keeps-bind, Keeps-then, Keeps-run, read-Keeps, pure-Keeps, try_db-Keeps,
}
use semnav.Query.Resolve.{ensure_open}
use semnav.Query.Resolve.Keeps.{
  opened-Keeps, References, Writes, materialize_references-Keeps, materialize_call_edges-Keeps,
  definition_anchor-Keeps,
}
use semnav.Query.Operations.{
  Client, with_id, resolve_anchor_id, unresolved_calls, refresh_references, references_of,
  find_references, refresh_calls, calls_of_anchor, call_graph, set_hash, unless_fresh,
  rebuild_callees, is_fresh, text_hash, refresh_callees, callees_of_anchor, find_callees,
  without_value,
}

-- A frame that also covers what a rebuild of the callees of a node does.
pub record Rebuilds (R : Db → Db → Type 0) (anchor_id : ℕ) : Type 0 where
  pub drop : (db : Db) → R db (invalidate_outgoing_calls anchor_id db)
  pub mark : (hash : Str) (db : Db) → Holds (R db) (set_callees_cache_hash anchor_id hash db)

without_value-Keeps :
    (R : Db → Db → Type 0) (db : Db) (r : Result Db)
    → Holds (R db) r
    → Holds (λ p. R db p.1) (without_value r)
without_value-Keeps R db (ok db') h = h
without_value-Keeps R db (err e) h = tt

change-runs :
    {S : Type 0} (R : Db → Db → Type 0) (f : Db → Db) (w : World S)
    → R w.db (f w.db)
    → R w.db (change_db f w).1.db
unfolding change_db
change-runs R f w h = h

module _ (S : Type 0) {R : Db → Db → Type 0} {E : Edge → Type 0} (frame : Frame R E) where
  unresolved_calls-Keeps :
      (engine : QueryEngine) (symref : SymbolRef) (timed_out : Bool)
      → Keeps {S = S} R (unresolved_calls engine symref timed_out)
  unresolved_calls-Keeps engine symref timed_out =
      Keeps-bind frame _ _ (read-Keeps S frame _) (λ fqns. pure-Keeps S frame _)

  set_hash-Keeps :
      (anchor_id : ℕ) (hash : Option Str)
      → Rebuilds R anchor_id
      → Keeps {S = S} R (set_hash anchor_id hash)
  set_hash-Keeps anchor_id none h = pure-Keeps S frame tt
  set_hash-Keeps anchor_id (some hash) h =
      try_db-Keeps S frame _ (λ db. without_value-Keeps R db _ (h.mark hash db))

module _ {S Raw : Type 0} (engine : QueryEngine) {R : Db → Db → Type 0} {E : Edge → Type 0}
    (frame : Frame R E) where
  pub resolve_anchor_id-Keeps :
      (symref : SymbolRef) (client : Client S Raw)
      → Keeps R (resolve_anchor_id engine symref client)
  unfolding resolve_anchor_id
  resolve_anchor_id-Keeps (fqn_ref fqn) client =
      Keeps-bind frame _ _ (read-Keeps S frame _)
        (λ found. pure-Keeps S frame (with_id found, false))
  resolve_anchor_id-Keeps (at uri line character) (some client) =
      Keeps-bind frame _ _ (definition_anchor-Keeps engine client frame uri line character)
        (λ r. pure-Keeps S frame (with_id r.0, r.1))
  resolve_anchor_id-Keeps (at uri line character) none =
      Keeps-bind frame _ _ (read-Keeps S frame _)
        (λ found. pure-Keeps S frame (with_id found, false))

  ensure_open-Keeps :
      (client : LspQueryClient S Raw) (uri : Str) → Keeps R (ensure_open engine client uri)
  unfolding ensure_open
  ensure_open-Keeps client uri = opened-Keeps engine client frame uri (engine.read_file_text uri)

  refresh_references-Keeps :
      (anchor_id : ℕ) (anchor : Node) (client : Client S Raw)
      → References E anchor_id
      → Keeps R (refresh_references engine anchor_id anchor client)
  refresh_references-Keeps anchor_id anchor none h = pure-Keeps S frame false
  refresh_references-Keeps anchor_id anchor (some client) h =
      Keeps-then frame _ _ (ensure_open-Keeps client anchor.uri)
        (materialize_references-Keeps engine client frame anchor_id anchor h)

  references_of-Keeps :
      (symref : SymbolRef) (filter : Filter) (page : Page) (client : Client S Raw)
      (anchor : Option (ℕ × Node)) (timed_out : Bool)
      → ((id : ℕ) → References E id)
      → Keeps R (references_of engine symref filter page client anchor timed_out)
  references_of-Keeps symref filter page client none timed_out h =
      Keeps-bind frame _ _ (read-Keeps S frame _) (λ fqns. pure-Keeps S frame _)
  references_of-Keeps symref filter page client (some (id, n)) timed_out h =
      Keeps-bind frame _ _ (refresh_references-Keeps id n client (h id)) (λ later.
        Keeps-bind frame _ _ (read-Keeps S frame _)
          (λ result. pure-Keeps S frame (result, timed_out || later)))

  pub find_references-Keeps :
      (symref : SymbolRef) (filter : Filter) (page : Page) (client : Client S Raw)
      → ((id : ℕ) → References E id)
      → Keeps R (find_references engine symref filter page client)
  unfolding find_references
  find_references-Keeps symref filter page client h =
      Keeps-bind frame _ _ (resolve_anchor_id-Keeps symref client)
        (λ r. references_of-Keeps symref filter page client r.0 r.1 h)

  refresh_calls-Keeps :
      (anchor_id : ℕ) (anchor : Node) (direction : Direction) (client : Client S Raw)
      → Writes E anchor_id direction
      → Keeps R (refresh_calls engine anchor_id anchor direction client)
  refresh_calls-Keeps anchor_id anchor direction none h = pure-Keeps S frame false
  refresh_calls-Keeps anchor_id anchor direction (some client) h =
      Keeps-then frame _ _ (ensure_open-Keeps client anchor.uri)
        (materialize_call_edges-Keeps engine client frame anchor_id anchor direction h)

  calls_of_anchor-Keeps :
      (symref : SymbolRef) (direction : Direction) (filter : Filter) (page : Page)
      (client : Client S Raw) (anchor : Option (ℕ × Node)) (timed_out : Bool)
      → ((id : ℕ) → Writes E id direction)
      → Keeps R (calls_of_anchor engine symref direction filter page client anchor timed_out)
  calls_of_anchor-Keeps symref direction filter page client none timed_out h =
      unresolved_calls-Keeps S frame engine symref timed_out
  calls_of_anchor-Keeps symref direction filter page client (some (id, n)) timed_out h =
      Keeps-bind frame _ _ (refresh_calls-Keeps id n direction client (h id)) (λ later.
        Keeps-bind frame _ _ (read-Keeps S frame _)
          (λ result. pure-Keeps S frame (result, timed_out || later)))

  pub call_graph-Keeps :
      (symref : SymbolRef) (direction : Direction) (filter : Filter) (page : Page)
      (client : Client S Raw)
      → ((id : ℕ) → Writes E id direction)
      → Keeps R (call_graph engine symref direction filter page client)
  unfolding call_graph
  call_graph-Keeps symref direction filter page client h =
      Keeps-bind frame _ _ (resolve_anchor_id-Keeps symref client)
        (λ r. calls_of_anchor-Keeps symref direction filter page client r.0 r.1 h)

  pub rebuild_callees-Keeps :
      (anchor_id : ℕ) (anchor : Node) (hash : Option Str) (client : LspQueryClient S Raw)
      → Writes E anchor_id outgoing
      → Rebuilds R anchor_id
      → Keeps R (rebuild_callees engine anchor_id anchor hash client)
  unfolding rebuild_callees
  rebuild_callees-Keeps anchor_id anchor hash client h k =
      Keeps-then frame _ _ (Keeps-run frame _ (λ w. change-runs R _ w (k.drop w.db))) (
        Keeps-bind frame _ _
          (materialize_call_edges-Keeps engine client frame anchor_id anchor outgoing h)
          (λ timed_out.
            Keeps-then frame _ _ (set_hash-Keeps S frame anchor_id hash k)
              (pure-Keeps S frame timed_out)))

  unless_fresh-Keeps :
      (anchor_id : ℕ) (anchor : Node) (client : LspQueryClient S Raw) (fresh : Bool)
      → Writes E anchor_id outgoing
      → Rebuilds R anchor_id
      → Keeps R (unless_fresh engine anchor_id anchor client fresh)
  unless_fresh-Keeps anchor_id anchor client true h k = pure-Keeps S frame false
  unless_fresh-Keeps anchor_id anchor client false h k =
      rebuild_callees-Keeps anchor_id anchor (text_hash engine anchor) client h k

  refresh_callees-Keeps :
      (anchor_id : ℕ) (anchor : Node) (client : Client S Raw)
      → Writes E anchor_id outgoing
      → Rebuilds R anchor_id
      → Keeps R (refresh_callees engine anchor_id anchor client)
  refresh_callees-Keeps anchor_id anchor none h k = pure-Keeps S frame false
  refresh_callees-Keeps anchor_id anchor (some client) h k =
      Keeps-then frame _ _
        (opened-Keeps engine client frame anchor.uri (engine.read_file_text anchor.uri))
        (Keeps-bind frame _ _ (read-Keeps S frame _) (λ cached.
          unless_fresh-Keeps anchor_id anchor client (is_fresh cached (text_hash engine anchor)) h
            k))

  callees_of_anchor-Keeps :
      (symref : SymbolRef) (filter : Filter) (page : Page) (client : Client S Raw)
      (anchor : Option (ℕ × Node)) (timed_out : Bool)
      → ((id : ℕ) → Writes E id outgoing × Rebuilds R id)
      → Keeps R (callees_of_anchor engine symref filter page client anchor timed_out)
  callees_of_anchor-Keeps symref filter page client none timed_out h =
      unresolved_calls-Keeps S frame engine symref timed_out
  callees_of_anchor-Keeps symref filter page client (some (id, n)) timed_out h =
      Keeps-bind frame _ _ (refresh_callees-Keeps id n client (h id).0 (h id).1) (λ later.
        Keeps-bind frame _ _ (read-Keeps S frame _)
          (λ result. pure-Keeps S frame (result, timed_out || later)))

  pub find_callees-Keeps :
      (symref : SymbolRef) (filter : Filter) (page : Page) (client : Client S Raw)
      → ((id : ℕ) → Writes E id outgoing × Rebuilds R id)
      → Keeps R (find_callees engine symref filter page client)
  unfolding find_callees
  find_callees-Keeps symref filter page client h =
      Keeps-bind frame _ _ (resolve_anchor_id-Keeps symref client)
        (λ r. callees_of_anchor-Keeps symref filter page client r.0 r.1 h)
