-- ===== src/Query/Resolve/Keeps.antt =====
-- src/query/resolver.rs: what the making of edges keeps, statement by statement.
use semnav.Base.{
  ℕ, Bool, false, not, Bool-cases, Option-cases, inl, inr, Option, none, some, List, [], ◌∷◌, ◌++◌,
  Str, str, ◌||◌, str_eq,
}
use semnav.Indexer.Symbol.{LspRange}
use semnav.Graph.Model.{Site, Node, Edge}
use semnav.Graph.Db.State.{Db}
use semnav.Graph.Db.Edges.{Direction, incoming, outgoing}
use semnav.Query.Client.{
  Location, CallHierarchyItem, IncomingCall, OutgoingCall, LspQueryClient, or_empty,
}
use semnav.Query.Engine.{QueryEngine}
use semnav.Query.Engine.Keeps.{
  Keeps, Frame, Keeps-bind, Keeps-then, read-Keeps, pure-Keeps, ask-Keeps, try_db-Keeps,
}
use semnav.Query.Resolve.{
  located_edge, id_of, is_zero_range, opened, ensure_open, add_edge, add_reference, add_references,
  add_incoming_calls, add_implements, callee_targets, add_callee, first_indexed, definition_anchor,
  call_edges, first_item, or_callee, materialize_references, add_calls, caller_of, add_incoming,
  in_interface, concrete_ids, implementations_of, resolve_outgoing_callee, add_targets,
  add_outgoing, materialize_call_edges,
}

-- What the edges that are written have to satisfy: those of a kind, from or into a node.
abbrev pub References : (Edge → Type 0) → ℕ → Type 0
References E anchor_id =
    (src : ℕ) (site : Option Site) → E (located_edge src anchor_id (str "references") site)

abbrev pub CallsInto : (Edge → Type 0) → ℕ → Type 0
CallsInto E anchor_id =
    (src : ℕ) (site : Option Site) → E (located_edge src anchor_id (str "calls") site)

abbrev pub CallsFrom : (Edge → Type 0) → ℕ → Type 0
CallsFrom E anchor_id =
    (dst : ℕ) (site : Option Site) → E (located_edge anchor_id dst (str "calls") site)

abbrev pub Implements : (Edge → Type 0) → Type 0
Implements E = (src dst : ℕ) → E (located_edge src dst (str "implements") none)

-- What a direction writes.
abbrev pub Writes : (Edge → Type 0) → ℕ → Direction → Type 0
Writes E anchor_id incoming = CallsInto E anchor_id
Writes E anchor_id outgoing = CallsFrom E anchor_id × Implements E

module _ {S Raw : Type 0} (engine : QueryEngine) (client : LspQueryClient S Raw)
    {R : Db → Db → Type 0} {E : Edge → Type 0} (frame : Frame R E) where
  pub opened-Keeps : (uri : Str) (text : Option Str) → Keeps R (opened engine client uri text)
  opened-Keeps uri none = pure-Keeps S frame tt
  opened-Keeps uri (some text) =
      Keeps-bind frame _ _ (ask-Keeps S frame _) (λ r. pure-Keeps S frame tt)

  add_edge-Keeps : (e : Edge) → E e → Keeps {S = S} R (add_edge engine client e)
  add_edge-Keeps e h =
      Keeps-bind frame _ _ (try_db-Keeps S frame _ (frame.write e h)) (λ id. pure-Keeps S frame tt)

  add_calls-Keeps :
      (src dst : ℕ) (uri : Str) (rs : List LspRange)
      → ((site : Option Site) → E (located_edge src dst (str "calls") site))
      → Keeps R (add_calls engine client src dst uri rs)
  unfolding add_calls
  add_calls-Keeps src dst uri [] h = pure-Keeps S frame tt
  add_calls-Keeps src dst uri (r ∷ rs) h =
      Keeps-then frame _ _ (add_edge-Keeps _ (h _)) (add_calls-Keeps src dst uri rs h)

  add_reference-Keeps :
      (anchor_id : ℕ) (loc : Location) (container : Option ℕ)
      → References E anchor_id
      → Keeps {S = S} R (add_reference engine client anchor_id loc container)
  add_reference-Keeps anchor_id loc none h = pure-Keeps S frame tt
  add_reference-Keeps anchor_id loc (some container_id) h = add_edge-Keeps _ (h container_id _)

  add_references-Keeps :
      (anchor_id : ℕ) (locs : List Location)
      → References E anchor_id
      → Keeps {S = S} R (add_references engine client anchor_id locs)
  unfolding add_references
  add_references-Keeps anchor_id [] h = pure-Keeps S frame tt
  add_references-Keeps anchor_id (loc ∷ locs) h =
      Keeps-bind frame _ _ (read-Keeps S frame _) (λ container.
        Keeps-then frame _ _ (add_reference-Keeps anchor_id loc (id_of container) h)
          (add_references-Keeps anchor_id locs h))

  pub materialize_references-Keeps :
      (anchor_id : ℕ) (anchor : Node)
      → References E anchor_id
      → Keeps R (materialize_references engine client anchor_id anchor)
  unfolding materialize_references
  materialize_references-Keeps anchor_id anchor h =
      Keeps-bind frame _ _ (ask-Keeps S frame _) (λ reply.
        Keeps-then frame _ _ (add_references-Keeps anchor_id (or_empty reply).0 h)
          (pure-Keeps S frame (or_empty reply).1))

  caller_of-Keeps : (item : CallHierarchyItem Raw) → Keeps {S = S} R (caller_of engine client item)
  caller_of-Keeps item = elim (Bool-cases (is_zero_range item.selection_range)) [
    | inl e ↦ rw e (read-Keeps S frame _)
    | inr e ↦ rw e (read-Keeps S frame _)
  ]

  add_incoming_calls-Keeps :
      (anchor_id : ℕ) (call : IncomingCall Raw) (caller : Option ℕ)
      → CallsInto E anchor_id
      → Keeps {S = S} R (add_incoming_calls engine client anchor_id call caller)
  add_incoming_calls-Keeps anchor_id call none h = pure-Keeps S frame tt
  add_incoming_calls-Keeps anchor_id call (some caller_id) h =
      add_calls-Keeps caller_id anchor_id call.from.uri call.from_ranges (h caller_id)

  add_incoming-Keeps :
      (anchor_id : ℕ) (calls : List (IncomingCall Raw))
      → CallsInto E anchor_id
      → Keeps {S = S} R (add_incoming engine client anchor_id calls)
  unfolding add_incoming
  add_incoming-Keeps anchor_id [] h = pure-Keeps S frame tt
  add_incoming-Keeps anchor_id (call ∷ calls) h =
      Keeps-bind frame _ _ (caller_of-Keeps call.from) (λ caller.
        Keeps-then frame _ _ (add_incoming_calls-Keeps anchor_id call (id_of caller) h)
          (add_incoming-Keeps anchor_id calls h))

  in_interface-Keeps : (c : Option ℕ) → Keeps {S = S} R (in_interface engine client c)
  in_interface-Keeps none = pure-Keeps S frame false
  in_interface-Keeps (some id) =
      Keeps-bind frame _ _ (read-Keeps S frame _) (λ c. pure-Keeps S frame _)

  add_implements-Keeps :
      (callee_id : ℕ) (concrete : Option ℕ)
      → Implements E
      → Keeps {S = S} R (add_implements engine client callee_id concrete)
  add_implements-Keeps callee_id none h = pure-Keeps S frame []
  add_implements-Keeps callee_id (some id) h =
      Keeps-then frame _ _ (add_edge-Keeps _ (h callee_id id)) (pure-Keeps S frame (id ∷ []))

  concrete_ids-Keeps :
      (callee_id : ℕ) (locs : List Location)
      → Implements E
      → Keeps {S = S} R (concrete_ids engine client callee_id locs)
  unfolding concrete_ids
  concrete_ids-Keeps callee_id [] h = pure-Keeps S frame []
  concrete_ids-Keeps callee_id (loc ∷ locs) h =
      Keeps-bind frame _ _ (read-Keeps S frame _) (λ concrete.
        Keeps-bind frame _ _ (add_implements-Keeps callee_id (id_of concrete) h) (λ ids.
          Keeps-bind frame _ _ (concrete_ids-Keeps callee_id locs h)
            (λ rest. pure-Keeps S frame (ids ++ rest))))

  implementations_of-Keeps :
      (callee : Node) (callee_id : ℕ)
      → Implements E
      → Keeps R (implementations_of engine client callee callee_id)
  unfolding implementations_of ensure_open
  implementations_of-Keeps callee callee_id h =
      Keeps-then frame _ _ (opened-Keeps callee.uri (engine.read_file_text callee.uri)) (
        Keeps-bind frame _ _ (ask-Keeps S frame _) (λ reply.
          Keeps-bind frame _ _ (concrete_ids-Keeps callee_id (or_empty reply).0 h) (λ ids.
            pure-Keeps S frame (or_callee engine client callee_id ids, (or_empty reply).1))))

  resolve_outgoing_callee-Keeps :
      (anchor callee : Node) (callee_id : ℕ)
      → Implements E
      → Keeps R (resolve_outgoing_callee engine client anchor callee callee_id)
  unfolding resolve_outgoing_callee
  resolve_outgoing_callee-Keeps anchor callee callee_id h =
      elim (Bool-cases
        (not (str_eq anchor.language (str "typescript") || str_eq anchor.language (str "go")))) [
          | inl e ↦ rw e (pure-Keeps S frame (callee_id ∷ [], false))
          | inr e ↦ rw e (
              Keeps-bind frame _ _ (in_interface-Keeps callee.container_id) (λ is_interface.
                elim (Bool-cases is_interface) [
                  | inl t ↦ rw t (implementations_of-Keeps callee callee_id h)
                  | inr t ↦ rw t (pure-Keeps S frame (callee_id ∷ [], false))
                ]))
        ]

  add_targets-Keeps :
      (anchor_id : ℕ) (uri : Str) (rs : List LspRange) (targets : List ℕ)
      → CallsFrom E anchor_id
      → Keeps {S = S} R (add_targets engine client anchor_id uri rs targets)
  unfolding add_targets
  add_targets-Keeps anchor_id uri rs [] h = pure-Keeps S frame tt
  add_targets-Keeps anchor_id uri rs (id ∷ ids) h =
      Keeps-then frame _ _ (add_calls-Keeps anchor_id id uri rs (h id))
        (add_targets-Keeps anchor_id uri rs ids h)

  callee_targets-Keeps :
      (anchor_id : ℕ) (anchor callee : Node) (rs : List LspRange) (callee_id : Option ℕ)
      → CallsFrom E anchor_id
      → Implements E
      → Keeps R (callee_targets engine client anchor_id anchor callee rs callee_id)
  callee_targets-Keeps anchor_id anchor callee rs none h k = pure-Keeps S frame false
  callee_targets-Keeps anchor_id anchor callee rs (some callee_id) h k =
      Keeps-bind frame _ _ (resolve_outgoing_callee-Keeps anchor callee callee_id k) (λ r.
        Keeps-then frame _ _ (add_targets-Keeps anchor_id anchor.uri rs r.0 h)
          (pure-Keeps S frame r.1))

  add_callee-Keeps :
      (anchor_id : ℕ) (anchor : Node) (call : OutgoingCall Raw) (callee : Option Node)
      → CallsFrom E anchor_id
      → Implements E
      → Keeps R (add_callee engine client anchor_id anchor call callee)
  add_callee-Keeps anchor_id anchor call none h k = pure-Keeps S frame false
  add_callee-Keeps anchor_id anchor call (some callee) h k =
      callee_targets-Keeps anchor_id anchor callee call.from_ranges callee.id h k

  add_outgoing-Keeps :
      (anchor_id : ℕ) (anchor : Node) (calls : List (OutgoingCall Raw))
      → CallsFrom E anchor_id
      → Implements E
      → Keeps R (add_outgoing engine client anchor_id anchor calls)
  unfolding add_outgoing
  add_outgoing-Keeps anchor_id anchor [] h k = pure-Keeps S frame false
  add_outgoing-Keeps anchor_id anchor (call ∷ calls) h k =
      Keeps-bind frame _ _ (read-Keeps S frame _) (λ callee.
        Keeps-bind frame _ _ (add_callee-Keeps anchor_id anchor call callee h k) (λ timed_out.
          Keeps-bind frame _ _ (add_outgoing-Keeps anchor_id anchor calls h k)
            (λ later. pure-Keeps S frame (timed_out || later))))

  call_edges-Keeps :
      (anchor_id : ℕ) (anchor : Node) (item : CallHierarchyItem Raw) (direction : Direction)
      → Writes E anchor_id direction
      → Keeps R (call_edges engine client anchor_id anchor item direction)
  call_edges-Keeps anchor_id anchor item incoming h =
      Keeps-bind frame _ _ (ask-Keeps S frame _) (λ reply.
        Keeps-then frame _ _ (add_incoming-Keeps anchor_id (or_empty reply).0 h)
          (pure-Keeps S frame (or_empty reply).1))
  call_edges-Keeps anchor_id anchor item outgoing h =
      Keeps-bind frame _ _ (ask-Keeps S frame _) (λ reply.
        Keeps-bind frame _ _ (add_outgoing-Keeps anchor_id anchor (or_empty reply).0 h.0 h.1)
          (λ later. pure-Keeps S frame ((or_empty reply).1 || later)))

  first_item-Keeps :
      (anchor_id : ℕ) (anchor : Node) (direction : Direction) (items : List (CallHierarchyItem Raw))
      (timed_out : Bool)
      → Writes E anchor_id direction
      → Keeps R (first_item engine client anchor_id anchor direction items timed_out)
  first_item-Keeps anchor_id anchor direction [] timed_out h = pure-Keeps S frame timed_out
  first_item-Keeps anchor_id anchor direction (item ∷ items) timed_out h =
      call_edges-Keeps anchor_id anchor item direction h

  pub materialize_call_edges-Keeps :
      (anchor_id : ℕ) (anchor : Node) (direction : Direction)
      → Writes E anchor_id direction
      → Keeps R (materialize_call_edges engine client anchor_id anchor direction)
  unfolding materialize_call_edges
  materialize_call_edges-Keeps anchor_id anchor direction h =
      Keeps-bind frame _ _ (ask-Keeps S frame _) (λ reply.
        first_item-Keeps anchor_id anchor direction (or_empty reply).0 (or_empty reply).1 h)

  first_indexed-Keeps : (locs : List Location) → Keeps {S = S} R (first_indexed engine client locs)
  unfolding first_indexed
  first_indexed-Keeps [] = pure-Keeps S frame none
  first_indexed-Keeps (loc ∷ locs) = Keeps-bind frame _ _ (read-Keeps S frame _) (λ found.
      elim (Option-cases found) [
        | inl e ↦ rw e (first_indexed-Keeps locs)
        | inr (n, e) ↦ rw e (pure-Keeps S frame (some n))
      ])

  pub definition_anchor-Keeps :
      (uri : Str) (line character : ℕ)
      → Keeps R (definition_anchor engine client uri line character)
  unfolding definition_anchor
  definition_anchor-Keeps uri line character = Keeps-bind frame _ _ (ask-Keeps S frame _) (λ reply.
      Keeps-bind frame _ _ (first_indexed-Keeps (or_empty reply).0) (λ found.
        elim (Option-cases found) [
          | inl e ↦ rw e (
              Keeps-bind frame _ _ (read-Keeps S frame _)
                (λ n. pure-Keeps S frame (n, (or_empty reply).1)))
          | inr (n, e) ↦ rw e (pure-Keeps S frame (some n, (or_empty reply).1))
        ]))
