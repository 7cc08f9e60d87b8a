-- ===== src/Query/Operations/Failed.antt =====
-- src/query/ops.rs: what a failed request for outgoing calls leaves in the database.
use semnav.Base.{
  ℕ, ◌≡◌, refl, subst, Bool, true, false, ◌&&◌, Bool-cases, inl, inr, some, List, [], ◌∷◌, Str, str,
  str_eq, ◌==◌, retain, map, if◌then◌else◌,
}
use semnav.Graph.Model.{Node}
use semnav.Graph.Db.State.{ok, EdgeRow, Db, has_id}
use semnav.Graph.Db.Edges.{outgoing, selects, invalidate_outgoing_calls}
use semnav.Graph.Db.Meta.{set_callees_cache_hash}
use semnav.Graph.Db.EdgeKeys.{calls_of}
use semnav.Query.Client.{LspReply, failed, LspQueryClient, CallHierarchyItem}
use semnav.Query.Engine.{QueryEngine, World, ◌>>=◌, pure, try_db, change_db, ask, as_u32}
use semnav.Query.Engine.Post.{Post, Post-then, >>=-runs, >>-runs, pure-Post}
use semnav.Query.Resolve.{materialize_call_edges}
use semnav.Query.Operations.{set_hash, rebuild_callees}
use semnav.Query.Operations.Cache.{Cached, stored-Cached}

and_invalid : (a b : Bool) → (a && (b && false)) ≡ false
and_invalid true true = refl
and_invalid true false = refl
and_invalid false b = refl

and_other : (a b c : Bool) → (a && b) ≡ false → (a && (b && c)) ≡ false
and_other true true c h = cc
and_other true false c h = refl
and_other false b c h = refl

retain-none :
    (p : EdgeRow → Bool) (f : EdgeRow → EdgeRow) (rows : List EdgeRow)
    → ((r : EdgeRow) → p (f r) ≡ false)
    → retain p (map f rows) ≡ []
retain-none p f [] h = refl
retain-none p f (r ∷ rows) h = rw (h r) (retain-none p f rows h)

dropped_row :
    (id : ℕ) (r : EdgeRow)
    → selects outgoing id (str "calls") (
        if r.src_id == id && str_eq r.edge_type (str "calls")
        then record r { valid = false }
        else r)
      ≡ false
unfolding selects
dropped_row id r = elim (Bool-cases (r.src_id == id && str_eq r.edge_type (str "calls"))) [
  | inl e ↦ rw e (and_invalid (r.src_id == id) (str_eq r.edge_type (str "calls")))
  | inr e ↦ rw e (and_other (r.src_id == id) (str_eq r.edge_type (str "calls")) r.valid e)
]

-- No call of the node counts.
abbrev pub NoCalls : ℕ → Db → Type 0
NoCalls id db = calls_of id db ≡ []

invalidate-NoCalls : (id : ℕ) (db : Db) → NoCalls id (invalidate_outgoing_calls id db)
unfolding invalidate_outgoing_calls
invalidate-NoCalls id db = retain-none _ _ db.edges (dropped_row id)

module _ {S : Type 0} where
  dropped-runs :
      (id : ℕ) (w : World S)
      → change_db (invalidate_outgoing_calls id) w
        ≡ (ok tt, record w { db = invalidate_outgoing_calls id w.db })
  unfolding change_db
  dropped-runs id w = refl

  mark-NoCalls :
      (id : ℕ) (hash : Str) (w : World S)
      → NoCalls id w.db
      → Post (λ t db. NoCalls id db × Cached id hash db) (set_hash id (some hash) w)
  unfolding try_db set_callees_cache_hash
  mark-NoCalls id hash w h = elim (Bool-cases (has_id id w.db.nodes)) [
    | inl e ↦
        rw (try_db, set_callees_cache_hash, e)
          (h, (let c = stored-Cached id hash w in rw (try_db, set_callees_cache_hash, e) at c))
    | inr e ↦ rw (try_db, set_callees_cache_hash, e) tt
  ]

module _ {S Raw : Type 0} (engine : QueryEngine) (client : LspQueryClient S Raw) where
  -- What the server answers to the request for the item of a node.
  abbrev pub prepared : Node → S → LspReply (List (CallHierarchyItem Raw)) × S
  prepared anchor =
      client.prepare_call_hierarchy anchor.uri (as_u32 anchor.sel.start_line)
        (as_u32 anchor.sel.start_col)

  failed-runs :
      (id : ℕ) (anchor : Node) (t : Bool) (w : World S)
      → (prepared anchor w.client).0 ≡ failed t
      → materialize_call_edges engine client id anchor outgoing w
        ≡ (ok t, record w { client = (prepared anchor w.client).1 })
  unfolding materialize_call_edges ◌>>=◌ ask pure
  failed-runs id anchor t w e = rw e refl

  rebuild-NoCalls :
      (id : ℕ) (anchor : Node) (hash : Str) (t : Bool) (w : World S)
      → (prepared anchor w.client).0 ≡ failed t
      → Post
          (λ timed_out db. NoCalls id db × Cached id hash db)
          (rebuild_callees engine id anchor (some hash) client w)
  unfolding rebuild_callees
  rebuild-NoCalls id anchor hash t w e =
      let w1 : World S = record w { db = invalidate_outgoing_calls id w.db } in
      let w2 : World S = record w1 { client = (prepared anchor w.client).1 } in
      rw (>>-runs _ _ w w1 (dropped-runs id w), >>=-runs _ _ w1 w2 t (failed-runs id anchor t w1 e))
        (Post-then (λ db. NoCalls id db × Cached id hash db) _ _ _ w2
          (mark-NoCalls id hash w2 (invalidate-NoCalls id w.db))
          (λ w3 h. pure-Post (λ timed_out db. NoCalls id db × Cached id hash db) t w3 h))

  -- If the server fails to answer the request that prepares the outgoing calls of a node, by a
  -- timeout or another error, and no statement fails, then the node is left without any valid call,
  -- and is marked in the cache as up to date with the text of its file.
  pub rebuild_callees_failed :
      (id : ℕ) (anchor : Node) (hash : Str) (t timed_out : Bool) (w w' : World S)
      → (prepared anchor w.client).0 ≡ failed t
      → rebuild_callees engine id anchor (some hash) client w ≡ (ok timed_out, w')
      → NoCalls id w'.db × Cached id hash w'.db
  rebuild_callees_failed id anchor hash t timed_out w w' e run =
      subst (Post (λ b db. NoCalls id db × Cached id hash db)) run
        (rebuild-NoCalls id anchor hash t w e)
