-- ===== src/Query/Operations/Cache.antt =====
-- src/query/ops.rs: the content-hash cache of `find_callees`.
use mathlib.Core.Option
use semnav.Base.{
  ℕ, ◌≡◌, refl, sym, ap, subst, ◌∙◌, Bool, true, false, Bool-cases, inl, inr, Option, none, some,
  Str, str_eq, str_eq_refl, str_eq_iff, ◌==◌, ==_iff, get-put_self, find_first,
}
use semnav.Graph.Model.{Node}
use semnav.Graph.Db.State.{ok, Db, has_id}
use semnav.Graph.Db.Nodes.{node_from_row, get_node_by_fqn}
use semnav.Graph.Db.Edges.{outgoing}
use semnav.Graph.Db.Meta.{get_callees_cache_hash, set_callees_cache_hash}
use semnav.Graph.Db.EdgeKeys.{EdgeKeys}
use semnav.Query.Filter.{fqn_ref, Filter, Page}
use semnav.Query.Client.{LspQueryClient}
use semnav.Query.Engine.{QueryEngine, World, Op, ◌>>=◌, ◌>>◌, pure, read_db, try_db, ask}
use semnav.Query.Engine.Keeps.{Keeps-ran}
use semnav.Query.Engine.Post.{Post, Post-bind, Post-then, Post-any, pure-Post, read-Post, >>=-runs}
use semnav.Query.Operations.{
  CallGraphResult, with_id, is_fresh, text_hash, set_hash, resolve_anchor_id, rebuild_callees,
  unless_fresh, refresh_callees, read_calls_page, find_callees,
}
use semnav.Query.Operations.Keeps.{find_callees-Keeps}
use semnav.Query.Operations.Frames.{
  OnlyEdges, KeepsNodes, edges_frame, edges-Rebuilds, edges-Writes,
}

same_node :
    (fqn : Str) (db db' : Db)
    → db'.nodes ≡ db.nodes
    → with_id (get_node_by_fqn fqn db') ≡ with_id (get_node_by_fqn fqn db)
unfolding get_node_by_fqn
same_node fqn db db' e =
    ap (λ rows. with_id (Option.map node_from_row (find_first (λ r. str_eq r.node.fqn fqn) rows))) e

-- The hash of a node's callees is in the cache.
abbrev pub Cached : ℕ → Str → Db → Type 0
Cached id hash db = get_callees_cache_hash id db ≡ some hash

module _ {S : Type 0} where
  pub stored-Cached :
      (id : ℕ) (hash : Str) (w : World S) → Post (λ t. Cached id hash) (set_hash id (some hash) w)
  unfolding try_db set_callees_cache_hash get_callees_cache_hash
  stored-Cached id hash w = elim (Bool-cases (has_id id w.db.nodes)) [
    | inl e ↦
        rw (try_db, set_callees_cache_hash, e)
          (get-put_self ◌==◌ id hash w.db.callees_cache ((==_iff id id).1 refl))
    | inr e ↦ rw (try_db, set_callees_cache_hash, e) tt
  ]

module _ {S Raw : Type 0} (engine : QueryEngine) (client : LspQueryClient S Raw) where
  rebuild-Cached :
      (id : ℕ) (anchor : Node) (hash : Str) (w : World S)
      → Post (λ t. Cached id hash) (rebuild_callees engine id anchor (some hash) client w)
  unfolding rebuild_callees
  rebuild-Cached id anchor hash w =
      Post-then (λ db. Unit) _ _ _ w (Post-any _)
        (λ w1 h1.
          Post-bind (λ t db. Unit) _ _ _ w1 (Post-any _)
            (λ timed_out w2 h2.
              Post-then (Cached id hash) _ _ _ w2 (stored-Cached id hash w2)
                (λ w3 h3. pure-Post (λ t. Cached id hash) timed_out w3 h3)))

  fresh-hash :
      (cached : Option Str) (hash : Str) → is_fresh cached (some hash) ≡ true → cached ≡ some hash
  fresh-hash none hash e = cc
  fresh-hash (some h) hash e = ap some ((str_eq_iff h hash).0 e)

  unless-Cached :
      (id : ℕ) (anchor : Node) (hash : Str) (cached : Option Str) (fresh : Bool) (w : World S)
      → text_hash engine anchor ≡ some hash
      → fresh ≡ is_fresh cached (text_hash engine anchor)
      → get_callees_cache_hash id w.db ≡ cached
      → Post (λ t. Cached id hash) (unless_fresh engine id anchor client fresh w)
  unless-Cached id anchor hash cached true w h e is =
      let fresh : is_fresh cached (some hash) ≡ true = sym (e ∙ ap (is_fresh cached) h) in
      pure-Post (λ t. Cached id hash) false w (is ∙ fresh-hash cached hash fresh)
  unless-Cached id anchor hash cached false w h e is =
      subst (λ o. Post (λ t. Cached id hash) (rebuild_callees engine id anchor o client w)) (sym h)
        (rebuild-Cached id anchor hash w)

  refresh-Cached :
      (id : ℕ) (anchor : Node) (hash : Str) (w : World S)
      → text_hash engine anchor ≡ some hash
      → Post (λ t. Cached id hash) (refresh_callees engine id anchor (some client) w)
  refresh-Cached id anchor hash w h =
      Post-then (λ db. Unit) _ _ _ w (Post-any _)
        (λ w1 h1.
          Post-bind (λ c db. c ≡ get_callees_cache_hash id db) _ _ _ w1 (read-Post _ _ w1 refl)
            (λ cached w2 is. unless-Cached id anchor hash cached _ w2 h refl (sym is)))

  -- A name that resolves is looked up without the server.
  resolve-runs :
      (fqn : Str) (id : ℕ) (anchor : Node) (w : World S)
      → with_id (get_node_by_fqn fqn w.db) ≡ some (id, anchor)
      → resolve_anchor_id engine (fqn_ref fqn) (some client) w ≡ (ok (some (id, anchor), false), w)
  unfolding resolve_anchor_id ◌>>=◌ pure read_db
  resolve-runs fqn id anchor w e = ap (λ o. (ok (o, false), w)) e

  find_callees-Cached :
      (fqn : Str) (id : ℕ) (anchor : Node) (hash : Str) (filter : Filter) (page : Page)
      (w : World S)
      → with_id (get_node_by_fqn fqn w.db) ≡ some (id, anchor)
      → text_hash engine anchor ≡ some hash
      → Post (λ r. Cached id hash) (find_callees engine (fqn_ref fqn) filter page (some client) w)
  unfolding find_callees
  find_callees-Cached fqn id anchor hash filter page w e h =
      rw (>>=-runs _ _ w w _ (resolve-runs fqn id anchor w e)) (
        Post-bind (λ t. Cached id hash) _ _ _ w (refresh-Cached id anchor hash w h)
          (λ later w1 c.
            Post-bind (λ r. Cached id hash) _ _ _ w1 (read-Post _ _ w1 c)
              (λ result w2 d. pure-Post (λ r. Cached id hash) _ w2 d)))

  -- The world after the document was opened.
  abbrev reopened : Node → Str → World S → World S
  reopened anchor text w = record w { client = (client.open_document anchor.uri text w.client).1 }

  hit-runs :
      (id : ℕ) (anchor : Node) (text : Str) (w : World S)
      → engine.read_file_text anchor.uri ≡ some text
      → Cached id (engine.content_hash text) w.db
      → refresh_callees engine id anchor (some client) w ≡ (ok false, reopened anchor text w)
  unfolding ◌>>=◌ ◌>>◌ pure read_db ask
  hit-runs id anchor text w r c = rw (r, c, str_eq_refl (engine.content_hash text)) refl

  abbrev page_step : ℕ → Filter → Page → Op S (CallGraphResult × Bool)
  page_step id filter page = do
    result ← read_db (read_calls_page id outgoing filter page)
    pure (result, false)

  page-runs :
      (id : ℕ) (filter : Filter) (page : Page) (w : World S)
      → page_step id filter page w ≡ (ok (read_calls_page id outgoing filter page w.db, false), w)
  unfolding ◌>>=◌ pure read_db
  page-runs id filter page w = refl

  hit-find_callees :
      (fqn : Str) (id : ℕ) (anchor : Node) (text : Str) (filter : Filter) (page : Page)
      (w : World S)
      → with_id (get_node_by_fqn fqn w.db) ≡ some (id, anchor)
      → engine.read_file_text anchor.uri ≡ some text
      → Cached id (engine.content_hash text) w.db
      → find_callees engine (fqn_ref fqn) filter page (some client) w
        ≡ (ok (read_calls_page id outgoing filter page w.db, false), reopened anchor text w)
  unfolding find_callees
  hit-find_callees fqn id anchor text filter page w e r c =
      >>=-runs _ _ w w _ (resolve-runs fqn id anchor w e)
      ∙ (>>=-runs _ _ w (reopened anchor text w) _ (hit-runs id anchor text w r c)
          ∙ page-runs id filter page (reopened anchor text w))

  -- After a query for the callees of a name has succeeded, the same query again, for any filter and
  -- page, while the text of the file is the same, asks the server for nothing but to open the
  -- document: it answers from the database that the first one left, and leaves it as it is.
  pub find_callees_again :
      (fqn : Str) (id : ℕ) (anchor : Node) (text : Str) (filter filter' : Filter)
      (page page' : Page) (w w' : World S) (result : CallGraphResult × Bool)
      → EdgeKeys w.db
      → with_id (get_node_by_fqn fqn w.db) ≡ some (id, anchor)
      → engine.read_file_text anchor.uri ≡ some text
      → find_callees engine (fqn_ref fqn) filter page (some client) w ≡ (ok result, w')
      → find_callees engine (fqn_ref fqn) filter' page' (some client) w' ≡ (
        ok (read_calls_page id outgoing filter' page' w'.db, false),
        record w' { client = (client.open_document anchor.uri text w'.client).1 },
      )
  find_callees_again fqn id anchor text filter filter' page page' w w' result k e r run =
      let kept : KeepsNodes w.db w'.db =
        Keeps-ran OnlyEdges (find_callees engine (fqn_ref fqn) filter page (some client)) w w' _
          (find_callees-Keeps engine edges_frame (fqn_ref fqn) filter page (some client)
            (λ v. (edges-Writes v outgoing, edges-Rebuilds v)))
          run k in
      let cached : Cached id (engine.content_hash text) w'.db =
        subst (Post (λ x. Cached id (engine.content_hash text))) run (
          find_callees-Cached fqn id anchor (engine.content_hash text) filter page w e
            (ap (Option.map engine.content_hash) r)) in
      hit-find_callees fqn id anchor text filter' page' w' (same_node fqn w.db w'.db kept.nodes ∙ e)
        r cached
