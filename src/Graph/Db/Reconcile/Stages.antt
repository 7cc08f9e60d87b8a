-- ===== src/Graph/Db/Reconcile/Stages.antt =====
-- src/graph/db.rs: the databases that a successful `reconcile_file_symbols_tx` goes through.
use semnav.Base.{ℕ, ◌≡◌, refl, Bool, Option, none, List, Str, length, replicate}
use semnav.Graph.Model.{Node, ReconcileSymbol, ReconcileOutcome, default_outcome}
use semnav.Graph.Db.State.{ok, >>=-eq-ok, Db}
use semnav.Graph.Db.Nodes.{nodes_by_uri}
use semnav.Graph.Db.Meta.{drop_callees_cache}
use semnav.Graph.Db.Reconcile.Matching.{BodyFingerprinted}
use semnav.Graph.Db.Reconcile.Apply.{park, apply_symbols, reclaim, link_contains}
use semnav.Graph.Db.Reconcile.{assign, reconcile_file_symbols_tx}

pub nodes_by_uri-drop :
    (uri : Str) (db : Db) → nodes_by_uri uri (drop_callees_cache uri db) ≡ nodes_by_uri uri db
unfolding nodes_by_uri drop_callees_cache
nodes_by_uri-drop uri db = refl

module _ (hash : BodyFingerprinted → ℕ) (uri language : Str) (is_external : Bool)
    (symbols : List ReconcileSymbol) (db db' : Db) (o : ReconcileOutcome) where
  pub record Stages : Type 0 where
    pub olds : List Node
    pub olds_are : olds ≡ nodes_by_uri uri db
    pub ids : List (Option ℕ)
    pub applied : ReconcileOutcome
    pub applied_db : Db
    pub reclaimed_db : Db
    pub parked_db : Db
    pub parks : park uri (drop_callees_cache uri db) ≡ ok parked_db
    pub applies :
        apply_symbols uri language is_external olds symbols
          (assign hash olds symbols).0
          0
          (replicate (length symbols) none)
          default_outcome
          parked_db
        ≡ ok (ids, applied, applied_db)
    pub reclaims :
        reclaim olds (assign hash olds symbols).1 applied applied_db ≡ ok (o, reclaimed_db)
    pub links : link_contains ids symbols 0 reclaimed_db ≡ ok db'

  pub reconcile-Stages :
      reconcile_file_symbols_tx hash uri language is_external symbols db ≡ ok (o, db') → Stages
  unfolding reconcile_file_symbols_tx
  reconcile-Stages h =
      let olds = nodes_by_uri uri (drop_callees_cache uri db) in
      let (d, e₀, k₀) = >>=-eq-ok (park uri (drop_callees_cache uri db)) _ h in
      let (a, e, k) =
        >>=-eq-ok
          (apply_symbols uri language is_external olds symbols (assign hash olds symbols).0 0
            (replicate (length symbols) none) default_outcome d)
          _ k₀ in
      let (b, e', k') = >>=-eq-ok (reclaim olds (assign hash olds symbols).1 a.1 a.2) _ k in
      let (c, e″, k″) = >>=-eq-ok (link_contains a.0 symbols 0 b.1) _ k' in
      record {
        olds = olds;
        olds_are = nodes_by_uri-drop uri db;
        ids = a.0;
        applied = a.1;
        applied_db = a.2;
        reclaimed_db = b.1;
        parked_db = d;
        parks = e₀;
        applies = e;
        reclaims = cc;
        links = cc;
      }
