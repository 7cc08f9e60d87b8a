-- ===== src/Graph/Db/Meta.antt =====
-- src/graph/db.rs: index_meta, callees_cache and materialized.
use semnav.Base.{
  ℕ, Bool, ◌&&◌, not, Option, [], ◌∷◌, ◌++◌, Str, str_eq, ◌==◌, if◌then◌else◌, any, retain, put,
  get,
}
use semnav.Graph.Db.State.{foreign_key_violation, Result, ok, err, Db, has_id}

-- A row is put or replaced; no constraint of the schema can fail.
unfoldable pub set_meta : Str → Str → Db → Db
unfolding put
set_meta key value db = record db { index_meta = put str_eq key value db.index_meta }

unfoldable pub get_meta : Str → Db → Option Str
unfolding get
get_meta key db = get str_eq key db.index_meta

unfoldable pub get_callees_cache_hash : ℕ → Db → Option Str
unfolding get
get_callees_cache_hash anchor_id db = get ◌==◌ anchor_id db.callees_cache

unfoldable pub set_callees_cache_hash : ℕ → Str → Db → Result Db
unfolding put has_id
set_callees_cache_hash anchor_id content_hash db =
    if has_id anchor_id db.nodes
    then ok (record db { callees_cache = put ◌==◌ anchor_id content_hash db.callees_cache })
    else err foreign_key_violation

abbrev same_mark : ℕ → Str → ℕ × Str → Bool
same_mark anchor_id edge_type (a, t) = a == anchor_id && str_eq t edge_type

unfoldable pub is_materialized : ℕ → Str → Db → Bool
is_materialized anchor_id edge_type db = any (same_mark anchor_id edge_type) db.materialized

-- INSERT OR IGNORE: an existing row stays; a missing anchor is still an error.
unfoldable pub mark_materialized : ℕ → Str → Db → Result Db
unfolding is_materialized has_id
mark_materialized anchor_id edge_type db =
    if is_materialized anchor_id edge_type db
    then ok db
    else if has_id anchor_id db.nodes
    then ok (record db { materialized = db.materialized ++ ((anchor_id, edge_type) ∷ []) })
    else err foreign_key_violation

-- The callees cache of a file's nodes, dropped at the start of each reconcile.
unfoldable pub drop_callees_cache : Str → Db → Db
drop_callees_cache uri db = record db {
  callees_cache =
      retain (λ (anchor, hash). not (any (λ r. r.id == anchor && str_eq r.node.uri uri) db.nodes))
        db.callees_cache;
}
