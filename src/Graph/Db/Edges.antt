-- ===== src/Graph/Db/Edges.antt =====
-- src/graph/db.rs: the statements on `edges`, and the deletion of a node with what refers to it.
use mathlib.Core.Option
use semnav.Base.{
  ℕ, suc, int_eq, Bool, false, ◌&&◌, ◌||◌, not, Option, none, some, List, [], ◌∷◌, ◌++◌, Str, str,
  str_eq, ◌==◌, if◌then◌else◌, any, map, retain, find_first, opt_eq,
}
use semnav.Base.Sort.{sort_by}
use semnav.Graph.Model.{Node, Site, Edge}
use semnav.Graph.Db.State.{
  check_violation, foreign_key_violation, Result, ok, err, NodeRow, EdgeRow, Db, has_id, edge_types,
}
use semnav.Graph.Db.Nodes.{node_from_row, node_cmp}

pub data Direction : Type 0 where
  incoming outgoing : Direction

abbrev pub Neighbor : Type 0
Neighbor = Node × Option Site

-- `site_uri IS ? AND site_start_line IS ? AND site_start_col IS ?`
abbrev pub same_site : Site → Site → Bool
same_site a b =
    str_eq a.uri b.uri
    && (int_eq a.range.start_line b.range.start_line && int_eq a.range.start_col b.range.start_col)

-- The row that SELECT_EDGE_SQL finds.
unfoldable pub same_edge : Edge → EdgeRow → Bool
same_edge e r =
    r.src_id == e.src_id
    && (r.dst_id == e.dst_id && (str_eq r.edge_type e.edge_type && opt_eq same_site r.site e.site))

-- REACTIVATE_EDGE_SQL. The site of a matched row has the uri and the start of the new one, so only
-- its end changes.
abbrev pub reactivate : ℕ → Edge → List EdgeRow → List EdgeRow
reactivate id e = map (λ r. if r.id == id then record r { valid = e.valid; site = e.site } else r)

abbrev pub new_edge : ℕ → Edge → EdgeRow
new_edge id e = record {
  id = id;
  src_id = e.src_id;
  dst_id = e.dst_id;
  edge_type = e.edge_type;
  site = e.site;
  valid = e.valid;
}

-- INSERT_EDGE_SQL, with the CHECK on the type and both references.
unfoldable pub insert_edge : Edge → Db → Result (ℕ × Db)
unfolding has_id
insert_edge e db =
    if any (str_eq e.edge_type) edge_types
    then (if has_id e.src_id db.nodes && has_id e.dst_id db.nodes
        then ok (
          db.next_edge,
          record db {
            edges = db.edges ++ (new_edge db.next_edge e ∷ []);
            next_edge = suc db.next_edge;
          },
        )
        else err foreign_key_violation)
    else err check_violation

unfoldable pub upsert_edge : Edge → Db → Result (ℕ × Db)
unfolding same_edge insert_edge
upsert_edge e db = elim (find_first (same_edge e) db.edges) [
  | some r ↦ ok (r.id, record db { edges = reactivate r.id e db.edges })
  | none ↦ insert_edge e db
]

-- The node at the far end of an edge of `node_id`.
abbrev far_end : Direction → EdgeRow → ℕ
far_end incoming r = r.src_id
far_end outgoing r = r.dst_id

abbrev near_end : Direction → EdgeRow → ℕ
near_end incoming r = r.dst_id
near_end outgoing r = r.src_id

unfoldable pub join_edge : Direction → List NodeRow → EdgeRow → Option Neighbor
join_edge direction rows r =
    Option.bind (find_first (λ n. n.id == far_end direction r) rows)
      (λ n. if n.node.valid then some (node_from_row n, r.site) else none)

unfoldable pub join_edges : Direction → List NodeRow → List EdgeRow → List Neighbor
unfolding join_edge
join_edges direction rows [] = []
join_edges direction rows (r ∷ rs) = elim (join_edge direction rows r) [
  | none ↦ join_edges direction rows rs
  | some n ↦ n ∷ join_edges direction rows rs
]

-- The WHERE clause on the edge alone.
unfoldable pub selects : Direction → ℕ → Str → EdgeRow → Bool
selects direction node_id edge_type r =
    near_end direction r == node_id && (str_eq r.edge_type edge_type && r.valid)

unfoldable pub get_neighbors : ℕ → Str → Direction → Db → List Neighbor
unfolding join_edges selects sort_by
get_neighbors node_id edge_type direction db =
    sort_by (λ a b. node_cmp a.0 b.0)
      (join_edges direction db.nodes (retain (selects direction node_id edge_type) db.edges))

-- INVALIDATE_EDGES_SQL
unfoldable pub invalidate_edges : ℕ → Db → Db
invalidate_edges id db = record db {
  edges =
      map (λ r. if r.src_id == id || r.dst_id == id then record r { valid = false } else r)
        db.edges;
}

unfoldable pub invalidate_outgoing_calls : ℕ → Db → Db
invalidate_outgoing_calls anchor_id db = record db {
  edges =
      map
        (λ r.
          if r.src_id == anchor_id && str_eq r.edge_type (str "calls")
          then record r { valid = false }
          else r)
        db.edges;
}

abbrev cleared : ℕ → Option ℕ → Option ℕ
cleared id none = none
cleared id (some c) = if c == id then none else some c

abbrev pub clear_container : ℕ → NodeRow → NodeRow
clear_container id r = record r {
  node = record r.node { container_id = cleared id r.node.container_id };
}

-- DELETE_NODE_SQL with ON DELETE CASCADE on edges, callees_cache and materialized, and ON DELETE SET
-- NULL on container_id.
unfoldable pub delete_node : ℕ → Db → Db
delete_node id db = record db {
  nodes = map (clear_container id) (retain (λ r. not (r.id == id)) db.nodes);
  edges = retain (λ r. not (r.src_id == id || r.dst_id == id)) db.edges;
  callees_cache = retain (λ (anchor, hash). not (anchor == id)) db.callees_cache;
  materialized = retain (λ (anchor, edge_type). not (anchor == id)) db.materialized;
}
