-- ===== src/Query/Group.antt =====
-- src/query/resolver.rs: grouping of neighbor rows by node.
pub mod Nodes
use semnav.Base.{
  int_cmp, true, false, Option, none, some, List, [], ◌∷◌, ◌++◌, str_cmp, then_cmp, Ordering, is_eq,
}
use semnav.Base.Sort.{sort_by}
use semnav.Graph.Model.{Node, Site}
use semnav.Graph.Db.Nodes.{node_cmp}
use semnav.Graph.Db.Edges.{Neighbor}

-- `site_cmp`: no site comes first.
unfoldable pub site_cmp : Option Site → Option Site → Ordering
site_cmp none none = Ordering.eq
site_cmp none (some b) = Ordering.lt
site_cmp (some a) none = Ordering.gt
site_cmp (some a) (some b) = then_cmp (str_cmp a.uri b.uri) (
    then_cmp (int_cmp a.range.start_line b.range.start_line)
      (int_cmp a.range.start_col b.range.start_col))

unfoldable pub neighbor_cmp : Neighbor → Neighbor → Ordering
neighbor_cmp (n, s) (m, t) = then_cmp (node_cmp n m) (site_cmp s t)

abbrev pub site_list : Option Site → List Site
site_list none = []
site_list (some s) = s ∷ []

-- The loop over the sorted rows; `last` is the open group, `out.last_mut()`.
unfoldable pub group_from : Node → List Site → List Neighbor → List (Node × List Site)
group_from last sites [] = (last, sites) ∷ []
group_from last sites ((n, s) ∷ rest) = elim (is_eq (node_cmp last n)) [
  | true ↦ group_from last (sites ++ site_list s) rest
  | false ↦ (last, sites) ∷ group_from n (site_list s) rest
]

unfoldable pub group_sorted : List Neighbor → List (Node × List Site)
group_sorted [] = []
group_sorted ((n, s) ∷ rest) = group_from n (site_list s) rest

unfoldable pub group_by_node : List Neighbor → List (Node × List Site)
group_by_node neighbors = group_sorted (sort_by neighbor_cmp neighbors)
