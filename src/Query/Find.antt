-- ===== src/Query/Find.antt =====
-- src/query/ops.rs: `find_symbol`. A cursor is the sort key that it encodes.
pub mod Complete
use semnav.Base.{ℕ, Bool, ◌&&◌, Option, List, [], Str, map, retain, if◌then◌else◌}
use semnav.Graph.Model.{Node}
use semnav.Graph.Db.State.{Db}
use semnav.Graph.Db.Nodes.{list_nodes}
use semnav.Query.Dto.{NodeDto, from_node}
use semnav.Query.Filter.{MatchMode, matches, Filter, filter_matches, SortKey, key_of_node, Page}
use semnav.Query.Page.{paginate}

pub record FindSymbolResult : Type 0 where
  pub nodes : List NodeDto
  pub fqns : List Str
  pub next_cursor : Option SortKey

module _ (similar : Str → Str → Bool) where
  -- The nodes that are left to paginate.
  unfoldable pub found_nodes : Str → MatchMode → Bool → Filter → Db → List Node
  unfolding matches filter_matches list_nodes
  found_nodes pattern mode ignore_case filter db =
      retain (λ n. matches similar mode pattern ignore_case n.fqn && filter_matches filter n)
        (list_nodes filter.language db)

  abbrev pub page_result : Bool → List Node × Option SortKey → FindSymbolResult
  page_result brief (items, next) =
      if brief
      then record { nodes = []; fqns = map (λ n. n.fqn) items; next_cursor = next }
      else record { nodes = map from_node items; fqns = []; next_cursor = next }

  unfoldable pub find_symbol : Str → MatchMode → Bool → Bool → Filter → Page → Db → FindSymbolResult
  unfolding found_nodes paginate from_node
  find_symbol pattern mode ignore_case brief filter page db =
      page_result brief (paginate key_of_node (found_nodes pattern mode ignore_case filter db) page)
