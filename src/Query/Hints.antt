-- ===== src/Query/Hints.antt =====
-- src/query/ops.rs: full names suggested when a name resolves to no node.
use semnav.Base.{
  ℕ, Bool, false, ◌&&◌, not, none, List, [], ◌∷◌, Str, str_eq, str_cmp, map, retain, take,
  if◌then◌else◌,
}
use semnav.Base.Sort.{sort_by}
use semnav.Indexer.Symbol.{last_segment}
use semnav.Graph.Model.{Node}
use semnav.Graph.Db.State.{Db}
use semnav.Graph.Db.Nodes.{list_nodes}
use semnav.Query.Filter.{MatchMode, segment, fuzzy, matches, SymbolRef, fqn_ref, at}

abbrev pub fqn_hint_limit : ℕ
fqn_hint_limit = 10

-- `Vec::dedup`: of equal neighbors only the first stays; `last` is the one before.
unfoldable pub dedup_from : Str → List Str → List Str
dedup_from last [] = []
dedup_from last (s ∷ ss) =
    let keep = dedup_from s ss in if str_eq last s then dedup_from last ss else s ∷ keep

unfoldable pub dedup : List Str → List Str
unfolding dedup_from
dedup [] = []
dedup (s ∷ ss) = s ∷ dedup_from s ss

module _ (similar : Str → Str → Bool) where
  abbrev hint_matches : MatchMode → Str → Node → Bool
  hint_matches mode leaf n = not n.is_external && matches similar mode leaf false n.fqn

  -- The fuzzy pass, when the first one found nothing.
  abbrev or_fuzzy : Str → List Node → List Node → List Node
  or_fuzzy leaf nodes [] = retain (hint_matches fuzzy leaf) nodes
  or_fuzzy leaf nodes (n ∷ ns) = n ∷ ns

  unfoldable pub hint_fqns_for : Str → Db → List Str
  unfolding dedup sort_by
  hint_fqns_for fqn db =
      let leaf = last_segment fqn in
      let nodes = list_nodes none db in
      let matched = or_fuzzy leaf nodes (retain (hint_matches segment leaf) nodes) in
      take fqn_hint_limit (dedup (sort_by str_cmp (map (λ n. n.fqn) matched)))

  unfoldable pub hint_fqns_for_symref : SymbolRef → Db → List Str
  unfolding hint_fqns_for
  hint_fqns_for_symref (fqn_ref fqn) db = hint_fqns_for fqn db
  hint_fqns_for_symref (at uri line character) db = []
