-- ===== src/Query/CallPath/Callees.antt =====
-- src/query/ops.rs and src/query/resolver.rs: the callees that the search reads are the targets of
-- the stored calls.
use mathlib.Core.Option
use semnav.Base.{
  ℕ, ◌≡◌, refl, sym, ap, subst, ◌∙◌, Bool, true, false, ◌&&◌, Option-cases, inl, inr, Option, none,
  some, List, [], ◌∷◌, All, All-map_of, retain, any, find_first, str, ◌==◌, ==_iff, if◌then◌else◌,
}
use semnav.Base.Any.{
  and_true, and_both, All-retained, retain-All, All-passing, found-passes, any-All, All-sort_of,
}
use semnav.Query.Group.Nodes.{has_group, Stored, group_by_node-has, group_by_node-All}
use semnav.Base.Sort.{All-sort_by}
use semnav.Graph.Model.{Node}
use semnav.Graph.Db.State.{NodeRow, EdgeRow, Db}
use semnav.Graph.Db.Nodes.{node_from_row, node_cmp}
use semnav.Graph.Db.Edges.{outgoing, Neighbor, selects, join_edge, join_edges, get_neighbors}
use semnav.Graph.Db.Unique.{Unique}
use semnav.Query.Operations.{Group}
use semnav.Query.CallPath.Loop.{callees}

-- Whether the node with this id is there and valid.
abbrev pub is_valid : Option NodeRow → Bool
is_valid none = false
is_valid (some r) = r.node.valid

abbrev pub live : ℕ → Db → Bool
live v db = is_valid (find_first (λ n. n.id == v) db.nodes)

-- Whether a valid `calls` edge leads from `u` to the valid node `v`.
unfoldable pub calls : Db → ℕ → ℕ → Bool
calls db u v =
    any (λ r. selects outgoing u (str "calls") r && (r.dst_id == v)) db.edges && live v db

if_some :
    {A : Type 0} (b : Bool) (x : A) {y : A}
    → (if b then some x else none) ≡ some y
    → (b ≡ true) × (x ≡ y)
if_some true x e = (refl, cc)
if_some false x e = cc

some_if : {A : Type 0} (b : Bool) (x : A) → b ≡ true → (if b then some x else none) ≡ some x
some_if true x e = refl
some_if false x e = cc

bind_some :
    {A B : Type 0} (o : Option A) (f : A → Option B) {b : B}
    → Option.bind o f ≡ some b
    → (a : A) × (o ≡ some a) × (f a ≡ some b)
unfolding Option.bind
bind_some none f e = cc
bind_some (some a) f e = (a, refl, e)

abbrev joined_row : EdgeRow → NodeRow → Option Neighbor
joined_row r n = if n.node.valid then some (node_from_row n, r.site) else none

-- The join, row by row: outgoing edges to nodes that are there and valid.
module _ (rows : List NodeRow) where
  join_edges-All :
      (P : Neighbor → Type 0) (rs : List EdgeRow)
      → All (λ r. (n : Neighbor) → join_edge outgoing rows r ≡ some n → P n) rs
      → All P (join_edges outgoing rows rs)
  unfolding join_edges
  join_edges-All P [] h = tt
  join_edges-All P (r ∷ rs) h = elim (Option-cases (join_edge outgoing rows r)) [
    | inl e ↦ rw (join_edges, e) (join_edges-All P rs h.1)
    | inr (n, e) ↦ rw (join_edges, e) (h.0 n e, join_edges-All P rs h.1)
  ]

  join_edges-All_of :
      (P : Neighbor → Type 0) (rs : List EdgeRow)
      → All P (join_edges outgoing rows rs)
      → All (λ r. (n : Neighbor) → join_edge outgoing rows r ≡ some n → P n) rs
  unfolding join_edges
  join_edges-All_of P [] h = tt
  join_edges-All_of P (r ∷ rs) h = elim (Option-cases (join_edge outgoing rows r)) [
    | inl e ↦
        let k : All P (join_edges outgoing rows rs) = rw (join_edges, e) at h in
        (λ n t. let it : none ≡ some n = sym e ∙ t in cc, join_edges-All_of P rs k)
    | inr (m, e) ↦
        let k : P m × All P (join_edges outgoing rows rs) = rw (join_edges, e) at h in
        (
          λ n t.
              let it : some m ≡ some n = sym e ∙ t in let same : m ≡ n = cc it in rw (← same) k.0,
          join_edges-All_of P rs k.1,
        )
  ]

  -- The row that an edge is joined with.
  join_edge-of :
      (r : EdgeRow) (n : Neighbor)
      → join_edge outgoing rows r ≡ some n
      → (q : NodeRow) × (find_first (λ p. p.id == r.dst_id) rows ≡ some q)
        × (q.node.valid ≡ true)
        × (n.0 ≡ node_from_row q)
  unfolding join_edge
  join_edge-of r n e =
      let (q, t, l) = bind_some (find_first (λ p. p.id == r.dst_id) rows) _ e in
      let (valid, same) = if_some q.node.valid _ l in
      (q, t, valid, ap (λ (p : Neighbor). p.0) (sym same))

  join_edge-live :
      (r : EdgeRow) (q : NodeRow)
      → find_first (λ p. p.id == r.dst_id) rows ≡ some q
      → q.node.valid ≡ true
      → join_edge outgoing rows r ≡ some (node_from_row q, r.site)
  unfolding join_edge Option.bind
  join_edge-live r q e l = ap (λ o. Option.bind o (joined_row r)) e ∙ some_if q.node.valid _ l

All-every : {A : Type 0} {P : A → Type 0} → ((a : A) → P a) → (xs : List A) → All P xs
All-every h [] = tt
All-every h (x ∷ xs) = (h x, All-every h xs)

module _ (db : Db) (from : ℕ) where
  abbrev live_calls : List EdgeRow
  live_calls = retain (selects outgoing from (str "calls")) db.edges

  neighbors-Stored : All (λ n. Stored db n.0) (get_neighbors from (str "calls") outgoing db)
  unfolding get_neighbors
  neighbors-Stored =
      All-sort_by _ (λ n. Stored db n.0) _
        (join_edges-All db.nodes (λ n. Stored db n.0) live_calls
          (All-every
            (λ r n e. let (q, t, l, same) = join_edge-of db.nodes r n e in (r.dst_id, q, t, same))
            live_calls))

  pub live-row :
      (v : ℕ)
      → live v db ≡ true
      → (q : NodeRow) × (find_first (λ p. p.id == v) db.nodes ≡ some q)
        × (q.node.valid ≡ true)
        × (q.id ≡ v)
  live-row v l = elim (Option-cases (find_first (λ p. p.id == v) db.nodes)) [
    | inl t ↦ let it : false ≡ true = rw t at l in cc
    | inr (q, t) ↦ (q, t, rw t at l, (==_iff q.id v).0 (found-passes _ db.nodes t))
  ]

  -- In a database with unique keys, every stored call to a valid node is read.
  pub callees_complete :
      (v : ℕ) → Unique db → calls db from v ≡ true → has_group (some v) (callees from db) ≡ true
  unfolding callees calls get_neighbors
  callees_complete v u c =
      let (edges, valid) = and_true _ (live v db) c in
      let (q, found, l, id) = live-row v valid in
      let has =
        All-sort_of (λ n. has_group n.0.id groups ≡ true) (λ a b. node_cmp a.0 b.0) _
          (group_by_node-has db u (get_neighbors from (str "calls") outgoing db)
            neighbors-Stored) in
      let by_row =
        All-retained
          (λ r.
            (n : Neighbor)
            → join_edge outgoing db.nodes r ≡ some n
            → has_group n.0.id groups ≡ true)
          (selects outgoing from (str "calls")) db.edges
          (join_edges-All_of db.nodes (λ n. has_group n.0.id groups ≡ true) live_calls has) in
      let (r, passes, k) = any-All _ _ db.edges edges by_row in
      let (selected, target) = and_true _ (r.dst_id == v) passes in
      let dst = (==_iff r.dst_id v).0 target in
      let joins =
        join_edge-live db.nodes r q
          (subst (λ d. find_first (λ p. p.id == d) db.nodes ≡ some q) (sym dst) found) l in
      subst (λ d. has_group (some d) groups ≡ true) id (k selected (node_from_row q, r.site) joins)
    where
      groups : List Group
      groups = callees from db

  abbrev IsCallee : Node → Type 0
  IsCallee n = (v : ℕ) → n.id ≡ some v → calls db from v ≡ true

  row-IsCallee :
      (r : EdgeRow)
      → ((p : EdgeRow → Bool) → p r ≡ true → any p db.edges ≡ true)
      → selects outgoing from (str "calls") r ≡ true
      → (n : Neighbor) → join_edge outgoing db.nodes r ≡ some n
      → IsCallee n.0
  unfolding calls
  row-IsCallee r passing selected n e v is =
      let (q, found, valid, same) = join_edge-of db.nodes r n e in
      let id : q.id ≡ r.dst_id = (==_iff q.id r.dst_id).0 (found-passes _ db.nodes found) in
      let ids : some q.id ≡ some v = sym (ap (λ (z : Node). z.id) same) ∙ is in
      let dst : r.dst_id ≡ v = cc in
      and_both _ (live v db)
        (passing (λ e. selects outgoing from (str "calls") e && (e.dst_id == v))
          (and_both _ _ selected ((==_iff r.dst_id v).1 dst)))
        (ap is_valid (subst (λ d. find_first (λ p. p.id == d) db.nodes ≡ some q) dst found) ∙ valid)

  -- What is read is a stored call.
  pub callees_sound :
      All (λ g. (v : ℕ) → g.0.id ≡ some v → calls db from v ≡ true) (callees from db)
  unfolding callees get_neighbors
  callees_sound = group_by_node-All IsCallee _ (
      All-sort_by _ (λ n. IsCallee n.0) _
        (join_edges-All db.nodes (λ n. IsCallee n.0) live_calls
          (retain-All _ _ db.edges (All-map_of row-IsCallee db.edges (All-passing db.edges)))))
