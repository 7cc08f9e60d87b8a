-- ===== src/Query/Group/Nodes.antt =====
-- src/query/resolver.rs: the groups of a list of rows hold the nodes of its rows, and no others.
use semnav.Base.{
  ℕ, ◌≡◌, ◌≢◌, refl, sym, ap, subst, ◌∙◌, Bool, true, false, Bool-cases, inl, inr, Option, none,
  some, List, [], ◌∷◌, ◌++◌, All, All-map_of, any, find_first, opt_eq, ◌==◌, ==_iff, is_eq,
  Ordering, arith,
}
use semnav.Base.Sort.{sort_by, All-sort_by}
use semnav.Base.Any.{or_true, All-sort_of}
use semnav.Graph.Model.{Node, Site}
use semnav.Graph.Db.State.{NodeRow, Db}
use semnav.Graph.Db.Nodes.{node_from_row, node_cmp}
use semnav.Graph.Db.Edges.{Neighbor}
use semnav.Graph.Db.Unique.{Apart, Distinct, Unique}
use semnav.Query.Filter.{key_cmp, key_of_node}
use semnav.Query.Page.Complete.{key-IsTotal}
use semnav.Query.Group.{neighbor_cmp, site_list, group_from, group_sorted, group_by_node}

-- Whether one of the groups is that of the node with this id.
abbrev pub has_group : Option ℕ → List (Node × List Site) → Bool
has_group id groups = any (λ g. opt_eq ◌==◌ g.0.id id) groups

is_eq-eq : (o : Ordering) → is_eq o ≡ true → o ≡ Ordering.eq
is_eq-eq Ordering.eq h = refl
is_eq-eq Ordering.lt h = cc
is_eq-eq Ordering.gt h = cc

-- A node as it stands in the table.
abbrev pub Stored : Db → Node → Type 0
Stored db n =
    (id : ℕ) × (r : NodeRow) × (find_first (λ q. q.id == id) db.nodes ≡ some r)
    × (n ≡ node_from_row r)

Apart-row :
    (q : NodeRow) (p : NodeRow → Bool) (rows : List NodeRow) {r : NodeRow}
    → Apart q rows
    → find_first p rows ≡ some r
    → q.node.fqn ≢ r.node.fqn
Apart-row q p [] h e = cc
Apart-row q p (x ∷ rows) {r} h e = elim (Bool-cases (p x)) [
  | inl t ↦ let it : some x ≡ some r = rw t at e in let same : x ≡ r = cc it in rw (← same) h.0.1
  | inr t ↦ Apart-row q p rows h.1 (rw t at e)
]

same_name :
    (p q : NodeRow → Bool) (rows : List NodeRow) {r s : NodeRow}
    → Distinct rows
    → find_first p rows ≡ some r
    → find_first q rows ≡ some s
    → r.node.fqn ≡ s.node.fqn
    → r ≡ s
same_name p q [] d e f h = cc
same_name p q (x ∷ rows) {r} {s} d e f h = elim (Bool-cases (p x)) [
  | inl t ↦
      let it : some x ≡ some r = rw t at e in
      let same : x ≡ r = cc it in
      elim (Bool-cases (q x)) [
        | inl u ↦ let it' : some x ≡ some s = rw u at f in cc
        | inr u ↦
            let f' : find_first q rows ≡ some s = rw u at f in
            absurd (Apart-row x q rows d.0 f' (ap (λ (z : NodeRow). z.node.fqn) same ∙ h))
      ]
  | inr t ↦
      let e' : find_first p rows ≡ some r = rw t at e in
      elim (Bool-cases (q x)) [
        | inl u ↦
            let it' : some x ≡ some s = rw u at f in
            let same : x ≡ s = cc it' in
            absurd (Apart-row x p rows d.0 e' (ap (λ (z : NodeRow). z.node.fqn) same ∙ sym h))
        | inr u ↦ same_name p q rows d.1 e' (rw u at f) h
      ]
]

-- Nodes of equal sort keys are the same.
same_key :
    (db : Db) (n m : Node)
    → Unique db
    → Stored db n
    → Stored db m
    → is_eq (node_cmp n m) ≡ true
    → n.id ≡ m.id
unfolding node_cmp key_cmp
same_key db n m u (i, r, e, en) (j, s, f, em) k =
    let names : n.fqn ≡ m.fqn =
      ap (λ t. t.fqn)
        (key-IsTotal.eq_of (key_of_node n) (key_of_node m) (is_eq-eq (node_cmp n m) k)) in
    let same : r ≡ s =
      same_name _ _ db.nodes u.apart e f
        (sym (ap (λ (z : Node). z.fqn) en) ∙ (names ∙ ap (λ (z : Node). z.fqn) em)) in
    ap (λ (z : Node). z.id) en
    ∙ (ap (λ (z : NodeRow). some z.id) same ∙ sym (ap (λ (z : Node). z.id) em))

opt_eq_refl : (o : Option ℕ) → opt_eq ◌==◌ o o ≡ true
opt_eq_refl none = refl
opt_eq_refl (some n) = ground (arith, ==_iff n n)

abbrev HasAll : Node → List Neighbor → List (Node × List Site) → Type 0
HasAll last rest groups =
    (has_group last.id groups ≡ true) × All (λ n. has_group n.0.id groups ≡ true) rest

group_same :
    (last n : Node) (sites : List Site) (site : Option Site) (rest : List Neighbor)
    → is_eq (node_cmp last n) ≡ true
    → group_from last sites ((n, site) ∷ rest) ≡ group_from last (sites ++ site_list site) rest
unfolding group_from
group_same last n sites site rest e = rw (group_from, e)

group_other :
    (last n : Node) (sites : List Site) (site : Option Site) (rest : List Neighbor)
    → is_eq (node_cmp last n) ≡ false
    → group_from last sites ((n, site) ∷ rest) ≡ (last, sites) ∷ group_from n (site_list site) rest
unfolding group_from
group_other last n sites site rest e = rw (group_from, e)

-- Every row of a sorted list is in a group of its node.
module _ (db : Db) (u : Unique db) where
  group_from-has :
      (last : Node) (sites : List Site) (rest : List Neighbor)
      → Stored db last
      → All (λ n. Stored db n.0) rest
      → HasAll last rest (group_from last sites rest)
  unfolding group_from
  group_from-has last sites [] s h = (rw (opt_eq_refl last.id), tt)
  group_from-has last sites ((n, site) ∷ rest) s h = elim (Bool-cases (is_eq (node_cmp last n))) [
    | inl e ↦
        let ih = group_from-has last (sites ++ site_list site) rest s h.1 in
        let same = same_key db last n u s h.0 e in
        subst (HasAll last ((n, site) ∷ rest)) (sym (group_same last n sites site rest e)) (
          ih.0,
          (
            subst (λ o. has_group o (group_from last (sites ++ site_list site) rest) ≡ true) same
                ih.0,
            ih.1,
          ),
        )
    | inr e ↦
        let ih = group_from-has n (site_list site) rest h.0 h.1 in
        subst (HasAll last ((n, site) ∷ rest)) (sym (group_other last n sites site rest e)) (
          rw (opt_eq_refl last.id),
          (or_true _ _ ih.0, All-map_of (λ m k. or_true _ _ k) rest ih.1),
        )
  ]

  group_sorted-has :
      (ns : List Neighbor)
      → All (λ n. Stored db n.0) ns
      → All (λ n. has_group n.0.id (group_sorted ns) ≡ true) ns
  unfolding group_sorted
  group_sorted-has [] h = tt
  group_sorted-has ((n, site) ∷ rest) h = group_from-has n (site_list site) rest h.0 h.1

  pub group_by_node-has :
      (ns : List Neighbor)
      → All (λ n. Stored db n.0) ns
      → All (λ n. has_group n.0.id (group_by_node ns) ≡ true) ns
  unfolding group_by_node
  group_by_node-has ns h =
      All-sort_of _ neighbor_cmp ns
        (group_sorted-has (sort_by neighbor_cmp ns) (All-sort_by neighbor_cmp _ ns h))

-- What holds of all rows holds of the nodes of the groups.
group_from-All :
    (P : Node → Type 0) (last : Node) (sites : List Site) (rest : List Neighbor)
    → P last
    → All (λ n. P n.0) rest
    → All (λ g. P g.0) (group_from last sites rest)
unfolding group_from
group_from-All P last sites [] p h = (p, tt)
group_from-All P last sites ((n, site) ∷ rest) p h = elim (Bool-cases (is_eq (node_cmp last n))) [
  | inl e ↦
      subst (All (λ g. P g.0)) (sym (group_same last n sites site rest e))
        (group_from-All P last (sites ++ site_list site) rest p h.1)
  | inr e ↦
      subst (All (λ g. P g.0)) (sym (group_other last n sites site rest e))
        (p, group_from-All P n (site_list site) rest h.0 h.1)
]

group_sorted-All :
    (P : Node → Type 0) (ns : List Neighbor)
    → All (λ n. P n.0) ns
    → All (λ g. P g.0) (group_sorted ns)
unfolding group_sorted
group_sorted-All P [] h = tt
group_sorted-All P ((n, site) ∷ rest) h = group_from-All P n (site_list site) rest h.0 h.1

pub group_by_node-All :
    (P : Node → Type 0) (ns : List Neighbor)
    → All (λ n. P n.0) ns
    → All (λ g. P g.0) (group_by_node ns)
unfolding group_by_node
group_by_node-All P ns h =
    group_sorted-All P (sort_by neighbor_cmp ns) (All-sort_by neighbor_cmp (λ n. P n.0) ns h)
