-- ===== src/Graph/Db/Linked.antt =====
-- src/graph/db.rs and the table `edges`: each edge has both its ends, and no edge stands twice.
pub mod Nodes
pub mod Edges
pub mod Commands
use semnav.Base.{
  ℕ, ℤ, int_eq_holds, int_eq_refl, ◌≡◌, ◌≢◌, refl, sym, ap, ◌∙◌, Bool, true, false, ◌&&◌, ◌||◌,
  Bool-cases, inl, inr, Option, none, some, List, [], ◌∷◌, ◌++◌, All, All-append, All-map_of,
  All-retain, map, retain, any, opt_eq, find_first, Str, if◌then◌else◌, str_eq, str_eq_iff, ◌==◌,
  ==_iff, arith,
}
use semnav.Base.Any.{and_true, and_both, or_true}
use semnav.Graph.Model.{Site, Edge}
use semnav.Graph.Db.State.{EdgeRow, NodeRow, Db, has_id}
use semnav.Graph.Db.Edges.{same_site, same_edge}

-- Where an edge is written in a file: the file and the start of the range.
abbrev pub start_of : Option Site → Option (Str × ℤ × ℤ)
start_of none = none
start_of (some s) = some (s.uri, s.range.start_line, s.range.start_col)

-- What an edge says: its ends, its type and where it is written.
abbrev pub Link : Type 0
Link = ℕ × ℕ × Str × Option (Str × ℤ × ℤ)

abbrev pub link : EdgeRow → Link
link r = (r.src_id, r.dst_id, r.edge_type, start_of r.site)

abbrev pub link_of : Edge → Link
link_of e = (e.src_id, e.dst_id, e.edge_type, start_of e.site)

-- No two rows say the same.
abbrev pub DistinctLinks : List EdgeRow → Type 0
DistinctLinks [] = Unit
DistinctLinks (r ∷ rows) = All (λ q. link r ≢ link q) rows × DistinctLinks rows

-- Both ends of an edge are nodes of the table.
abbrev pub HasEnds : List NodeRow → EdgeRow → Type 0
HasEnds nodes r = (has_id r.src_id nodes ≡ true) × (has_id r.dst_id nodes ≡ true)

pub record IsLinked (db : Db) : Type 0 where
  pub ends : All (HasEnds db.nodes) db.edges
  pub single : DistinctLinks db.edges

-- A change of rows that keeps what they say.
abbrev pub KeepsLinks : (EdgeRow → EdgeRow) → List EdgeRow → Type 0
KeepsLinks f = All (λ q. link (f q) ≡ link q)

links-apart :
    (f : EdgeRow → EdgeRow) (l : Link) (rows : List EdgeRow)
    → KeepsLinks f rows
    → All (λ q. l ≢ link q) rows
    → All (λ q. l ≢ link q) (map f rows)
links-apart f l [] k h = tt
links-apart f l (q ∷ rows) k h = (λ e. h.0 (e ∙ k.0), links-apart f l rows k.1 h.1)

pub DistinctLinks-map :
    (f : EdgeRow → EdgeRow) (rows : List EdgeRow)
    → KeepsLinks f rows
    → DistinctLinks rows
    → DistinctLinks (map f rows)
DistinctLinks-map f [] k h = tt
DistinctLinks-map f (r ∷ rows) k h =
    (rw k.0 (links-apart f (link r) rows k.1 h.0), DistinctLinks-map f rows k.1 h.1)

pub HasEnds-map :
    (nodes : List NodeRow) (f : EdgeRow → EdgeRow) (rows : List EdgeRow)
    → KeepsLinks f rows
    → All (HasEnds nodes) rows
    → All (HasEnds nodes) (map f rows)
HasEnds-map nodes f [] k h = tt
HasEnds-map nodes f (r ∷ rows) k h = (
  (ap (λ l. has_id l.0 nodes) k.0 ∙ h.0.0, ap (λ (l : Link). has_id l.1 nodes) k.0 ∙ h.0.1),
  HasEnds-map nodes f rows k.1 h.1,
)

pub DistinctLinks-retain :
    (p : EdgeRow → Bool) (rows : List EdgeRow) → DistinctLinks rows → DistinctLinks (retain p rows)
DistinctLinks-retain p [] d = tt
DistinctLinks-retain p (r ∷ rows) d = elim (Bool-cases (p r)) [
  | inl e ↦ rw e (All-retain (λ q. link r ≢ link q) p rows d.0, DistinctLinks-retain p rows d.1)
  | inr e ↦ rw e (DistinctLinks-retain p rows d.1)
]

pub DistinctLinks-snoc :
    (rows : List EdgeRow) (r : EdgeRow)
    → All (λ q. link q ≢ link r) rows
    → DistinctLinks rows
    → DistinctLinks (rows ++ r ∷ [])
DistinctLinks-snoc [] r h d = (tt, tt)
DistinctLinks-snoc (q ∷ rows) r h d = (
  All-append (λ p. link q ≢ link p) rows (r ∷ []) d.0 (h.0, tt),
  DistinctLinks-snoc rows r h.1 d.1,
)

-- The SELECT before an insert finds the rows that say the same as the edge.
site_start : (a b : Site) → same_site a b ≡ true → start_of (some a) ≡ start_of (some b)
site_start a b h =
    let file = and_true (str_eq a.uri b.uri) _ h in
    let start = and_true _ _ file.1 in
    let line = int_eq_holds a.range.start_line b.range.start_line start.0 in
    let col = int_eq_holds a.range.start_col b.range.start_col start.1 in
    rw ((str_eq_iff a.uri b.uri).0 file.0, line, col) refl

start_site : (a b : Site) → start_of (some a) ≡ start_of (some b) → same_site a b ≡ true
start_site a b h =
    let file : a.uri ≡ b.uri = cc in
    let line : a.range.start_line ≡ b.range.start_line = cc in
    let col : a.range.start_col ≡ b.range.start_col = cc in
    rw (file, line, col)
      (and_both _ _ ((str_eq_iff b.uri b.uri).1 refl)
        (and_both _ _ (int_eq_refl b.range.start_line) (int_eq_refl b.range.start_col)))

sites_start : (a b : Option Site) → opt_eq same_site a b ≡ true → start_of a ≡ start_of b
sites_start none none h = refl
sites_start (some a) (some b) h = site_start a b h
sites_start none (some b) h = cc
sites_start (some a) none h = cc

start_sites : (a b : Option Site) → start_of a ≡ start_of b → opt_eq same_site a b ≡ true
start_sites none none h = refl
start_sites (some a) (some b) h = start_site a b h
start_sites none (some b) h = cc
start_sites (some a) none h = cc

pub same_edge-link : (e : Edge) (r : EdgeRow) → same_edge e r ≡ true → link r ≡ link_of e
unfolding same_edge
same_edge-link e r h =
    let src = and_true (r.src_id == e.src_id) _ h in
    let dst = and_true (r.dst_id == e.dst_id) _ src.1 in
    let kind = and_true (str_eq r.edge_type e.edge_type) _ dst.1 in
    rw
      (
        (==_iff r.src_id e.src_id).0 src.0,
        (==_iff r.dst_id e.dst_id).0 dst.0,
        (str_eq_iff r.edge_type e.edge_type).0 kind.0,
        sites_start r.site e.site kind.1,
      )
      refl

pub link-same_edge : (e : Edge) (r : EdgeRow) → link r ≡ link_of e → same_edge e r ≡ true
unfolding same_edge
link-same_edge e r h = and_both _ _ ((==_iff r.src_id e.src_id).1 (ap (λ (l : Link). l.0) h)) (
    and_both _ _ ((==_iff r.dst_id e.dst_id).1 (ap (λ (l : Link). l.1) h)) (
      and_both _ _ ((str_eq_iff r.edge_type e.edge_type).1 (ap (λ (l : Link). l.2) h))
        (start_sites r.site e.site (ap (λ (l : Link). l.3) h))))

-- The nodes that a statement leaves have all the ids that were there.
abbrev pub KeepsNodes : List NodeRow → List NodeRow → Type 0
KeepsNodes nodes nodes' = (id : ℕ) → has_id id nodes ≡ true → has_id id nodes' ≡ true

pub KeepsNodes-map :
    (f : NodeRow → NodeRow) (nodes : List NodeRow)
    → ((r : NodeRow) → (f r).id ≡ r.id)
    → KeepsNodes nodes (map f nodes)
unfolding has_id
KeepsNodes-map f [] k id h = h
KeepsNodes-map f (r ∷ nodes) k id h =
    let rec = KeepsNodes-map f nodes k id in
    elim (Bool-cases (r.id == id)) [ inl e ↦ rw (k r, e) | inr e ↦ rw (k r, e) (rec (rw e at h)) ]

pub KeepsNodes-append : (nodes more : List NodeRow) → KeepsNodes nodes (nodes ++ more)
unfolding has_id
KeepsNodes-append [] more id h = cc
KeepsNodes-append (r ∷ nodes) more id h = elim (Bool-cases (r.id == id)) [
  | inl e ↦ rw e
  | inr e ↦ rw e (KeepsNodes-append nodes more id (rw e at h))
]

-- Nodes that a test keeps.
pub has_id-retain :
    (p : NodeRow → Bool) (id : ℕ) (nodes : List NodeRow)
    → ((r : NodeRow) → r.id ≡ id → p r ≡ true)
    → has_id id nodes ≡ true
    → has_id id (retain p nodes) ≡ true
unfolding has_id
has_id-retain p id [] k h = h
has_id-retain p id (r ∷ nodes) k h = elim (Bool-cases (r.id == id)) [
  | inl e ↦ rw (k r ((==_iff r.id id).0 e), e)
  | inr e ↦
      let rec = has_id-retain p id nodes k (rw e at h) in
      elim (Bool-cases (p r)) [ inl t ↦ rw (t, e) rec | inr t ↦ rw t rec ]
]
