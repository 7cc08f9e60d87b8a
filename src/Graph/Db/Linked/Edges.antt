-- ===== src/Graph/Db/Linked/Edges.antt =====
-- src/graph/db.rs: the statements on edges keep the edges linked and single.
use semnav.Base.{
  ℕ, ◌≡◌, ◌≢◌, refl, sym, ap, ◌∙◌, Bool, true, false, ◌&&◌, ◌||◌, Bool-cases, Option-cases, inl,
  inr, none, some, str, List, [], ◌∷◌, All-append, All-map_of, map, any, find_first, if◌then◌else◌,
  str_eq, ◌==◌, ==_iff,
}
use semnav.Base.Any.{and_true, find_first-none, found-passes}
use semnav.Graph.Model.{Edge}
use semnav.Graph.Db.State.{EdgeRow, Db, has_id, edge_types}
use semnav.Graph.Db.Edges.{
  same_edge, new_edge, insert_edge, upsert_edge, invalidate_edges, invalidate_outgoing_calls,
}
use semnav.Graph.Db.Unique.{Holds}
use semnav.Graph.Db.EdgeKeys.{EdgeKeys, only_row}
use semnav.Graph.Db.Linked.{
  start_of, Link, link, HasEnds, IsLinked, KeepsLinks, DistinctLinks-map, HasEnds-map,
  DistinctLinks-snoc, same_edge-link, link-same_edge,
}

Linked-map :
    (f : EdgeRow → EdgeRow) (db : Db)
    → KeepsLinks f db.edges
    → IsLinked db
    → IsLinked (record db { edges = map f db.edges })
Linked-map f db k l = record {
  ends = HasEnds-map db.nodes f db.edges k l.ends;
  single = DistinctLinks-map f db.edges k l.single;
}

one_of-link : (b : Bool) (q p : EdgeRow) → link p ≡ link q → link (if b then p else q) ≡ link q
one_of-link true q p e = e
one_of-link false q p e = refl

KeepsLinks-of :
    (f : EdgeRow → EdgeRow) (rows : List EdgeRow)
    → ((q : EdgeRow) → link (f q) ≡ link q)
    → KeepsLinks f rows
KeepsLinks-of f [] h = tt
KeepsLinks-of f (q ∷ rows) h = (h q, KeepsLinks-of f rows h)

pub invalidate_edges-Linked : (id : ℕ) (db : Db) → IsLinked db → IsLinked (invalidate_edges id db)
unfolding invalidate_edges
invalidate_edges-Linked id db l =
    let f =
      λ (r : EdgeRow). if r.src_id == id || r.dst_id == id then record r { valid = false } else r in
    Linked-map f db
      (KeepsLinks-of f db.edges
        (λ q. one_of-link (q.src_id == id || q.dst_id == id) q (record q { valid = false }) refl))
      l

pub invalidate_outgoing-Linked :
    (id : ℕ) (db : Db) → IsLinked db → IsLinked (invalidate_outgoing_calls id db)
unfolding invalidate_outgoing_calls
invalidate_outgoing-Linked id db l =
    let calls = λ (r : EdgeRow). r.src_id == id && str_eq r.edge_type (str "calls") in
    let f = λ (r : EdgeRow). if calls r then record r { valid = false } else r in
    Linked-map f db
      (KeepsLinks-of f db.edges (λ q. one_of-link (calls q) q (record q { valid = false }) refl)) l

insert_edge-Linked :
    (e : Edge) (db : Db)
    → find_first (same_edge e) db.edges ≡ none
    → IsLinked db
    → Holds (λ r. IsLinked r.1) (insert_edge e db)
unfolding insert_edge
insert_edge-Linked e db new l = elim (Bool-cases (any (str_eq e.edge_type) edge_types)) [
  | inr t ↦ rw (insert_edge, t) tt
  | inl t ↦ elim (Bool-cases (has_id e.src_id db.nodes && has_id e.dst_id db.nodes)) [
    | inr s ↦ rw (insert_edge, t, s) tt
    | inl s ↦
        rw (insert_edge, t, s)
          (record {
            ends =
                All-append (HasEnds db.nodes) db.edges _ l.ends
                  (and_true (has_id e.src_id db.nodes) (has_id e.dst_id db.nodes) s, tt);
            single =
                DistinctLinks-snoc db.edges (new_edge db.next_edge e)
                  (All-map_of {Q = λ q. link q ≢ link (new_edge db.next_edge e)}
                    (λ q no same.
                      let yes = link-same_edge e q same in
                      let bad : true ≡ false = sym yes ∙ no in cc)
                    db.edges (find_first-none (same_edge e) db.edges new))
                  l.single;
          })
  ]
]

reactivate-KeepsLinks :
    (e : Edge) (r : EdgeRow) (db : Db)
    → EdgeKeys db
    → find_first (same_edge e) db.edges ≡ some r
    → KeepsLinks
        (λ q. if q.id == r.id then record q { valid = e.valid; site = e.site } else q)
        db.edges
reactivate-KeepsLinks e r db k h =
    All-map_of
      (λ (q : EdgeRow) (only : q.id ≡ r.id → q ≡ r). elim (Bool-cases (q.id == r.id)) [
        | inr t ↦ rw t
        | inl t ↦
            let it = only ((==_iff q.id r.id).0 t) in
            let says = same_edge-link e r (found-passes (same_edge e) db.edges h) in
            let site : start_of q.site ≡ start_of e.site =
              ap (λ (x : EdgeRow). start_of x.site) it ∙ ap (λ (l : Link). l.3) says in
            rw (t, site) refl
      ])
      db.edges (only_row (same_edge e) db.edges k.separate h)

pub upsert_edge-Linked :
    (e : Edge) (db : Db) → EdgeKeys db → IsLinked db → Holds (λ r. IsLinked r.1) (upsert_edge e db)
unfolding upsert_edge
upsert_edge-Linked e db k l = elim (Option-cases (find_first (same_edge e) db.edges)) [
  | inl t ↦ rw (upsert_edge, t) (insert_edge-Linked e db t l)
  | inr (r, t) ↦ rw (upsert_edge, t) (Linked-map _ db (reactivate-KeepsLinks e r db k t) l)
]
