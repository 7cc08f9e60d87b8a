-- ===== src/Graph/Db/EdgeKeys/Touches.antt =====
-- What a statement on edges leaves as it is.
use semnav.Base.{
  ℕ, ◌<◌, ◌≡◌, ◌≢◌, refl, sym, ap, ◌∙◌, Bool, true, false, ◌&&◌, Bool-cases, Option-cases, inl, inr,
  List, [], ◌∷◌, All, All-append, All-map_of, retain, any, find_first, Str, str, if◌then◌else◌,
  str_eq, str_eq_iff, ◌==◌, ==_iff, arith,
}
use semnav.Graph.Model.{Edge}
use semnav.Graph.Db.State.{EdgeRow, Db, has_id, edge_types}
use semnav.Graph.Db.Edges.{
  outgoing, same_edge, reactivate, new_edge, insert_edge, upsert_edge, selects,
  invalidate_outgoing_calls,
}
use semnav.Graph.Db.Meta.{set_callees_cache_hash}
use semnav.Graph.Db.Unique.{Holds}
use semnav.Graph.Db.EdgeKeys.{
  EdgeKeys, calls_of, DistinctIds-map, fresh-map, DistinctIds-snoc, retain-map, retain-snoc,
  only_row, find_first-holds,
}

-- The calls of every other node than `v` stay, and so do the nodes.
pub record Touches (v : ℕ) (db db' : Db) : Type 0 where
  pub keys : EdgeKeys db'
  pub nodes : db'.nodes ≡ db.nodes
  pub next_node : db'.next_node ≡ db.next_node
  pub others : (u : ℕ) → u ≢ v → calls_of u db' ≡ calls_of u db

-- An edge that, if it is a call, is one of `v`.
abbrev pub MayCallFrom : ℕ → ℕ → Str → Type 0
MayCallFrom v src edge_type = edge_type ≡ str "calls" → src ≡ v

All-of : {P : EdgeRow → Type 0} → ((q : EdgeRow) → P q) → (rows : List EdgeRow) → All P rows
All-of h [] = tt
All-of h (q ∷ rows) = (h q, All-of h rows)

selects-other :
    (u v : ℕ) (q : EdgeRow)
    → u ≢ v
    → MayCallFrom v q.src_id q.edge_type
    → selects outgoing u (str "calls") q ≡ false
unfolding selects
selects-other u v q ne h = elim (Bool-cases (q.src_id == u)) [
  | inr e ↦ rw (selects, e)
  | inl e ↦ elim (Bool-cases (str_eq q.edge_type (str "calls"))) [
    | inr t ↦ rw (selects, e, t)
    | inl t ↦
        absurd (ne (sym ((==_iff q.src_id u).0 e) ∙ h ((str_eq_iff q.edge_type (str "calls")).0 t)))
  ]
]

pub one_of-id : (b : Bool) (q p : EdgeRow) → p.id ≡ q.id → (if b then p else q).id ≡ q.id
one_of-id true q p e = e
one_of-id false q p e = refl

-- The statements on edges that a query runs.
module _ (v : ℕ) where
  pub Touches-same : (db : Db) → EdgeKeys db → Touches v db db
  Touches-same db k = record { keys = k; nodes = refl; next_node = refl; others = λ u ne. refl }

  pub Touches-trans : (a b c : Db) → Touches v a b → Touches v b c → Touches v a c
  Touches-trans a b c h k = record {
    keys = k.keys;
    nodes = k.nodes ∙ h.nodes;
    next_node = k.next_node ∙ h.next_node;
    others = λ u ne. k.others u ne ∙ h.others u ne;
  }

  -- The rows that a change of one row with the keys of a call of `v` concerns.
  reactivate-others :
      (u id : ℕ) (e : Edge) (rows : List EdgeRow)
      → u ≢ v
      → All (λ q. q.id ≡ id → MayCallFrom v q.src_id q.edge_type) rows
      → retain (selects outgoing u (str "calls")) (reactivate id e rows)
        ≡ retain (selects outgoing u (str "calls")) rows
  reactivate-others u id e rows ne h = retain-map _ _ rows (
      All-map_of
        (λ q k. elim (Bool-cases (q.id == id)) [
          | inr t ↦ inl (rw t)
          | inl t ↦
              let call = k ((==_iff q.id id).0 t) in
              inr (selects-other u v q ne call, rw t (selects-other u v _ ne call))
        ])
        rows h)

  same_edge-keys :
      (e : Edge) (r : EdgeRow)
      → same_edge e r ≡ true
      → (r.src_id ≡ e.src_id) × (r.edge_type ≡ e.edge_type)
  unfolding same_edge
  same_edge-keys e r h =
      ground (arith, ==_iff r.src_id e.src_id, str_eq_iff r.edge_type e.edge_type)

  insert_edge-Touches :
      (e : Edge) (db : Db)
      → MayCallFrom v e.src_id e.edge_type
      → EdgeKeys db
      → Holds (λ p. Touches v db p.1) (insert_edge e db)
  unfolding insert_edge
  insert_edge-Touches e db h k = elim (Bool-cases (any (str_eq e.edge_type) edge_types)) [
    | inr t ↦ rw (insert_edge, t) tt
    | inl t ↦ elim (Bool-cases (has_id e.src_id db.nodes && has_id e.dst_id db.nodes)) [
      | inr s ↦ rw (insert_edge, t, s) tt
      | inl s ↦
          rw (insert_edge, t, s)
            (record {
              keys = record {
                separate = DistinctIds-snoc db.edges (new_edge db.next_edge e) k.separate k.fresh;
                fresh =
                    All-append _ db.edges _
                      (All-map_of (λ (r : EdgeRow) (l : r.id < db.next_edge). omega arith) db.edges
                        k.fresh)
                      (omega arith, tt);
              };
              nodes = refl;
              next_node = refl;
              others = λ u ne. retain-snoc _ db.edges _ (selects-other u v _ ne h);
            })
    ]
  ]

  pub upsert_edge-Touches :
      (e : Edge) (db : Db)
      → MayCallFrom v e.src_id e.edge_type
      → EdgeKeys db
      → Holds (λ p. Touches v db p.1) (upsert_edge e db)
  unfolding upsert_edge
  upsert_edge-Touches e db h k = elim (Option-cases (find_first (same_edge e) db.edges)) [
    | inl t ↦ rw (upsert_edge, t) (insert_edge-Touches e db h k)
    | inr (r, t) ↦
        let same = same_edge-keys e r (find_first-holds (same_edge e) db.edges t) in
        rw (upsert_edge, t)
          (record {
            keys = record {
              separate =
                  DistinctIds-map _ db.edges (λ q. one_of-id (q.id == r.id) q _ refl) k.separate;
              fresh =
                  fresh-map _ db.edges db.next_edge (λ q. one_of-id (q.id == r.id) q _ refl)
                    k.fresh;
            };
            nodes = refl;
            next_node = refl;
            others = λ u ne. reactivate-others u r.id e db.edges ne (
                All-map_of
                  (λ q only eq call.
                    let it = only eq in
                    ap (λ (x : EdgeRow). x.src_id) it
                    ∙ (same.0
                        ∙ h (sym same.1 ∙ (sym (ap (λ (x : EdgeRow). x.edge_type) it) ∙ call))))
                  db.edges (only_row (same_edge e) db.edges k.separate t));
          })
  ]

  pub invalidate_outgoing_calls-Touches :
      (db : Db) → EdgeKeys db → Touches v db (invalidate_outgoing_calls v db)
  unfolding invalidate_outgoing_calls
  invalidate_outgoing_calls-Touches db k = record {
    keys = record {
      separate = DistinctIds-map _ db.edges (λ q. one_of-id _ q _ refl) k.separate;
      fresh = fresh-map _ db.edges db.next_edge (λ q. one_of-id _ q _ refl) k.fresh;
    };
    nodes = refl;
    next_node = refl;
    others = λ u ne. retain-map _ _ db.edges (
        All-of
          (λ q. elim (Bool-cases (q.src_id == v && str_eq q.edge_type (str "calls"))) [
            | inr t ↦ inl (rw t)
            | inl t ↦
                let call : MayCallFrom v q.src_id q.edge_type =
                  λ _. ground (arith, ==_iff q.src_id v) in
                inr (selects-other u v q ne call, rw t (selects-other u v _ ne call))
          ])
          db.edges);
  }

  pub set_callees_cache_hash-Touches :
      (id : ℕ) (hash : Str) (db : Db)
      → EdgeKeys db
      → Holds (Touches v db) (set_callees_cache_hash id hash db)
  unfolding set_callees_cache_hash
  set_callees_cache_hash-Touches id hash db k = elim (Bool-cases (has_id id db.nodes)) [
    | inr e ↦ rw (set_callees_cache_hash, e) tt
    | inl e ↦
        rw (set_callees_cache_hash, e)
          (record {
            keys = record { separate = k.separate; fresh = k.fresh };
            nodes = refl;
            next_node = refl;
            others = λ u ne. refl;
          })
  ]
