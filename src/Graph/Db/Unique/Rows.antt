-- ===== src/Graph/Db/Unique/Rows.antt =====
-- src/graph/db.rs: the statements on the table `nodes` keep its keys unique.
use semnav.Base.{
  ℕ, suc, ◌<◌, ◌≡◌, ◌≢◌, refl, sym, ◌∙◌, Bool, true, false, not, ◌&&◌, ◌||◌, Bool-cases,
  Option-cases, inl, inr, List, [], ◌∷◌, ◌++◌, All, All-append, All-map_of, All-retain, map, retain,
  find_first, str_eq, str_eq_iff, ◌==◌, ==_iff, arith,
}
use semnav.Graph.Model.{Node}
use semnav.Graph.Db.State.{
  Result, ok, err, NodeRow, Db, clashes, reference_ok, update_row, same_fqn, same_phys,
}
use semnav.Graph.Db.Nodes.{stored, write_row, insert_row, upsert_node, written}
use semnav.Graph.Db.Edges.{clear_container, delete_node}
use semnav.Graph.Db.Unique.{Apart, Distinct, Unique, Holds}

-- A change of the rows that keeps ids and full names.
abbrev pub KeepsKeys : (NodeRow → NodeRow) → Type 0
KeepsKeys f = (r : NodeRow) → ((f r).id ≡ r.id) × ((f r).node.fqn ≡ r.node.fqn)

Apart-map :
    (f : NodeRow → NodeRow) (r : NodeRow) (rows : List NodeRow)
    → KeepsKeys f
    → Apart r rows
    → Apart (f r) (map f rows)
Apart-map f r [] k h = tt
Apart-map f r (q ∷ rows) k h = (
  (λ e. h.0.0 (sym (k r).0 ∙ (e ∙ (k q).0)), λ e. h.0.1 (sym (k r).1 ∙ (e ∙ (k q).1))),
  Apart-map f r rows k h.1,
)

Distinct-map :
    (f : NodeRow → NodeRow) (rows : List NodeRow)
    → KeepsKeys f
    → Distinct rows
    → Distinct (map f rows)
Distinct-map f [] k h = tt
Distinct-map f (r ∷ rows) k h = (Apart-map f r rows k h.0, Distinct-map f rows k h.1)

fresh-map :
    (f : NodeRow → NodeRow) (rows : List NodeRow) (n : ℕ)
    → KeepsKeys f
    → All (λ r. r.id < n) rows
    → All (λ r. r.id < n) (map f rows)
fresh-map f [] n k h = tt
fresh-map f (r ∷ rows) n k h = (rw ((k r).0) h.0, fresh-map f rows n k h.1)

pub Unique-map :
    (f : NodeRow → NodeRow) (db : Db)
    → KeepsKeys f
    → Unique db
    → Unique (record db { nodes = map f db.nodes })
Unique-map f db k u = record {
  apart = Distinct-map f db.nodes k u.apart;
  fresh = fresh-map f db.nodes db.next_node k u.fresh;
}

Distinct-retain :
    (p : NodeRow → Bool) (rows : List NodeRow) → Distinct rows → Distinct (retain p rows)
Distinct-retain p [] h = tt
Distinct-retain p (r ∷ rows) h = elim (Bool-cases (p r)) [
  | inl e ↦ rw e (
    All-retain (λ q. (r.id ≢ q.id) × (r.node.fqn ≢ q.node.fqn)) p rows h.0,
    Distinct-retain p rows h.1,
  )
  | inr e ↦ rw e (Distinct-retain p rows h.1)
]

clash_tests :
    (a b c d : Bool) → ((not a && (b || c)) || d) ≡ false → (a ≡ false → b ≡ false) × (d ≡ false)
clash_tests true b c d h = (λ e. cc, h)
clash_tests false true c d h = (λ e. cc, cc)
clash_tests false false true d h = (λ e. refl, cc)
clash_tests false false false d h = (λ e. refl, h)

ne-test : (a b : ℕ) → a ≢ b → (a == b) ≡ false
ne-test a b h = ground arith

ne-absurd : (a b : ℕ) → (a == b) ≡ false → a ≢ b
ne-absurd a b h e = ground arith

-- A row that does not clash with `n` has another id, or another name.
clashes-false :
    (id : ℕ) (n : Node) (r : NodeRow) (rows : List NodeRow)
    → clashes id n (r ∷ rows) ≡ false
    → (r.id ≢ id → r.node.fqn ≢ n.fqn) × (clashes id n rows ≡ false)
unfolding clashes
clashes-false id n r rows h =
    let t =
      clash_tests (r.id == id) (same_fqn r.node n) (same_phys r.node n) (clashes id n rows) h in
    (
      λ ne e.
          let same : str_eq r.node.fqn n.fqn ≡ true = (str_eq_iff r.node.fqn n.fqn).1 e in
          let differs : str_eq r.node.fqn n.fqn ≡ false = t.0 (ne-test r.id id ne) in cc,
      t.1,
    )

-- The rows after the update, seen from a row with the id and from another row.
Apart-update_self :
    (id : ℕ) (n : Node) (r : NodeRow) (rows : List NodeRow)
    → r.id ≡ id
    → Apart r rows
    → clashes id n rows ≡ false
    → Apart (record r { node = stored n }) (update_row id (λ m. stored n) rows)
unfolding update_row
Apart-update_self id n r [] e a h = tt
Apart-update_self id n r (q ∷ rows) e a h =
    let ne : q.id ≢ id = λ f. a.0.0 (e ∙ sym f) in
    let other : (q.id == id) ≡ false = ne-test q.id id ne in
    let c = clashes-false id n q rows h in
    rw other ((a.0.0, λ f. c.0 ne (sym f)), Apart-update_self id n r rows e a.1 c.1)

Apart-update_other :
    (id : ℕ) (n : Node) (r : NodeRow) (rows : List NodeRow)
    → r.node.fqn ≢ n.fqn
    → Apart r rows
    → Apart r (update_row id (λ m. stored n) rows)
unfolding update_row
Apart-update_other id n r [] ne a = tt
Apart-update_other id n r (q ∷ rows) ne a = elim (Bool-cases (q.id == id)) [
  | inl e ↦ rw e ((a.0.0, ne), Apart-update_other id n r rows ne a.1)
  | inr e ↦ rw e (a.0, Apart-update_other id n r rows ne a.1)
]

Distinct-update :
    (id : ℕ) (n : Node) (rows : List NodeRow)
    → Distinct rows
    → clashes id n rows ≡ false
    → Distinct (update_row id (λ m. stored n) rows)
unfolding update_row
Distinct-update id n [] d h = tt
Distinct-update id n (r ∷ rows) d h =
    let c = clashes-false id n r rows h in
    elim (Bool-cases (r.id == id)) [
      | inl e ↦
          let same : r.id ≡ id = (==_iff r.id id).0 e in
          rw e (Apart-update_self id n r rows same d.0 c.1, Distinct-update id n rows d.1 c.1)
      | inr e ↦
          let ne : r.id ≢ id = ne-absurd r.id id e in
          rw e (Apart-update_other id n r rows (c.0 ne) d.0, Distinct-update id n rows d.1 c.1)
    ]

fresh-update :
    (id : ℕ) (n : Node) (rows : List NodeRow) (k : ℕ)
    → All (λ r. r.id < k) rows
    → All (λ r. r.id < k) (update_row id (λ m. stored n) rows)
unfolding update_row
fresh-update id n [] k h = tt
fresh-update id n (r ∷ rows) k h = elim (Bool-cases (r.id == id)) [
  | inl e ↦ rw e (h.0, fresh-update id n rows k h.1)
  | inr e ↦ rw e (h.0, fresh-update id n rows k h.1)
]

-- The new row is apart from each row.
Apart-append :
    (r : NodeRow) (rows : List NodeRow) (new : NodeRow)
    → Apart r rows
    → r.id ≢ new.id
    → r.node.fqn ≢ new.node.fqn
    → Apart r (rows ++ new ∷ [])
Apart-append r rows new a i f =
    All-append (λ q. (r.id ≢ q.id) × (r.node.fqn ≢ q.node.fqn)) rows (new ∷ []) a ((i, f), tt)

Distinct-insert :
    (k : ℕ) (n : Node) (rows : List NodeRow)
    → Distinct rows
    → All (λ r. r.id < k) rows
    → clashes k n rows ≡ false
    → Distinct (rows ++ record { id = k; node = stored n } ∷ [])
Distinct-insert k n [] d b h = (tt, tt)
Distinct-insert k n (r ∷ rows) d b h =
    let c = clashes-false k n r rows h in
    let ne : r.id ≢ k = λ e. omega arith in
    (
      Apart-append r rows (record { id = k; node = stored n }) d.0 ne (c.0 ne),
      Distinct-insert k n rows d.1 b.1 c.1,
    )

pub write_row-Unique : (id : ℕ) (n : Node) (db : Db) → Unique db → Holds Unique (write_row id n db)
unfolding write_row
write_row-Unique id n db u = elim (Bool-cases (clashes id n db.nodes)) [
  | inl e ↦ rw e tt
  | inr e ↦ elim (Bool-cases (reference_ok n.container_id db.nodes)) [
    | inl t ↦
        rw (e, t)
          (record {
            apart = Distinct-update id n db.nodes u.apart e;
            fresh = fresh-update id n db.nodes db.next_node u.fresh;
          })
    | inr t ↦ rw (e, t) tt
  ]
]

insert_row-Unique : (n : Node) (db : Db) → Unique db → Holds (λ r. Unique r.1) (insert_row n db)
unfolding insert_row
insert_row-Unique n db u = elim (Bool-cases (clashes db.next_node n db.nodes)) [
  | inl e ↦ rw e tt
  | inr e ↦
      let rows = db.nodes ++ record { id = db.next_node; node = stored n } ∷ [] in
      elim (Bool-cases (reference_ok n.container_id rows)) [
        | inl t ↦
            rw (e, t)
              (record {
                apart = Distinct-insert db.next_node n db.nodes u.apart u.fresh e;
                fresh =
                    All-append (λ r. r.id < suc db.next_node) db.nodes _
                      (All-map_of (λ r h. omega arith) db.nodes u.fresh) (omega arith, tt);
              })
        | inr t ↦ rw (e, t) tt
      ]
]

written-Unique : (id : ℕ) (r : Result Db) → Holds Unique r → Holds (λ p. Unique p.1) (written id r)
written-Unique id (ok db) h = h
written-Unique id (err e) h = tt

pub upsert_node-Unique :
    (n : Node) (db : Db) → Unique db → Holds (λ r. Unique r.1) (upsert_node n db)
unfolding upsert_node
upsert_node-Unique n db u = elim (Option-cases (find_first (λ r. same_fqn r.node n) db.nodes)) [
  | inr (r, e) ↦
      rw (upsert_node, e) (written-Unique r.id (write_row r.id n db) (write_row-Unique r.id n db u))
  | inl e ↦ elim (Option-cases (find_first (λ r. same_phys r.node n) db.nodes)) [
    | inr (r, t) ↦
        rw (upsert_node, e, t)
          (written-Unique r.id (write_row r.id n db) (write_row-Unique r.id n db u))
    | inl t ↦ rw (upsert_node, e, t) (insert_row-Unique n db u)
  ]
]

pub delete_node-Unique : (id : ℕ) (db : Db) → Unique db → Unique (delete_node id db)
unfolding delete_node
delete_node-Unique id db u =
    let p = λ (r : NodeRow). not (r.id == id) in
    let v =
      Unique-map (clear_container id) (record db { nodes = retain p db.nodes }) (λ r. (refl, refl))
        (record {
          apart = Distinct-retain p db.nodes u.apart;
          fresh = All-retain (λ r. r.id < db.next_node) p db.nodes u.fresh;
        }) in
    record { apart = v.apart; fresh = v.fresh }
