-- ===== src/Graph/Db/EdgeKeys.antt =====
-- The primary key of the table `edges`, and what a statement on edges leaves as it is.
pub mod Touches
pub mod Commands
use semnav.Base.{
  ℕ, ◌<◌, ◌≡◌, ◌≢◌, ◌⊎◌, refl, sym, ap, ◌∙◌, Bool, true, false, ◌&&◌, Bool-cases, Option-cases, inl,
  inr, some, List, [], ◌∷◌, ◌++◌, All, All-append, All-map_of, map, retain, any, find_first, Str,
  str, if◌then◌else◌, str_eq, str_eq_iff, ◌==◌, ==_iff, arith,
}
use semnav.Graph.Model.{Edge}
use semnav.Graph.Db.State.{EdgeRow, Db, has_id, edge_types}
use semnav.Graph.Db.Edges.{
  outgoing, same_edge, reactivate, new_edge, insert_edge, upsert_edge, selects,
  invalidate_outgoing_calls,
}
use semnav.Graph.Db.Meta.{set_callees_cache_hash}
use semnav.Graph.Db.Unique.{Holds}

abbrev pub DistinctIds : List EdgeRow → Type 0
DistinctIds [] = Unit
DistinctIds (r ∷ rows) = All (λ q. r.id ≢ q.id) rows × DistinctIds rows

-- Edge ids are separate, and the next one is unused.
pub record EdgeKeys (db : Db) : Type 0 where
  pub separate : DistinctIds db.edges
  pub fresh : All (λ r. r.id < db.next_edge) db.edges

-- The `calls` edges that count, from one node.
abbrev pub calls_of : ℕ → Db → List EdgeRow
calls_of u db = retain (selects outgoing u (str "calls")) db.edges

-- A change of rows that keeps their ids.
abbrev pub KeepsIds : (EdgeRow → EdgeRow) → Type 0
KeepsIds f = (r : EdgeRow) → (f r).id ≡ r.id

apart-map :
    (f : EdgeRow → EdgeRow) (id : ℕ) (rows : List EdgeRow)
    → KeepsIds f
    → All (λ q. id ≢ q.id) rows
    → All (λ q. id ≢ q.id) (map f rows)
apart-map f id [] k h = tt
apart-map f id (q ∷ rows) k h = (λ e. h.0 (e ∙ k q), apart-map f id rows k h.1)

pub DistinctIds-map :
    (f : EdgeRow → EdgeRow) (rows : List EdgeRow)
    → KeepsIds f
    → DistinctIds rows
    → DistinctIds (map f rows)
DistinctIds-map f [] k h = tt
DistinctIds-map f (r ∷ rows) k h =
    (rw (k r) (apart-map f r.id rows k h.0), DistinctIds-map f rows k h.1)

pub fresh-map :
    (f : EdgeRow → EdgeRow) (rows : List EdgeRow) (n : ℕ)
    → KeepsIds f
    → All (λ r. r.id < n) rows
    → All (λ r. r.id < n) (map f rows)
fresh-map f [] n k h = tt
fresh-map f (r ∷ rows) n k h = (rw (k r) h.0, fresh-map f rows n k h.1)

pub DistinctIds-snoc :
    (rows : List EdgeRow) (r : EdgeRow)
    → DistinctIds rows
    → All (λ q. q.id < r.id) rows
    → DistinctIds (rows ++ r ∷ [])
DistinctIds-snoc [] r d h = (tt, tt)
DistinctIds-snoc (q ∷ rows) r d h = (
  All-append (λ p. q.id ≢ p.id) rows (r ∷ []) d.0
      ((λ e. let l : q.id < r.id = h.0 in absurd (omega arith)), tt),
  DistinctIds-snoc rows r d.1 h.1,
)

-- Rows that a change leaves alone, or that are selected neither before nor after it.
pub retain-map :
    (p : EdgeRow → Bool) (f : EdgeRow → EdgeRow) (rows : List EdgeRow)
    → All (λ q. (f q ≡ q) ⊎ ((p q ≡ false) × (p (f q) ≡ false))) rows
    → retain p (map f rows) ≡ retain p rows
retain-map p f [] h = refl
retain-map p f (q ∷ rows) h = elim h.0 [
  | inl e ↦ rw (e, retain-map p f rows h.1)
  | inr (e, t) ↦ rw (e, t, retain-map p f rows h.1)
]

pub retain-snoc :
    (p : EdgeRow → Bool) (rows : List EdgeRow) (r : EdgeRow)
    → p r ≡ false
    → retain p (rows ++ r ∷ []) ≡ retain p rows
retain-snoc p [] r h = rw h
retain-snoc p (q ∷ rows) r h = rw (retain-snoc p rows r h)

pub All-find_first :
    (P : EdgeRow → Type 0) (p : EdgeRow → Bool) (rows : List EdgeRow) {r : EdgeRow}
    → All P rows
    → find_first p rows ≡ some r
    → P r
All-find_first P p [] h e = cc
All-find_first P p (q ∷ rows) {r} h e = elim (Bool-cases (p q)) [
  | inl t ↦ let it : some q ≡ some r = rw t at e in let same : q ≡ r = cc it in rw (← same) h.0
  | inr t ↦ All-find_first P p rows h.1 (rw t at e)
]

pub find_first-holds :
    (p : EdgeRow → Bool) (rows : List EdgeRow) {r : EdgeRow}
    → find_first p rows ≡ some r
    → p r ≡ true
find_first-holds p [] e = cc
find_first-holds p (q ∷ rows) {r} e = elim (Bool-cases (p q)) [
  | inl t ↦ let it : some q ≡ some r = rw t at e in let same : q ≡ r = cc it in rw (← same) t
  | inr t ↦ find_first-holds p rows (rw t at e)
]

-- The row that was found is the only one with its id.
pub only_row :
    (p : EdgeRow → Bool) (rows : List EdgeRow) {r : EdgeRow}
    → DistinctIds rows
    → find_first p rows ≡ some r
    → All (λ q. q.id ≡ r.id → q ≡ r) rows
only_row p [] d e = tt
only_row p (q ∷ rows) {r} d e = elim (Bool-cases (p q)) [
  | inl t ↦
      let it : some q ≡ some r = rw t at e in
      let same : q ≡ r = cc it in
      (
        λ _. same,
        All-map_of (λ z apart eq. absurd (apart (ap (λ (x : EdgeRow). x.id) same ∙ sym eq))) rows
            d.0,
      )
  | inr t ↦
      let found : find_first p rows ≡ some r = rw t at e in
      (
        λ same. absurd (All-find_first (λ z. q.id ≢ z.id) p rows d.0 found same),
        only_row p rows d.1 found,
      )
]
