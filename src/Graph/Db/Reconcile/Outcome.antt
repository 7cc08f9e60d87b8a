-- ===== src/Graph/Db/Reconcile/Outcome.antt =====
-- src/graph/db.rs: every symbol and every old node of a file is counted once in the outcome of
-- `reconcile_file_symbols_tx`.
use semnav.Base.{
  ℕ, suc, ◌+◌, ◌≡◌, ap, Bool, true, false, Option-cases, inl, inr, Option, none, some, List, [],
  ◌∷◌, Str, arith, length, get_elem?, set, replicate,
}
use semnav.Graph.Model.{Node, ReconcileSymbol, ReconcileOutcome, default_outcome}
use semnav.Graph.Db.State.{ok, >>=-eq-ok, Db}
use semnav.Graph.Db.Nodes.{nodes_by_uri}
use semnav.Graph.Db.Reconcile.Matching.{BodyFingerprinted}
use semnav.Graph.Db.Reconcile.Apply.{
  container_of, or_no_id, update_where_id, keep_row, patched, keep_symbol, apply_symbol,
  apply_symbols, reclaim_one, reclaim,
}
use semnav.Graph.Db.Reconcile.Counts.{
  count_some, count_false, count_true_false, count_some-cons, assign-count,
}
use semnav.Graph.Db.Reconcile.Stages.{reconcile-Stages}
use semnav.Graph.Db.Reconcile.{assign, reconcile_file_symbols_tx}

abbrev kept : ReconcileOutcome → ℕ
kept o = o.unchanged + o.updated + o.renamed

keep_row-count :
    (old : Node) (s : ReconcileSymbol) (id : ℕ) (o : ReconcileOutcome) (db : Db)
    → let o' = (keep_row old s id o db).0 in
      (kept o' ≡ suc (kept o))
      × (o'.inserted ≡ o.inserted)
      × (o'.orphaned ≡ o.orphaned)
      × (o'.deleted ≡ o.deleted)
unfolding keep_row
keep_row-count old s id o db = ground arith

-- How pass 3 changes the counters for symbols with the assignment `as'`.
record Applied (as' : List (Option ℕ)) (o o' : ReconcileOutcome) : Type 0 where
  kept_more : kept o' ≡ kept o + count_some as'
  inserted_more : o'.inserted + count_some as' ≡ o.inserted + length as'
  same_orphaned : o'.orphaned ≡ o.orphaned
  same_deleted : o'.deleted ≡ o.deleted

keep_symbol-Applied :
    (old : Node) (s : ReconcileSymbol) (container : Option ℕ) (j : ℕ) (o o' : ReconcileOutcome)
    (db db' : Db) (id : ℕ)
    → keep_symbol old s container o db ≡ ok (id, o', db')
    → Applied (some j ∷ []) o o'
unfolding keep_symbol
keep_symbol-Applied old s container j o o' db db' id h =
    let (i, _, k) = >>=-eq-ok (or_no_id old.id) _ h in
    let (d, _, e) = >>=-eq-ok (update_where_id i (patched s container) db) _ k in
    ground (arith, keep_row-count old s i o d)

module _ (uri language : Str) (is_external : Bool) (olds : List Node) where
  apply_symbol-Applied :
      (s : ReconcileSymbol) (a : Option ℕ) (ids : List (Option ℕ)) (o o' : ReconcileOutcome)
      (db db' : Db) (id : ℕ)
      → apply_symbol uri language is_external olds s a ids o db ≡ ok (id, o', db')
      → Applied (a ∷ []) o o'
  unfolding apply_symbol
  apply_symbol-Applied s none ids o o' db db' id h = ground arith
  apply_symbol-Applied s (some j) ids o o' db db' id h =
      let (c, _, k) = >>=-eq-ok (container_of ids s.parent) _ h in
      elim (Option-cases (get_elem? olds j)) [
        | inl e ↦ absurd (cc (rw e at k))
        | inr (old, e) ↦ keep_symbol-Applied old s c j o o' db db' id (rw e at k)
      ]

  apply_symbols-Applied :
      (ss : List ReconcileSymbol) (as' : List (Option ℕ)) (i : ℕ) (ids ids' : List (Option ℕ))
      (o o' : ReconcileOutcome) (db db' : Db)
      → apply_symbols uri language is_external olds ss as' i ids o db ≡ ok (ids', o', db')
      → length as' ≡ length ss
      → Applied as' o o'
  unfolding apply_symbols
  apply_symbols-Applied [] [] i ids ids' o o' db db' h l = ground arith
  apply_symbols-Applied [] (a ∷ as') i ids ids' o o' db db' h l = absurd (omega arith)
  apply_symbols-Applied (s ∷ ss) [] i ids ids' o o' db db' h l = absurd (omega arith)
  apply_symbols-Applied (s ∷ ss) (a ∷ as') i ids ids' o o' db db' h l =
      let ((id, o1, db1), e, k) =
        >>=-eq-ok (apply_symbol uri language is_external olds s a ids o db) _ h in
      let one = apply_symbol-Applied s a ids o o1 db db1 id e in
      let rest =
        apply_symbols-Applied ss as' (suc i) (set ids i (some id)) ids' o1 o' db1 db' k
          (omega arith) in
      let split = count_some-cons a as' in
      record {
        kept_more = omega arith;
        inserted_more = omega arith;
        same_orphaned = omega arith;
        same_deleted = omega arith;
      }

-- Pass 4 counts each old node that no symbol keeps.
reclaim_one-count :
    (n : Node) (o o' : ReconcileOutcome) (db db' : Db)
    → reclaim_one n o db ≡ ok (o', db')
    → (kept o' ≡ kept o)
      × (o'.inserted ≡ o.inserted)
      × (o'.orphaned + o'.deleted ≡ suc (o.orphaned + o.deleted))
unfolding reclaim_one
reclaim_one-count n o o' db db' h = ground arith

reclaim-count :
    (olds : List Node) (used : List Bool) (o o' : ReconcileOutcome) (db db' : Db)
    → reclaim olds used o db ≡ ok (o', db')
    → length used ≡ length olds
    → (kept o' ≡ kept o)
      × (o'.inserted ≡ o.inserted)
      × (o'.orphaned + o'.deleted ≡ o.orphaned + o.deleted + count_false used)
unfolding reclaim
reclaim-count [] [] o o' db db' h l = ground arith
reclaim-count [] (u ∷ us) o o' db db' h l = absurd (omega arith)
reclaim-count (n ∷ ns) [] o o' db db' h l = absurd (omega arith)
reclaim-count (n ∷ ns) (true ∷ us) o o' db db' h l = reclaim-count ns us o o' db db' h (omega arith)
reclaim-count (n ∷ ns) (false ∷ us) o o' db db' h l =
    let ((o1, db1), e, k) = >>=-eq-ok (reclaim_one n o db) _ h in
    let one = reclaim_one-count n o o1 db db1 e in
    let rest = reclaim-count ns us o1 o' db1 db' k (omega arith) in omega arith

-- When a reconcile pass succeeds, its counters say what became of every symbol and of every old
-- node of the file: the symbols are the unchanged, updated, renamed and inserted ones, and the old
-- nodes are the unchanged, updated, renamed, orphaned and deleted ones.
pub reconcile_counts :
    (hash : BodyFingerprinted → ℕ) (uri language : Str) (is_external : Bool)
    (symbols : List ReconcileSymbol) (db db' : Db) (o : ReconcileOutcome)
    → reconcile_file_symbols_tx hash uri language is_external symbols db ≡ ok (o, db')
    → (o.unchanged + o.updated + o.renamed + o.inserted ≡ length symbols)
      × (o.unchanged + o.updated + o.renamed + o.orphaned + o.deleted
          ≡ length (nodes_by_uri uri db))
reconcile_counts hash uri language is_external symbols db db' o h =
    let t = reconcile-Stages hash uri language is_external symbols db db' o h in
    let r = assign hash t.olds symbols in
    let n = assign-count hash t.olds symbols in
    let ids = replicate (length symbols) none in
    let a =
      apply_symbols-Applied uri language is_external t.olds symbols r.0 0 ids t.ids default_outcome
        t.applied _ t.applied_db t.applies n.0 in
    let c = reclaim-count t.olds r.1 t.applied o t.applied_db t.reclaimed_db t.reclaims n.1 in
    let all = count_true_false r.1 in
    let olds = ap length t.olds_are in
    (
      omega (arith, a.kept_more, a.inserted_more),
      omega (arith, a.kept_more, a.same_orphaned, a.same_deleted),
    )
