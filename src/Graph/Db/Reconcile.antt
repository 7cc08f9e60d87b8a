-- ===== src/Graph/Db/Reconcile.antt =====
-- src/graph/db.rs: `reconcile_file_symbols`, the five passes that bring the rows of one file in line
-- with freshly fetched symbols. The hash of `body_fingerprint` is a parameter.
pub mod Matching
pub mod Apply
pub mod Stages
pub mod Counts
pub mod Outcome
pub mod Claims
pub mod Exact
pub mod Renames
use semnav.Base.{ℕ, Bool, Option, none, some, List, [], ◌∷◌, Str, length, replicate}
use semnav.Base.Sort.{sort_by}
use semnav.Graph.Model.{Node, ReconcileSymbol, ReconcileOutcome, default_outcome}
use semnav.Graph.Db.State.{Result, ok, err, ◌>>=◌, Db}
use semnav.Graph.Db.Nodes.{nodes_by_uri}
use semnav.Graph.Db.Meta.{drop_callees_cache}
use Matching.{BodyFingerprinted, exact_matches, candidates, cand_cmp, claim_all}
use Apply.{park, apply_symbols, reclaim, link_contains}

module _ (body_hash : BodyFingerprinted → ℕ) where
  -- The assignment that passes 1 and 2 end with: for each symbol the position of the old node that
  -- it keeps, and for each old node whether some symbol keeps it.
  unfoldable pub assign : List Node → List ReconcileSymbol → List (Option ℕ) × List Bool
  assign olds symbols =
      let (exact, used) = exact_matches olds symbols (replicate (length olds) Bool.false) in
      claim_all (sort_by cand_cmp (candidates body_hash olds used symbols exact 0)) (exact, used)

  unfoldable pub reconcile_file_symbols_tx :
      Str → Str → Bool → List ReconcileSymbol → Db → Result (ReconcileOutcome × Db)
  reconcile_file_symbols_tx uri language is_external symbols db =
      let db1 = drop_callees_cache uri db in
      let olds = nodes_by_uri uri db1 in
      let (assigned, used) = assign olds symbols in
      do
        db2 ← park uri db1
        (ids, outcome, db3) ←
            apply_symbols uri language is_external olds symbols assigned 0
              (replicate (length symbols) none) default_outcome db2
        (outcome', db4) ← reclaim olds used outcome db3
        db5 ← link_contains ids symbols 0 db4
        ok (outcome', db5)

  -- A failed transaction leaves the database as it was.
  abbrev pub ended : Result (ReconcileOutcome × Db) → Db → Result ReconcileOutcome × Db
  ended (ok (outcome, db')) db = (ok outcome, db')
  ended (err e) db = (err e, db)

  unfoldable pub reconcile_file_symbols :
      Str → Str → Bool → List ReconcileSymbol → Db → Result ReconcileOutcome × Db
  reconcile_file_symbols uri language is_external symbols db =
      ended (reconcile_file_symbols_tx uri language is_external symbols db) db
