-- ===== src/Indexer/Drift/Startup.antt =====
-- src/indexer/reconcile.rs: the pass at the start of the daemon, over all files, with its retries.
use semnav.Base.{ℕ, suc, zero, Option, none, some, List, [], ◌∷◌, ◌++◌, Str}
use semnav.Graph.Db.Nodes.{known_uris, distinct}
use semnav.Indexer.Drift.{
  Outside, Workspace, DriftAttempt, committed, suspicious_empty, no_server,
  reconcile_uri_for_startup_drift,
}

abbrev pub suspicious_retry_attempts : ℕ
suspicious_retry_attempts = 5

module _ {S : Type 0} (o : Outside S) where
  -- `drift_candidates`: a set, as a list without repetitions.
  unfoldable pub drift_candidates : List Str → List Str → List Str
  unfolding distinct
  drift_candidates discovered known = o.hash_order (distinct (discovered ++ known))

  -- `wait_until_query_idle` and `sleep`
  abbrev pub waited : Workspace S → Workspace S
  waited w = o.wait w

  -- Failures so far and files to try again.
  abbrev pub Tally : Type 0
  Tally = ℕ × List Str

  abbrev pub tallied : Str → Option DriftAttempt → Tally → Tally
  tallied uri none (failures, held) = (suc failures, held)
  tallied uri (some committed) t = t
  tallied uri (some suspicious_empty) (failures, held) = (failures, held ++ (uri ∷ []))
  tallied uri (some no_server) (failures, held) = (failures, held ++ (uri ∷ []))

  -- The first loop of `reconcile_startup_drift`.
  unfoldable pub first_pass : List Str → Tally → Workspace S → Tally × Workspace S
  unfolding reconcile_uri_for_startup_drift
  first_pass [] t w = (t, w)
  first_pass (uri ∷ uris) t w =
      let (attempt, w') = reconcile_uri_for_startup_drift o uri (waited w) in
      first_pass uris (tallied uri attempt t) w'

  abbrev pub Retried : Type 0
  Retried = Option (Option DriftAttempt) × Workspace S

  -- Whether an attempt ends the loop, or `rest` follows.
  abbrev pub retried : Option DriftAttempt → Workspace S → Retried → Retried
  retried none w rest = (some none, w)
  retried (some committed) w rest = (some (some committed), w)
  retried (some suspicious_empty) w rest = rest
  retried (some no_server) w rest = rest

  -- The inner retry loop: what the last attempt gave, if it ended the loop.
  unfoldable pub retry : ℕ → Str → Workspace S → Retried
  unfolding reconcile_uri_for_startup_drift
  retry zero uri w = (none, w)
  retry (suc attempts) uri w =
      let (attempt, w') = reconcile_uri_for_startup_drift o uri (waited (waited w)) in
      let rest = retry attempts uri w' in retried attempt w' rest

  -- The failures and the files that are skipped.
  abbrev pub settled : Str → Option (Option DriftAttempt) → Tally → Tally
  settled uri none (failures, skipped) = (failures, skipped ++ (uri ∷ []))
  settled uri (some none) (failures, skipped) = (suc failures, skipped)
  settled uri (some (some a)) t = t

  -- The loop over the files that were held back.
  unfoldable pub retry_pass : List Str → Tally → Workspace S → Tally × Workspace S
  unfolding retry
  retry_pass [] t w = (t, w)
  retry_pass (uri ∷ uris) t w =
      let (r, w') = retry suspicious_retry_attempts uri w in retry_pass uris (settled uri r t) w'

  -- Nothing where the walk fails, else the numbers that are logged.
  unfoldable pub reconcile_startup_drift : Workspace S → Option Tally × Workspace S
  unfolding first_pass retry_pass known_uris drift_candidates
  reconcile_startup_drift w = elim (o.discover_files w.state) [
    | none ↦ (none, w)
    | some discovered ↦
        let uris = drift_candidates discovered (known_uris w.db) in
        let ((failures, held), w') = first_pass uris (0, []) w in
        let (t, w″) = retry_pass held (failures, []) w' in (some t, w″)
  ]
