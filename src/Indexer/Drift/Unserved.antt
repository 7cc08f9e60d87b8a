-- ===== src/Indexer/Drift/Unserved.antt =====
-- src/indexer/reconcile.rs: the pass at the start of the daemon while no language server is there.
use semnav.Base.{
  ℕ, zero, suc, ◌≡◌, ◌≢◌, ◌⊎◌, inl, inr, refl, sym, ◌∙◌, subst, Bool, true, false, Option-cases,
  Option, none, some, List, [], ◌∷◌, Str,
}
use semnav.Graph.Db.Nodes.{known_uris}
use semnav.Adapters.{LanguageAdapter, select_for_uri}
use semnav.Indexer.Drift.{
  Outside, Workspace, FetchOutcome, unsupported, lsp_unavailable, fetched, DriftAttempt, committed,
  suspicious_empty, no_server, acquired, fetch_uri_symbols, commit, current_content_hash,
  reconcile_uri_for_startup_drift,
}
use semnav.Indexer.Drift.Startup.{
  Tally, tallied, waited, first_pass, Retried, retried, retry, retry_pass, settled,
  suspicious_retry_attempts, reconcile_startup_drift, drift_candidates,
}
use semnav.Indexer.Drift.Keeps.{
  attempt_cases, OnlyWaits, same, OnlyWaits-twice, OnlyWaits-trans, waits,
}

-- The number of failures that is logged, if the pass came so far, is zero.
abbrev pub NoFailures : Option (ℕ × List Str) → Type 0
NoFailures none = Unit
NoFailures (some (failures, skipped)) = failures ≡ 0

module _ {S : Type 0} (o : Outside S)
    (unserved : (language : Str) (s : S) → (o.acquire_for_watcher language s).0 ≡ false) where
  -- There is nothing to ask, or nobody.
  abbrev Unasked : Option FetchOutcome → Type 0
  Unasked r = (r ≡ some unsupported) ⊎ (r ≡ some lsp_unavailable)

  acquired-Unasked :
      (adapter : LanguageAdapter) (uri : Str) (r : Bool × S)
      → r.0 ≡ false
      → Unasked (acquired o adapter uri r).0
  acquired-Unasked adapter uri (false, s) h = inr refl
  acquired-Unasked adapter uri (true, s) h = cc

  fetch-Unasked : (uri : Str) (s : S) → Unasked (fetch_uri_symbols o uri s).0
  unfolding fetch_uri_symbols
  fetch-Unasked uri s = elim (Option-cases (select_for_uri o.custom_adapters uri)) [
    | inl e ↦ rw (fetch_uri_symbols, e) (inl refl)
    | inr (adapter, e) ↦
        rw (fetch_uri_symbols, e)
          (acquired-Unasked adapter uri (o.acquire_for_watcher adapter.language_name s)
            (unserved adapter.language_name s))
  ]

  -- No error, and the database as it was.
  abbrev Calm : Workspace S → Option DriftAttempt × Workspace S → Type 0
  Calm w r = (r.0 ≢ none) × (r.1.db ≡ w.db)

  commit-Calm :
      (uri : Str) (hash : Option Str) (w : Workspace S) (r : Option FetchOutcome × S)
      → Unasked r.0
      → Calm w (commit o uri hash w.db r)
  unfolding commit
  commit-Calm uri hash w (some unsupported, s) h = (λ e. cc, refl)
  commit-Calm uri hash w (some lsp_unavailable, s) h = (λ e. cc, refl)
  commit-Calm uri hash w (none, s) (inl e) = cc
  commit-Calm uri hash w (none, s) (inr e) = cc
  commit-Calm uri hash w (some (fetched f), s) (inl e) = cc
  commit-Calm uri hash w (some (fetched f), s) (inr e) = cc

  attempt-Calm : (uri : Str) (w : Workspace S) → Calm w (reconcile_uri_for_startup_drift o uri w)
  attempt-Calm uri w =
      attempt_cases o (Calm w) uri w (λ e. cc, refl)
        (commit-Calm uri (current_content_hash o uri w.state) w (fetch_uri_symbols o uri w.state)
          (fetch-Unasked uri w.state))

  tallied-Calm :
      (uri : Str) (a : Option DriftAttempt) (t : Tally o) → a ≢ none → (tallied o uri a t).0 ≡ t.0
  tallied-Calm uri none t h = absurd (h refl)
  tallied-Calm uri (some committed) t h = refl
  tallied-Calm uri (some suspicious_empty) t h = refl
  tallied-Calm uri (some no_server) t h = refl

  first_pass-Calm :
      (uris : List Str) (t : Tally o) (w : Workspace S)
      → ((first_pass o uris t w).0.0 ≡ t.0) × OnlyWaits o w.db (first_pass o uris t w).1.db
  unfolding first_pass
  first_pass-Calm [] t w = (refl, same)
  first_pass-Calm (uri ∷ uris) t w =
      let r = reconcile_uri_for_startup_drift o uri (waited o w) in
      let (no_error, back) = attempt-Calm uri (waited o w) in
      let (kept, rest) = first_pass-Calm uris (tallied o uri r.0 t) r.1 in
      (
        kept ∙ tallied-Calm uri r.0 t no_error,
        OnlyWaits-trans o (waits w same) (
            subst (λ db. OnlyWaits o db (first_pass o uris (tallied o uri r.0 t) r.1).1.db) back
              rest),
      )

  -- A retry loop that did not end in an error.
  abbrev Settled : Workspace S → Retried o → Type 0
  Settled w r = (r.0 ≢ some none) × OnlyWaits o w.db r.1.db

  retried-Settled :
      (a : Option DriftAttempt) (w x : Workspace S) (rest : Retried o)
      → a ≢ none
      → OnlyWaits o w.db x.db
      → Settled w rest
      → Settled w (retried o a x rest)
  retried-Settled none w x rest h k r = absurd (h refl)
  retried-Settled (some committed) w x rest h k r = (λ e. cc, k)
  retried-Settled (some suspicious_empty) w x rest h k r = r
  retried-Settled (some no_server) w x rest h k r = r

  retry-Settled : (n : ℕ) (uri : Str) (w : Workspace S) → Settled w (retry o n uri w)
  unfolding retry
  retry-Settled zero uri w = (λ e. cc, same)
  retry-Settled (suc n) uri w =
      let start = waited o (waited o w) in
      let r = reconcile_uri_for_startup_drift o uri start in
      let (no_error, back) = attempt-Calm uri start in
      let (ends, rest) = retry-Settled n uri r.1 in
      let upto = subst (λ db. OnlyWaits o w.db db) (sym back) (OnlyWaits-twice o w) in
      retried-Settled r.0 w r.1 (retry o n uri r.1) no_error upto
        (ends, OnlyWaits-trans o upto rest)

  settled-Calm :
      (uri : Str) (r : Option (Option DriftAttempt)) (t : Tally o)
      → r ≢ some none
      → (settled o uri r t).0 ≡ t.0
  settled-Calm uri none t h = refl
  settled-Calm uri (some none) t h = absurd (h refl)
  settled-Calm uri (some (some a)) t h = refl

  retry_pass-Calm :
      (uris : List Str) (t : Tally o) (w : Workspace S)
      → ((retry_pass o uris t w).0.0 ≡ t.0) × OnlyWaits o w.db (retry_pass o uris t w).1.db
  unfolding retry_pass
  retry_pass-Calm [] t w = (refl, same)
  retry_pass-Calm (uri ∷ uris) t w =
      let r = retry o suspicious_retry_attempts uri w in
      let (ends, upto) = retry-Settled suspicious_retry_attempts uri w in
      let (kept, rest) = retry_pass-Calm uris (settled o uri r.0 t) r.1 in
      (kept ∙ settled-Calm uri r.0 t ends, OnlyWaits-trans o upto rest)

  -- While no language server can be had, the pass at the start of the daemon counts no failure, and
  -- leaves the database as it was, but for what other users have written while the code waited: it
  -- orphans and deletes nothing, of files that are gone or changed either.
  pub startup_unserved :
      (w : Workspace S)
      → NoFailures (reconcile_startup_drift o w).0
        × OnlyWaits o w.db (reconcile_startup_drift o w).1.db
  unfolding reconcile_startup_drift
  startup_unserved w = elim (Option-cases (o.discover_files w.state)) [
    | inl e ↦ rw (reconcile_startup_drift, e) (tt, same)
    | inr (discovered, e) ↦
        let uris = drift_candidates o discovered (known_uris w.db) in
        let first = first_pass o uris (0, []) w in
        let (none_yet, upto) = first_pass-Calm uris (0, []) w in
        let (kept, rest) = retry_pass-Calm first.0.1 (first.0.0, []) first.1 in
        rw (reconcile_startup_drift, e) (kept ∙ none_yet, OnlyWaits-trans o upto rest)
  ]
