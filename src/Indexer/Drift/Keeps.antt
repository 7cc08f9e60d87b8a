-- ===== src/Indexer/Drift/Keeps.antt =====
-- src/indexer/reconcile.rs: what the pass at the start of the daemon leaves as it is.
use semnav.Base.{
  ℕ, suc, zero, ◌<◌, ◌⊎◌, ◌==◌, ==_iff, arith, false, subst, ◌≡◌, refl, sym, ap, ◌∙◌, Bool-cases,
  inl, inr, Option, none, some, is_some, unwrap_or, not, [], Str,
}
use semnav.Graph.Model.{ReconcileOutcome}
use semnav.Graph.Db.State.{DbError, Result, ok, err, Db}
use semnav.Graph.Db.Nodes.{count_real_nodes}
use semnav.Graph.Db.Meta.{get_meta, set_meta}
use semnav.Graph.Db.Reconcile.{ended, reconcile_file_symbols, reconcile_file_symbols_tx}
use semnav.Adapters.{select_for_uri}
use semnav.Indexer.Drift.{
  Outside, Workspace, FetchedSymbols, FetchOutcome, unsupported, lsp_unavailable, fetched,
  DriftAttempt, committed, suspicious_empty, no_server, fetch_uri_symbols, reconciled, suspicious,
  recorded, commit, unchanged, current_content_hash, content_hash_meta_key,
  reconcile_uri_for_startup_drift,
}
use semnav.Indexer.Drift.Startup.{waited, Retried, retried, retry}

module _ {S : Type 0} (o : Outside S) where
  -- What holds of an attempt's result once it holds of every way to end.
  pub attempt_cases :
      (Q : Option DriftAttempt × Workspace S → Type 0) (uri : Str) (w : Workspace S)
      → Q (some committed, w)
      → Q (commit o uri (current_content_hash o uri w.state) w.db (fetch_uri_symbols o uri w.state))
      → Q (reconcile_uri_for_startup_drift o uri w)
  unfolding reconcile_uri_for_startup_drift
  attempt_cases Q uri w a b =
      elim (Bool-cases (not (is_some (select_for_uri o.custom_adapters uri)))) [
        | inl e ↦ rw (reconcile_uri_for_startup_drift, e) a
        | inr e ↦
            let hash = current_content_hash o uri w.state in
            elim (Bool-cases (unchanged o hash (get_meta (content_hash_meta_key uri) w.db))) [
              | inl t ↦ rw (reconcile_uri_for_startup_drift, e, t) a
              | inr t ↦ rw (reconcile_uri_for_startup_drift, e, t) b
            ]
      ]

  -- The server's list may be trusted: the file is gone, or the list is not empty, or the database had
  -- no symbols of the file either.
  abbrev pub IsTrusted : Str → FetchedSymbols → Db → Type 0
  IsTrusted uri f db =
      (f.file_exists ≡ false)
      ⊎ (0 < f.real_symbol_count)
      ⊎ (count_real_nodes uri f.module_fqn db ≡ 0)

  -- The database is the one after a successful reconcile with what the server has listed.
  abbrev pub IsReconciled : Str → Workspace S → Db → Type 0
  IsReconciled uri w db =
      (f : FetchedSymbols) × (s : S) × (outcome : ReconcileOutcome) × (fetch_uri_symbols o uri
          w.state
        ≡ (some (fetched f), s))
      × IsTrusted uri f w.db
      × (reconciled o uri f w.db ≡ (ok outcome, db))

  -- The database with the hash of the file recorded, or the mark of a missing file.
  abbrev pub with_hash : Str → Workspace S → Db → Db
  with_hash uri w =
      set_meta (content_hash_meta_key uri) (unwrap_or (current_content_hash o uri w.state) [])

  -- What an attempt with each result may leave.
  abbrev pub Leaves : Str → Workspace S → Option DriftAttempt → Db → Type 0
  Leaves uri w (some committed) db =
      (db ≡ w.db) ⊎ ((after : Db) × IsReconciled uri w after × (db ≡ with_hash uri w after))
  Leaves uri w (some suspicious_empty) db = db ≡ w.db
  Leaves uri w (some no_server) db = db ≡ w.db
  Leaves uri w none db = (db ≡ w.db) ⊎ IsReconciled uri w db

  trusted :
      (uri : Str) (f : FetchedSymbols) (db : Db)
      → suspicious o uri f db ≡ false
      → IsTrusted uri f db
  unfolding suspicious
  trusted uri f db h = elim (Bool-cases f.file_exists) [
    | inr e ↦ inl e
    | inl e ↦ elim (Bool-cases (f.real_symbol_count == 0)) [
      | inr t ↦ inr (inl (ground (arith, ==_iff f.real_symbol_count 0)))
      | inl t ↦ inr (inr (ground arith))
    ]
  ]

  -- A reconcile that failed was rolled back.
  rolled_back :
      (r : Result (ReconcileOutcome × Db)) (db db' : Db) {e : DbError}
      → ended o.body_hash r db ≡ (err e, db')
      → db' ≡ db
  rolled_back (ok p) db db' h = cc
  rolled_back (err e) db db' h = cc

  recorded-Leaves :
      (uri : Str) (w : Workspace S) (f : FetchedSymbols) (s : S) (r : Result ReconcileOutcome × Db)
      → fetch_uri_symbols o uri w.state ≡ (some (fetched f), s)
      → IsTrusted uri f w.db
      → reconciled o uri f w.db ≡ r
      → let done = recorded o uri (current_content_hash o uri w.state) s r in
        Leaves uri w done.0 done.1.db
  unfolding recorded reconciled reconcile_file_symbols
  recorded-Leaves uri w f s (err x, db) e t h = inl (
      rolled_back
        (reconcile_file_symbols_tx o.body_hash uri f.language f.is_external f.reconcile_symbols
          w.db)
        w.db db h)
  recorded-Leaves uri w f s (ok outcome, db) e t h =
      let done : IsReconciled uri w db = (f, s, outcome, e, t, h) in
      elim (Bool-cases (o.hash_written uri s)) [
        | inl b ↦ rw (recorded, b) (inr (db, done, refl))
        | inr b ↦ rw (recorded, b) (inr done)
      ]

  commit-Leaves :
      (uri : Str) (w : Workspace S) (r : Option FetchOutcome × S)
      → fetch_uri_symbols o uri w.state ≡ r
      → let done = commit o uri (current_content_hash o uri w.state) w.db r in
        Leaves uri w done.0 done.1.db
  unfolding commit
  commit-Leaves uri w (none, s) e = inl refl
  commit-Leaves uri w (some unsupported, s) e = inl refl
  commit-Leaves uri w (some lsp_unavailable, s) e = refl
  commit-Leaves uri w (some (fetched f), s) e = elim (Bool-cases (suspicious o uri f w.db)) [
    | inl t ↦ rw (commit, t) refl
    | inr t ↦
        rw (commit, t)
          (recorded-Leaves uri w f s (reconciled o uri f w.db) e (trusted uri f w.db t) refl)
  ]

  pub attempt-Leaves :
      (uri : Str) (w : Workspace S)
      → Leaves uri w
          (reconcile_uri_for_startup_drift o uri w).0
          (reconcile_uri_for_startup_drift o uri w).1.db
  attempt-Leaves uri w =
      attempt_cases (λ r. Leaves uri w r.0 r.1.db) uri w (inl refl)
        (commit-Leaves uri w (fetch_uri_symbols o uri w.state) refl)

  -- The second database is the first one, but for what other users have written while the code waited.
  pub data OnlyWaits (db : Db) : Db → Type 0 where
    same : OnlyWaits db db
    waits : (w : Workspace S) → OnlyWaits db w.db → OnlyWaits db (waited o w).db

  pub OnlyWaits-twice : (w : Workspace S) → OnlyWaits w.db (waited o (waited o w)).db
  OnlyWaits-twice w = waits (waited o w) (waits w same)

  pub OnlyWaits-trans : {a b c : Db} → OnlyWaits a b → OnlyWaits b c → OnlyWaits a c
  OnlyWaits-trans h same = h
  OnlyWaits-trans h (waits w k) = waits w (OnlyWaits-trans h k)

  held_back :
      (uri : Str) (w : Workspace S) (r : Option DriftAttempt) (db : Db)
      → Leaves uri w r db
      → (r ≡ some suspicious_empty) ⊎ (r ≡ some no_server)
      → db ≡ w.db
  held_back uri w (some suspicious_empty) db h k = h
  held_back uri w (some no_server) db h k = h
  held_back uri w none db h (inl e) = cc
  held_back uri w none db h (inr e) = cc
  held_back uri w (some committed) db h (inl e) = cc
  held_back uri w (some committed) db h (inr e) = cc

  retried-none :
      (a : Option DriftAttempt) (w : Workspace S) (rest : Retried o)
      → (retried o a w rest).0 ≡ none
      → ((a ≡ some suspicious_empty) ⊎ (a ≡ some no_server)) × (retried o a w rest ≡ rest)
  retried-none none w rest h = cc
  retried-none (some committed) w rest h = cc
  retried-none (some suspicious_empty) w rest h = (inl refl, refl)
  retried-none (some no_server) w rest h = (inr refl, refl)

  -- A file that no retry settles, however many there are, is skipped with the database as it was, but
  -- for what other users have written while the code waited.
  pub retry-skipped :
      (n : ℕ) (uri : Str) (w : Workspace S)
      → (retry o n uri w).0 ≡ none
      → OnlyWaits w.db (retry o n uri w).1.db
  unfolding retry
  retry-skipped zero uri w h = same
  retry-skipped (suc n) uri w h =
      let start = waited o (waited o w) in
      let r = reconcile_uri_for_startup_drift o uri start in
      let (held, ends) = retried-none r.0 r.1 (retry o n uri r.1) h in
      let back = held_back uri start r.0 r.1.db (attempt-Leaves uri start) held in
      let rest = retry-skipped n uri r.1 (sym (ap (λ x. x.0) ends) ∙ h) in
      subst (λ db. OnlyWaits w.db db) (sym (ap (λ x. x.1.db) ends))
        (OnlyWaits-trans (OnlyWaits-twice w)
          (subst (λ db. OnlyWaits db (retry o n uri r.1).1.db) back rest))
