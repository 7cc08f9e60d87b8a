-- ===== src/Indexer/Drift/Again.antt =====
-- src/indexer/reconcile.rs: the recorded hash of a file's bytes spares the next attempt its requests.
use semnav.Base.{
  ◌≡◌, ◌≢◌, refl, ap, ◌∙◌, Bool, true, false, Bool-cases, Option-cases, inl, inr, Option, none,
  some, Str, str_eq, str_eq_refl, str_eq_iff, get-put_self,
}
use semnav.Graph.Model.{ReconcileOutcome}
use semnav.Graph.Db.State.{Result, ok, err, Db}
use semnav.Graph.Db.Meta.{get_meta, set_meta}
use semnav.Adapters.{LanguageAdapter, select_for_uri}
use semnav.Indexer.Symbol.{Children}
use semnav.Indexer.Drift.{
  Outside, Workspace, FetchOutcome, unsupported, lsp_unavailable, fetched, committed, acquired,
  opened, answered, fetch_uri_symbols, reconciled, suspicious, recorded, commit, unchanged,
  current_content_hash, content_hash_meta_key, reconcile_uri_for_startup_drift,
}

module _ {S : Type 0} (o : Outside S) where
  -- The hash is the recorded one of the file.
  abbrev IsRecorded : Str → Str → Db → Type 0
  IsRecorded uri hash db = get_meta (content_hash_meta_key uri) db ≡ some hash

  recorded-IsRecorded :
      (uri hash : Str) (s : S) (r : Result ReconcileOutcome × Db)
      → (recorded o uri (some hash) s r).0 ≡ some committed
      → IsRecorded uri hash (recorded o uri (some hash) s r).1.db
  unfolding recorded get_meta set_meta
  recorded-IsRecorded uri hash s (ok outcome, db) h = elim (Bool-cases (o.hash_written uri s)) [
    | inl t ↦
        rw (recorded, t)
          (get-put_self str_eq (content_hash_meta_key uri) hash db.index_meta
            (str_eq_refl (content_hash_meta_key uri)))
    | inr t ↦ let k = rw (recorded, t) at h in cc
  ]
  recorded-IsRecorded uri hash s (err e, db) h = cc

  commit-IsRecorded :
      (uri hash : Str) (db : Db) (r : Option FetchOutcome × S)
      → r.0 ≢ some unsupported
      → (commit o uri (some hash) db r).0 ≡ some committed
      → IsRecorded uri hash (commit o uri (some hash) db r).1.db
  unfolding commit
  commit-IsRecorded uri hash db (none, s) u h = cc
  commit-IsRecorded uri hash db (some unsupported, s) u h = absurd (u refl)
  commit-IsRecorded uri hash db (some lsp_unavailable, s) u h = cc
  commit-IsRecorded uri hash db (some (fetched f), s) u h =
      elim (Bool-cases (suspicious o uri f db)) [
        | inl e ↦ let k = rw (commit, e) at h in cc
        | inr e ↦
            let k = rw (commit, e) at h in
            rw (commit, e) (recorded-IsRecorded uri hash s (reconciled o uri f db) k)
      ]

  answered-supported :
      (adapter : LanguageAdapter) (uri : Str) (file_exists : Bool) (r : Option Children × S)
      → (answered o adapter uri file_exists r).0 ≢ some unsupported
  answered-supported adapter uri file_exists (none, s) = λ e. cc
  answered-supported adapter uri file_exists (some symbols, s) = λ e. cc

  opened-supported :
      (adapter : LanguageAdapter) (uri : Str) (file_exists : Bool) (r : Bool × S)
      → (opened o adapter uri file_exists r).0 ≢ some unsupported
  opened-supported adapter uri file_exists (false, s) = λ e. cc
  opened-supported adapter uri file_exists (true, s) =
      answered-supported adapter uri file_exists (o.request_document_symbols uri s)

  acquired-supported :
      (adapter : LanguageAdapter) (uri : Str) (r : Bool × S)
      → (acquired o adapter uri r).0 ≢ some unsupported
  acquired-supported adapter uri (false, s) = λ e. cc
  acquired-supported adapter uri (true, s) = opened-supported adapter uri _ _

  fetch-supported :
      (uri : Str) (s : S) (adapter : LanguageAdapter)
      → select_for_uri o.custom_adapters uri ≡ some adapter
      → (fetch_uri_symbols o uri s).0 ≢ some unsupported
  unfolding fetch_uri_symbols
  fetch-supported uri s adapter e =
      rw (fetch_uri_symbols, e)
        (acquired-supported adapter uri (o.acquire_for_watcher adapter.language_name s))

  recorded-unchanged :
      (hash : Str) (m : Option Str) → unchanged o (some hash) m ≡ true → m ≡ some hash
  recorded-unchanged hash none h = cc
  recorded-unchanged hash (some m) h = ap some ((str_eq_iff m hash).0 h)

  -- After an attempt that was committed, the hash of the bytes is the recorded one.
  drift-IsRecorded :
      (uri text : Str) (w : Workspace S) (adapter : LanguageAdapter)
      → select_for_uri o.custom_adapters uri ≡ some adapter
      → o.read uri w.state ≡ some text
      → (reconcile_uri_for_startup_drift o uri w).0 ≡ some committed
      → IsRecorded uri (o.bytes_hash text) (reconcile_uri_for_startup_drift o uri w).1.db
  unfolding reconcile_uri_for_startup_drift current_content_hash
  drift-IsRecorded uri text w adapter e r =
      let hash = o.bytes_hash text in
      elim (Bool-cases (unchanged o (some hash) (get_meta (content_hash_meta_key uri) w.db))) [
        | inl t ↦ rw (reconcile_uri_for_startup_drift, e, r, t) (λ h. recorded-unchanged hash _ t)
        | inr t ↦
            rw (reconcile_uri_for_startup_drift, e, r, t)
              (commit-IsRecorded uri hash w.db (fetch_uri_symbols o uri w.state)
                (fetch-supported uri w.state adapter e))
      ]

  -- If an attempt at a file that exists is committed, then the next attempt at it, on the database
  -- that the first one left and whatever the servers' state is then, is committed at once, with no
  -- request and no change of the database, as long as the bytes of the file are the same.
  pub drift_again :
      (uri text : Str) (w w' : Workspace S)
      → (reconcile_uri_for_startup_drift o uri w).0 ≡ some committed
      → o.read uri w.state ≡ some text
      → o.read uri w'.state ≡ some text
      → w'.db ≡ (reconcile_uri_for_startup_drift o uri w).1.db
      → reconcile_uri_for_startup_drift o uri w' ≡ (some committed, w')
  unfolding reconcile_uri_for_startup_drift current_content_hash
  drift_again uri text w w' h r r' d = elim (Option-cases (select_for_uri o.custom_adapters uri)) [
    | inl e ↦ rw (reconcile_uri_for_startup_drift, e) refl
    | inr (adapter, e) ↦
        let kept =
          ap (get_meta (content_hash_meta_key uri)) d ∙ drift-IsRecorded uri text w adapter e r h in
        rw (reconcile_uri_for_startup_drift, e, r', kept, str_eq_refl (o.bytes_hash text)) refl
  ]
