-- ===== src/Lsp/Client/Mirror.antt =====
-- src/lsp/client.rs: what a language server makes of the notifications of `ensure_document`.
use semnav.Base.{
  ℕ, suc, ◌+◌, ◌%◌, ◌^◌, ◌≤◌, ◌<◌, ◌≡◌, refl, ◌∙◌, ap, subst, true, Bool-cases, Option-cases, inl,
  inr, Option, none, some, List, [], ◌∷◌, ◌++◌, length, All, Str, str_eq, put, get, ltb, is_some,
  if◌then◌else◌, arith,
}
use semnav.Lsp.Client.Documents.{
  Docs, Action, decide, decide_entry, DocNotification, did_open, did_change, notifications,
  ensure_document,
}

-- A server by the protocol: a document is opened once, and each change raises its version. None is a
-- breach of the protocol.
abbrev changed : Option (ℕ × Str) → Str → ℕ → Str → Docs → Option Docs
changed none uri version text docs = none
changed (some (before, old)) uri version text docs =
    if ltb before version then some (put str_eq uri (version, text) docs) else none

unfoldable pub receive : DocNotification → Docs → Option Docs
unfolding put get
receive (did_open uri language_id version text) docs =
    if is_some (get str_eq uri docs) then none else some (put str_eq uri (version, text) docs)
receive (did_change uri version text) docs = changed (get str_eq uri docs) uri version text docs

unfoldable pub receive_all : List DocNotification → Docs → Option Docs
unfolding receive
receive_all [] docs = some docs
receive_all (n ∷ ns) docs = elim (receive n docs) [
  | none ↦ none
  | some docs' ↦ receive_all ns docs'
]

-- Calls of `ensure_document` one after another, each with its document, language and text.
unfoldable pub ensure_all : List (Str × Str × Str) → Docs → List DocNotification × Docs
unfolding ensure_document
ensure_all [] docs = ([], docs)
ensure_all ((uri, language_id, text) ∷ calls) docs =
    let (sent, docs') = ensure_document uri language_id text docs in
    let (sent', docs″) = ensure_all calls docs' in (sent ++ sent', docs″)

-- All versions are at most `k`.
abbrev Within : ℕ → Docs → Type 0
Within k docs = All (λ d. d.1.0 ≤ k) docs

Within-suc : (k : ℕ) (docs : Docs) → Within k docs → Within (suc k) docs
Within-suc k [] h = tt
Within-suc k (d ∷ docs) h = (omega arith, Within-suc k docs h.1)

Within-put :
    (k : ℕ) (uri text : Str) (version : ℕ) (docs : Docs)
    → version ≤ k
    → Within k docs
    → Within k (put str_eq uri (version, text) docs)
unfolding put
Within-put k uri text version [] h w = (h, tt)
Within-put k uri text version ((u, v) ∷ docs) h w = elim (Bool-cases (str_eq u uri)) [
  | inl e ↦ rw e (h, w.1)
  | inr e ↦ rw e (w.0, Within-put k uri text version docs h w.1)
]

Within-get :
    (k : ℕ) (uri : Str) (docs : Docs) (version : ℕ) (text : Str)
    → Within k docs
    → get str_eq uri docs ≡ some (version, text)
    → version ≤ k
unfolding get
Within-get k uri [] version text w h = cc
Within-get k uri ((u, v) ∷ docs) version text w h = elim (Bool-cases (str_eq u uri)) [
  | inl e ↦
      let found : some v ≡ some (version, text) = ground arith in
      let same : v ≡ (version, text) = cc in subst (λ p. p.0 ≤ k) same w.0
  | inr e ↦ Within-get k uri docs version text w.1 (ground arith)
]

-- One call, by the entry of the document.
Mirrored : ℕ → Str → Str → Str → Docs → Action × Docs → Type 0
Mirrored k uri language_id text docs r =
    (receive_all (notifications r.0 uri language_id text) docs ≡ some r.1) × Within (suc k) r.1

decide_entry-Mirrored :
    (entry : Option (ℕ × Str)) (k : ℕ) (uri language_id text : Str) (docs : Docs)
    → get str_eq uri docs ≡ entry
    → suc k < 2 ^ 31
    → Within k docs
    → Mirrored k uri language_id text docs (decide_entry entry uri text docs)
unfolding Mirrored receive_all notifications
decide_entry-Mirrored none k uri language_id text docs e h w = (
  rw (receive_all, receive, e),
  Within-put (suc k) uri text 1 docs (omega arith) (Within-suc k docs w),
)
decide_entry-Mirrored (some (version, existing)) k uri language_id text docs e h w =
    let old : version ≤ k = Within-get k uri docs version existing w e in
    let next : (version + 1) % 2 ^ 32 ≡ version + 1 = omega arith in
    elim (Bool-cases (str_eq existing text)) [
      | inl same ↦ rw same (refl, Within-suc k docs w)
      | inr same ↦
          let up : ltb version (version + 1) ≡ true = ground arith in
          rw (same, next)
            (
              rw (receive_all, receive, e, up),
              Within-put (suc k) uri text (version + 1) docs (omega arith) (Within-suc k docs w),
            )
    ]

ensure_document-Mirrored :
    (k : ℕ) (uri language_id text : Str) (docs : Docs)
    → suc k < 2 ^ 31
    → Within k docs
    → (receive_all (ensure_document uri language_id text docs).0 docs
        ≡ some (ensure_document uri language_id text docs).1)
      × Within (suc k) (ensure_document uri language_id text docs).1
unfolding ensure_document decide Mirrored
ensure_document-Mirrored k uri language_id text docs h w =
    decide_entry-Mirrored (get str_eq uri docs) k uri language_id text docs refl h w

receive_all-append :
    (ns ms : List DocNotification) (docs docs' : Docs)
    → receive_all ns docs ≡ some docs'
    → receive_all (ns ++ ms) docs ≡ receive_all ms docs'
unfolding receive_all
receive_all-append [] ms docs docs' h = let same : docs ≡ docs' = cc in ap (receive_all ms) same
receive_all-append (n ∷ ns) ms docs docs' h = elim (Option-cases (receive n docs)) [
  | inl e ↦ cc
  | inr (d, e) ↦ rw (receive_all, e) (receive_all-append ns ms d docs' (rw (receive_all, e) at h))
]

ensure_all-Mirrored :
    (calls : List (Str × Str × Str)) (k : ℕ) (docs : Docs)
    → k + length calls < 2 ^ 31
    → Within k docs
    → receive_all (ensure_all calls docs).0 docs ≡ some (ensure_all calls docs).1
unfolding ensure_all receive_all
ensure_all-Mirrored [] k docs h w = refl
ensure_all-Mirrored ((uri, language_id, text) ∷ calls) k docs h w =
    let one = ensure_document uri language_id text docs in
    let (sent, w') = ensure_document-Mirrored k uri language_id text docs (omega arith) w in
    receive_all-append one.0 (ensure_all calls one.1).0 docs one.1 sent
    ∙ ensure_all-Mirrored calls (suc k) one.1 (omega arith) w'

-- Calls of `ensure_document` that follow one another, fewer than 2^31 of them, keep to the protocol:
-- the server opens each document once and sees its version rise with each change, and what the
-- server holds in the end is what the client takes it to hold.
pub ensure_all-mirror :
    (calls : List (Str × Str × Str))
    → length calls < 2 ^ 31
    → receive_all (ensure_all calls []).0 [] ≡ some (ensure_all calls []).1
ensure_all-mirror calls h = ensure_all-Mirrored calls 0 [] (omega arith) tt
