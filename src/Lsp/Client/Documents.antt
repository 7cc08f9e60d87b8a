-- ===== src/Lsp/Client/Documents.antt =====
-- src/lsp/client.rs: `ensure_document` and the open documents that all clones of a client share.
use semnav.Base.{
  ℕ, ◌+◌, ◌%◌, ◌^◌, Option, none, some, List, [], ◌∷◌, Str, str_eq, put, get, if◌then◌else◌,
}

-- `open_docs`: the version and the last text of each document. A version is the bits of an `i32`.
abbrev pub Docs : Type 0
Docs = List (Str × (ℕ × Str))

pub data Action : Type 0 where
  skip open_new : Action
  change : ℕ → Action

-- The decision for a document with the entry `existing`, under the lock.
abbrev pub decide_entry : Option (ℕ × Str) → Str → Str → Docs → Action × Docs
decide_entry none uri text docs = (open_new, put str_eq uri (1, text) docs)
decide_entry (some (version, existing)) uri text docs =
    let next = (version + 1) % 2 ^ 32 in
    if str_eq existing text then (skip, docs) else (change next, put str_eq uri (next, text) docs)

unfoldable pub decide : Str → Str → Docs → Action × Docs
unfolding put get
decide uri text docs = decide_entry (get str_eq uri docs) uri text docs

-- `textDocument/didOpen` and `textDocument/didChange`.
pub data DocNotification : Type 0 where
  did_open : Str → Str → ℕ → Str → DocNotification
  did_change : Str → ℕ → Str → DocNotification

-- What is sent for an action, after the lock is released.
unfoldable pub notifications : Action → Str → Str → Str → List DocNotification
notifications skip uri language_id text = []
notifications open_new uri language_id text = did_open uri language_id 1 text ∷ []
notifications (change version) uri language_id text = did_change uri version text ∷ []

-- A call that no other call interrupts.
unfoldable pub ensure_document : Str → Str → Str → Docs → List DocNotification × Docs
unfolding decide notifications
ensure_document uri language_id text docs =
    let (action, docs') = decide uri text docs in (notifications action uri language_id text, docs')
