-- ===== src/Query/Engine.antt =====
-- src/query/mod.rs: `QueryEngine`, and the steps that its operations are made of. An operation runs
-- statements on the database and requests to the client one after another; a database error ends it
-- (`?`), and what was written before stays written. Other users of the db actor do not run between.
pub mod Keeps
pub mod Post
use semnav.Base.{ℕ, ℤ, pos, negsuc, ◌%◌, ◌^◌, ◌-◌, Bool, Option, List, Str}
use semnav.Graph.Db.State.{Result, ok, err, Db}
use semnav.Query.Client.{LspReply}

-- `root_uri` is the engine's own field. The others stand for code outside: the file system behind
-- the path check of `confine`, the hasher of the standard library and the similarity of `strsim`.
pub record QueryEngine : Type 0 where
  pub root_uri : Str
  pub read_file_text : Str → Option Str
  pub content_hash : Str → Str
  pub similar : Str → Str → Bool

-- The database and the state of the client.
pub record World (S : Type 0) : Type 0 where
  pub db : Db
  pub client : S

abbrev pub Op : Type 0 → Type 0 → Type 0
Op S A = World S → Result A × World S

abbrev pub and_then : {S A B : Type 0} → Result A × World S → (A → Op S B) → Result B × World S
and_then (ok a, w) f = f a w
and_then (err e, w) f = (err e, w)

infixl 10 ◌>>=◌ ◌>>◌
unfoldable pub ◌>>=◌ : {S A B : Type 0} → Op S A → (A → Op S B) → Op S B
◌>>=◌ m f w = and_then (m w) f

unfoldable pub ◌>>◌ : {S B : Type 0} → Op S (Unit {0}) → Op S B → Op S B
unfolding ◌>>=◌
m >> k = m >>= λ _. k

module _ {S : Type 0} where
  unfoldable pub pure : {A : Type 0} → A → Op S A
  pure a w = (ok a, w)

  -- A statement that only reads.
  unfoldable pub read_db : {A : Type 0} → (Db → A) → Op S A
  read_db f w = (ok (f w.db), w)

  -- A statement that writes.
  unfoldable pub change_db : (Db → Db) → Op S (Unit {0})
  change_db f w = (ok tt, record w { db = f w.db })

  abbrev pub or_keep : {A : Type 0} → World S → Result (A × Db) → Result A × World S
  or_keep w (ok (a, db')) = (ok a, record w { db = db' })
  or_keep w (err e) = (err e, w)

  -- A statement that may fail, and then leaves the database as it was.
  unfoldable pub try_db : {A : Type 0} → (Db → Result (A × Db)) → Op S A
  try_db f w = or_keep w (f w.db)

  -- A request to the client.
  unfoldable pub ask : {A : Type 0} → (S → A × S) → Op S A
  ask f w = (ok (f w.client).0, record w { client = (f w.client).1 })

-- `v as u32` of an `i64`.
abbrev pub as_u32 : ℤ → ℕ
as_u32 (pos n) = n % 2 ^ 32
as_u32 (negsuc n) = 2 ^ 32 - 1 - n % 2 ^ 32
