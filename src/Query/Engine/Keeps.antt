-- ===== src/Query/Engine/Keeps.antt =====
-- src/query: what an operation does to the database, as a relation between the databases before and
-- after it. The relation has to hold for each statement, and follows for what is made of them.
use semnav.Base.{◌≡◌, refl, subst}
use semnav.Graph.Model.{Edge}
use semnav.Graph.Db.State.{Result, ok, err, Db}
use semnav.Graph.Db.Edges.{upsert_edge}
use semnav.Graph.Db.Unique.{Holds}
use semnav.Query.Engine.{World, Op, and_then, ◌>>=◌, ◌>>◌, pure, read_db, ask, or_keep, try_db}

-- After each run, failed ones included, the relation holds.
unfoldable pub Keeps : {S A : Type 0} → (Db → Db → Type 0) → Op S A → Type 0
Keeps R m = (w : _) → R w.db (m w).1.db

-- A preorder that holds for writing an edge of a kind `E`.
pub record Frame (R : Db → Db → Type 0) (E : Edge → Type 0) : Type 0 where
  pub stay : (db : Db) → R db db
  pub next : (a b c : Db) → R a b → R b c → R a c
  pub write : (e : Edge) → E e → (db : Db) → Holds (λ p. R db p.1) (upsert_edge e db)

-- Steps that write nothing.
module _ {S A : Type 0} where
  read_db-db : (f : Db → A) (w : World S) → (read_db f w).1.db ≡ w.db
  unfolding read_db
  read_db-db f w = refl

  pure-db : (a : A) (w : World S) → (pure a w).1.db ≡ w.db
  unfolding pure
  pure-db a w = refl

  ask-db : (f : S → A × S) (w : World S) → (ask f w).1.db ≡ w.db
  unfolding ask
  ask-db f w = refl

module _ {S : Type 0} {R : Db → Db → Type 0} {E : Edge → Type 0} (frame : Frame R E) where
  and_then-Keeps :
      {A B : Type 0} (db : Db) (r : Result A × World S) (f : A → Op S B)
      → R db r.1.db
      → ((a : A) → Keeps R (f a))
      → R db (and_then r f).1.db
  unfolding Keeps
  and_then-Keeps db (ok a, w) f h k = frame.next db w.db (f a w).1.db h (k a w)
  and_then-Keeps db (err e, w) f h k = h

  pub Keeps-bind :
      {A B : Type 0} (m : Op S A) (f : A → Op S B)
      → Keeps R m
      → ((a : A) → Keeps R (f a))
      → Keeps R (m >>= f)
  unfolding Keeps ◌>>=◌
  Keeps-bind m f h k w = and_then-Keeps w.db (m w) f (h w) k

  -- An operation that writes nothing.
  pub reads-Keeps : {A : Type 0} (m : Op S A) → ((w : World S) → (m w).1.db ≡ w.db) → Keeps R m
  unfolding Keeps
  reads-Keeps m h w = rw (h w) (frame.stay w.db)

  or_keep-Keeps :
      {A : Type 0} (w : World S) (r : Result (A × Db))
      → Holds (λ p. R w.db p.1) r
      → R w.db (or_keep w r).1.db
  or_keep-Keeps w (ok p) h = h
  or_keep-Keeps w (err e) h = frame.stay w.db

  -- What is to be shown for an operation that is given by its run.
  pub Keeps-run : {A : Type 0} (m : Op S A) → ((w : World S) → R w.db (m w).1.db) → Keeps R m
  unfolding Keeps
  Keeps-run m h = h

  try_db-runs :
      {A : Type 0} (f : Db → Result (A × Db))
      → ((db : Db) → Holds (λ p. R db p.1) (f db))
      → (w : World S) → R w.db (try_db f w).1.db
  unfolding try_db
  try_db-runs f h w = or_keep-Keeps w (f w.db) (h w.db)

  pub Keeps-then :
      {B : Type 0} (m : Op S (Unit {0})) (k : Op S B) → Keeps R m → Keeps R k → Keeps R (m >> k)
  unfolding ◌>>◌
  Keeps-then m k h h' = Keeps-bind m (λ _. k) h (λ _. h')

module _ (S : Type 0) {R : Db → Db → Type 0} {E : Edge → Type 0} (frame : Frame R E) where
  pub try_db-Keeps :
      {A : Type 0} (f : Db → Result (A × Db))
      → ((db : Db) → Holds (λ p. R db p.1) (f db))
      → Keeps {S = S} R (try_db f)
  try_db-Keeps f h = Keeps-run frame _ (try_db-runs frame f h)

  pub read-Keeps : {A : Type 0} (f : Db → A) → Keeps {S = S} R (read_db f)
  read-Keeps f = reads-Keeps frame _ (read_db-db f)

  pub pure-Keeps : {A : Type 0} (a : A) → Keeps {S = S} R (pure a)
  pure-Keeps a = reads-Keeps frame _ (pure-db a)

  pub ask-Keeps : {A : Type 0} (f : S → A × S) → Keeps R (ask f)
  ask-Keeps f = reads-Keeps frame _ (ask-db f)

-- What a run that is known has kept.
pub Keeps-ran :
    {S A : Type 0} (R : Db → Db → Type 0) (m : Op S A) (w w' : World S) (r : Result A)
    → Keeps R m
    → m w ≡ (r, w')
    → R w.db w'.db
unfolding Keeps
Keeps-ran R m w w' r h e = subst (λ p. R w.db p.1.db) e (h w)

pub Keeps-on :
    {S A : Type 0} (R : Db → Db → Type 0) (m : Op S A) (w : World S) → Keeps R m → R w.db (m w).1.db
unfolding Keeps
Keeps-on R m w h = h w
