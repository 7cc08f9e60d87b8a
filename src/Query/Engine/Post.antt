-- ===== src/Query/Engine/Post.antt =====
-- src/query: what holds after an operation that returns.
use semnav.Base.{◌≡◌, ap}
use semnav.Graph.Db.State.{Result, ok, err, Db}
use semnav.Query.Engine.{World, Op, and_then, ◌>>=◌, ◌>>◌, pure, read_db}
use semnav.Query.Engine.Keeps.{Keeps}

-- The value and the database, if the operation did not fail.
abbrev pub Post : {S A : Type 0} → (A → Db → Type 0) → Result A × World S → Type 0
Post Q (ok a, w) = Q a w.db
Post Q (err e, w) = Unit

module _ {S A : Type 0} where
  and_then-Post :
      {B : Type 0} (P : A → Db → Type 0) (Q : B → Db → Type 0) (r : Result A × World S)
      (f : A → Op S B)
      → Post P r
      → ((a : A) (w : World S) → P a w.db → Post Q (f a w))
      → Post Q (and_then r f)
  and_then-Post P Q (ok a, w) f h k = k a w h
  and_then-Post P Q (err e, w) f h k = tt

  pub Post-bind :
      {B : Type 0} (P : A → Db → Type 0) (Q : B → Db → Type 0) (m : Op S A) (f : A → Op S B)
      (w : World S)
      → Post P (m w)
      → ((a : A) (w' : World S) → P a w'.db → Post Q (f a w'))
      → Post Q ((m >>= f) w)
  unfolding ◌>>=◌
  Post-bind P Q m f w h k = and_then-Post P Q (m w) f h k

  of_result : (R : Db → Type 0) (r : Result A × World S) → R r.1.db → Post (λ a. R) r
  of_result R (ok a, w) h = h
  of_result R (err e, w) h = tt

  pub Keeps-Post :
      (R : Db → Db → Type 0) (m : Op S A) (w : World S) → Keeps R m → Post (λ a. R w.db) (m w)
  unfolding Keeps
  Keeps-Post R m w h = of_result (R w.db) (m w) (h w)

  pub pure-Post : (Q : A → Db → Type 0) (a : A) (w : World S) → Q a w.db → Post Q (pure a w)
  unfolding pure
  pure-Post Q a w h = h

  pub read-Post :
      (Q : A → Db → Type 0) (f : Db → A) (w : World S) → Q (f w.db) w.db → Post Q (read_db f w)
  unfolding read_db
  read-Post Q f w h = h

module _ {S A : Type 0} where
  pub Post-map :
      (P Q : A → Db → Type 0) (r : Result A × World S)
      → Post P r
      → ((a : A) (db : Db) → P a db → Q a db)
      → Post Q r
  Post-map P Q (ok a, w) h k = k a w.db h
  Post-map P Q (err e, w) h k = tt

  pub Post-any : (r : Result A × World S) → Post (λ a db. Unit) r
  Post-any (ok a, w) = tt
  Post-any (err e, w) = tt

  -- What follows a step that was run.
  pub >>=-runs :
      {B : Type 0} (m : Op S A) (f : A → Op S B) (w w' : World S) (a : A)
      → m w ≡ (ok a, w')
      → (m >>= f) w ≡ f a w'
  unfolding ◌>>=◌
  >>=-runs m f w w' a e = ap (λ r. and_then r f) e

module _ {S : Type 0} where
  pub Post-then :
      {B : Type 0} (P : Db → Type 0) (Q : B → Db → Type 0) (m : Op S (Unit {0})) (k : Op S B)
      (w : World S)
      → Post (λ a. P) (m w)
      → ((w' : World S) → P w'.db → Post Q (k w'))
      → Post Q ((m >> k) w)
  unfolding ◌>>◌
  Post-then P Q m k w h j = Post-bind (λ a. P) Q m (λ _. k) w h (λ a. j)

  pub >>-runs :
      {B : Type 0} (m : Op S (Unit {0})) (k : Op S B) (w w' : World S)
      → m w ≡ (ok tt, w')
      → (m >> k) w ≡ k w'
  unfolding ◌>>◌
  >>-runs m k w w' e = >>=-runs m (λ _. k) w w' tt e
