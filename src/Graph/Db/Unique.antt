-- ===== src/Graph/Db/Unique.antt =====
-- The unique keys of the table `nodes` of migrations/V0001__init.sql, as a property of a database.
pub mod Rows
pub mod Commands
use semnav.Base.{ℕ, ◌<◌, ◌≢◌, List, [], ◌∷◌, All}
use semnav.Graph.Db.State.{Result, ok, err, ◌>>=◌, NodeRow, Db}

-- A row has another id and another full name than each of the rows.
abbrev pub Apart : NodeRow → List NodeRow → Type 0
Apart r rows = All (λ q. (r.id ≢ q.id) × (r.node.fqn ≢ q.node.fqn)) rows

abbrev pub Distinct : List NodeRow → Type 0
Distinct [] = Unit
Distinct (r ∷ rows) = Apart r rows × Distinct rows

-- Ids and full names are unique, and the next id is unused.
pub record Unique (db : Db) : Type 0 where
  pub apart : Distinct db.nodes
  pub fresh : All (λ r. r.id < db.next_node) db.nodes

-- A result, if it is one, has the property.
abbrev pub Holds {ℓ} : {A : Type ℓ} → (A → Type 0) → Result A → Type 0
Holds P (ok a) = P a
Holds P (err e) = Unit

pub Holds-bind {ℓ κ} :
    {A : Type ℓ} {B : Type κ} (P : A → Type 0) (Q : B → Type 0) (m : Result A) (f : A → Result B)
    → Holds P m
    → ((a : A) → P a → Holds Q (f a))
    → Holds Q (m >>= f)
Holds-bind P Q (ok a) f h k = k a h
Holds-bind P Q (err e) f h k = tt

pub Holds-any {ℓ} : {A : Type ℓ} (m : Result A) → Holds (λ a. Unit) m
Holds-any (ok a) = tt
Holds-any (err e) = tt

pub Holds-map {ℓ} :
    {A : Type ℓ}
    → (P : A → Type 0) → (Q : A → Type 0) → ((a : A) → P a → Q a)
    → (m : Result A) → Holds P m
    → Holds Q m
Holds-map P Q f (ok a) h = f a h
Holds-map P Q f (err e) h = tt
