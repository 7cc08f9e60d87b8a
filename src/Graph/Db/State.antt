-- ===== src/Graph/Db/State.antt =====
-- The tables of migrations/V0001__init.sql and V0002__callees_cache.sql as lists of rows, the
-- constraints of the schema, and results that may fail.
use semnav.Base.{
  ℕ, int_eq, Bool, true, ◌&&◌, ◌||◌, not, Option, none, some, List, [], ◌∷◌, Str, str, str_eq, ◌==◌,
  ◌≡◌, refl, if◌then◌else◌, any, map,
}
use semnav.Graph.Model.{Node, Site}

-- Why a statement or a reconcile pass fails.
pub data DbError : Type 0 where
  unique_violation foreign_key_violation check_violation parent_before_child no_id index_panic :
      DbError

pub data Result {ℓ} (A : Type ℓ) : Type ℓ where
  ok : A → Result A
  err : DbError → Result A

infixl 10 ◌>>=◌
abbrev pub ◌>>=◌ {ℓ κ} : {A : Type ℓ} {B : Type κ} → Result A → (A → Result B) → Result B
err reason >>= next = err reason
ok a >>= next = next a

-- What a successful chain of steps has gone through.
pub >>=-eq-ok {ℓ κ} :
    {A : Type ℓ} {B : Type κ} {b : B} (first : Result A) (next : A → Result B)
    → (first >>= next) ≡ ok b
    → (a : A) × (first ≡ ok a) × (next a ≡ ok b)
>>=-eq-ok (err reason) next h = cc
>>=-eq-ok (ok a) next h = (a, refl, h)

-- A row of `nodes`. The `id` inside `node` is not a column; `node_from_row` fills it.
pub record NodeRow : Type 0 where
  pub id : ℕ
  pub node : Node

-- A row of `edges`. The columns `site_*` are all null or all set.
pub record EdgeRow : Type 0 where
  pub id : ℕ
  pub src_id : ℕ
  pub dst_id : ℕ
  pub edge_type : Str
  pub site : Option Site
  pub valid : Bool

pub record Db : Type 0 where
  pub nodes : List NodeRow
  pub edges : List EdgeRow
  pub next_node : ℕ
  pub next_edge : ℕ
  pub index_meta : List (Str × Str)
  pub callees_cache : List (ℕ × Str)
  pub materialized : List (ℕ × Str)

-- A database after the migrations. AUTOINCREMENT counts from 1.
abbrev pub empty_db : Db
empty_db = record {
  nodes = [];
  edges = [];
  next_node = 1;
  next_edge = 1;
  index_meta = [];
  callees_cache = [];
  materialized = [];
}

-- idx_nodes_phys: uri, start line, start column and name.
abbrev pub same_phys : Node → Node → Bool
same_phys a b =
    str_eq a.uri b.uri
    && (int_eq a.range.start_line b.range.start_line
        && (int_eq a.range.start_col b.range.start_col && str_eq a.name b.name))

-- idx_nodes_fqn
abbrev pub same_fqn : Node → Node → Bool
same_fqn a b = str_eq a.fqn b.fqn

-- Whether a row with the columns of `n` under `id` would break one of the two unique indexes.
unfoldable pub clashes : ℕ → Node → List NodeRow → Bool
clashes id n = any (λ r. not (r.id == id) && (same_fqn r.node n || same_phys r.node n))

unfoldable pub has_id : ℕ → List NodeRow → Bool
has_id id = any (λ r. r.id == id)

-- REFERENCES nodes(id), where NULL is always allowed.
abbrev pub reference_ok : Option ℕ → List NodeRow → Bool
reference_ok none rows = true
reference_ok (some id) rows = has_id id rows

-- `UPDATE nodes SET … WHERE id = ?`
unfoldable pub update_row : ℕ → (Node → Node) → List NodeRow → List NodeRow
update_row id f = map (λ r. if r.id == id then record r { node = f r.node } else r)

-- The CHECK on `edges.edge_type`.
abbrev pub edge_types : List Str
edge_types =
    str "contains"
    ∷ str "calls"
    ∷ str "references"
    ∷ str "type_of"
    ∷ str "implements"
    ∷ str "defines"
    ∷ str "inherits"
    ∷ str "imports"
    ∷ []
