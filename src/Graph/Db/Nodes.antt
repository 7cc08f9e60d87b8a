-- ===== src/Graph/Db/Nodes.antt =====
-- src/graph/db.rs: the statements on `nodes`.
use semnav.Base.{
  ℕ, suc, ℤ, int_eq, int_leb, int_cmp, int_sub, Bool, true, ◌&&◌, ◌||◌, not, Option, none, some,
  List, [], ◌∷◌, ◌++◌, Str, str_eq, str_cmp, ◌==◌, if◌then◌else◌, map, retain, find_first, length,
  then_cmp, Ordering,
}
use mathlib.Core.Option
use semnav.Base.Sort.{sort_by}
use semnav.Graph.Model.{Node}
use semnav.Graph.Db.State.{
  unique_violation, foreign_key_violation, Result, ok, err, NodeRow, Db, same_phys, same_fqn,
  clashes, has_id, reference_ok, update_row,
}

-- A stored value of the columns of `n`: the UPSERT writes every column but the id.
abbrev pub stored : Node → Node
stored n = record n { id = none }

-- UPDATE of one row, with the constraints of the schema.
unfoldable pub write_row : ℕ → Node → Db → Result Db
unfolding clashes has_id update_row
write_row id n db =
    if clashes id n db.nodes
    then err unique_violation
    else if reference_ok n.container_id db.nodes
    then ok (record db { nodes = update_row id (λ _. stored n) db.nodes })
    else err foreign_key_violation

-- INSERT under the next id.
unfoldable pub insert_row : Node → Db → Result (ℕ × Db)
unfolding clashes has_id
insert_row n db =
    let rows = db.nodes ++ (record { id = db.next_node; node = stored n } ∷ []) in
    if clashes db.next_node n db.nodes
    then err unique_violation
    else if reference_ok n.container_id rows
    then ok (db.next_node, record db { nodes = rows; next_node = suc db.next_node })
    else err foreign_key_violation

abbrev pub written : ℕ → Result Db → Result (ℕ × Db)
written id (ok db) = ok (id, db)
written id (err e) = err e

-- `upsert_node`: the first ON CONFLICT clause, the second one, or a new row. The second clause keeps
-- uri, start and name, which are those of the conflict.
unfoldable pub upsert_node : Node → Db → Result (ℕ × Db)
unfolding write_row insert_row
upsert_node n db = elim (find_first (λ r. same_fqn r.node n) db.nodes) [
  | some r ↦ written r.id (write_row r.id n db)
  | none ↦ elim (find_first (λ r. same_phys r.node n) db.nodes) [
    | some r ↦ written r.id (write_row r.id n db)
    | none ↦ insert_row n db
  ]
]

abbrev pub node_from_row : NodeRow → Node
node_from_row r = record r.node { id = some r.id }

unfoldable pub get_node_by_fqn : Str → Db → Option Node
get_node_by_fqn fqn db = Option.map node_from_row (find_first (λ r. str_eq r.node.fqn fqn) db.nodes)

unfoldable pub get_node : ℕ → Db → Option Node
get_node id db = Option.map node_from_row (find_first (λ r. r.id == id) db.nodes)

-- ORDER BY fqn, uri, range_start_line, range_start_col
unfoldable pub node_cmp : Node → Node → Ordering
node_cmp a b = then_cmp (str_cmp a.fqn b.fqn) (
    then_cmp (str_cmp a.uri b.uri) (
      then_cmp (int_cmp a.range.start_line b.range.start_line)
        (int_cmp a.range.start_col b.range.start_col)))

abbrev pub language_ok : Option Str → Node → Bool
language_ok none n = true
language_ok (some lang) n = str_eq n.language lang

unfoldable pub list_nodes : Option Str → Db → List Node
unfolding sort_by node_cmp
list_nodes language db =
    sort_by node_cmp (retain (λ n. n.valid && language_ok language n) (map node_from_row db.nodes))

-- SELECT DISTINCT, in the order of first occurrence.
unfoldable pub distinct : List Str → List Str
distinct [] = []
distinct (s ∷ ss) = s ∷ retain (λ t. not (str_eq t s)) (distinct ss)

unfoldable pub known_uris : Db → List Str
unfolding distinct
known_uris db = distinct (map (λ r. r.node.uri) (retain (λ r. not r.node.orphan) db.nodes))

unfoldable pub count_real_nodes : Str → Str → Db → ℕ
count_real_nodes uri module_fqn db =
    length (retain (λ r. str_eq r.node.uri uri && not (str_eq r.node.fqn module_fqn)) db.nodes)

-- The two-sided containment test of FIND_BY_POSITION_SQL.
unfoldable pub covers : Str → ℤ → ℤ → Node → Bool
covers uri line col n =
    str_eq n.uri uri
    && (n.valid
        && ((not (int_leb line n.range.start_line)
              || int_eq n.range.start_line line && int_leb n.range.start_col col)
            && (not (int_leb n.range.end_line line)
                || int_eq n.range.end_line line && int_leb col n.range.end_col)))

-- ORDER BY the number of lines, then the difference of the columns.
unfoldable pub span_cmp : Node → Node → Ordering
span_cmp a b =
    then_cmp
      (int_cmp (int_sub a.range.end_line a.range.start_line)
        (int_sub b.range.end_line b.range.start_line))
      (int_cmp (int_sub a.range.end_col a.range.start_col)
        (int_sub b.range.end_col b.range.start_col))

abbrev pub first {ℓ} : {A : Type ℓ} → List A → Option A
first [] = none
first (x ∷ xs) = some x

-- LIMIT 1. Among rows of equal span the query leaves the choice open; here it is the first row.
unfoldable pub find_node_by_position : Str → ℤ → ℤ → Db → Option Node
unfolding covers span_cmp sort_by
find_node_by_position uri line col db =
    first (sort_by span_cmp (retain (covers uri line col) (map node_from_row db.nodes)))

unfoldable pub nodes_by_uri : Str → Db → List Node
nodes_by_uri uri db = retain (λ n. str_eq n.uri uri) (map node_from_row db.nodes)

unfoldable pub update_node_construct : ℕ → Str → Db → Db
unfolding update_row
update_node_construct id construct db = record db {
  nodes = update_row id (λ n. record n { construct = some construct }) db.nodes;
}

unfoldable pub update_node_signature : ℕ → Str → Db → Db
unfolding update_row
update_node_signature id signature db = record db {
  nodes = update_row id (λ n. record n { signature = some signature }) db.nodes;
}

unfoldable pub update_node_signature_by_fqn : Str → Str → Db → Db
update_node_signature_by_fqn fqn signature db = record db {
  nodes =
      map
        (λ r.
          if str_eq r.node.fqn fqn
          then record r { node = record r.node { signature = some signature } }
          else r)
        db.nodes;
}
