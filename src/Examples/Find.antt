-- ===== src/Examples/Find.antt =====
-- The theorems on a database that some commands have written.
use semnav.Base.{
  pos, refl, Option, true, false, none, some, List, [], ◌∷◌, str, str_eq, ◌≡◌, map, length,
}
use mathlib.Core.Option
use semnav.Graph.Db.Nodes.{node_from_row, find_node_by_position}
use semnav.Graph.Db.Position.{Answer, find_node_by_position_narrowest}
use semnav.Graph.Model.{Node}
use semnav.Graph.Db.State.{empty_db}
use semnav.Graph.Db.Actor.{
  DbCommand, reconcile_file_symbols_cmd, upsert_node_cmd, update_node_signature_cmd, run,
}
use semnav.Graph.Db.Unique.{Unique}
use semnav.Graph.Db.Unique.Commands.{run-Unique}
use semnav.Graph.Db.Linked.{IsLinked}
use semnav.Graph.Db.Linked.Commands.{run-IsLinked}
use semnav.Query.Dto.{from_node}
use semnav.Query.Filter.{contains_mode, Filter, key_of_node}
use semnav.Query.Page.Complete.{IsStrict}
use semnav.Query.Find.Complete.{walk, found, written_by, find_symbol_complete}
use semnav.Examples.Reconcile.{file_uri, batch, zero_hash, run_batch, indexed}
use semnav.Examples.Graph.{class_node}

-- A file is indexed, a node is added, and the class is renamed, which fails.
abbrev commands : List DbCommand
commands =
    reconcile_file_symbols_cmd file_uri (str "python") false (batch "Foo")
    ∷ upsert_node_cmd (class_node "Qux")
    ∷ update_node_signature_cmd 1 (str "class Foo")
    ∷ reconcile_file_symbols_cmd file_uri (str "python") false (batch "Bar")
    ∷ []

run-Unique_example : Unique (run zero_hash commands empty_db).1
run-Unique_example = run-Unique zero_hash commands

run-IsLinked_example : IsLinked (run zero_hash commands empty_db).1
run-IsLinked_example = run-IsLinked zero_hash commands

abbrev any_node : Filter
any_node = record { language = some (str "python"); kind = none; include_external = false }

abbrev matching : List Node
matching = found str_eq (str "m") contains_mode false any_node (written_by zero_hash commands)

find_symbol_complete_example :
    IsStrict key_of_node matching
    × ((walk str_eq
            (str "m")
            contains_mode
            false
            any_node
            (written_by zero_hash commands)
            (λ r. r.nodes)
            false
            (length matching)
            2
            none
          ≡ map from_node matching)
        × (walk str_eq
              (str "m")
              contains_mode
              false
              any_node
              (written_by zero_hash commands)
              (λ r. r.fqns)
              true
              (length matching)
              2
              none
            ≡ map (λ n. n.fqn) matching))
find_symbol_complete_example =
    find_symbol_complete str_eq zero_hash commands (str "m") contains_mode false any_node 2

-- Line 7 is inside the class and inside its method.
abbrev narrowest_at : Option Node
narrowest_at = find_node_by_position file_uri (pos 7) (pos 0) indexed

narrowest_name : Option.map (λ n. n.name) narrowest_at ≡ some (str "new")
unfolding find_node_by_position run_batch
narrowest_name = refl

find_node_by_position_narrowest_example :
    Answer file_uri (pos 7) (pos 0) (map node_from_row indexed.nodes) narrowest_at
find_node_by_position_narrowest_example =
    find_node_by_position_narrowest file_uri (pos 7) (pos 0) indexed
      (find_node_by_position file_uri (pos 7) (pos 0) indexed) refl
