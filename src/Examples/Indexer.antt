-- ===== src/Examples/Indexer.antt =====
-- The theorems on symbols at a small tree.
use semnav.Base.{ℕ, ◌≡◌, ◌≢◌, refl, none, [], ◌∷◌, str, map, arith}
use semnav.Indexer.Symbol.{
  LspRange, Children, document_symbol, absent, end_of, child, FlatSymbol, to_graph,
  flatten_children, flatten_document_symbols, fingerprinted,
}
use semnav.Indexer.Symbol.Flatten.{names_of_children, IsLinked, names-flatten, flatten-IsLinked}
use semnav.Indexer.Symbol.Fingerprint.{shift_lines, fingerprinted-shift}

abbrev rows : ℕ → ℕ → LspRange
rows a b = record {
  start = record { line = a; character = 0 };
  end = record { line = b; character = 4 };
}

-- A class with a method, and a function.
abbrev tree : Children
tree =
    child
      (document_symbol (str "Foo") none 5 none (rows 1 4) (rows 1 1)
        (child (document_symbol (str "new") none 6 none (rows 2 3) (rows 2 2) absent) end_of))
      (child (document_symbol (str "run") none 12 none (rows 6 9) (rows 6 6) absent) end_of)

flatten_tree :
    map (λ f. f.fqn) (flatten_document_symbols tree (str "m"))
    ≡ str "m.Foo" ∷ str "m.Foo.new" ∷ str "m.run" ∷ []
unfolding flatten_document_symbols flatten_children
flatten_tree = refl

names-flatten_example :
    map (λ f. f.name) (flatten_document_symbols tree (str "m")) ≡ names_of_children tree
names-flatten_example = names-flatten tree (str "m")

flatten-IsLinked_example : IsLinked (str "m") (flatten_document_symbols tree (str "m"))
flatten-IsLinked_example = flatten-IsLinked tree (str "m")

abbrev run_symbol : FlatSymbol
run_symbol = record {
  fqn = str "m.run";
  name = str "run";
  kind = 12;
  range = to_graph (rows 6 9);
  sel = to_graph (rows 6 6);
  detail = none;
  parent = none;
}

fingerprinted-shift_example :
    fingerprinted (record run_symbol {
      range = to_graph (shift_lines 2 (rows 6 9));
      sel = to_graph (shift_lines 2 (rows 6 6));
    })
    ≢ fingerprinted run_symbol
fingerprinted-shift_example =
    fingerprinted-shift 2 (rows 6 9) (rows 6 6) run_symbol (omega arith) refl
