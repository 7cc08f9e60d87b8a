-- ===== src/Indexer/Symbol.antt =====
-- src/indexer/symbol.rs: documentSymbol types, flattening of the symbol tree, names of modules and
-- the content fingerprint of a symbol. The hash function of the standard library is a parameter.
pub mod Flatten
pub mod Fingerprint
use semnav.Base.{
  ℕ, zero, suc, ◌+◌, ◌^◌, ◌-◌, ℤ, pos, Bool, Option, none, some, List, [], ◌∷◌, ◌++◌, Str, str,
  length, rsplit_once, strip_prefix, unwrap_or, if◌then◌else◌, ◌==◌, ◌||◌, map,
}
use semnav.Graph.Model.{Range}
use mathlib.Core.Option

pub record LspPosition : Type 0 where
  pub line : ℕ
  pub character : ℕ

pub record LspRange : Type 0 where
  pub start : LspPosition
  pub end : LspPosition

-- The nested result of the server. `tags` is read nowhere.
mutual
  pub data DocumentSymbol : Type 0 where
    document_symbol :
        Str → Option Str → ℕ → Option (List ℕ) → LspRange → LspRange → Children → DocumentSymbol

  -- `Option<Vec<DocumentSymbol>>`: absent, or a list.
  pub data Children : Type 0 where
    absent : Children
    end_of : Children
    child : DocumentSymbol → Children → Children

pub record FlatSymbol : Type 0 where
  pub fqn : Str
  pub name : Str
  pub kind : ℕ
  pub range : Range
  pub sel : Range
  pub detail : Option Str
  pub parent : Option ℕ

-- `LspRange::to_graph`
abbrev pub to_graph : LspRange → Range
to_graph r = record {
  start_line = pos r.start.line;
  start_col = pos r.start.character;
  end_line = pos r.end.line;
  end_col = pos r.end.character;
}

abbrev pub dot : ℕ
dot = 46

abbrev i64_max : ℤ
i64_max = pos (2 ^ 63 - 1)

-- The last segment of a dotted name, `rsplit('.').next()`, or the whole name if it has no dot.
abbrev pub last_segment : Str → Str
last_segment s = unwrap_or (Option.map (λ p. p.1) (rsplit_once dot s)) s

-- `FlatSymbol::module_root`
unfoldable pub module_root : Str → FlatSymbol
unfolding rsplit_once
module_root module_path = record {
  fqn = module_path;
  name = last_segment module_path;
  kind = 2;
  range = record { start_line = pos 0; start_col = pos 0; end_line = i64_max; end_col = i64_max };
  sel = record { start_line = pos 0; start_col = pos 0; end_line = pos 0; end_col = pos 0 };
  detail = none;
  parent = none;
}

abbrev pub joined : Str → Str → Str
joined prefix name = prefix ++ (dot ∷ name)

-- `flatten_one` pushes on `out`; here `out` comes in and goes out.
unfoldable mutual
  pub flatten_one : DocumentSymbol → Str → Option ℕ → List FlatSymbol → List FlatSymbol
  flatten_one (document_symbol name detail kind tags range sel children) prefix parent out =
      flatten_children children (joined prefix name) (some (length out)) (
        out
        ++ (record {
          fqn = joined prefix name;
          name = name;
          kind = kind;
          range = to_graph range;
          sel = to_graph sel;
          detail = detail;
          parent = parent;
        }
            ∷ []))

  pub flatten_children : Children → Str → Option ℕ → List FlatSymbol → List FlatSymbol
  flatten_children absent prefix parent out = out
  flatten_children end_of prefix parent out = out
  flatten_children (child s rest) prefix parent out =
      flatten_children rest prefix parent (flatten_one s prefix parent out)

-- The top-level loop is the loop over children, with no parent.
unfoldable pub flatten_document_symbols : Children → Str → List FlatSymbol
flatten_document_symbols symbols module_path = flatten_children symbols module_path none []

-- `span`: all four numbers, as they are.
unfoldable pub span : Range → ℤ × ℤ × ℤ × ℤ
span r = (r.start_line, r.start_col, r.end_line, r.end_col)

-- What `signature_fingerprint` feeds to the hasher, in order.
pub record Fingerprinted : Type 0 where
  pub name : Str
  pub kind : ℕ
  pub detail : Option Str
  pub range : ℤ × ℤ × ℤ × ℤ
  pub sel : ℤ × ℤ × ℤ × ℤ

unfoldable pub fingerprinted : FlatSymbol → Fingerprinted
unfolding span
fingerprinted sym = record {
  name = sym.name;
  kind = sym.kind;
  detail = sym.detail;
  range = span sym.range;
  sel = span sym.sel;
}

module _ (hash : Fingerprinted → Str) where
  unfoldable pub signature_fingerprint : FlatSymbol → Str
  unfolding fingerprinted
  signature_fingerprint sym = hash (fingerprinted sym)

abbrev slash : ℕ
slash = 47

abbrev backslash : ℕ
backslash = 92

unfoldable pub module_path_from_uri : Str → Str → Str
unfolding rsplit_once strip_prefix
module_path_from_uri uri root_uri =
    let rel = unwrap_or (strip_prefix root_uri uri) uri in
    let stem = unwrap_or (Option.map (λ p. p.0) (rsplit_once dot rel)) rel in
    let stem' = unwrap_or (strip_prefix (slash ∷ []) stem) stem in
    map (λ c. if c == slash || c == backslash then dot else c) stem'
