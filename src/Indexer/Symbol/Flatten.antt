-- ===== src/Indexer/Symbol/Flatten.antt =====
-- src/indexer/symbol.rs: what `flatten_document_symbols` makes of a symbol tree.
use semnav.Base.{
  ℕ, ◌<◌, ◌≡◌, refl, ap, sym, ◌∙◌, inl, inr, Option, none, some, List, [], ◌∷◌, ◌++◌, append_assoc,
  append-nil, map, Str, length, get_elem?, get_elem?-append_left, get_elem?-length_append,
  get_elem?-snoc, get_elem?-lt,
}
use mathlib.Core.List.{map-append}
use semnav.Indexer.Symbol.{
  DocumentSymbol, document_symbol, Children, absent, end_of, child, FlatSymbol, joined, flatten_one,
  flatten_children, flatten_document_symbols,
}

-- Names of a tree in depth-first order, a parent before its children.
abbrev mutual
  pub names_of : DocumentSymbol → List Str
  names_of (document_symbol name detail kind tags range sel children) =
      name ∷ names_of_children children

  pub names_of_children : Children → List Str
  names_of_children absent = []
  names_of_children end_of = []
  names_of_children (child s rest) = names_of s ++ names_of_children rest

abbrev flat_names : List FlatSymbol → List Str
flat_names = map (λ f. f.name)

mutual
  unfolding flatten_one

  names-flatten_one :
      (s : DocumentSymbol) (prefix : Str) (parent : Option ℕ) (out : List FlatSymbol)
      → flat_names (flatten_one s prefix parent out) ≡ flat_names out ++ names_of s
  names-flatten_one (document_symbol name detail kind tags range sel children) prefix parent out =
      names-flatten_children children _ _ _ ∙ simp (map-append, append_assoc)

  names-flatten_children :
      (c : Children) (prefix : Str) (parent : Option ℕ) (out : List FlatSymbol)
      → flat_names (flatten_children c prefix parent out) ≡ flat_names out ++ names_of_children c
  names-flatten_children absent prefix parent out = sym (append-nil _)
  names-flatten_children end_of prefix parent out = sym (append-nil _)
  names-flatten_children (child s rest) prefix parent out =
      names-flatten_children rest prefix parent _
      ∙ ap (λ l. l ++ names_of_children rest) (names-flatten_one s prefix parent out)
      ∙ append_assoc (flat_names out) (names_of s) (names_of_children rest)

-- Every element keeps its position.
abbrev Extends : List FlatSymbol → List FlatSymbol → Type 0
Extends xs ys = (i : ℕ) (f : FlatSymbol) → get_elem? xs i ≡ some f → get_elem? ys i ≡ some f

-- The symbol at position `i` of `all` is linked: a top-level symbol is named after the module, any
-- other after its parent, which stands before it.
abbrev pub IsLinkedAt : Str → List FlatSymbol → ℕ → Str → Str → Option ℕ → Type 0
IsLinkedAt root all i fqn name none = fqn ≡ joined root name
IsLinkedAt root all i fqn name (some p) =
    (p < i) × ((f : FlatSymbol) × (get_elem? all p ≡ some f) × (fqn ≡ joined f.fqn name))

pub record IsLinked (root : Str) (all : List FlatSymbol) : Type 0 where
  pub at :
      (i : ℕ) (f : FlatSymbol)
      → get_elem? all i ≡ some f
      → IsLinkedAt root all i f.fqn f.name f.parent

IsLinkedAt-mono :
    (root : Str) (xs ys : List FlatSymbol) (i : ℕ) (fqn name : Str) (parent : Option ℕ)
    → Extends xs ys
    → IsLinkedAt root xs i fqn name parent
    → IsLinkedAt root ys i fqn name parent
IsLinkedAt-mono root xs ys i fqn name none e h = h
IsLinkedAt-mono root xs ys i fqn name (some p) e (lt, (f, at, q)) = (lt, (f, e p f at, q))

-- What `prefix` and `parent` say of `out` when a symbol is visited.
abbrev Under : Str → List FlatSymbol → Str → Option ℕ → Type 0
Under root out prefix none = prefix ≡ root
Under root out prefix (some p) = (f : FlatSymbol) × (get_elem? out p ≡ some f) × (prefix ≡ f.fqn)

Under-mono :
    (root : Str) (xs ys : List FlatSymbol) (prefix : Str) (parent : Option ℕ)
    → Extends xs ys
    → Under root xs prefix parent
    → Under root ys prefix parent
Under-mono root xs ys prefix none e h = h
Under-mono root xs ys prefix (some p) e (f, at, q) = (f, e p f at, q)

Under-IsLinkedAt :
    (root : Str) (out : List FlatSymbol) (prefix name : Str) (parent : Option ℕ)
    → Under root out prefix parent
    → IsLinkedAt root out (length out) (joined prefix name) name parent
Under-IsLinkedAt root out prefix name none h = rw h
Under-IsLinkedAt root out prefix name (some p) (f, at, q) =
    (get_elem?-lt out p at, (f, at, ap (λ t. joined t name) q))

snoc-Extends : (out : List FlatSymbol) (f : FlatSymbol) → Extends out (out ++ f ∷ [])
snoc-Extends out f i g h = get_elem?-append_left out (f ∷ []) i h

snoc-IsLinked :
    (root : Str) (out : List FlatSymbol) (f : FlatSymbol)
    → IsLinked root out
    → IsLinkedAt root out (length out) f.fqn f.name f.parent
    → IsLinked root (out ++ f ∷ [])
snoc-IsLinked root out f h k = record {
  at = λ i g e. elim (get_elem?-snoc out f i e) [
    | inl old ↦
        IsLinkedAt-mono root out _ i g.fqn g.name g.parent (snoc-Extends out f) (h.at i g old)
    | inr (q, r) ↦
        rw (q, r)
          (IsLinkedAt-mono root out _ (length out) f.fqn f.name f.parent (snoc-Extends out f) k)
  ];
}

mutual
  unfolding flatten_one

  flatten_one-Extends :
      (s : DocumentSymbol) (prefix : Str) (parent : Option ℕ) (out : List FlatSymbol)
      → Extends out (flatten_one s prefix parent out)
  flatten_one-Extends (document_symbol name detail kind tags range sel children) prefix parent out =
      λ i f h. flatten_children-Extends children _ _ _ i f (snoc-Extends out _ i f h)

  flatten_children-Extends :
      (c : Children) (prefix : Str) (parent : Option ℕ) (out : List FlatSymbol)
      → Extends out (flatten_children c prefix parent out)
  flatten_children-Extends absent prefix parent out = λ i f h. h
  flatten_children-Extends end_of prefix parent out = λ i f h. h
  flatten_children-Extends (child s rest) prefix parent out = λ i f h.
      flatten_children-Extends rest prefix parent _ i f
        (flatten_one-Extends s prefix parent out i f h)

mutual
  unfolding flatten_one

  flatten_one-IsLinked :
      (s : DocumentSymbol) (root prefix : Str) (parent : Option ℕ) (out : List FlatSymbol)
      → Under root out prefix parent
      → IsLinked root out
      → IsLinked root (flatten_one s prefix parent out)
  flatten_one-IsLinked (document_symbol name detail kind tags range sel children) root prefix parent
        out u h =
      flatten_children-IsLinked children root (joined prefix name) (some (length out)) _
        (_, get_elem?-length_append out _, refl)
        (snoc-IsLinked root out _ h (Under-IsLinkedAt root out prefix name parent u))

  flatten_children-IsLinked :
      (c : Children) (root prefix : Str) (parent : Option ℕ) (out : List FlatSymbol)
      → Under root out prefix parent
      → IsLinked root out
      → IsLinked root (flatten_children c prefix parent out)
  flatten_children-IsLinked absent root prefix parent out u h = h
  flatten_children-IsLinked end_of root prefix parent out u h = h
  flatten_children-IsLinked (child s rest) root prefix parent out u h =
      flatten_children-IsLinked rest root prefix parent _
        (Under-mono root out _ prefix parent (flatten_one-Extends s prefix parent out) u)
        (flatten_one-IsLinked s root prefix parent out u h)

-- Flattening visits the tree depth first, each symbol once, a parent before its children.
pub names-flatten :
    (symbols : Children) (module_path : Str)
    → map (λ f. f.name) (flatten_document_symbols symbols module_path) ≡ names_of_children symbols
unfolding flatten_document_symbols
names-flatten symbols module_path = names-flatten_children symbols module_path none []

-- In the flat list of a file every symbol with a parent stands behind that parent and is named by
-- the parent's full name, a dot and its own name; every other symbol is named so after the module.
pub flatten-IsLinked :
    (symbols : Children) (module_path : Str)
    → IsLinked module_path (flatten_document_symbols symbols module_path)
unfolding flatten_document_symbols
flatten-IsLinked symbols module_path =
    flatten_children-IsLinked symbols module_path module_path none [] refl
      (record { at = λ i f h. cc })
