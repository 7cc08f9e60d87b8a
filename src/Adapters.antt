-- ===== src/Adapters.antt =====
-- src/adapters/mod.rs and the built-in adapters: which adapter owns a file, and what is external.
-- Commands and packages of the servers are not part of the model. The adapters that the
-- environment configures (src/adapters/custom.rs) are an argument.
pub mod Kind
use semnav.Base.{
  ℕ, Bool, true, false, not, ◌||◌, Option, none, some, List, [], ◌∷◌, ◌++◌, map, any, find_first,
  Str, str, str_eq, if◌then◌else◌, rsplit_once, starts_with, contains, lower_byte,
}
use semnav.Indexer.Symbol.{dot}

pub record LanguageAdapter : Type 0 where
  pub language_name : Str
  pub file_extensions : List Str
  pub external_path_markers : List Str

abbrev pub to_ascii_lowercase : Str → Str
to_ascii_lowercase s = map lower_byte s

module _ (adapter : LanguageAdapter) where
  unfoldable pub matches_uri : Str → Bool
  unfolding rsplit_once
  matches_uri uri = elim (rsplit_once dot uri) [
    | none ↦ false
    | some (_, raw) ↦
        let ext = dot ∷ to_ascii_lowercase raw in
        any (λ e. str_eq (to_ascii_lowercase e) ext) adapter.file_extensions
  ]

  unfoldable pub is_external : Str → Str → Bool
  unfolding starts_with contains
  is_external uri root_uri =
      if not (starts_with root_uri uri)
      then true
      else any (λ marker. contains marker uri) adapter.external_path_markers

abbrev pub python_adapter : LanguageAdapter
python_adapter = record {
  language_name = str "python";
  file_extensions = str ".py" ∷ [];
  external_path_markers =
      str "/site-packages/" ∷ str "/.venv/lib/" ∷ str "/typeshed-fallback/" ∷ [];
}

abbrev pub typescript_adapter : LanguageAdapter
typescript_adapter = record {
  language_name = str "typescript";
  file_extensions = str ".ts" ∷ str ".tsx" ∷ [];
  external_path_markers = str "/node_modules/" ∷ [];
}

abbrev pub rust_adapter : LanguageAdapter
rust_adapter = record {
  language_name = str "rust";
  file_extensions = str ".rs" ∷ [];
  external_path_markers = str "/target/" ∷ str "/.cargo/registry/" ∷ str "/.cargo/git/" ∷ [];
}

abbrev pub go_adapter : LanguageAdapter
go_adapter = record {
  language_name = str "go";
  file_extensions = str ".go" ∷ [];
  external_path_markers = str "/vendor/" ∷ str "/pkg/mod/" ∷ [];
}

module _ (custom_adapters : List LanguageAdapter) where
  abbrev pub builtin_adapters : List LanguageAdapter
  builtin_adapters =
      (python_adapter ∷ typescript_adapter ∷ rust_adapter ∷ go_adapter ∷ []) ++ custom_adapters

  unfoldable pub select_for_uri : Str → Option LanguageAdapter
  unfolding matches_uri
  select_for_uri uri = find_first (λ adapter. matches_uri adapter uri) builtin_adapters
