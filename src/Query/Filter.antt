-- ===== src/Query/Filter.antt =====
-- src/query/filter.rs: match modes, filters, pages, sort keys and cursors. The similarity of
-- `strsim`, base64 and JSON come from other packages and are parameters.
use semnav.Base.{
  ℕ, ℤ, int_cmp, Bool, true, false, ◌&&◌, not, Option, none, some, List, Str, str_eq, str_cmp,
  split, contains, lower_byte, map, any, if◌then◌else◌, then_cmp, Ordering,
}
use semnav.Indexer.Symbol.{dot}
use semnav.Graph.Model.{Node}
use semnav.Query.Dto.{kind_label}

pub data MatchMode : Type 0 where
  segment contains_mode exact fuzzy : MatchMode

-- `eq_ignore_ascii_case` compares the lower-case forms.
abbrev pub lower : Str → Str
lower = map lower_byte

unfoldable pub eq : Str → Str → Bool → Bool
eq a b ignore_case = if ignore_case then str_eq (lower a) (lower b) else str_eq a b

module _ (similar : Str → Str → Bool) where
  -- `fuzzy_eq`; `similar` says whether the similarity reaches the threshold.
  unfoldable pub fuzzy_eq : Str → Str → Bool → Bool
  fuzzy_eq a b ignore_case = if ignore_case then similar (lower a) (lower b) else similar a b

  -- `MatchMode::matches`
  unfoldable pub matches : MatchMode → Str → Bool → Str → Bool
  unfolding eq fuzzy_eq split contains
  matches segment pattern ignore_case fqn = any (λ seg. eq pattern seg ignore_case) (split dot fqn)
  matches exact pattern ignore_case fqn = eq pattern fqn ignore_case
  matches contains_mode pattern ignore_case fqn =
      if ignore_case then contains (lower pattern) (lower fqn) else contains pattern fqn
  matches fuzzy pattern ignore_case fqn =
      any (λ seg. fuzzy_eq pattern seg ignore_case) (split dot fqn)

pub data SymbolRef : Type 0 where
  fqn_ref : Str → SymbolRef
  at : Str → ℕ → ℕ → SymbolRef

pub record Filter : Type 0 where
  pub language : Option Str
  pub kind : Option (List Str)
  pub include_external : Bool

abbrev language_passes : Option Str → Str → Bool
language_passes none lang = true
language_passes (some l) lang = str_eq lang l

abbrev kind_passes : Option (List Str) → Str → Bool
kind_passes none label = true
kind_passes (some kinds) label = any (λ k. str_eq k label) kinds

-- `Filter::matches`: the three early returns, in order.
unfoldable pub filter_matches : Filter → Node → Bool
unfolding kind_label
filter_matches f n =
    if not f.include_external && n.is_external
    then false
    else if not (language_passes f.language n.language)
    then false
    else kind_passes f.kind (kind_label n.node_kind n.construct)

abbrev pub max_page_limit : ℕ
max_page_limit = 500

pub record SortKey : Type 0 where
  pub fqn : Str
  pub uri : Str
  pub start_line : ℤ
  pub start_col : ℤ

-- The derived `Ord`: the fields in their order.
unfoldable pub key_cmp : SortKey → SortKey → Ordering
key_cmp a b = then_cmp (str_cmp a.fqn b.fqn) (
    then_cmp (str_cmp a.uri b.uri)
      (then_cmp (int_cmp a.start_line b.start_line) (int_cmp a.start_col b.start_col)))

-- `SortKey::from_node`
abbrev pub key_of_node : Node → SortKey
key_of_node n = record {
  fqn = n.fqn;
  uri = n.uri;
  start_line = n.range.start_line;
  start_col = n.range.start_col;
}

-- A page request; the cursor holds the last key that was returned.
pub record Page : Type 0 where
  pub limit : ℕ
  pub cursor : Option SortKey
