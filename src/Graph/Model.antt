-- ===== src/Graph/Model.antt =====
-- src/graph/model.rs: the domain types of the graph store.
use semnav.Base.{ℕ, ℤ, Bool, Option, Str}

-- An LSP line and character span, 0-based.
pub record Range : Type 0 where
  pub start_line : ℤ
  pub start_col : ℤ
  pub end_line : ℤ
  pub end_col : ℤ

-- A declared symbol. `id` is `none` until the row is stored; ids are positive row numbers.
pub record Node : Type 0 where
  pub id : Option ℕ
  pub fqn : Str
  pub uri : Str
  pub name : Str
  pub language : Str
  pub kind : ℤ
  pub node_kind : Str
  pub construct : Option Str
  pub container_id : Option ℕ
  pub range : Range
  pub sel : Range
  pub signature : Option Str
  pub documentation : Option Str
  pub detail : Option Str
  pub signature_hash : Option Str
  pub valid : Bool
  pub orphan : Bool
  pub generation : ℤ
  pub is_external : Bool

pub record Site : Type 0 where
  pub uri : Str
  pub range : Range

pub record Edge : Type 0 where
  pub id : Option ℕ
  pub src_id : ℕ
  pub dst_id : ℕ
  pub edge_type : Str
  pub site : Option Site
  pub valid : Bool

-- A freshly fetched symbol, with the position of its parent in the same batch.
pub record ReconcileSymbol : Type 0 where
  pub fqn : Str
  pub name : Str
  pub kind : ℤ
  pub node_kind : Str
  pub range : Range
  pub sel : Range
  pub detail : Option Str
  pub signature_hash : Str
  pub parent : Option ℕ

pub record ReconcileOutcome : Type 0 where
  pub unchanged : ℕ
  pub updated : ℕ
  pub renamed : ℕ
  pub inserted : ℕ
  pub orphaned : ℕ
  pub deleted : ℕ

-- `ReconcileOutcome::default()`
abbrev pub default_outcome : ReconcileOutcome
default_outcome = record {
  unchanged = 0;
  updated = 0;
  renamed = 0;
  inserted = 0;
  orphaned = 0;
  deleted = 0;
}
