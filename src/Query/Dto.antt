-- ===== src/Query/Dto.antt =====
-- src/query/dto.rs: the metadata of a node as the tools return it.
use semnav.Base.{
  ℕ, ℤ, pos, negsuc, min, ◌^◌, ◌-◌, Bool, ◌&&◌, Option, some, Str, str, str_eq, opt_eq,
  if◌then◌else◌,
}
use semnav.Graph.Model.{Range, Node}

pub record Position : Type 0 where
  pub line : ℕ
  pub character : ℕ

pub record RangeDto : Type 0 where
  pub start : Position
  pub end : Position

-- `v.clamp(0, u32::MAX as i64) as u32`
unfoldable pub to_u32 : ℤ → ℕ
to_u32 (pos n) = min n (2 ^ 32 - 1)
to_u32 (negsuc n) = 0

-- `RangeDto::from(Range)`
unfoldable pub range_dto : Range → RangeDto
unfolding to_u32
range_dto r = record {
  start = record { line = to_u32 r.start_line; character = to_u32 r.start_col };
  end = record { line = to_u32 r.end_line; character = to_u32 r.end_col };
}

pub record NodeDto : Type 0 where
  pub fqn : Str
  pub uri : Str
  pub name : Str
  pub language : Str
  pub kind_label : Str
  pub kind_num : ℕ
  pub construct : Option Str
  pub range : RangeDto
  pub selection_range : RangeDto
  pub signature : Option Str
  pub documentation : Option Str
  pub is_external : Bool

unfoldable pub kind_label : Str → Option Str → Str
kind_label node_kind construct =
    if str_eq node_kind (str "Variable") && opt_eq str_eq construct (some (str "type"))
    then str "TypeAlias"
    else node_kind

-- `NodeDto::from_node`
unfoldable pub from_node : Node → NodeDto
unfolding kind_label range_dto to_u32
from_node n = record {
  fqn = n.fqn;
  uri = n.uri;
  name = n.name;
  language = n.language;
  kind_label = kind_label n.node_kind n.construct;
  kind_num = to_u32 n.kind;
  construct = n.construct;
  range = range_dto n.range;
  selection_range = range_dto n.sel;
  signature = n.signature;
  documentation = n.documentation;
  is_external = n.is_external;
}
