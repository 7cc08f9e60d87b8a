-- ===== src/Adapters/Kind.antt =====
-- src/adapters/kind.rs: the symbol kinds of the protocol, their numbers and their labels.
use semnav.Base.{ℕ, ◌==◌, if◌then◌else◌, ◌≡◌, refl, Option, none, some, ◌++◌, Str, str}
use semnav.Lsp.Transport.Decimal.{decimal}

pub data SymbolKind : Type 0 where
  file_kind module_kind namespace_kind package_kind class_kind : SymbolKind
  method_kind property_kind field_kind constructor_kind enum_kind : SymbolKind
  interface_kind function_kind variable_kind constant_kind string_kind : SymbolKind
  number_kind boolean_kind array_kind object_kind key_kind : SymbolKind
  null_kind enum_member_kind struct_kind event_kind operator_kind : SymbolKind
  type_parameter_kind : SymbolKind

-- The discriminants of the enum.
abbrev pub to_u32 : SymbolKind → ℕ
to_u32 file_kind = 1
to_u32 module_kind = 2
to_u32 namespace_kind = 3
to_u32 package_kind = 4
to_u32 class_kind = 5
to_u32 method_kind = 6
to_u32 property_kind = 7
to_u32 field_kind = 8
to_u32 constructor_kind = 9
to_u32 enum_kind = 10
to_u32 interface_kind = 11
to_u32 function_kind = 12
to_u32 variable_kind = 13
to_u32 constant_kind = 14
to_u32 string_kind = 15
to_u32 number_kind = 16
to_u32 boolean_kind = 17
to_u32 array_kind = 18
to_u32 object_kind = 19
to_u32 key_kind = 20
to_u32 null_kind = 21
to_u32 enum_member_kind = 22
to_u32 struct_kind = 23
to_u32 event_kind = 24
to_u32 operator_kind = 25
to_u32 type_parameter_kind = 26

-- `SymbolKind::from_u32`
unfoldable pub from_u32 : ℕ → Option SymbolKind
from_u32 value =
    if value == 1
    then some file_kind
    else if value == 2
    then some module_kind
    else if value == 3
    then some namespace_kind
    else if value == 4
    then some package_kind
    else if value == 5
    then some class_kind
    else if value == 6
    then some method_kind
    else if value == 7
    then some property_kind
    else if value == 8
    then some field_kind
    else if value == 9
    then some constructor_kind
    else if value == 10
    then some enum_kind
    else if value == 11
    then some interface_kind
    else if value == 12
    then some function_kind
    else if value == 13
    then some variable_kind
    else if value == 14
    then some constant_kind
    else if value == 15
    then some string_kind
    else if value == 16
    then some number_kind
    else if value == 17
    then some boolean_kind
    else if value == 18
    then some array_kind
    else if value == 19
    then some object_kind
    else if value == 20
    then some key_kind
    else if value == 21
    then some null_kind
    else if value == 22
    then some enum_member_kind
    else if value == 23
    then some struct_kind
    else if value == 24
    then some event_kind
    else if value == 25
    then some operator_kind
    else if value == 26
    then some type_parameter_kind
    else none

-- `SymbolKind::name`
abbrev pub kind_name : SymbolKind → Str
kind_name file_kind = str "File"
kind_name module_kind = str "Module"
kind_name namespace_kind = str "Namespace"
kind_name package_kind = str "Package"
kind_name class_kind = str "Class"
kind_name method_kind = str "Method"
kind_name property_kind = str "Property"
kind_name field_kind = str "Field"
kind_name constructor_kind = str "Constructor"
kind_name enum_kind = str "Enum"
kind_name interface_kind = str "Interface"
kind_name function_kind = str "Function"
kind_name variable_kind = str "Variable"
kind_name constant_kind = str "Constant"
kind_name string_kind = str "String"
kind_name number_kind = str "Number"
kind_name boolean_kind = str "Boolean"
kind_name array_kind = str "Array"
kind_name object_kind = str "Object"
kind_name key_kind = str "Key"
kind_name null_kind = str "Null"
kind_name enum_member_kind = str "EnumMember"
kind_name struct_kind = str "Struct"
kind_name event_kind = str "Event"
kind_name operator_kind = str "Operator"
kind_name type_parameter_kind = str "TypeParameter"

pub data NodeKind : Type 0 where
  standard : SymbolKind → NodeKind
  custom : Str → NodeKind

-- `NodeKind::to_label`
abbrev pub to_label : NodeKind → Str
to_label (standard kind) = kind_name kind
to_label (custom label) = label

-- `LanguageAdapter::map_symbol_kind` of src/adapters/mod.rs, which no adapter overrides.
abbrev pub map_symbol_kind : ℕ → NodeKind
unfolding from_u32
map_symbol_kind lsp = elim (from_u32 lsp) [
  | some kind ↦ standard kind
  | none ↦ custom (str "Unknown(" ++ (decimal lsp ++ str ")"))
]

-- The number of every kind, as the enum declares it, is read as that kind.
pub from_u32-to_u32 : (k : SymbolKind) → from_u32 (to_u32 k) ≡ some k
unfolding from_u32
from_u32-to_u32 file_kind = refl
from_u32-to_u32 module_kind = refl
from_u32-to_u32 namespace_kind = refl
from_u32-to_u32 package_kind = refl
from_u32-to_u32 class_kind = refl
from_u32-to_u32 method_kind = refl
from_u32-to_u32 property_kind = refl
from_u32-to_u32 field_kind = refl
from_u32-to_u32 constructor_kind = refl
from_u32-to_u32 enum_kind = refl
from_u32-to_u32 interface_kind = refl
from_u32-to_u32 function_kind = refl
from_u32-to_u32 variable_kind = refl
from_u32-to_u32 constant_kind = refl
from_u32-to_u32 string_kind = refl
from_u32-to_u32 number_kind = refl
from_u32-to_u32 boolean_kind = refl
from_u32-to_u32 array_kind = refl
from_u32-to_u32 object_kind = refl
from_u32-to_u32 key_kind = refl
from_u32-to_u32 null_kind = refl
from_u32-to_u32 enum_member_kind = refl
from_u32-to_u32 struct_kind = refl
from_u32-to_u32 event_kind = refl
from_u32-to_u32 operator_kind = refl
from_u32-to_u32 type_parameter_kind = refl
