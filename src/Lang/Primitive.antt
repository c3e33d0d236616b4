-- ===== src/Lang/Primitive.antt =====
-- Primitive types (src/lang/primitive.c): how wide they are, which may stand in for which, and the
-- number under which conversions are looked up.
pub mod Relations
use corto.Base.{
  ℕ, ◌+◌, ◌-◌, Bool, true, false, not, ◌&&◌, ◌||◌, Option, none, some, ◌==◌, if◌then◌else◌, List,
}
use corto.Lang.Kinds.{
  PrimitiveKind, binary, boolean, character, integer, uinteger, float, text, enum, bitmask, Width,
  width_8, width_16, width_32, width_64, width_word, width_value,
}

-- corto__primitive_convertId; a `uint8_t` that stays small.
unfoldable pub convert_id : PrimitiveKind → Width → ℕ
convert_id binary w = width_value w
convert_id boolean w = 5
convert_id character w = 6 + width_value w
convert_id integer w = 8 + width_value w
convert_id uinteger w = 14 + width_value w
convert_id float w = 20 + width_value w - 2
convert_id text w = 22
convert_id enum w = 23
convert_id bitmask w = 24

-- The sizes of `corto_primitive_construct`; the first argument is sizeof(void*).
unfoldable primitive_size : ℕ → Width → ℕ
primitive_size pointer width_8 = 1
primitive_size pointer width_16 = 2
primitive_size pointer width_32 = 4
primitive_size pointer width_64 = 8
primitive_size pointer width_word = pointer

-- The classes of types other than primitives, as far as these functions tell them apart.
pub data Kind : Type 0 where
  void any composite collection iterator : Kind
  primitive : PrimitiveKind → Kind

-- corto_type: its address, `kind` with the primitive's, and `reference`.
pub record TypeObject : Type 0 where
  pub address : ℕ
  pub kind : Kind
  pub reference : Bool

-- a == b, on Booleans
abbrev pub same_flag : Bool → Bool → Bool
same_flag true b = b
same_flag false b = not b

-- corto_type_compatible_v (src/lang/type.c); the tests on `this->kind` by cases.
unfoldable compatible_other : Kind → TypeObject → TypeObject → Bool
compatible_other any this type = true
compatible_other void this type = same_flag this.reference type.reference && type.reference
compatible_other _ this type = false

unfoldable pub type_compatible_v : TypeObject → TypeObject → Bool
unfolding compatible_other
type_compatible_v this type =
    if this.address == type.address then true else compatible_other this.kind this type

-- corto_type_castable_v (src/lang/type.c)
abbrev is_void : Kind → Bool
is_void void = true
is_void _ = false

unfoldable type_castable_v : TypeObject → TypeObject → Bool
unfolding type_compatible_v
type_castable_v this type =
    if is_void this.kind && this.reference && type.reference
    then true
    else type_compatible_v this type

-- this->kind == corto_primitive(type)->kind
unfoldable pub same_kind : PrimitiveKind → PrimitiveKind → Bool
same_kind binary binary = true
same_kind boolean boolean = true
same_kind character character = true
same_kind integer integer = true
same_kind uinteger uinteger = true
same_kind float float = true
same_kind text text = true
same_kind enum enum = true
same_kind bitmask bitmask = true
same_kind _ _ = false

-- The inner switch of `corto_primitive_compatible_v`, on the kind of `type`; the flag is
-- `this->kind == CORTO_FLOAT`.
unfoldable numeric_type : Bool → PrimitiveKind → Bool
numeric_type this_float binary = not this_float
numeric_type this_float character = not this_float
numeric_type this_float enum = not this_float
numeric_type this_float bitmask = not this_float
numeric_type this_float boolean = true
numeric_type this_float uinteger = true
numeric_type this_float integer = true
numeric_type this_float float = true
numeric_type this_float text = false

abbrev pub is_float : PrimitiveKind → Bool
is_float float = true
is_float _ = false

abbrev pub is_enum : PrimitiveKind → Bool
is_enum enum = true
is_enum _ = false

abbrev is_boolean : PrimitiveKind → Bool
is_boolean boolean = true
is_boolean _ = false

-- The outer switch, on `this->kind`.
unfoldable pub compatible_kinds : PrimitiveKind → PrimitiveKind → Bool
unfolding numeric_type
compatible_kinds binary k = if is_float k then false else numeric_type false k
compatible_kinds character k = if is_float k then false else numeric_type false k
compatible_kinds enum k = if is_float k then false else numeric_type false k
compatible_kinds bitmask k = if is_float k then false else numeric_type false k
compatible_kinds boolean k = numeric_type false k
compatible_kinds uinteger k = numeric_type false k
compatible_kinds integer k = numeric_type false k
compatible_kinds float k = numeric_type true k
compatible_kinds text k = false

-- `type->kind == CORTO_PRIMITIVE`, and the kind.
abbrev primitive_kind : Kind → Option PrimitiveKind
primitive_kind (primitive k) = some k
primitive_kind _ = none

-- corto_primitive_compatible_v; `k` is the kind of `this`, `constant` the address of corto_constant_o.
unfoldable pub primitive_compatible_v : ℕ → PrimitiveKind → TypeObject → TypeObject → Bool
unfolding type_compatible_v same_kind compatible_kinds
primitive_compatible_v constant k this type =
    if type_compatible_v this type then true else elim (primitive_kind type.kind) [
      | some j ↦
          if same_kind k j
          then true
          else if is_enum k && (type.address == constant)
          then true
          else compatible_kinds k j
      | none ↦ is_boolean k && type.reference
    ]

-- The switch of `corto_primitive_castable_v`, with its fall-through from CORTO_INTEGER to
-- CORTO_UINTEGER and from CORTO_BITMASK to CORTO_ENUM.
unfoldable from_uinteger : PrimitiveKind → Bool
from_uinteger binary = true
from_uinteger boolean = true
from_uinteger character = true
from_uinteger integer = true
from_uinteger uinteger = true
from_uinteger float = true
from_uinteger text = true
from_uinteger enum = false
from_uinteger bitmask = true

unfoldable from_enum : PrimitiveKind → Bool
from_enum integer = true
from_enum uinteger = true
from_enum text = true
from_enum _ = false

unfoldable castable_kinds : PrimitiveKind → PrimitiveKind → Bool
unfolding from_uinteger from_enum
castable_kinds boolean character = false
castable_kinds boolean _ = true
castable_kinds binary character = false
castable_kinds binary _ = true
castable_kinds character binary = true
castable_kinds character integer = true
castable_kinds character uinteger = true
castable_kinds character text = true
castable_kinds character _ = false
castable_kinds integer enum = true
castable_kinds integer k = from_uinteger k
castable_kinds uinteger k = from_uinteger k
castable_kinds float binary = true
castable_kinds float integer = true
castable_kinds float uinteger = true
castable_kinds float text = true
castable_kinds float _ = false
castable_kinds bitmask boolean = true
castable_kinds bitmask k = from_enum k
castable_kinds enum k = from_enum k
castable_kinds text text = false
castable_kinds text bitmask = false
castable_kinds text _ = true

-- corto_primitive_castable_v
unfoldable primitive_castable_v : ℕ → PrimitiveKind → TypeObject → TypeObject → Bool
unfolding primitive_compatible_v same_kind castable_kinds
primitive_castable_v constant k this type =
    if primitive_compatible_v constant k this type
    then true
    else if same_flag this.reference type.reference
    then elim (primitive_kind type.kind) [
      | some j ↦ if same_kind k j then true else castable_kinds k j
      | none ↦ false
    ]
    else false

-- corto_primitive_isInteger
unfoldable pub is_integer : PrimitiveKind → Bool
is_integer binary = true
is_integer integer = true
is_integer uinteger = true
is_integer _ = false

-- corto_primitive_isNumber
unfoldable is_number : PrimitiveKind → Bool
is_number binary = true
is_number integer = true
is_number uinteger = true
is_number float = true
is_number _ = false
