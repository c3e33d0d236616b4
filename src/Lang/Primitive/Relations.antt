-- ===== src/Lang/Primitive/Relations.antt =====
-- What the switches of src/lang/primitive.c amount to.
use corto.Base.{ℕ, ◌<◌, ◌≡◌, ◌≢◌, ◌↔◌, ◌⊎◌, Bool, true, false, not, ◌&&◌, ◌||◌, ◌==◌, arith}
use corto.Lang.Kinds.{
  PrimitiveKind, binary, boolean, character, float, text, enum, bitmask, Width, width_8, width_16,
  width_32, width_64,
}
use corto.Lang.Primitive.{
  convert_id, primitive, TypeObject, type_compatible_v, same_kind, is_float, compatible_kinds,
  primitive_compatible_v, is_enum,
}

-- Kinds that are codes rather than quantities: they do not mix with floats.
abbrev is_code : PrimitiveKind → Bool
is_code binary = true
is_code character = true
is_code enum = true
is_code bitmask = true
is_code _ = false

abbrev is_text : PrimitiveKind → Bool
is_text text = true
is_text _ = false

-- The kinds that mix: the same kind, or neither is text and no float meets a code.
abbrev mixes : PrimitiveKind → PrimitiveKind → Bool
mixes j k =
    same_kind j k
    || (not (is_text j)
        && not (is_text k)
        && not (is_float j && is_code k)
        && not (is_code j && is_float k))

mixes_table : (j k : PrimitiveKind) → (same_kind j k || compatible_kinds j k) ≡ mixes j k
unfolding same_kind compatible_kinds
mixes_table j k = ground arith

mixes_comm : (j k : PrimitiveKind) → mixes j k ≡ mixes k j
unfolding same_kind
mixes_comm j k = ground arith

-- Whether a primitive type may stand in for another: they are the same type, their kinds mix, or the
-- first is an enumeration and the other is the type of constants.
primitive_compatible_lem :
    (constant : ℕ) (j k : PrimitiveKind) (this type : TypeObject)
    → this.kind ≡ primitive j
    → type.kind ≡ primitive k
    → primitive_compatible_v constant j this type
      ≡ (this.address == type.address || mixes j k || (is_enum j && type.address == constant))
unfolding primitive_compatible_v type_compatible_v
primitive_compatible_lem constant j k this type e f = ground (arith, mixes_table j k)

-- Between two primitive types, neither of them the type of constants, it makes no difference which of
-- them stands in for which.
primitive_compatible_comm :
    (constant : ℕ) (j k : PrimitiveKind) (this type : TypeObject)
    → this.kind ≡ primitive j
    → type.kind ≡ primitive k
    → this.address ≢ constant
    → type.address ≢ constant
    → primitive_compatible_v constant j this type ≡ primitive_compatible_v constant k type this
primitive_compatible_comm constant j k this type e f n m = ground (
  arith,
  primitive_compatible_lem constant j k this type e f,
  primitive_compatible_lem constant k j type this f e,
  mixes_comm j k,
)

-- The widths that the builtin types of a kind have; a text is as wide as a word, an enumeration and a
-- bitmask 32 bits.
abbrev is_builtin_width : PrimitiveKind → Width → Bool
is_builtin_width character width_8 = true
is_builtin_width character width_16 = true
is_builtin_width character _ = false
is_builtin_width float width_32 = true
is_builtin_width float width_64 = true
is_builtin_width float _ = false
is_builtin_width _ _ = true

-- Kinds whose conversions do not depend on the width.
abbrev is_unsized : PrimitiveKind → Bool
is_unsized boolean = true
is_unsized text = true
is_unsized enum = true
is_unsized bitmask = true
is_unsized _ = false

-- Two primitive types share their conversions exactly if they have the same kind and, where the
-- kind has several widths, the same width, provided that characters are of 8 or 16 bits and floats of
-- 32 or 64. The number is below 25 then, the size of the conversion table.
convert_id_iff :
    (j k : PrimitiveKind) (v w : Width)
    → is_builtin_width j v ≡ true
    → is_builtin_width k w ≡ true
    → ((convert_id j v ≡ convert_id k w) ↔ ((j ≡ k) × ((is_unsized j ≡ true) ⊎ (v ≡ w))))
      × (convert_id j v < 25)
unfolding convert_id
convert_id_iff j k v w h g = ((λ e. (ground arith, ground arith), λ e. ground arith), ground arith)
