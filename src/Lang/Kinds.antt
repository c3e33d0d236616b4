-- ===== src/Lang/Kinds.antt =====
-- The kinds of types (include/lang/_type.h, generated from the type definitions).

use corto.Base.{ℕ}

-- corto_primitiveKind
pub data PrimitiveKind : Type 0 where
  binary boolean character integer uinteger float text enum bitmask : PrimitiveKind

-- corto_width
pub data Width : Type 0 where
  width_8 width_16 width_32 width_64 width_word : Width

-- The value of a `corto_width`.
abbrev pub width_value : Width → ℕ
width_value width_8 = 0
width_value width_16 = 1
width_value width_32 = 2
width_value width_64 = 3
width_value width_word = 4
