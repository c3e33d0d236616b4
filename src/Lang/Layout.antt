-- ===== src/Lang/Layout.antt =====
-- The memory layout of structs and unions: `corto__interface_calculateAlignment` and `_calculateSize`
-- (src/lang/interface.c), the sizes in `corto_struct_construct` (struct.c), `corto_union_construct`
-- (union.c), and `corto_type_sizeof` and `_alignmentof` (type.c).
-- The macro CORTO_ALIGN and the sizes of C types come from the compiler and the base package: they
-- are `Target`. `uint32_t` and `uint16_t` keep their wrap-around.
pub mod Arithmetic
pub mod Structs
pub mod Unions
use corto.Base.{
  ℕ, zero, suc, ◌+◌, ◌*◌, ◌%◌, ◌^◌, ◌≤◌, ◌<◌, ◌≡◌, Bool, true, false, ◌&&◌, ◌||◌, Option, none,
  some, List, [], ◌∷◌, ◌==◌, ltb, if◌then◌else◌, max,
}

pub record Target : Type 0 where
  -- CORTO_ALIGN(size, alignment)
  pub align : ℕ → ℕ → ℕ
  -- sizeof(void*) and CORTO_ALIGNMENT(void*)
  pub pointer_size : ℕ
  pub pointer_alignment : ℕ

-- corto_type: the fields that a layout reads.
pub record MemberType : Type 0 where
  pub reference : Bool
  pub size : ℕ
  pub alignment : ℕ

-- corto_member: an alias has the offset of the member that it stands for.
pub record Member : Type 0 where
  pub type : MemberType
  pub optional : Bool
  pub observable : Bool
  pub alias : Option ℕ

abbrev pub u8 : ℕ → ℕ
u8 n = n % 2 ^ 8

abbrev pub u32 : ℕ → ℕ
u32 n = n % 2 ^ 32

-- corto_type_sizeof
unfoldable pub sizeof : Target → MemberType → ℕ
sizeof target t = if t.reference then target.pointer_size else t.size

-- corto_type_alignmentof
unfoldable pub alignmentof : Target → MemberType → ℕ
alignmentof target t = if t.reference then target.pointer_alignment else t.alignment

-- What the construction of a struct computes.
pub record Layout : Type 0 where
  pub offsets : List ℕ
  pub size : ℕ
  pub alignment : ℕ

-- The alignment and the size of the base class, or none.
abbrev pub base_alignment : Option (ℕ × ℕ) → ℕ
base_alignment none = 0
base_alignment (some (size, alignment)) = alignment

abbrev pub base_size : Option (ℕ × ℕ) → ℕ
base_size none = 0
base_size (some (size, alignment)) = size

-- The tests of `corto_struct_construct` on the alignment and the size.
unfoldable pub sized : ℕ → ℕ → List ℕ × ℕ → Option Layout
sized own alignment (offsets, size) =
    if own == 0
    then none
    else if size == 0
    then none
    else some (record { offsets = offsets; size = size; alignment = alignment })

-- A member's offset, before those of the members behind it.
unfoldable pub prepend : ℕ → Option (List ℕ × ℕ) → Option (List ℕ × ℕ)
prepend offset none = none
prepend offset (some (offsets, end)) = some (offset ∷ offsets, end)

module _ (target : Target) where
  unfoldable pub member_alignment : Member → ℕ
  unfolding alignmentof
  member_alignment m =
      if m.optional
      then target.pointer_alignment
      else if m.observable
      then target.pointer_alignment
      else alignmentof target m.type

  -- The loop of `corto__interface_calculateAlignment`; `none` is its error.
  unfoldable pub alignment_loop : ℕ → List Member → Option ℕ
  unfolding member_alignment
  alignment_loop alignment [] = some alignment
  alignment_loop alignment (m ∷ ms) =
      let a = member_alignment m in
      let rest = alignment_loop (if ltb alignment a then a else alignment) ms in
      if a == 0 then none else rest

  unfoldable pub calculate_alignment : List Member → ℕ
  unfolding alignment_loop
  calculate_alignment ms = elim (alignment_loop 0 ms) [ none ↦ 0 | some a ↦ a ]

  unfoldable pub member_size : Member → ℕ
  unfolding sizeof
  member_size m =
      if m.optional
      then target.pointer_size
      else if m.observable
      then target.pointer_size
      else sizeof target m.type

  -- The loop of `corto__interface_calculateSize`: the offsets and the size; `none` is its error.
  unfoldable pub size_loop : ℕ → List Member → Option (List ℕ × ℕ)
  unfolding member_size alignmentof prepend
  size_loop size [] = some ([], size)
  size_loop size (m ∷ ms) = elim (m.alias) [
    | some offset ↦ prepend offset (size_loop size ms)
    | none ↦
        let offset = u32 (target.align size (alignmentof target m.type)) in
        let rest = size_loop (u32 (offset + member_size m)) ms in
        if member_size m == 0 || (alignmentof target m.type == 0) then none else prepend offset rest
  ]

  -- The `return` statements of `corto__interface_calculateSize`: 0 is its error.
  unfoldable pub rounded : ℕ → Option (List ℕ × ℕ) → List ℕ × ℕ
  rounded interface_alignment none = ([], 0)
  rounded interface_alignment (some (offsets, end)) =
      (offsets, if interface_alignment == 0 then 0 else u32 (target.align end interface_alignment))

  unfoldable calculate_size : ℕ → List Member → ℕ → List ℕ × ℕ
  unfolding size_loop rounded
  calculate_size interface_alignment ms base = rounded interface_alignment (size_loop base ms)

  -- `corto_struct_construct`, from the alignment on: `none` is an error.
  unfoldable pub struct_layout : Option (ℕ × ℕ) → List Member → Option Layout
  unfolding calculate_alignment calculate_size sized
  struct_layout base [] =
      some (record { offsets = []; size = base_size base; alignment = base_alignment base })
  struct_layout base (m ∷ ms) =
      let own = calculate_alignment (m ∷ ms) in
      let alignment = if ltb own (base_alignment base) then base_alignment base else own in
      sized own alignment (calculate_size alignment (m ∷ ms) (base_size base))

  -- The loop of `corto_union_construct` over the sizes.
  unfoldable pub largest : ℕ → List Member → ℕ
  unfolding sizeof
  largest size [] = size
  largest size (m ∷ ms) =
      largest (if ltb size (sizeof target m.type) then sizeof target m.type else size) ms

  -- The end of `corto_union_construct`, from the alignment and the largest size: the offset of all
  -- members, the size and the alignment. `alignment` is a `uint8_t` there.
  unfoldable pub union_sized : ℕ → ℕ → Option (ℕ × ℕ × ℕ)
  union_sized own top =
      let alignment = u8 own in
      if alignment == 0
      then none
      else some (target.align 4 alignment, u32 (target.align (u32 (top + 4)) alignment), alignment)

  -- `corto_union_construct`: `none` is an error.
  unfoldable pub union_layout : List Member → Option (ℕ × ℕ × ℕ)
  unfolding calculate_alignment largest union_sized
  union_layout [] = none
  union_layout (m ∷ ms) = union_sized (calculate_alignment (m ∷ ms)) (largest 0 (m ∷ ms))
