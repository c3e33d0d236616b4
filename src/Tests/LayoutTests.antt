-- ===== src/Tests/LayoutTests.antt =====
-- Layouts on a target with pointers of 8 bytes, and primitive types: src/lang.
use native.Mathlib.Nat.{div-mul-le_self, lt-div-mul-add, dvd-mul_left, dvd_refl}
use corto.Base.{
  ℕ, ◌+◌, ◌-◌, ◌*◌, ◌/◌, ◌≤◌, ◌≡◌, refl, inl, true, false, none, some, List, [], ◌∷◌, All, arith,
}
use corto.Lang.Layout.{Target, Member, Layout, union_layout, size_loop, largest, sizeof}
use corto.Lang.Layout.Arithmetic.{IsTarget}
use corto.Lang.Layout.Unions.{union_layout-fits}
use corto.Lang.Kinds.{integer, float}
use corto.Lang.Primitive.{TypeObject, primitive}

-- Rounding up.
abbrev round_up : ℕ → ℕ → ℕ
round_up s a = (s + (a - 1)) / a * a

abbrev target : Target
target = record { align = round_up; pointer_size = 8; pointer_alignment = 8 }

target-IsTarget : IsTarget target
target-IsTarget = record {
  align_ge = λ s a h. omega (arith, lt-div-mul-add h);
  align_lt = λ s a h. omega (arith, div-mul-le_self (s + (a - 1)) a);
  align_dvd = λ s a h. dvd-mul_left a ((s + (a - 1)) / a);
  pointer_size_pos = omega arith;
  pointer_alignment_pos = omega arith;
}

abbrev plain : ℕ → ℕ → Member
plain size alignment = record {
  type = record { reference = false; size = size; alignment = alignment };
  optional = false;
  observable = false;
  alias = none;
}

abbrev optional_byte : Member
optional_byte = record {
  type = record { reference = false; size = 1; alignment = 1 };
  optional = true;
  observable = false;
  alias = none;
}

-- struct { int8 a; int32 b; int64 c; int8 d }
abbrev members : List Member
members = plain 4 4 ∷ plain 8 8 ∷ plain 1 1 ∷ []

abbrev laid_out : Layout
laid_out = record { offsets = 0 ∷ 4 ∷ 8 ∷ 16 ∷ []; size = 24; alignment = 8 }

optional_run : size_loop target 1 (optional_byte ∷ []) ≡ some (1 ∷ [], 9)
unfolding size_loop
optional_run = refl

-- union { int32 a; int8 b }
abbrev small_case : List Member
small_case = plain 4 4 ∷ plain 1 1 ∷ []

small_run : union_layout target small_case ≡ some (4, 8, 4)
unfolding union_layout
small_run = refl

union_layout-fits_example : (4 ≤ 4) × All (λ m. 4 + sizeof target m.type ≤ 8) small_case
unfolding sizeof largest
union_layout-fits_example =
    union_layout-fits target target-IsTarget small_case 4 8 4 (omega arith) (inl (dvd_refl 4))
      small_run

-- union { int64 a; struct { int32 x, y, z } b }
abbrev wide_case : List Member
wide_case = plain 8 8 ∷ plain 12 4 ∷ []

wide_run : union_layout target wide_case ≡ some (8, 16, 8)
unfolding union_layout
wide_run = refl

abbrev int32 : TypeObject
int32 = record { address = 1; kind = primitive integer; reference = false }

abbrev float64 : TypeObject
float64 = record { address = 2; kind = primitive float; reference = false }
