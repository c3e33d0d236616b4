-- ===== src/Lang/Instances.antt =====
-- Which types are instances of which: `_corto_type_instanceof` (src/store/object.c) and
-- `corto_interface_baseof` (src/lang/interface.c). Types are addresses with what the functions read.
pub mod Lineage
use corto.Base.{
  ℕ, Bool, true, false, not, ◌&&◌, ◌||◌, Option, none, some, List, [], ◌∷◌, ◌==◌, if◌then◌else◌,
  map,
}
use corto.Lang.Kinds.{
  PrimitiveKind, binary, boolean, character, integer, uinteger, float, text, enum, bitmask, Width,
  width_value,
}
use corto.Lang.Primitive.{same_kind}

-- corto_interfaceKind, as far as the function tells composites apart.
pub data Composite : Type 0 where
  delegate interface class other : Composite

pub data TypeClass : Type 0 where
  void any collection iterator : TypeClass
  primitive : PrimitiveKind → Width → TypeClass
  composite : Composite → TypeClass

-- An interface or class on the way up: its address, and the interfaces that it implements, each as
-- its own address and those of its bases, the nearest first.
pub record Level : Type 0 where
  pub address : ℕ
  pub implements : List (ℕ × List ℕ)

-- `own` is the type itself; `target` is what a target's `type` is, where the type's type is `target`.
pub record TypeInfo : Type 0 where
  pub own : Level
  pub bases : List Level
  pub class_of : TypeClass
  pub reference : Bool
  pub target : Option ℕ

-- The loop of `corto_interface_baseof`.
unfoldable pub base_loop : ℕ → List ℕ → Bool → Bool
base_loop type [] result = result
base_loop type (ptr ∷ bases) true = true
base_loop type (ptr ∷ bases) false = base_loop type bases (ptr == type)

-- corto_interface_baseof
unfoldable pub baseof : ℕ → List ℕ → ℕ → Bool
unfolding base_loop
baseof this bases type = base_loop type bases (this == type)

abbrev same_width : Width → Width → Bool
same_width v w = width_value v == width_value w

abbrev is_unsigned_code : PrimitiveKind → Bool
is_unsigned_code bitmask = true
is_unsigned_code uinteger = true
is_unsigned_code binary = true
is_unsigned_code character = true
is_unsigned_code _ = false

abbrev is_signed_code : PrimitiveKind → Bool
is_signed_code enum = true
is_signed_code integer = true
is_signed_code _ = false

-- The switches on two primitive types: `dst` first.
unfoldable instance_kinds : PrimitiveKind → PrimitiveKind → Bool → Bool
unfolding same_kind
instance_kinds bitmask k same = is_unsigned_code k && same
instance_kinds uinteger k same = is_unsigned_code k && same
instance_kinds binary k same = is_unsigned_code k && same
instance_kinds character k same = is_unsigned_code k && same
instance_kinds enum k same = is_signed_code k && same
instance_kinds integer k same = is_signed_code k && same
instance_kinds j k same = same_kind j k && same

-- The loop over the interfaces that a class implements.
unfoldable pub implements_loop : ℕ → List (ℕ × List ℕ) → Bool
unfolding baseof
implements_loop dst [] = false
implements_loop dst ((address, bases) ∷ more) =
    let rest = implements_loop dst more in if baseof address bases dst then true else rest

-- The loop over a class and its bases.
unfoldable pub class_loop : ℕ → List Level → Bool
unfolding implements_loop
class_loop dst [] = false
class_loop dst (base ∷ bases) =
    let rest = class_loop dst bases in if implements_loop dst base.implements then true else rest

abbrev pub addresses : List Level → List ℕ
addresses [] = []
addresses (l ∷ ls) = l.address ∷ addresses ls

-- The cases of types that are not the same.
unfoldable instance_classes : TypeInfo → TypeInfo → TypeClass → TypeClass → Bool
unfolding instance_kinds class_loop baseof
instance_classes dst src (primitive j v) (primitive k w) = instance_kinds j k (same_width w v)
instance_classes dst src (composite delegate) (composite c) = false
instance_classes dst src (composite interface) (composite class) =
    class_loop dst.own.address (src.own ∷ src.bases)
instance_classes dst src (composite interface) (composite c) = false
instance_classes dst src (composite class) (composite c) =
    baseof src.own.address (addresses src.bases) dst.own.address
instance_classes dst src (composite other) (composite c) =
    baseof src.own.address (addresses src.bases) dst.own.address
instance_classes dst src void void = false
instance_classes dst src void c = dst.reference && src.reference
instance_classes dst src c d = false

abbrev targets : Option ℕ → ℕ → Bool
targets none dst = false
targets (some t) dst = dst == t

-- _corto_type_instanceof
unfoldable pub type_instanceof : TypeInfo → TypeInfo → Bool
unfolding instance_classes
type_instanceof dst src =
    if dst.own.address == src.own.address || instance_classes dst src dst.class_of src.class_of
    then true
    else targets src.target dst.own.address
