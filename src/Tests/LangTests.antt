-- ===== src/Tests/LangTests.antt =====
-- Delegates, tables of methods, constants, cases and collections: src/lang.
use corto.Base.{Any, ℕ, ◌<◌, ◌≡◌, refl, ◌↔◌, true, false, none, some, List, [], ◌∷◌}
use corto.Base.Int.{pos}
use corto.Lang.Kinds.{width_32}
use corto.Lang.Delegates.{
  Parameter, Signature, delegate, call, returned, delegate_instanceof, delegate_compatible_v,
}
use corto.Lang.Delegates.Matching.{Accepts, AcceptsAll, delegate_instanceof_iff}
use corto.Lang.Vtable.{Vtable, contains}
use corto.Lang.Vtable.Slots.{IsDistinct}
use corto.Lang.Constants.{Case}
use corto.Lang.Instances.{TypeInfo, composite, class, type_instanceof}
use corto.Lang.Instances.Lineage.{type_instanceof-class_iff}
use corto.Lang.Collections.{Element, plain, primitive, collection, array, collection_compatible}

abbrev parameter : ℕ → Parameter
parameter type = record { type = type; by_reference = false }

abbrev signature : List Parameter → Signature
signature ps = record { return_type = 1; returns_reference = false; parameters = ps }

abbrev one_parameter : Signature
one_parameter = signature (parameter 2 ∷ [])

delegate_instanceof_iff_example :
    ((delegate_instanceof one_parameter (call one_parameter) ≡ some true) ↔ (
      Accepts (returned one_parameter) (returned one_parameter)
      × AcceptsAll (parameter 2 ∷ []) (parameter 2 ∷ [])))
    × ((delegate_instanceof one_parameter (call one_parameter) ≡ none) ↔ (1 < 1))
delegate_instanceof_iff_example = delegate_instanceof_iff one_parameter one_parameter

-- Parameters of different types do not keep two delegates apart.
unlike :
    delegate_compatible_v (signature (parameter 2 ∷ [])) (delegate (signature (parameter 3 ∷ [])))
    ≡ some true
unfolding delegate_compatible_v
unlike = refl

-- A free slot between two methods.
abbrev vtable : Vtable
vtable = some 7 ∷ none ∷ some 8 ∷ []

vtable-IsDistinct : IsDistinct vtable
unfolding contains
vtable-IsDistinct = (refl, (refl, tt))

abbrev cases : List Case
cases =
    record { address = 1; discriminator = [] }
    ∷ record { address = 2; discriminator = pos 4 ∷ pos 5 ∷ [] }
    ∷ record { address = 3; discriminator = [] }
    ∷ []

abbrev int32 : Element
int32 = plain 1 false (primitive width_32)

arrays_compatible :
    collection_compatible (collection 2 false array 4 int32 0) (collection 3 false array 5 int32 0)
    ≡ true
unfolding collection_compatible
arrays_compatible = refl

-- A class whose base implements the interface 30.
abbrev base_type : TypeInfo
base_type = record {
  own = record { address = 20; implements = (30, []) ∷ [] };
  bases = [];
  class_of = composite class;
  reference = true;
  target = none;
}

abbrev sub_type : TypeInfo
sub_type = record {
  own = record { address = 21; implements = [] };
  bases = record { address = 20; implements = (30, []) ∷ [] } ∷ [];
  class_of = composite class;
  reference = true;
  target = none;
}

type_instanceof-class_iff_example :
    (type_instanceof base_type sub_type ≡ true) ↔ Any (λ (b : ℕ). b ≡ 20) (21 ∷ 20 ∷ [])
type_instanceof-class_iff_example = type_instanceof-class_iff base_type sub_type refl refl refl
