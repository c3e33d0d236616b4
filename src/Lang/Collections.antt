-- ===== src/Lang/Collections.antt =====
-- Collections: which may stand in for which, and whether an element is allocated apart from its
-- slot (src/lang/collection.c).
pub mod Relations
use corto.Base.{ℕ, Bool, true, false, not, ◌&&◌, ◌||◌, ◌==◌, if◌then◌else◌}
use corto.Lang.Kinds.{Width, width_8, width_16, width_32, width_64, width_word}

-- corto_collectionKind
pub data CollectionKind : Type 0 where
  array sequence list dictionary : CollectionKind

-- A type, by its address: `elem` is of a collection, `key` of a map. A type that is no collection has
-- a class that these functions tell apart.
pub data ElementClass : Type 0 where
  void any iterator composite : ElementClass
  primitive : Width → ElementClass

pub data Element : Type 0 where
  plain : (address : ℕ) (reference : Bool) → ElementClass → Element
  collection :
      (address : ℕ) (reference : Bool)
      → CollectionKind
      → (max : ℕ) → (elem : Element) → (key : ℕ) → Element

abbrev pub address : Element → ℕ
address (plain a r c) = a
address (collection a r k m e y) = a

abbrev same_collection : CollectionKind → CollectionKind → Bool
same_collection array array = true
same_collection sequence sequence = true
same_collection list list = true
same_collection dictionary dictionary = true
same_collection _ _ = false

abbrev pub is_array : CollectionKind → Bool
is_array array = true
is_array _ = false

abbrev is_dictionary : CollectionKind → Bool
is_dictionary dictionary = true
is_dictionary _ = false

-- corto_collection_castable_v, on a collection `this`; the call on the element types goes to the same
-- function. A type that is not a collection has no such method.
unfoldable pub collection_castable : Element → Element → Bool
collection_castable (plain a r c) type = false
collection_castable (collection a r k m e y) (plain b s d) = false
collection_castable (collection a r k m e y) (collection b s l n f z) =
    let inner = collection_castable e f in
    if not (is_array k) || (is_array l && m == n)
    then (if not (address e == address f) then inner else true)
    else false

-- corto_collection_compatible_v
unfoldable pub collection_compatible : Element → Element → Bool
collection_compatible (plain a r c) type = false
collection_compatible (collection a r k m e y) (plain b s d) = false
collection_compatible (collection a r k m e y) (collection b s l n f z) =
    if same_collection k l
    then (if is_dictionary k && not (y == z) then false else address e == address f)
    else false

-- corto_collection_requiresAlloc, where the type is a reference or not a void.
unfoldable requires_alloc_class : ElementClass → Bool
requires_alloc_class void = true
requires_alloc_class any = true
requires_alloc_class (primitive width_8) = false
requires_alloc_class (primitive width_16) = false
requires_alloc_class (primitive width_32) = false
requires_alloc_class (primitive width_word) = false
requires_alloc_class (primitive width_64) = true
requires_alloc_class iterator = true
requires_alloc_class composite = true

unfoldable requires_alloc_collection : CollectionKind → Bool
requires_alloc_collection array = true
requires_alloc_collection sequence = true
requires_alloc_collection list = false
requires_alloc_collection dictionary = false

unfoldable requires_alloc : Element → Bool
unfolding requires_alloc_class requires_alloc_collection
requires_alloc (plain a r c) = if r then false else requires_alloc_class c
requires_alloc (collection a r k m e y) = if r then false else requires_alloc_collection k
