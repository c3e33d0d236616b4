-- ===== src/Lang/Collections/Relations.antt =====
-- What the tests of src/lang/collection.c decide.
use corto.Base.{ℕ, ◌≡◌, Bool, true, not, ◌||◌, ◌==◌, arith}
use corto.Lang.Collections.{
  Element, collection, CollectionKind, is_array, collection_castable, collection_compatible,
}

-- Between two collections of which the first is compatible with the second, the first is castable to
-- the second exactly if it is no array or has the same size, whatever the second's size.
castable_of_compatible :
    (a b : ℕ) (r s : Bool) (k l : CollectionKind) (m n : ℕ) (e f : Element) (y z : ℕ)
    → collection_compatible (collection a r k m e y) (collection b s l n f z) ≡ true
    → collection_castable (collection a r k m e y) (collection b s l n f z)
      ≡ (not (is_array k) || m == n)
unfolding collection_compatible collection_castable
castable_of_compatible a b r s k l m n e f y z h = ground arith
