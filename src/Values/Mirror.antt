-- ===== src/Values/Mirror.antt =====
-- What a comparison says when its operands change places.
use corto.Base.{ℕ, suc, ◌≡◌, ◌≢◌, refl, true, false, List, ◌∷◌, ◌==◌, length, arith}
use corto.Values.{
  gt, Desc, number, floating, text, reference, no_members, member, union, collection, Platform,
  array, sequence, list, map, compare_collection, compare_shapes, compare_lists, compare_each,
  walk_values, ptr_compare,
}

-- A type without references and unions outside of its collections: CORTO_NEQ is never the result.
abbrev IsPlain : Desc → Type 0
IsPlain number = Unit
IsPlain floating = Unit
IsPlain text = Unit
IsPlain reference = ⊥
IsPlain no_members = Unit
IsPlain (member shown t rest) = IsPlain t × IsPlain rest
IsPlain (union find_case cases) = ⊥
IsPlain (collection s t) = Unit

-- No list has elements that can compare as CORTO_NEQ.
abbrev IsMirrored : Desc → Type 0
IsMirrored number = Unit
IsMirrored floating = Unit
IsMirrored text = Unit
IsMirrored reference = Unit
IsMirrored no_members = Unit
IsMirrored (member shown t rest) = IsMirrored t × IsMirrored rest
IsMirrored (union find_case cases) = IsMirrored cases
IsMirrored (collection list t) = IsPlain t × IsMirrored t
IsMirrored (collection array t) = Unit
IsMirrored (collection sequence t) = Unit
IsMirrored (collection map t) = Unit

-- Of two floating point numbers at most one is less.
abbrev pub IsAsymmetric : Platform → Type 0
IsAsymmetric p = (a b : ℕ) → p.less a b ≡ true → p.less b a ≡ false

module _ (p : Platform) where
  -- Two lists of references of the same length that differ in the first one compare as greater,
  -- whichever of them comes first.
  ptr_compare-references :
      (m n a b : ℕ) (xs ys : List ℕ)
      → m ≢ 0
      → n ≢ 0
      → a ≢ b
      → length xs ≡ length ys
      → (ptr_compare p (collection list reference) (m, a ∷ xs) (n, b ∷ ys) ≡ gt)
        × (ptr_compare p (collection list reference) (n, b ∷ ys) (m, a ∷ xs) ≡ gt)
  unfolding ptr_compare walk_values compare_collection compare_shapes compare_lists compare_each
  ptr_compare-references m n a b xs ys dm dn d l =
      let left : (m == 0) ≡ false = ground arith in
      let right : (n == 0) ≡ false = ground arith in
      let first : (a == b) ≡ false = ground arith in
      let second : (b == a) ≡ false = ground arith in
      let here : (suc (length xs) == suc (length ys)) ≡ true = ground arith in
      let there : (suc (length ys) == suc (length xs)) ≡ true = ground arith in
      (rw (left, right, here, first) refl, rw (left, right, there, second) refl)
