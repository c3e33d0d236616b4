-- ===== src/Values.antt =====
-- The comparison of values (src/store/compare_ser.c, with the walk over members in src/store/walk.c),
-- as `corto_ptr_compare` of src/store/ptr.c starts it. A value is typed by the description of its type.
-- The memory of array elements and the order of floating point numbers belong to the platform. Members
-- that are optional or observable, values of type any, and map keys are left out. A reference that is an
-- element of a list is of type object: of another type, the code reads its slot as a value.
pub mod Parts
pub mod Same
pub mod Turned
pub mod Mirror
pub mod Copy
use corto.Base.Int.{ℤ, ltb_ℤ, eqb_ℤ}
use corto.Base.{
  ℕ, zero, suc, ◌+◌, Bool, true, false, not, ◌&&◌, ◌||◌, Option, none, some, List, [], ◌∷◌, ◌++◌,
  ◌==◌, ltb, if◌then◌else◌, Text, length,
}

-- corto_equalityKind
pub data Comparison : Type 0 where
  eq lt gt neq : Comparison

-- The kinds of a collection.
pub data Shape : Type 0 where
  array sequence list map : Shape

-- A type. `number` stands for Booleans, characters, integers, enumerations, bitmasks and binaries. The
-- members of a composite follow one another up to `no_members`, the base first; the flag says that the
-- walk has access to the member. A union has the function that finds the case of a discriminator.
pub data Desc : Type 0 where
  number floating text reference no_members : Desc
  member : Bool → Desc → Desc → Desc
  union : (ℤ → Option ℕ) → Desc → Desc
  collection : Shape → Desc → Desc

-- The values of a type. A text, a list and the buffer of a sequence have an address, which is 0 where
-- the pointer is NULL; of an array it is not read. A list that is NULL has no elements: its count is 0,
-- as the code takes it to be. The memory of a union is read as each of its members.
abbrev pub Val : Desc → Type 0
Val number = ℤ
Val floating = ℕ
Val text = Option (ℕ × Text)
Val reference = ℕ
Val no_members = Unit
Val (member shown t rest) = Val t × Val rest
Val (union find_case cases) = ℤ × Val cases
Val (collection s t) = ℕ × List (Val t)

pub record Platform : Type 0 where
  -- a < b on the bits of floating point numbers
  pub less : ℕ → ℕ → Bool
  -- what the memory of an array element holds
  pub bytes : (t : Desc) → Val t → List ℕ

-- CORTO_COMPARE on integers.
unfoldable pub compare_number : ℤ → ℤ → Comparison
compare_number a b = if ltb_ℤ b a then gt else if ltb_ℤ a b then lt else eq

-- The sign of strcmp, and of memcmp on as many bytes.
unfoldable pub compare_bytes : List ℕ → List ℕ → Comparison
compare_bytes [] [] = eq
compare_bytes [] (d ∷ ds) = lt
compare_bytes (c ∷ cs) [] = gt
compare_bytes (c ∷ cs) (d ∷ ds) =
    let rest = compare_bytes cs ds in if ltb c d then lt else if ltb d c then gt else rest

-- The branch for CORTO_TEXT.
unfoldable pub compare_text : Option (ℕ × Text) → Option (ℕ × Text) → Comparison
unfolding compare_bytes
compare_text none none = eq
compare_text none (some b) = lt
compare_text (some a) none = gt
compare_text (some (p, a)) (some (q, b)) = compare_bytes a b

-- data->result = result < 0 ? -1 : result > 0 ? 1 : 0
abbrev pub sign : Comparison → Comparison
sign eq = eq
sign lt = lt
sign gt = gt
sign neq = gt

-- "Reverse result"
abbrev reverse : Comparison → Comparison
reverse eq = eq
reverse gt = lt
reverse lt = gt
reverse neq = gt

-- A walk stops at the first result that is not CORTO_EQ.
abbrev pub and_then : Comparison → Comparison → Comparison
and_then eq next = next
and_then lt next = lt
and_then gt next = gt
and_then neq next = neq

module _ {A : Type 0} (compare : A → A → Comparison) (bytes : A → List ℕ) where
  -- corto_collection_compareListWithList and corto_collection_compareArrayWithList: up to the end of
  -- one of the two.
  unfoldable pub compare_each : List A → List A → Comparison
  compare_each [] ys = eq
  compare_each (x ∷ xs) [] = eq
  compare_each (x ∷ xs) (y ∷ ys) = and_then (compare x y) (compare_each xs ys)

  abbrev pub memory : List A → List ℕ
  memory [] = []
  memory (x ∷ xs) = bytes x ++ memory xs

  -- corto_collection_compareListWithList
  unfoldable pub compare_lists : ℕ × List A → ℕ × List A → Comparison
  unfolding compare_each
  compare_lists (a, xs) (b, ys) =
      if not (a == 0) && b == 0
      then gt
      else if a == 0 && not (b == 0)
      then lt
      else compare_each xs ys

  -- corto_collection_compareArrayWithList
  unfoldable compare_array_list : List A → ℕ × List A → Comparison
  unfolding compare_each
  compare_array_list xs (b, ys) = if b == 0 then gt else compare_each xs ys

  -- The choice by the two kinds; a list behind an array is walked first. Where the buffer of a sequence
  -- is NULL it has no elements, so that no memory is compared.
  unfoldable pub compare_shapes : Shape → Shape → ℕ × List A → ℕ × List A → Comparison
  unfolding compare_lists compare_array_list
  compare_shapes array array (a, xs) (b, ys) = compare_bytes (memory xs) (memory ys)
  compare_shapes array sequence (a, xs) (b, ys) = compare_bytes (memory xs) (memory ys)
  compare_shapes sequence array (a, xs) (b, ys) = compare_bytes (memory xs) (memory ys)
  compare_shapes sequence sequence (a, xs) (b, ys) = compare_bytes (memory xs) (memory ys)
  compare_shapes array list (a, xs) (b, ys) = if b == 0 then eq else compare_array_list xs (b, ys)
  compare_shapes sequence list (a, xs) (b, ys) =
      if a == 0 || b == 0 then eq else compare_array_list xs (b, ys)
  compare_shapes list array (a, xs) (b, ys) = reverse (compare_array_list ys (a, xs))
  compare_shapes list sequence (a, xs) (b, ys) =
      if b == 0 then eq else reverse (compare_array_list ys (a, xs))
  compare_shapes list list v w = compare_lists v w
  compare_shapes map _ v w = eq
  compare_shapes _ map v w = eq

  -- corto_ser_collection
  unfoldable pub compare_collection : Shape → Shape → ℕ × List A → ℕ × List A → Comparison
  unfolding compare_shapes
  compare_collection s u (a, xs) (b, ys) =
      if length xs == length ys
      then sign (compare_shapes s u (a, xs) (b, ys))
      else if ltb (length ys) (length xs)
      then gt
      else lt

-- Which members of a composite a walk visits.
pub data Visit : Type 0 where
  every : Visit
  only : ℕ → Visit

abbrev pub same_case : Option ℕ → Option ℕ → Bool
same_case none none = true
same_case none (some k) = false
same_case (some j) none = false
same_case (some j) (some k) = j == k

-- The guard of corto_ser_composite on the discriminators of a union.
abbrev same_union : (ℤ → Option ℕ) → ℤ → ℤ → Bool
same_union find_case d e = eqb_ℤ d e || same_case (find_case d) (find_case e)

-- corto_ser_reference
abbrev compare_reference : ℕ → ℕ → Comparison
compare_reference a b = if a == b then eq else neq

module _ (p : Platform) where
  unfoldable pub compare_floating : ℕ → ℕ → Comparison
  compare_floating a b = if p.less b a then gt else if p.less a b then lt else eq

  -- corto_walk_value with the handlers of the comparison, and corto_walk_members. A union whose
  -- discriminator has no case makes the walk fail, which leaves the result as it is.
  unfoldable pub walk_values : Visit → (t : Desc) → Val t → Val t → Comparison
  unfolding compare_number compare_floating compare_text compare_collection
  walk_values visit number a b = compare_number a b
  walk_values visit floating a b = compare_floating a b
  walk_values visit text a b = compare_text a b
  walk_values visit reference a b = compare_reference a b
  walk_values visit no_members a b = eq
  walk_values every (member shown t rest) (a, v) (b, w) =
      if shown
      then and_then (walk_values every t a b) (walk_values every rest v w)
      else walk_values every rest v w
  walk_values (only zero) (member shown t rest) (a, v) (b, w) =
      if shown then walk_values every t a b else eq
  walk_values (only (suc k)) (member shown t rest) (a, v) (b, w) = walk_values (only k) rest v w
  walk_values visit (union find_case cases) (d, v) (e, w) =
      if same_union find_case d e
      then elim (find_case d) [ none ↦ eq | some k ↦ walk_values (only k) cases v w ]
      else neq
  walk_values visit (collection s t) (a, xs) (b, ys) =
      compare_collection (walk_values every t) (p.bytes t) s s (a, xs) (b, ys)

  -- corto_ptr_compare
  unfoldable pub ptr_compare : (t : Desc) → Val t → Val t → Comparison
  unfolding walk_values
  ptr_compare t v w = walk_values every t v w
