-- ===== src/Tests/ValuesTests.antt =====
-- Values that are compared and copied: src/store/compare_ser.c, copy_ser.c.
use corto.Base.{ℕ, suc, ◌≡◌, refl, true, false, none, some, List, [], ◌∷◌, ltb, arith}
use corto.Base.Int.{pos, negsuc}
use corto.Values.{
  eq, lt, Desc, number, floating, text, reference, no_members, member, union, collection, list,
  sequence, map, Val, Platform, ptr_compare,
}
use corto.Values.Mirror.{IsAsymmetric}
use corto.Values.Copy.{Memory, ptr_copy}
use corto.Values.Copy.Faithful.{ptr_copy-ptr_compare}

-- A number, a text, a member without access, and a list of texts.
abbrev person : Desc
person =
    member true number
      (member true text (member false number (member true (collection list text) no_members)))

abbrev ada : Val person
ada = (
  pos 36,
  (some (100, b'a' ∷ b'd' ∷ b'a' ∷ []), (pos 1, ((200, some (101, b'x' ∷ []) ∷ []), tt))),
)

abbrev bob : Val person
bob = (pos 36, (some (300, b'b' ∷ b'o' ∷ b'b' ∷ []), (pos 2, ((400, []), tt))))

-- The bits of the numbers as their order, and an element's address or value as its memory.
abbrev bytes_of : (t : Desc) → Val t → List ℕ
bytes_of number (pos n) = n ∷ []
bytes_of number (negsuc n) = n ∷ []
bytes_of floating a = a ∷ []
bytes_of text none = 0 ∷ []
bytes_of text (some (p, a)) = p ∷ []
bytes_of reference a = a ∷ []
bytes_of no_members a = []
bytes_of (member shown t rest) a = []
bytes_of (union find_case cases) a = []
bytes_of (collection s t) (p, xs) = p ∷ []

abbrev platform : Platform
platform = record { less = λ a b. ltb a b; bytes = bytes_of }

platform-IsAsymmetric : IsAsymmetric platform
platform-IsAsymmetric a b e = ground arith

ada_first : ptr_compare platform person ada bob ≡ lt
unfolding ptr_compare
ada_first = refl

-- Two maps of one number each.
maps_equal : ptr_compare platform (collection map number) (1, pos 1 ∷ []) (2, pos 2 ∷ []) ≡ eq
unfolding ptr_compare
maps_equal = refl

abbrev zero_of : (t : Desc) → Val t
zero_of number = pos 0
zero_of floating = 0
zero_of text = none
zero_of reference = 0
zero_of no_members = tt
zero_of (member shown t rest) = (zero_of t, zero_of rest)
zero_of (union find_case cases) = (pos 0, zero_of cases)
zero_of (collection s t) = (0, [])

abbrev memory : Memory
memory = record {
  duplicate = λ p. suc p;
  resized = λ p n. suc p;
  created = 900;
  zeroed = zero_of;
  initial = zero_of;
  switched = λ cases k v. v;
  overlaid = λ cases k v. v;
}

ptr_copy-ptr_compare_example :
    (u : Val person) × (ptr_copy memory person ada bob ≡ some u)
    × (ptr_compare platform person ada u ≡ eq)
ptr_copy-ptr_compare_example =
    ptr_copy-ptr_compare platform memory platform-IsAsymmetric (λ e. ground arith) person ada bob
      (tt, (tt, (tt, (tt, tt))))

-- The copy of a sequence of texts has other pointers in its memory, and compares as different.
texts_copied :
    ptr_copy memory (collection sequence text) (1, some (100, b'a' ∷ []) ∷ []) (2, [])
    ≡ some (3, some (101, b'a' ∷ []) ∷ [])
unfolding ptr_copy
texts_copied = refl

texts_differ :
    ptr_compare platform
      (collection sequence text)
      (1, some (100, b'a' ∷ []) ∷ [])
      (3, some (101, b'a' ∷ []) ∷ [])
    ≡ lt
unfolding ptr_compare
texts_differ = refl

-- A list that is NULL and one that is empty differ, and a copy of the one is NULL again.
null_less : ptr_compare platform (collection list text) (0, []) (7, []) ≡ lt
unfolding ptr_compare
null_less = refl

null_copied : ptr_copy memory (collection list text) (0, []) (7, none ∷ []) ≡ some (0, [])
unfolding ptr_copy
null_copied = refl
