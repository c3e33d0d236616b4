-- ===== src/Object/Lookup/Matching.antt =====
-- When an id matches a path element.
use corto.Base.{
  ℕ, ◌≡◌, ◌<◌, refl, ◌↔◌, Bool, true, not, ◌||◌, [], ◌∷◌, ◌++◌, ◌==◌, Text, arith, All,
}
use corto.Object.Lookup.{eq, lt, gt, lower, compare_lookup}

-- A character of an id without argument list.
abbrev is_id_char : ℕ → Bool
is_id_char c = not (c == 0 || c == b'/' || c == b'{' || c == b'(')

abbrev pub IsId : Text → Type 0
IsId = All (λ c. is_id_char c ≡ true)

-- What follows an element in a path: nothing, a further element, or a value.
pub data Follows : Text → Type 0 where
  end : Follows []
  scope : (rest : Text) → Follows (b'/' ∷ rest)
  value : (rest : Text) → Follows (b'{' ∷ rest)

module _ (tolower : ℕ → ℕ) where
  -- The same characters up to the case.
  abbrev pub SameId : Text → Text → Type 0
  SameId [] [] = Unit
  SameId [] (d ∷ ds) = ⊥
  SameId (c ∷ cs) [] = ⊥
  SameId (c ∷ cs) (d ∷ ds) = (lower tolower c ≡ lower tolower d) × SameId cs ds

  ended : (m : Bool) (t : Text) → Follows t → compare_lookup tolower m [] t ≡ eq
  unfolding compare_lookup
  ended m [] end = ground arith
  ended m _ (scope rest) = refl
  ended m _ (value rest) = ground arith

  longer :
      (m : Bool) (c : ℕ) (cs t : Text)
      → is_id_char c ≡ true
      → Follows t
      → compare_lookup tolower m (c ∷ cs) t ≡ eq
      → ⊥
  unfolding compare_lookup
  longer m c cs [] h end e = ground arith
  longer m c cs _ h (scope rest) e = ground arith
  longer m c cs _ h (value rest) e = ground arith

  shorter :
      (m : Bool) (d : ℕ) (ds : Text)
      → is_id_char d ≡ true
      → compare_lookup tolower m [] (d ∷ ds) ≡ eq
      → ⊥
  unfolding compare_lookup
  shorter m d ds h e = ground arith

  match_sound :
      (m : Bool) (id element t : Text)
      → IsId id
      → IsId element
      → Follows t
      → compare_lookup tolower m id (element ++ t) ≡ eq
      → SameId id element
  unfolding compare_lookup
  match_sound m [] [] t h k f e = tt
  match_sound m [] (d ∷ ds) t h k f e = shorter m d (ds ++ t) k.0 e
  match_sound m (c ∷ cs) [] t h k f e = longer m c cs t h.0 f e
  match_sound m (c ∷ cs) (d ∷ ds) t h k f e =
      (ground arith, match_sound m cs ds t h.1 k.1 f (ground arith))

  match_complete :
      (m : Bool) (id element t : Text)
      → IsId id
      → IsId element
      → Follows t
      → SameId id element
      → compare_lookup tolower m id (element ++ t) ≡ eq
  unfolding compare_lookup
  match_complete m [] [] t h k f s = ended m t f
  match_complete m [] (d ∷ ds) t h k f s = absurd s
  match_complete m (c ∷ cs) [] t h k f s = absurd s
  match_complete m (c ∷ cs) (d ∷ ds) t h k f s =
      ground (arith, match_complete m cs ds t h.1 k.1 f s.1)

  -- An id without argument list matches the first element of a path exactly when both have the same
  -- characters up to the case, with or without argument matching, whatever follows the element: the
  -- end of the text, a further element behind '/', or a value in '{'.
  pub compare_lookup_iff :
      (m : Bool) (id element t : Text)
      → IsId id
      → IsId element
      → Follows t
      → (compare_lookup tolower m id (element ++ t) ≡ eq) ↔ SameId id element
  compare_lookup_iff m id element t h k f =
      (match_sound m id element t h k f, match_complete m id element t h k f)

  -- An element and a longer id that starts with it: the order of the two turns on what follows the
  -- element in the path. At the end of the path the id is greater; before a '/' it is less if its next
  -- character is below '/', as '-' and '.' are.
  compare_lookup_order :
      (m : Bool) (element : Text) (c : ℕ) (cs rest : Text)
      → IsId element
      → is_id_char c ≡ true
      → c < b'/'
      → (compare_lookup tolower m (element ++ c ∷ cs) element ≡ gt)
        × (compare_lookup tolower m (element ++ c ∷ cs) (element ++ b'/' ∷ rest) ≡ lt)
  unfolding compare_lookup
  compare_lookup_order m [] c cs rest h k l = (ground arith, ground arith)
  compare_lookup_order m (d ∷ ds) c cs rest h k l =
      let (a, b) = compare_lookup_order m ds c cs rest h.1 k l in (ground arith, ground arith)
