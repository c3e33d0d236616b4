-- ===== src/Object/Lookup.antt =====
-- `corto_compareLookupIntern` (src/store/object.c): how an object's id compares with one element of
-- a path. `tolower` is the C library's, and characters are ASCII codes other than 0.
pub mod Matching
pub mod Order
use corto.Base.{ℕ, Bool, true, false, ◌&&◌, ◌||◌, List, [], ◌∷◌, ◌==◌, ltb, Text, if◌then◌else◌}

-- corto_equalityKind, as far as this function returns it.
pub data Equality : Type 0 where
  eq lt gt : Equality

-- r = ch1 - ch2, and the test of its sign.
unfoldable compare_chars : ℕ → ℕ → Equality
compare_chars a b = if ltb a b then lt else if ltb b a then gt else eq

-- `*ptr`, the terminator included.
abbrev head_char : Text → ℕ
head_char [] = 0
head_char (c ∷ cs) = c

-- What follows the loop.
unfoldable finish : Bool → ℕ → ℕ → Equality
unfolding compare_chars
finish match_args ch1 ch2 =
    if ch1 == 0 && ch2 == b'/'
    then eq
    else if match_args && ch2 == 0 && ch1 == b'('
    then eq
    else if ch2 == b'{'
    then (if ch1 == 0 then eq else compare_chars ch1 0)
    else compare_chars ch1 ch2

module _ (tolower : ℕ → ℕ) where
  abbrev pub lower : ℕ → ℕ
  lower c = if ltb c 97 then tolower c else c

  unfoldable pub compare_lookup : Bool → Text → Text → Equality
  unfolding finish
  compare_lookup match_args [] o2 = finish match_args 0 (head_char o2)
  compare_lookup match_args (c ∷ o1) [] = finish match_args c 0
  compare_lookup match_args (c ∷ o1) (d ∷ o2) =
      let rest = compare_lookup match_args o1 o2 in
      if d == b'/' || d == b'{'
      then finish match_args c d
      else if c == d
      then rest
      else if lower c == lower d
      then rest
      else compare_chars (lower c) (lower d)
