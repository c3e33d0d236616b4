-- ===== src/Object/Lookup/Order.antt =====
-- How the other objects of a scope compare with an element of a path.
use corto.Base.{
  ℕ, ◌+◌, ◌≡◌, ◌≢◌, Bool, true, not, ◌&&◌, [], ◌∷◌, ◌++◌, ◌==◌, ltb, Text, if◌then◌else◌, arith,
  All,
}
use corto.Object.Lookup.{Equality, eq, compare_lookup}
use corto.Object.Lookup.Matching.{IsId, Follows, end, scope, value}

-- A character behind '/' that no element ends at: a letter, a digit or '_', among others.
abbrev pub is_name_char : ℕ → Bool
is_name_char c = ltb b'/' c && not (c == b'{')

abbrev pub IsName : Text → Type 0
IsName = All (λ c. is_name_char c ≡ true)

pub IsName-IsId : (n : Text) → IsName n → IsId n
IsName-IsId [] h = tt
IsName-IsId (c ∷ cs) h = (ground arith, IsName-IsId cs h.1)

-- What follows the name in an id: nothing, or an argument list.
pub data Arguments : Text → Type 0 where
  plain : Arguments []
  arguments : (args : Text) → Arguments (b'(' ∷ args)

-- tolower in the C locale
abbrev pub IsTolower : (ℕ → ℕ) → Type 0
IsTolower tolower = (c : ℕ) → tolower c ≡ (if ltb 64 c && ltb c 91 then c + 32 else c)

module _ (tolower : ℕ → ℕ) (ascii : IsTolower tolower) where
  -- An id that differs from a name stands on the same side of it wherever the path goes on.
  pub compare_lookup-Follows :
      (n args y t : Text) (k : Equality)
      → IsName n
      → Arguments args
      → IsName y
      → Follows t
      → k ≢ eq
      → compare_lookup tolower true (n ++ args) y ≡ k
      → compare_lookup tolower true (n ++ args) (y ++ t) ≡ k
  unfolding compare_lookup
  compare_lookup-Follows [] _ [] t k h plain j f d e = absurd (ground arith)
  compare_lookup-Follows [] _ (b ∷ y) t k h plain j f d e = ground arith
  compare_lookup-Follows [] _ [] t k h (arguments args) j f d e = absurd (ground arith)
  compare_lookup-Follows [] _ (b ∷ y) t k h (arguments args) j f d e =
      ground (arith, ascii 40, ascii b)
  compare_lookup-Follows (a ∷ n) args [] _ k h g j end d e = e
  compare_lookup-Follows (a ∷ n) args [] _ k h g j (scope rest) d e = ground arith
  compare_lookup-Follows (a ∷ n) args [] _ k h g j (value rest) d e = ground arith
  compare_lookup-Follows (a ∷ n) args (b ∷ y) t k h g j f d e =
      ground (arith, compare_lookup-Follows n args y t k h.1 g j.1 f d)
