-- ===== src/Tests/NameTests.antt =====
-- Identifiers, lookup, signatures and sources on concrete inputs: src/store/object.c.
use corto.Base.{
  ℕ, ◌≡◌, refl, ◌↔◌, true, false, ◌&&◌, Option, none, some, List, [], ◌∷◌, Text, All, length, ◌+◌,
  leb, if◌then◌else◌,
}
use corto.Object.Identifier.{valid_identifier, IsIdentifier, valid_identifier_iff}
use corto.Object.Lookup.{eq, compare_lookup}
use corto.Object.Lookup.Matching.{SameId, scope, compare_lookup_iff}
use corto.Object.Sig.{Flags, no_flags, Param, name, param_count, param_type, build}
use corto.Object.Sig.Shape.{IsTypeId}
use corto.Object.Sig.RoundTrip.{received, count-build, param_type-build}
use corto.Object.Ownership.{Source, mount}

-- f(a)
abbrev call : Text
call = b'f' ∷ b'(' ∷ b'a' ∷ b')' ∷ []

valid_identifier_iff_example : (valid_identifier call ≡ none) ↔ IsIdentifier call
valid_identifier_iff_example = valid_identifier_iff call

-- The lower case of ASCII.
abbrev tolower : ℕ → ℕ
tolower c = if leb 65 c && leb c 90 then c + 32 else c

compare_lookup_iff_example :
    (compare_lookup tolower false (b'a' ∷ b'B' ∷ []) (b'A' ∷ b'b' ∷ b'/' ∷ b'c' ∷ []) ≡ eq)
    ↔ SameId tolower (b'a' ∷ b'B' ∷ []) (b'A' ∷ b'b' ∷ [])
compare_lookup_iff_example =
    compare_lookup_iff tolower false (b'a' ∷ b'B' ∷ []) (b'A' ∷ b'b' ∷ []) (b'/' ∷ b'c' ∷ [])
      (refl, (refl, tt)) (refl, (refl, tt)) (scope (b'c' ∷ []))

abbrev by_reference : Flags
by_reference = record no_flags { reference = true; force_reference = true }

-- f(t&&,u)
abbrev params : List Param
params =
    record { id = b't' ∷ []; flags = by_reference }
    ∷ record { id = b'u' ∷ []; flags = no_flags }
    ∷ []

params-IsTypeId : All (λ p. IsTypeId p.id) params
params-IsTypeId = (
  record { plain = (refl, tt); filled = λ e. cc },
  (record { plain = (refl, tt); filled = λ e. cc }, tt),
)

count-build_example :
    (name (build (b'f' ∷ []) params) ≡ b'f' ∷ [])
    × (param_count (build (b'f' ∷ []) params) ≡ some (length params))
count-build_example = count-build (b'f' ∷ []) params (refl, tt) params-IsTypeId

param_type-build_example :
    param_type (build (b'f' ∷ []) params) 0
    ≡ some (b't' ∷ [], received (record { id = b't' ∷ []; flags = by_reference }))
param_type-build_example =
    param_type-build (b'f' ∷ []) params 0 (record { id = b't' ∷ []; flags = by_reference })
      (refl, tt) params-IsTypeId refl

abbrev local_mount : Option Source
local_mount = some (record { address = 1; role = mount true })
