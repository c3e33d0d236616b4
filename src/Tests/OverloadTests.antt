-- ===== src/Tests/OverloadTests.antt =====
-- The choice between functions of one name: src/store/object.c.
use corto.Base.{
  ℕ, ◌+◌, ◌≡◌, refl, ◌&&◌, Bool, true, false, some, [], ◌∷◌, ◌++◌, Text, leb, if◌then◌else◌, arith,
}
use corto.Lang.Primitive.{void, composite}
use corto.Object.Overload.{ParamType, Passing, levels}
use corto.Object.Overload.Functions.{
  Entry, procedure, distance, no_match_overload, at, function_from_sequence,
}
use corto.Object.Overload.Functions.Choice.{function_from_sequence-nearest}

abbrev base_class : ParamType
base_class = record { address = 1; kind = composite; valid = true; bases = [] }

abbrev generic_object : ParamType
generic_object = record { address = 2; kind = void; valid = true; bases = [] }

abbrev sub_class : ParamType
sub_class = record { address = 3; kind = composite; valid = true; bases = 1 ∷ [] }

abbrev passing : Passing
passing = record {
  offered_reference = true;
  reference = true;
  force_reference = false;
  wildcard = false;
  null = false;
}

abbrev never : ParamType → ParamType → Bool
never a b = false

one_up : levels 1 3 (1 ∷ []) ≡ some 1
unfolding levels
one_up = refl

abbrev tolower : ℕ → ℕ
tolower c = if leb 65 c && leb c 90 then c + 32 else c

tolower_nul : (c : ℕ) → tolower c ≡ 0 → c ≡ 0
tolower_nul c e = ground arith

-- f( and F(
abbrev offered : Text
offered = b'f' ∷ b'(' ∷ []

abbrev requested : Text
requested = b'F' ∷ b'(' ∷ []

abbrev request : Text
request = b'f' ∷ b'(' ∷ b')' ∷ []

abbrev fits : ℕ → ℕ → Entry
fits address d = procedure address (b'f' ∷ []) true (distance d)

abbrev misfit : ℕ → Entry
misfit address = procedure address (b'f' ∷ []) true no_match_overload

function_from_sequence-nearest_example :
    function_from_sequence true request ((misfit 1 ∷ fits 2 5 ∷ []) ++ fits 3 1 ∷ (fits 4 2 ∷ []))
    ≡ (some 3, at 1)
function_from_sequence-nearest_example =
    function_from_sequence-nearest request (misfit 1 ∷ fits 2 5 ∷ []) (fits 4 2 ∷ []) 3 1
      (b'f' ∷ []) true (tt, (omega arith, tt)) (omega arith, tt)
