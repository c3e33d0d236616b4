-- ===== src/Object/Overload/Functions.antt =====
-- The lookup of a function among the objects of a scope or the methods of a class
-- (src/store/object.c: `corto_lookup_functionWalk`, `corto_lookup_functionFromSequence`). What
-- `corto_overload` answers for an object is part of its entry; distances are below INT_MAX.
pub mod Choice
use corto.Base.{
  ℕ, Bool, true, false, not, ◌&&◌, ◌||◌, Option, none, some, List, [], ◌∷◌, ◌==◌, ltb, leb,
  if◌then◌else◌, Text, str_eq, is_some,
}

-- The outcomes of corto_overload: -1 and an error, NOMATCH, NOMATCH_OVERLOAD, or a distance.
pub data Outcome : Type 0 where
  failed no_match no_match_overload : Outcome
  distance : ℕ → Outcome

-- An object of the scope: a procedure or delegate, with the name in its signature, its flag
-- `overloaded` and what corto_overload says of it; or another object, with the answer of `stricmp`.
pub data Entry : Type 0 where
  procedure : (address : ℕ) (name : Text) (overloaded : Bool) → Outcome → Entry
  other : (address : ℕ) (same_id : Bool) → Entry

-- The variables `d` and `old_d`: INT_MAX, NOMATCH_OVERLOAD, or a distance.
pub data Best : Type 0 where
  infinite : Best
  rejected : Best
  at : ℕ → Best

-- corto_lookup_function_t, without the request.
pub record Walk : Type 0 where
  pub result : Option ℕ
  pub error : Bool
  pub d : Best
  pub old_d : Best

abbrev pub start : Walk
start = record { result = none; error = false; d = infinite; old_d = infinite }

-- d <= compare and d < compare, where NOMATCH_OVERLOAD counts as INT_MAX.
abbrev pub within : ℕ → Best → Bool
within d (at n) = leb d n
within d _ = true

abbrev pub below : ℕ → Best → Bool
below d (at n) = ltb d n
below d _ = true

-- The tests on `d` at the end of the branch for procedures.
unfoldable pub consider : ℕ → ℕ → Walk → Walk
consider address d w = record w {
  old_d = if within d w.d then w.d else w.old_d;
  result = if below d w.d then some address else w.result;
  d = if below d w.d then at d else w.d;
}

unfoldable pub consider_rejected : ℕ → Walk → Walk
consider_rejected address w =
    if not (is_some w.result) then record w { result = some address; d = rejected } else w

-- corto_lookup_functionWalk: the flag says that the walk goes on. `has_args` says that the request
-- has a '('.
unfoldable pub function_walk : Bool → Text → Entry → Walk → Walk × Bool
unfolding consider consider_rejected
function_walk has_args request (other address same_id) w =
    if same_id then (record w { d = at 0; result = some address }, false) else (w, true)
function_walk true request (procedure address name overloaded failed) w =
    (record w { error = true }, false)
function_walk true request (procedure address name overloaded no_match) w = (w, true)
function_walk true request (procedure address name overloaded no_match_overload) w =
    (consider_rejected address w, true)
function_walk true request (procedure address name overloaded (distance d)) w =
    (consider address d w, true)
function_walk false request (procedure address name overloaded outcome) w =
    if str_eq name request
    then (if not overloaded
        then (record w { d = at 0; result = some address }, false)
        else (record w { error = true }, false))
    else (w, true)

unfoldable pub walk_all : Bool → Text → List Entry → Walk → Walk
unfolding function_walk
walk_all has_args request [] w = w
walk_all has_args request (e ∷ es) w =
    let (v, further) = function_walk has_args request e w in
    let rest = walk_all has_args request es v in if further then rest else v

abbrev pub same_best : Best → Best → Bool
same_best infinite infinite = true
same_best rejected rejected = true
same_best (at m) (at n) = m == n
same_best _ _ = false

abbrev is_infinite : Best → Bool
is_infinite infinite = true
is_infinite _ = false

-- Behind the loop: the result, and `*d`.
unfoldable pub conclude : Walk → Option ℕ × Best
conclude w =
    let ambiguous = not (is_infinite w.d) && same_best w.d w.old_d in
    (if w.error || ambiguous then none else w.result, w.d)

-- corto_lookup_functionFromSequence
unfoldable pub function_from_sequence : Bool → Text → List Entry → Option ℕ × Best
unfolding walk_all conclude
function_from_sequence has_args request es = conclude (walk_all has_args request es start)
