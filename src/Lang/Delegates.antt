-- ===== src/Lang/Delegates.antt =====
-- When a delegate may hold a procedure, and when another delegate may stand in for it
-- (src/lang/delegate.c). Types are addresses.
pub mod Matching
use corto.Base.{
  ℕ, zero, suc, ◌-◌, Bool, true, false, not, ◌&&◌, ◌||◌, Option, none, some, List, [], ◌∷◌, ◌==◌,
  if◌then◌else◌, length,
}
use corto.Lang.Primitive.{same_flag}

-- corto_parameter, without its name.
pub record Parameter : Type 0 where
  pub type : ℕ
  pub by_reference : Bool

-- What a delegate and a procedure have in common.
pub record Signature : Type 0 where
  pub return_type : ℕ
  pub returns_reference : Bool
  pub parameters : List Parameter

-- The classes of types that these functions tell apart: a delegate, with its signature, a procedure,
-- or any other type.
pub data Class : Type 0 where
  delegate : Signature → Class
  procedure : Class
  other : Class

-- What `corto_delegate_instanceof` reads of an object: a procedure is an instance of a procedure type.
pub data Candidate : Type 0 where
  call : Signature → Candidate
  value : Candidate

-- corto_delegate_matchParameter
unfoldable pub match_parameter : Parameter → Parameter → Bool
match_parameter p q =
    if not (p.type == q.type) || (p.by_reference && not q.by_reference) then false else true

-- The `if` of the loop of `corto_delegate_compatible_v`.
unfoldable differs : Parameter → Parameter → Bool
differs p q = not (p.type == q.type) || not (same_flag p.by_reference q.by_reference)

abbrev pub returned : Signature → Parameter
returned s = record { type = s.return_type; by_reference = s.returns_reference }

-- Both loops run over the first list; `none` is a read past the end of the second, whose buffer is NULL
-- if it is empty. The loop of `corto_delegate_instanceof`:
unfoldable pub match_all : List Parameter → List Parameter → Bool → Option Bool
unfolding match_parameter
match_all [] qs result = some result
match_all (p ∷ ps) [] result = none
match_all (p ∷ ps) (q ∷ qs) result =
    match_all ps qs (if not (match_parameter p q) then false else result)

-- corto_delegate_instanceof
unfoldable pub delegate_instanceof : Signature → Candidate → Option Bool
unfolding match_all match_parameter
delegate_instanceof this value = some false
delegate_instanceof this (call s) =
    let returns = match_parameter (returned this) (returned s) in
    let same_length = length this.parameters == length s.parameters in
    match_all this.parameters s.parameters
      (if not same_length then false else if not returns then false else true)

-- The loop of `corto_delegate_compatible_v`: it goes on as long as `result` is FALSE.
unfoldable pub compare_all : List Parameter → List Parameter → Bool → Option Bool
unfolding differs
compare_all ps qs true = some true
compare_all [] qs false = some false
compare_all (p ∷ ps) [] false = none
compare_all (p ∷ ps) (q ∷ qs) false = compare_all ps qs (if differs p q then false else false)

-- corto_delegate_compatible_v
unfoldable pub delegate_compatible_v : Signature → Class → Option Bool
unfolding compare_all
delegate_compatible_v this other = some false
delegate_compatible_v this procedure = some true
delegate_compatible_v this (delegate s) =
    let returns =
      this.return_type == s.return_type && same_flag this.returns_reference s.returns_reference in
    let same_length = length this.parameters == length s.parameters in
    compare_all this.parameters s.parameters
      (if not same_length then false else if not returns then false else true)

-- corto_delegate_castable_v
unfoldable delegate_castable_v : Signature → Class → Option Bool
unfolding delegate_compatible_v
delegate_castable_v = delegate_compatible_v
