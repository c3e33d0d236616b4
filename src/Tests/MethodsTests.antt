-- ===== src/Tests/MethodsTests.antt =====
-- Tables of methods and the interfaces of classes: src/lang/interface.c and src/lang/class.c.
use corto.Base.{
  ℕ, ◌≡◌, ◌≢◌, ◌⊎◌, ◌↔◌, refl, Bool, true, false, none, some, List, [], ◌∷◌, ◌==◌, if◌then◌else◌,
  Text, str_eq, arith, inl, inr,
}
use corto.Object.Overload.Functions.{no_match, distance}
use corto.Lang.Methods.{
  Procedure, Tables, Context, bound, construct_methods, resolve_method, resolve_method_by_id,
  resolve_method_id, check_procedure, or_void, claim_method, release_method,
}
use corto.Lang.Methods.Compatible.{CanPassAll, check_procedure_iff}
use corto.Lang.Methods.Slots.{IsFull, IsHeld}
use corto.Lang.Methods.Inheritance.{
  IsOwn, IsIn, Overrides, construct_methods-IsHeld, construct_methods-IsIn,
}
use corto.Lang.Methods.Ids.{resolve_method_id-dispatch}
use corto.Lang.Classes.{Vectors, zeroed, check_slots, check_interface, resolve_interface_method}
use corto.Lang.Classes.Interfaces.{answer, furthest, resolve_interface_method-check}

abbrev get_id : Text
get_id = b'g' ∷ b'(' ∷ b')' ∷ []

abbrev set_id : Text
set_id = b's' ∷ b'(' ∷ b')' ∷ []

abbrev method : Text → ℕ → Procedure
method id scope = record {
  id = id;
  path = scope ∷ id;
  scope = scope;
  is_override = false;
  overridable = true;
  return_type = none;
  parameters = [];
}

-- Method 1 of the base 10 is overridden by method 2 of the heir 20; method 3 is new.
abbrev method_of : ℕ → Procedure
method_of m =
    if m == 1 then method get_id 10 else if m == 2 then method get_id 20 else method set_id 20

abbrev context : Context
context = record {
  procedures = method_of;
  overload = λ m request. if str_eq (method_of m).id request then distance 0 else no_match;
  castable = λ a b. false;
  compatible = λ a b. false;
  is_void_reference = λ a. false;
  void = 0;
  builtin = λ m. m == 9;
}

abbrev base : Tables
base = record {
  methods = some 1 ∷ [];
  index = λ m. 1;
  overloaded = λ m. false;
  references = λ m. 5;
}

abbrev scope : List (ℕ × Bool)
scope = (2, true) ∷ (7, false) ∷ (3, true) ∷ []

abbrev heir : Tables
heir = record {
  methods = some 2 ∷ some 3 ∷ [];
  index = λ q. if 3 == q then 2 else if 2 == q then 1 else 1;
  overloaded = λ m. false;
  references = claim_method context.builtin 3 (
      release_method context.builtin 1
        (claim_method context.builtin 2 (claim_method context.builtin 1 (λ m. 5))));
}

constructed : construct_methods context false (some (some 1 ∷ [])) scope base ≡ bound heir
unfolding construct_methods claim_method release_method
constructed = refl

construct_methods-IsHeld_example :
    IsFull (some 2 ∷ some 3 ∷ [])
    × IsHeld context.builtin (λ m. 5) (some 2 ∷ some 3 ∷ []) heir.references
construct_methods-IsHeld_example =
    construct_methods-IsHeld context false (some 1 ∷ []) scope base heir tt constructed

one_scope : (m : ℕ) → IsOwn scope m → (method_of m).scope ≡ 20
one_scope m (inl h) = ground arith
one_scope m (inr (inl h)) = absurd (cc)
one_scope m (inr (inr (inl h))) = ground arith
one_scope m (inr (inr (inr h))) = absurd h

construct_methods-IsIn_example : IsIn 3 (some 2 ∷ some 3 ∷ [])
construct_methods-IsIn_example =
    construct_methods-IsIn context false (some (some 1 ∷ [])) scope base heir 20 one_scope
      constructed 3 (inr (inr (inl (refl, refl))))

get_resolved : resolve_method context base get_id ≡ some 1
unfolding resolve_method
get_resolved = refl

resolve_method_id-dispatch_example :
    (resolve_method_by_id base (resolve_method_id context base get_id) ≡ some 1)
    × ((k : ℕ) × (resolve_method_by_id heir (resolve_method_id context base get_id) ≡ some k)
        × Overrides context (IsOwn scope) 1 k)
resolve_method_id-dispatch_example =
    resolve_method_id-dispatch context false base base heir scope get_id 1 get_resolved constructed

check_procedure_iff_example : (check_procedure context (method_of 1) (method_of 2) ≡ true) ↔ (
    ((or_void context none ≢ or_void context none) × (false ≡ true))
    ⊎ ((or_void context none ≡ or_void context none) × (true ≡ true) × CanPassAll context [] []))
check_procedure_iff_example = check_procedure_iff context (method_of 1) (method_of 2)

-- The heir has no method for method 4, whose id is another.
abbrev gap : Context
gap = record context { procedures = λ m. if m == 4 then method (b'q' ∷ set_id) 30 else method_of m }

abbrev vectors : Vectors
vectors = record { vector = zeroed (4 ∷ 1 ∷ []); references = λ m. 1 }

-- The class lacks method 4, and is found to implement the interface.
missing : (check_slots gap heir 0 (4 ∷ 1 ∷ []) (vectors, true)).1 ≡ true
unfolding check_slots
missing = refl

resolve_interface_method-check_example :
    resolve_interface_method
      ((record {
        interface = 30;
        vector = (check_interface gap heir (4 ∷ 1 ∷ []) ((1 ∷ []) ∷ []) vectors).0.vector;
      }
          ∷ [])
        ∷ [])
      30
      1
    ≡ furthest (answer gap heir) (4 ∷ 1 ∷ []) ((1 ∷ []) ∷ []) 0
resolve_interface_method-check_example =
    resolve_interface_method-check gap heir 30 (4 ∷ 1 ∷ []) ((1 ∷ []) ∷ []) 0 vectors [] [] refl
      (omega arith, tt) (omega arith)
