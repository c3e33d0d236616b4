-- ===== src/Lang/Classes.antt =====
-- The interfaces of a class and the delegates that it inherits (src/lang/class.c, and
-- `corto_interface_pullDelegate` of src/lang/interface.c).
pub mod Interfaces
pub mod Inherited
use corto.Base.{
  ℕ, zero, suc, ◌+◌, ◌-◌, Bool, true, false, not, ◌&&◌, ◌||◌, Option, none, some, List, [], ◌∷◌,
  ◌==◌, ◌++◌, if◌then◌else◌, is_some, get_elem?,
}
use corto.Lang.Vtable.{Vtable}
use corto.Lang.Methods.{
  Tables, Context, method_at, vtable_lookup, check_procedure, is_zero, assign, claim_method,
  release_method,
}

-- A vector of an interface, zeroed at first, and the references to methods.
pub record Vectors : Type 0 where
  pub vector : Vtable
  pub references : ℕ → ℕ

abbrev release_procedure : (ℕ → Bool) → Option ℕ → (ℕ → ℕ) → ℕ → ℕ
release_procedure builtin none references = references
release_procedure builtin (some m) references = release_method builtin m references

-- corto_set_ref(&vtable->buffer[i], method)
unfoldable pub set_slot : (ℕ → Bool) → ℕ → ℕ → Vectors → Vectors
unfolding assign claim_method release_method
set_slot builtin i method v = record v {
  vector = assign v.vector i method;
  references =
      release_procedure builtin (method_at v.vector (some i))
        (claim_method builtin method v.references);
}

-- The vector of an interface with these methods, as corto_calloc leaves it.
abbrev pub zeroed : List ℕ → Vtable
zeroed [] = []
zeroed (_ ∷ slots) = none ∷ zeroed slots

-- The procedures and tables as in the model of methods; `t` is the table of the class.
module _ (c : Context) (t : Tables) where
  -- The class's method for a method of the interface, which must be found at distance 0.
  unfoldable pub implementation : ℕ → Option ℕ
  unfolding vtable_lookup
  implementation m =
      let (slot, d) = vtable_lookup c t (c.procedures m).id in
      if is_zero d then method_at t.methods slot else none

  -- The body of the loop, for the method of the interface in slot `i`: the vector, and `compatible`.
  unfoldable pub check_slot : ℕ → ℕ → Vectors → Vectors × Bool
  unfolding implementation set_slot check_procedure
  check_slot i m v = elim (implementation m) [
    | none ↦ (v, false)
    | some k ↦
        if check_procedure c (c.procedures m) (c.procedures k)
        then (set_slot c.builtin i k v, true)
        else (v, false)
  ]

  -- The loop of `corto_class_checkInterfaceCompatibility`, from slot `i`.
  unfoldable pub check_slots : ℕ → List ℕ → Vectors × Bool → Vectors × Bool
  unfolding check_slot
  check_slots i [] s = s
  check_slots i (m ∷ ms) (v, compatible) = check_slots (suc i) ms (check_slot i m v)

  -- corto_class_checkInterfaceCompatibility: the methods of the interface, and those of its bases, the
  -- nearest first.
  unfoldable pub check_interface : List ℕ → List (List ℕ) → Vectors → Vectors × Bool
  unfolding check_slots
  check_interface methods [] v = check_slots 0 methods (v, true)
  check_interface methods (base ∷ bases) v =
      let (w, compatible) = check_slots 0 methods (v, true) in
      let (x, rest) = check_interface base bases w in (x, compatible && rest)

-- An interface that a class implements, and its vector.
pub record Implemented : Type 0 where
  pub interface : ℕ
  pub vector : Vtable

abbrev pub Vector : Type 0
Vector = List Implemented

-- The inner loop of `corto_class_resolveInterfaceMethod`.
unfoldable pub find_vector : ℕ → Vector → Option Implemented
find_vector interface [] = none
find_vector interface (v ∷ vs) =
    if v.interface == interface then some v else find_vector interface vs

-- The outer loop, over the class and its bases.
unfoldable pub find_class : ℕ → List Vector → Option Implemented
unfolding find_vector
find_class interface [] = none
find_class interface (v ∷ vs) = elim (find_vector interface v) [
  | some w ↦ some w
  | none ↦ find_class interface vs
]

-- corto_class_resolveInterfaceMethod; the number of the method is within the vector.
unfoldable pub resolve_interface_method : List Vector → ℕ → ℕ → Option ℕ
unfolding find_class
resolve_interface_method classes interface method = elim (find_class interface classes) [
  | none ↦ none
  | some v ↦ method_at v.vector (some (method - 1))
]

-- A delegate of a type: its procedure, if any, and whether that is a stub. `applies` says that the type
-- is an instance of the delegate's class.
pub record Held : Type 0 where
  pub procedure : Option ℕ
  pub stub : Bool
  pub applies : Bool

-- Whether the loop goes on: no procedure, or a stub.
unfoldable pub is_missing : Held → Bool
is_missing h = not (is_some h.procedure) || h.stub

-- The loop: the nearest type with an implementation.
unfoldable pub nearest : List Held → Option Held
unfolding is_missing
nearest [] = none
nearest (h ∷ hs) = let rest = nearest hs in if is_missing h then rest else some h

-- corto_set_ref(&myDelegate->procedure, delegate->procedure), of a procedure that is there.
unfoldable pub set_delegate : (ℕ → Bool) → Option ℕ → Option ℕ → (ℕ → ℕ) → Option ℕ × (ℕ → ℕ)
unfolding claim_method release_method
set_delegate builtin old none references = (none, release_procedure builtin old references)
set_delegate builtin old (some m) references =
    (some m, release_procedure builtin old (claim_method builtin m references))

-- corto_interface_pullDelegate, for the type itself and its bases: the procedure of the type
-- afterwards, and the references. `is_delegate` says that the member is a delegate.
unfoldable pub pull_delegate : (ℕ → Bool) → Bool → Held → List Held → (ℕ → ℕ) → Option ℕ × (ℕ → ℕ)
unfolding nearest is_missing set_delegate
pull_delegate builtin is_delegate this bases references =
    if is_delegate && this.applies && is_missing this
    then elim (nearest bases) [
      | none ↦ (this.procedure, references)
      | some base ↦
          if base.applies
          then set_delegate builtin this.procedure base.procedure references
          else (this.procedure, references)
    ]
    else (this.procedure, references)
