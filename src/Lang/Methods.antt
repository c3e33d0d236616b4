-- ===== src/Lang/Methods.antt =====
-- Tables of methods of interfaces and classes, and their inheritance (src/lang/interface.c). Procedures
-- are addresses; what the functions only read of one is a record, what they write is part of the
-- tables. A table that these functions build has no NULL slot, so the lookup passes over none.
pub mod Compatible
pub mod Search
pub mod Slots
pub mod Binding
pub mod Inheritance
pub mod Ids
use corto.Base.{
  ℕ, zero, suc, ◌+◌, ◌-◌, Bool, true, false, not, ◌&&◌, ◌||◌, Option, none, some, List, [], ◌∷◌,
  ◌==◌, leb, if◌then◌else◌, Text, str_eq, is_some, write, length, get_elem?,
}
use corto.Object.Sig.{name, argument_list}
use corto.Object.Overload.Functions.{
  Outcome, Entry, procedure, Best, infinite, rejected, at, function_from_sequence,
}
use corto.Lang.Primitive.{same_flag}
use corto.Lang.Delegates.{Parameter}
use corto.Lang.Vtable.{Vtable, vtable_insert}

-- What is read of a procedure. `is_override` says that its type is `override`, and `scope` is its parent.
pub record Procedure : Type 0 where
  pub id : Text
  pub path : Text
  pub scope : ℕ
  pub is_override : Bool
  pub overridable : Bool
  pub return_type : Option ℕ
  pub parameters : List Parameter

-- The table of an interface, with what is written of procedures: `index`, `overloaded` and the
-- references to them.
pub record Tables : Type 0 where
  pub methods : Vtable
  pub index : ℕ → ℕ
  pub overloaded : ℕ → Bool
  pub references : ℕ → ℕ

-- corto_claim and corto_release, on the count, which they change of objects that are not builtin; that the
-- last release destroys an object is left out.
unfoldable pub claim_method : (ℕ → Bool) → ℕ → (ℕ → ℕ) → ℕ → ℕ
claim_method builtin method references =
    if builtin method then references else write references method (references method + 1)

unfoldable pub release_method : (ℕ → Bool) → ℕ → (ℕ → ℕ) → ℕ → ℕ
release_method builtin method references =
    if builtin method then references else write references method (references method - 1)

unfoldable pub claim_slots : (ℕ → Bool) → Vtable → (ℕ → ℕ) → ℕ → ℕ
unfolding claim_method
claim_slots builtin [] references = references
claim_slots builtin (none ∷ slots) references = claim_slots builtin slots references
claim_slots builtin (some m ∷ slots) references =
    claim_slots builtin slots (claim_method builtin m references)

-- corto_set_ref on a slot.
unfoldable pub assign : Vtable → ℕ → ℕ → Vtable
assign [] slot method = []
assign (m ∷ slots) zero method = some method ∷ slots
assign (m ∷ slots) (suc slot) method = m ∷ assign slots slot method

abbrev pub is_zero : Best → Bool
is_zero (at d) = d == 0
is_zero _ = false

-- d < 0, and d > 0 || d == CORTO_OVERLOAD_NOMATCH_OVERLOAD, which INT_MAX satisfies too.
abbrev pub is_rejected : Best → Bool
is_rejected rejected = true
is_rejected _ = false

-- The vtable that an interface inherits, which is that of its base.
unfoldable pub vtable_from_base : (ℕ → Bool) → Option Vtable → (ℕ → ℕ) → Vtable × (ℕ → ℕ)
unfolding claim_slots
vtable_from_base builtin none references = ([], references)
vtable_from_base builtin (some table) references = (table, claim_slots builtin table references)

-- What a binding comes to: success, an error, or a failed assertion.
pub data Bound : Type 0 where
  bound : Tables → Bound
  error aborted : Bound

-- The procedures, what corto_overload says of one for a request, `void`, and the type system's answers
-- on two types; `is_void_reference` says that a type is a reference of kind VOID, and `builtin` that a
-- method is an object of the bootstrap.
pub record Context : Type 0 where
  pub procedures : ℕ → Procedure
  pub overload : ℕ → Text → Outcome
  pub castable : ℕ → ℕ → Bool
  pub compatible : ℕ → ℕ → Bool
  pub is_void_reference : ℕ → Bool
  pub void : ℕ
  pub builtin : ℕ → Bool

-- What becomes of the slot that was found: nothing, an override, or an error.
pub data Slot : Type 0 where
  kept overridden conflict : Slot

-- The method in a slot that a lookup found.
abbrev pub method_at : Vtable → Option ℕ → Option ℕ
method_at table none = none
method_at table (some slot) = elim (get_elem? table slot) [ none ↦ none | some m ↦ m ]

-- corto_set_ref(found, method)
unfoldable pub replace : (ℕ → Bool) → Tables → ℕ → ℕ → ℕ → Tables
unfolding assign claim_method release_method
replace builtin t slot found method = record t {
  methods = assign t.methods slot method;
  references = release_method builtin found (claim_method builtin method t.references);
}

-- The insertion, where no slot was overridden.
unfoldable pub add_method : (ℕ → Bool) → Tables → Option ℕ → Best → ℕ → Tables
unfolding claim_method vtable_insert
add_method builtin t found d method =
    let overloaded : ℕ → Bool = elim found [
      | none ↦ t.overloaded
      | some f ↦ if is_zero d then t.overloaded else write (write t.overloaded f true) method true
    ] in
    let (table, added) = vtable_insert t.methods method in
    record t {
      methods = table;
      overloaded = overloaded;
      references = if added then claim_method builtin method t.references else t.references;
    }

abbrev slot_or_zero : Option ℕ → ℕ
slot_or_zero none = 0
slot_or_zero (some slot) = slot

-- corto_interface_resolveMethodById; none stands for NULL.
unfoldable pub resolve_method_by_id : Tables → ℕ → Option ℕ
resolve_method_by_id t id =
    if leb id (length t.methods) then method_at t.methods (some (id - 1)) else none

module _ (c : Context) where
  open c use {procedures, overload, castable, compatible, is_void_reference, void, builtin}

  -- The entries of a lookup: the address of each is its slot.
  unfoldable pub entries : (ℕ → Bool) → Text → ℕ → Vtable → List Entry
  unfolding name
  entries overloaded request i [] = []
  entries overloaded request i (none ∷ slots) = entries overloaded request (suc i) slots
  entries overloaded request i (some m ∷ slots) =
      procedure i (name (procedures m).id) (overloaded m) (overload m request)
      ∷ entries overloaded request (suc i) slots

  -- corto_vtableLookup: the slot, and the distance.
  unfoldable pub vtable_lookup : Tables → Text → Option ℕ × Best
  unfolding entries function_from_sequence argument_list
  vtable_lookup t request =
      function_from_sequence (is_some (argument_list request)) request
        (entries t.overloaded request 0 t.methods)

  -- One round of the loop over parameters, once the types are known.
  unfoldable pub check_parameter : Parameter → Parameter → Bool
  check_parameter p q =
      (p.type == q.type || castable p.type q.type)
      && (same_flag p.by_reference q.by_reference
          || (is_void_reference p.type && q.by_reference)
          || (is_void_reference q.type && p.by_reference))

  unfoldable pub check_each : List Parameter → List Parameter → Bool → Bool
  unfolding check_parameter
  check_each (p ∷ ps) (q ∷ qs) result =
      check_each ps qs (if check_parameter p q then result else false)
  check_each [] qs result = result
  check_each (p ∷ ps) [] result = result

  -- corto_interface_checkProcedureParameters
  unfoldable pub check_parameters : Procedure → Procedure → Bool
  unfolding check_each
  check_parameters o p =
      if length o.parameters == length p.parameters
      then check_each o.parameters p.parameters true
      else false

  abbrev pub or_void : Option ℕ → ℕ
  or_void none = void
  or_void (some type) = type

  -- corto_interface_checkProcedureCompatibility
  unfoldable pub check_procedure : Procedure → Procedure → Bool
  unfolding check_parameters
  check_procedure o p =
      let returned = or_void o.return_type in
      let other = or_void p.return_type in
      if not (returned == other)
      then compatible returned other
      else if o.overridable
      then check_parameters o p
      else false

  -- The tests on an `override`: whether they fail. `found` is the method in the slot.
  unfoldable pub override_fails : ℕ → Option ℕ → Best → Bool
  override_fails method none d = (procedures method).is_override
  override_fails method (some found) d =
      (procedures method).is_override
      && (is_rejected d || (not (found == method) && not (procedures found).overridable))

  unfoldable pub override_slot : ℕ → ℕ → Best → Slot
  unfolding check_procedure
  override_slot method found d =
      if found == method || not (is_zero d)
      then kept
      else if not ((procedures found).scope == (procedures method).scope)
      then (if (procedures found).overridable
            && not (check_procedure (procedures found) (procedures method))
          then conflict
          else overridden)
      else if str_eq (procedures method).path (procedures found).path
      then kept
      else conflict

  -- The last step: the index of the method is the slot that its id finds, counted from 1.
  unfoldable pub set_index : Tables → ℕ → Bound
  unfolding vtable_lookup
  set_index t method = elim (vtable_lookup t (procedures method).id).0 [
    | none ↦ aborted
    | some slot ↦ bound (record t { index = write t.index method (slot + 1) })
  ]

  -- Behind the tests: `at` is the slot that the lookup found, and `found` the method in it.
  unfoldable pub bind_found : Tables → ℕ → Option ℕ → Option ℕ → Best → Bound
  unfolding override_slot replace add_method set_index
  bind_found t method slot none d = set_index (add_method builtin t none d method) method
  bind_found t method slot (some found) d = elim (override_slot method found d) [
    | conflict ↦ error
    | overridden ↦ set_index (replace builtin t (slot_or_zero slot) found method) method
    | kept ↦ set_index (add_method builtin t (some found) d method) method
  ]

  -- corto_interface_bindMethod. The distance is never CORTO_OVERLOAD_ERROR behind the lookup.
  unfoldable pub bind_method : Bool → Tables → ℕ → Bound
  unfolding vtable_lookup override_fails bind_found
  bind_method is_interface t method =
      if is_interface && not (procedures method).overridable
      then error
      else (let (slot, d) = vtable_lookup t (procedures method).id in
          let found = method_at t.methods slot in
          if override_fails method found d then error else bind_found t method slot found d)

  -- corto_interface_walkScope, over the objects of the scope; the flag says that one is a method.
  unfoldable pub walk_scope : Bool → List (ℕ × Bool) → Tables → Bound
  unfolding bind_method
  walk_scope is_interface [] t = bound t
  walk_scope is_interface ((o, false) ∷ os) t = walk_scope is_interface os t
  walk_scope is_interface ((o, true) ∷ os) t = elim (bind_method is_interface t o) [
    | bound u ↦ walk_scope is_interface os u
    | error ↦ error
    | aborted ↦ aborted
  ]

  -- The methods of corto_interface_construct.
  unfoldable pub construct_methods : Bool → Option Vtable → List (ℕ × Bool) → Tables → Bound
  unfolding vtable_from_base walk_scope
  construct_methods is_interface base scope t =
      let (table, references) = vtable_from_base builtin base t.references in
      walk_scope is_interface scope (record t { methods = table; references = references })

  -- corto_interface_resolveMethod
  unfoldable pub resolve_method : Tables → Text → Option ℕ
  unfolding vtable_lookup
  resolve_method t request =
      let (slot, d) = vtable_lookup t request in
      if is_rejected d then none else method_at t.methods slot

  -- corto_interface_resolveMethodId of a valid interface: the slot counted from 1, or 0.
  unfoldable pub resolve_method_id : Tables → Text → ℕ
  unfolding vtable_lookup
  resolve_method_id t request = elim (vtable_lookup t request).0 [ none ↦ 0 | some slot ↦ slot + 1 ]
