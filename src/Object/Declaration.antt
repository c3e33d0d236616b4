-- ===== src/Object/Declaration.antt =====
-- The declaration of a child (src/store/object.c: `corto_declareChild_intern`, `corto_declare_intern`),
-- of a debug build, with the id given. `o` is the address of the memory for the new object.
pub mod Attempts
pub mod Growth
use corto.Base.{
  ℕ, ◌+◌, Bool, true, false, not, ◌&&◌, ◌||◌, Option, none, some, List, [], ◌∷◌, ◌++◌, ◌==◌,
  if◌then◌else◌, Text, is_some,
}
use corto.Object.Identifier.{valid_identifier}
use corto.Object.References.{Counts, set_count, claim, release}
use corto.Object.Scopes.{Tree, Catalog, init_scope, deinit_scope}

-- CORTO_ATTR_*
pub record Attributes : Type 0 where
  pub named : Bool
  pub writable : Bool
  pub observable : Bool
  pub persistent : Bool
  pub default : Bool

-- What is read of the type of the new object; `is_type` says that it is a type, and `target` that its
-- own type is.
pub record Blueprint : Type 0 where
  pub address : ℕ
  pub is_type : Bool
  pub valid : Bool
  pub attributes : Attributes
  pub void : Bool
  pub reference : Bool
  pub target : Bool
  pub container : Bool

-- The attributes of a new object: those of the call, completed where both say `default`, and those of
-- the type.
unfoldable pub attributes_for : Blueprint → Bool → Attributes → Attributes
attributes_for type orphan a =
    let filled = type.attributes.default && a.default in
    record {
      named = a.named || type.attributes.named;
      writable = a.writable || (filled && not type.void) || type.attributes.writable;
      observable = a.observable || filled || type.attributes.observable;
      persistent =
          a.persistent
          || (filled && a.named)
          || (type.target && (not orphan || not a.named))
          || type.attributes.persistent;
      default = a.default || type.attributes.default;
    }

-- corto_declare_intern, of a named object: its attributes, and the tree.
unfoldable pub declare_intern :
    (ℕ → Bool) → Blueprint → ℕ → Bool → Attributes → Tree → Option (Attributes × Tree)
unfolding attributes_for claim
declare_intern builtin type o orphan a s =
    if not type.is_type || not type.valid
    then none
    else some (
      attributes_for type orphan (record a { named = true }),
      record s { counts = claim builtin type.address (set_count o 1 s.counts) },
    )

-- The calls that follow the declaration of a new object.
pub data Further : Type 0 where
  notify_declare clear_state define_void declare_container : ℕ → Further

-- What a declaration comes to: an error, a new object with its attributes and the calls that follow, an
-- object that was there, or one that another thread has declared, for which the call waits.
pub data Declared : Type 0 where
  refused : Declared
  created : ℕ → Attributes → List Further → Declared
  present waits : ℕ → Declared

-- The parts of the call: orphan, forceType, defineVoid; whether the security layer allows it; and
-- whether the initializer of the new object succeeds.
pub record Request : Type 0 where
  pub orphan : Bool
  pub force_type : Bool
  pub define_void : Bool
  pub allowed : Bool
  pub ready : Bool

abbrev when : Bool → Further → List Further
when true f = f ∷ []
when false f = []

abbrev pub is_empty : Text → Bool
is_empty [] = true
is_empty (c ∷ cs) = false

-- `deleted` says of which objects the state is DELETED.
module _ (g : Catalog) (deleted : ℕ → Bool) where
  -- corto_declaredByMeCheck
  unfoldable declared_here : ℕ → List ℕ → Bool
  declared_here o [] = g.builtin o
  declared_here o (p ∷ ps) = p == o || declared_here o ps

  -- The object that was there: the claim, and whether the call has to wait.
  unfoldable pub redeclare : ℕ → Tree → Tree × Declared
  unfolding declared_here claim
  redeclare o s = (
    record s { counts = claim g.builtin o s.counts },
    (if not (g.valid o)
          && (not (deleted o)
              && (not (declared_here o s.declared) && not (g.type_of o == g.unknown)))
        then waits o
        else present o),
  )

  -- The calls for a new object.
  unfoldable pub further : Blueprint → Request → ℕ → List Further
  further type r o =
      (if r.orphan then clear_state o ∷ [] else notify_declare o ∷ [])
      ++ (when
            (not (type.address == g.unknown)
              && (type.void && (not type.reference && r.define_void)))
            (define_void o)
          ++ when type.container (declare_container o))

  -- Behind the initialization of the scope.
  unfoldable pub conclude_declare :
      Blueprint → Request → ℕ → Attributes → Tree × Option ℕ → Tree × Declared
  unfolding redeclare further release deinit_scope
  conclude_declare type r o a (s, none) =
      let t = deinit_scope g o s in
      (record t { counts = release g.builtin type.address t.counts }, refused)
  conclude_declare type r o a (s, some result) =
      if not (result == o)
      then redeclare result (record s { counts = release g.builtin type.address s.counts })
      else (s, created o a (further type r o))

module _ (same : Text → Text → Bool) (g : Catalog) (deleted : ℕ → Bool) where
  -- corto_declareChild_intern
  unfoldable pub declare_child :
      ℕ → Text → Blueprint → Request → Attributes → ℕ → Tree → Tree × Declared
  unfolding declare_intern init_scope conclude_declare valid_identifier
  declare_child parent id type r attrs o s =
      if not (g.named parent) && not r.orphan
      then (s, refused)
      else if is_empty id
      then (s, refused)
      else if is_some (valid_identifier id)
      then (s, refused)
      else if not (type.address == g.unknown) && not r.allowed
      then (s, refused)
      else elim (declare_intern g.builtin type o r.orphan attrs s) [
        | none ↦ (s, refused)
        | some (a, t) ↦
            conclude_declare g deleted type r o a
              (init_scope same g parent id o r.orphan r.force_type r.ready t)
      ]
