-- ===== src/Object/Scopes.antt =====
-- The tree of scopes (src/store/object.c: `corto_adopt`, `corto_orphan`, `corto_init_scope`,
-- `corto_deinit_scope`). Objects and types are addresses; a scope, which is a search tree in the
-- program, is a list of ids and objects. Locks are taken and released without failure.
pub mod Keys
pub mod Moving
pub mod Shape
pub mod Replacing
pub mod Adoption
pub mod Refusal
pub mod Lost
use corto.Base.{
  ℕ, zero, suc, ◌+◌, ◌-◌, Bool, true, false, not, ◌&&◌, ◌||◌, Option, none, some, List, [], ◌∷◌,
  ◌++◌, ◌==◌, if◌then◌else◌, Text, is_some, write,
}
use corto.Object.References.{Counts, claim, release}

abbrev pub Scope : Type 0
Scope = List (Text × ℕ)

-- What the functions write: the headers of the objects, their reference counts, the objects that
-- this thread has declared, and how often it holds the lock of an object.
pub record Tree : Type 0 where
  pub parent : ℕ → Option ℕ
  pub id : ℕ → Option Text
  pub scope : ℕ → Scope
  pub counts : Counts
  pub declared : List ℕ
  pub locks : ℕ → ℕ

-- The options of a type: `parentType`, and the flags of `parentState`.
pub record Options : Type 0 where
  pub parent_type : Option ℕ
  pub declared : Bool
  pub valid : Bool

-- What they read: types and their options, which objects are valid, named, or orphans, the types
-- `unknown`, `tableinstance`, `container` and `leaf`, the type of a table instance, and the answers of
-- corto_instanceof (of a type and an object) and corto_type_instanceof.
pub record Catalog : Type 0 where
  pub type_of : ℕ → ℕ
  pub options : ℕ → Options
  pub valid : ℕ → Bool
  pub named : ℕ → Bool
  pub orphan : ℕ → Bool
  pub unknown : ℕ
  pub table_instance : ℕ
  pub container : ℕ
  pub leaf : ℕ
  pub table_type : ℕ → ℕ
  pub instance_of : ℕ → ℕ → Bool
  pub type_instance_of : ℕ → ℕ → Bool
  pub builtin : ℕ → Bool

abbrev key : Option Text → Text
key none = []
key (some id) = id

-- The key under which an object stands in its scope.
abbrev pub key_of : Tree → ℕ → Text
key_of s o = key (s.id o)

-- `same` is the comparison of ids in the search tree.
module _ (same : Text → Text → Bool) where
  -- corto_rb_findOrSetPtr: what is there for the key.
  unfoldable pub find : Text → Scope → Option ℕ
  find k [] = none
  find k ((j, o) ∷ es) = let rest = find k es in if same j k then some o else rest

  -- *(corto_object*)ptr = child, where there is something for the key.
  unfoldable pub exchange : Text → ℕ → Scope → Scope
  exchange k c [] = []
  exchange k c ((j, o) ∷ es) = if same j k then (j, c) ∷ es else (j, o) ∷ exchange k c es

  -- corto_rb_remove
  unfoldable pub remove_id : Text → Scope → Scope
  remove_id k [] = []
  remove_id k ((j, o) ∷ es) = if same j k then es else (j, o) ∷ remove_id k es

-- corto_lock_intern and corto_unlock_intern
abbrev pub lock : ℕ → Tree → Tree
lock o s = record s { locks = write s.locks o (s.locks o + 1) }

abbrev pub unlock : ℕ → Tree → Tree
unlock o s = record s { locks = write s.locks o (s.locks o - 1) }

module _ (g : Catalog) where
  -- corto__checkStateXOR
  unfoldable check_state_xor : ℕ → Options → Bool
  check_state_xor o options = if g.valid o then options.valid else options.declared

  -- The tests of `corto_adopt_checkConstraints`, in their order: whether one fails.
  unfoldable wrong_parent : ℕ → Options → Bool
  wrong_parent parent options = elim options.parent_type [
    | none ↦ false
    | some type ↦ not (type == g.type_of parent) && not (g.instance_of type parent)
  ]

  unfoldable wrong_table : ℕ → ℕ → Bool
  wrong_table parent child_type =
      g.instance_of g.table_instance parent
      && (not (child_type == g.table_instance)
          && (not (g.table_type parent == child_type)
              && (not (g.instance_of child_type g.container)
                  && not (g.type_instance_of (g.table_type parent) child_type))))

  unfoldable wrong_state : ℕ → Options → Bool
  unfolding check_state_xor
  wrong_state parent options =
      (options.valid || options.declared) && not (check_state_xor parent options)

  -- corto_adopt_checkConstraints: whether the child may be added.
  unfoldable pub check_constraints : ℕ → ℕ → Bool
  unfolding wrong_parent wrong_table wrong_state
  check_constraints parent child =
      let type = g.type_of child in
      if wrong_parent parent (g.options type)
      then false
      else if wrong_table parent type
      then false
      else if g.instance_of g.leaf (g.type_of parent)
      then false
      else not (wrong_state parent (g.options type))

  -- corto_adopt_updateParents, for the objects of a scope.
  unfoldable pub update_parents : ℕ → ℕ → Scope → Tree → Tree
  unfolding claim release
  update_parents old new [] s = s
  update_parents old new ((j, o) ∷ es) s = update_parents old new es (record s {
    parent = write s.parent o (some new);
    counts = release g.builtin old (claim g.builtin new s.counts);
  })

  -- corto_adopt_replaceUnknown
  unfoldable pub replace_unknown : ℕ → ℕ → Tree → Tree
  unfolding update_parents
  replace_unknown existing child s = update_parents existing child (s.scope existing) (record s {
    id = write (write s.id child (s.id existing)) existing none;
    scope = write (write s.scope child (s.scope existing)) existing [];
    parent = write s.parent existing none;
  })

  -- corto_declaredByMeAdd
  unfoldable pub declared_add : ℕ → Tree → Tree
  declared_add o s = if g.builtin o then s else record s { declared = s.declared ++ o ∷ [] }

  -- corto_deinit_scope
  unfoldable pub deinit_scope : ℕ → Tree → Tree
  unfolding release
  deinit_scope o s = elim (s.parent o) [
    | none ↦ s
    | some parent ↦ record s {
      parent = write s.parent o none;
      counts = if g.orphan o then s.counts else release g.builtin parent s.counts;
    }
  ]

module _ (same : Text → Text → Bool) where
  -- corto_orphan
  unfoldable pub orphan_object : ℕ → Tree → Tree
  unfolding remove_id
  orphan_object o s = elim (s.parent o) [
    | none ↦ s
    | some parent ↦ record s {
      scope = write s.scope parent (remove_id same (key_of s o) (s.scope parent));
    }
  ]

  -- Behind the adoption: `ready` says that the id fits the keys of the type, and that the initializer
  -- succeeds.
  unfoldable pub initialize : Bool → ℕ → Option ℕ → Tree → Tree × Option ℕ
  unfolding orphan_object
  initialize ready o none s = (record s { parent = write s.parent o none }, none)
  initialize ready o (some result) s =
      if not (result == o)
      then (s, some result)
      else if ready
      then (s, some o)
      else (orphan_object o s, none)

module _ (same : Text → Text → Bool) (g : Catalog) where
  -- The child is in the scope: the constraints, and the claim on the parent. `existing` was put there
  -- under the key `k`.
  unfoldable pub accept : Bool → ℕ → ℕ → Tree → Tree × Option ℕ
  unfolding check_constraints declared_add claim remove_id
  accept claim_parent parent child s =
      if check_constraints g parent child
      then (let added = declared_add g child s in
          (
            (if claim_parent
                then record added { counts = claim g.builtin parent added.counts }
                else added),
            some child,
          ))
      else (
        record s {
          parent = write s.parent child none;
          scope = write s.scope parent (remove_id same (key_of s child) (s.scope parent));
        },
        none,
      )

  -- corto_adopt, of a parent and a child that have scopes
  unfoldable pub adopt : ℕ → ℕ → Bool → Tree → Tree × Option ℕ
  unfolding find exchange replace_unknown accept
  adopt parent child force_type s =
      let locked = lock child s in
      elim (find same (key_of s child) (s.scope parent)) [
        | none ↦ accept true parent child (record locked {
          scope = write s.scope parent ((key_of s child, child) ∷ s.scope parent);
        })
        | some existing ↦
            if existing == child
            then accept true parent child locked
            else if g.type_of existing == g.unknown && not (g.type_of child == g.unknown)
            then accept false parent child (
                let moved = replace_unknown g existing child locked in
                record moved {
                  scope =
                      write moved.scope parent
                        (exchange same (key_of s child) child (moved.scope parent));
                })
            else if force_type && not (g.type_of existing == g.type_of child)
            then (unlock child locked, none)
            else (unlock child locked, some existing)
      ]

  -- corto_init_scope
  unfoldable pub init_scope : ℕ → Text → ℕ → Bool → Bool → Bool → Tree → Tree × Option ℕ
  unfolding adopt declared_add initialize
  init_scope parent id o orphan force_type ready s =
      let t = record s { id = write s.id o (some id); parent = write s.parent o (some parent) } in
      if not orphan && g.named parent
      then (let (adopted, result) = adopt parent o force_type t in
          initialize same ready o result adopted)
      else initialize same ready o (some o) (lock o (declared_add g o t))
