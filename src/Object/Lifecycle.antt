-- ===== src/Object/Lifecycle.antt =====
-- The life of one object in one thread (src/store/object.c): define, update and the write lock that
-- goes with them. What the functions call outside of this part is in `World`: the outcomes of the
-- constructor, of mounts asked to resume, of observers, of the authorization, of the mutex, and of the
-- definition of what a container holds.
pub mod Update
pub mod Notified
pub mod Define
pub mod Locking
use corto.Base.{
  ℕ, ◌+◌, ◌-◌, Bool, true, false, not, ◌&&◌, ◌||◌, Option, none, some, List, [], ◌∷◌, ◌==◌,
  if◌then◌else◌,
}
use corto.Object.Ownership.{
  Source, Ancestor, mount_policy, is_null, source_match, source_of_ancestors,
}

-- corto_eventMask, as far as these functions set it.
pub record Mask : Type 0 where
  pub define : Bool
  pub resume : Bool
  pub update : Bool

pub data Event : Type 0 where
  construct : Event
  notify : Mask → Event
  define_hook contents : Event

-- What the header, the state and the thread's admin say of an object. `write_locks` counts the write
-- locks that the thread holds on it; `trace` has the calls of handlers, the latest first.
pub record Object : Type 0 where
  pub named : Bool
  pub writable : Bool
  pub observable : Bool
  pub persistent : Bool
  pub orphan : Bool
  pub builtin : Bool
  pub valid : Bool
  pub source : Option Source
  pub declared_by_me : Bool
  pub write_locks : ℕ
  pub trace : List Event

-- The answer of corto_resume: an error, no persistent copy, or one that was loaded.
pub data Resumed : Type 0 where
  failed absent present : Resumed

pub record World : Type 0 where
  pub current : Option Source
  pub ancestors : List Ancestor
  -- the object stands in the tree below the root
  pub rooted : Bool
  -- the type: it is the unknown type, it has these delegates and flags, its own type is a target
  pub unknown : Bool
  pub has_construct : Bool
  pub has_define : Bool
  pub has_target : Bool
  pub is_target : Bool
  pub is_container : Bool
  -- outcomes
  pub resume : Resumed
  pub construct_ok : Bool
  pub notify_ok : Bool
  pub contents_ok : Bool
  pub secured : Bool
  pub authorized : Bool
  pub lock_ok : Bool
  pub unlock_ok : Bool

-- 0, -1, a call that never returns, and an access through a NULL pointer.
pub data Status : Type 0 where
  ok error diverges fault : Status

abbrev pub log : Event → Object → Object
log e o = record o { trace = e ∷ o.trace }

-- corto_declaredByMeCheck
abbrev pub declared_check : Object → Bool
declared_check o = o.builtin || o.declared_by_me

abbrev is_present : Resumed → Bool
is_present present = true
is_present _ = false

abbrev pub is_failed : Resumed → Bool
is_failed failed = true
is_failed _ = false

-- RESUME or DEFINE
abbrev pub born : Resumed → Bool → Mask
born r update = record { define = not (is_present r); resume = is_present r; update = update }

module _ (w : World) where
  -- corto_sourceof
  unfoldable pub source_of : Object → Option Source
  unfolding source_of_ancestors
  source_of o =
      if o.orphan then source_of_ancestors w.ancestors else if o.persistent then o.source else none

  -- corto_owned
  unfoldable pub owned : Object → Bool
  unfolding source_of
  owned o =
      if not o.persistent && not o.orphan
      then true
      else if not o.valid
      then true
      else source_match (source_of o) w.current

  -- corto_lock_intern
  unfoldable pub lock_intern : Object → Object × Status
  lock_intern o =
      if o.writable
      then (if w.lock_ok then (record o { write_locks = o.write_locks + 1 }, ok) else (o, error))
      else (o, ok)

  -- corto_unlock_intern
  unfoldable pub unlock_intern : Object → Object × Status
  unlock_intern o =
      if o.writable
      then (if w.unlock_ok then (record o { write_locks = o.write_locks - 1 }, ok) else (o, error))
      else (o, ok)

  -- corto_declaredByMeRemove
  unfoldable declared_remove : Object → Object
  unfolding unlock_intern
  declared_remove o =
      if not o.builtin && o.declared_by_me
      then (unlock_intern (record o { declared_by_me = false })).0
      else o

  -- corto_resumeDeclared
  unfoldable pub resume_declared : Bool → Object → Object × Resumed
  resume_declared resume o =
      if o.persistent
      then (
        record o { source = w.current },
        if is_null w.current && o.named
            then (if resume then w.resume else absent)
            else elim (mount_policy w.current) [
              | some local ↦ if local then present else absent
              | none ↦ absent
            ],
      )
      else (o, absent)

  -- corto_defineDeclared
  unfoldable pub define_declared : Object → Object × Status
  unfolding source_of
  define_declared o =
      if w.unknown
      then (o, error)
      else if w.has_construct && source_match (source_of o) none
      then (log construct o, if w.construct_ok then ok else error)
      else (o, ok)

  -- corto_notifyDefined, in its five steps: the state and the lock, the observers, the define
  -- delegate, the objects in a container, the admin and the lock.
  abbrev should_lock : Object → Bool
  should_lock o = not o.named && (w.has_define || o.observable)

  unfoldable mark_valid : Object → Object
  unfolding lock_intern
  mark_valid o = let v = record o { valid = true } in if should_lock o then (lock_intern v).0 else v

  unfoldable notify_observers : Mask → Object → Object
  notify_observers mask o =
      if not o.orphan && (o.observable || o.named) then log (notify mask) o else o

  unfoldable call_define : Object → Object
  call_define o = if w.has_define then log define_hook o else o

  -- The call of corto_defineContainer, and its outcome.
  unfoldable define_contents : Object → Object × Status
  define_contents o =
      if w.is_container then (log contents o, if w.contents_ok then ok else error) else (o, ok)

  unfoldable leave_declared : Object → Object
  unfolding declared_remove unlock_intern
  leave_declared o =
      if o.named then declared_remove o else if should_lock o then (unlock_intern o).0 else o

  -- Where the content is not defined, the object stays valid, and with the thread that declared it.
  unfoldable leave_defined : Object × Status → Object × Status
  unfolding leave_declared
  leave_defined (o, ok) = (leave_declared o, ok)
  leave_defined (o, _) = (o, error)

  unfoldable pub notify_defined : Mask → Object → Object × Status
  unfolding mark_valid notify_observers call_define define_contents leave_defined
  notify_defined mask o =
      leave_defined (define_contents (call_define (notify_observers mask (mark_valid o))))

  -- defineDeclared, and notifyDefined if that succeeds.
  unfoldable pub and_notify : Mask → Object × Status → Object × Status
  unfolding notify_defined
  and_notify mask (o, ok) = notify_defined mask o
  and_notify mask (o, _) = (o, error)

  unfoldable pub define_and_notify : Mask → Object → Object × Status
  unfolding define_declared and_notify
  define_and_notify mask o = and_notify mask (define_declared o)

  -- `corto_define_intern` behind the call of corto_resumeDeclared.
  unfoldable pub define_resumed : Bool → Object × Resumed → Object × Status
  unfolding define_and_notify
  define_resumed only_when_resumed (o, r) =
      if is_failed r
      then (o, error)
      else if not only_when_resumed || is_present r
      then define_and_notify (born r false) o
      else (o, ok)

  -- corto_define_intern
  unfoldable define_intern : Bool → Bool → Object → Object × Status
  unfolding resume_declared define_resumed define_contents
  define_intern resume only_when_resumed o =
      if o.valid
      then define_contents o
      else if w.rooted && not o.builtin && not (declared_check o) && not o.orphan
      then (o, error)
      else define_resumed only_when_resumed (resume_declared resume o)

  -- corto_define
  unfoldable pub define : Object → Object × Status
  unfolding define_intern
  define o = define_intern true false o
