-- ===== src/Tests/LifecycleTests.antt =====
-- Definitions and updates of concrete objects: src/store/object.c.
use corto.Base.{◌-◌, ◌≡◌, refl, ◌⊎◌, true, false, none, [], ◌∷◌, ◌++◌, if◌then◌else◌}
use corto.Object.Ownership.{source_match}
use corto.Object.Lifecycle.{
  Object, World, Status, ok, error, construct, absent, resume_declared, define, born, owned,
}
use corto.Object.Lifecycle.Update.{update, update_begin, update_end, update_cancel}
use corto.Object.Lifecycle.Notified.{handlers, contents_fail, gives_up_lock}
use corto.Object.Lifecycle.Define.{again, define_lem}
use corto.Object.Lifecycle.Locking.{
  update-write_locks, update_end-update_begin, update_cancel-update_begin,
}

abbrev world : World
world = record {
  current = none;
  ancestors = [];
  rooted = true;
  unknown = false;
  has_construct = true;
  has_define = true;
  has_target = false;
  is_target = false;
  is_container = true;
  resume = absent;
  construct_ok = true;
  notify_ok = true;
  contents_ok = true;
  secured = false;
  authorized = true;
  lock_ok = true;
  unlock_ok = true;
}

-- An object that the thread has declared, and holds the lock of.
abbrev declared : Object
declared = record {
  named = true;
  writable = true;
  observable = true;
  persistent = true;
  orphan = false;
  builtin = false;
  valid = false;
  source = none;
  declared_by_me = true;
  write_locks = 1;
  trace = [];
}

abbrev defined : Object
defined = record declared { valid = true; declared_by_me = false; write_locks = 0 }

abbrev begun : Object
begun = record defined { write_locks = 1 }

define_lem_example :
    (let (q, r) = resume_declared world true declared in
      ((p : Object) × (define world declared ≡ (p, ok))
        × (p.valid ≡ true)
        × (p.trace ≡ handlers world (born r false) q ++ [])
        × (define world p ≡ (again world p, ok)))
      ⊎ ((p : Object) × (define world declared ≡ (p, error))
          × (p.valid ≡ false)
          × (p.write_locks ≡ 1)
          × ((p.trace ≡ []) ⊎ (p.trace ≡ construct ∷ [])))
      ⊎ ((p : Object) × (define world declared ≡ (p, error))
          × (contents_fail world ≡ true)
          × (p.valid ≡ true)
          × (p.trace ≡ handlers world (born r false) q ++ [])
          × (p.declared_by_me ≡ true)))
define_lem_example = define_lem world declared refl

update-write_locks_example :
    (p : Object) × (s : Status) × (update world declared ≡ (p, s))
    × ((s ≡ ok) ⊎ (s ≡ error))
    × ((p.write_locks ≡ 1) ⊎ ((s ≡ ok) × (gives_up_lock declared ≡ true) × (p.write_locks ≡ 1 - 1)))
update-write_locks_example = update-write_locks world declared refl refl refl

begin_run : update_begin world defined ≡ (begun, ok)
unfolding update_begin source_match
begin_run = refl

update_end-update_begin_example :
    ((update_end world begun).0.write_locks ≡ 0)
    × ((update_end world begun).0.valid ≡ true)
    × ((update_end world begun).1 ≡ (if true then ok else error))
update_end-update_begin_example = update_end-update_begin world defined begun refl refl begin_run

update_cancel-update_begin_example : update_cancel world begun ≡ (defined, ok)
update_cancel-update_begin_example =
    update_cancel-update_begin world defined begun refl refl refl refl begin_run

-- A writable object that is not observable.
abbrev quiet : Object
quiet = record defined { observable = false }

quiet_run : update_begin world quiet ≡ (record quiet { write_locks = 1 }, ok)
unfolding update_begin source_match
quiet_run = refl

-- Security refuses, and the mutex cannot be unlocked.
abbrev stuck : World
stuck = record world { secured = true; authorized = false; unlock_ok = false }

stuck-owned : owned stuck defined ≡ true
unfolding owned source_match
stuck-owned = refl
