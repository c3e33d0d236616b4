-- ===== src/Object/Lifecycle/Notified.antt =====
-- What the notification of a defined object does (src/store/object.c, `corto_notifyDefined`).
use corto.Base.{
  ◌-◌, ◌≡◌, refl, Bool, true, false, not, ◌&&◌, ◌||◌, none, List, [], ◌∷◌, ◌++◌, if◌then◌else◌,
  arith, ap, ◌∙◌,
}
use corto.Object.Ownership.{source_match}
use corto.Object.Lifecycle.{
  Mask, Event, construct, notify, define_hook, contents, Object, World, ok, error, source_of,
  notify_defined,
}

-- The handlers that a definition calls, the latest first: the constructor if the type has one and the
-- object is owned locally, the observers if the object has any and is no orphan, the define delegate,
-- and the definition of what a container holds.
abbrev pub handlers : World → Mask → Object → List Event
handlers w mask o =
    (if w.is_container then contents ∷ [] else [])
    ++ ((if w.has_define then define_hook ∷ [] else [])
        ++ ((if not o.orphan && (o.observable || o.named) then notify mask ∷ [] else [])
            ++ (if w.has_construct && source_match (source_of w o) none
                then construct ∷ []
                else [])))

-- The objects in a container cannot be defined.
abbrev pub contents_fail : World → Bool
contents_fail w = w.is_container && not w.contents_ok

-- The thread gives up the lock that it took when it declared the object.
abbrev pub gives_up_lock : Object → Bool
gives_up_lock o = o.named && not o.builtin && o.declared_by_me && o.writable

module _ (w : World) where
  notify_defined-trace :
      (mask : Mask) (o : Object)
      → (notify_defined w mask o).0.trace
        ≡ (if w.is_container then contents ∷ [] else [])
          ++ ((if w.has_define then define_hook ∷ [] else [])
              ++ ((if not o.orphan && (o.observable || o.named) then notify mask ∷ [] else [])
                  ++ o.trace))
  unfolding notify_defined
  notify_defined-trace mask o = ground arith

  pub notify_defined-valid : (mask : Mask) (o : Object) → (notify_defined w mask o).0.valid ≡ true
  unfolding notify_defined
  notify_defined-valid mask o = ground arith

  notify_defined-status :
      (mask : Mask) (o : Object)
      → (notify_defined w mask o).1 ≡ (if contents_fail w then error else ok)
  unfolding notify_defined
  notify_defined-status mask o = ground arith

  pub notify_defined-declared :
      (mask : Mask) (o : Object)
      → contents_fail w ≡ true
      → (notify_defined w mask o).0.declared_by_me ≡ o.declared_by_me
  unfolding notify_defined
  notify_defined-declared mask o f = ground arith

  pub notify_defined-writable :
      (mask : Mask) (o : Object) → (notify_defined w mask o).0.writable ≡ o.writable
  unfolding notify_defined
  notify_defined-writable mask o = ground arith

  pub notify_defined-locks :
      (mask : Mask) (o : Object)
      → w.lock_ok ≡ true
      → w.unlock_ok ≡ true
      → contents_fail w ≡ false
      → (notify_defined w mask o).0.write_locks
        ≡ (if gives_up_lock o then o.write_locks - 1 else o.write_locks)
  unfolding notify_defined
  notify_defined-locks mask o l u f = ground arith

  -- What a notification answers.
  pub notify_defined-ok :
      (mask : Mask) (o : Object)
      → contents_fail w ≡ false
      → notify_defined w mask o ≡ ((notify_defined w mask o).0, ok)
  notify_defined-ok mask o f =
      ap (λ s. ((notify_defined w mask o).0, s)) (notify_defined-status mask o ∙ rw f refl)

  pub notify_defined-error :
      (mask : Mask) (o : Object)
      → contents_fail w ≡ true
      → notify_defined w mask o ≡ ((notify_defined w mask o).0, error)
  notify_defined-error mask o f =
      ap (λ s. ((notify_defined w mask o).0, s)) (notify_defined-status mask o ∙ rw f refl)
