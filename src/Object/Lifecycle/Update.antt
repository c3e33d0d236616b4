-- ===== src/Object/Lifecycle/Update.antt =====
-- Updates of an object (src/store/object.c): `corto_update`, and `corto_update_begin` with
-- `corto_update_end` or `corto_update_cancel`.
use corto.Base.{Bool, true, false, not, ◌&&◌, none, some, if◌then◌else◌}
use corto.Object.Ownership.{mount_policy}
use corto.Object.Lifecycle.{
  Mask, notify, Object, Resumed, World, Status, ok, error, diverges, fault, log, source_of, owned,
  lock_intern, unlock_intern, declared_check, resume_declared, define_and_notify, is_failed, born,
}

abbrev pub update_mask : Mask
update_mask = record { define = false; resume = false; update = true }

module _ (w : World) where
  -- corto_notify(o, CORTO_UPDATE), and its secured variant: a validate delegate may refuse.
  unfoldable notify_update : Object → Object × Status
  notify_update o = if w.notify_ok then (log (notify update_mask) o, ok) else (o, error)

  -- The branch of `corto_update` for an object that is not valid yet; the flag says that the error
  -- label is where it ends.
  unfoldable pub update_resumed : Object × Resumed → Object × Status × Bool
  unfolding define_and_notify
  update_resumed (o, r) =
      if is_failed r
      then (o, error, true)
      else let (p, s) = define_and_notify w (born r true) o in (p, s, false)

  unfoldable update_declared : Object → Object × Status × Bool
  unfolding resume_declared update_resumed
  update_declared o = update_resumed (resume_declared w true o)

  -- The body of `corto_update` between the lock and the unlock.
  unfoldable pub update_body : Object → Object × Status × Bool
  unfolding notify_update update_declared
  update_body o =
      if w.secured && not w.authorized
      then (o, error, true)
      else if not o.valid
      then update_declared o
      else let (p, s) = notify_update o in elim s [ ok ↦ (p, ok, false) | _ ↦ (p, error, true) ]

  -- What follows the error label: where the unlock fails, the code jumps to the label again.
  unfoldable pub update_error : Bool → Object → Object × Status
  unfolding unlock_intern
  update_error locked o =
      if locked
      then (let (p, s) = unlock_intern w o in elim s [ ok ↦ (p, error) | _ ↦ (p, diverges) ])
      else (o, error)

  -- The end of the body: unlock, and return the result.
  unfoldable update_done : Object → Status → Object × Status
  unfolding unlock_intern
  update_done o result =
      let (p, s) = unlock_intern w o in elim s [ ok ↦ (p, result) | _ ↦ (p, error) ]

  -- Both ways out of the body; `locked` is the local variable.
  unfoldable pub update_leave : Bool → Object × Status × Bool → Object × Status
  unfolding update_error update_done
  update_leave locked (o, result, true) = update_error locked o
  update_leave locked (o, result, false) = update_done o result

  unfoldable pub update_locked : Object → Object × Status
  unfolding update_body update_leave
  update_locked o = update_leave o.writable (update_body o)

  -- corto_update
  unfoldable pub update : Object → Object × Status
  unfolding owned lock_intern update_locked
  update o =
      if not (owned w o) && not w.is_target
      then (o, error)
      else let (p, s) = lock_intern w o in elim s [ ok ↦ update_locked p | _ ↦ (p, error) ]

  -- corto_update_begin_intern, from the test of the owner on.
  unfoldable begin_owned : Object → Object × Status
  unfolding owned lock_intern
  begin_owned o =
      if not w.has_target && not w.is_target && not (owned w o)
      then (o, error)
      else if not o.valid && not (declared_check o)
      then (o, error)
      else if o.valid
      then lock_intern w o
      else (o, ok)

  unfoldable update_begin_intern : Bool → Object → Object × Status
  unfolding resume_declared begin_owned
  update_begin_intern resume o =
      if w.secured && not w.authorized
      then (o, error)
      else if not o.valid
      then (let (p, r) = resume_declared w resume o in
          if is_failed r then (p, error) else begin_owned p)
      else begin_owned o

  -- corto_update_begin
  unfoldable pub update_begin : Object → Object × Status
  unfolding update_begin_intern
  update_begin = update_begin_intern true

  -- The mask of `corto_update_end` for an object that is not valid yet.
  unfoldable end_mask : Object → Mask
  unfolding source_of
  end_mask o = elim (mount_policy (source_of w o)) [
    | some local ↦ record { define = not local; resume = local; update = false }
    | none ↦ record { define = true; resume = false; update = false }
  ]

  -- corto_update_end: the result does not depend on the unlock.
  unfoldable pub update_end : Object → Object × Status
  unfolding define_and_notify end_mask notify_update unlock_intern
  update_end o =
      if o.valid
      then (let (p, s) = notify_update o in ((unlock_intern w p).0, s))
      else define_and_notify w (end_mask o) o

  -- corto_update_cancel: the test is on CORTO_ATTR_OBSERVABLE, the lock stands in the writable header.
  unfoldable pub update_cancel : Object → Object × Status
  unfolding unlock_intern
  update_cancel o =
      if o.observable
      then (if o.writable then ((unlock_intern w o).0, ok) else (o, fault))
      else (o, error)
