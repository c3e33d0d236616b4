-- ===== src/Object/Lifecycle/Locking.antt =====
-- The write lock over updates (src/store/object.c).
use corto.Base.{
  ◌+◌, ◌-◌, ◌≡◌, refl, ◌⊎◌, inl, inr, Bool, true, false, not, ◌&&◌, ◌||◌, if◌then◌else◌, arith,
  Bool-cases, ap, sym, ◌∙◌,
}
use corto.Object.Lifecycle.{
  Object, World, log, notify, Status, ok, error, diverges, resume_declared, owned, is_failed, born,
  Resumed,
}
use corto.Object.Lifecycle.Update.{
  update_body, update_error, update_leave, update_locked, update_resumed, update_mask, update,
  update_begin, update_end, update_cancel,
}
use corto.Object.Lifecycle.Notified.{contents_fail, gives_up_lock}
use corto.Object.Lifecycle.Define.{LocksAfter, define_and_notify-LocksAfter, resume_declared-keeps}

module _ (w : World) where
  -- An update that was begun on a valid object and ended, or cancelled, leaves the locks as they were.
  begin_valid :
      (o p : Object)
      → o.valid ≡ true
      → update_begin w o ≡ (p, ok)
      → p ≡ (if o.writable then record o { write_locks = o.write_locks + 1 } else o)
  unfolding update_begin
  begin_valid o p v e = ground arith

  -- A valid object that is both writable and observable is as it was when an update of it that was
  -- begun is cancelled, if the mutex can be unlocked.
  pub update_cancel-update_begin :
      (o p : Object)
      → w.unlock_ok ≡ true
      → o.valid ≡ true
      → o.writable ≡ true
      → o.observable ≡ true
      → update_begin w o ≡ (p, ok)
      → update_cancel w p ≡ (o, ok)
  unfolding update_cancel
  update_cancel-update_begin o p u v wr ob e = ground (arith, begin_valid o p v e)

  -- On a valid object that is writable and not observable, cancelling an update that was begun is an
  -- error, and the thread goes on holding the write lock that the update took.
  update_cancel_keeps_lock :
      (o p : Object)
      → o.valid ≡ true
      → o.writable ≡ true
      → o.observable ≡ false
      → update_begin w o ≡ (p, ok)
      → (update_cancel w p ≡ (p, error)) × (p.write_locks ≡ o.write_locks + 1)
  unfolding update_cancel
  update_cancel_keeps_lock o p v wr ob e = ground (arith, begin_valid o p v e)

  -- Ending an update that was begun on a valid object gives the lock back, whether or not a validate
  -- delegate refuses the notification, if the mutex can be unlocked; the object stays valid.
  pub update_end-update_begin :
      (o p : Object)
      → w.unlock_ok ≡ true
      → o.valid ≡ true
      → update_begin w o ≡ (p, ok)
      → ((update_end w p).0.write_locks ≡ o.write_locks)
        × ((update_end w p).0.valid ≡ true)
        × ((update_end w p).1 ≡ (if w.notify_ok then ok else error))
  unfolding update_end
  update_end-update_begin o p u v e = ground (arith, begin_valid o p v e)

  update_resumed-LocksAfter :
      (o : Object) (r : Resumed)
      → w.lock_ok ≡ true
      → w.unlock_ok ≡ true
      → contents_fail w ≡ false
      → (p : Object) × (s : Status) × (f : Bool) × (update_resumed w (o, r) ≡ (p, s, f))
        × LocksAfter w o p s
        × ((s ≡ ok) ⊎ (s ≡ error))
        × (f ≡ true → s ≡ error)
  unfolding update_resumed
  update_resumed-LocksAfter o r l u n = elim (Bool-cases (is_failed r)) [
    | inl e ↦ (o, error, true, rw e, (refl, inl refl), inr refl, λ _. refl)
    | inr e ↦
        let (p, s, d, h, k) = define_and_notify-LocksAfter w (born r true) o l u n in
        (p, s, false, rw e (ap (λ (t : Object × Status). (t.0, t.1, false)) d), h, k, λ c. cc)
  ]

  -- The branches of the body: an error before anything is done, the definition, the notification.
  body_refused :
      (o : Object) → (w.secured && not w.authorized) ≡ true → update_body w o ≡ (o, error, true)
  unfolding update_body
  body_refused o e = rw e

  body_declared :
      (o : Object)
      → (w.secured && not w.authorized) ≡ false
      → o.valid ≡ false
      → update_body w o ≡ update_resumed w (resume_declared w true o)
  unfolding update_body
  body_declared o e v = rw (e, v)

  body_valid :
      (o : Object)
      → (w.secured && not w.authorized) ≡ false
      → o.valid ≡ true
      → (p : Object) × (s : Status) × (f : Bool) × (update_body w o ≡ (p, s, f))
        × LocksAfter w o p s
        × ((s ≡ ok) ⊎ (s ≡ error))
        × (f ≡ true → s ≡ error)
  unfolding update_body
  body_valid o e v = elim (Bool-cases w.notify_ok) [
    | inl n ↦
        (log (notify update_mask) o, ok, false, ground arith, (refl, inl refl), inl refl, λ c. cc)
    | inr n ↦ (o, error, true, ground arith, (refl, inl refl), inr refl, λ _. refl)
  ]

  body-LocksAfter :
      (o : Object)
      → w.lock_ok ≡ true
      → w.unlock_ok ≡ true
      → contents_fail w ≡ false
      → (p : Object) × (s : Status) × (f : Bool) × (update_body w o ≡ (p, s, f))
        × LocksAfter w o p s
        × ((s ≡ ok) ⊎ (s ≡ error))
        × (f ≡ true → s ≡ error)
  body-LocksAfter o l u n = elim (Bool-cases (w.secured && not w.authorized)) [
    | inl e ↦ (o, error, true, body_refused o e, (refl, inl refl), inr refl, λ _. refl)
    | inr e ↦ elim (Bool-cases o.valid) [
      | inl v ↦ body_valid o e v
      | inr v ↦
          let (q, r) = resume_declared w true o in
          let (_, kl, _, kg, kw, _) = resume_declared-keeps w true o in
          let (p, s, f, d, (hw, h), k, fe) = update_resumed-LocksAfter q r l u n in
          (p, s, f, body_declared o e v ∙ d, (hw ∙ kw, ground arith), k, fe)
    ]
  ]

  -- Behind the body: the lock is given back, on the error path as on the other.
  leave-locks :
      (p : Object) (s : Status) (f : Bool)
      → w.unlock_ok ≡ true
      → (s ≡ ok) ⊎ (s ≡ error)
      → (q : Object) × (r : Status) × (update_leave w p.writable (p, s, f) ≡ (q, r))
        × (r ≡ (if f then error else s))
        × (q.write_locks ≡ (if p.writable then p.write_locks - 1 else p.write_locks))
  unfolding update_leave
  leave-locks p s true u k = (
    record p { write_locks = if p.writable then p.write_locks - 1 else p.write_locks },
    error,
    ground arith,
    refl,
    refl,
  )
  leave-locks p s false u k = (
    record p { write_locks = if p.writable then p.write_locks - 1 else p.write_locks },
    s,
    ground arith,
    refl,
    refl,
  )

  update-open :
      (o : Object)
      → (owned w o || w.is_target) ≡ true
      → w.lock_ok ≡ true
      → update w o
        ≡ update_locked w (if o.writable then record o { write_locks = o.write_locks + 1 } else o)
  unfolding update
  update-open o e l = ground arith

  update-refused : (o : Object) → (owned w o || w.is_target) ≡ false → update w o ≡ (o, error)
  unfolding update
  update-refused o e = ground arith

  abbrev lock_taken : Object → Object
  lock_taken o = if o.writable then record o { write_locks = o.write_locks + 1 } else o

  left_status :
      (s r : Status) (f : Bool)
      → (s ≡ ok) ⊎ (s ≡ error)
      → r ≡ (if f then error else s)
      → (r ≡ ok) ⊎ (r ≡ error)
  left_status s r f k e = ground arith

  left_locks :
      (o p q : Object) (s r : Status) (f : Bool)
      → p.writable ≡ (lock_taken o).writable
      → (p.write_locks ≡ (lock_taken o).write_locks)
        ⊎ ((s ≡ ok)
            × (gives_up_lock (lock_taken o) ≡ true)
            × (p.write_locks ≡ (lock_taken o).write_locks - 1))
      → r ≡ (if f then error else s)
      → (f ≡ true → s ≡ error)
      → q.write_locks ≡ (if p.writable then p.write_locks - 1 else p.write_locks)
      → (q.write_locks ≡ o.write_locks)
        ⊎ ((r ≡ ok) × (gives_up_lock o ≡ true) × (q.write_locks ≡ o.write_locks - 1))
  left_locks o p q s r f hw (inl h) cr fe cl = inl (ground arith)
  left_locks o p q s r true hw (inr h) cr fe cl = absurd (ground (arith, fe refl))
  left_locks o p q s r false hw (inr h) cr fe cl = inr (ground arith, ground arith, ground arith)

  -- An update always returns where the mutex can be locked and unlocked and, of a container that it
  -- defines, what the container holds can be defined, and leaves the thread with the write locks that it
  -- had before; only where it defined an object that the thread had declared does
  -- it leave one less, the lock that the declaration took.
  pub update-write_locks :
      (o : Object)
      → w.lock_ok ≡ true
      → w.unlock_ok ≡ true
      → contents_fail w ≡ false
      → (p : Object) × (s : Status) × (update w o ≡ (p, s))
        × ((s ≡ ok) ⊎ (s ≡ error))
        × ((p.write_locks ≡ o.write_locks)
            ⊎ ((s ≡ ok) × (gives_up_lock o ≡ true) × (p.write_locks ≡ o.write_locks - 1)))
  unfolding update_locked update_leave
  update-write_locks o l u n = elim (Bool-cases (owned w o || w.is_target)) [
    | inr e ↦ (o, error, update-refused o e, inr refl, inl refl)
    | inl e ↦
        let locked : Object = lock_taken o in
        let (p, s, f, d, (hw, h), k, fe) = body-LocksAfter locked l u n in
        let (q, r, c, cr, cl) = leave-locks p s f u k in
        (
          q,
          r,
          update-open o e l
              ∙ ap (update_leave w locked.writable) d
              ∙ ap (λ b. update_leave w b (p, s, f)) (sym hw)
              ∙ c,
          left_status s r f k cr,
          left_locks o p q s r f hw h cr fe cl,
        )
  ]

  -- Where the mutex cannot be unlocked, an update of a valid object that the thread owns and may not
  -- change never returns: the code behind the error label jumps back to it.
  update_diverges :
      (o : Object)
      → o.valid ≡ true
      → o.writable ≡ true
      → owned w o ≡ true
      → w.lock_ok ≡ true
      → w.unlock_ok ≡ false
      → w.secured ≡ true
      → w.authorized ≡ false
      → (update w o).1 ≡ diverges
  unfolding update_locked update_leave update_error
  update_diverges o v wr own l u s a =
      ap (λ (r : Object × Status). r.1)
        (update-open o (rw own) l
          ∙ ap (update_leave w (lock_taken o).writable) (body_refused (lock_taken o) (rw (s, a))))
      ∙ ground arith
