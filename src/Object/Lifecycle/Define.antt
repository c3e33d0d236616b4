-- ===== src/Object/Lifecycle/Define.antt =====
-- What defining an object does (src/store/object.c, `corto_define_intern`).
use corto.Base.{
  ◌-◌, ◌≡◌, refl, ◌⊎◌, inl, inr, Bool, true, false, not, ◌&&◌, none, ◌∷◌, ◌++◌, if◌then◌else◌,
  arith, Bool-cases, ap, ◌∙◌,
}
use corto.Object.Ownership.{source_match}
use corto.Object.Lifecycle.{
  Mask, construct, contents, Object, Resumed, World, Status, ok, error, source_of, resume_declared,
  define_declared, notify_defined, define_and_notify, declared_check, define_resumed, define, born,
  and_notify, log, is_failed,
}
use corto.Object.Lifecycle.Notified.{
  handlers, contents_fail, gives_up_lock, notify_defined-valid, notify_defined-declared,
  notify_defined-writable, notify_defined-locks, notify_defined-ok, notify_defined-error,
}

module _ (w : World) where
  -- The constructor, if it is called, is the only call; an error leaves all else as it was.
  abbrev constructed : Object → Object
  constructed o =
      if w.has_construct && source_match (source_of w o) none then log construct o else o

  define_declared_cases :
      (o : Object)
      → (define_declared w o ≡ (constructed o, ok))
        ⊎ ((q : Object) × (define_declared w o ≡ (q, error)) × ((q ≡ o) ⊎ (q ≡ log construct o)))
  unfolding define_declared
  define_declared_cases o = elim (Bool-cases w.unknown) [
    | inl u ↦ inr (o, ground arith, inl refl)
    | inr u ↦ elim (Bool-cases (w.has_construct && source_match (source_of w o) none)) [
      | inl c ↦ elim (Bool-cases w.construct_ok) [
        | inl k ↦ inl (rw (u, c, k, define_declared))
        | inr k ↦ inr (log construct o, rw (u, c, k, define_declared), inr refl)
      ]
      | inr c ↦ inl (rw (u, c, define_declared))
    ]
  ]

  constructed-trace :
      (mask : Mask) (o : Object)
      → (notify_defined w mask (constructed o)).0.trace ≡ handlers w mask o ++ o.trace
  unfolding notify_defined
  constructed-trace mask o = ground arith

  -- What an error leaves: an object that is not notified.
  abbrev Untouched : Object → Object → Type 0
  Untouched o p =
      (p.valid ≡ o.valid)
      × (p.write_locks ≡ o.write_locks)
      × ((p.trace ≡ o.trace) ⊎ (p.trace ≡ construct ∷ o.trace))

  abbrev Defined : Mask → Object → Object → Type 0
  Defined mask o p = (p.valid ≡ true) × (p.trace ≡ handlers w mask o ++ o.trace)

  -- What an error of the content leaves: an object that is defined, and still the thread's own.
  abbrev HalfDefined : Mask → Object → Object → Type 0
  HalfDefined mask o p =
      (contents_fail w ≡ true)
      × (p.declared_by_me ≡ o.declared_by_me)
      × (p.valid ≡ true)
      × (p.trace ≡ handlers w mask o ++ o.trace)

  constructed-declared : (o : Object) → (constructed o).declared_by_me ≡ o.declared_by_me
  constructed-declared o = ground arith

  define_and_notify_cases :
      (mask : Mask) (o : Object)
      → ((p : Object) × (define_and_notify w mask o ≡ (p, ok))
          × (contents_fail w ≡ false)
          × Defined mask o p)
        ⊎ ((p : Object) × (define_and_notify w mask o ≡ (p, error)) × Untouched o p)
        ⊎ ((p : Object) × (define_and_notify w mask o ≡ (p, error)) × HalfDefined mask o p)
  unfolding define_and_notify
  define_and_notify_cases mask o = elim (define_declared_cases o) [
    | inl e ↦ elim (Bool-cases (contents_fail w)) [
      | inr f ↦ inl (
        (notify_defined w mask (constructed o)).0,
        ap (and_notify w mask) e ∙ notify_defined-ok w mask (constructed o) f,
        f,
        (notify_defined-valid w mask (constructed o), constructed-trace mask o),
      )
      | inl f ↦ inr (
          inr (
            (notify_defined w mask (constructed o)).0,
            ap (and_notify w mask) e ∙ notify_defined-error w mask (constructed o) f,
            (
              f,
              notify_defined-declared w mask (constructed o) f ∙ constructed-declared o,
              notify_defined-valid w mask (constructed o),
              constructed-trace mask o,
            ),
          ))
    ]
    | inr (q, e, c) ↦ inr (inl (q, ap (and_notify w mask) e, ground arith))
  ]

  constructed-locks :
      (o : Object)
      → ((constructed o).write_locks ≡ o.write_locks)
        × (gives_up_lock (constructed o) ≡ gives_up_lock o)
        × ((constructed o).writable ≡ o.writable)
  constructed-locks o = ground arith

  -- The locks behind a definition: those before it, or one less where it succeeds on an object that
  -- the thread declared.
  abbrev pub LocksAfter : Object → Object → Status → Type 0
  LocksAfter o p s =
      (p.writable ≡ o.writable)
      × ((p.write_locks ≡ o.write_locks)
          ⊎ ((s ≡ ok) × (gives_up_lock o ≡ true) × (p.write_locks ≡ o.write_locks - 1)))

  pub define_and_notify-LocksAfter :
      (mask : Mask) (o : Object)
      → w.lock_ok ≡ true
      → w.unlock_ok ≡ true
      → contents_fail w ≡ false
      → (p : Object) × (s : Status) × (define_and_notify w mask o ≡ (p, s))
        × LocksAfter o p s
        × ((s ≡ ok) ⊎ (s ≡ error))
  unfolding define_and_notify
  define_and_notify-LocksAfter mask o l u f = elim (define_declared_cases o) [
    | inl e ↦ (
      (notify_defined w mask (constructed o)).0,
      ok,
      ap (and_notify w mask) e ∙ notify_defined-ok w mask (constructed o) f,
      (
        notify_defined-writable w mask (constructed o) ∙ (constructed-locks o).2,
        ground (arith, notify_defined-locks w mask (constructed o) l u f, constructed-locks o),
      ),
      inl refl,
    )
    | inr (q, e, c) ↦
        (q, error, ap (and_notify w mask) e, (ground arith, inl (ground arith)), inr refl)
  ]

  define_resumed_cases :
      (o : Object) (r : Resumed)
      → ((p : Object) × (define_resumed w false (o, r) ≡ (p, ok))
          × (contents_fail w ≡ false)
          × Defined (born r false) o p)
        ⊎ ((p : Object) × (define_resumed w false (o, r) ≡ (p, error)) × Untouched o p)
        ⊎ ((p : Object) × (define_resumed w false (o, r) ≡ (p, error))
            × HalfDefined (born r false) o p)
  unfolding define_resumed
  define_resumed_cases o r = elim (Bool-cases (is_failed r)) [
    | inl f ↦ inr (inl (o, rw f, (refl, refl, inl refl)))
    | inr f ↦ rw f (define_and_notify_cases (born r false) o)
  ]

  pub resume_declared-keeps :
      (resume : Bool) (o : Object)
      → ((resume_declared w resume o).0.valid ≡ o.valid)
        × ((resume_declared w resume o).0.write_locks ≡ o.write_locks)
        × ((resume_declared w resume o).0.trace ≡ o.trace)
        × (gives_up_lock (resume_declared w resume o).0 ≡ gives_up_lock o)
        × ((resume_declared w resume o).0.writable ≡ o.writable)
        × ((resume_declared w resume o).0.declared_by_me ≡ o.declared_by_me)
  unfolding resume_declared
  resume_declared-keeps resume o = ground arith

  -- What defining an object again does: what a container holds is defined again.
  abbrev pub again : Object → Object
  again o = if w.is_container then log contents o else o

  define-valid :
      (o : Object) → o.valid ≡ true → contents_fail w ≡ false → define w o ≡ (again o, ok)
  unfolding define
  define-valid o v f = ground arith

  -- The object belongs to another thread.
  abbrev is_foreign : Object → Bool
  is_foreign o = w.rooted && not o.builtin && not (declared_check o) && not o.orphan

  define-foreign : (o : Object) → o.valid ≡ false → is_foreign o ≡ true → define w o ≡ (o, error)
  unfolding define
  define-foreign o v b = rw (v, b)

  define-open :
      (o : Object)
      → o.valid ≡ false
      → is_foreign o ≡ false
      → define w o ≡ define_resumed w false (resume_declared w true o)
  unfolding define
  define-open o v b = rw (v, b)

  -- Defining an object that is not valid either succeeds: the object is valid, its handlers were
  -- called once each and in their order (for a RESUME event if a mount had the object, else for a
  -- DEFINE), for a container followed by the definition of what it holds, and defining it again does no
  -- more than to define that again; or it fails: the object is still not valid, no observer was notified,
  -- and the thread's locks are as they were; or it is a container and what it holds cannot be defined: the
  -- object is valid and its handlers were called, but it still belongs to the thread that declared it.
  pub define_lem :
      (o : Object)
      → o.valid ≡ false
      → (let (q, r) = resume_declared w true o in
          ((p : Object) × (define w o ≡ (p, ok))
            × (p.valid ≡ true)
            × (p.trace ≡ handlers w (born r false) q ++ o.trace)
            × (define w p ≡ (again p, ok)))
          ⊎ ((p : Object) × (define w o ≡ (p, error))
              × (p.valid ≡ false)
              × (p.write_locks ≡ o.write_locks)
              × ((p.trace ≡ o.trace) ⊎ (p.trace ≡ construct ∷ o.trace)))
          ⊎ ((p : Object) × (define w o ≡ (p, error))
              × (contents_fail w ≡ true)
              × (p.valid ≡ true)
              × (p.trace ≡ handlers w (born r false) q ++ o.trace)
              × (p.declared_by_me ≡ o.declared_by_me)))
  define_lem o v =
      let (q, r) = resume_declared w true o in
      let (kept_valid, kept_locks, kept_trace, _, _, kept_mine) = resume_declared-keeps true o in
      let on_trace = ap (λ t. handlers w (born r false) q ++ t) kept_trace in
      elim (Bool-cases (is_foreign o)) [
        | inl b ↦ inr (inl (o, define-foreign o v b, v, refl, inl refl))
        | inr b ↦ elim (define_resumed_cases q r) [
          | inl (p, e, f, (pv, pt)) ↦
              inl (p, define-open o v b ∙ e, pv, pt ∙ on_trace, define-valid p pv f)
          | inr (inl (p, e, (pv, pl, pt))) ↦ inr (
              inl (
                p,
                define-open o v b ∙ e,
                pv ∙ kept_valid ∙ v,
                pl ∙ kept_locks,
                elim pt [
                  | inl t ↦ inl (t ∙ kept_trace)
                  | inr t ↦ inr (t ∙ ap (λ t. construct ∷ t) kept_trace)
                ],
              ))
          | inr (inr (p, e, (f, pd, pv, pt))) ↦
              inr (inr (p, define-open o v b ∙ e, f, pv, pt ∙ on_trace, pd ∙ kept_mine))
        ]
      ]
