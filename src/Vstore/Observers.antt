-- ===== src/Vstore/Observers.antt =====
-- Which observers an event notifies (src/vstore/observer.c: `corto_notify_observer`, its two variants,
-- `corto_notify_observers_intern` and `corto_notify`). Observers do not change while they are notified.
pub mod Conditions
pub mod Reach
use corto.Base.{
  ℕ, zero, suc, Bool, true, false, not, ◌&&◌, ◌||◌, Option, none, some, List, [], ◌∷◌, ◌++◌, ◌==◌,
  if◌then◌else◌,
}

-- An observer of an instance: `events` says whether a mask meets its own, `on_tree` is CORTO_ON_TREE.
pub record Observer : Type 0 where
  pub address : ℕ
  pub events : ℕ → Bool
  pub on_tree : Bool
  pub observed_type : Option ℕ
  pub instance_object : Option ℕ

-- The arrays onSelfArray and onChildArray of the objects, which are empty for one that is not observable.
pub record Observables : Type 0 where
  pub type_of : ℕ → ℕ
  pub is_orphan : ℕ → Bool
  pub on_self : ℕ → List Observer
  pub on_child : ℕ → List Observer

-- A call of an observer: its address and `data` of the event.
pub record Call : Type 0 where
  pub observer : ℕ
  pub observable : ℕ

abbrev pub is_or_any : Option ℕ → ℕ → Bool
is_or_any none t = true
is_or_any (some u) t = u == t

-- !this || (this != source)
abbrev pub is_other : Option ℕ → Option ℕ → Bool
is_other none source = true
is_other (some o) none = true
is_other (some o) (some s) = not (o == s)

abbrev pub is_near : ℕ → Bool
is_near zero = true
is_near (suc depth) = false

module _ (t : Observables) (source : Option ℕ) (mask : ℕ) where
  -- The conditions of corto_notify_observer.
  unfoldable pub is_notified : ℕ → ℕ → Observer → Bool
  is_notified observable depth b =
      b.events mask
      && (is_or_any b.observed_type (t.type_of observable)
          && ((is_near depth || b.on_tree) && is_other b.instance_object source))

  -- corto_notify_observers_intern
  unfoldable pub call_observers : ℕ → ℕ → List Observer → List Call
  unfolding is_notified
  call_observers observable depth [] = []
  call_observers observable depth (b ∷ bs) =
      let rest = call_observers observable depth bs in
      if is_notified observable depth b
      then record { observer = b.address; observable = observable } ∷ rest
      else rest

  -- "Bubble event up in hierarchy", over the parents of the object
  unfoldable pub bubble : ℕ → Bool → ℕ → List ℕ → List Call
  unfolding call_observers
  bubble observable orphan depth [] = []
  bubble observable orphan depth (p ∷ ps) =
      (if not orphan
        then call_observers observable depth (t.on_child p)
        else call_observers p depth (t.on_self p))
      ++ bubble observable (t.is_orphan p) (if not orphan then suc depth else depth) ps

  -- The calls of corto_notify, of an object with these parents.
  unfoldable pub notify_calls : ℕ → List ℕ → List Call
  unfolding bubble
  notify_calls observable parents =
      call_observers observable 0 (t.on_self observable)
      ++ bubble observable (t.is_orphan observable) 0 parents

  -- corto_notify: `invalid` says that the type has a validate method for the mask and that it fails,
  -- `failed` that corto_notify_subscribers does. The flag of the result is that of an error.
  unfoldable pub notify : Bool → Bool → ℕ → List ℕ → Bool × List Call
  unfolding notify_calls
  notify invalid failed observable parents =
      if invalid then (true, []) else (failed, notify_calls observable parents)
