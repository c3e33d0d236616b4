-- ===== src/Lang/Methods/Binding.antt =====
-- What binding a method does to a table: the method takes the place of one that it may override, or is
-- inserted; and the table holds one reference for each of its slots.
use corto.Base.{
  ℕ, ◌≡◌, ◌≢◌, ◌⊎◌, refl, inl, inr, Bool, true, false, Option, none, some, ◌==◌, arith,
  Option-cases, get_elem?, subst, Text,
}
use corto.Object.Overload.Functions.{Best, infinite, rejected, at}
use corto.Lang.Vtable.{Vtable, vtable_insert}
use corto.Lang.Methods.{
  Tables, Context, bound, Slot, kept, overridden, conflict, replace, add_method, method_at,
  override_fails, override_slot, bind_found, bind_method, set_index, vtable_lookup, check_procedure,
  assign,
}
use corto.Lang.Methods.Search.{FitsMethod, Hits, vtable_lookup-Hits}
use corto.Lang.Methods.Slots.{
  IsFull, IsHeld, assign-IsFull, insert-IsFull, replace-IsHeld, insert-IsHeld,
}

-- The method may override the one found: its id is a request that the other fits at distance 0, it
-- stands in another scope, it fits in its place if the other is overridable, and the other is if the
-- method is declared as an override.
pub record MayOverride (c : Context) (found method : ℕ) : Type 0 where
  pub fits : FitsMethod c (c.procedures method).id (at 0) found
  pub elsewhere : (c.procedures found).scope ≢ (c.procedures method).scope
  pub compatible :
      (c.procedures found).overridable ≡ true
      → check_procedure c (c.procedures found) (c.procedures method) ≡ true
  pub declared : (c.procedures method).is_override ≡ true → (c.procedures found).overridable ≡ true

-- The table after a binding.
abbrev pub Rebinds : Context → ℕ → Tables → Tables → Type 0
Rebinds c method t u =
    ((slot : ℕ) × (found : ℕ) × (get_elem? t.methods slot ≡ some (some found))
      × MayOverride c found method
      × (u.methods ≡ assign t.methods slot method))
    ⊎ (u.methods ≡ (vtable_insert t.methods method).0)

set_index-bound :
    (c : Context) (t u : Tables) (method : ℕ)
    → set_index c t method ≡ bound u
    → (u.methods ≡ t.methods) × (u.references ≡ t.references)
unfolding set_index
set_index-bound c t u method e =
    elim (Option-cases (vtable_lookup c t (c.procedures method).id).0) [
      | inl n ↦ absurd (ground (arith, n))
      | inr s ↦ (ground (arith, s.1), ground (arith, s.1))
    ]

override_slot_lem :
    (c : Context) (method found : ℕ) (d : Best)
    → override_slot c method found d ≡ overridden
    → ((found == method) ≡ false)
      × (d ≡ at 0)
      × ((c.procedures found).scope ≢ (c.procedures method).scope)
      × ((c.procedures found).overridable ≡ true
          → check_procedure c (c.procedures found) (c.procedures method) ≡ true)
unfolding override_slot
override_slot_lem c method found infinite e = ground arith
override_slot_lem c method found rejected e = ground arith
override_slot_lem c method found (at d) e =
    (ground arith, ground arith, (λ q. ground arith), (λ q. ground arith))

declared :
    (c : Context) (method found : ℕ) (d : Best)
    → (found == method) ≡ false
    → override_fails c method (some found) d ≡ false
    → (c.procedures method).is_override ≡ true
    → (c.procedures found).overridable ≡ true
unfolding override_fails
declared c method found d n e o = ground arith

pub method_at-some :
    (table : Vtable) (slot : Option ℕ) (found : ℕ)
    → method_at table slot ≡ some found
    → (i : ℕ) × (slot ≡ some i) × (get_elem? table i ≡ some (some found))
method_at-some table none found e = absurd (cc)
method_at-some table (some i) found e = elim (Option-cases (get_elem? table i)) [
  | inl n ↦ absurd (ground (arith, n))
  | inr s ↦ (i, refl, ground (arith, s.1))
]

hit_method :
    (c : Context) (table : Vtable) (request : Text) (i found : ℕ) (d : Best)
    → get_elem? table i ≡ some (some found)
    → Hits c table request i d
    → FitsMethod c request d found
hit_method c table request i found d e (m, g, fits) =
    subst (λ k. FitsMethod c request d k) (cc) fits

-- The lookup of a binding, and the method in the slot that it finds.
abbrev Looked : Context → Tables → ℕ → Option ℕ → Best → Type 0
Looked c t method slot d = (i : ℕ) → slot ≡ some i → Hits c t.methods (c.procedures method).id i d

Slot-cases : (v : Slot) → (v ≡ kept) ⊎ (v ≡ overridden) ⊎ (v ≡ conflict)
Slot-cases kept = inl refl
Slot-cases overridden = inr (inl refl)
Slot-cases conflict = inr (inr refl)

-- What a binding keeps: the table has no NULL slot, and it holds one reference for each slot of a
-- method that is not builtin.
abbrev pub Keeps : Context → Tables → Tables → Type 0
Keeps c t u =
    (IsFull t.methods → IsFull u.methods)
    × ((others : ℕ → ℕ)
        → IsHeld c.builtin others t.methods t.references
        → IsHeld c.builtin others u.methods u.references)

added :
    (c : Context) (t u : Tables) (method : ℕ) (found : Option ℕ) (d : Best)
    → set_index c (add_method c.builtin t found d method) method ≡ bound u
    → Rebinds c method t u × Keeps c t u
unfolding add_method
added c t u method found d e =
    let (m, r) = set_index-bound c (add_method c.builtin t found d method) u method e in
    (
      inr m,
      (
        (λ h. rw m (insert-IsFull t.methods method h)),
        λ others h. rw (m, r) (insert-IsHeld c.builtin others t.references t.methods method h),
      ),
    )

replaced :
    (c : Context) (t u : Tables) (method slot found : ℕ)
    → (found == method) ≡ false
    → get_elem? t.methods slot ≡ some (some found)
    → MayOverride c found method
    → set_index c (replace c.builtin t slot found method) method ≡ bound u
    → Rebinds c method t u × Keeps c t u
unfolding replace
replaced c t u method slot found n g may e =
    let (m, r) = set_index-bound c (replace c.builtin t slot found method) u method e in
    (
      inl (slot, found, g, may, m),
      (
        (λ h. rw m (assign-IsFull t.methods slot method h)),
        λ others h.
            rw (m, r)
              (replace-IsHeld c.builtin others t.references t.methods slot found method n g h),
      ),
    )

bind_found-Rebinds :
    (c : Context) (t u : Tables) (method : ℕ) (slot : Option ℕ) (d : Best) (found : Option ℕ)
    → Looked c t method slot d
    → method_at t.methods slot ≡ found
    → override_fails c method found d ≡ false
    → bind_found c t method slot found d ≡ bound u
    → Rebinds c method t u × Keeps c t u
unfolding bind_found
bind_found-Rebinds c t u method slot d none h m o e = added c t u method none d e
bind_found-Rebinds c t u method slot d (some f) h m o e =
    elim (Slot-cases (override_slot c method f d)) [
      | inl q ↦ added c t u method (some f) d (rw (q, bind_found) at e)
      | inr (inl q) ↦
          let (n, z, s, p) = override_slot_lem c method f d q in
          let (i, k, g) = method_at-some t.methods slot f m in
          let fits = hit_method c t.methods (c.procedures method).id i f d g (h i k) in
          replaced c t u method i f n g
            (record {
              fits = subst (λ b. FitsMethod c (c.procedures method).id b f) z fits;
              elsewhere = s;
              compatible = p;
              declared = declared c method f d n o;
            })
            (rw (q, k, bind_found) at e)
      | inr (inr q) ↦ absurd (cc (rw (q, bind_found) at e))
    ]

-- The tests that a successful binding has passed.
tests :
    (c : Context) (is_interface : Bool) (t u : Tables) (method : ℕ)
    → bind_method c is_interface t method ≡ bound u
    → (let (slot, d) = vtable_lookup c t (c.procedures method).id in
        let found = method_at t.methods slot in
        (override_fails c method found d ≡ false) × (bind_found c t method slot found d ≡ bound u))
unfolding bind_method
tests c is_interface t u method e = (ground arith, ground arith)

-- Binding a method that succeeds puts the method in the slot of one that it may override, or inserts
-- it, and does nothing else to the table; afterwards still no slot is NULL if none was, and the table
-- still holds exactly one reference for each of its slots whose method is not builtin.
pub bind_method-Rebinds :
    (c : Context) (is_interface : Bool) (t u : Tables) (method : ℕ)
    → bind_method c is_interface t method ≡ bound u
    → Rebinds c method t u × Keeps c t u
unfolding bind_method
bind_method-Rebinds c is_interface t u method e =
    let (o, b) = tests c is_interface t u method e in
    bind_found-Rebinds c t u method (vtable_lookup c t (c.procedures method).id).0
      (vtable_lookup c t (c.procedures method).id).1
      (method_at t.methods (vtable_lookup c t (c.procedures method).id).0)
      (vtable_lookup-Hits c t (c.procedures method).id) refl o b
