-- ===== src/Lang/Methods/Ids.antt =====
-- Method ids: what the id of a method in a table finds there, and in the table of an heir.
use corto.Base.{
  ℕ, zero, suc, ◌+◌, ◌-◌, ◌≡◌, refl, inl, inr, Bool, true, Option, some, List, [], ◌∷◌, leb, arith,
  Bool-cases, get_elem?, length, Text,
}
use corto.Lang.Vtable.{Vtable}
use corto.Lang.Methods.{
  Tables, Context, bound, method_at, vtable_lookup, resolve_method, resolve_method_id,
  resolve_method_by_id, is_rejected, construct_methods,
}
use corto.Lang.Methods.Binding.{method_at-some}
use corto.Lang.Methods.Inheritance.{IsOwn, Overrides, construct_methods-Inherits}

in_range :
    (t : Vtable) (i : ℕ) (m : Option ℕ) → get_elem? t i ≡ some m → leb (i + 1) (length t) ≡ true
in_range [] i m e = absurd (cc)
in_range (x ∷ xs) zero m e = ground arith
in_range (x ∷ xs) (suc i) m e = ground (arith, in_range xs i m e)

at_id :
    (t : Tables) (i m : ℕ)
    → get_elem? t.methods i ≡ some (some m)
    → resolve_method_by_id t (i + 1) ≡ some m
unfolding resolve_method_by_id
at_id t i m e =
    let back : i + 1 - 1 ≡ i = omega arith in
    rw (in_range t.methods i (some m) e, back, method_at, e) refl

resolved :
    (c : Context) (t : Tables) (request : Text) (m : ℕ)
    → resolve_method c t request ≡ some m
    → (i : ℕ) × ((vtable_lookup c t request).0 ≡ some i) × (get_elem? t.methods i ≡ some (some m))
unfolding resolve_method
resolved c t request m e = elim (Bool-cases (is_rejected (vtable_lookup c t request).1)) [
  | inl k ↦ absurd (cc (rw (k, resolve_method) at e))
  | inr k ↦ method_at-some t.methods (vtable_lookup c t request).0 m (rw (k, resolve_method) at e)
]

-- Where a request resolves to a method of an interface, its method id finds the same method there by
-- its number, and finds in the table of an interface that inherits from it the method or its override.
pub resolve_method_id-dispatch :
    (c : Context) (is_interface : Bool) (base t u : Tables) (scope : List (ℕ × Bool))
    (request : Text) (m : ℕ)
    → resolve_method c base request ≡ some m
    → construct_methods c is_interface (some base.methods) scope t ≡ bound u
    → (resolve_method_by_id base (resolve_method_id c base request) ≡ some m)
      × ((k : ℕ) × (resolve_method_by_id u (resolve_method_id c base request) ≡ some k)
          × Overrides c (IsOwn scope) m k)
unfolding resolve_method_id
resolve_method_id-dispatch c b base t u scope request m e h =
    let (i, l, g) = resolved c base request m e in
    let (k, q, o) = construct_methods-Inherits c b base.methods scope t u h i m g in
    let number : resolve_method_id c base request ≡ i + 1 = rw (l, resolve_method_id) refl in
    rw number (at_id base i m g, (k, at_id u i k q, o))
