-- ===== src/Lang/Methods/Inheritance.antt =====
-- What an interface has of its base, and of its own scope, once its methods are bound.
use corto.Base.{
  ℕ, zero, suc, ◌≡◌, ◌⊎◌, refl, sym, ◌∙◌, inl, inr, Bool, true, false, Option, none, some, List, [],
  ◌∷◌, ◌==◌, arith, Bool-cases, get_elem?, subst, All, Any,
}
use corto.Lang.Vtable.{Vtable, contains, put, vtable_insert}
use corto.Lang.Vtable.Slots.{Extends, put-Extends}
use corto.Lang.Methods.{
  Tables, Context, Bound, bound, error, aborted, bind_method, walk_scope, vtable_from_base,
  construct_methods, assign, claim_slots,
}
use corto.Lang.Methods.Slots.{IsFull, IsHeld, assign-get_elem?, claim_slots_lem}
use corto.Lang.Methods.Binding.{MayOverride, Rebinds, Keeps, bind_method-Rebinds}

-- The second method has come in the place of the first, by overrides one after the other, each by a
-- method of the kind that P names.
pub data Overrides (c : Context) (P : ℕ → Type 0) (m : ℕ) : ℕ → Type 0 where
  same : Overrides c P m m
  by : {k : ℕ} → Overrides c P m k → (l : ℕ) → P l → MayOverride c k l → Overrides c P m l

-- The slots of the one table hold, in the other, the same methods or their overrides.
abbrev Inherits : Context → (ℕ → Type 0) → Vtable → Vtable → Type 0
Inherits c P old new =
    (i m : ℕ)
    → get_elem? old i ≡ some (some m)
    → (k : ℕ) × (get_elem? new i ≡ some (some k)) × Overrides c P m k

-- The method stands in the table.
abbrev pub IsIn : ℕ → Vtable → Type 0
IsIn m table = (i : ℕ) × (get_elem? table i ≡ some (some m))

insert-Extends : (t : Vtable) (method : ℕ) → Extends t (vtable_insert t method).0
unfolding vtable_insert
insert-Extends t method i m e = elim (Bool-cases (contains method t)) [
  | inl k ↦ rw k e
  | inr k ↦ rw k (put-Extends method t i m e)
]

put-IsIn : (method : ℕ) (t : Vtable) → IsIn method (put method t)
unfolding put
put-IsIn method [] = (0, refl)
put-IsIn method (none ∷ slots) = (0, refl)
put-IsIn method (some m ∷ slots) = let (i, e) = put-IsIn method slots in (suc i, e)

contains-IsIn : (method : ℕ) (t : Vtable) → contains method t ≡ true → IsIn method t
unfolding contains
contains-IsIn method [] e = absurd (cc)
contains-IsIn method (none ∷ slots) e = let (i, q) = contains-IsIn method slots e in (suc i, q)
contains-IsIn method (some m ∷ slots) e = elim (Bool-cases (m == method)) [
  | inl k ↦ (0, ground arith)
  | inr k ↦ let (i, q) = contains-IsIn method slots (ground arith) in (suc i, q)
]

insert-IsIn : (t : Vtable) (method : ℕ) → IsIn method (vtable_insert t method).0
unfolding vtable_insert
insert-IsIn t method = elim (Bool-cases (contains method t)) [
  | inl k ↦ rw k (contains-IsIn method t k)
  | inr k ↦ rw k (put-IsIn method t)
]

assign_self :
    (t : Vtable) (slot method : ℕ) (f : Option ℕ)
    → get_elem? t slot ≡ some f
    → get_elem? (assign t slot method) slot ≡ some (some method)
unfolding assign
assign_self [] slot method f e = absurd (cc)
assign_self (x ∷ xs) zero method f e = refl
assign_self (x ∷ xs) (suc slot) method f e = assign_self xs slot method f e

Rebinds-IsIn :
    (c : Context) (t u : Tables) (method : ℕ) → Rebinds c method t u → IsIn method u.methods
Rebinds-IsIn c t u method (inl (slot, found, g, may, m)) =
    (slot, rw m (assign_self t.methods slot method (some found) g))
Rebinds-IsIn c t u method (inr m) = rw m (insert-IsIn t.methods method)

Rebinds-Inherits :
    (c : Context) (P : ℕ → Type 0) (old : Vtable) (t u : Tables) (method : ℕ)
    → P method
    → Rebinds c method t u
    → Inherits c P old t.methods
    → Inherits c P old u.methods
Rebinds-Inherits c P old t u method p (inl (slot, found, g, may, m)) h i a e =
    let (k, q, o) = h i a e in
    elim (assign-get_elem? t.methods slot found method i k g q) [
      | inl (s, r) ↦
          (method, rw m r, by o method p (subst (λ n. MayOverride c n method) (sym s) may))
      | inr r ↦ (k, rw m r, o)
    ]
Rebinds-Inherits c P old t u method p (inr m) h i a e =
    let (k, q, o) = h i a e in (k, rw m (insert-Extends t.methods method i k q), o)

-- A method of the same scope keeps its slot.
Rebinds-keeps :
    (c : Context) (t u : Tables) (method m : ℕ)
    → (c.procedures m).scope ≡ (c.procedures method).scope
    → Rebinds c method t u
    → IsIn m t.methods
    → IsIn m u.methods
Rebinds-keeps c t u method m s (inl (slot, found, g, may, q)) (i, e) =
    elim (assign-get_elem? t.methods slot found method i m g e) [
      | inl (k, r) ↦
          absurd
            (may.elsewhere (subst (λ n. (c.procedures n).scope ≡ (c.procedures method).scope) k s))
      | inr r ↦ (i, rw q r)
    ]
Rebinds-keeps c t u method m s (inr q) (i, e) = (i, rw q (insert-Extends t.methods method i m e))

Bound-cases : (r : Bound) → ((u : Tables) × (r ≡ bound u)) ⊎ (r ≡ error) ⊎ (r ≡ aborted)
Bound-cases (bound u) = inl (u, refl)
Bound-cases error = inr (inl refl)
Bound-cases aborted = inr (inr refl)

-- What every successful binding of a method in the scope keeps, the whole walk keeps.
walk_scope-keeps :
    (c : Context) (is_interface : Bool) (P : ℕ → Type 0) (Q : Tables → Type 0)
    → ((t u : Tables) (m : ℕ) → P m → Rebinds c m t u → Keeps c t u → Q t → Q u)
    → (scope : List (ℕ × Bool)) (t u : Tables) → All (λ o. o.1 ≡ true → P o.0) scope
    → walk_scope c is_interface scope t ≡ bound u
    → Q t
    → Q u
unfolding walk_scope
walk_scope-keeps c b P Q step [] t u ps e q = subst Q (bound-injective t u e) q
  where
    bound-injective : (t u : Tables) → bound t ≡ bound u → t ≡ u
    bound-injective t u e = cc
walk_scope-keeps c b P Q step ((o, false) ∷ os) t u ps e q =
    walk_scope-keeps c b P Q step os t u ps.1 e q
walk_scope-keeps c b P Q step ((o, true) ∷ os) t u ps e q =
    elim (Bound-cases (bind_method c b t o)) [
      | inl (v, k) ↦
          let (rebinds, keeps) = bind_method-Rebinds c b t v o k in
          walk_scope-keeps c b P Q step os v u ps.1 (rw (k, walk_scope) at e)
            (step t v o (ps.0 refl) rebinds keeps q)
      | inr (inl k) ↦ absurd (cc (rw (k, walk_scope) at e))
      | inr (inr k) ↦ absurd (cc (rw (k, walk_scope) at e))
    ]

-- The methods of a scope.
abbrev pub IsOwn : List (ℕ × Bool) → ℕ → Type 0
IsOwn scope m = Any (λ (o : ℕ × Bool). (o.0 ≡ m) × (o.1 ≡ true)) scope

own-All :
    (P : ℕ → Type 0) (scope : List (ℕ × Bool))
    → ((m : ℕ) → IsOwn scope m → P m)
    → All (λ (o : ℕ × Bool). o.1 ≡ true → P o.0) scope
own-All P [] h = tt
own-All P ((o, b) ∷ os) h = ((λ e. h o (inl (refl, e))), own-All P os (λ m k. h m (inr k)))

walk_scope-IsIn :
    (c : Context) (b : Bool) (scope : List (ℕ × Bool)) (t u : Tables) (parent : ℕ)
    → All (λ (o : ℕ × Bool). o.1 ≡ true → (c.procedures o.0).scope ≡ parent) scope
    → walk_scope c b scope t ≡ bound u
    → (m : ℕ) → IsOwn scope m
    → IsIn m u.methods
unfolding walk_scope
walk_scope-IsIn c b [] t u parent ps e m o = absurd o
walk_scope-IsIn c b ((o, false) ∷ os) t u parent ps e m (inl (k, l)) = absurd (cc)
walk_scope-IsIn c b ((o, false) ∷ os) t u parent ps e m (inr k) =
    walk_scope-IsIn c b os t u parent ps.1 e m k
walk_scope-IsIn c b ((o, true) ∷ os) t u parent ps e m own =
    elim (Bound-cases (bind_method c b t o)) [
      | inl (v, k) ↦
          let rest : walk_scope c b os v ≡ bound u = rw (k, walk_scope) at e in
          elim own [
            | inl (s, l) ↦
                walk_scope-keeps c b (λ n. (c.procedures n).scope ≡ parent) (λ w. IsIn m w.methods)
                  (λ w x n p r kp i.
                    Rebinds-keeps c w x n m
                      (subst (λ a. (c.procedures a).scope ≡ parent) s (ps.0 refl) ∙ sym p) r i)
                  os v u ps.1 rest
                  (subst (λ a. IsIn a v.methods) s
                    (Rebinds-IsIn c t v o (bind_method-Rebinds c b t v o k).0))
            | inr further ↦ walk_scope-IsIn c b os v u parent ps.1 rest m further
          ]
      | inr (inl k) ↦ absurd (cc (rw (k, walk_scope) at e))
      | inr (inr k) ↦ absurd (cc (rw (k, walk_scope) at e))
    ]

-- Once the methods of an interface are bound, each slot of the table of its base holds the same method
-- as there, or one of the interface's own methods that has come in its place by overrides, each allowed
-- by the one before it; so what a method id of the base finds is the base's method or its override.
pub construct_methods-Inherits :
    (c : Context) (is_interface : Bool) (base : Vtable) (scope : List (ℕ × Bool)) (t u : Tables)
    → construct_methods c is_interface (some base) scope t ≡ bound u
    → Inherits c (IsOwn scope) base u.methods
unfolding construct_methods vtable_from_base
construct_methods-Inherits c b base scope t u e =
    walk_scope-keeps c b (IsOwn scope) (λ v. Inherits c (IsOwn scope) base v.methods)
      (λ v w m p r k h. Rebinds-Inherits c (IsOwn scope) base v w m p r h) scope
      (record t { methods = base; references = claim_slots c.builtin base t.references }) u
      (own-All (IsOwn scope) scope (λ m o. o)) e (λ i m g. (m, g, same))

-- Once the methods of an interface that has a base are bound, no slot of its table is NULL if none is in
-- the base's; and of each method that is not builtin there is one more reference than before for each
-- slot that holds it, while those that are builtin are not counted.
pub construct_methods-IsHeld :
    (c : Context) (is_interface : Bool) (base : Vtable) (scope : List (ℕ × Bool)) (t u : Tables)
    → IsFull base
    → construct_methods c is_interface (some base) scope t ≡ bound u
    → IsFull u.methods × IsHeld c.builtin t.references u.methods u.references
unfolding construct_methods vtable_from_base
construct_methods-IsHeld c b base scope t u f e =
    walk_scope-keeps c b (λ m. Unit)
      (λ v. IsFull v.methods × IsHeld c.builtin t.references v.methods v.references)
      (λ v w m p r k h. (k.0 h.0, k.1 t.references h.1)) scope
      (record t { methods = base; references = claim_slots c.builtin base t.references }) u
      (own-All (λ m. Unit) scope (λ m o. tt)) e (f, claim_slots_lem c.builtin base t.references)

-- Every method of the scope is in the table once the methods are bound, provided that they all stand in
-- one scope.
pub construct_methods-IsIn :
    (c : Context) (is_interface : Bool) (base : Option Vtable) (scope : List (ℕ × Bool))
    (t u : Tables) (parent : ℕ)
    → ((m : ℕ) → IsOwn scope m → (c.procedures m).scope ≡ parent)
    → construct_methods c is_interface base scope t ≡ bound u
    → (m : ℕ) → IsOwn scope m
    → IsIn m u.methods
unfolding construct_methods
construct_methods-IsIn c b base scope t u parent h e m o =
    let (table, references) = vtable_from_base c.builtin base t.references in
    walk_scope-IsIn c b scope (record t { methods = table; references = references }) u parent
      (own-All (λ k. (c.procedures k).scope ≡ parent) scope h) e m o
