-- ===== src/Lang/Vtable/Slots.antt =====
-- What an insertion does to the slots of a table of methods.
use corto.Base.{
  ℕ, zero, suc, ◌≡◌, refl, sym, ◌∙◌, ap, inl, inr, true, false, ◌||◌, none, some, [], ◌∷◌, ◌==◌,
  arith, Bool-cases, get_elem?,
}
use corto.Lang.Vtable.{Vtable, contains, put, vtable_insert}

-- No method stands in two slots.
abbrev pub IsDistinct : Vtable → Type 0
IsDistinct [] = Unit
IsDistinct (none ∷ slots) = IsDistinct slots
IsDistinct (some m ∷ slots) = (contains m slots ≡ false) × IsDistinct slots

-- The method ids, which are slot numbers, of the one table hold in the other.
abbrev pub Extends : Vtable → Vtable → Type 0
Extends old new = (i m : ℕ) → get_elem? old i ≡ some (some m) → get_elem? new i ≡ some (some m)

put-contains :
    (method other : ℕ) (v : Vtable)
    → contains other (put method v) ≡ (method == other || contains other v)
unfolding contains put
put-contains method other [] = refl
put-contains method other (none ∷ slots) = refl
put-contains method other (some m ∷ slots) = ground (arith, put-contains method other slots)

pub put-Extends : (method : ℕ) (v : Vtable) → Extends v (put method v)
unfolding put
put-Extends method [] i m e = absurd (cc)
put-Extends method (none ∷ slots) zero m e = absurd (cc)
put-Extends method (none ∷ slots) (suc i) m e = e
put-Extends method (some k ∷ slots) zero m e = e
put-Extends method (some k ∷ slots) (suc i) m e = put-Extends method slots i m e

put-IsDistinct :
    (method : ℕ) (v : Vtable) → contains method v ≡ false → IsDistinct v → IsDistinct (put method v)
unfolding contains put
put-IsDistinct method [] c h = (refl, tt)
put-IsDistinct method (none ∷ slots) c h = (c, h)
put-IsDistinct method (some k ∷ slots) c h = (
  put-contains method k slots ∙ ground (arith, h.0),
  put-IsDistinct method slots (ground arith) h.1,
)

same : (a b : ℕ) → (a == b) ≡ true → a ≡ b
same a b e = ground arith

self : (m : ℕ) → (m == m) ≡ true
self m = ground arith

-- Inserting a method into a table with no method twice: afterwards the method is there, still none
-- is there twice, every method has kept its slot, no other method was added, and the result tells
-- whether the method was new.
vtable_insert_lem :
    (v : Vtable) (method : ℕ)
    → IsDistinct v
    → (let (w, added) = vtable_insert v method in
        (contains method w ≡ true)
        × IsDistinct w
        × Extends v w
        × ((other : ℕ) → contains other w ≡ (method == other || contains other v))
        × (added ≡ true → contains method v ≡ false)
        × (added ≡ false → w ≡ v))
unfolding vtable_insert
vtable_insert_lem v method h = elim (Bool-cases (contains method v)) [
  | inl c ↦ rw c (c, h, (λ i m e. e), (λ other. present other c), (λ e. cc), λ _. refl)
  | inr c ↦ rw c (
    put-contains method method v ∙ rw (self method) refl,
    put-IsDistinct method v c h,
    put-Extends method v,
    (λ other. put-contains method other v),
    (λ _. refl),
    λ e. cc,
  )
]
  where
    present :
        (other : ℕ)
        → contains method v ≡ true
        → contains other v ≡ (method == other || contains other v)
    present other c = elim (Bool-cases (method == other)) [
      | inl e ↦ rw e (ap (λ k. contains k v) (sym (same method other e)) ∙ c)
      | inr e ↦ rw e refl
    ]
