-- ===== src/Vstore/Observers/Conditions.antt =====
-- The conditions on an observer, one by one.
use corto.Base.{
  ℕ, zero, suc, ◌≡◌, refl, ap, ◌≢◌, ◌⊎◌, inl, inr, true, ◌==◌, Option, none, some, arith,
  Bool-cases,
}
use corto.Vstore.Observers.{is_or_any, is_other, is_near}

pub typed_sound : (u : Option ℕ) (x : ℕ) → is_or_any u x ≡ true → (u ≡ none) ⊎ (u ≡ some x)
typed_sound none x h = inl refl
typed_sound (some u) x h = inr (ap some (ground arith))

pub typed_complete : (u : Option ℕ) (x : ℕ) → (u ≡ none) ⊎ (u ≡ some x) → is_or_any u x ≡ true
typed_complete none x h = refl
typed_complete (some u) x (inl h) = absurd (cc)
typed_complete (some u) x (inr h) = let same : u ≡ x = cc in ground arith

pub other_sound : (u s : Option ℕ) → is_other u s ≡ true → (u ≡ none) ⊎ (u ≢ s)
other_sound none s h = inl refl
other_sound (some u) none h = inr (λ e. cc)
other_sound (some u) (some s) h = inr (λ e. let same : u ≡ s = cc in ground arith)

pub other_complete : (u s : Option ℕ) → (u ≡ none) ⊎ (u ≢ s) → is_other u s ≡ true
other_complete none s h = refl
other_complete (some u) none h = refl
other_complete (some u) (some s) (inl h) = absurd (cc)
other_complete (some u) (some s) (inr h) = elim (Bool-cases (u == s)) [
  | inl b ↦ absurd (h (ap some (ground arith)))
  | inr b ↦ rw b refl
]

pub near_sound : (d : ℕ) → is_near d ≡ true → d ≡ 0
near_sound zero h = refl
near_sound (suc d) h = absurd (cc)
