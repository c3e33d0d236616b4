-- ===== src/Object/Scopes/Keys.antt =====
-- A scope as a list of ids and objects: what a search, an exchange and a removal do to it.
use corto.Base.{
  ℕ, suc, ◌≡◌, ◌≢◌, refl, sym, ap, ◌∙◌, inl, inr, Bool, true, false, some, [], ◌∷◌, Text, arith,
  Bool-cases, All, All-imp, length, subst, write, ◌==◌,
}
use corto.Object.Scopes.{Scope, find, exchange}

-- No object of the scope satisfies the predicate's opposite.
abbrev pub Objects : (ℕ → Type 0) → Scope → Type 0
Objects P es = All (λ (e : Text × ℕ). P e.1) es

-- No object stands in the scope twice.
abbrev pub IsDistinct : Scope → Type 0
IsDistinct [] = Unit
IsDistinct ((j, o) ∷ es) = Objects (λ x. x ≢ o) es × IsDistinct es

-- What holds of the value written, and of all others, holds everywhere.
pub write-holds {ℓ} :
    {A : Type ℓ} (P : ℕ → A → Type 0) (f : ℕ → A) (p : ℕ) (v : A)
    → P p v
    → ((q : ℕ) → p ≢ q → P q (f q))
    → (q : ℕ) → P q (write f p v q)
write-holds P f p v h k q = elim (Bool-cases (p == q)) [
  | inl e ↦ rw e (subst (λ r. P r v) (same_place p q e) h)
  | inr e ↦ rw e (k q (other_place p q e))
]
  where
    same_place : (p q : ℕ) → (p == q) ≡ true → p ≡ q
    same_place p q e = ground arith

    other_place : (p q : ℕ) → (p == q) ≡ false → p ≢ q
    other_place p q e w = ground arith

module _ (same : Text → Text → Bool) where
  pub find-Objects :
      (P : ℕ → Type 0) (k : Text) (x : ℕ) (es : Scope)
      → find same k es ≡ some x
      → Objects P es
      → P x
  unfolding find
  find-Objects P k x [] e h = absurd (cc)
  find-Objects P k x ((j, o) ∷ es) e h = elim (Bool-cases (same j k)) [
    | inl t ↦ subst P (some-injective o x (rw (t, find) at e)) h.0
    | inr f ↦ find-Objects P k x es (rw (f, find) at e) h.1
  ]
    where
      some-injective : (a b : ℕ) → some a ≡ some b → a ≡ b
      some-injective a b q = cc

  pub exchange-Objects :
      (Q : ℕ → Type 0) (k : Text) (x c : ℕ) (es : Scope)
      → find same k es ≡ some x
      → Objects (λ o. o ≢ x → Q o) es
      → IsDistinct es
      → Q c
      → Objects Q (exchange same k c es)
  unfolding find exchange
  exchange-Objects Q k x c [] e h d q = tt
  exchange-Objects Q k x c ((j, o) ∷ es) e h d q = elim (Bool-cases (same j k)) [
    | inl t ↦
        let found : o ≡ x = found_at o x (rw (t, find) at e) in
        rw t (q, All-imp _ _ es (λ y r. r.1 (λ w. r.0 (w ∙ sym found))) (both es d.0 h.1))
    | inr f ↦
        let there : find same k es ≡ some x = rw (f, find) at e in
        let other : x ≢ o = find-Objects (λ y. y ≢ o) k x es there d.0 in
        rw f (h.0 (λ w. other (sym w)), exchange-Objects Q k x c es there h.1 d.1 q)
  ]
    where
      found_at : (a b : ℕ) → some a ≡ some b → a ≡ b
      found_at a b q = cc

      both :
          (es : Scope)
          → Objects (λ y. y ≢ o) es
          → Objects (λ y. y ≢ x → Q y) es
          → All (λ (e : Text × ℕ). (e.1 ≢ o) × (e.1 ≢ x → Q e.1)) es
      both [] a b = tt
      both (e ∷ es) a b = ((a.0, b.0), both es a.1 b.1)

  pub exchange-IsDistinct :
      (k : Text) (c : ℕ) (es : Scope)
      → Objects (λ o. o ≢ c) es
      → IsDistinct es
      → IsDistinct (exchange same k c es)
  unfolding exchange
  exchange-IsDistinct k c [] a d = tt
  exchange-IsDistinct k c ((j, o) ∷ es) a d = elim (Bool-cases (same j k)) [
    | inl t ↦ rw t (a.1, d.1)
    | inr f ↦ rw f (kept es (λ w. a.0 (sym w)) d.0, exchange-IsDistinct k c es a.1 d.1)
  ]
    where
      kept :
          (es : Scope)
          → c ≢ o
          → Objects (λ y. y ≢ o) es
          → Objects (λ y. y ≢ o) (exchange same k c es)
      kept [] n h = tt
      kept ((i, y) ∷ es) n h = elim (Bool-cases (same i k)) [
        | inl t ↦ rw t (n, h.1)
        | inr f ↦ rw f (h.0, kept es n h.1)
      ]

  pub length-exchange : (k : Text) (c : ℕ) (es : Scope) → length (exchange same k c es) ≡ length es
  unfolding exchange
  length-exchange k c [] = refl
  length-exchange k c ((j, o) ∷ es) = elim (Bool-cases (same j k)) [
    | inl t ↦ rw t refl
    | inr f ↦ rw f (ap suc (length-exchange k c es))
  ]

  pub find-exchange :
      (k : Text) (x c : ℕ) (es : Scope)
      → find same k es ≡ some x
      → find same k (exchange same k c es) ≡ some c
  unfolding find exchange
  find-exchange k x c [] e = absurd (cc)
  find-exchange k x c ((j, o) ∷ es) e = elim (Bool-cases (same j k)) [
    | inl t ↦ rw (t, exchange, find, t) refl
    | inr f ↦ rw (f, exchange, find, f) (find-exchange k x c es (rw (f, find) at e))
  ]
