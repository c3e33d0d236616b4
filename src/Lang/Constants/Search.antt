-- ===== src/Lang/Constants/Search.antt =====
-- What the searches of src/lang/enum.c and src/lang/union.c find.
use corto.Base.{
  ◌≡◌, ◌≢◌, refl, sym, ◌∙◌, ap, ◌↔◌, inl, inr, true, false, Option, none, some, List, [], ◌∷◌, ◌++◌,
  if◌then◌else◌, arith, Bool-cases, All,
}
use corto.Base.Int.{ℤ, eqb_ℤ, eqb_ℤ_sound, eqb_ℤ_refl}
use corto.Lang.Constants.{
  Constant, constant_from_value, Case, lists, is_default, case_loop, find_case,
}

-- The constant is the first one with the value.
abbrev IsFirst : List Constant → ℤ → Constant → Type 0
IsFirst cs value c =
    (c.value ≡ value)
    × ((before : List Constant) × (behind : List Constant) × (cs ≡ before ++ c ∷ behind)
        × All (λ b. b.value ≢ value) before)

IsFirst-sound :
    (cs : List Constant) (value : ℤ) (c : Constant)
    → constant_from_value cs value ≡ some c
    → IsFirst cs value c
unfolding constant_from_value
IsFirst-sound [] value c e = absurd (cc)
IsFirst-sound (b ∷ cs) value c e = elim (Bool-cases (eqb_ℤ b.value value)) [
  | inl h ↦
      let same : b ≡ c = ground arith in
      (
        sym (ap (λ (k : Constant). k.value) same) ∙ eqb_ℤ_sound b.value value h,
        ([], cs, ap (λ k. k ∷ cs) same, tt),
      )
  | inr h ↦
      let (v, (before, behind, p, q)) = IsFirst-sound cs value c (ground arith) in
      (v, (b ∷ before, behind, ap (λ t. b ∷ t) p, ((λ k. no_value b.value value h k), q)))
]
  where
    no_value : (a k : ℤ) → eqb_ℤ a k ≡ false → a ≡ k → ⊥
    no_value a k h p = cc (h, p, eqb_ℤ_refl k)

first_complete :
    (before behind : List Constant) (value : ℤ) (c : Constant)
    → c.value ≡ value
    → All (λ b. b.value ≢ value) before
    → constant_from_value (before ++ c ∷ behind) value ≡ some c
unfolding constant_from_value
first_complete [] behind value c v h = rw (v, eqb_ℤ_refl value) refl
first_complete (b ∷ before) behind value c v h = elim (Bool-cases (eqb_ℤ b.value value)) [
  | inl e ↦ absurd (h.0 (eqb_ℤ_sound b.value value e))
  | inr e ↦ rw e (first_complete before behind value c v h.1)
]

-- Looking up a constant by its value gives a constant exactly when that is the first of the type's
-- constants with the value.
constant_from_value_iff :
    (cs : List Constant) (value : ℤ) (c : Constant)
    → (constant_from_value cs value ≡ some c) ↔ IsFirst cs value c
constant_from_value_iff cs value c = (IsFirst-sound cs value c, found)
  where
    found : IsFirst cs value c → constant_from_value cs value ≡ some c
    found (v, (before, behind, p, h)) =
        ap (λ t. constant_from_value t value) p ∙ first_complete before behind value c v h

-- The first case that lists the discriminator.
abbrev first_listing : ℤ → List Case → Option Case
first_listing d [] = none
first_listing d (c ∷ cs) = if lists d c.discriminator then some c else first_listing d cs

-- The last case with no discriminators, or the one that is given.
abbrev last_default : Option Case → List Case → Option Case
last_default c [] = c
last_default c (k ∷ ks) = last_default (if is_default k then some k else c) ks

-- The first, or the second if the first is none.
abbrev or_else : Option Case → Option Case → Option Case
or_else none b = b
or_else (some a) b = some a

default_lists : (d : ℤ) (c : Case) → is_default c ≡ true → lists d c.discriminator ≡ false
unfolding lists
default_lists d c h = go c.discriminator h
  where
    go : (ds : List ℤ) → (elim ds [ [] ↦ true | _ ∷ _ ↦ false ]) ≡ true → lists d ds ≡ false
    go [] h = refl
    go (e ∷ es) h = absurd (cc)

case_loop_lem :
    (d : ℤ) (member : Option Case) (cs : List Case)
    → case_loop d member cs ≡ or_else (first_listing d cs) (last_default member cs)
unfolding case_loop
case_loop_lem d member [] = refl
case_loop_lem d member (c ∷ cs) = elim (Bool-cases (is_default c)) [
  | inl h ↦ rw (h, default_lists d c h) (case_loop_lem d (some c) cs)
  | inr h ↦ elim (Bool-cases (lists d c.discriminator)) [
    | inl e ↦ rw (h, e) refl
    | inr e ↦ rw (h, e) (case_loop_lem d member cs)
  ]
]

-- A union's discriminator selects the first case that lists it and, if none does, the last case
-- without discriminators, if there is one.
find_case_lem :
    (cases : List Case) (d : ℤ)
    → find_case cases d ≡ or_else (first_listing d cases) (last_default none cases)
unfolding find_case
find_case_lem cases d = case_loop_lem d none cases
