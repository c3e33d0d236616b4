-- ===== src/Lang/Methods/Compatible.antt =====
-- When a procedure may take the place of another.
use corto.Base.{
  ℕ, suc, ◌≡◌, ◌≢◌, ◌⊎◌, ◌↔◌, refl, inl, inr, Bool, true, false, ◌&&◌, ◌||◌, List, [], ◌∷◌, ◌==◌,
  if◌then◌else◌, arith, Bool-cases, length,
}
use corto.Lang.Primitive.{same_flag}
use corto.Lang.Delegates.{Parameter}
use corto.Lang.Methods.{
  Procedure, Context, check_parameter, check_each, check_parameters, check_procedure, or_void,
}

-- A value passed for the one parameter can be passed for the other: their types are the same or can be
-- cast, and so is their passing, unless the one that is not passed by reference is a reference to void.
abbrev CanPass : Context → Parameter → Parameter → Type 0
CanPass c p q =
    ((p.type ≡ q.type) ⊎ (c.castable p.type q.type ≡ true))
    × ((p.by_reference ≡ q.by_reference)
        ⊎ ((c.is_void_reference p.type ≡ true) × (q.by_reference ≡ true))
        ⊎ ((c.is_void_reference q.type ≡ true) × (p.by_reference ≡ true)))

abbrev pub CanPassAll : Context → List Parameter → List Parameter → Type 0
CanPassAll c [] [] = Unit
CanPassAll c [] (q ∷ qs) = ⊥
CanPassAll c (p ∷ ps) [] = ⊥
CanPassAll c (p ∷ ps) (q ∷ qs) = CanPass c p q × CanPassAll c ps qs

same_flag_iff : (a b : Bool) → (same_flag a b ≡ true) ↔ (a ≡ b)
same_flag_iff true true = ((λ e. refl), λ e. refl)
same_flag_iff true false = ((λ e. cc), λ e. cc)
same_flag_iff false true = ((λ e. cc), λ e. cc)
same_flag_iff false false = ((λ e. refl), λ e. refl)

types_iff : (a b : ℕ) (k : Bool) → ((a == b || k) ≡ true) ↔ ((a ≡ b) ⊎ (k ≡ true))
types_iff a b true = ((λ e. inr refl), λ e. ground arith)
types_iff a b false =
    ((λ e. inl (ground arith)), λ s. elim s [ inl e ↦ ground arith | inr e ↦ absurd (cc) ])

passing_iff :
    (v w a b : Bool)
    → ((same_flag a b || (v && b) || (w && a)) ≡ true)
      ↔ ((a ≡ b) ⊎ ((v ≡ true) × (b ≡ true)) ⊎ ((w ≡ true) × (a ≡ true)))
passing_iff v w true true = ((λ e. inl refl), λ s. refl)
passing_iff v w false false = ((λ e. inl refl), λ s. refl)
passing_iff v w true false = ((λ e. inr (inr (ground arith))), λ s. ground arith)
passing_iff v w false true = ((λ e. inr (inl (ground arith))), λ s. ground arith)

and_iff :
    {P Q : Type 0} (a b : Bool) → ((a ≡ true) ↔ P) → ((b ≡ true) ↔ Q) → ((a && b) ≡ true) ↔ (P × Q)
and_iff true b f g = ((λ e. (f.0 refl, g.0 e)), λ h. g.1 h.1)
and_iff false b f g = ((λ e. absurd (cc)), λ h. f.1 h.0)

check_parameter_iff :
    (c : Context) (p q : Parameter) → (check_parameter c p q ≡ true) ↔ CanPass c p q
unfolding check_parameter
check_parameter_iff c p q =
    and_iff (p.type == q.type || c.castable p.type q.type) _
      (types_iff p.type q.type (c.castable p.type q.type))
      (passing_iff (c.is_void_reference p.type) (c.is_void_reference q.type) p.by_reference
        q.by_reference)

check_each-false : (c : Context) (ps qs : List Parameter) → check_each c ps qs false ≡ false
unfolding check_each
check_each-false c [] qs = refl
check_each-false c (p ∷ ps) [] = refl
check_each-false c (p ∷ ps) (q ∷ qs) = elim (Bool-cases (check_parameter c p q)) [
  | inl e ↦ rw e (check_each-false c ps qs)
  | inr e ↦ rw e (check_each-false c ps qs)
]

check_each_lem :
    (c : Context) (ps qs : List Parameter)
    → ((if length ps == length qs then check_each c ps qs true else false) ≡ true)
      ↔ CanPassAll c ps qs
unfolding check_each
check_each_lem c [] [] = ((λ e. tt), λ h. refl)
check_each_lem c [] (q ∷ qs) = ((λ e. absurd (ground arith)), λ h. absurd h)
check_each_lem c (p ∷ ps) [] = ((λ e. absurd (ground arith)), λ h. absurd h)
check_each_lem c (p ∷ ps) (q ∷ qs) = elim (Bool-cases (check_parameter c p q)) [
  | inl e ↦
      let same : (suc (length ps) == suc (length qs)) ≡ (length ps == length qs) = ground arith in
      rw (e, same)
        (
          (λ h. ((check_parameter_iff c p q).0 e, (check_each_lem c ps qs).0 h)),
          λ h. (check_each_lem c ps qs).1 h.1,
        )
  | inr e ↦
      let wrong : check_each c ps qs false ≡ false = check_each-false c ps qs in
      ((λ h. absurd (ground (arith, wrong))), λ h. absurd (cc ((check_parameter_iff c p q).1 h.0)))
]

-- One procedure may take the place of another exactly when either their return types differ but are
-- compatible, whatever their parameters are, or their return types are the same, the other is
-- overridable, and their parameters are as many and can be passed for one another, each for the one at
-- its place.
pub check_procedure_iff :
    (c : Context) (o p : Procedure)
    → (check_procedure c o p ≡ true) ↔ (
        ((or_void c o.return_type ≢ or_void c p.return_type)
          × (c.compatible (or_void c o.return_type) (or_void c p.return_type) ≡ true))
        ⊎ ((or_void c o.return_type ≡ or_void c p.return_type)
            × (o.overridable ≡ true)
            × CanPassAll c o.parameters p.parameters))
unfolding check_procedure check_parameters
check_procedure_iff c o p = elim (Bool-cases (or_void c o.return_type == or_void c p.return_type)) [
  | inl e ↦ rw e (elim (Bool-cases o.overridable) [
    | inl k ↦ rw k (
      (λ h. inr (ground arith, refl, (check_each_lem c o.parameters p.parameters).0 h)),
      λ s. elim s [
        | inl d ↦ absurd (d.0 (ground arith))
        | inr d ↦ (check_each_lem c o.parameters p.parameters).1 d.2
      ],
    )
    | inr k ↦ rw k (
      (λ h. absurd (cc)),
      λ s. elim s [ inl d ↦ absurd (d.0 (ground arith)) | inr d ↦ absurd (cc) ],
    )
  ])
  | inr e ↦
      rw e ((λ h. inl ((λ q. ground arith), h)), λ s. elim s [ inl d ↦ d.1 | inr d ↦ ground arith ])
]
