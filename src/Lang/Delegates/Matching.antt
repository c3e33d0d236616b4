-- ===== src/Lang/Delegates/Matching.antt =====
-- What the two tests of src/lang/delegate.c decide.
use corto.Base.{
  ℕ, ◌≡◌, ◌≢◌, ◌<◌, none, some, ap, refl, ◌↔◌, Bool, true, false, not, ◌&&◌, List, [], ◌∷◌, ◌==◌,
  if◌then◌else◌, length, arith, Bool-cases, inl, inr, ◌∙◌,
}
use corto.Lang.Primitive.{same_flag}
use corto.Lang.Delegates.{
  Parameter, Signature, delegate, call, returned, match_parameter, match_all, delegate_instanceof,
  compare_all, delegate_compatible_v,
}

-- A call may pass what the delegate is given: the same type, and by reference if the delegate has it
-- by reference.
abbrev pub Accepts : Parameter → Parameter → Type 0
Accepts p q = (p.type ≡ q.type) × (p.by_reference ≡ true → q.by_reference ≡ true)

-- Parameter by parameter, as many in the one as in the other.
abbrev pub AcceptsAll : List Parameter → List Parameter → Type 0
AcceptsAll [] [] = Unit
AcceptsAll [] (q ∷ qs) = ⊥
AcceptsAll (p ∷ ps) [] = ⊥
AcceptsAll (p ∷ ps) (q ∷ qs) = Accepts p q × AcceptsAll ps qs

match_sound : (p q : Parameter) → match_parameter p q ≡ true → Accepts p q
unfolding match_parameter
match_sound p q e = (ground arith, λ r. ground arith)

match_complete : (p q : Parameter) → Accepts p q → match_parameter p q ≡ true
unfolding match_parameter
match_complete p q (t, r) = elim (Bool-cases p.by_reference) [
  | inl b ↦ ground (arith, r b)
  | inr b ↦ ground arith
]

refused_stays : (ps qs : List Parameter) → match_all ps qs false ≢ some true
unfolding match_all
refused_stays [] qs e = cc
refused_stays (p ∷ ps) [] e = cc
refused_stays (p ∷ ps) (q ∷ qs) e = ground (arith, refused_stays ps qs)

all_sound :
    (ps qs : List Parameter)
    → length ps ≡ length qs
    → match_all ps qs true ≡ some true
    → AcceptsAll ps qs
unfolding match_all
all_sound [] [] l e = tt
all_sound [] (q ∷ qs) l e = absurd (omega arith)
all_sound (p ∷ ps) [] l e = absurd (omega arith)
all_sound (p ∷ ps) (q ∷ qs) l e = elim (Bool-cases (match_parameter p q)) [
  | inl m ↦ (match_sound p q m, all_sound ps qs (omega arith) (rw (m, match_all) at e))
  | inr m ↦ absurd (refused_stays ps qs (rw (m, match_all) at e))
]

all_complete :
    (ps qs : List Parameter)
    → AcceptsAll ps qs
    → (match_all ps qs true ≡ some true) × (length ps ≡ length qs)
unfolding match_all
all_complete [] [] h = (refl, refl)
all_complete [] (q ∷ qs) h = absurd h
all_complete (p ∷ ps) [] h = absurd h
all_complete (p ∷ ps) (q ∷ qs) h =
    let (a, b) = all_complete ps qs h.1 in (rw (match_complete p q h.0) a, omega arith)

started :
    (l r : Bool) (ps qs : List Parameter)
    → match_all ps qs (if not l then false else if not r then false else true) ≡ some true
    → (l ≡ true) × (r ≡ true) × (match_all ps qs true ≡ some true)
started true true ps qs e = (refl, refl, e)
started true false ps qs e = absurd (refused_stays ps qs e)
started false r ps qs e = absurd (refused_stays ps qs e)

past_end : (ps qs : List Parameter) (b : Bool) → match_all ps qs b ≡ none → length qs < length ps
unfolding match_all
past_end [] qs b e = absurd (cc)
past_end (p ∷ ps) [] b e = omega arith
past_end (p ∷ ps) (q ∷ qs) b e = omega (arith, past_end ps qs _ e)

reads_past : (ps qs : List Parameter) (b : Bool) → length qs < length ps → match_all ps qs b ≡ none
unfolding match_all
reads_past [] qs b l = absurd (omega arith)
reads_past (p ∷ ps) [] b l = refl
reads_past (p ∷ ps) (q ∷ qs) b l = reads_past ps qs _ (omega arith)

same_length : (a b : ℕ) → (a == b) ≡ true → a ≡ b
same_length a b e = ground arith

equal : (a b : ℕ) → a ≡ b → (a == b) ≡ true
equal a b e = ground arith

-- A procedure is found to be an instance of a delegate exactly when it accepts what the delegate is
-- given, the return value included, with as many parameters; and the test reads past the end of the
-- procedure's parameters, through NULL if there are none, exactly when the delegate has more of them.
pub delegate_instanceof_iff :
    (this s : Signature)
    → ((delegate_instanceof this (call s) ≡ some true)
        ↔ (Accepts (returned this) (returned s) × AcceptsAll this.parameters s.parameters))
      × ((delegate_instanceof this (call s) ≡ none)
          ↔ (length s.parameters < length this.parameters))
unfolding delegate_instanceof
delegate_instanceof_iff this s = (
  (sound, complete),
  (past_end this.parameters s.parameters _, reads_past this.parameters s.parameters _),
)
  where
    sound :
        delegate_instanceof this (call s) ≡ some true
        → Accepts (returned this) (returned s) × AcceptsAll this.parameters s.parameters
    sound e =
        let (l, r, m) =
          started (length this.parameters == length s.parameters)
            (match_parameter (returned this) (returned s)) this.parameters s.parameters e in
        (
          match_sound (returned this) (returned s) r,
          all_sound this.parameters s.parameters (same_length _ _ l) m,
        )

    complete :
        (Accepts (returned this) (returned s) × AcceptsAll this.parameters s.parameters)
        → delegate_instanceof this (call s) ≡ some true
    complete (r, a) =
        let (m, l) = all_complete this.parameters s.parameters a in
        rw
          (
            equal (length this.parameters) (length s.parameters) l,
            match_complete (returned this) (returned s) r,
          )
          m

unread :
    (ps qs : List Parameter) → length ps ≡ length qs → (b : Bool) → compare_all ps qs b ≡ some b
unfolding compare_all
unread ps qs l true = refl
unread [] qs l false = refl
unread (p ∷ ps) [] l false = absurd (omega arith)
unread (p ∷ ps) (q ∷ qs) l false = ground (arith, unread ps qs (omega arith) false)

-- Whether a delegate is compatible with another that has as many parameters depends on their return
-- values only: the loop that compares the parameters runs only where the result is FALSE already.
delegate_compatible_lem :
    (this s : Signature)
    → length this.parameters ≡ length s.parameters
    → delegate_compatible_v this (delegate s)
      ≡ some (
          this.return_type == s.return_type && same_flag this.returns_reference s.returns_reference)
unfolding delegate_compatible_v
delegate_compatible_lem this s l = rw (equal (length this.parameters) (length s.parameters) l) (
    unread this.parameters s.parameters l _
    ∙ ap some (
        tests (
          this.return_type == s.return_type
          && same_flag this.returns_reference s.returns_reference)))
  where
    tests : (r : Bool) → (if not r then false else true) ≡ r
    tests true = refl
    tests false = refl
