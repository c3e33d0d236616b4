-- ===== src/Object/Overload/Distance.antt =====
-- Which names fit, and which of two offered parameters is the nearer one.
use corto.Base.{
  ℕ, ◌+◌, ◌<◌, ◌≡◌, ◌≢◌, refl, sym, ap, ◌∙◌, ◌↔◌, ◌⊎◌, inl, inr, Bool, true, false, not, ◌&&◌, ◌||◌,
  some, List, [], ◌∷◌, ◌++◌, ◌==◌, if◌then◌else◌, Text, arith, All, Bool-cases, Option-cases,
}
use corto.Lang.Primitive.{void, composite}
use corto.Object.Sig.RoundTrip.{IsBare}
use corto.Object.Overload.{
  ParamType, Passing, levels, depth, compare_references, compare_rest, param_compare,
  compare_name_loop, compare_name,
}

levels-depth :
    (target address : ℕ) (bases : List ℕ) (d : ℕ)
    → levels target address bases ≡ some d
    → d < depth bases
unfolding levels depth
levels-depth target address [] d e = ground arith
levels-depth target address (b ∷ bs) d e = elim (Bool-cases (address == target)) [
  | inl h ↦ ground arith
  | inr h ↦ elim (Option-cases (levels target b bs)) [
    | inl n ↦ absurd (ground arith)
    | inr (k, n) ↦ ground (arith, levels-depth target b bs k n)
  ]
]

levels-here :
    (target address : ℕ) (bases : List ℕ)
    → (target == address) ≡ true
    → levels target address bases ≡ some 0
unfolding levels
levels-here target address [] h = ground arith
levels-here target address (b ∷ bs) h = ground arith

module _ (compatible : ParamType → ParamType → Bool) (object : ParamType) where
  by_reference :
      (p : Passing)
      → p.offered_reference ≡ true
      → p.reference ≡ true
      → p.null ≡ false
      → compare_references compatible object p ≡ some (if p.force_reference then 0 else 1)
  unfolding compare_references
  by_reference p o r n = ground arith

  chain :
      (o r : ParamType) (p : Passing) (d : ℕ)
      → o.kind ≡ composite
      → r.kind ≡ composite
      → o.valid ≡ true
      → r.valid ≡ true
      → p.null ≡ false
      → levels o.address r.address r.bases ≡ some d
      → compare_rest compatible object o (some r) p ≡ some d
  unfolding compare_rest
  chain o r p d ok rk ov rv n e = elim (Bool-cases (o.address == r.address)) [
    | inl h ↦ rw (ok, rk, n, h) (sym (levels-here o.address r.address r.bases h) ∙ e)
    | inr h ↦ rw (ok, rk, n, h, ov, rv) e
  ]

  generic :
      (g r : ParamType) (p : Passing)
      → g.kind ≡ void
      → r.kind ≡ composite
      → g.valid ≡ true
      → r.valid ≡ true
      → p.null ≡ false
      → p.offered_reference ≡ true
      → (g.address == r.address) ≡ false
      → compare_rest compatible object g (some r) p ≡ some (depth r.bases)
  unfolding compare_rest
  generic g r p gk rk gv rv n o ne = rw (gk, rk, n, ne, gv, rv, o) refl

  -- A call with an object of a class by reference: an offered parameter of the class or of one of its
  -- bases is nearer than one that takes any reference, however many levels up the base is. Both are
  -- references, the types are valid, and the class is not the type of the generic parameter.
  param_compare_favours_class :
      (o g r : ParamType) (p : Passing) (d : ℕ)
      → o.kind ≡ composite
      → g.kind ≡ void
      → r.kind ≡ composite
      → (o.valid && g.valid && r.valid) ≡ true
      → (g.address == r.address) ≡ false
      → (p.offered_reference && p.reference && not p.null && not p.wildcard) ≡ true
      → levels o.address r.address r.bases ≡ some d
      → (x : ℕ) × (y : ℕ) × (param_compare compatible object o (some r) p ≡ some x)
        × (param_compare compatible object g (some r) p ≡ some y)
        × (x < y)
  unfolding param_compare
  param_compare_favours_class o g r p d ok gk rk v ne f e =
      let more : ℕ = if p.force_reference then 0 else 1 in
      let refs = by_reference p (ground arith) (ground arith) (ground arith) in
      let w : p.wildcard ≡ false = ground arith in
      (
        more + d,
        more + depth r.bases,
        rw (w, refs, chain o r p d ok rk (ground arith) (ground arith) (ground arith) e) refl,
        rw
            (
              w,
              refs,
              generic g r p gk rk (ground arith) (ground arith) (ground arith) (ground arith) ne,
            )
            refl,
        omega (arith, levels-depth o.address r.address r.bases d e),
      )

abbrev nothing : Text
nothing = []

module _ (tolower : ℕ → ℕ) where
  -- The same characters up to the case.
  abbrev SameName : Text → Text → Type 0
  SameName [] [] = Unit
  SameName [] (d ∷ ds) = ⊥
  SameName (c ∷ cs) [] = ⊥
  SameName (c ∷ cs) (d ∷ ds) = (tolower c ≡ tolower d) × SameName cs ds

  -- Both texts are calls, of names that are the same up to the case.
  abbrev AreCalls : Text → Text → Type 0
  AreCalls os rs =
      (n : Text) × (m : Text) × (a : Text) × (b : Text) × (os ≡ n ++ b'(' ∷ a)
      × (rs ≡ m ++ b'(' ∷ b)
      × IsBare n
      × IsBare m
      × SameName n m

  AreCalls-cons :
      (o r : ℕ) (os rs : Text)
      → (o == b'(') ≡ false
      → (r == b'(') ≡ false
      → tolower o ≡ tolower r
      → AreCalls os rs
      → AreCalls (o ∷ os) (r ∷ rs)
  AreCalls-cons o r os rs h k e (n, m, a, b, p, q, bn, bm, s) =
      (o ∷ n, r ∷ m, a, b, ap (λ t. o ∷ t) p, ap (λ t. r ∷ t) q, (h, bn), (k, bm), (e, s))

  module _ (nul : (c : ℕ) → tolower c ≡ 0 → c ≡ 0) where
    loop_sound :
        (os rs : Text) (r_ch : ℕ)
        → All (λ c. c ≢ 0) os
        → All (λ c. c ≢ 0) rs
        → r_ch ≢ 0
        → compare_name_loop tolower os rs r_ch ≡ true
        → AreCalls os rs
    unfolding compare_name_loop
    loop_sound [] rs r_ch h k nz e = absurd (ground arith)
    loop_sound (o ∷ os) [] r_ch h k nz e = absurd (h.0 (ground arith))
    loop_sound (o ∷ os) (r ∷ rs) r_ch h k nz e = elim (Bool-cases (o == b'(' || r == b'(')) [
      | inl c ↦ (
        [],
        [],
        os,
        rs,
        ap (λ t. t ∷ os) (ground arith),
        ap (λ t. t ∷ rs) (ground arith),
        tt,
        tt,
        tt,
      )
      | inr c ↦ elim (Bool-cases (tolower o == tolower r)) [
        | inl l ↦
            AreCalls-cons o r os rs (ground arith) (ground arith) (ground arith)
              (loop_sound os rs (tolower r) h.1 k.1 (λ z. k.0 (nul r z)) (ground arith))
        | inr l ↦ absurd (ground arith)
      ]
    ]

    loop_complete :
        (n m a b : Text) (r_ch : ℕ)
        → IsBare n
        → IsBare m
        → SameName n m
        → compare_name_loop tolower (n ++ b'(' ∷ a) (m ++ b'(' ∷ b) r_ch ≡ true
    unfolding compare_name_loop
    loop_complete [] [] a b r_ch h k s = refl
    loop_complete [] (d ∷ ds) a b r_ch h k s = absurd s
    loop_complete (c ∷ cs) [] a b r_ch h k s = absurd s
    loop_complete (c ∷ cs) (d ∷ ds) a b r_ch h k s =
        ground (arith, loop_complete cs ds a b (tolower d) h.1 k.1 s.1)

    -- An offered name fits a requested one exactly when both have an argument list and what stands
    -- before it is the same up to the case, or when both are empty: a name without argument list fits
    -- none, not even itself. `tolower` gives no terminator for another character, and the texts have
    -- none.
    pub compare_name_iff :
        (os rs : Text)
        → All (λ c. c ≢ 0) os
        → All (λ c. c ≢ 0) rs
        → (compare_name tolower os rs ≡ true) ↔ (AreCalls os rs ⊎ ((os ≡ []) × (rs ≡ [])))
    unfolding compare_name
    compare_name_iff [] [] h k = ((λ e. inr (refl, refl)), λ e. refl)
    compare_name_iff (o ∷ os) [] h k =
        ((λ e. absurd (h.0 (ground arith))), λ e. absurd (not_empty e))
      where
        not_empty : AreCalls (o ∷ os) [] ⊎ ((o ∷ os ≡ []) × (nothing ≡ [])) → ⊥
        not_empty (inl (n, [], a, b, p, q, bn, bm, s)) = cc
        not_empty (inl (n, c ∷ m, a, b, p, q, bn, bm, s)) = cc
        not_empty (inr (p, q)) = cc
    compare_name_iff os (r ∷ rs) h k = ((λ e. inl (loop_sound os (r ∷ rs) r h k k.0 e)), complete)
      where
        complete :
            AreCalls os (r ∷ rs) ⊎ ((os ≡ []) × (r ∷ rs ≡ []))
            → compare_name tolower os (r ∷ rs) ≡ true
        complete (inl (n, m, a, b, p, q, bn, bm, s)) = rw (p, q) (loop_complete n m a b r bn bm s)
        complete (inr (p, q)) = cc
