-- ===== src/Values/Same.antt =====
-- What it means that a comparison of two values comes out equal.
use corto.Base.{
  ℕ, zero, suc, ◌≡◌, refl, sym, ap, ◌∙◌, subst, ◌↔◌, ◌⊎◌, inl, inr, true, false, ◌||◌, Option, none,
  some, arith, Bool-cases, Option-cases,
}
use corto.Base.Int.{ℤ, eqb_ℤ, eqb_ℤ_sound, eqb_ℤ_refl}
use corto.Values.{
  eq, neq, Desc, number, floating, text, reference, no_members, member, union, collection, Val,
  Platform, Visit, every, only, same_case, compare_floating, compare_number, walk_values,
  ptr_compare,
}
use corto.Values.Parts.{
  compare_number_sound, compare_number_refl, compare_text_sound, compare_text_complete, content,
  same_case_sound, same_case_refl, and_then-parts, SameElements, collection_sound,
  collection_complete,
}

-- The case of a union, if there is one.
abbrev InCase : Option ℕ → (ℕ → Type 0) → Type 0
InCase none P = Unit
InCase (some k) P = P k

agree :
    (find_case : ℤ → Option ℕ) (d e : ℤ)
    → (eqb_ℤ d e || same_case (find_case d) (find_case e)) ≡ true
    → (d ≡ e) ⊎ (find_case d ≡ find_case e)
agree find_case d e h = elim (Bool-cases (eqb_ℤ d e)) [
  | inl b ↦ inl (eqb_ℤ_sound d e b)
  | inr b ↦ inr (same_case_sound (find_case d) (find_case e) (sym (rw b refl) ∙ h))
]

agreed :
    (find_case : ℤ → Option ℕ) (d e : ℤ)
    → (d ≡ e) ⊎ (find_case d ≡ find_case e)
    → (eqb_ℤ d e || same_case (find_case d) (find_case e)) ≡ true
agreed find_case d e (inl h) = rw (ap (eqb_ℤ d) (sym h) ∙ eqb_ℤ_refl d) refl
agreed find_case d e (inr h) =
    let same : same_case (find_case d) (find_case e) ≡ true =
      ap (same_case (find_case d)) (sym h) ∙ same_case_refl (find_case d) in
    ground arith

module _ (p : Platform) where
  -- Two values that a comparison takes for the same, member by member of those that it visits.
  abbrev pub IsSame : Visit → (t : Desc) → Val t → Val t → Type 0
  IsSame visit number a b = a ≡ b
  IsSame visit floating a b = (p.less a b ≡ false) × (p.less b a ≡ false)
  IsSame visit text a b = content a ≡ content b
  IsSame visit reference a b = a ≡ b
  IsSame visit no_members a b = Unit
  IsSame every (member shown t rest) (a, v) (b, w) =
      (shown ≡ true → IsSame every t a b) × IsSame every rest v w
  IsSame (only zero) (member shown t rest) (a, v) (b, w) = shown ≡ true → IsSame every t a b
  IsSame (only (suc k)) (member shown t rest) (a, v) (b, w) = IsSame (only k) rest v w
  IsSame visit (union find_case cases) (d, v) (e, w) =
      ((d ≡ e) ⊎ (find_case d ≡ find_case e))
      × InCase (find_case d) (λ k. IsSame (only k) cases v w)
  IsSame visit (collection s t) (a, xs) (b, ys) =
      SameElements (walk_values p every t) (p.bytes t) (IsSame every t) s (a, xs) (b, ys)

  floating_sound :
      (a b : ℕ) → compare_floating p a b ≡ eq → (p.less a b ≡ false) × (p.less b a ≡ false)
  unfolding compare_floating
  floating_sound a b e = ground arith

  floating_complete :
      (a b : ℕ) → (p.less a b ≡ false) × (p.less b a ≡ false) → compare_floating p a b ≡ eq
  unfolding compare_floating
  floating_complete a b (h, k) = rw (h, k) refl

  walk_sound :
      (visit : Visit) (t : Desc) (v w : Val t) → walk_values p visit t v w ≡ eq → IsSame visit t v w
  unfolding walk_values
  walk_sound visit number a b e = compare_number_sound a b e
  walk_sound visit floating a b e = floating_sound a b e
  walk_sound visit text a b e = compare_text_sound a b e
  walk_sound visit reference a b e = ground arith
  walk_sound visit no_members a b e = tt
  walk_sound every (member true t rest) (a, v) (b, w) e =
      let (h, k) = and_then-parts (walk_values p every t a b) (walk_values p every rest v w) e in
      ((λ _. walk_sound every t a b h), walk_sound every rest v w k)
  walk_sound every (member false t rest) (a, v) (b, w) e =
      ((λ q. absurd (cc)), walk_sound every rest v w e)
  walk_sound (only zero) (member true t rest) (a, v) (b, w) e = λ _. walk_sound every t a b e
  walk_sound (only zero) (member false t rest) (a, v) (b, w) e = λ q. absurd (cc)
  walk_sound (only (suc k)) (member shown t rest) (a, v) (b, w) e = walk_sound (only k) rest v w e
  walk_sound visit (union find_case cases) (d, v) (e, w) h =
      elim (Bool-cases (eqb_ℤ d e || same_case (find_case d) (find_case e))) [
        | inr b ↦
            let differ : walk_values p visit (union find_case cases) (d, v) (e, w) ≡ neq =
              rw (walk_values, b) refl in
            absurd (cc)
        | inl b ↦ (
          agree find_case d e b,
          elim (Option-cases (find_case d)) [
            | inl q ↦ rw q tt
            | inr (k, q) ↦
                let inside : walk_values p visit (union find_case cases) (d, v) (e, w)
                    ≡ walk_values p (only k) cases v w =
                  rw (walk_values, b, q) refl in
                rw q (walk_sound (only k) cases v w (sym inside ∙ h))
          ],
        )
      ]
  walk_sound visit (collection s t) (a, xs) (b, ys) e =
      collection_sound (walk_values p every t) (p.bytes t) (IsSame every t) (walk_sound every t) s a
        b xs ys e

  walk_complete :
      (visit : Visit) (t : Desc) (v w : Val t) → IsSame visit t v w → walk_values p visit t v w ≡ eq
  unfolding walk_values
  walk_complete visit number a b e = ap (compare_number a) (sym e) ∙ compare_number_refl a
  walk_complete visit floating a b e = floating_complete a b e
  walk_complete visit text a b e = compare_text_complete a b e
  walk_complete visit reference a b e = ground arith
  walk_complete visit no_members a b e = refl
  walk_complete every (member true t rest) (a, v) (b, w) (h, k) =
      rw (walk_complete every t a b (h refl)) (walk_complete every rest v w k)
  walk_complete every (member false t rest) (a, v) (b, w) (h, k) = walk_complete every rest v w k
  walk_complete (only zero) (member true t rest) (a, v) (b, w) h =
      walk_complete every t a b (h refl)
  walk_complete (only zero) (member false t rest) (a, v) (b, w) h = refl
  walk_complete (only (suc k)) (member shown t rest) (a, v) (b, w) h =
      walk_complete (only k) rest v w h
  walk_complete visit (union find_case cases) (d, v) (e, w) (h, k) =
      elim (Option-cases (find_case d)) [
        | inl q ↦ rw (walk_values, agreed find_case d e h, q) refl
        | inr (j, q) ↦
            rw (walk_values, agreed find_case d e h, q)
              (walk_complete (only j) cases v w
                (subst (λ o. InCase o (λ k. IsSame (only k) cases v w)) q k))
      ]
  walk_complete visit (collection s t) (a, xs) (b, ys) h =
      collection_complete (walk_values p every t) (p.bytes t) (IsSame every t)
        (walk_complete every t) s a b xs ys h

  pub ptr_compare_iff : (t : Desc) (v w : Val t) → (ptr_compare p t v w ≡ eq) ↔ IsSame every t v w
  unfolding ptr_compare
  ptr_compare_iff t v w = (walk_sound every t v w, walk_complete every t v w)
