-- ===== src/Values/Parts.antt =====
-- When the comparisons of numbers, bytes, texts and elements come out equal.
use corto.Base.{
  ℕ, ◌≡◌, refl, sym, ap, ◌∙◌, inl, inr, true, Option, none, some, List, [], ◌∷◌, ◌==◌, Text, length,
  arith, Bool-cases,
}
use corto.Base.Int.{ℤ, pos, negsuc}
use corto.Values.{
  Comparison, eq, lt, gt, neq, Shape, array, sequence, list, map, compare_number, compare_bytes,
  compare_text, sign, and_then, compare_each, memory, compare_shapes, compare_collection, same_case,
  compare_lists,
}

pub compare_number_sound : (a b : ℤ) → compare_number a b ≡ eq → a ≡ b
unfolding compare_number
compare_number_sound (pos a) (pos b) e = ap pos (ground arith)
compare_number_sound (pos a) (negsuc b) e = absurd (ground arith)
compare_number_sound (negsuc a) (pos b) e = absurd (ground arith)
compare_number_sound (negsuc a) (negsuc b) e = ap negsuc (ground arith)

pub compare_number_refl : (a : ℤ) → compare_number a a ≡ eq
unfolding compare_number
compare_number_refl a = ground arith

compare_bytes_sound : (a b : List ℕ) → compare_bytes a b ≡ eq → a ≡ b
unfolding compare_bytes
compare_bytes_sound [] [] e = refl
compare_bytes_sound [] (d ∷ ds) e = absurd (cc)
compare_bytes_sound (c ∷ cs) [] e = absurd (cc)
compare_bytes_sound (c ∷ cs) (d ∷ ds) e = ground (arith, compare_bytes_sound cs ds)

compare_bytes_refl : (a : List ℕ) → compare_bytes a a ≡ eq
unfolding compare_bytes
compare_bytes_refl [] = refl
compare_bytes_refl (c ∷ cs) = ground (arith, compare_bytes_refl cs)

-- The characters of a text, if there is one.
abbrev pub content : Option (ℕ × Text) → Option Text
content none = none
content (some (p, a)) = some a

pub compare_text_sound : (a b : Option (ℕ × Text)) → compare_text a b ≡ eq → content a ≡ content b
unfolding compare_text
compare_text_sound none none e = refl
compare_text_sound none (some b) e = absurd (cc)
compare_text_sound (some a) none e = absurd (cc)
compare_text_sound (some (p, a)) (some (q, b)) e = ap some (compare_bytes_sound a b e)

pub compare_text_complete :
    (a b : Option (ℕ × Text)) → content a ≡ content b → compare_text a b ≡ eq
unfolding compare_text
compare_text_complete none none e = refl
compare_text_complete none (some b) e = absurd (cc)
compare_text_complete (some a) none e = absurd (cc)
compare_text_complete (some (p, a)) (some (q, b)) e =
    let same : a ≡ b = cc in ap (compare_bytes a) (sym same) ∙ compare_bytes_refl a

pub same_case_sound : (a b : Option ℕ) → same_case a b ≡ true → a ≡ b
same_case_sound none none e = refl
same_case_sound none (some b) e = absurd (cc)
same_case_sound (some a) none e = absurd (cc)
same_case_sound (some a) (some b) e = ground arith

pub same_case_refl : (a : Option ℕ) → same_case a a ≡ true
same_case_refl none = refl
same_case_refl (some a) = ground arith

pub and_then-parts : (x y : Comparison) → and_then x y ≡ eq → (x ≡ eq) × (y ≡ eq)
and_then-parts eq y e = (refl, e)
and_then-parts lt y e = absurd (cc)
and_then-parts gt y e = absurd (cc)
and_then-parts neq y e = absurd (cc)

sign-eq : (x : Comparison) → sign x ≡ eq → x ≡ eq
sign-eq eq e = refl
sign-eq lt e = absurd (cc)
sign-eq gt e = absurd (cc)
sign-eq neq e = absurd (cc)

-- Two lists of the same length, related element by element.
abbrev pub AllSame : {A : Type 0} → (A → A → Type 0) → List A → List A → Type 0
AllSame R [] [] = Unit
AllSame R [] (y ∷ ys) = ⊥
AllSame R (x ∷ xs) [] = ⊥
AllSame R (x ∷ xs) (y ∷ ys) = R x y × AllSame R xs ys

module _ {A : Type 0} (compare : A → A → Comparison) (bytes : A → List ℕ) (R : A → A → Type 0) where
  -- Collections of one kind that are the same: arrays and sequences have the same memory, lists are
  -- both NULL or both not and their elements are the same, maps have the same size.
  abbrev pub SameElements : Shape → ℕ × List A → ℕ × List A → Type 0
  SameElements array (a, xs) (b, ys) =
      (length xs ≡ length ys) × (memory compare bytes xs ≡ memory compare bytes ys)
  SameElements sequence (a, xs) (b, ys) =
      (length xs ≡ length ys) × (memory compare bytes xs ≡ memory compare bytes ys)
  SameElements list (a, xs) (b, ys) = ((a == 0) ≡ (b == 0)) × AllSame R xs ys
  SameElements map (a, xs) (b, ys) = length xs ≡ length ys

  module _ (sound : (x y : A) → compare x y ≡ eq → R x y) where
    each_sound :
        (xs ys : List A)
        → length xs ≡ length ys
        → compare_each compare bytes xs ys ≡ eq
        → AllSame R xs ys
    unfolding compare_each
    each_sound [] [] l e = tt
    each_sound [] (y ∷ ys) l e = absurd (omega arith)
    each_sound (x ∷ xs) [] l e = absurd (omega arith)
    each_sound (x ∷ xs) (y ∷ ys) l e =
        let (h, k) = and_then-parts (compare x y) (compare_each compare bytes xs ys) e in
        (sound x y h, each_sound xs ys (omega arith) k)

    lists_sound :
        (a b : ℕ) (xs ys : List A)
        → length xs ≡ length ys
        → compare_lists compare bytes (a, xs) (b, ys) ≡ eq
        → ((a == 0) ≡ (b == 0)) × AllSame R xs ys
    unfolding compare_lists
    lists_sound a b xs ys l e = elim (Bool-cases (a == 0)) [
      | inl m ↦ elim (Bool-cases (b == 0)) [
        | inl n ↦ (m ∙ sym n, each_sound xs ys l (rw (m, n, compare_lists) at e))
        | inr n ↦ absurd (cc (rw (m, n, compare_lists) at e))
      ]
      | inr m ↦ elim (Bool-cases (b == 0)) [
        | inl n ↦ absurd (cc (rw (m, n, compare_lists) at e))
        | inr n ↦ (m ∙ sym n, each_sound xs ys l (rw (m, n, compare_lists) at e))
      ]
    ]

    pub collection_sound :
        (s : Shape) (a b : ℕ) (xs ys : List A)
        → compare_collection compare bytes s s (a, xs) (b, ys) ≡ eq
        → SameElements s (a, xs) (b, ys)
    unfolding compare_collection compare_shapes
    collection_sound s a b xs ys e = elim (Bool-cases (length xs == length ys)) [
      | inl q ↦
          shapes s (ground arith)
            (sign-eq (compare_shapes compare bytes s s (a, xs) (b, ys)) (sym (rw q refl) ∙ e))
      | inr q ↦ absurd (ground arith)
    ]
      where
        shapes :
            (s : Shape)
            → length xs ≡ length ys
            → compare_shapes compare bytes s s (a, xs) (b, ys) ≡ eq
            → SameElements s (a, xs) (b, ys)
        shapes array l e =
            (l, compare_bytes_sound (memory compare bytes xs) (memory compare bytes ys) e)
        shapes sequence l e =
            (l, compare_bytes_sound (memory compare bytes xs) (memory compare bytes ys) e)
        shapes list l e = lists_sound a b xs ys l e
        shapes map l e = l

  module _ (complete : (x y : A) → R x y → compare x y ≡ eq) where
    each_complete :
        (xs ys : List A)
        → AllSame R xs ys
        → (length xs ≡ length ys) × (compare_each compare bytes xs ys ≡ eq)
    unfolding compare_each
    each_complete [] [] h = (refl, refl)
    each_complete [] (y ∷ ys) h = absurd h
    each_complete (x ∷ xs) [] h = absurd h
    each_complete (x ∷ xs) (y ∷ ys) h =
        let (l, e) = each_complete xs ys h.1 in (omega arith, rw (complete x y h.0) e)

    lists_complete :
        (a b : ℕ) (xs ys : List A)
        → (a == 0) ≡ (b == 0)
        → AllSame R xs ys
        → (length xs ≡ length ys) × (compare_lists compare bytes (a, xs) (b, ys) ≡ eq)
    unfolding compare_lists
    lists_complete a b xs ys n h =
        let (l, e) = each_complete xs ys h in
        (l, (elim (Bool-cases (b == 0)) [ inl m ↦ rw (n, m) e | inr m ↦ rw (n, m) e ]))

    pub collection_complete :
        (s : Shape) (a b : ℕ) (xs ys : List A)
        → SameElements s (a, xs) (b, ys)
        → compare_collection compare bytes s s (a, xs) (b, ys) ≡ eq
    unfolding compare_collection compare_shapes
    collection_complete s a b xs ys h =
        let (l, e) = shapes s h in
        let q : (length xs == length ys) ≡ true = ground arith in rw (q, e) refl
      where
        shapes :
            (s : Shape)
            → SameElements s (a, xs) (b, ys)
            → (length xs ≡ length ys) × (compare_shapes compare bytes s s (a, xs) (b, ys) ≡ eq)
        shapes array (l, h) = (
          l,
          ap (compare_bytes (memory compare bytes xs)) (sym h)
              ∙ compare_bytes_refl (memory compare bytes xs),
        )
        shapes sequence (l, h) = (
          l,
          ap (compare_bytes (memory compare bytes xs)) (sym h)
              ∙ compare_bytes_refl (memory compare bytes xs),
        )
        shapes list (n, h) = lists_complete a b xs ys n h
        shapes map h = (h, refl)
