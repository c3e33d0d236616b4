-- ===== src/Values/Turned.antt =====
-- The comparisons of numbers, bytes, texts and elements when the operands change places.
use corto.Base.{ℕ, ◌≡◌, ◌≢◌, refl, ap, ◌∙◌, Option, none, some, List, [], ◌∷◌, Text, arith}
use corto.Base.Int.{ℤ}
use corto.Values.{
  Comparison, eq, lt, gt, neq, Shape, sign, and_then, compare_collection, compare_shapes,
  compare_each, compare_lists, compare_number, compare_bytes, compare_text,
}

abbrev pub mirror : Comparison → Comparison
mirror eq = eq
mirror lt = gt
mirror gt = lt
mirror neq = neq

pub number_mirror : (a b : ℤ) → compare_number b a ≡ mirror (compare_number a b)
unfolding compare_number
number_mirror a b = ground arith

pub bytes_mirror : (a b : List ℕ) → compare_bytes b a ≡ mirror (compare_bytes a b)
unfolding compare_bytes
bytes_mirror [] [] = refl
bytes_mirror [] (d ∷ ds) = refl
bytes_mirror (c ∷ cs) [] = refl
bytes_mirror (c ∷ cs) (d ∷ ds) = ground (arith, bytes_mirror cs ds)

pub text_mirror : (a b : Option (ℕ × Text)) → compare_text b a ≡ mirror (compare_text a b)
unfolding compare_text
text_mirror none none = refl
text_mirror none (some b) = refl
text_mirror (some a) none = refl
text_mirror (some (p, a)) (some (q, b)) = bytes_mirror a b

pub and_then-mirror : (x y : Comparison) → and_then (mirror x) (mirror y) ≡ mirror (and_then x y)
and_then-mirror eq y = refl
and_then-mirror lt y = refl
and_then-mirror gt y = refl
and_then-mirror neq y = refl

sign-mirror : (x : Comparison) → x ≢ neq → sign (mirror x) ≡ mirror (sign x)
sign-mirror eq h = refl
sign-mirror lt h = refl
sign-mirror gt h = refl
sign-mirror neq h = absurd (h refl)

pub and_then-never : (x y : Comparison) → x ≢ neq → y ≢ neq → and_then x y ≢ neq
and_then-never eq y h k = k
and_then-never lt y h k = cc
and_then-never gt y h k = cc
and_then-never neq y h k = λ _. h refl

pub bytes_never : (a b : List ℕ) → compare_bytes a b ≢ neq
unfolding compare_bytes
bytes_never [] [] e = cc
bytes_never [] (d ∷ ds) e = cc
bytes_never (c ∷ cs) [] e = cc
bytes_never (c ∷ cs) (d ∷ ds) e = ground (arith, bytes_never cs ds)

module _ {A : Type 0} (compare : A → A → Comparison) (bytes : A → List ℕ) where
  each_mirror :
      ((x y : A) → compare y x ≡ mirror (compare x y))
      → (xs ys : List A)
      → compare_each compare bytes ys xs ≡ mirror (compare_each compare bytes xs ys)
  unfolding compare_each
  each_mirror m [] [] = refl
  each_mirror m [] (y ∷ ys) = refl
  each_mirror m (x ∷ xs) [] = refl
  each_mirror m (x ∷ xs) (y ∷ ys) =
      rw (m x y, each_mirror m xs ys)
        (and_then-mirror (compare x y) (compare_each compare bytes xs ys))

  each_never :
      ((x y : A) → compare x y ≢ neq) → (xs ys : List A) → compare_each compare bytes xs ys ≢ neq
  unfolding compare_each
  each_never h [] ys = cc
  each_never h (x ∷ xs) [] = cc
  each_never h (x ∷ xs) (y ∷ ys) =
      and_then-never (compare x y) (compare_each compare bytes xs ys) (h x y) (each_never h xs ys)

  pub lists_mirror :
      ((x y : A) → compare y x ≡ mirror (compare x y))
      → (a b : ℕ) (xs ys : List A)
      → compare_lists compare bytes (b, ys) (a, xs)
        ≡ mirror (compare_lists compare bytes (a, xs) (b, ys))
  unfolding compare_lists
  lists_mirror m a b xs ys = ground (arith, each_mirror m xs ys)

  pub lists_never :
      ((x y : A) → compare x y ≢ neq)
      → (a b : ℕ) (xs ys : List A) → compare_lists compare bytes (a, xs) (b, ys) ≢ neq
  unfolding compare_lists
  lists_never h a b xs ys e = ground (arith, each_never h xs ys)

  -- Collections change places if their comparison of elements does, which lists only ask for.
  pub collection_mirror :
      (s : Shape) (a b : ℕ) (xs ys : List A)
      → compare_shapes compare bytes s s (a, xs) (b, ys) ≢ neq
      → compare_shapes compare bytes s s (b, ys) (a, xs)
        ≡ mirror (compare_shapes compare bytes s s (a, xs) (b, ys))
      → compare_collection compare bytes s s (b, ys) (a, xs)
        ≡ mirror (compare_collection compare bytes s s (a, xs) (b, ys))
  unfolding compare_collection
  collection_mirror s a b xs ys h m =
      let turned : sign (compare_shapes compare bytes s s (b, ys) (a, xs))
          ≡ mirror (sign (compare_shapes compare bytes s s (a, xs) (b, ys))) =
        ap sign m ∙ sign-mirror (compare_shapes compare bytes s s (a, xs) (b, ys)) h in
      ground arith

  pub collection_never :
      (s : Shape) (a b : ℕ) (xs ys : List A)
      → compare_collection compare bytes s s (a, xs) (b, ys) ≢ neq
  unfolding compare_collection
  collection_never s a b xs ys e =
      ground (arith, sign-never (compare_shapes compare bytes s s (a, xs) (b, ys)))
    where
      sign-never : (x : Comparison) → sign x ≢ neq
      sign-never eq = λ k. cc
      sign-never lt = λ k. cc
      sign-never gt = λ k. cc
      sign-never neq = λ k. cc
