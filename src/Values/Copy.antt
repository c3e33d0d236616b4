-- ===== src/Values/Copy.antt =====
-- Copies of values: src/store/copy_ser.c, as `corto_ptr_copy` of src/store/ptr.c starts it. What new
-- memory holds and where it is belongs to the platform. Types are those of the comparison.
pub mod Faithful
use corto.Base.{
  ℕ, zero, suc, ◌+◌, ◌-◌, Bool, true, false, not, ◌&&◌, ◌||◌, Option, none, some, List, [], ◌∷◌,
  if◌then◌else◌, Text, length, is_some, ◌==◌, ltb,
}
use corto.Base.Int.{ℤ, eqb_ℤ}
use corto.Values.{
  Desc, number, floating, text, reference, no_members, member, union, collection, Val, Visit, every,
  only, Shape, array, sequence, list, map,
}

pub record Memory : Type 0 where
  -- where a duplicate of a text is
  pub duplicate : ℕ → ℕ
  -- where a buffer is that is resized to so many elements
  pub resized : ℕ → ℕ → ℕ
  -- where corto_ll_new puts a list
  pub created : ℕ
  -- memory that is set to 0, and a value that is initialized
  pub zeroed : (t : Desc) → Val t
  pub initial : (t : Desc) → Val t
  -- a union's memory after the old case was deinitialized and the new one initialized
  pub switched : (cases : Desc) → ℕ → Val cases → Val cases
  -- what the memory of a union reads as after a write to one of its cases
  pub overlaid : (cases : Desc) → ℕ → Val cases → Val cases

abbrev both : {A : Type 0} {B : Type 0} → Option A → Option B → Option (A × B)
both none y = none
both (some a) none = none
both (some a) (some b) = some (a, b)

abbrev put_first : {A : Type 0} → Option A → Option (List A) → Option (List A)
put_first none ys = none
put_first (some x) none = none
put_first (some x) (some xs) = some (x ∷ xs)

abbrev pub drop : {A : Type 0} → ℕ → List A → List A
drop zero xs = xs
drop (suc n) [] = []
drop (suc n) (x ∷ xs) = drop n xs

abbrev located : {A : Type 0} → ℕ → Option A → Option (ℕ × A)
located n none = none
located n (some a) = some (n, a)

-- Element by element, after the destination was resized with the given value.
unfoldable pub copy_each : {A : Type 0} → (A → A → Option A) → A → List A → List A → Option (List A)
copy_each copy new [] ys = some []
copy_each copy new (x ∷ xs) [] = put_first (copy x new) (copy_each copy new xs [])
copy_each copy new (x ∷ xs) (y ∷ ys) = put_first (copy x y) (copy_each copy new xs ys)

-- The list that is copied to: a new one in the place of NULL, unless there is nothing to copy.
abbrev pub target_list : {A : Type 0} → ℕ → ℕ → List A → ℕ → ℕ
target_list created a xs b = if b == 0 && (ltb 0 (length xs) || not (a == 0)) then created else b

-- Behind the copy of the elements of a list: where the source is NULL, so that no elements were copied,
-- the list is freed and set to NULL.
abbrev put_list : {A : Type 0} → ℕ → ℕ → Option (List A) → Option (ℕ × List A)
put_list a target none = none
put_list a target (some us) = some (if not (target == 0) && a == 0 then 0 else target, us)

module _ {A : Type 0} (resized : ℕ → ℕ → ℕ) (created : ℕ) (copy : A → A → Option A)
    (zeroed initial : A) where
  -- corto_ser_collection on two values of one type: a list is resized at its front. Maps are not copied.
  unfoldable copy_collection : Shape → ℕ × List A → ℕ × List A → Option (ℕ × List A)
  unfolding copy_each
  copy_collection array (a, xs) (b, ys) = located b (copy_each copy zeroed xs ys)
  copy_collection sequence (a, xs) (b, ys) =
      located (resized b (length xs)) (copy_each copy zeroed xs ys)
  copy_collection list (a, xs) (b, ys) =
      put_list a (target_list created a xs b)
        (copy_each copy initial xs (drop (length ys - length xs) ys))
  copy_collection map v w = some w

module _ (m : Memory) where
  -- corto_set_str
  abbrev pub copy_text : Option (ℕ × Text) → Option (ℕ × Text)
  copy_text none = none
  copy_text (some (p, a)) = some (m.duplicate p, a)

  -- corto_walk_value with the handlers of the copy: from the first value to the second. `none` is an
  -- error, or a discriminator without a case where the code follows the pointer to the case.
  unfoldable pub copy_values : Visit → (t : Desc) → Val t → Val t → Option (Val t)
  unfolding copy_collection
  copy_values visit number a b = some a
  copy_values visit floating a b = some a
  copy_values visit text a b = some (copy_text a)
  copy_values visit reference a b = some a
  copy_values visit no_members a b = some tt
  copy_values every (member shown t rest) (a, v) (b, w) =
      both (if shown then copy_values every t a b else some b) (copy_values every rest v w)
  copy_values (only zero) (member shown t rest) (a, v) (b, w) =
      both (if shown then copy_values every t a b else some b) (some w)
  copy_values (only (suc k)) (member shown t rest) (a, v) (b, w) =
      both (some b) (copy_values (only k) rest v w)
  copy_values visit (union find_case cases) (d, v) (e, w) = elim (find_case d) [
    | none ↦ none
    | some k ↦
        let target = if eqb_ℤ d e then w else m.switched cases k w in
        if eqb_ℤ d e || is_some (find_case e)
        then elim (copy_values (only k) cases v target) [
          | none ↦ none
          | some u ↦ some (d, m.overlaid cases k u)
        ]
        else none
  ]
  copy_values visit (collection s t) v w =
      copy_collection m.resized m.created (copy_values every t) (m.zeroed t) (m.initial t) s v w

  -- corto_ptr_copy, from the first value to the second
  unfoldable pub ptr_copy : (t : Desc) → Val t → Val t → Option (Val t)
  unfolding copy_values
  ptr_copy t v w = copy_values every t v w
