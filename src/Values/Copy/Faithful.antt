-- ===== src/Values/Copy/Faithful.antt =====
-- A copy is the same value as its source.
use corto.Base.{
  ℕ, ◌-◌, ◌≡◌, ◌≢◌, refl, inl, ◌==◌, ◌&&◌, not, if◌then◌else◌, arith, inr, true, false, Option,
  none, some, List, [], ◌∷◌, Text, length, Bool-cases,
}
use corto.Values.{
  Desc, number, floating, text, reference, no_members, member, union, collection, Val, every, array,
  sequence, list, map, Platform, eq, ptr_compare,
}
use corto.Values.Parts.{content, AllSame}
use corto.Values.Same.{IsSame, ptr_compare_iff}
use corto.Values.Mirror.{IsAsymmetric}
use corto.Values.Copy.{Memory, drop, target_list, copy_each, copy_text, copy_values, ptr_copy}

-- An element whose memory is copied as it is.
abbrev IsFlat : Desc → Type 0
IsFlat number = Unit
IsFlat floating = Unit
IsFlat text = ⊥
IsFlat reference = Unit
IsFlat no_members = ⊥
IsFlat (member shown t rest) = ⊥
IsFlat (union find_case cases) = ⊥
IsFlat (collection s t) = ⊥

-- No unions and no maps; the elements of arrays and sequences are numbers or references.
abbrev IsCopyable : Desc → Type 0
IsCopyable number = Unit
IsCopyable floating = Unit
IsCopyable text = Unit
IsCopyable reference = Unit
IsCopyable no_members = Unit
IsCopyable (member shown t rest) = IsCopyable t × IsCopyable rest
IsCopyable (union find_case cases) = ⊥
IsCopyable (collection array t) = IsFlat t
IsCopyable (collection sequence t) = IsFlat t
IsCopyable (collection list t) = IsCopyable t
IsCopyable (collection map t) = ⊥

module _ {A : Type 0} (copy : A → A → Option A) (new : A) where
  each_flat :
      ((x y : A) → copy x y ≡ some x) → (xs ys : List A) → copy_each copy new xs ys ≡ some xs
  unfolding copy_each
  each_flat h [] ys = refl
  each_flat h (x ∷ xs) [] = rw (h x new, each_flat h xs []) refl
  each_flat h (x ∷ xs) (y ∷ ys) = rw (h x y, each_flat h xs ys) refl

  each-AllSame :
      (R : A → A → Type 0)
      → ((x y : A) → (u : A) × (copy x y ≡ some u) × R x u)
      → (xs ys : List A) → (us : List A) × (copy_each copy new xs ys ≡ some us) × AllSame R xs us
  unfolding copy_each
  each-AllSame R h [] ys = ([], refl, tt)
  each-AllSame R h (x ∷ xs) [] =
      let (u, e, r) = h x new in
      let (us, f, rs) = each-AllSame R h xs [] in (u ∷ us, rw (e, f) refl, (r, rs))
  each-AllSame R h (x ∷ xs) (y ∷ ys) =
      let (u, e, r) = h x y in
      let (us, f, rs) = each-AllSame R h xs ys in (u ∷ us, rw (e, f) refl, (r, rs))

-- A list is copied to NULL exactly if it is NULL.
null_kept :
    {A : Type 0} (created a b : ℕ) (xs : List A)
    → created ≢ 0
    → (a == 0) ≡ (
        (if not (target_list created a xs b == 0) && a == 0 then 0 else target_list created a xs b)
        == 0)
null_kept created a b xs n = ground arith

-- A new list is not NULL.
module _ (p : Platform) (m : Memory) (asymmetric : IsAsymmetric p) (new_list : m.created ≢ 0) where
  copy-flat : (t : Desc) (a b : Val t) → IsFlat t → copy_values m every t a b ≡ some a
  unfolding copy_values
  copy-flat number a b h = refl
  copy-flat floating a b h = refl
  copy-flat text a b h = absurd h
  copy-flat reference a b h = refl
  copy-flat no_members a b h = absurd h
  copy-flat (member shown t rest) a b h = absurd h
  copy-flat (union find_case cases) a b h = absurd h
  copy-flat (collection s t) a b h = absurd h

  not_less : (a : ℕ) → p.less a a ≡ false
  not_less a = elim (Bool-cases (p.less a a)) [ inl h ↦ asymmetric a a h | inr h ↦ h ]

  text_copy : (a : Option (ℕ × Text)) → content a ≡ content (copy_text m a)
  text_copy none = refl
  text_copy (some (q, a)) = refl

  copy-IsSame :
      (t : Desc) (v w : Val t)
      → IsCopyable t
      → (u : Val t) × (copy_values m every t v w ≡ some u) × IsSame p every t v u
  unfolding copy_values
  copy-IsSame number a b h = (a, refl, refl)
  copy-IsSame floating a b h = (a, refl, (not_less a, not_less a))
  copy-IsSame text a b h = (copy_text m a, refl, text_copy a)
  copy-IsSame reference a b h = (a, refl, refl)
  copy-IsSame no_members a b h = (tt, refl, tt)
  copy-IsSame (member true t rest) (a, v) (b, w) h =
      let (c, e, r) = copy-IsSame t a b h.0 in
      let (u, f, s) = copy-IsSame rest v w h.1 in ((c, u), rw (e, f) refl, ((λ _. r), s))
  copy-IsSame (member false t rest) (a, v) (b, w) h =
      let (u, f, s) = copy-IsSame rest v w h.1 in ((b, u), rw f refl, ((λ q. absurd (cc)), s))
  copy-IsSame (union find_case cases) v w h = absurd h
  copy-IsSame (collection array t) (a, xs) (b, ys) h = (
    (b, xs),
    rw (each_flat (copy_values m every t) (m.zeroed t) (λ x y. copy-flat t x y h) xs ys) refl,
    (refl, refl),
  )
  copy-IsSame (collection sequence t) (a, xs) (b, ys) h = (
    (m.resized b (length xs), xs),
    rw (each_flat (copy_values m every t) (m.zeroed t) (λ x y. copy-flat t x y h) xs ys) refl,
    (refl, refl),
  )
  copy-IsSame (collection list t) (a, xs) (b, ys) h =
      let (us, e, r) =
        each-AllSame (copy_values m every t) (m.initial t) (IsSame p every t)
          (λ x y. copy-IsSame t x y h) xs (drop (length ys - length xs) ys) in
      (
        (
          (if not (target_list m.created a xs b == 0) && a == 0
              then 0
              else target_list m.created a xs b),
          us,
        ),
        rw e refl,
        (null_kept m.created a b xs new_list, r),
      )
  copy-IsSame (collection map t) v w h = absurd h

  -- `corto_ptr_copy` succeeds whatever the destination holds, and `corto_ptr_compare` takes the copy for
  -- equal to its source. The type has no unions and no maps, and the elements of its arrays and
  -- sequences are numbers or references; of two floating point numbers at most one is less, and a new
  -- list is not NULL.
  pub ptr_copy-ptr_compare :
      (t : Desc) (v w : Val t)
      → IsCopyable t
      → (u : Val t) × (ptr_copy m t v w ≡ some u) × (ptr_compare p t v u ≡ eq)
  unfolding ptr_copy
  ptr_copy-ptr_compare t v w h =
      let (u, e, r) = copy-IsSame t v w h in (u, e, (ptr_compare_iff p t v u).1 r)
