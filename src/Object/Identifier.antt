-- ===== src/Object/Identifier.antt =====
-- `corto_valid_identifier` (src/store/object.c): which texts may name an object.
use corto.Base.{
  ℕ, ◌≡◌, refl, ap, ◌∙◌, ◌↔◌, ◌⊎◌, inl, inr, Bool, true, false, ◌||◌, not, Option, none, some, [],
  ◌∷◌, ◌++◌, ◌==◌, Text, if◌then◌else◌, arith, All, Bool-cases,
}

-- The values of `*reason`.
pub data Reason : Type 0 where
  invalid_characters close_without_open characters_after_close : Reason

abbrev is_scope_char : ℕ → Bool
is_scope_char c = c == b'/' || c == b'{' || c == b'}'

abbrev pub is_end : Text → Bool
is_end [] = true
is_end (c ∷ cs) = false

-- The loop; the first argument is `in_arg_list`, and `none` stands for TRUE.
unfoldable validate : Bool → Text → Option Reason
validate in_arg [] = none
validate in_arg (c ∷ cs) =
    let rest = validate (in_arg || c == b'(') cs in
    if is_scope_char c
    then (if in_arg then rest else some invalid_characters)
    else if c == b')'
    then if not in_arg
      then some close_without_open
      else if is_end cs
      then rest
      else some characters_after_close
    else rest

unfoldable pub valid_identifier : Text → Option Reason
unfolding validate
valid_identifier = validate false

-- A character of a plain name.
abbrev is_name_char : ℕ → Bool
is_name_char c = not (is_scope_char c || c == b'(' || c == b')')

abbrev IsName : Text → Type 0
IsName = All (λ c. is_name_char c ≡ true)

abbrev pub IsOpen : Text → Type 0
IsOpen = All (λ c. (c == b')') ≡ false)

-- An argument list behind its '(': any text whose only ')' is its last character, if it has one.
abbrev IsArgs : Text → Type 0
IsArgs a = IsOpen a ⊎ ((xs : Text) × (a ≡ xs ++ b')' ∷ []) × IsOpen xs)

-- A plain name, or a plain name with an argument list.
abbrev pub IsIdentifier : Text → Type 0
IsIdentifier id = IsName id ⊎ ((n : Text) × (a : Text) × (id ≡ n ++ b'(' ∷ a) × IsName n × IsArgs a)

IsArgs-cons : (c : ℕ) (cs : Text) → (c == b')') ≡ false → IsArgs cs → IsArgs (c ∷ cs)
IsArgs-cons c cs e (inl o) = inl (e, o)
IsArgs-cons c cs e (inr (xs, p, o)) = inr (c ∷ xs, ap (λ t. c ∷ t) p, (e, o))

IsArgs-sound : (a : Text) → validate true a ≡ none → IsArgs a
unfolding validate
IsArgs-sound [] h = inl tt
IsArgs-sound (c ∷ []) h = elim (Bool-cases (c == b')')) [
  | inl e ↦ inr ([], ground arith, tt)
  | inr e ↦ inl (e, tt)
]
IsArgs-sound (c ∷ d ∷ cs) h = elim (Bool-cases (c == b')')) [
  | inl e ↦ absurd (ground arith)
  | inr e ↦ IsArgs-cons c (d ∷ cs) e (IsArgs-sound (d ∷ cs) (ground arith))
]

args_open : (a : Text) → IsOpen a → validate true a ≡ none
unfolding validate
args_open [] h = refl
args_open (c ∷ cs) h = ground (arith, args_open cs h.1)

args_closed : (xs : Text) → IsOpen xs → validate true (xs ++ b')' ∷ []) ≡ none
unfolding validate
args_closed [] h = refl
args_closed (c ∷ cs) h = ground (arith, args_closed cs h.1)

args_complete : (a : Text) → IsArgs a → validate true a ≡ none
args_complete a (inl o) = args_open a o
args_complete a (inr (xs, p, o)) = ap (validate true) p ∙ args_closed xs o

IsIdentifier-cons :
    (c : ℕ) (cs : Text) → is_name_char c ≡ true → IsIdentifier cs → IsIdentifier (c ∷ cs)
IsIdentifier-cons c cs e (inl n) = inl (e, n)
IsIdentifier-cons c cs e (inr (n, a, p, hn, ha)) = inr (c ∷ n, a, ap (λ t. c ∷ t) p, (e, hn), ha)

IsIdentifier-sound : (id : Text) → validate false id ≡ none → IsIdentifier id
unfolding validate
IsIdentifier-sound [] h = inl tt
IsIdentifier-sound (c ∷ cs) h = elim (Bool-cases (c == b'(')) [
  | inl e ↦ inr ([], cs, ground arith, tt, IsArgs-sound cs (ground arith))
  | inr e ↦ IsIdentifier-cons c cs (ground arith) (IsIdentifier-sound cs (ground arith))
]

name_complete : (id : Text) → IsName id → validate false id ≡ none
unfolding validate
name_complete [] h = refl
name_complete (c ∷ cs) h = ground (arith, name_complete cs h.1)

call_complete : (n a : Text) → IsName n → IsArgs a → validate false (n ++ b'(' ∷ a) ≡ none
unfolding validate
call_complete [] a h k = args_complete a k
call_complete (c ∷ n) a h k = ground (arith, call_complete n a h.1 k)

-- An id is accepted exactly when it is a plain name, or a plain name, a '(' and a text whose only
-- ')' is its last character if it has one: a list that is not closed is accepted too.
pub valid_identifier_iff : (id : Text) → (valid_identifier id ≡ none) ↔ IsIdentifier id
unfolding valid_identifier
valid_identifier_iff id = (IsIdentifier-sound id, complete)
  where
    complete : IsIdentifier id → validate false id ≡ none
    complete (inl n) = name_complete id n
    complete (inr (n, a, p, hn, ha)) = ap (validate false) p ∙ call_complete n a hn ha
