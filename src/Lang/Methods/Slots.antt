-- ===== src/Lang/Methods/Slots.antt =====
-- What an assignment to a slot and an insertion do to a table of methods: its slots, and how often a
-- method stands in it.
use corto.Base.{
  ℕ, zero, suc, ◌+◌, ◌<◌, ◌≡◌, ◌⊎◌, refl, inl, inr, Bool, true, false, none, some, [], ◌∷◌, ◌==◌,
  if◌then◌else◌, arith, Bool-cases, get_elem?,
}
use corto.Lang.Vtable.{Vtable, contains, put, vtable_insert}
use corto.Lang.Methods.{assign, claim_method, release_method, claim_slots}

-- No slot is NULL.
abbrev pub IsFull : Vtable → Type 0
IsFull [] = Unit
IsFull (none ∷ slots) = ⊥
IsFull (some m ∷ slots) = IsFull slots

abbrev one_if : Bool → ℕ
one_if true = 1
one_if false = 0

-- How many slots hold the method.
unfoldable pub count : ℕ → Vtable → ℕ
count method [] = 0
count method (none ∷ slots) = count method slots
count method (some m ∷ slots) = one_if (m == method) + count method slots

pub assign-IsFull :
    (table : Vtable) (slot method : ℕ) → IsFull table → IsFull (assign table slot method)
unfolding assign
assign-IsFull [] slot method h = tt
assign-IsFull (none ∷ slots) slot method h = absurd h
assign-IsFull (some m ∷ slots) zero method h = h
assign-IsFull (some m ∷ slots) (suc slot) method h = assign-IsFull slots slot method h

assign-count :
    (table : Vtable) (slot found method other : ℕ)
    → get_elem? table slot ≡ some (some found)
    → count other (assign table slot method) + one_if (found == other)
      ≡ count other table + one_if (method == other)
unfolding assign count
assign-count [] slot found method other e = absurd (cc)
assign-count (m ∷ slots) zero found method other e = ground arith
assign-count (none ∷ slots) (suc slot) found method other e =
    assign-count slots slot found method other e
assign-count (some m ∷ slots) (suc slot) found method other e =
    ground (arith, assign-count slots slot found method other e)

put-IsFull : (table : Vtable) (method : ℕ) → IsFull table → IsFull (put method table)
unfolding put
put-IsFull [] method h = tt
put-IsFull (none ∷ slots) method h = absurd h
put-IsFull (some m ∷ slots) method h = put-IsFull slots method h

put-count :
    (table : Vtable) (method other : ℕ)
    → count other (put method table) ≡ count other table + one_if (method == other)
unfolding put count
put-count [] method other = ground arith
put-count (none ∷ slots) method other = ground arith
put-count (some m ∷ slots) method other = ground (arith, put-count slots method other)

-- An assignment replaces the method of its slot, and of no other.
pub assign-get_elem? :
    (table : Vtable) (slot found method i m : ℕ)
    → get_elem? table slot ≡ some (some found)
    → get_elem? table i ≡ some (some m)
    → ((m ≡ found) × (get_elem? (assign table slot method) i ≡ some (some method)))
      ⊎ (get_elem? (assign table slot method) i ≡ some (some m))
unfolding assign
assign-get_elem? [] slot f method i m e h = absurd (cc)
assign-get_elem? (x ∷ xs) zero f method zero m e h = inl (cc, refl)
assign-get_elem? (x ∷ xs) zero f method (suc i) m e h = inr h
assign-get_elem? (x ∷ xs) (suc slot) f method zero m e h = inr h
assign-get_elem? (x ∷ xs) (suc slot) f method (suc i) m e h =
    assign-get_elem? xs slot f method i m e h

-- The references of a table to methods that are not builtin: one for each slot, over those that others
-- hold.
abbrev pub IsHeld : (ℕ → Bool) → (ℕ → ℕ) → Vtable → (ℕ → ℕ) → Type 0
IsHeld builtin others table references =
    (m : ℕ) → builtin m ≡ false → references m ≡ others m + count m table

pub claim_slots_lem :
    (builtin : ℕ → Bool) (table : Vtable) (references : ℕ → ℕ) (m : ℕ)
    → builtin m ≡ false
    → claim_slots builtin table references m ≡ references m + count m table
unfolding claim_slots count claim_method
claim_slots_lem builtin [] r m b = omega arith
claim_slots_lem builtin (none ∷ slots) r m b = claim_slots_lem builtin slots r m b
claim_slots_lem builtin (some f ∷ slots) r m b =
    ground (arith, claim_slots_lem builtin slots (claim_method builtin f r) m b)

count_pos : (table : Vtable) (slot f : ℕ) → get_elem? table slot ≡ some (some f) → 0 < count f table
unfolding count
count_pos [] slot f e = absurd (cc)
count_pos (x ∷ xs) zero f e = ground arith
count_pos (none ∷ xs) (suc slot) f e = count_pos xs slot f e
count_pos (some m ∷ xs) (suc slot) f e = omega (arith, count_pos xs slot f e)

pub replace-IsHeld :
    (builtin : ℕ → Bool) (others references : ℕ → ℕ) (table : Vtable) (slot found method : ℕ)
    → (found == method) ≡ false
    → get_elem? table slot ≡ some (some found)
    → IsHeld builtin others table references
    → IsHeld builtin others
        (assign table slot method)
        (release_method builtin found (claim_method builtin method references))
unfolding claim_method release_method
replace-IsHeld builtin others references table slot f method n e h m b =
    ground (arith, assign-count table slot f method m e, h m b, count_pos table slot f e)

pub insert-IsHeld :
    (builtin : ℕ → Bool) (others references : ℕ → ℕ) (table : Vtable) (method : ℕ)
    → IsHeld builtin others table references
    → IsHeld builtin others (vtable_insert table method).0 (
        if (vtable_insert table method).1
        then claim_method builtin method references
        else references)
unfolding claim_method vtable_insert
insert-IsHeld builtin others references table method h m b =
    elim (Bool-cases (contains method table)) [
      | inl e ↦ rw e (h m b)
      | inr e ↦ rw e (ground (arith, put-count table method m, h m b))
    ]

pub insert-IsFull :
    (table : Vtable) (method : ℕ) → IsFull table → IsFull (vtable_insert table method).0
unfolding vtable_insert
insert-IsFull table method h = elim (Bool-cases (contains method table)) [
  | inl e ↦ rw e h
  | inr e ↦ rw e (put-IsFull table method h)
]
