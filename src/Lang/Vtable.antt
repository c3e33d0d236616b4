-- ===== src/Lang/Vtable.antt =====
-- `corto_vtableInsert` (src/lang/interface.c): a table of methods, whose slots may be NULL. Methods are
-- addresses.
pub mod Slots
use corto.Base.{ℕ, Bool, true, false, ◌||◌, Option, none, some, List, [], ◌∷◌, ◌==◌, if◌then◌else◌}

abbrev pub Vtable : Type 0
Vtable = List (Option ℕ)

-- vtable->buffer[i] == method
abbrev holds : ℕ → Option ℕ → Bool
holds method none = false
holds method (some m) = m == method

-- The first loop: whether the method stands in the table.
unfoldable pub contains : ℕ → Vtable → Bool
contains method [] = false
contains method (slot ∷ slots) = holds method slot || contains method slots

-- The second loop, the growth of the table, and the assignment.
unfoldable pub put : ℕ → Vtable → Vtable
put method [] = some method ∷ []
put method (none ∷ slots) = some method ∷ slots
put method (some m ∷ slots) = some m ∷ put method slots

-- The table afterwards, and the result.
unfoldable pub vtable_insert : Vtable → ℕ → Vtable × Bool
unfolding contains put
vtable_insert vtable method =
    if contains method vtable then (vtable, false) else (put method vtable, true)
