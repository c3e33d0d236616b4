-- ===== src/Lang/Constants.antt =====
-- Constants of enumerations and bitmasks, and the cases of a union (src/lang/enum.c, bitmask.c,
-- union.c). `corto_scope_size` and `corto_idof` belong to the store, and `stricmp` to the base
-- package; a constant is the list entry with its address, its value and its id.
pub mod Search
use corto.Base.{
  ℕ, suc, ◌+◌, ◌-◌, ◌*◌, ◌^◌, ◌%◌, Bool, true, false, ◌||◌, Option, none, some, List, [], ◌∷◌, ◌++◌,
  ◌==◌, if◌then◌else◌, Text, is_some,
}
use corto.Base.Int.{ℤ, eqb_ℤ}

-- An `int32_t`.
pub record Constant : Type 0 where
  pub address : ℕ
  pub value : ℤ
  pub id : Text

-- The loop of `corto_enum_constant_from_value` and of `corto_enum_value`; `none` is NULL.
unfoldable pub constant_from_value : List Constant → ℤ → Option Constant
constant_from_value [] value = none
constant_from_value (c ∷ cs) value =
    let rest = constant_from_value cs value in if eqb_ℤ c.value value then some c else rest

-- The loop of `corto_enum_constant_from_id`; the first argument is !stricmp(a, b).
unfoldable constant_from_id : (Text → Text → Bool) → List Constant → Text → Option Constant
constant_from_id same_id [] id = none
constant_from_id same_id (c ∷ cs) id =
    let rest = constant_from_id same_id cs id in if same_id c.id id then some c else rest

-- corto_case: its address and its discriminators.
pub record Case : Type 0 where
  pub address : ℕ
  pub discriminator : List ℤ

-- The inner loop of `corto_union_findCase`.
unfoldable pub lists : ℤ → List ℤ → Bool
lists d [] = false
lists d (e ∷ es) = eqb_ℤ d e || lists d es

abbrev pub is_default : Case → Bool
is_default c = elim (c.discriminator) [ [] ↦ true | _ ∷ _ ↦ false ]

-- The outer loop; the second argument is the variable `member`.
unfoldable pub case_loop : ℤ → Option Case → List Case → Option Case
unfolding lists
case_loop d member [] = member
case_loop d member (c ∷ cs) =
    let next = case_loop d (if is_default c then some c else member) cs in
    if is_default c then next else if lists d c.discriminator then some c else next

-- corto_union_findCase
unfoldable pub find_case : List Case → ℤ → Option Case
unfolding case_loop
find_case cases d = case_loop d none cases
