-- ===== src/Secure/Key.antt =====
-- The active key (src/secure/key.c): `corto_secure_key_construct` and `_destruct`, `corto_secured` and
-- `corto_enable_security`. Keys are addresses. `valid` has the keys whose construction succeeded and
-- that are not destructed: the store calls the destructor of valid objects only.
pub mod Active
use corto.Base.{
  ℕ, Bool, true, false, not, Option, none, some, List, [], ◌∷◌, ◌==◌, if◌then◌else◌, is_some,
}

-- `corto_secure_keyInstance`, and the field `enabled` of each key.
pub record Keys : Type 0 where
  pub instance_key : Option ℕ
  pub enabled : ℕ → Bool
  pub valid : List ℕ

-- corto_secured
unfoldable pub secured : Keys → Bool
secured s = elim (s.instance_key) [ none ↦ false | some k ↦ s.enabled k ]

-- corto_enable_security; the result is the second component.
unfoldable pub enable_security : Bool → Keys → Keys × Bool
enable_security on s = elim (s.instance_key) [
  | none ↦ (s, false)
  | some k ↦ (record s { enabled = λ j. if j == k then on else s.enabled j }, on)
]

-- corto_secure_key_construct; `is_main` says that it runs in the main thread, and the result is false
-- for an error.
unfoldable key_construct : Bool → ℕ → Keys → Keys × Bool
key_construct is_main key s =
    if is_some s.instance_key
    then (s, false)
    else if not is_main
    then (s, false)
    else (record s { instance_key = some key }, true)

-- corto_secure_key_destruct
unfoldable key_destruct : ℕ → Keys → Keys
key_destruct key s = record s { instance_key = none }

abbrev pub remove_key : ℕ → List ℕ → List ℕ
remove_key key [] = []
remove_key key (k ∷ ks) = let rest = remove_key key ks in if k == key then rest else k ∷ rest

-- The store's part: a key that is constructed is valid, and no longer when it is destructed.
unfoldable pub create_key : Bool → ℕ → Keys → Keys
unfolding key_construct
create_key is_main key s =
    let (t, done) = key_construct is_main key s in
    if done then record t { valid = key ∷ t.valid } else t

unfoldable pub delete_key : ℕ → Keys → Keys
unfolding key_destruct
delete_key key s = let t = key_destruct key s in record t { valid = remove_key key t.valid }
