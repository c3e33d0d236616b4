-- ===== src/Secure/Key/Active.antt =====
-- There is one active key at most, through all that may happen to keys (src/secure/key.c).
use corto.Base.{ℕ, ◌≡◌, ◌⊎◌, Bool, none, some, [], ◌∷◌, Any}
use corto.Secure.Key.{Keys, enable_security, create_key, delete_key}

-- A key is created, a valid key is deleted, security is switched on or off.
pub data Step : Keys → Keys → Type 0 where
  created : (is_main : Bool) (key : ℕ) {s : Keys} → Step s (create_key is_main key s)
  deleted : (key : ℕ) {s : Keys} → Any (λ k. k ≡ key) s.valid → Step s (delete_key key s)
  switched : (on : Bool) {s : Keys} → Step s (enable_security on s).0

-- What can come of keys from a start without any.
pub data Reached : Keys → Type 0 where
  begin :
      (enabled : ℕ → Bool) → Reached (record { instance_key = none; enabled = enabled; valid = [] })
  then_step : {s t : Keys} → Reached s → Step s t → Reached t

-- No key is valid and none is active, or the active one is the only valid one.
abbrev pub HasOneKey : Keys → Type 0
HasOneKey s =
    ((s.instance_key ≡ none) × (s.valid ≡ []))
    ⊎ ((k : ℕ) × (s.instance_key ≡ some k) × (s.valid ≡ k ∷ []))
