-- ===== src/Tests/SecureTests.antt =====
-- Locks on the object /a/b: src/secure/key.c.
use corto.Base.{ℕ, zero, suc, ◌≡◌, refl, ◌↔◌, true, false, none, some, List, [], ◌∷◌, Text}
use corto.Base.Int.{ℤ, pos, negsuc}
use corto.Secure.Key.{Keys, secured, enable_security, create_key}
use corto.Secure.Authorize.{
  Access, granted, denied, undefined, Action, Lock, PerParent, Environment, authorize_id, eval_lock,
  walk_locks, walk_parents, walk_depths, is_skipped,
}
use corto.Secure.Decision.Votes.{IsRefused, votes}
use corto.Secure.Decision.Outcome.{authorize_id_iff}

abbrev lock : ℕ → ℤ → Lock
lock object priority = record { object = object; select = none; priority = priority }

-- Lock 0 grants, lock 1 denies, the others have no opinion.
abbrev opinion : Lock → Text → Action → Access
opinion l token action = elim (l.object) [
  | zero ↦ granted
  | suc n ↦ elim n [ zero ↦ denied | suc _ ↦ undefined ]
]

abbrev at_depth : ℕ → List Lock → List PerParent
at_depth d ls = record { parent = b'/' ∷ []; entities = ls } ∷ []

abbrev environment : List Lock → List Lock → Environment
environment deep top = record {
  match_parent = λ parent id. some [];
  id_match = λ pattern id. true;
  lock_authorize = opinion;
  claim_depth = λ id. 1;
  entities = λ d. elim d [ zero ↦ at_depth 0 top | suc _ ↦ at_depth 1 deep ];
}

abbrev object_id : Text
object_id = b'/' ∷ b'a' ∷ []

abbrev session : Text
session = b'u' ∷ []

-- A deep lock that grants outranks one at the top that denies, at the same priority.
deep_grant :
    authorize_id
      (environment (lock 0 (pos 2) ∷ []) (lock 1 (pos 2) ∷ []))
      true
      (some session)
      object_id
      1
    ≡ true
unfolding authorize_id walk_depths walk_parents walk_locks eval_lock is_skipped
deep_grant = refl

-- A higher priority outranks the depth; a negative priority never counts.
high_deny :
    authorize_id
      (environment (lock 0 (pos 2) ∷ lock 1 (negsuc 0) ∷ []) (lock 1 (pos 3) ∷ []))
      true
      (some session)
      object_id
      1
    ≡ false
unfolding authorize_id walk_depths walk_parents walk_locks eval_lock is_skipped
high_deny = refl

authorize_id_iff_example :
    (authorize_id
        (environment (lock 0 (pos 2) ∷ []) (lock 1 (pos 3) ∷ []))
        true
        (some session)
        object_id
        1
      ≡ false)
    ↔ IsRefused
        (votes (environment (lock 0 (pos 2) ∷ []) (lock 1 (pos 3) ∷ [])) session 1 object_id)
authorize_id_iff_example =
    authorize_id_iff (environment (lock 0 (pos 2) ∷ []) (lock 1 (pos 3) ∷ [])) session object_id 1
      refl

-- Two keys are created, the second one while the first is active.
abbrev no_keys : Keys
no_keys = record { instance_key = none; enabled = λ k. false; valid = [] }

abbrev one_key : Keys
one_key = create_key true 6 (create_key true 5 no_keys)

-- Security is on once it is switched on with an active key.
switched_on : secured (enable_security true one_key).0 ≡ true
unfolding secured enable_security create_key
switched_on = refl
