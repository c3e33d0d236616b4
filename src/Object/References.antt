-- ===== src/Object/References.antt =====
-- Reference counts (src/store/object.c: `corto_claim`, `corto_release`, `corto_scope_claim`,
-- `corto_scope_release`). Objects are addresses. The destructor that a count of 0 starts is an entry of
-- `destroyed`; a count below 0 is a critical error.
pub mod Balance
use corto.Base.{ℕ, zero, suc, ◌+◌, ◌-◌, Bool, true, false, List, [], ◌∷◌, ◌==◌, if◌then◌else◌}

pub record Counts : Type 0 where
  pub count : ℕ → ℕ
  pub destroyed : List ℕ
  pub broken : Bool

abbrev pub set_count : ℕ → ℕ → Counts → Counts
set_count o n c = record c { count = λ p. if p == o then n else c.count p }

module _ (builtin : ℕ → Bool) where
  -- corto_claim
  unfoldable pub claim : ℕ → Counts → Counts
  claim o c = if builtin o then c else set_count o (c.count o + 1) c

  -- What corto_claim returns.
  unfoldable pub claim_result : ℕ → Counts → ℕ
  claim_result o c = if builtin o then 2 else c.count o + 1

  -- The decrement, and what follows from its result.
  unfoldable pub dropped : ℕ → ℕ → Counts → Counts
  dropped o zero c = record c { broken = true }
  dropped o (suc zero) c = let d = set_count o 0 c in record d { destroyed = o ∷ c.destroyed }
  dropped o (suc (suc n)) c = set_count o (suc n) c

  -- corto_release
  unfoldable pub release : ℕ → Counts → Counts
  unfolding dropped
  release o c = if builtin o then c else dropped o (c.count o) c

  -- corto_scope_claim, on the objects of the scope
  unfoldable pub claim_all : List ℕ → Counts → Counts
  unfolding claim
  claim_all [] c = c
  claim_all (o ∷ os) c = claim_all os (claim o c)

  -- corto_scope_release
  unfoldable pub release_all : List ℕ → Counts → Counts
  unfolding release
  release_all [] c = c
  release_all (o ∷ os) c = release_all os (release o c)
