-- ===== src/Secure/Decision/Votes.antt =====
-- The locks of src/secure/key.c that have a say on an object, collected with no state.
use corto.Base.{
  Text, ℕ, zero, suc, ◌≤◌, ◌≡◌, not, ◌&&◌, none, some, List, [], ◌∷◌, if◌then◌else◌, All, Any,
}
use corto.Base.Int.{ℤ, pos, leb_ℤ, ◌≤ℤ◌}
use corto.Secure.Authorize.{
  Access, denied, Action, Lock, PerParent, Environment, is_undefined, is_skipped,
}

-- A lock's opinion: where it stands, how much it weighs, what it says.
pub record Vote : Type 0 where
  pub depth : ℕ
  pub priority : ℤ
  pub result : Access

-- A lock votes if its priority is not negative and its method has an opinion.
abbrev pub vote : ℕ → ℤ → Access → List Vote → List Vote
vote depth priority result votes =
    if leb_ℤ (pos 0) priority && not (is_undefined result)
    then record { depth = depth; priority = priority; result = result } ∷ votes
    else votes

module _ (env : Environment) (token : Text) (action : Action) where
  unfoldable pub votes_of_locks : ℕ → Text → List Lock → List Vote → List Vote
  votes_of_locks depth expr [] votes = votes
  votes_of_locks depth expr (lock ∷ locks) votes = votes_of_locks depth expr locks (
      if is_skipped env lock.select expr
      then votes
      else vote depth lock.priority (env.lock_authorize lock token action) votes)

  unfoldable pub votes_of_parents : ℕ → Text → List PerParent → List Vote → List Vote
  votes_of_parents depth id [] votes = votes
  votes_of_parents depth id (p ∷ ps) votes =
      votes_of_parents depth id ps (elim (env.match_parent p.parent id) [
        | none ↦ votes
        | some expr ↦ votes_of_locks depth expr p.entities votes
      ])

  unfoldable pub votes_of_depths : ℕ → Text → List Vote → List Vote
  votes_of_depths zero id votes = votes_of_parents zero id (env.entities zero) votes
  votes_of_depths (suc d) id votes =
      votes_of_depths d id (votes_of_parents (suc d) id (env.entities (suc d)) votes)

  -- All the votes on an object, from the locks at its depth and above.
  unfoldable pub votes : Text → List Vote
  votes id = votes_of_depths (env.claim_depth id) id []

-- No vote stands above this rank: none weighs more, and those that weigh as much are not deeper.
abbrev pub NotAbove : ℤ → ℕ → Vote → Type 0
NotAbove p d w = (w.priority ≤ℤ p) × (p ≤ℤ w.priority → w.depth ≤ d)

-- A vote of this rank or a higher one.
abbrev pub AtTop : ℤ → ℕ → Vote → Type 0
AtTop p d w = (p ≤ℤ w.priority) × (d ≤ w.depth)

-- Some vote denies, and no vote ranks above it.
abbrev pub IsRefused : List Vote → Type 0
IsRefused ws = Any (λ w. (w.result ≡ denied) × All (NotAbove w.priority w.depth) ws) ws
