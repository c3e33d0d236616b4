-- ===== src/Secure/Authorize.antt =====
-- src/secure/key.c, `corto_authorize_id`, and the default lock method of src/secure/lock.c.
-- Texts are lists of character codes. The matching functions and the lock admin come from packages
-- that are not in this repository, and a lock's `authorize` is a method that a class overrides:
-- they are the fields of `Environment`. Log messages are left out.
use corto.Base.{
  Text, ℕ, zero, suc, Bool, true, false, not, ◌&&◌, ◌||◌, Option, none, some, List, [], ◌∷◌, ◌==◌,
  if◌then◌else◌,
}
use corto.Base.Int.{ℤ, pos, ltb_ℤ, leb_ℤ}

-- corto_secure_accessKind
pub data Access : Type 0 where
  granted denied undefined : Access

-- corto_secure_actionKind: a bit mask, handed on to the locks.
abbrev pub Action : Type 0
Action = ℕ

-- corto_secure_lock: the object, `query.select` and `priority` (an `int16_t`).
pub record Lock : Type 0 where
  pub object : ℕ
  pub select : Option Text
  pub priority : ℤ

-- corto_entityPerParent
pub record PerParent : Type 0 where
  pub parent : Text
  pub entities : List Lock

pub record Environment : Type 0 where
  -- corto_matchParent: what follows the parent in the id, or NULL
  pub match_parent : Text → Text → Option Text
  -- corto_idmatch
  pub id_match : Text → Text → Bool
  -- corto_secure_lock_authorize, after dispatch
  pub lock_authorize : Lock → Text → Action → Access
  -- corto_entityAdmin_claimDepthFromId
  pub claim_depth : Text → ℕ
  -- admin->entities[depth]
  pub entities : ℕ → List PerParent

-- corto_secure_lock_authorize_v: a lock that does not override the method has no opinion.
unfoldable lock_authorize_v : Lock → Text → Action → Access
lock_authorize_v lock token action = undefined

abbrev pub is_undefined : Access → Bool
is_undefined undefined = true
is_undefined _ = false

abbrev pub is_denied : Access → Bool
is_denied denied = true
is_denied _ = false

-- The variables `allowed`, `priority`, `currentDepth` and `active_lock` of the walk.
pub record Verdict : Type 0 where
  pub allowed : Access
  pub priority : ℤ
  pub current_depth : ℕ
  pub active_lock : Option Lock

abbrev pub initial : Verdict
initial = record { allowed = undefined; priority = pos 0; current_depth = 0; active_lock = none }

-- The two inner tests, on the result of the lock's method.
unfoldable pub overwrite : ℕ → Lock → Access → Verdict → Verdict
overwrite depth lock result v =
    if not (is_undefined result) && (not (is_denied v.allowed) || ltb_ℤ v.priority lock.priority)
    then record {
      allowed = result;
      priority = lock.priority;
      current_depth = depth;
      active_lock = some lock;
    }
    else v

-- One round of the loop over `perParent->entities`.
abbrev is_empty : Text → Bool
is_empty [] = true
is_empty (_ ∷ _) = false

-- `lock->query.select && *expr && !corto_idmatch(lock->query.select, expr)`
unfoldable pub is_skipped : Environment → Option Text → Text → Bool
is_skipped env none expr = false
is_skipped env (some select) expr = not (is_empty expr) && not (env.id_match select expr)

module _ (env : Environment) (token : Text) (action : Action) where
  unfoldable pub eval_lock : ℕ → Lock → Verdict → Verdict
  unfolding overwrite
  eval_lock depth lock v =
      if leb_ℤ v.priority lock.priority
      then if is_undefined v.allowed || (v.current_depth == depth) || ltb_ℤ v.priority lock.priority
        then overwrite depth lock (env.lock_authorize lock token action) v
        else v
      else v

  unfoldable pub walk_locks : ℕ → Text → List Lock → Verdict → Verdict
  walk_locks depth expr [] v = v
  walk_locks depth expr (lock ∷ locks) v =
      walk_locks depth expr locks
        (if is_skipped env lock.select expr then v else eval_lock depth lock v)

  unfoldable pub walk_parents : ℕ → Text → List PerParent → Verdict → Verdict
  walk_parents depth id [] v = v
  walk_parents depth id (p ∷ ps) v = walk_parents depth id ps (elim (env.match_parent p.parent id) [
    | none ↦ v
    | some expr ↦ walk_locks depth expr p.entities v
  ])

  -- do … while (--depth >= 0)
  unfoldable pub walk_depths : ℕ → Text → Verdict → Verdict
  walk_depths zero id v = walk_parents zero id (env.entities zero) v
  walk_depths (suc d) id v = walk_depths d id (walk_parents (suc d) id (env.entities (suc d)) v)

-- The session token that the API uses internally.
abbrev pub is_builtin_token : Text → Bool
is_builtin_token [] = false
is_builtin_token (c ∷ []) = c == b'#'
is_builtin_token (c ∷ d ∷ cs) = false

-- `secured` is `corto_secure_keyInstance && corto_secure_keyInstance->enabled`.
unfoldable pub authorize_id : Environment → Bool → Option Text → Text → Action → Bool
authorize_id env false session id action = true
authorize_id env true none id action = false
authorize_id env true (some token) id action =
    if is_builtin_token token
    then true
    else not (is_denied (walk_depths env token action (env.claim_depth id) id initial).allowed)

-- corto_authorize: an object without a name is never locked.
unfoldable authorize : Environment → Bool → Option Text → Option Text → Action → Bool
unfolding authorize_id
authorize env secured session none action = true
authorize env secured session (some id) action = authorize_id env secured session id action
