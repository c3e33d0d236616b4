-- ===== src/Secure/Decision/Outcome.antt =====
-- The verdict of `corto_authorize_id` (src/secure/key.c) is that of the top-ranked votes.
use corto.Base.{
  Text, ℕ, zero, suc, ◌≡◌, refl, Bool, true, false, not, ◌↔◌, List, [], ◌∷◌, inl, inr, arith,
  Option, none, some, All, Any, All-imp, if◌then◌else◌,
}
use corto.Base.Int.{ℤ, ◌≤ℤ◌}
use corto.Secure.Authorize.{
  Access, granted, denied, undefined, Action, Lock, PerParent, Environment, Verdict, initial,
  is_denied, eval_lock, is_skipped, walk_locks, walk_parents, walk_depths, authorize_id,
  is_builtin_token,
}
use corto.Secure.Decision.Votes.{
  Vote, vote, votes_of_locks, votes_of_parents, votes_of_depths, votes, NotAbove, AtTop, IsRefused,
}
use corto.Secure.Decision.Ranking.{Stands, Agrees, Agrees-up}
use corto.Secure.Decision.Weighing.{weigh, weigh-Agrees}

-- A lock that is skipped has no vote; one that is not is weighed.
Agrees-if :
    (b : Bool) (d : ℕ) (v v' : Verdict) (ws ws' : List Vote)
    → Agrees d v ws
    → Agrees d v' ws'
    → Agrees d (if b then v else v') (if b then ws else ws')
Agrees-if true d v v' ws ws' h k = h
Agrees-if false d v v' ws ws' h k = k

module _ (env : Environment) (token : Text) (action : Action) where
  eval_lock-Agrees :
      (d : ℕ) (lock : Lock) (v : Verdict) (ws : List Vote)
      → Agrees d v ws
      → Agrees d
          (eval_lock env token action d lock v)
          (vote d lock.priority (env.lock_authorize lock token action) ws)
  unfolding eval_lock weigh
  eval_lock-Agrees d lock v ws h = weigh-Agrees d lock (env.lock_authorize lock token action) v ws h

  locks-Agrees :
      (d : ℕ) (expr : Text) (locks : List Lock) (v : Verdict) (ws : List Vote)
      → Agrees d v ws
      → Agrees d
          (walk_locks env token action d expr locks v)
          (votes_of_locks env token action d expr locks ws)
  unfolding walk_locks votes_of_locks
  locks-Agrees d expr [] v ws h = h
  locks-Agrees d expr (lock ∷ locks) v ws h =
      locks-Agrees d expr locks
        (if is_skipped env lock.select expr then v else eval_lock env token action d lock v)
        (if is_skipped env lock.select expr
          then ws
          else vote d lock.priority (env.lock_authorize lock token action) ws)
        (Agrees-if (is_skipped env lock.select expr) d v _ ws _ h (eval_lock-Agrees d lock v ws h))

  matched-Agrees :
      (d : ℕ) (m : Option Text) (locks : List Lock) (v : Verdict) (ws : List Vote)
      → Agrees d v ws
      → Agrees d
          (elim m [ none ↦ v | some expr ↦ walk_locks env token action d expr locks v ])
          (elim m [ none ↦ ws | some expr ↦ votes_of_locks env token action d expr locks ws ])
  matched-Agrees d none locks v ws h = h
  matched-Agrees d (some expr) locks v ws h = locks-Agrees d expr locks v ws h

  parents-Agrees :
      (d : ℕ) (id : Text) (ps : List PerParent) (v : Verdict) (ws : List Vote)
      → Agrees d v ws
      → Agrees d
          (walk_parents env token action d id ps v)
          (votes_of_parents env token action d id ps ws)
  unfolding walk_parents votes_of_parents
  parents-Agrees d id [] v ws h = h
  parents-Agrees d id (p ∷ ps) v ws h =
      parents-Agrees d id ps
        (elim (env.match_parent p.parent id) [
          | none ↦ v
          | some expr ↦ walk_locks env token action d expr p.entities v
        ])
        (elim (env.match_parent p.parent id) [
          | none ↦ ws
          | some expr ↦ votes_of_locks env token action d expr p.entities ws
        ])
        (matched-Agrees d (env.match_parent p.parent id) p.entities v ws h)

  depths-Agrees :
      (d : ℕ) (id : Text) (v : Verdict) (ws : List Vote)
      → Agrees d v ws
      → Agrees zero (walk_depths env token action d id v) (votes_of_depths env token action d id ws)
  unfolding walk_depths votes_of_depths
  depths-Agrees zero id v ws h = parents-Agrees zero id (env.entities zero) v ws h
  depths-Agrees (suc d) id v ws h =
      let v' = walk_parents env token action (suc d) id (env.entities (suc d)) v in
      let ws' = votes_of_parents env token action (suc d) id (env.entities (suc d)) ws in
      depths-Agrees d id v' ws'
        (Agrees-up d v' ws' (parents-Agrees (suc d) id (env.entities (suc d)) v ws h))

-- A vote at the top is refused or not as the leader is.
refused_of_leads :
    (p : ℤ) (d : ℕ) (all ws : List Vote)
    → All (NotAbove p d) all
    → Any (λ w. AtTop p d w × (w.result ≡ denied)) ws
    → Any (λ w. (w.result ≡ denied) × All (NotAbove w.priority w.depth) all) ws
refused_of_leads p d all [] h a = absurd a
refused_of_leads p d all (w ∷ ws) h (inl (t, e)) = inl (
  e,
  All-imp (NotAbove p d) (NotAbove w.priority w.depth) all
      (λ u n. (omega (arith, n.0, t.0), λ k. omega (arith, n.1 (omega (arith, t.0)), t.1))) h,
)
refused_of_leads p d all (w ∷ ws) h (inr a) = inr (refused_of_leads p d all ws h a)

-- A vote with none above it is at the top.
top_of_unranked :
    (p : ℤ) (d : ℕ) (w : Vote) (ws : List Vote)
    → Any (λ u. AtTop p d u × (u.result ≡ granted)) ws
    → All (NotAbove w.priority w.depth) ws
    → w.priority ≤ℤ p
    → AtTop p d w
top_of_unranked p d w [] a h le = absurd a
top_of_unranked p d w (u ∷ us) (inl (t, e)) h le =
    (omega (arith, t.0, h.0.0), omega (arith, t.1, h.0.1 (omega (arith, t.0))))
top_of_unranked p d w (u ∷ us) (inr a) h le = top_of_unranked p d w us a h.1 le

not_refused :
    (p : ℤ) (d : ℕ) (all ws : List Vote)
    → Any (λ u. AtTop p d u × (u.result ≡ granted)) all
    → All (NotAbove p d) ws
    → All (λ w. AtTop p d w → w.result ≡ granted) ws
    → Any (λ w. (w.result ≡ denied) × All (NotAbove w.priority w.depth) all) ws
    → ⊥
not_refused p d all [] a h g r = r
not_refused p d all (w ∷ ws) a h g (inl (e, n)) =
    let top : w.result ≡ granted = g.0 (top_of_unranked p d w all a n h.0.0) in cc
not_refused p d all (w ∷ ws) a h g (inr r) = not_refused p d all ws a h.1 g.1 r

-- What a verdict in agreement says: it denies exactly when the votes refuse.
Stands-iff :
    (a : Access) (p : ℤ) (d : ℕ) (ws : List Vote)
    → Stands a p d zero ws
    → (not (is_denied a) ≡ false) ↔ IsRefused ws
Stands-iff undefined p d ws h = ((λ e. cc), λ r. absurd (rw h.0 at r))
Stands-iff granted p d ws h =
    ((λ e. cc), λ r. absurd (not_refused p d ws ws h.0.attained h.0.highest h.1 r))
Stands-iff denied p d ws h = ((λ _. refused_of_leads p d ws ws h.highest h.attained), λ _. refl)

-- With security on and a session other than the builtin one, an access is refused exactly when some
-- lock that applies denies it and no lock that applies outranks that lock: ranks go by priority
-- first, then by depth. Locks that have no opinion or a negative priority do not count.
pub authorize_id_iff :
    (env : Environment) (token id : Text) (action : Action)
    → is_builtin_token token ≡ false
    → (authorize_id env true (some token) id action ≡ false) ↔ IsRefused (votes env token action id)
unfolding authorize_id votes
authorize_id_iff env token id action h =
    let v = walk_depths env token action (env.claim_depth id) id initial in
    rw h (
      Stands-iff v.allowed v.priority v.current_depth _
        (depths-Agrees env token action (env.claim_depth id) id initial [] (refl, refl)))
