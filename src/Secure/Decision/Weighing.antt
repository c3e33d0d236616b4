-- ===== src/Secure/Decision/Weighing.antt =====
-- One lock weighed against the verdict so far (src/secure/key.c): the branches of the walk's tests.
use corto.Base.{
  ℕ, ◌≤◌, ◌≡◌, refl, false, List, [], ◌∷◌, ◌⊎◌, inl, inr, arith, some, All, ◌<◌, ◌||◌, ◌==◌,
  if◌then◌else◌,
}
use corto.Base.Int.{ℤ, pos, ◌≤ℤ◌, ◌<ℤ◌, ltb_ℤ, leb_ℤ}
use corto.Secure.Authorize.{
  Access, granted, denied, undefined, Lock, Verdict, overwrite, is_undefined,
}
use corto.Secure.Decision.Votes.{Vote, vote, NotAbove, AtTop}
use corto.Secure.Decision.Ranking.{
  Stands, Agrees, raise, above, level, Agrees-counted, entry, take_granted, take_denied, stay,
}

-- `eval_lock` with the method's result as an argument.
unfoldable pub weigh : ℕ → Lock → Access → Verdict → Verdict
unfolding overwrite
weigh d lock r v =
    if leb_ℤ v.priority lock.priority
    then if is_undefined v.allowed || (v.current_depth == d) || ltb_ℤ v.priority lock.priority
      then overwrite d lock r v
      else v
    else v

weigh_undefined : (d : ℕ) (lock : Lock) (v : Verdict) → weigh d lock undefined v ≡ v
unfolding weigh
weigh_undefined d lock v = ground arith

weigh_negative :
    (d : ℕ) (lock : Lock) (r : Access) (v : Verdict)
    → pos 0 ≤ℤ v.priority
    → lock.priority <ℤ pos 0
    → weigh d lock r v ≡ v
unfolding weigh
weigh_negative d lock r v h k = ground arith

abbrev seated : ℕ → Lock → Access → Verdict
seated d lock r = record {
  allowed = r;
  priority = lock.priority;
  current_depth = d;
  active_lock = some lock;
}

weigh_takes_first :
    (d : ℕ) (lock : Lock) (r : Access) (v : Verdict)
    → is_undefined r ≡ false
    → v.allowed ≡ undefined
    → v.priority ≤ℤ lock.priority
    → weigh d lock r v ≡ seated d lock r
unfolding weigh
weigh_takes_first d lock r v o e le = ground arith

weigh_takes_higher :
    (d : ℕ) (lock : Lock) (r : Access) (v : Verdict)
    → is_undefined r ≡ false
    → v.priority <ℤ lock.priority
    → weigh d lock r v ≡ seated d lock r
unfolding weigh
weigh_takes_higher d lock r v o lt = ground arith

weigh_takes_level :
    (d : ℕ) (lock : Lock) (r : Access) (v : Verdict)
    → is_undefined r ≡ false
    → v.allowed ≡ granted
    → v.current_depth ≡ d
    → v.priority ≤ℤ lock.priority
    → weigh d lock r v ≡ seated d lock r
unfolding weigh
weigh_takes_level d lock r v o e c le = ground arith

weigh_keeps_denied :
    (d : ℕ) (lock : Lock) (r : Access) (v : Verdict)
    → v.allowed ≡ denied
    → lock.priority ≤ℤ v.priority
    → weigh d lock r v ≡ v
unfolding weigh
weigh_keeps_denied d lock r v e le = ground arith

weigh_keeps_deeper :
    (d : ℕ) (lock : Lock) (r : Access) (v : Verdict)
    → v.allowed ≡ granted
    → lock.priority ≤ℤ v.priority
    → d < v.current_depth
    → weigh d lock r v ≡ v
unfolding weigh
weigh_keeps_deeper d lock r v e le lt = ground arith

weigh_keeps_lower :
    (d : ℕ) (lock : Lock) (r : Access) (v : Verdict)
    → lock.priority <ℤ v.priority
    → weigh d lock r v ≡ v
unfolding weigh
weigh_keeps_lower d lock r v lt = ground arith

vote_undefined : (d : ℕ) (q : ℤ) (ws : List Vote) → vote d q undefined ws ≡ ws
vote_undefined d q ws = ground arith

vote_negative : (d : ℕ) (q : ℤ) (r : Access) (ws : List Vote) → q <ℤ pos 0 → vote d q r ws ≡ ws
vote_negative d q r ws h = ground arith

vote_counts :
    (d : ℕ) (q : ℤ) (r : Access) (ws : List Vote)
    → pos 0 ≤ℤ q
    → is_undefined r ≡ false
    → vote d q r ws ≡ entry d q r ∷ ws
vote_counts d q r ws h o = ground arith

ℤ-order : (a b : ℤ) → (a <ℤ b) ⊎ (b ≤ℤ a)
ℤ-order a b = omega arith

ℕ-order : (a b : ℕ) → (a < b) ⊎ (b ≤ a)
ℕ-order a b = omega arith

-- A vote of a verdict that takes over from votes below it.
take :
    (d : ℕ) (q : ℤ) (r : Access) (ws : List Vote)
    → is_undefined r ≡ false
    → pos 0 ≤ℤ q
    → All (NotAbove q d) ws
    → All (λ w. AtTop q d w → w.result ≡ granted) ws
    → Stands r q d d (entry d q r ∷ ws)
take d q granted ws o z h g = take_granted d q ws z h g
take d q denied ws o z h g = take_denied d q ws z h
take d q undefined ws o z h g = cc

module _ (d : ℕ) (lock : Lock) (r : Access) (v : Verdict) (ws : List Vote)
    (o : is_undefined r ≡ false) (z : pos 0 ≤ℤ lock.priority) where
  step_undefined :
      v.allowed ≡ undefined
      → ws ≡ []
      → v.priority ≡ pos 0
      → Agrees d (weigh d lock r v) (entry d lock.priority r ∷ ws)
  step_undefined e n p =
      rw (weigh_takes_first d lock r v o e (rw p z), n) (take d lock.priority r [] o z tt tt)

  step_higher :
      All (NotAbove v.priority v.current_depth) ws
      → v.priority <ℤ lock.priority
      → Agrees d (weigh d lock r v) (entry d lock.priority r ∷ ws)
  step_higher h lt = rw (weigh_takes_higher d lock r v o lt) (
      take d lock.priority r ws o z
        (raise v.priority lock.priority v.current_depth d ws (omega arith)
          (λ k. absurd (omega arith)) h)
        (above v.priority lock.priority v.current_depth d ws lt h))

  step_denied :
      v.allowed ≡ denied
      → Stands denied v.priority v.current_depth d ws
      → Agrees d (weigh d lock r v) (entry d lock.priority r ∷ ws)
  step_denied e h = elim (ℤ-order v.priority lock.priority) [
    | inl lt ↦ step_higher h.highest lt
    | inr le ↦
        rw (weigh_keeps_denied d lock r v e le, e)
          (stay v.priority lock.priority v.current_depth d denied r ws le h)
  ]

  step_lower :
      v.allowed ≡ granted
      → lock.priority ≤ℤ v.priority
      → (v.priority ≤ℤ lock.priority → d < v.current_depth)
      → weigh d lock r v ≡ v
      → Stands granted v.priority v.current_depth d ws
      → Agrees d (weigh d lock r v) (entry d lock.priority r ∷ ws)
  step_lower e le deep w h =
      rw (w, e)
        (
          stay v.priority lock.priority v.current_depth d granted r ws le h.0,
          ((λ t. absurd (omega (arith, t.0, t.1, deep t.0))), h.1),
        )

  step_level :
      v.allowed ≡ granted
      → v.priority ≤ℤ lock.priority
      → lock.priority ≤ℤ v.priority
      → Stands granted v.priority v.current_depth d ws
      → Agrees d (weigh d lock r v) (entry d lock.priority r ∷ ws)
  step_level e le ge h = elim (ℕ-order d v.current_depth) [
    | inl lt ↦ step_lower e ge (λ _. lt) (weigh_keeps_deeper d lock r v e ge lt) h
    | inr back ↦ rw (weigh_takes_level d lock r v o e (omega (arith, h.0.reached)) le) (
        take d lock.priority r ws o z
          (raise v.priority lock.priority v.current_depth d ws le (λ _. back) h.0.highest)
          (level v.priority lock.priority v.current_depth d ws le back h.1))
  ]

  step_granted :
      v.allowed ≡ granted
      → Stands granted v.priority v.current_depth d ws
      → Agrees d (weigh d lock r v) (entry d lock.priority r ∷ ws)
  step_granted e h = elim (ℤ-order v.priority lock.priority) [
    | inl lt ↦ step_higher h.0.highest lt
    | inr ge ↦ elim (ℤ-order lock.priority v.priority) [
      | inl lt ↦ step_lower e ge (λ k. absurd (omega arith)) (weigh_keeps_lower d lock r v lt) h
      | inr le ↦ step_level e le ge h
    ]
  ]

  step_counted :
      (a : Access)
      → v.allowed ≡ a
      → Stands a v.priority v.current_depth d ws
      → Agrees d (weigh d lock r v) (entry d lock.priority r ∷ ws)
  step_counted undefined e h = step_undefined e h.0 h.1
  step_counted granted e h = step_granted e h
  step_counted denied e h = step_denied e h

step_opinion :
    (d : ℕ) (lock : Lock) (r : Access) (v : Verdict) (ws : List Vote)
    → is_undefined r ≡ false
    → Agrees d v ws
    → Agrees d (weigh d lock r v) (vote d lock.priority r ws)
step_opinion d lock r v ws o h = elim (ℤ-order lock.priority (pos 0)) [
  | inl neg ↦
      rw
        (
          vote_negative d lock.priority r ws neg,
          weigh_negative d lock r v (Agrees-counted d v ws h) neg,
        )
        h
  | inr z ↦
      rw (vote_counts d lock.priority r ws z o) (step_counted d lock r v ws o z v.allowed refl h)
]

-- One lock weighed keeps the verdict in agreement with the votes.
pub weigh-Agrees :
    (d : ℕ) (lock : Lock) (r : Access) (v : Verdict) (ws : List Vote)
    → Agrees d v ws
    → Agrees d (weigh d lock r v) (vote d lock.priority r ws)
weigh-Agrees d lock undefined v ws h =
    rw (vote_undefined d lock.priority ws, weigh_undefined d lock v) h
weigh-Agrees d lock granted v ws h = step_opinion d lock granted v ws refl h
weigh-Agrees d lock denied v ws h = step_opinion d lock denied v ws refl h
