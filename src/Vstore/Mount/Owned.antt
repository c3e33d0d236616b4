-- ===== src/Vstore/Mount/Owned.antt =====
-- The references that the queues of a mount hold.
use corto.Base.{
  ℕ, zero, suc, ◌+◌, ◌-◌, ◌≡◌, ◌<◌, refl, sym, ◌∙◌, inl, inr, Bool, true, false, Option, none, some,
  List, [], ◌∷◌, ◌++◌, ◌==◌, if◌then◌else◌, arith, Bool-cases, Option-cases, subst,
}
use corto.Object.References.{Counts, release, dropped}
use corto.Object.References.Balance.{claim_count}
use corto.Vstore.Mount.{
  MountEvent, Policy, Queues, same_event, replace_event, put_event, put_historical, post,
  claim_event, release_event,
}
use corto.Vstore.Mount.Pending.{IsQueued, queued_post}

-- How many times an event stands in a queue.
abbrev pub occurrences : ℕ → List MountEvent → ℕ
occurrences a [] = 0
occurrences a (f ∷ fs) = if f.address == a then suc (occurrences a fs) else occurrences a fs

abbrev pub one_if : Bool → ℕ
one_if true = 1
one_if false = 0

-- Every event has as many references as there are places in the two queues that hold it.
abbrev pub IsOwned : Queues → Type 0
IsOwned q = (a : ℕ) → q.counts.count a ≡ occurrences a q.events + occurrences a q.historical

-- A further event comes with a reference of its own.
abbrev IsOffered : MountEvent → Queues → Type 0
IsOffered e q =
    (a : ℕ)
    → q.counts.count a
      ≡ occurrences a q.events + occurrences a q.historical + one_if (e.address == a)

occurrences-append :
    (a : ℕ) (e : MountEvent) (es : List MountEvent)
    → occurrences a (es ++ e ∷ []) ≡ occurrences a es + one_if (e.address == a)
occurrences-append a e [] = ground arith
occurrences-append a e (f ∷ fs) = ground (arith, occurrences-append a e fs)

occurrences-replace :
    (a : ℕ) (e old : MountEvent) (es rest : List MountEvent)
    → replace_event e es ≡ some (old, rest)
    → occurrences a es + one_if (e.address == a) ≡ occurrences a rest + one_if (old.address == a)
unfolding replace_event
occurrences-replace a e old [] rest h = absurd (cc)
occurrences-replace a e old (f ∷ fs) rest h = elim (Bool-cases (same_event f e)) [
  | inl b ↦
      let here : replace_event e (f ∷ fs) ≡ some (f, e ∷ fs) = rw (replace_event, b) refl in
      let same : rest ≡ e ∷ fs = cc in let first : old ≡ f = cc in rw (same, first) (ground arith)
  | inr b ↦ elim (Option-cases (replace_event e fs)) [
    | inl q ↦
        let here : replace_event e (f ∷ fs) ≡ none = rw (replace_event, b, q) refl in absurd (cc)
    | inr ((o, es), q) ↦
        let here : replace_event e (f ∷ fs) ≡ some (o, f ∷ es) = rw (replace_event, b, q) refl in
        let same : rest ≡ f ∷ es = cc in
        let first : old ≡ o = cc in
        rw (same, first) (ground (arith, occurrences-replace a e o fs es q))
  ]
]

dropped_count :
    (o p n : ℕ) (c : Counts)
    → 0 < n
    → n ≡ c.count o
    → (dropped (λ _. false) o n c).count p ≡ c.count p - one_if (o == p)
unfolding dropped
dropped_count o p zero c h e = absurd (omega arith)
dropped_count o p (suc zero) c h e = ground arith
dropped_count o p (suc (suc n)) c h e = ground arith

release_count :
    (e : MountEvent) (p : ℕ) (c : Counts)
    → 0 < c.count e.address
    → (release_event e c).count p ≡ c.count p - one_if (e.address == p)
unfolding release
release_count e p c h = dropped_count e.address p (c.count e.address) c h refl

claim_count_one :
    (e : MountEvent) (p : ℕ) (c : Counts)
    → (claim_event e c).count p ≡ c.count p + one_if (e.address == p)
claim_count_one e p c = ground (arith, claim_count (λ _. false) e.address p c)

appended-IsOwned :
    (history : Bool) (e : MountEvent) (q : Queues)
    → IsOffered e q
    → IsOwned (put_event history e none (put_historical history e q))
unfolding put_event
appended-IsOwned true e q h a =
    let ours = h a in
    let claimed = claim_count_one e a q.counts in
    omega
      (arith, ours, claimed, occurrences-append a e q.events, occurrences-append a e q.historical)
appended-IsOwned false e q h a =
    let ours = h a in omega (arith, ours, occurrences-append a e q.events)

-- The event that was replaced held a reference.
replaced_held :
    (e old : MountEvent) (es : List MountEvent) (q : Queues)
    → IsOffered e q
    → replace_event e q.events ≡ some (old, es)
    → 0 < q.counts.count old.address
replaced_held e old es q h r =
    let ours = h old.address in
    let moved = occurrences-replace old.address e old q.events es r in
    let self : one_if (old.address == old.address) ≡ 1 = ground arith in
    omega (arith, ours, moved, self)

replaced-IsOwned :
    (e old : MountEvent) (es : List MountEvent) (q : Queues)
    → IsOffered e q
    → replace_event e q.events ≡ some (old, es)
    → IsOwned (put_event false e (some (old, es)) q)
unfolding put_event
replaced-IsOwned e old es q h r a =
    let ours = h a in
    let moved = occurrences-replace a e old q.events es r in
    let let_go = release_count old a q.counts (replaced_held e old es q h r) in
    omega (arith, ours, moved, let_go)

put-IsOwned :
    (history : Bool) (e : MountEvent) (r : Option (MountEvent × List MountEvent)) (q : Queues)
    → IsOffered e q
    → replace_event e q.events ≡ r
    → (history ≡ true → r ≡ none)
    → IsOwned (put_event history e r (put_historical history e q))
put-IsOwned history e none q h r n = appended-IsOwned history e q h
put-IsOwned true e (some (old, es)) q h r n = absurd (cc (n refl))
put-IsOwned false e (some (old, es)) q h r n = replaced-IsOwned e old es q h r

-- An event that is posted with a reference of its own leaves every event with as many references as
-- there are places for it in the two queues; a replaced event is released. The mount has a sample rate,
-- and the mask NOTIFY or BATCH_NOTIFY; if it keeps a history too, no event of the object is pending.
pub post-IsOwned :
    (p : Policy) (e : MountEvent) (q : Queues)
    → IsQueued p
    → IsOffered e q
    → (p.history ≡ true → replace_event e q.events ≡ none)
    → IsOwned (post p e q)
post-IsOwned p e q kept h n =
    subst IsOwned (sym (queued_post p e q kept))
      (put-IsOwned p.history e (replace_event e q.events) q h refl n)

replaced_short :
    (e old : MountEvent) (es : List MountEvent) (q : Queues)
    → IsOffered e q
    → replace_event e q.events ≡ some (old, es)
    → (old.address == e.address) ≡ false
    → (put_event true e (some (old, es)) (put_historical true e q)).counts.count e.address + 1
      ≡ occurrences e.address (put_event true e (some (old, es)) (put_historical true e q)).events
        + occurrences e.address
            (put_event true e (some (old, es)) (put_historical true e q)).historical
unfolding put_event
replaced_short e old es q h r d =
    let ours = h e.address in
    let moved = occurrences-replace e.address e old q.events es r in
    let let_go = release_count old e.address q.counts (replaced_held e old es q h r) in
    let self : one_if (e.address == e.address) ≡ 1 = ground arith in
    let apart : one_if (old.address == e.address) ≡ 0 = rw d refl in
    omega (arith, ours, moved, let_go, self, apart, occurrences-append e.address e q.historical)

-- If the mount keeps a history too, an event that replaces a pending one has one reference less than
-- there are places for it in the two queues. The two are different events, and the new one was posted
-- with a reference of its own.
post-unowned :
    (p : Policy) (e old : MountEvent) (es : List MountEvent) (q : Queues)
    → IsQueued p
    → p.history ≡ true
    → IsOffered e q
    → replace_event e q.events ≡ some (old, es)
    → (old.address == e.address) ≡ false
    → (post p e q).counts.count e.address + 1
      ≡ occurrences e.address (post p e q).events + occurrences e.address (post p e q).historical
post-unowned p e old es q kept both h r d =
    let start : post p e q ≡ put_event true e (some (old, es)) (put_historical true e q) =
      queued_post p e q kept ∙ rw (r, both) refl in
    subst
      (λ s.
        s.counts.count e.address + 1
        ≡ occurrences e.address s.events + occurrences e.address s.historical)
      (sym start) (replaced_short e old es q h r d)
