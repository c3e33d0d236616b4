-- ===== src/Secure/Decision/Ranking.antt =====
-- The invariant of the walk of src/secure/key.c: the verdict is that of the top-ranked votes so far.
use corto.Base.{ℕ, suc, ◌≤◌, ◌≡◌, refl, List, [], ◌∷◌, inl, inr, arith, All, Any, All-imp}
use corto.Base.Int.{ℤ, pos, ◌≤ℤ◌, ◌<ℤ◌}
use corto.Secure.Authorize.{Access, granted, denied, undefined, Verdict}
use corto.Secure.Decision.Votes.{Vote, NotAbove, AtTop}

-- What a verdict of this priority and depth says of the votes, when the walk has come down to `floor`.
pub record Leads (p : ℤ) (d floor : ℕ) (r : Access) (ws : List Vote) : Type 0 where
  pub highest : All (NotAbove p d) ws
  pub attained : Any (λ w. AtTop p d w × (w.result ≡ r)) ws
  pub reached : floor ≤ d
  pub counted : pos 0 ≤ℤ p

abbrev pub Stands : Access → ℤ → ℕ → ℕ → List Vote → Type 0
Stands undefined p d floor ws = (ws ≡ []) × (p ≡ pos 0)
Stands granted p d floor ws =
    Leads p d floor granted ws × All (λ w. AtTop p d w → w.result ≡ granted) ws
Stands denied p d floor ws = Leads p d floor denied ws

abbrev pub Agrees : ℕ → Verdict → List Vote → Type 0
Agrees floor v ws = Stands v.allowed v.priority v.current_depth floor ws

-- The walk goes on one level up.
pub Agrees-up : (d : ℕ) (v : Verdict) (ws : List Vote) → Agrees (suc d) v ws → Agrees d v ws
Agrees-up d v ws h = go v.allowed h
  where
    go :
        (a : Access)
        → Stands a v.priority v.current_depth (suc d) ws
        → Stands a v.priority v.current_depth d ws
    go undefined h = h
    go granted h = (
      record {
        highest = h.0.highest;
        attained = h.0.attained;
        reached = omega arith;
        counted = h.0.counted;
      },
      h.1,
    )
    go denied h = record {
      highest = h.highest;
      attained = h.attained;
      reached = omega arith;
      counted = h.counted;
    }

module _ (p q : ℤ) (c d : ℕ) (ws : List Vote) where
  -- A higher rank stands above the same votes.
  pub raise : p ≤ℤ q → (q ≤ℤ p → c ≤ d) → All (NotAbove p c) ws → All (NotAbove q d) ws
  raise le deep =
      All-imp (NotAbove p c) (NotAbove q d) ws
        (λ w h. (omega arith, λ k. omega (arith, h.1 (omega arith), deep (omega arith))))

  -- Above all votes there is none left at the top.
  pub above : p <ℤ q → All (NotAbove p c) ws → All (λ w. AtTop q d w → w.result ≡ granted) ws
  above lt =
      All-imp (NotAbove p c) (λ w. AtTop q d w → w.result ≡ granted) ws
        (λ w h t. absurd (omega (arith, h.0, t.0)))

  -- A rank as high has the same votes at its top, and maybe fewer.
  pub level :
      p ≤ℤ q
      → c ≤ d
      → All (λ w. AtTop p c w → w.result ≡ granted) ws
      → All (λ w. AtTop q d w → w.result ≡ granted) ws
  level le deep =
      All-imp (λ w. AtTop p c w → w.result ≡ granted) (λ w. AtTop q d w → w.result ≡ granted) ws
        (λ w h t. h (omega (arith, t.0), omega (arith, t.1)))

pub Agrees-counted : (d : ℕ) (v : Verdict) (ws : List Vote) → Agrees d v ws → pos 0 ≤ℤ v.priority
Agrees-counted d v ws h = go v.allowed h
  where
    go : (a : Access) → Stands a v.priority v.current_depth d ws → pos 0 ≤ℤ v.priority
    go undefined h = rw h.1 (omega arith)
    go granted h = h.0.counted
    go denied h = h.counted

abbrev pub entry : ℕ → ℤ → Access → Vote
entry d q r = record { depth = d; priority = q; result = r }

-- A vote that takes over, over votes that stand no higher.
pub take_granted :
    (d : ℕ) (q : ℤ) (ws : List Vote)
    → pos 0 ≤ℤ q
    → All (NotAbove q d) ws
    → All (λ w. AtTop q d w → w.result ≡ granted) ws
    → Stands granted q d d (entry d q granted ∷ ws)
take_granted d q ws z h g = (
  record {
    highest = ((omega arith, λ _. omega arith), h);
    attained = inl ((omega arith, omega arith), refl);
    reached = omega arith;
    counted = z;
  },
  ((λ _. refl), g),
)

pub take_denied :
    (d : ℕ) (q : ℤ) (ws : List Vote)
    → pos 0 ≤ℤ q
    → All (NotAbove q d) ws
    → Stands denied q d d (entry d q denied ∷ ws)
take_denied d q ws z h = record {
  highest = ((omega arith, λ _. omega arith), h);
  attained = inl ((omega arith, omega arith), refl);
  reached = omega arith;
  counted = z;
}

-- A vote that does not rank above the leader leaves it in place.
pub stay :
    (p q : ℤ) (c d : ℕ) (r s : Access) (ws : List Vote)
    → q ≤ℤ p
    → Leads p c d r ws
    → Leads p c d r (entry d q s ∷ ws)
stay p q c d r s ws le h = record {
  highest = ((le, λ _. h.reached), h.highest);
  attained = inr h.attained;
  reached = h.reached;
  counted = h.counted;
}
