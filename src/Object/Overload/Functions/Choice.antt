-- ===== src/Object/Overload/Functions/Choice.antt =====
-- Which function a request with arguments finds.
use corto.Base.{
  ℕ, ◌≤◌, ◌<◌, ◌≡◌, refl, sym, ap, ◌∙◌, inl, inr, Bool, true, false, none, some, List, [], ◌∷◌,
  ◌++◌, if◌then◌else◌, Text, arith, All, is_some, Bool-cases, ltb, leb,
}
use mathlib.Core.List.{append-nil}
use corto.Object.Overload.Functions.{
  failed, no_match, no_match_overload, distance, Entry, procedure, other, Best, infinite, rejected,
  at, Walk, start, function_walk, walk_all, conclude, function_from_sequence, same_best, below,
  within, consider, consider_rejected,
}

-- The entry is no nearer than the distance.
abbrev IsNoNearer : ℕ → Entry → Type 0
IsNoNearer m (procedure a n o failed) = ⊥
IsNoNearer m (procedure a n o no_match) = Unit
IsNoNearer m (procedure a n o no_match_overload) = Unit
IsNoNearer m (procedure a n o (distance d)) = m ≤ d
IsNoNearer m (other a same) = same ≡ false

-- The entry is farther than the distance.
abbrev IsFarther : ℕ → Entry → Type 0
IsFarther m (procedure a n o failed) = ⊥
IsFarther m (procedure a n o no_match) = Unit
IsFarther m (procedure a n o no_match_overload) = Unit
IsFarther m (procedure a n o (distance d)) = m < d
IsFarther m (other a same) = same ≡ false

abbrev IsAbove : ℕ → Best → Type 0
IsAbove m infinite = Unit
IsAbove m rejected = Unit
IsAbove m (at n) = m < n

-- Before the nearest: no error, and nothing as near.
abbrev IsOpen : ℕ → Walk → Type 0
IsOpen m w = (w.error ≡ false) × IsAbove m w.d

IsAbove-step :
    (m d : ℕ) (b : Best) → m < d → IsAbove m b → IsAbove m (if below d b then at d else b)
IsAbove-step m d infinite h k = h
IsAbove-step m d rejected h k = h
IsAbove-step m d (at n) h k = elim (Bool-cases (ltb d n)) [ inl e ↦ rw e h | inr e ↦ rw e k ]

above_tests :
    (d : ℕ) (b : Best)
    → IsAbove d b
    → (below d b ≡ true) × (within d b ≡ true) × (same_best (at d) b ≡ false)
above_tests d infinite h = (refl, refl, refl)
above_tests d rejected h = (refl, refl, refl)
above_tests d (at n) h = (ground arith, ground arith, ground arith)

walk-append :
    (r : Text) (es fs : List Entry) (w : Walk) (m : ℕ)
    → All (IsFarther m) es
    → IsOpen m w
    → (v : Walk) × IsOpen m v × (walk_all true r (es ++ fs) w ≡ walk_all true r fs v)
unfolding walk_all
walk-append r [] fs w m h o = (w, o, refl)
walk-append r (procedure a n b failed ∷ es) fs w m h o = absurd h.0
walk-append r (procedure a n b no_match ∷ es) fs w m h o = walk-append r es fs w m h.1 o
walk-append r (procedure a n b no_match_overload ∷ es) fs w m h o =
    walk-append r es fs (function_walk true r (procedure a n b no_match_overload) w).0 m h.1
      (ground arith)
walk-append r (procedure a n b (distance d) ∷ es) fs w m h o =
    walk-append r es fs (function_walk true r (procedure a n b (distance d)) w).0 m h.1
      (o.0, IsAbove-step m d w.d h.0 o.1)
walk-append r (other a same ∷ es) fs w m h o = rw h.0 (walk-append r es fs w m h.1 o)

farther_step : (w : Walk) (m d a : ℕ) → m < d → w.d ≡ at m → consider a d w ≡ w
unfolding consider
farther_step w m d a h e = let (b, i) = not_within d m h in rw (e, b, i) refl
  where
    not_within : (d m : ℕ) → m < d → (ltb d m ≡ false) × (leb d m ≡ false)
    not_within d m h = (ground arith, ground arith)

rejected_step : (w : Walk) (a x : ℕ) → w.result ≡ some x → consider_rejected a w ≡ w
unfolding consider_rejected
rejected_step w a x q = let s : is_some w.result ≡ true = ap is_some q in rw s refl

tied_step :
    (w : Walk) (m d a x : ℕ)
    → m ≤ d
    → w.d ≡ at m
    → w.old_d ≡ at m
    → w.result ≡ some x
    → ((consider a d w).d ≡ at m)
      × ((consider a d w).old_d ≡ at m)
      × ((consider a d w).result ≡ some x)
unfolding consider
tied_step w m d a x h e o q = let i = not_below d m h in (ground arith, ground arith, ground arith)
  where
    not_below : (d m : ℕ) → m ≤ d → ltb d m ≡ false
    not_below d m h = ground arith

second_step :
    (w : Walk) (m c x : ℕ)
    → w.d ≡ at m
    → w.result ≡ some x
    → ((consider c m w).d ≡ at m)
      × ((consider c m w).old_d ≡ at m)
      × ((consider c m w).result ≡ some x)
unfolding consider
second_step w m c x e q = (ground arith, ground arith, ground arith)

tied : (w : Walk) (m : ℕ) → w.d ≡ at m → w.old_d ≡ at m → conclude w ≡ (none, at m)
unfolding conclude
tied w m e o = ground arith

-- Behind it.
walk-behind :
    (r : Text) (fs gs : List Entry) (w : Walk) (m : ℕ) (a : ℕ)
    → All (IsFarther m) fs
    → w.d ≡ at m
    → w.result ≡ some a
    → walk_all true r (fs ++ gs) w ≡ walk_all true r gs w
unfolding walk_all
walk-behind r [] gs w m x h e q = refl
walk-behind r (procedure a n b failed ∷ es) gs w m x h e q = absurd h.0
walk-behind r (procedure a n b no_match ∷ es) gs w m x h e q = walk-behind r es gs w m x h.1 e q
walk-behind r (procedure a n b no_match_overload ∷ es) gs w m x h e q =
    ap (walk_all true r (es ++ gs)) (rejected_step w a x q) ∙ walk-behind r es gs w m x h.1 e q
walk-behind r (procedure a n b (distance d) ∷ es) gs w m x h e q =
    ap (walk_all true r (es ++ gs)) (farther_step w m d a h.0 e) ∙ walk-behind r es gs w m x h.1 e q
walk-behind r (other a same ∷ es) gs w m x h e q = rw h.0 (walk-behind r es gs w m x h.1 e q)

-- As near as the nearest: its distance is in both variables.
walk-tied :
    (r : Text) (fs : List Entry) (w : Walk) (m : ℕ) (a : ℕ)
    → All (IsNoNearer m) fs
    → w.d ≡ at m
    → w.old_d ≡ at m
    → w.result ≡ some a
    → ((walk_all true r fs w).d ≡ at m) × ((walk_all true r fs w).old_d ≡ at m)
unfolding walk_all
walk-tied r [] w m x h e o q = (e, o)
walk-tied r (procedure a n b failed ∷ es) w m x h e o q = absurd h.0
walk-tied r (procedure a n b no_match ∷ es) w m x h e o q = walk-tied r es w m x h.1 e o q
walk-tied r (procedure a n b no_match_overload ∷ es) w m x h e o q =
    let (k, l) = walk-tied r es w m x h.1 e o q in
    let same = ap (walk_all true r es) (rejected_step w a x q) in
    (ap (λ (v : Walk). v.d) same ∙ k, ap (λ (v : Walk). v.old_d) same ∙ l)
walk-tied r (procedure a n b (distance d) ∷ es) w m x h e o q =
    let (ce, co, cq) = tied_step w m d a x h.0 e o q in
    walk-tied r es (consider a d w) m x h.1 ce co cq
walk-tied r (other a same ∷ es) w m x h e o q = rw h.0 (walk-tied r es w m x h.1 e o q)

first_step :
    (r : Text) (w : Walk) (m a : ℕ)
    → IsOpen m w
    → ((consider a m w).d ≡ at m)
      × ((consider a m w).result ≡ some a)
      × (conclude (consider a m w) ≡ (some a, at m))
unfolding consider conclude
first_step r w m a (e, o) =
    let (b, i, s) = above_tests m w.d o in (rw b refl, rw b refl, rw (b, i, s, e) refl)

-- A request with arguments finds the one function whose distance is less than those of all others,
-- wherever it stands among them: if none of the others is in error, none has a distance as small, and
-- none is another object with the request as its id.
pub function_from_sequence-nearest :
    (r : Text) (before behind : List Entry) (a d : ℕ) (n : Text) (b : Bool)
    → All (IsFarther d) before
    → All (IsFarther d) behind
    → function_from_sequence true r (before ++ procedure a n b (distance d) ∷ behind)
      ≡ (some a, at d)
unfolding function_from_sequence
function_from_sequence-nearest r before behind a d n b h k =
    let (v, o, e) =
      walk-append r before (procedure a n b (distance d) ∷ behind) start d h (refl, tt) in
    let (cd, cr, cc) = first_step r v d a o in
    ap conclude (
      e
      ∙ ap (λ t. walk_all true r t (consider a d v)) (sym (append-nil behind))
      ∙ walk-behind r behind [] (consider a d v) d a k cd cr)
    ∙ cc

-- Where two functions have the least distance, the request finds none: it is ambiguous.
function_from_sequence-ambiguous :
    (r : Text) (before middle behind : List Entry) (a c d : ℕ) (n m : Text) (b k : Bool)
    → All (IsFarther d) before
    → All (IsFarther d) middle
    → All (IsNoNearer d) behind
    → function_from_sequence true r
        (before ++ procedure a n b (distance d) ∷ (middle ++ procedure c m k (distance d) ∷ behind))
      ≡ (none, at d)
unfolding function_from_sequence
function_from_sequence-ambiguous r before middle behind a c d n m b k h i j =
    let rest = procedure c m k (distance d) ∷ behind in
    let (v, o, e) =
      walk-append r before (procedure a n b (distance d) ∷ (middle ++ rest)) start d h (refl, tt) in
    let (cd, cr, _) = first_step r v d a o in
    let (td, to, tr) = second_step (consider a d v) d c a cd cr in
    let (wd, wo) = walk-tied r behind (consider c d (consider a d v)) d a j td to tr in
    ap conclude (e ∙ walk-behind r middle rest (consider a d v) d a i cd cr)
    ∙ tied (walk_all true r behind (consider c d (consider a d v))) d wd wo
