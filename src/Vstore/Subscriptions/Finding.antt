-- ===== src/Vstore/Subscriptions/Finding.antt =====
-- Which subscription of a mount a query finds, and lists changed at the place of one.
use corto.Base.{
  ℕ, suc, ◌+◌, ◌≡◌, refl, sym, ap, ◌∙◌, Bool, true, false, ◌&&◌, Option, none, some, List, [], ◌∷◌,
  ◌++◌, if◌then◌else◌, Text, arith, All, get_elem?, length,
}
use mathlib.Core.List.{append-nil}
use corto.Vstore.Subscriptions.{Query, Subscription, change, remove, search_loop, find_subscription}

abbrev shift : ℕ → Option ℕ → Option ℕ
shift n none = none
shift n (some k) = some (n + k)

abbrev pub or_last : Option ℕ → Option ℕ → Option ℕ × Bool
or_last (some k) last = (some k, true)
or_last none last = (last, false)

abbrev default : Option ℕ → Option ℕ → Option ℕ
default none r = r
default (some k) r = some k

shift_zero : (o : Option ℕ) → shift 0 o ≡ o
shift_zero none = refl
shift_zero (some k) = ap some (omega arith)

default-none : (o : Option ℕ) → default o none ≡ o
default-none none = refl
default-none (some k) = refl

module _ (same : Text → Text → Bool) where
  abbrev pub same_from : Query → Subscription → Bool
  same_from q s = same s.query.from q.from

  abbrev pub is_exact : Query → Subscription → Bool
  is_exact q s = same s.query.from q.from && same s.query.select q.select

  -- The place of the first subscription with the query's scope and selection.
  unfoldable pub first_exact : Query → List Subscription → Option ℕ
  first_exact q [] = none
  first_exact q (s ∷ ss) =
      let rest = shift 1 (first_exact q ss) in if is_exact q s then some 0 else rest

  -- The place of the last subscription with the query's scope.
  unfoldable pub last_from : Query → List Subscription → Option ℕ
  last_from q [] = none
  last_from q (s ∷ ss) = elim (last_from q ss) [
    | some k ↦ some (1 + k)
    | none ↦ if same_from q s then some 0 else none
  ]

  search_loop_lem :
      (q : Query) (i : ℕ) (ss : List Subscription) (r : Option ℕ)
      → search_loop same q i ss r
        ≡ or_last (shift i (first_exact q ss)) (default (shift i (last_from q ss)) r)
  unfolding search_loop first_exact last_from
  search_loop_lem q i [] r = refl
  search_loop_lem q i (s ∷ ss) r =
      ground (arith, search_loop_lem q (suc i) ss (if same_from q s then some i else r))

  -- A query finds the first subscription that has both its scope and its selection, and is told so; if
  -- there is none, it finds the last one that has its scope, whatever that selects.
  pub find_subscription_lem :
      (q : Query) (ss : List Subscription)
      → find_subscription same q ss ≡ or_last (first_exact q ss) (last_from q ss)
  unfolding find_subscription
  find_subscription_lem q ss =
      rw
        (
          search_loop_lem q 0 ss none,
          shift_zero (first_exact q ss),
          shift_zero (last_from q ss),
          default-none (last_from q ss),
        )
        refl

  search_loop-exact :
      (q : Query) (i : ℕ) (before behind : List Subscription) (s : Subscription) (r : Option ℕ)
      → All (λ x. is_exact q x ≡ false) before
      → is_exact q s ≡ true
      → search_loop same q i (before ++ s ∷ behind) r ≡ (some (i + length before), true)
  unfolding search_loop
  search_loop-exact q i [] behind s r h e = let z : i + 0 ≡ i = omega arith in rw (e, z) refl
  search_loop-exact q i (x ∷ xs) behind s r h e =
      let z : suc i + length xs ≡ i + suc (length xs) = omega arith in
      let n : is_exact q x ≡ false = h.0 in
      rw (n, search_loop-exact q (suc i) xs behind s (if same_from q x then some i else r) h.1 e, z)
        refl

  pub find_subscription-exact :
      (q : Query) (before behind : List Subscription) (s : Subscription)
      → All (λ x. is_exact q x ≡ false) before
      → is_exact q s ≡ true
      → find_subscription same q (before ++ s ∷ behind) ≡ (some (length before), true)
  unfolding find_subscription
  find_subscription-exact q before behind s h e =
      let z : 0 + length before ≡ length before = omega arith in
      search_loop-exact q 0 before behind s none h e ∙ rw z refl

  search_loop-other :
      (q : Query) (i : ℕ) (ss rest : List Subscription) (r : Option ℕ)
      → All (λ s. same_from q s ≡ false) ss
      → search_loop same q i (ss ++ rest) r ≡ search_loop same q (i + length ss) rest r
  unfolding search_loop
  search_loop-other q i [] rest r h = let z : i + 0 ≡ i = omega arith in rw z refl
  search_loop-other q i (s ∷ ss) rest r h =
      let z : suc i + length ss ≡ i + suc (length ss) = omega arith in
      let n : same_from q s ≡ false = h.0 in
      rw (n, search_loop-other q (suc i) ss rest r h.1, z) refl

  -- Behind subscriptions of other scopes.
  pub find_subscription-last :
      (q : Query) (ss : List Subscription) (s : Subscription)
      → All (λ x. same_from q x ≡ false) ss
      → same_from q s ≡ true
      → find_subscription same q (ss ++ s ∷ []) ≡ (some (length ss), same s.query.select q.select)
  unfolding find_subscription search_loop
  find_subscription-last q ss s h e =
      let z : 0 + length ss ≡ length ss = omega arith in
      search_loop-other q 0 ss (s ∷ []) none h ∙ ground (arith, e, z)

  pub find_subscription-none :
      (q : Query) (ss : List Subscription)
      → All (λ x. same_from q x ≡ false) ss
      → find_subscription same q ss ≡ (none, false)
  unfolding find_subscription search_loop
  find_subscription-none q ss h =
      ap (λ l. search_loop same q 0 l none) (sym (append-nil ss))
      ∙ search_loop-other q 0 ss [] none h

pub change-append :
    (f : Subscription → Subscription) (before behind : List Subscription) (s : Subscription)
    → change f (length before) (before ++ s ∷ behind) ≡ before ++ f s ∷ behind
unfolding change
change-append f [] behind s = refl
change-append f (x ∷ xs) behind s = ap (λ r. x ∷ r) (change-append f xs behind s)

pub remove-append :
    (before behind : List Subscription) (s : Subscription)
    → remove (length before) (before ++ s ∷ behind) ≡ before ++ behind
unfolding remove
remove-append [] behind s = refl
remove-append (x ∷ xs) behind s = ap (λ r. x ∷ r) (remove-append xs behind s)

pub get_elem?-append :
    (before behind : List Subscription) (s : Subscription)
    → get_elem? (before ++ s ∷ behind) (length before) ≡ some s
get_elem?-append [] behind s = refl
get_elem?-append (x ∷ xs) behind s = get_elem?-append xs behind s
