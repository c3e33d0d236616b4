-- ===== src/Object/Path/Chains.antt =====
-- Walks along the path of an object, from the root down.
use corto.Base.{
  ℕ, zero, suc, ◌+◌, ◌≤◌, ◌<◌, ◌≡◌, refl, ap, ◌∙◌, inl, Bool, true, false, some, List, [], ◌∷◌,
  ◌++◌, Text, length, arith,
}
use corto.Object.Lookup.Matching.{Follows, end, scope}
use corto.Object.Lookup.Order.{IsName, IsName-IsId, IsTolower}
use corto.Object.References.{Counts, claim}
use corto.Object.References.Balance.{IsLive}
use corto.Object.Path.{Scopes, scan_element, skip_slash, at_end, scope_stack, print_stack, printed}
use corto.Object.Path.Search.{stopped, walk, pass, go_on}
use corto.Object.Path.Elements.{scan_plain}
use corto.Object.Path.Rounds.{walk-last, walk-on}
use corto.Object.Path.Places.{IsSearch, IsPlaced, IsChain}
use corto.Object.Path.Step.{IsNonempty, held, pass_placed}

name_skip : (n t : Text) → IsName n → IsNonempty n → skip_slash (n ++ t) ≡ n ++ t
name_skip [] t h (c, cs, e) = absurd (cc)
name_skip (c ∷ cs) t h e = ground arith

name_more : (n t : Text) → IsName n → IsNonempty n → at_end (n ++ t) ≡ false
name_more [] t h (c, cs, e) = absurd (cc)
name_more (c ∷ cs) t h e = ground arith

pub length-append : (a b : Text) → length (a ++ b) ≡ length a + length b
length-append [] b = omega arith
length-append (x ∷ a) b = omega (arith, length-append a b)

pub append_assoc : (a b c : Text) → (a ++ b) ++ c ≡ a ++ (b ++ c)
append_assoc [] b c = refl
append_assoc (x ∷ a) b c = ap (λ y. x ∷ y) (append_assoc a b c)

-- The characters of a printed path are at least its elements.
pub print_stack-length :
    (s : Scopes) (tolower : ℕ → ℕ) (c : Counts) (o : ℕ) (os : List ℕ)
    → IsChain tolower s c (o ∷ os)
    → length os ≤ length (print_stack s (o ∷ os))
unfolding print_stack
print_stack-length s tolower c o [] h = omega arith
print_stack-length s tolower c o (p ∷ os) (placed, live, h) = rw placed.id (
    omega (
      arith,
      length-append (print_stack s (p ∷ os)) (b'/' ∷ placed.name),
      print_stack-length s tolower c p os h,
    ))

module _ (tolower : ℕ → ℕ) (ascii : IsTolower tolower) (s : Scopes) (search : IsSearch tolower s)
    (root_builtin : s.builtin s.root ≡ true) where
  module _ (first : Bool) (p o : ℕ) (text t : Text) (c : Counts) (placed : IsPlaced tolower s p o)
      (e : skip_slash text ≡ placed.name ++ t) (follows : Follows t) where
    more_placed : at_end (skip_slash text) ≡ false
    more_placed = ap at_end e ∙ name_more placed.name t placed.proper placed.nonempty

    scan_placed : scan_element false false (skip_slash text) ≡ some (false, t)
    scan_placed =
        ap (scan_element false false) e
        ∙ scan_plain placed.name t (IsName-IsId placed.name placed.proper) follows

    goes_placed :
        IsLive s.builtin c p
        → IsLive s.builtin c o
        → pass s first p (skip_slash text) (some (false, t)) (held s first p c)
          ≡ go_on o (claim s.builtin o c)
    goes_placed h k =
        ap (λ q. pass s first p q (some (false, t)) (held s first p c)) e
        ∙ pass_placed tolower ascii s search p o placed t follows first c h k

  module _ (rounds : ℕ) (first : Bool) (p o : ℕ) (lastelem text : Text) (c : Counts)
      (placed : IsPlaced tolower s p o) (h : IsLive s.builtin c p) (k : IsLive s.builtin c o) where
    -- The last element.
    pub walk_to_end :
        skip_slash text ≡ placed.name ++ []
        → walk s (suc rounds) first p lastelem text (held s first p c)
          ≡ stopped (some o) p (skip_slash text) [] (claim s.builtin o c)
    walk_to_end e =
        walk-last s rounds first p lastelem text (held s first p c)
          (more_placed first p o text [] c placed e end) false [] o (claim s.builtin o c)
          (scan_placed first p o text [] c placed e end)
          (goes_placed first p o text [] c placed e end h k) refl

    -- An element that a '/' follows.
    pub walk_to :
        (t : Text)
        → skip_slash text ≡ placed.name ++ b'/' ∷ t
        → walk s (suc rounds) first p lastelem text (held s first p c)
          ≡ walk s rounds false o (skip_slash text) (b'/' ∷ t) (claim s.builtin o c)
    walk_to t e =
        walk-on s rounds first p lastelem text (held s first p c)
          (more_placed first p o text (b'/' ∷ t) c placed e (scope t)) false (b'/' ∷ t) o
          (claim s.builtin o c) (scan_placed first p o text (b'/' ∷ t) c placed e (scope t))
          (goes_placed first p o text (b'/' ∷ t) c placed e (scope t) h k) refl

  pub chain-IsLive :
      (c : Counts) (o : ℕ) (os : List ℕ) → IsChain tolower s c (o ∷ os) → IsLive s.builtin c o
  chain-IsLive c o [] (e, _, _) = inl (ap s.builtin e ∙ root_builtin)
  chain-IsLive c o (p ∷ os) (placed, live, h) = live

  abbrev pub is_first : List ℕ → Bool
  is_first [] = true
  is_first (p ∷ os) = false

  -- The loop walks down to an object, with a claim on it, or none on the root.
  pub walk_chain :
      (c : Counts) (o : ℕ) (os : List ℕ)
      → IsChain tolower s c (o ∷ os)
      → (n rounds : ℕ) (t : Text) → n ≡ length os + rounds
      → (lastelem : Text) × (walk s n true s.root [] (print_stack s (o ∷ os) ++ b'/' ∷ t) c
          ≡ walk s rounds (is_first os) o lastelem (b'/' ∷ t) (held s (is_first os) o c))
  unfolding print_stack
  walk_chain c o [] (e, _, none_id) n rounds t same =
      let enough : n ≡ rounds = omega arith in ([], rw (enough, none_id, e) refl)
  walk_chain c o (p ∷ os) (placed, live, h) n rounds t same =
      let (lastelem, e) =
        walk_chain c p os h n (suc rounds) (placed.name ++ b'/' ∷ t) (omega arith) in
      let text : (print_stack s (p ∷ os) ++ printed s (s.id_of o)) ++ b'/' ∷ t
          ≡ print_stack s (p ∷ os) ++ b'/' ∷ (placed.name ++ b'/' ∷ t) =
        ap (λ i. (print_stack s (p ∷ os) ++ printed s i) ++ b'/' ∷ t) placed.id
        ∙ append_assoc (print_stack s (p ∷ os)) (b'/' ∷ placed.name) (b'/' ∷ t) in
      (
        placed.name ++ b'/' ∷ t,
        ap (λ q. walk s n true s.root [] q c) text
            ∙ e
            ∙ walk_to rounds (is_first os) p o lastelem (b'/' ∷ placed.name ++ b'/' ∷ t) c placed
                (chain-IsLive c p os h) live t refl,
      )

  -- The stack of `corto_fullpath_intern` holds the chain.
  pub scope_stack_chain :
      (c : Counts) (o : ℕ) (os : List ℕ) (room : ℕ)
      → IsChain tolower s c (o ∷ os)
      → length os < room
      → scope_stack s room o ≡ some (o ∷ os)
  unfolding scope_stack
  scope_stack_chain c o os zero h l = absurd (omega arith)
  scope_stack_chain c o [] (suc room) (_, e, _) l = rw (scope_stack, e) refl
  scope_stack_chain c o (p ∷ os) (suc room) (placed, live, h) l =
      rw (scope_stack, placed.parent, scope_stack_chain c p os room h (omega arith)) refl

  pub print_starts :
      (c : Counts) (o : ℕ) (os : List ℕ)
      → IsChain tolower s c (o ∷ os)
      → (n : Text) → (rest : Text) × (print_stack s (o ∷ os) ++ b'/' ∷ n ≡ b'/' ∷ rest)
  unfolding print_stack
  print_starts c o [] (_, _, e) n = (n, rw e refl)
  print_starts c o (p ∷ os) (placed, live, h) n =
      let (rest, e) = print_starts c p os h (placed.name ++ b'/' ∷ n) in
      (
        rest,
        rw placed.id (append_assoc (print_stack s (p ∷ os)) (b'/' ∷ placed.name) (b'/' ∷ n)) ∙ e,
      )
