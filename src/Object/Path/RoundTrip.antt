-- ===== src/Object/Path/RoundTrip.antt =====
-- A lookup of the path that `corto_fullpath` prints leads back to the object.
use corto.Base.{
  ℕ, suc, ◌+◌, ◌-◌, ◌<◌, ◌≡◌, refl, sym, ap, ◌∙◌, Bool, true, false, Option, some, List, [], ◌∷◌,
  ◌++◌, ◌==◌, if◌then◌else◌, Text, length, arith,
}
use corto.Object.Lookup.Order.{IsTolower}
use corto.Object.References.{Counts, claim}
use corto.Object.Path.{Scopes, print_stack, printed, fullpath, is_lang, print_path}
use corto.Object.Path.Search.{stopped, walk}
use corto.Object.Path.Resolve.{
  found, after_walk, conclude_lookup, or_root, may_resume, lookup_intern, resolve_intern,
}
use corto.Object.Path.Places.{IsSearch, IsChain}
use corto.Object.Path.Chains.{
  print_stack-length, length-append, chain-IsLive, walk_to_end, walk_chain, scope_stack_chain,
  print_starts, is_first,
}

pub append_nil : (a : Text) → a ++ [] ≡ a
append_nil [] = refl
append_nil (x ∷ a) = ap (λ y. x ∷ y) (append_nil a)

module _ (tolower : ℕ → ℕ) (ascii : IsTolower tolower) (s : Scopes) (search : IsSearch tolower s)
    (root_builtin : s.builtin s.root ≡ true) where
  -- An object that is known, and that may be read.
  abbrev pub IsReadable : ℕ → Type 0
  IsReadable o = (s.unknown o ≡ false) × (s.forbidden o ≡ false)

  pub after_walk_found :
      (resume secure : Bool) (parent o prev : ℕ) (lastelem : Text) (c : Counts)
      → IsReadable o
      → after_walk s resume secure parent (stopped (some o) prev lastelem [] c) ≡ found o c
  unfolding after_walk conclude_lookup
  after_walk_found resume secure parent o prev lastelem c (known, readable) =
      rw (after_walk, known, readable) (ground arith)

  -- What the loop makes of the path of an object below the root.
  walk_path :
      (c : Counts) (o p : ℕ) (os : List ℕ) (text : Text)
      → IsChain tolower s c (o ∷ p ∷ os)
      → text ≡ print_stack s (o ∷ p ∷ os)
      → (prev : ℕ) × (lastelem : Text) × (walk s (suc (length text)) true s.root [] text c
          ≡ stopped (some o) prev lastelem [] (claim s.builtin o c))
  unfolding print_stack
  walk_path c o p os text (placed, live, h) e =
      let path : text ≡ print_stack s (p ∷ os) ++ b'/' ∷ placed.name =
        e ∙ ap (λ i. print_stack s (p ∷ os) ++ printed s i) placed.id in
      let rounds = length text - length os in
      let long = print_stack-length s tolower c p os h in
      let whole : length text ≡ length (print_stack s (p ∷ os)) + length (b'/' ∷ placed.name) =
        ap length path ∙ length-append (print_stack s (p ∷ os)) (b'/' ∷ placed.name) in
      let (lastelem, w) =
        walk_chain tolower ascii s search root_builtin c p os h (suc (length text)) (suc rounds)
          placed.name (omega arith) in
      (
        p,
        placed.name,
        ap (λ q. walk s (suc (length text)) true s.root [] q c) path
            ∙ w
            ∙ walk_to_end tolower ascii s search root_builtin rounds
                (is_first tolower ascii s search root_builtin os) p o lastelem (b'/' ∷ placed.name)
                c placed (chain-IsLive tolower ascii s search root_builtin c p os h) live
                (sym (append_nil placed.name)),
      )

  module _ (c : Counts) (o p : ℕ) (os : List ℕ) (h : IsChain tolower s c (o ∷ p ∷ os))
      (readable : IsReadable o) where
    path_starts : (rest : Text) × (print_stack s (o ∷ p ∷ os) ≡ b'/' ∷ rest)
    unfolding print_stack
    path_starts =
        let (placed, live, k) = h in
        let (rest, e) = print_starts tolower ascii s search root_builtin c p os k placed.name in
        (rest, ap (λ i. print_stack s (p ∷ os) ++ printed s i) placed.id ∙ e)

    lookup_path :
        (scope : Option ℕ) (text : Text) (resume secure : Bool)
        → text ≡ print_stack s (o ∷ p ∷ os)
        → lookup_intern s scope text resume secure c ≡ found o (claim s.builtin o c)
    unfolding lookup_intern
    lookup_path scope [] resume secure e = absurd (cc path_starts.1)
    lookup_path scope (ch ∷ id) resume secure e =
        let (rest, starts) = path_starts in
        let slash : ch ≡ b'/' = cc in
        let from : (if ch == b'/' then s.root else or_root s scope) ≡ s.root = rw slash refl in
        let (prev, lastelem, w) = walk_path c o p os (ch ∷ id) h e in
        rw (from, w)
          (after_walk_found (may_resume s resume (or_root s scope)) secure (or_root s scope) o prev
            lastelem (claim s.builtin o c) readable)

    pub resolve_path :
        (scope : Option ℕ) (text : Text) (resume : Bool)
        → text ≡ print_stack s (o ∷ p ∷ os)
        → resolve_intern s scope text resume c ≡ found o (claim s.builtin o c)
    unfolding resolve_intern
    resolve_path scope [] resume e = absurd (cc path_starts.1)
    resolve_path scope (ch ∷ id) resume e =
        let (rest, starts) = path_starts in
        let slash : ch ≡ b'/' = cc in
        rw (resolve_intern, slash)
          (lookup_path (some s.root) (b'/' ∷ id) resume true (ap (λ a. a ∷ id) (sym slash) ∙ e))

    pub fullpath_chain :
        is_lang s (some p) ≡ false
        → length os + 1 < s.max_depth
        → fullpath s o ≡ some (print_stack s (o ∷ p ∷ os))
    unfolding fullpath print_path
    fullpath_chain inside depth =
        rw
          (
            fullpath,
            h.0.parent,
            inside,
            scope_stack_chain tolower ascii s search root_builtin c o (p ∷ os) s.max_depth h
                (omega arith),
          )
          refl
