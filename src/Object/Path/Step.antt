-- ===== src/Object/Path/Step.antt =====
-- One step of a lookup: from a parent to the object that stands in its scope.
use corto.Base.{
  ℕ, ◌≡◌, ◌≢◌, refl, ap, ◌∙◌, inl, inr, Bool, true, false, some, [], ◌∷◌, ◌++◌, if◌then◌else◌, Text,
  arith, All-imp,
}
use corto.Object.Lookup.{Equality, eq, lt, gt}
use corto.Object.Lookup.Matching.{Follows, compare_lookup_iff, SameId}
use corto.Object.Lookup.Order.{IsName, IsName-IsId, IsTolower, compare_lookup-Follows}
use corto.Object.References.{Counts, claim, claim_result, release}
use corto.Object.References.Balance.{IsLive, release-claim, claim_comm, claim-IsLive}
use corto.Object.Path.{Scopes, is_dot, is_dots, has_args}
use corto.Object.Path.Search.{
  go_on, hit, after, keep, release_prev, search_element, search_tree, prefer_plain, pass,
}
use corto.Object.Path.Places.{Ranks, IsSearch, IsBeside, IsPlaced}

SameId-refl : (tolower : ℕ → ℕ) (n : Text) → SameId tolower n n
SameId-refl tolower [] = tt
SameId-refl tolower (c ∷ cs) = (refl, SameId-refl tolower cs)

name_has_args : (n : Text) → IsName n → has_args n ≡ false
name_has_args [] h = refl
name_has_args (c ∷ cs) h = ground (arith, name_has_args cs h.1)

abbrev pub IsNonempty : Text → Type 0
IsNonempty n = (c : ℕ) × (cs : Text) × (n ≡ c ∷ cs)

not_dot : (n t : Text) → IsName n → IsNonempty n → is_dot (n ++ t) t ≡ false
not_dot [] t h (c, cs, e) = absurd (cc)
not_dot (c ∷ cs) t h e = ground arith

not_dots : (n t : Text) → IsName n → IsNonempty n → is_dots (n ++ t) t ≡ false
not_dots [] t h (c, cs, e) = absurd (cc)
not_dots (c ∷ []) [] h e = refl
not_dots (c ∷ []) (d ∷ t) h e = ground arith
not_dots (c ∷ d ∷ cs) t h e = ground arith

module _ (s : Scopes) where
  keep_live :
      (o : ℕ) (c : Counts)
      → IsLive s.builtin c o
      → keep s (some o) c ≡ (some o, claim s.builtin o c)
  unfolding keep claim_result
  keep_live o c (inl b) = rw b refl
  keep_live o c (inr h) = ground arith

  -- The claim that the loop holds on a parent, which is none in the first round.
  abbrev pub held : Bool → ℕ → Counts → Counts
  held first p c = if first then c else claim s.builtin p c

  held-IsLive :
      (first : Bool) (p o : ℕ) (c : Counts)
      → IsLive s.builtin c o
      → IsLive s.builtin (held first p c) o
  held-IsLive true p o c h = h
  held-IsLive false p o c h = claim-IsLive s.builtin p o c h

  release_held :
      (first : Bool) (p o : ℕ) (c : Counts)
      → IsLive s.builtin c p
      → release_prev s first p (claim s.builtin o (held first p c)) ≡ claim s.builtin o c
  release_held true p o c h = refl
  release_held false p o c h =
      ap (release s.builtin p) (claim_comm s.builtin o p c)
      ∙ release-claim s.builtin p (claim s.builtin o c) (claim-IsLive s.builtin o p c h)

module _ (tolower : ℕ → ℕ) (ascii : IsTolower tolower) (s : Scopes)
    (search : IsSearch tolower s) where
  beside-Ranks :
      (k : Equality) (y t : Text)
      → IsName y
      → Follows t
      → k ≢ eq
      → (x : ℕ) → IsBeside tolower s k y x
      → Ranks tolower s true k (y ++ t) x
  beside-Ranks k y t h f d x (n, args, g, j, id, e) =
      (n ++ args, id, compare_lookup-Follows tolower ascii n args y t k g j h f d e)

  module _ (p o : ℕ) (placed : IsPlaced tolower s p o) (t : Text) (follows : Follows t) where
    find_placed : s.find p true (placed.name ++ t) ≡ some o
    find_placed =
        let name-IsId = IsName-IsId placed.name placed.proper in
        search p true (placed.name ++ t) placed.before o placed.behind placed.siblings
          (All-imp (IsBeside tolower s lt placed.name) (Ranks tolower s true lt (placed.name ++ t))
            placed.before (beside-Ranks lt placed.name t placed.proper follows (λ e. cc))
            placed.less)
          (
            placed.name,
            placed.id,
            (compare_lookup_iff tolower true placed.name placed.name t name-IsId name-IsId
                  follows).1
                (SameId-refl tolower placed.name),
          )
          (All-imp (IsBeside tolower s gt placed.name) (Ranks tolower s true gt (placed.name ++ t))
            placed.behind (beside-Ranks gt placed.name t placed.proper follows (λ e. cc))
            placed.greater)

    search_placed : (c : Counts) → search_element s p false (placed.name ++ t) t c ≡ hit (some o) c
    unfolding search_element search_tree prefer_plain
    search_placed c =
        let no_dot = not_dot placed.name t placed.proper placed.nonempty in
        let no_dots = not_dots placed.name t placed.proper placed.nonempty in
        rw
          (
            search_element,
            no_dot,
            no_dots,
            placed.scoped,
            placed.treed,
            find_placed,
            placed.id,
            name_has_args placed.name placed.proper,
          )
          refl

    -- A round goes on with the object, on which it has the only claim.
    pub pass_placed :
        (first : Bool) (c : Counts)
        → IsLive s.builtin c p
        → IsLive s.builtin c o
        → pass s first p (placed.name ++ t) (some (false, t)) (held s first p c)
          ≡ go_on o (claim s.builtin o c)
    unfolding pass after
    pass_placed first c h k =
        let kept = keep_live s o (held s first p c) (held-IsLive s first p o c k) in
        rw (after, search_placed (held s first p c), kept, kept)
          (ap (go_on o) (release_held s first p o c h))
