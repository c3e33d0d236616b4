-- ===== src/Object/Path/Places.antt =====
-- Where objects stand: in the order of a scope, and below the root. `corto_rb_hasKey_w_cmp` searches a
-- tree that is in order.
use corto.Base.{ℕ, ◌≡◌, Bool, true, none, some, List, [], ◌∷◌, ◌++◌, Text, All}
use corto.Object.Lookup.{Equality, eq, lt, gt, compare_lookup}
use corto.Object.Lookup.Order.{IsName, Arguments}
use corto.Object.References.{Counts}
use corto.Object.References.Balance.{IsLive}
use corto.Object.Path.{Scopes}

module _ (tolower : ℕ → ℕ) (s : Scopes) where
  -- The object's id compares so with an element of a path.
  abbrev pub Ranks : Bool → Equality → Text → ℕ → Type 0
  Ranks m k t x = (id : Text) × (s.id_of x ≡ some id) × (compare_lookup tolower m id t ≡ k)

  -- The search tree finds an object if the objects before it compare less, and those behind it greater.
  abbrev pub IsSearch : Type 0
  IsSearch =
      (p : ℕ) (m : Bool) (t : Text) (before : List ℕ) (y : ℕ) (behind : List ℕ)
      → s.children p ≡ before ++ y ∷ behind
      → All (Ranks m lt t) before
      → Ranks m eq t y
      → All (Ranks m gt t) behind
      → s.find p m t ≡ some y

  -- A sibling: its id is a name, with an argument list or without, on one side of another name.
  abbrev pub IsBeside : Equality → Text → ℕ → Type 0
  IsBeside k y x =
      (n : Text) × (args : Text) × IsName n
      × Arguments args
      × (s.id_of x ≡ some (n ++ args))
      × (compare_lookup tolower true (n ++ args) y ≡ k)

  -- The object stands in the scope of its parent, under a name.
  pub record IsPlaced (p o : ℕ) : Type 0 where
    pub name : Text
    pub before : List ℕ
    pub behind : List ℕ
    pub parent : s.parent_of o ≡ some p
    pub id : s.id_of o ≡ some name
    pub nonempty : (c : ℕ) × (cs : Text) × (name ≡ c ∷ cs)
    pub proper : IsName name
    pub scoped : s.has_scope p ≡ true
    pub treed : s.has_tree p ≡ true
    pub siblings : s.children p ≡ before ++ o ∷ behind
    pub less : All (IsBeside lt name) before
    pub greater : All (IsBeside gt name) behind

  -- An object and its parents up to the root, the nearest first, none of them being deleted.
  abbrev pub IsChain : Counts → List ℕ → Type 0
  IsChain c [] = ⊥
  IsChain c (o ∷ []) = (o ≡ s.root) × (s.parent_of o ≡ none) × (s.id_of o ≡ none)
  IsChain c (o ∷ p ∷ os) = IsPlaced p o × IsLive s.builtin c o × IsChain c (p ∷ os)
