-- ===== src/Object/Declaration/Growth.antt =====
-- The tree of scopes after a declaration.
use corto.Base.{
  ℕ, ◌+◌, ◌≡◌, ◌≢◌, ◌⊎◌, refl, sym, ap, ◌∙◌, inl, inr, Bool, true, false, Option, none, some, List,
  [], ◌∷◌, ◌==◌, if◌then◌else◌, Text, arith, Bool-cases, length, write, subst,
}
use corto.Object.References.{set_count, claim, release}
use corto.Object.References.Balance.{claim_count}
use corto.Object.Scopes.{Tree, Catalog, Scope, key_of, adopt, find, init_scope, initialize}
use corto.Object.Scopes.Keys.{Objects}
use corto.Object.Scopes.Shape.{IsTree, IsReady}
use corto.Object.Scopes.Adoption.{adopt-IsTree}
use corto.Object.Declaration.{
  Attributes, Blueprint, Further, Declared, created, Request, redeclare, conclude_declare,
  declare_child, further,
}
use corto.Object.Declaration.Attempts.{attempt, tested}

-- An object that is in no scope, not the parent, and has nothing in its scope; and the parent is not
-- in its own.
abbrev pub IsNew : ℕ → ℕ → Tree → Type 0
IsNew p o s =
    ((q : ℕ) → Objects (λ x. x ≢ o) (s.scope q))
    × (s.scope o ≡ [])
    × (p ≢ o)
    × Objects (λ x. x ≢ p) (s.scope p)

-- The claims on the objects other than those of scopes: one on the new object for the caller, and one
-- more on its type.
abbrev pub claimed : ℕ → ℕ → (ℕ → ℕ) → ℕ → ℕ
claimed o type others q = if q == o then 1 else if type == q then others q + 1 else others q

module _ (same : Text → Text → Bool) (g : Catalog) (deleted : ℕ → Bool) (p o : ℕ) (id : Text)
    (type : Blueprint) (r : Request) (attrs : Attributes) (s : Tree) where
  -- The tree that the new object is adopted in.
  abbrev prepared : Tree
  prepared = record s {
    counts = claim g.builtin type.address (set_count o 1 s.counts);
    id = write s.id o (some id);
    parent = write s.parent o (some p);
  }

  parents-kept :
      (q : ℕ) (es : Scope)
      → Objects (λ x. s.parent x ≡ some q) es
      → Objects (λ x. x ≢ o) es
      → Objects (λ x. write s.parent o (some p) x ≡ some q) es
  parents-kept q [] h n = tt
  parents-kept q ((k, x) ∷ es) h n =
      (other (Bool-cases (o == x)) h.0 n.0, parents-kept q es h.1 n.1)
    where
      other :
          ((o == x) ≡ true) ⊎ ((o == x) ≡ false)
          → s.parent x ≡ some q
          → x ≢ o
          → write s.parent o (some p) x ≡ some q
      other (inl e) h n = absurd (n (ground arith))
      other (inr e) h n = rw e h

  prepared-IsTree :
      (others : ℕ → ℕ)
      → IsTree g others s
      → IsNew p o s
      → (type.address == o) ≡ false
      → IsTree g (claimed o type.address others) prepared
  prepared-IsTree others t new other = record {
    linked = λ q. parents-kept q (s.scope q) (t.linked q) (new.0 q);
    distinct = t.distinct;
    counted = λ q b. elim (Bool-cases (q == o)) [
      | inl e ↦
          let nothing : length (s.scope q) ≡ 0 =
            subst (λ x. length (s.scope x) ≡ 0) (ground arith) (ap length new.1) in
          ground (arith, claim_count g.builtin type.address q (set_count o 1 s.counts), nothing)
      | inr e ↦
          ground
            (arith, claim_count g.builtin type.address q (set_count o 1 s.counts), t.counted q b)
    ];
  }

  prepared-IsReady : IsNew p o s → IsReady p o prepared
  prepared-IsReady (away, empty, apart, acyclic) = record {
    parent = ground arith;
    away = away;
    empty = empty;
    apart = apart;
    acyclic = acyclic;
  }

  initialize-some :
      (ready : Bool) (x : Option ℕ) (t u : Tree) (k : ℕ)
      → (k == o) ≡ true
      → initialize same ready o x t ≡ (u, some k)
      → ◌≡◌ {A = Tree × Option ℕ} (t, x) (u, some k)
  unfolding initialize
  initialize-some ready none t u k n e = absurd (cc e)
  initialize-some ready (some y) t u k n e = elim (Bool-cases (y == o)) [
    | inr m ↦ rw (m, initialize) at e
    | inl m ↦ elim (Bool-cases ready) [
      | inl w ↦
          let there : y ≡ k = ground arith in
          rw there (ap (λ (z : Tree × Option ℕ). (z.0, some k)) (rw (m, w, initialize) at e))
      | inr w ↦ absurd (cc (rw (m, w, initialize) at e))
    ]
  ]

  attempt-adopt :
      (u : Tree) (k : ℕ)
      → r.orphan ≡ false
      → g.named p ≡ true
      → (k == o) ≡ true
      → attempt same g deleted p o id type r attrs s ≡ (u, some k)
      → adopt same g p o r.force_type prepared ≡ (u, some k)
  unfolding init_scope
  attempt-adopt u k orphan named n e =
      initialize-some r.ready (adopt same g p o r.force_type prepared).1
        (adopt same g p o r.force_type prepared).0 u k n (rw (orphan, named, init_scope) at e)

  redeclare-ne-created :
      (x k : ℕ) (b : Attributes) (f : List Further) (t : Tree)
      → (redeclare g deleted x t).1 ≢ created k b f
  unfolding redeclare
  redeclare-ne-created x k b f t e = ground arith

  -- Of a declaration that ends with a new object.
  conclude-created :
      (a : Attributes) (x : Tree × Option ℕ) (u : Tree) (k : ℕ) (b : Attributes) (f : List Further)
      → conclude_declare g deleted type r o a x ≡ (u, created k b f)
      → (x ≡ (u, some k)) × ((k == o) ≡ true)
  unfolding conclude_declare redeclare
  conclude-created a (t, none) u k b f e = absurd (cc e)
  conclude-created a (t, some y) u k b f e = elim (Bool-cases (y == o)) [
    | inl m ↦
        let d : created o a (further g deleted type r o) ≡ created k b f =
          ap (λ (z : Tree × Declared). z.1) (rw (m, conclude_declare) at e) in
        let new : o ≡ k = cc d in
        let there : y ≡ k = ground arith in
        (
          rw there (ap (λ (z : Tree × Declared). (z.0, some k)) (rw (m, conclude_declare) at e)),
          ground arith,
        )
    | inr m ↦ absurd (
        redeclare-ne-created y k b f (record t { counts = release g.builtin type.address t.counts })
          (ap (λ (z : Tree × Declared). z.1) (rw (m, conclude_declare) at e)))
  ]

  -- A declaration, not as an orphan, that makes a new object leaves a tree, provided that there was one,
  -- that the parent is not in its own scope, that the new object's address was in no scope, with nothing
  -- in its own, and is neither the parent's nor the type's, and that ids are the same as themselves: the
  -- object stands in the parent's scope under its id; each object in a scope has the scope's object as
  -- its parent and stands there once; and every object that is not builtin holds a claim for each object
  -- in its scope, over the claims there were, one for the caller of the new object, and one for its type.
  pub declare_child-IsTree :
      (others : ℕ → ℕ) (u : Tree) (k : ℕ) (b : Attributes) (f : List Further)
      → ((i : Text) → same i i ≡ true)
      → r.orphan ≡ false
      → g.named p ≡ true
      → IsTree g others s
      → IsNew p o s
      → (type.address == o) ≡ false
      → declare_child same g deleted p id type r attrs o s ≡ (u, created k b f)
      → IsTree g (claimed o type.address others) u × (find same id (u.scope p) ≡ some o) × (k ≡ o)
  declare_child-IsTree others u k b f refl_same orphan named t new other e =
      elim (tested same g deleted p o id type r attrs s u (created k b f) e) [
        | inl (_, d) ↦ absurd (cc d)
        | inr (a, c) ↦
            let (there, n) =
              conclude-created a (attempt same g deleted p o id type r attrs s) u k b f c in
            let own : key_of prepared o ≡ id =
              (let h : prepared.id o ≡ some id = ground arith in rw h refl) in
            let here : k ≡ o = ground arith in
            let (grown, stands) =
              adopt-IsTree same g (claimed o type.address others) p o k r.force_type prepared u
                refl_same (prepared-IsTree others t new other) (prepared-IsReady new)
                (attempt-adopt u k orphan named n there) in
            (grown, ap (λ i. find same i (u.scope p)) (sym own) ∙ stands ∙ ap some here, here)
      ]
