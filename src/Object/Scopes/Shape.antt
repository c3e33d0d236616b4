-- ===== src/Object/Scopes/Shape.antt =====
-- The shape of the tree of scopes, and what an insertion keeps of it.
use corto.Base.{
  ℕ, ◌+◌, ◌≡◌, ◌≢◌, refl, sym, ap, inl, inr, Bool, false, Option, some, [], ◌∷◌, if◌then◌else◌,
  Text, arith, Bool-cases, length, write,
}
use corto.Object.References.{claim}
use corto.Object.References.Balance.{claim_count}
use corto.Object.Scopes.{Tree, Catalog, declared_add, accept, check_constraints}
use corto.Object.Scopes.Keys.{Objects, IsDistinct, write-holds}

-- Every object in a scope has the scope's object as its parent, none is there twice, and every object
-- that is not builtin is claimed once for each object in its scope, over the claims of others.
pub record IsTree (g : Catalog) (others : ℕ → ℕ) (s : Tree) : Type 0 where
  pub linked : (p : ℕ) → Objects (λ o. s.parent o ≡ some p) (s.scope p)
  pub distinct : (p : ℕ) → IsDistinct (s.scope p)
  pub counted : (p : ℕ) → g.builtin p ≡ false → s.counts.count p ≡ others p + length (s.scope p)

-- A new object, ready to be adopted by the parent: it is in no scope, and nothing is in its own; and
-- the parent is not in its own scope.
pub record IsReady (p c : ℕ) (s : Tree) : Type 0 where
  pub parent : s.parent c ≡ some p
  pub away : (q : ℕ) → Objects (λ o. o ≢ c) (s.scope q)
  pub empty : s.scope c ≡ []
  pub apart : p ≢ c
  pub acyclic : Objects (λ o. o ≢ p) (s.scope p)

pub accepted-pair :
    (s u : Tree) (c r : ℕ) → ◌≡◌ {A = Tree × Option ℕ} (s, some c) (u, some r) → (s ≡ u) × (c ≡ r)
accepted-pair s u c r e =
    (ap (λ (x : Tree × Option ℕ). x.0) e, some-eq (ap (λ (x : Tree × Option ℕ). x.1) e))
  where
    some-eq : some c ≡ some r → c ≡ r
    some-eq q = cc

declared-kept :
    (g : Catalog) (c : ℕ) (s : Tree)
    → ((declared_add g c s).parent ≡ s.parent)
      × ((declared_add g c s).scope ≡ s.scope)
      × ((declared_add g c s).counts ≡ s.counts)
unfolding declared_add
declared-kept g c s = elim (Bool-cases (g.builtin c)) [
  | inl e ↦ rw e (refl, refl, refl)
  | inr e ↦ rw e (refl, refl, refl)
]

-- An adoption that is accepted changes no scope and no parent, and claims the parent if it is to.
pub accept-lem :
    (same : Text → Text → Bool) (g : Catalog) (b : Bool) (p c r : ℕ) (s u : Tree)
    → accept same g b p c s ≡ (u, some r)
    → (u.parent ≡ s.parent)
      × (u.scope ≡ s.scope)
      × (u.counts ≡ (if b then claim g.builtin p s.counts else s.counts))
      × (r ≡ c)
unfolding accept
accept-lem same g b p c r s u e =
    let (kp, ks, kc) = declared-kept g c s in
    elim (Bool-cases (check_constraints g p c)) [
      | inl k ↦
          let (t, q) = accepted-pair _ u c r (rw (k, accept) at e) in
          elim (Bool-cases b) [
            | inl w ↦ rw (← t, w) (kp, ks, ap (claim g.builtin p) kc, sym q)
            | inr w ↦ rw (← t, w) (kp, ks, kc, sym q)
          ]
      | inr k ↦ absurd (cc (rw (k, accept) at e))
    ]

-- A tree after the insertion of a new object, and the claim on its parent.
pub new-IsTree :
    (g : Catalog) (others : ℕ → ℕ) (p c : ℕ) (k : Text) (s u : Tree)
    → IsTree g others s
    → IsReady p c s
    → u.parent ≡ s.parent
    → u.scope ≡ write s.scope p ((k, c) ∷ s.scope p)
    → u.counts ≡ claim g.builtin p s.counts
    → IsTree g others u
new-IsTree g others p c k s u t r ep es ec = record {
  linked =
      rw (ep, es)
        (write-holds (λ q es. Objects (λ o. s.parent o ≡ some q) es) s.scope p ((k, c) ∷ s.scope p)
          (r.parent, t.linked p) (λ q n. t.linked q));
  distinct = rw es (
      write-holds (λ q es. IsDistinct es) s.scope p ((k, c) ∷ s.scope p) (r.away p, t.distinct p)
        (λ q n. t.distinct q));
  counted =
      rw (es, ec)
        (write-holds
          (λ q es.
            g.builtin q ≡ false → (claim g.builtin p s.counts).count q ≡ others q + length es)
          s.scope p ((k, c) ∷ s.scope p)
          (λ b. ground (arith, claim_count g.builtin p p s.counts, t.counted p b))
          (λ q n b. ground (arith, claim_count g.builtin p q s.counts, t.counted q b)));
}
