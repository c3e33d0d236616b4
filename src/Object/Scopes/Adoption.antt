-- ===== src/Object/Scopes/Adoption.antt =====
-- What an adoption leaves: a tree whose objects know their parents, and which claims each parent once
-- for each object in its scope.
use corto.Base.{
  ℕ, ◌≡◌, ◌≢◌, refl, ap, ◌∙◌, inl, inr, Bool, true, false, not, ◌&&◌, Option, none, some, [], ◌∷◌,
  ◌==◌, Text, arith, Bool-cases, Option-cases, write, subst,
}
use corto.Object.Scopes.{
  Scope, Tree, Catalog, key_of, find, exchange, lock, unlock, update_parents, replace_unknown,
  accept, adopt,
}
use corto.Object.Scopes.Keys.{find-Objects, find-exchange}
use corto.Object.Scopes.Moving.{update-scope}
use corto.Object.Scopes.Shape.{IsTree, IsReady, accepted-pair, accept-lem, new-IsTree}
use corto.Object.Scopes.Replacing.{replaced-IsTree}

-- What an adoption comes to where it succeeds: the tree, and that the object is found by its id.
abbrev Adopts : (Text → Text → Bool) → Catalog → (ℕ → ℕ) → ℕ → ℕ → Tree → Tree → ℕ → Type 0
Adopts same g others p c s u r = IsTree g others u × (find same (key_of s c) (u.scope p) ≡ some r)

new-Adopts :
    (same : Text → Text → Bool) (g : Catalog) (others : ℕ → ℕ) (p c r : ℕ) (s u : Tree)
    → ((k : Text) → same k k ≡ true)
    → IsTree g others s
    → IsReady p c s
    → accept same g true p c
        (record (lock c s) { scope = write s.scope p ((key_of s c, c) ∷ s.scope p) })
      ≡ (u, some r)
    → Adopts same g others p c s u r
unfolding find
new-Adopts same g others p c r s u refl_same t y e =
    let k = key_of s c in
    let (ep, es, ec, er) =
      accept-lem same g true p c r
        (record (lock c s) { scope = write s.scope p ((k, c) ∷ s.scope p) }) u e in
    let here : (p == p) ≡ true = ground arith in
    (new-IsTree g others p c k s u t y ep es ec, rw (es, here, refl_same k, er) refl)

existing-Adopts :
    (same : Text → Text → Bool) (g : Catalog) (others : ℕ → ℕ) (p c x r : ℕ) (s u : Tree)
    → IsTree g others s
    → find same (key_of s c) (s.scope p) ≡ some x
    → ◌≡◌ {A = Tree × Option ℕ} (unlock c (lock c s), some x) (u, some r)
    → Adopts same g others p c s u r
existing-Adopts same g others p c x r s u t f e =
    let (q, i) = accepted-pair (unlock c (lock c s)) u x r e in
    subst (λ v. Adopts same g others p c s v r) q
      (record { linked = t.linked; distinct = t.distinct; counted = t.counted }, f ∙ ap some i)

replaced-Adopts :
    (same : Text → Text → Bool) (g : Catalog) (others : ℕ → ℕ) (p c x r : ℕ) (s u : Tree)
    → IsTree g others s
    → IsReady p c s
    → find same (key_of s c) (s.scope p) ≡ some x
    → (x == c) ≡ false
    → (let moved = replace_unknown g x c (lock c s) in
        accept same g false p c (record moved {
          scope = write moved.scope p (exchange same (key_of s c) c (moved.scope p));
        })
        ≡ (u, some r))
    → Adopts same g others p c s u r
unfolding replace_unknown
replaced-Adopts same g others p c x r s u t y f n e =
    let k = key_of s c in
    let base : Tree = record (lock c s) {
      id = write (write s.id c (s.id x)) x none;
      scope = write (write s.scope c (s.scope x)) x [];
      parent = write s.parent x none;
    } in
    let moved = update_parents g x c (s.scope x) base in
    let target : Tree = record moved {
      scope = write moved.scope p (exchange same k c (moved.scope p));
    } in
    let (ep, es, ec, er) = accept-lem same g false p c r target u e in
    let here : (p == p) ≡ true = ground arith in
    let unlike : x ≢ p = find-Objects same (λ o. o ≢ p) k x (s.scope p) f y.acyclic in
    let unlike_too = y.apart in
    let at_p : moved.scope p ≡ s.scope p =
      ap (λ (h : ℕ → Scope). h p) (update-scope g x c (s.scope x) base).0 ∙ ground arith in
    (
      replaced-IsTree same g others p c x k s base t y f n refl refl refl u ep es ec,
      ap (λ (h : ℕ → Scope). find same k (h p)) es
          ∙ rw (here, at_p, er) (find-exchange same k x c (s.scope p) f),
    )

pub adopt-IsTree :
    (same : Text → Text → Bool) (g : Catalog) (others : ℕ → ℕ) (p c r : ℕ) (force_type : Bool)
    (s u : Tree)
    → ((k : Text) → same k k ≡ true)
    → IsTree g others s
    → IsReady p c s
    → adopt same g p c force_type s ≡ (u, some r)
    → IsTree g others u × (find same (key_of s c) (u.scope p) ≡ some r)
unfolding adopt
adopt-IsTree same g others p c r force s u refl_same t y e =
    elim (Option-cases (find same (key_of s c) (s.scope p))) [
      | inl n ↦ new-Adopts same g others p c r s u refl_same t y (rw (n, adopt) at e)
      | inr (x, f) ↦
          let other : x ≢ c =
            find-Objects same (λ o. o ≢ c) (key_of s c) x (s.scope p) f (y.away p) in
          let apart : (x == c) ≡ false = ground arith in
          elim (Bool-cases (g.type_of x == g.unknown && not (g.type_of c == g.unknown))) [
            | inl k ↦
                replaced-Adopts same g others p c x r s u t y f apart (rw (f, apart, k, adopt) at e)
            | inr k ↦ elim (Bool-cases (force && not (g.type_of x == g.type_of c))) [
              | inl w ↦ absurd (cc (rw (f, apart, k, w, adopt) at e))
              | inr w ↦
                  existing-Adopts same g others p c x r s u t f (rw (f, apart, k, w, adopt) at e)
            ]
          ]
    ]
