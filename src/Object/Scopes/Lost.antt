-- ===== src/Object/Scopes/Lost.antt =====
-- A placeholder of unknown type whose successor is refused.
use corto.Base.{
  ℕ, ◌≡◌, ◌≢◌, refl, sym, ap, ◌∙◌, inl, inr, Bool, true, false, Option, none, some, [], ◌∷◌, ◌==◌,
  Text, arith, Bool-cases, write,
}
use corto.Object.Scopes.{
  Scope, Tree, Catalog, key_of, find, exchange, remove_id, lock, update_parents, replace_unknown,
  accept, adopt, check_constraints,
}
use corto.Object.Scopes.Keys.{Objects, find-Objects}
use corto.Object.Scopes.Moving.{update-scope, update-parent_moved}
use corto.Object.Scopes.Shape.{IsTree, IsReady}

module _ (same : Text → Text → Bool) (g : Catalog) (p c x : ℕ) (s : Tree) where
  remove-exchange :
      (k j : Text) (es : Scope)
      → ((i : Text) → same i j ≡ same i k)
      → remove_id same j (exchange same k c es) ≡ remove_id same k es
  unfolding remove_id exchange
  remove-exchange k j [] h = refl
  remove-exchange k j ((i, o) ∷ es) h = elim (Bool-cases (same i k)) [
    | inl e ↦ let d : same i j ≡ true = h i ∙ e in rw (e, exchange, remove_id, d) refl
    | inr e ↦
        let d : same i j ≡ false = h i ∙ e in
        rw (e, exchange, remove_id, d) (ap (λ r. (i, o) ∷ r) (remove-exchange k j es h))
  ]

  -- The tree once the placeholder has given its objects to the new object.
  abbrev base : Tree
  base = record (lock c s) {
    id = write (write s.id c (s.id x)) x none;
    scope = write (write s.scope c (s.scope x)) x [];
    parent = write s.parent x none;
  }

  abbrev moved : Tree
  moved = update_parents g x c (s.scope x) base

  abbrev target : Tree
  target = record moved {
    scope = write moved.scope p (exchange same (key_of s c) c (moved.scope p));
  }

  outside :
      (es : Scope)
      → Objects (λ o. o ≢ c) es
      → Objects (λ o. moved.parent o ≡ some c) es
      → Objects (λ o. write moved.parent c none o ≡ some c) es
  outside [] a m = tt
  outside ((j, o) ∷ es) a m = (ground (arith, a.0, m.0), outside es a.1 m.1)

  refused :
      (w : Tree)
      → check_constraints g p c ≡ false
      → accept same g false p c w ≡ (
        record w {
          parent = write w.parent c none;
          scope = write w.scope p (remove_id same (key_of w c) (w.scope p));
        },
        none,
      )
  unfolding accept
  refused w k = rw (k, accept) refl

  replaced :
      (force : Bool)
      → find same (key_of s c) (s.scope p) ≡ some x
      → (x == c) ≡ false
      → (g.type_of x == g.unknown) ≡ true
      → (g.type_of c == g.unknown) ≡ false
      → adopt same g p c force s ≡ accept same g false p c target
  unfolding adopt replace_unknown
  replaced force f n u v = rw (f, n, u, v, adopt) refl

  -- Where the object that comes in the place of one of unknown type is refused by a constraint, the
  -- placeholder is gone from the scope of the parent as well, its own scope is empty, and the objects
  -- that were in it have the refused object as their parent, which itself has none.
  pub adopt-lost :
      (others : ℕ → ℕ) (force_type : Bool) (u : Tree)
      → IsTree g others s
      → IsReady p c s
      → find same (key_of s c) (s.scope p) ≡ some x
      → ((i : Text) → same i (key_of s x) ≡ same i (key_of s c))
      → (g.type_of x == g.unknown) ≡ true
      → (g.type_of c == g.unknown) ≡ false
      → check_constraints g p c ≡ false
      → adopt same g p c force_type s ≡ (u, none)
      → (u.scope p ≡ remove_id same (key_of s c) (s.scope p))
        × (u.scope x ≡ [])
        × Objects (λ o. u.parent o ≡ some c) (s.scope x)
        × (u.parent c ≡ none)
  adopt-lost others force u t y f h ux uc k e =
      let differ : c ≢ x =
        λ d. find-Objects same (λ o. o ≢ c) (key_of s c) x (s.scope p) f (y.away p) (sym d) in
      let apart : (x == c) ≡ false = ground arith in
      let v = sym (replaced force f apart ux uc ∙ refused target k) ∙ e in
      let q = ap (λ (r : Tree × Option ℕ). r.0) v in
      let facts = update-scope g x c (s.scope x) base in
      let other : x ≢ p = find-Objects same (λ o. o ≢ p) (key_of s c) x (s.scope p) f y.acyclic in
      let parents_differ = y.apart in
      let here : (p == p) ≡ true = ground arith in
      let at_p : moved.scope p ≡ s.scope p = ap (λ (r : ℕ → Scope). r p) facts.0 ∙ ground arith in
      let at_x : moved.scope x ≡ [] = ap (λ (r : ℕ → Scope). r x) facts.0 ∙ ground arith in
      let id_c : target.id c ≡ s.id x = ap (λ (r : ℕ → Option Text). r c) facts.1 ∙ ground arith in
      let gone : remove_id same (key_of target c) (exchange same (key_of s c) c (moved.scope p))
          ≡ remove_id same (key_of s c) (s.scope p) =
        rw (id_c, at_p) (remove-exchange (key_of s c) (key_of s x) (s.scope p) h) in
      rw (← q) (
        ground (arith, gone),
        ground (arith, at_x),
        outside (s.scope x) (y.away x) (update-parent_moved g x c (s.scope x) base),
        ground arith,
      )
