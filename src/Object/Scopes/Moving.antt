-- ===== src/Object/Scopes/Moving.antt =====
-- The objects of a scope that move to another object: their parents, and the claims on the two.
use corto.Base.{
  ℕ, zero, suc, ◌+◌, ◌-◌, ◌≤◌, ◌≡◌, ◌≢◌, refl, ap, ◌∙◌, inl, inr, Bool, true, false, some, [], ◌∷◌,
  ◌==◌, if◌then◌else◌, arith, Bool-cases, length, write,
}
use corto.Object.References.{Counts, claim, release, dropped}
use corto.Object.References.Balance.{claim_count}
use corto.Object.Scopes.{Scope, Tree, Catalog, update_parents}
use corto.Object.Scopes.Keys.{Objects}

abbrev if_one : Bool → ℕ → ℕ
if_one true n = n
if_one false n = 0

dropped_count :
    (builtin : ℕ → Bool) (o p n : ℕ) (c : Counts)
    → c.count o ≡ n
    → (dropped builtin o n c).count p ≡ (if p == o then c.count p - 1 else c.count p)
unfolding dropped
dropped_count builtin o p zero c e = ground arith
dropped_count builtin o p (suc zero) c e = ground arith
dropped_count builtin o p (suc (suc n)) c e = ground arith

same_object : (p o : ℕ) → (p == o) ≡ true → p ≡ o
same_object p o e = ground arith

pub release_count :
    (builtin : ℕ → Bool) (o p : ℕ) (c : Counts)
    → builtin p ≡ false
    → (release builtin o c).count p ≡ (if p == o then c.count p - 1 else c.count p)
unfolding release
release_count builtin o p c b = elim (Bool-cases (builtin o)) [
  | inl e ↦ let n : (p == o) ≡ false = apart builtin p o b e in rw (e, n) refl
  | inr e ↦ rw e (dropped_count builtin o p (c.count o) c refl)
]
  where
    apart : (builtin : ℕ → Bool) (p o : ℕ) → builtin p ≡ false → builtin o ≡ true → (p == o) ≡ false
    apart builtin p o b e = elim (Bool-cases (p == o)) [
      | inl q ↦ absurd (cc (b, e, ap builtin (same_object p o q)))
      | inr q ↦ q
    ]

module _ (g : Catalog) where
  pub update-scope :
      (old new : ℕ) (es : Scope) (s : Tree)
      → ((update_parents g old new es s).scope ≡ s.scope)
        × ((update_parents g old new es s).id ≡ s.id)
  unfolding update_parents
  update-scope old new [] s = (refl, refl)
  update-scope old new ((j, o) ∷ es) s = update-scope old new es (record s {
    parent = write s.parent o (some new);
    counts = release g.builtin old (claim g.builtin new s.counts);
  })

  pub update-parent_kept :
      (old new x : ℕ) (es : Scope) (s : Tree)
      → Objects (λ o. o ≢ x) es
      → (update_parents g old new es s).parent x ≡ s.parent x
  unfolding update_parents
  update-parent_kept old new x [] s h = refl
  update-parent_kept old new x ((j, o) ∷ es) s h =
      update-parent_kept old new x es _ h.1 ∙ ground (arith, h.0)

  update-parent_either :
      (old new x : ℕ) (es : Scope) (s : Tree)
      → s.parent x ≡ some new
      → (update_parents g old new es s).parent x ≡ some new
  unfolding update_parents
  update-parent_either old new x [] s h = h
  update-parent_either old new x ((j, o) ∷ es) s h =
      update-parent_either old new x es _ (ground (arith, h))

  pub update-parent_moved :
      (old new : ℕ) (es : Scope) (s : Tree)
      → Objects (λ o. (update_parents g old new es s).parent o ≡ some new) es
  unfolding update_parents
  update-parent_moved old new [] s = tt
  update-parent_moved old new ((j, o) ∷ es) s =
      (update-parent_either old new o es _ (ground arith), update-parent_moved old new es _)

  -- The claims move with the objects.
  pub update-count :
      (old new q : ℕ) (es : Scope) (s : Tree)
      → g.builtin q ≡ false
      → (old == new) ≡ false
      → ((old == q) ≡ true → length es ≤ s.counts.count q)
      → (update_parents g old new es s).counts.count q + if_one (old == q) (length es)
        ≡ s.counts.count q + if_one (new == q) (length es)
  unfolding update_parents
  update-count old new q [] s b n h = ground arith
  update-count old new q ((j, o) ∷ es) s b n h =
      let t : Tree = record s {
        parent = write s.parent o (some new);
        counts = release g.builtin old (claim g.builtin new s.counts);
      } in
      let claimed = claim_count g.builtin new q s.counts in
      let released = release_count g.builtin old q (claim g.builtin new s.counts) b in
      let ih = update-count old new q es t b n (ground (arith, claimed, released)) in
      ground (arith, claimed, released, ih)
