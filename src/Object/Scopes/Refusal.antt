-- ===== src/Object/Scopes/Refusal.antt =====
-- What an adoption or an initialization that fails leaves.
use corto.Base.{
  ℕ, ◌≡◌, refl, sym, ap, ◌∙◌, inl, inr, Bool, true, false, Option, none, some, [], ◌∷◌, ◌++◌, ◌==◌,
  Text, arith, Bool-cases, Option-cases, write, subst,
}
use corto.Object.References.{claim, release}
use corto.Object.References.Balance.{IsLive, release-claim}
use corto.Object.Scopes.{
  Tree, Catalog, key_of, find, remove_id, lock, declared_add, accept, adopt, check_constraints,
  init_scope, initialize, orphan_object, deinit_scope,
}

-- The trees that a declaration passes through: the new object with its id and parent, and in the
-- scope.
abbrev named_tree : ℕ → Text → ℕ → Tree → Tree
named_tree p id o s = record s { id = write s.id o (some id); parent = write s.parent o (some p) }

abbrev inserted : ℕ → Text → ℕ → Tree → Tree
inserted p id o s = record (lock o (named_tree p id o s)) {
  scope = write s.scope p ((id, o) ∷ s.scope p);
}

module _ (same : Text → Text → Bool) (g : Catalog) (p o : ℕ) (id : Text) (s : Tree)
    (refl_same : (k : Text) → same k k ≡ true) where
  key_there : (w : Tree) → w.id ≡ write s.id o (some id) → key_of w o ≡ id
  key_there w e =
      let h : w.id o ≡ some id = ap (λ (f : ℕ → Option Text). f o) e ∙ ground arith in rw h refl

  adopted :
      (force : Bool)
      → find same id (s.scope p) ≡ none
      → adopt same g p o force (named_tree p id o s) ≡ accept same g true p o (inserted p id o s)
  unfolding adopt
  adopted force n =
      let k = key_there (named_tree p id o s) refl in
      let f : find same (key_of (named_tree p id o s) o) (s.scope p) ≡ none = rw k n in
      rw (f, adopt, k) refl

  -- The parent's scope once the object is taken out again.
  taken_out :
      (k : Text)
      → k ≡ id
      → (q : ℕ)
      → write
          (write s.scope p ((id, o) ∷ s.scope p))
          p
          (remove_id same k (write s.scope p ((id, o) ∷ s.scope p) p))
          q
        ≡ s.scope q
  unfolding remove_id
  taken_out k e q =
      let here : (p == p) ≡ true = ground arith in
      let known : same id k ≡ true = rw e (refl_same id) in rw (here, known) (ground arith)

  -- What an undone declaration has put back.
  abbrev IsUndone : Tree → Type 0
  IsUndone v = ((q : ℕ) → v.scope q ≡ s.scope q) × (v.counts ≡ s.counts) × (v.parent o ≡ none)

  init_scope_lem :
      (force ready : Bool)
      → g.named p ≡ true
      → find same id (s.scope p) ≡ none
      → init_scope same g p id o false force ready s ≡ (
          let (t, result) = accept same g true p o (inserted p id o s) in
          initialize same ready o result t)
  unfolding init_scope
  init_scope_lem force ready n f =
      rw (n, init_scope)
        (ap (λ (r : Tree × Option ℕ). initialize same ready o r.1 r.0) (adopted force f))

  second : (u v : Tree) → ◌≡◌ {A = Tree × Option ℕ} (u, none) (v, none) → u ≡ v
  second u v e = ap (λ (x : Tree × Option ℕ). x.0) e

  none-some : (v u : Tree) → ◌≡◌ {A = Tree × Option ℕ} (v, some o) (u, none) → ⊥
  none-some v u e = absurd (some-none (ap (λ (x : Tree × Option ℕ). x.1) e))
    where
      some-none : some o ≡ none → ⊥
      some-none q = absurd (cc)

  abbrev removed : Tree → Tree
  removed w = record w { scope = write w.scope p (remove_id same (key_of w o) (w.scope p)) }

  -- The tree behind a refusal, and behind an initializer that has failed.
  abbrev refused_tree : Tree
  refused_tree =
      let w = inserted p id o s in
      record w {
        parent = write (write w.parent o none) o none;
        scope = write w.scope p (remove_id same (key_of w o) (w.scope p));
      }

  abbrev failed_tree : Tree
  failed_tree = removed (record (inserted p id o s) {
    counts = claim g.builtin p s.counts;
    declared = (declared_add g o s).declared;
  })

  accept_refused :
      (w : Tree)
      → check_constraints g p o ≡ false
      → accept same g true p o w ≡ (record (removed w) { parent = write w.parent o none }, none)
  unfolding accept
  accept_refused w k = rw (k, accept) refl

  accept_taken :
      (w : Tree)
      → check_constraints g p o ≡ true
      → accept same g true p o w ≡ (
        record (declared_add g o w) { counts = claim g.builtin p (declared_add g o w).counts },
        some o,
      )
  unfolding accept
  accept_taken w k = rw (k, accept) refl

  declared_value :
      (w : Tree)
      → w.declared ≡ s.declared
      → declared_add g o w ≡ record w { declared = (declared_add g o s).declared }
  unfolding declared_add
  declared_value w e = elim (Bool-cases (g.builtin o)) [
    | inl b ↦ rw (b, declared_add) (λ i. record w { declared = e i })
    | inr b ↦ rw (b, declared_add) (λ i. record w { declared = e i ++ o ∷ [] })
  ]

  initialize_failed :
      (w : Tree) → w.parent o ≡ some p → initialize same false o (some o) w ≡ (removed w, none)
  unfolding initialize orphan_object
  initialize_failed w e =
      let here : (o == o) ≡ true = ground arith in rw (here, e, initialize, orphan_object) refl

  deinit_none : (w : Tree) → w.parent o ≡ none → deinit_scope g o w ≡ w
  unfolding deinit_scope
  deinit_none w e = rw (e, deinit_scope) refl

  deinit_some :
      (w : Tree)
      → w.parent o ≡ some p
      → g.orphan o ≡ false
      → deinit_scope g o w
        ≡ record w { parent = write w.parent o none; counts = release g.builtin p w.counts }
  unfolding deinit_scope
  deinit_some w e n = rw (e, n, deinit_scope) refl

  refused_value :
      (ready : Bool)
      → check_constraints g p o ≡ false
      → (let (t, result) = accept same g true p o (inserted p id o s) in
          initialize same ready o result t)
        ≡ (refused_tree, none)
  unfolding initialize
  refused_value ready k =
      ap (λ (r : Tree × Option ℕ). initialize same ready o r.1 r.0)
        (accept_refused (inserted p id o s) k)

  failed_value :
      check_constraints g p o ≡ true
      → (let (t, result) = accept same g true p o (inserted p id o s) in
          initialize same false o result t)
        ≡ (failed_tree, none)
  failed_value k =
      let w = inserted p id o s in
      let d = declared_value w refl in
      ap (λ (r : Tree × Option ℕ). initialize same false o r.1 r.0) (accept_taken w k)
      ∙ ap
          (λ (v : Tree).
            initialize same false o (some o) (record v { counts = claim g.builtin p v.counts }))
          d
      ∙ initialize_failed
          (record w {
            counts = claim g.builtin p s.counts;
            declared = (declared_add g o s).declared;
          })
          (ground arith)

  refused-IsUndone : IsUndone (deinit_scope g o refused_tree)
  refused-IsUndone =
      let w = inserted p id o s in
      let h : refused_tree.parent o ≡ none = ground arith in
      rw (deinit_none refused_tree h) (taken_out (key_of w o) (key_there w refl), refl, h)

  failed-IsUndone :
      g.orphan o ≡ false → IsLive g.builtin s.counts p → IsUndone (deinit_scope g o failed_tree)
  failed-IsUndone n l =
      let w = inserted p id o s in
      let h : failed_tree.parent o ≡ some p = ground arith in
      let gone : write failed_tree.parent o none o ≡ none = ground arith in
      rw (deinit_some failed_tree h n)
        (taken_out (key_of w o) (key_there w refl), release-claim g.builtin p s.counts l, gone)

  taken_value :
      check_constraints g p o ≡ true
      → (v : Tree) × ((let (t, result) = accept same g true p o (inserted p id o s) in
            initialize same true o result t)
          ≡ (v, some o))
  unfolding initialize
  taken_value k =
      let w = inserted p id o s in
      let here : (o == o) ≡ true = ground arith in
      (
        record (declared_add g o w) { counts = claim g.builtin p (declared_add g o w).counts },
        ap (λ (r : Tree × Option ℕ). initialize same true o r.1 r.0) (accept_taken w k)
            ∙ rw (here, initialize) refl,
      )

  -- A declaration of a new object with an id that the parent's scope does not have: where it fails, be
  -- it by a constraint or by the initializer, and the object's own part is given up, every scope and
  -- every count is what it was before, and the object has no parent.
  pub init_scope-undone :
      (force_type ready : Bool) (u : Tree)
      → g.named p ≡ true
      → g.orphan o ≡ false
      → find same id (s.scope p) ≡ none
      → IsLive g.builtin s.counts p
      → init_scope same g p id o false force_type ready s ≡ (u, none)
      → (let v = deinit_scope g o u in
          ((q : ℕ) → v.scope q ≡ s.scope q) × (v.counts ≡ s.counts) × (v.parent o ≡ none))
  init_scope-undone force ready u named n f l e =
      let h = sym (init_scope_lem force ready named f) ∙ e in
      elim (Bool-cases (check_constraints g p o)) [
        | inl k ↦ elim (Bool-cases ready) [
          | inl r ↦ let (v, q) = taken_value k in absurd (none-some v u (sym q ∙ (rw r at h)))
          | inr r ↦
              subst (λ v. IsUndone (deinit_scope g o v))
                (second failed_tree u (sym (failed_value k) ∙ (rw r at h))) (failed-IsUndone n l)
        ]
        | inr k ↦
            subst (λ v. IsUndone (deinit_scope g o v))
              (second refused_tree u (sym (refused_value ready k) ∙ h)) refused-IsUndone
      ]

  deinit_declared : (w : Tree) → (deinit_scope g o w).declared ≡ w.declared
  unfolding deinit_scope
  deinit_declared w = elim (Option-cases (w.parent o)) [
    | inl n ↦ rw (n, deinit_scope) refl
    | inr (q, e) ↦ rw (e, deinit_scope) refl
  ]

  -- Where the initializer of a new object fails, the object, which is given up, stays in the list of
  -- those that the thread has declared.
  init_scope-declared :
      (force_type : Bool) (u : Tree)
      → g.named p ≡ true
      → g.builtin o ≡ false
      → find same id (s.scope p) ≡ none
      → check_constraints g p o ≡ true
      → init_scope same g p id o false force_type false s ≡ (u, none)
      → (deinit_scope g o u).declared ≡ s.declared ++ o ∷ []
  unfolding declared_add deinit_scope
  init_scope-declared force u named b f k e =
      let t : failed_tree ≡ u =
        second failed_tree u
          (sym (failed_value k) ∙ sym (init_scope_lem force false named f) ∙ e) in
      subst (λ v. (deinit_scope g o v).declared ≡ s.declared ++ o ∷ []) t
        (deinit_declared failed_tree ∙ rw (b, declared_add) refl)
