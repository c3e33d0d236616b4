-- ===== src/Object/Declaration/Attempts.antt =====
-- A declaration that fails, and one of an object that is there.
use corto.Base.{
  ℕ, ◌≡◌, ◌≢◌, ◌⊎◌, refl, sym, ap, ◌∙◌, inl, inr, Bool, true, false, not, ◌&&◌, ◌||◌, Option, none,
  some, ◌==◌, Text, arith, Bool-cases, write, is_some,
}
use corto.Object.Identifier.{valid_identifier}
use corto.Object.References.{Counts, set_count, claim, release}
use corto.Object.References.Balance.{IsLive, release-claim, claim_count}
use corto.Object.Scopes.{
  Tree, Catalog, key_of, lock, unlock, adopt, initialize, find, init_scope, deinit_scope,
}
use corto.Object.Scopes.Refusal.{init_scope-undone}
use corto.Object.Declaration.{
  Attributes, Blueprint, Declared, refused, present, Request, declare_intern, attributes_for,
  redeclare, conclude_declare, declare_child, is_empty,
}

-- The scopes and the counts of all objects but one are the same.
abbrev pub IsUnchanged : ℕ → Tree → Tree → Type 0
IsUnchanged o s u =
    ((q : ℕ) → u.scope q ≡ s.scope q)
    × ((q : ℕ) → (q == o) ≡ false → u.counts.count q ≡ s.counts.count q)

module _ (same : Text → Text → Bool) (g : Catalog) (deleted : ℕ → Bool) (p o : ℕ) (id : Text)
    (type : Blueprint) (r : Request) (attrs : Attributes) (s : Tree) where
  -- The tree with the memory of the new object.
  abbrev allocated : Tree
  allocated = record s { counts = claim g.builtin type.address (set_count o 1 s.counts) }

  abbrev pub attempt : Tree × Option ℕ
  attempt = init_scope same g p id o r.orphan r.force_type r.ready allocated

  redeclare-ne-refused : (x : ℕ) (t : Tree) → (redeclare g deleted x t).1 ≢ refused
  unfolding redeclare
  redeclare-ne-refused x t e = ground arith

  declared-refused :
      (a : Attributes) (x : Tree × Option ℕ) (u : Tree)
      → conclude_declare g deleted type r o a x ≡ (u, refused)
      → (x ≡ (x.0, none))
        × (u ≡ (
            let t = deinit_scope g o x.0 in
            record t { counts = release g.builtin type.address t.counts }))
  unfolding conclude_declare
  declared-refused a (t, none) u e = (refl, sym (ap (λ (y : Tree × Declared). y.0) e))
  declared-refused a (t, some q) u e = elim (Bool-cases (q == o)) [
    | inl k ↦
        let d = ap (λ (y : Tree × Declared). y.1) (rw (k, conclude_declare) at e) in absurd (cc d)
    | inr k ↦ absurd (
        redeclare-ne-refused q (record t { counts = release g.builtin type.address t.counts })
          (ap (λ (y : Tree × Declared). y.1) (rw (k, conclude_declare) at e)))
  ]

  -- A declaration that gets past the tests of its arguments.
  pub tested :
      (u : Tree) (d : Declared)
      → declare_child same g deleted p id type r attrs o s ≡ (u, d)
      → ((u ≡ s) × (d ≡ refused))
        ⊎ ((a : Attributes) × (conclude_declare g deleted type r o a attempt ≡ (u, d)))
  unfolding declare_child declare_intern
  tested u d e =
      let first : ◌≡◌ {A = Tree × Declared} (s, refused) (u, d) → (u ≡ s) × (d ≡ refused) = λ k.
        (sym (ap (λ (y : Tree × Declared). y.0) k), sym (ap (λ (y : Tree × Declared). y.1) k)) in
      elim (Bool-cases (not (g.named p) && not r.orphan)) [
        | inl a ↦ inl (first (rw (a, declare_child) at e))
        | inr a ↦ elim (Bool-cases (is_empty id)) [
          | inl b ↦ inl (first (rw (a, b, declare_child) at e))
          | inr b ↦ elim (Bool-cases (is_some (valid_identifier id))) [
            | inl c ↦ inl (first (rw (a, b, c, declare_child) at e))
            | inr c ↦ elim (Bool-cases (not (type.address == g.unknown) && not r.allowed)) [
              | inl d ↦ inl (first (rw (a, b, c, d, declare_child) at e))
              | inr d ↦ elim (Bool-cases (not type.is_type || not type.valid)) [
                | inl f ↦ inl (first (rw (a, b, c, d, f, declare_child, declare_intern) at e))
                | inr f ↦ inr (
                  attributes_for type r.orphan (record attrs { named = true }),
                  rw (a, b, c, d, f, declare_child, declare_intern) at e,
                )
              ]
            ]
          ]
        ]
      ]

  type_counted :
      IsLive g.builtin s.counts type.address
      → (type.address == o) ≡ false
      → IsLive g.builtin (set_count o 1 s.counts) type.address
  type_counted (inl b) n = inl b
  type_counted (inr c) n = inr (ground arith)

  still_counted :
      (q : ℕ)
      → IsLive g.builtin s.counts q
      → (q == o) ≡ false
      → IsLive g.builtin (claim g.builtin type.address (set_count o 1 s.counts)) q
  still_counted q (inl b) n = inl b
  still_counted q (inr c) n =
      inr (ground (arith, claim_count g.builtin type.address q (set_count o 1 s.counts)))

  -- A declaration, not as an orphan, of a child with an id that the scope of the parent does not have,
  -- the parent and the type being in use and their addresses other than the new object's, and ids being
  -- the same as themselves: where it is refused, be it for its arguments, by a constraint or by an
  -- initializer that fails, all scopes, and all counts but that of the memory for the new object, are
  -- what they were before.
  pub declare_child-undone :
      (u : Tree)
      → ((k : Text) → same k k ≡ true)
      → r.orphan ≡ false
      → g.orphan o ≡ false
      → g.named p ≡ true
      → find same id (s.scope p) ≡ none
      → IsLive g.builtin s.counts p
      → IsLive g.builtin s.counts type.address
      → (p == o) ≡ false
      → (type.address == o) ≡ false
      → declare_child same g deleted p id type r attrs o s ≡ (u, refused)
      → IsUnchanged o s u
  declare_child-undone u refl_same orphan mine named free live live_type other other_type e =
      elim (tested u refused e) [
        | inl (k, _) ↦ rw k ((λ q. refl), λ q n. refl)
        | inr (a, k) ↦
            let (none_there, final) = declared-refused a attempt u k in
            let failed : init_scope same g p id o false r.force_type r.ready allocated
                ≡ (attempt.0, none) =
              ap (λ b. init_scope same g p id o b r.force_type r.ready allocated) (sym orphan)
              ∙ none_there in
            let (scopes, counts, gone) =
              init_scope-undone same g p o id allocated refl_same r.force_type r.ready attempt.0
                named mine free (still_counted p live other) failed in
            let back : u.counts ≡ set_count o 1 s.counts =
              ap (λ (t : Tree). t.counts) final
              ∙ ap (λ (w : Counts). release g.builtin type.address w) counts
              ∙ release-claim g.builtin type.address (set_count o 1 s.counts)
                  (type_counted live_type other_type) in
            (
              (λ q. ap (λ (t : Tree). t.scope q) final ∙ scopes q),
              λ q n. ap (λ (w : Counts). w.count q) back ∙ rw n refl,
            )
      ]

  -- The tree after an adoption that has found an object.
  abbrev looked : Tree
  looked = unlock o (
      lock o (record allocated { id = write s.id o (some id); parent = write s.parent o (some p) }))

  attempt-present :
      (x : ℕ)
      → r.orphan ≡ false
      → g.named p ≡ true
      → find same id (s.scope p) ≡ some x
      → (x == o) ≡ false
      → (g.type_of x == g.unknown && not (g.type_of o == g.unknown)) ≡ false
      → (r.force_type && not (g.type_of x == g.type_of o)) ≡ false
      → attempt ≡ (looked, some x)
  unfolding init_scope adopt initialize
  attempt-present x orphan named f n keep fits =
      let w : Tree = record allocated {
        id = write s.id o (some id);
        parent = write s.parent o (some p);
      } in
      let k : key_of w o ≡ id = (let h : w.id o ≡ some id = ground arith in rw h refl) in
      let there : find same (key_of w o) (s.scope p) ≡ some x = rw k f in
      rw (orphan, named, there, n, keep, fits, init_scope, adopt, initialize, n) refl

  conclude-present :
      (x : ℕ) (a : Attributes) (t : Tree)
      → (x == o) ≡ false
      → g.valid x ≡ true
      → conclude_declare g deleted type r o a (t, some x) ≡ (
        record t { counts = claim g.builtin x (release g.builtin type.address t.counts) },
        present x,
      )
  unfolding conclude_declare redeclare
  conclude-present x a t n ready = rw (n, ready, conclude_declare, redeclare) refl

  concluded :
      (not (g.named p) && not r.orphan) ≡ false
      → is_empty id ≡ false
      → is_some (valid_identifier id) ≡ false
      → (not (type.address == g.unknown) && not r.allowed) ≡ false
      → (not type.is_type || not type.valid) ≡ false
      → declare_child same g deleted p id type r attrs o s
        ≡ conclude_declare g deleted type r o
            (attributes_for type r.orphan (record attrs { named = true }))
            attempt
  unfolding declare_child declare_intern
  concluded named full fine allowed good =
      rw (named, full, fine, allowed, good, declare_child, declare_intern) refl

  -- A declaration, not as an orphan, whose arguments are accepted, of a child with an id for which the
  -- scope of the parent has a valid object, one that the new one does not replace and whose type is the
  -- one asked for if that is forced; the type is in use, and neither is at the new object's address: the
  -- call returns the object that is there, no scope changes, and behind it all counts are those of one
  -- claim of that object, the memory for the new one left aside.
  pub declare_child-present :
      (x : ℕ)
      → r.orphan ≡ false
      → g.named p ≡ true
      → is_empty id ≡ false
      → valid_identifier id ≡ none
      → (not (type.address == g.unknown) && not r.allowed) ≡ false
      → type.is_type ≡ true
      → type.valid ≡ true
      → find same id (s.scope p) ≡ some x
      → (x == o) ≡ false
      → (g.type_of x == g.unknown && not (g.type_of o == g.unknown)) ≡ false
      → (r.force_type && not (g.type_of x == g.type_of o)) ≡ false
      → g.valid x ≡ true
      → IsLive g.builtin s.counts type.address
      → (type.address == o) ≡ false
      → (u : Tree) × (declare_child same g deleted p id type r attrs o s ≡ (u, present x))
        × ((q : ℕ) → u.scope q ≡ s.scope q)
        × (u.counts ≡ claim g.builtin x (set_count o 1 s.counts))
  declare_child-present x orphan named full fine allowed is_one good f n keep fits ready live_type
        other_type =
      let a = attributes_for type r.orphan (record attrs { named = true }) in
      (
        record looked { counts = claim g.builtin x (release g.builtin type.address looked.counts) },
        concluded (rw named refl) full (rw fine refl) allowed (rw (is_one, good) refl)
            ∙ ap (conclude_declare g deleted type r o a)
                (attempt-present x orphan named f n keep fits)
            ∙ conclude-present x a looked n ready,
        (λ q. refl),
        ap (claim g.builtin x) (
            release-claim g.builtin type.address (set_count o 1 s.counts)
              (type_counted live_type other_type)),
      )
