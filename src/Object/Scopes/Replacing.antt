-- ===== src/Object/Scopes/Replacing.antt =====
-- The shape of the tree when a new object has taken the place of one of unknown type.
use corto.Base.{
  ℕ, ◌+◌, ◌≤◌, ◌≡◌, ◌≢◌, sym, ap, ◌∙◌, inl, inr, Bool, true, false, Option, none, some, [], ◌==◌,
  Text, arith, Bool-cases, All-imp, length, write,
}
use corto.Object.References.{Counts}
use corto.Object.Scopes.{Tree, Catalog, find, exchange, update_parents}
use corto.Object.Scopes.Keys.{
  Objects, IsDistinct, write-holds, find-Objects, exchange-Objects, exchange-IsDistinct,
  length-exchange,
}
use corto.Object.Scopes.Moving.{update-scope, update-parent_kept, update-parent_moved, update-count}
use corto.Object.Scopes.Shape.{IsTree, IsReady}

same_parent : {a b : ℕ} → some a ≡ some b → a ≡ b
same_parent h = cc

module _ (same : Text → Text → Bool) (g : Catalog) (others : ℕ → ℕ) (p c x : ℕ) (k : Text)
    (s base : Tree) (t : IsTree g others s) (r : IsReady p c s)
    (found : find same k (s.scope p) ≡ some x) (new : (x == c) ≡ false)
    (base_parent : base.parent ≡ write s.parent x none)
    (base_scope : base.scope ≡ write (write s.scope c (s.scope x)) x [])
    (base_counts : base.counts ≡ s.counts) where
  abbrev pub moved : Tree
  moved = update_parents g x c (s.scope x) base

  x-ne-p : x ≢ p
  x-ne-p = find-Objects same (λ o. o ≢ p) k x (s.scope p) found r.acyclic

  c-ne-x : c ≢ x
  c-ne-x e = ground arith

  x_parent : s.parent x ≡ some p
  x_parent = find-Objects same (λ o. s.parent o ≡ some p) k x (s.scope p) found (t.linked p)

  pub kept : (q o : ℕ) → x ≢ q → s.parent o ≡ some q → o ≢ x → moved.parent o ≡ some q
  kept q o n e d =
      let outside : Objects (λ y. y ≢ o) (s.scope x) =
        All-imp _ _ (s.scope x) (λ y h w. n (same_parent (sym h ∙ ap s.parent w ∙ e)))
          (t.linked x) in
      update-parent_kept g x c o (s.scope x) base outside
      ∙ ap (λ (f : ℕ → Option ℕ). f o) base_parent
      ∙ ground (arith, d, e)

  linked_moved :
      (q : ℕ)
      → Objects
          (λ o. moved.parent o ≡ some q)
          (write (write (write s.scope c (s.scope x)) x []) p (exchange same k c (s.scope p)) q)
  linked_moved =
      write-holds (λ q es. Objects (λ o. moved.parent o ≡ some q) es)
        (write (write s.scope c (s.scope x)) x []) p (exchange same k c (s.scope p))
        (exchange-Objects same (λ o. moved.parent o ≡ some p) k x c (s.scope p) found
          (All-imp _ _ (s.scope p) (λ o h d. kept p o.1 x-ne-p h d) (t.linked p)) (t.distinct p)
          (kept p c x-ne-p r.parent c-ne-x))
        (λ q n.
          write-holds (λ q es. p ≢ q → Objects (λ o. moved.parent o ≡ some q) es)
            (write s.scope c (s.scope x)) x [] (λ m. tt)
            (λ q d.
              write-holds (λ q es. x ≢ q → p ≢ q → Objects (λ o. moved.parent o ≡ some q) es)
                s.scope c (s.scope x) (λ d m. update-parent_moved g x c (s.scope x) base)
                (λ q a d m.
                  All-imp _ _ (s.scope q)
                    (λ o h.
                      kept q o.1 d h
                        (λ w. m (same_parent (sym x_parent ∙ ap s.parent (sym w) ∙ h))))
                    (t.linked q))
                q d)
            q n)

  moved-IsDistinct :
      (q : ℕ)
      → IsDistinct
          (write (write (write s.scope c (s.scope x)) x []) p (exchange same k c (s.scope p)) q)
  moved-IsDistinct =
      write-holds (λ q es. IsDistinct es) (write (write s.scope c (s.scope x)) x []) p
        (exchange same k c (s.scope p))
        (exchange-IsDistinct same k c (s.scope p) (r.away p) (t.distinct p))
        (λ q n.
          write-holds (λ q es. IsDistinct es) (write s.scope c (s.scope x)) x [] tt
            (λ q d.
              write-holds (λ q es. IsDistinct es) s.scope c (s.scope x) (t.distinct x)
                (λ q a. t.distinct q) q)
            q)

  place : (a q : ℕ) → (a == q) ≡ true → length (s.scope q) ≡ length (s.scope a)
  place a q e = let i : q ≡ a = ground arith in ap (λ z. length (s.scope z)) i

  counted_moved :
      (q : ℕ)
      → g.builtin q ≡ false
      → moved.counts.count q
        ≡ others q
          + length
              (write (write (write s.scope c (s.scope x)) x []) p (exchange same k c (s.scope p)) q)
  counted_moved q b =
      let before = t.counted q b in
      let same_count : base.counts.count q ≡ s.counts.count q =
        ap (λ (w : Counts). w.count q) base_counts in
      let size : length (exchange same k c (s.scope p)) ≡ length (s.scope p) =
        length-exchange same k c (s.scope p) in
      let nothing : length (s.scope c) ≡ 0 = ap (λ es. length es) r.empty in
      let enough : (x == q) ≡ true → length (s.scope x) ≤ base.counts.count q =
        λ e. ground (arith, place x q e) in
      let moves = update-count g x c q (s.scope x) base b new enough in
      let unlike = x-ne-p in
      let unlike_too = r.apart in
      elim (Bool-cases (p == q)) [
        | inl e ↦ ground (arith, place p q e)
        | inr e ↦ elim (Bool-cases (x == q)) [
          | inl d ↦ ground (arith, place x q d)
          | inr d ↦ elim (Bool-cases (c == q)) [
            | inl a ↦ ground (arith, place c q a)
            | inr a ↦ ground arith
          ]
        ]
      ]

  -- The placeholder's objects are the new object's.
  pub replaced-IsTree :
      (u : Tree)
      → u.parent ≡ moved.parent
      → u.scope ≡ write moved.scope p (exchange same k c (moved.scope p))
      → u.counts ≡ moved.counts
      → IsTree g others u
  replaced-IsTree u ep es ec =
      let scopes : moved.scope ≡ write (write s.scope c (s.scope x)) x [] =
        (update-scope g x c (s.scope x) base).0 ∙ base_scope in
      let at_p : write (write s.scope c (s.scope x)) x [] p ≡ s.scope p =
        ground (arith, x-ne-p, r.apart) in
      let all : u.scope
          ≡ write (write (write s.scope c (s.scope x)) x []) p (exchange same k c (s.scope p)) =
        es
        ∙ ap (λ f. write f p (exchange same k c (f p))) scopes
        ∙ ap (λ v. write (write (write s.scope c (s.scope x)) x []) p (exchange same k c v)) at_p in
      record {
        linked = rw (ep, all) linked_moved;
        distinct = rw all moved-IsDistinct;
        counted = rw (all, ec) counted_moved;
      }
