-- ===== src/Lang/Layout/Structs.antt =====
-- The members of a struct: aligned, apart from one another, and within the size.
use Prim.Native.Nat.{◌∣◌}
use corto.Base.{
  ℕ, ◌+◌, ◌^◌, ◌≤◌, ◌<◌, ◌≡◌, true, false, ◌||◌, Option, none, some, List, [], ◌∷◌, ◌==◌, arith,
  All, sym, ap, ◌∙◌,
}
use corto.Lang.Layout.{
  Target, Member, Layout, u32, alignmentof, member_alignment, member_size, size_loop, prepend,
  base_size, base_alignment,
}
use corto.Lang.Layout.Arithmetic.{IsTarget, u32_small}

prepend-eq-some :
    (offset : ℕ) (r : Option (List ℕ × ℕ)) {os : List ℕ} {hi : ℕ}
    → prepend offset r ≡ some (os, hi)
    → (rest : List ℕ) × (os ≡ offset ∷ rest) × (r ≡ some (rest, hi))
unfolding prepend
prepend-eq-some offset none e = cc
prepend-eq-some offset (some (rest, end)) e = (rest, cc, cc)

module _ (target : Target) where
  -- The members from `lo` on stand at these offsets, one behind the other, and end at `hi`.
  abbrev Placed : ℕ → List Member → List ℕ → ℕ → Type 0
  Placed lo [] [] hi = lo ≤ hi
  Placed lo [] (o ∷ os) hi = ⊥
  Placed lo (m ∷ ms) [] hi = ⊥
  Placed lo (m ∷ ms) (o ∷ os) hi = elim (m.alias) [
    | some offset ↦ (o ≡ offset) × Placed lo ms os hi
    | none ↦ (lo ≤ o) × (alignmentof target m.type ∣ o) × Placed (o + member_size target m) ms os hi
  ]

  -- A bound of the room that the members take.
  abbrev extent : List Member → ℕ
  extent [] = 0
  extent (m ∷ ms) = alignmentof target m.type + member_size target m + extent ms

  module _ (laws : IsTarget target) where
    size_loop-member :
        (lo : ℕ) (m : Member) (ms : List Member)
        → m.alias ≡ none
        → (member_size target m == 0 || (alignmentof target m.type == 0)) ≡ false
        → lo + extent (m ∷ ms) < 2 ^ 32
        → size_loop target lo (m ∷ ms)
          ≡ prepend (target.align lo (alignmentof target m.type)) (
              size_loop target
                (target.align lo (alignmentof target m.type) + member_size target m)
                ms)
    unfolding size_loop
    size_loop-member lo m ms a g b =
        let a_pos : 0 < alignmentof target m.type = ground arith in
        let below = laws.align_lt lo (alignmentof target m.type) a_pos in
        let o = target.align lo (alignmentof target m.type) in
        let first : u32 o ≡ o = u32_small o (omega arith) in
        let second : u32 (o + member_size target m) ≡ o + member_size target m =
          u32_small (o + member_size target m) (omega arith) in
        rw (a, g, first, second)

  -- What a layout owes to the members and the base class.
  pub record IsLaidOut (base : Option (ℕ × ℕ)) (ms : List Member) (l : Layout) : Type 0 where
    pub placed : Placed (base_size base) ms l.offsets l.size
    pub whole : l.alignment ∣ l.size
    pub strictest : All (λ m. member_alignment target m ≤ l.alignment) ms
    pub inherited : base_alignment base ≤ l.alignment

  module _ (laws : IsTarget target) where
    -- A member that is optional is stored as a pointer, but it is placed by the alignment of its type:
    -- where that is 1, it stands right at the end of what is before it, whatever the alignment of
    -- pointers, while the struct's alignment counts it as a pointer. The sizes and the alignments
    -- together stay below 2^32.
    pub optional_offset :
        (lo : ℕ) (m : Member) (ms : List Member) (os : List ℕ) (hi : ℕ)
        → lo + extent (m ∷ ms) < 2 ^ 32
        → m.alias ≡ none
        → m.optional ≡ true
        → alignmentof target m.type ≡ 1
        → size_loop target lo (m ∷ ms) ≡ some (os, hi)
        → (member_alignment target m ≡ target.pointer_alignment)
          × (member_size target m ≡ target.pointer_size)
          × ((rest : List ℕ) × (os ≡ lo ∷ rest))
    unfolding member_alignment member_size
    optional_offset lo m ms os hi b a o one e =
        let g : (member_size target m == 0 || (alignmentof target m.type == 0)) ≡ false =
          ground (arith, laws.pointer_size_pos) in
        let (rest, p, q) =
          prepend-eq-some (target.align lo (alignmentof target m.type)) _
            (sym (size_loop-member laws lo m ms a g b) ∙ e) in
        let here : target.align lo (alignmentof target m.type) ≡ lo =
          rw one
            (omega (arith, laws.align_ge lo 1 (omega arith), laws.align_lt lo 1 (omega arith))) in
        (rw o, rw o, (rest, p ∙ ap (λ t. t ∷ rest) here))
