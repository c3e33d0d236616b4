-- ===== src/Lang/Layout/Unions.antt =====
-- The members of a union: where they fit in its size, and where they do not.
use Prim.Native.Nat.{◌∣◌}
use native.Mathlib.Nat.{dvd-sub, le_of_dvd, mod-eq-zero_of_dvd}
use corto.Base.{
  ℕ, ◌+◌, ◌-◌, ◌%◌, ◌^◌, ◌≤◌, ◌<◌, ◌≡◌, ◌⊎◌, inl, inr, some, List, [], ◌∷◌, ltb, if◌then◌else◌,
  arith, All, All-imp,
}
use corto.Lang.Layout.{
  Target, Member, u8, u32, sizeof, calculate_alignment, largest, union_sized, union_layout,
}
use corto.Lang.Layout.Arithmetic.{IsTarget, u32_small, ℕ-order}

module _ (target : Target) where
  largest-max :
      (size : ℕ) (ms : List Member)
      → (size ≤ largest target size ms)
        × All (λ m. sizeof target m.type ≤ largest target size ms) ms
  unfolding largest
  largest-max size [] = (omega arith, tt)
  largest-max size (m ∷ ms) =
      let next = if ltb size (sizeof target m.type) then sizeof target m.type else size in
      let (h, k) = largest-max next ms in (ground arith, (ground arith, k))

  module _ (laws : IsTarget target) where
    -- No multiple of the alignment from a size on is below the rounded size.
    align_least : (s a k : ℕ) → 0 < a → s ≤ k → a ∣ k → target.align s a ≤ k
    align_least s a k pos le d = elim (ℕ-order (k) (target.align s a)) [
      | inr h ↦ h
      | inl lt ↦
          let gap =
            le_of_dvd {m = a} {n = target.align s a - k} (omega arith)
              (dvd-sub a (laws.align_dvd s a pos) d) in
          absurd (omega (arith, gap, laws.align_lt s a pos))
    ]

    -- A size that is a multiple of the alignment fits behind the discriminator.
    fits_whole :
        (a size top : ℕ)
        → 0 < a
        → a ∣ size
        → size ≤ top
        → target.align 4 a + size ≤ target.align (top + 4) a
    fits_whole a size top pos d le =
        let end = target.align (top + 4) a in
        let ge = laws.align_ge (top + 4) a pos in
        let room =
          align_least 4 a (end - size) pos (omega arith)
            (dvd-sub a (laws.align_dvd (top + 4) a pos) d) in
        omega (arith, room, ge)

    -- So does any size where the alignment divides the discriminator's size.
    fits_small :
        (a size top : ℕ)
        → 0 < a
        → a ∣ 4
        → size ≤ top
        → target.align 4 a + size ≤ target.align (top + 4) a
    fits_small a size top pos d le =
        omega (arith, align_least 4 a 4 pos (omega arith) d, laws.align_ge (top + 4) a pos)

    sized_numbers :
        (own top offset size al : ℕ)
        → top + 4 + al < 2 ^ 32
        → union_sized target own top ≡ some (offset, size, al)
        → (0 < al) × (offset ≡ target.align 4 al) × (size ≡ target.align (top + 4) al)
    unfolding union_sized
    sized_numbers own top offset size al b e =
        let pos : 0 < u8 own = ground arith in
        let same : u8 own ≡ al = ground arith in
        let below = laws.align_lt (top + 4) al (omega arith) in
        let small : u32 (top + 4) ≡ top + 4 = u32_small (top + 4) (omega arith) in
        let fits : u32 (target.align (top + 4) al) ≡ target.align (top + 4) al =
          u32_small (target.align (top + 4) al) (omega arith) in
        (omega arith, ground arith, ground (arith, small, fits))

    union_numbers :
        (ms : List Member) (offset size al : ℕ)
        → largest target 0 ms + 4 + al < 2 ^ 32
        → union_layout target ms ≡ some (offset, size, al)
        → (0 < al)
          × (offset ≡ target.align 4 al)
          × (size ≡ target.align (largest target 0 ms + 4) al)
    unfolding union_layout
    union_numbers [] offset size al b e = absurd (cc)
    union_numbers (m ∷ ms) offset size al b e =
        sized_numbers (calculate_alignment target (m ∷ ms)) (largest target 0 (m ∷ ms)) offset size
          al b e

    -- A union, when it is constructed, holds its members behind the discriminator and within its
    -- size, if its alignment divides 4, the size of the discriminator, or divides the sizes of all
    -- members. The largest size and the alignment stay below 2^32.
    pub union_layout-fits :
        (ms : List Member) (offset size al : ℕ)
        → largest target 0 ms + 4 + al < 2 ^ 32
        → (al ∣ 4) ⊎ All (λ m. al ∣ sizeof target m.type) ms
        → union_layout target ms ≡ some (offset, size, al)
        → (4 ≤ offset) × All (λ m. offset + sizeof target m.type ≤ size) ms
    union_layout-fits ms offset size al b d e =
        let (pos, eo, es) = union_numbers ms offset size al b e in
        let bounds = (largest-max 0 ms).1 in
        (
          omega (arith, laws.align_ge 4 al pos),
          rw (eo, es)
              (elim d [
                | inl small ↦
                    All-imp (λ m. sizeof target m.type ≤ largest target 0 ms)
                      (λ m.
                        target.align 4 al + sizeof target m.type
                        ≤ target.align (largest target 0 ms + 4) al)
                      ms
                      (λ m k.
                        fits_small al (sizeof target m.type) (largest target 0 ms) pos small k)
                      bounds
                | inr whole ↦ all_whole ms pos whole bounds
              ]),
        )
      where
        all_whole :
            (us : List Member)
            → 0 < al
            → All (λ m. al ∣ sizeof target m.type) us
            → All (λ m. sizeof target m.type ≤ largest target 0 ms) us
            → All
                (λ m.
                  target.align 4 al + sizeof target m.type
                  ≤ target.align (largest target 0 ms + 4) al)
                us
        all_whole [] pos w k = tt
        all_whole (u ∷ us) pos w k = (
          fits_whole al (sizeof target u.type) (largest target 0 ms) pos w.0 k.0,
          all_whole us pos w.1 k.1,
        )

    -- Where the alignment is 8 and the largest size leaves a remainder of 1 to 4 by 8, a union is
    -- given a size that its largest member, at the offset that it is given, runs past.
    pub union_layout-overflow :
        (ms : List Member) (offset size : ℕ)
        → largest target 0 ms + 4 + 8 < 2 ^ 32
        → 1 ≤ largest target 0 ms % 8
        → largest target 0 ms % 8 ≤ 4
        → union_layout target ms ≡ some (offset, size, 8)
        → size < offset + largest target 0 ms
    union_layout-overflow ms offset size b lo hi e =
        let (pos, eo, es) = union_numbers ms offset size 8 b e in
        let top = largest target 0 ms in
        omega (
          arith,
          mod-eq-zero_of_dvd 8 (laws.align_dvd 4 8 (omega arith)),
          laws.align_ge 4 8 (omega arith),
          mod-eq-zero_of_dvd 8 (laws.align_dvd (top + 4) 8 (omega arith)),
          laws.align_lt (top + 4) 8 (omega arith),
        )
