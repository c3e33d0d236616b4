-- ===== src/Lang/Layout/Arithmetic.antt =====
-- Rounding up to an alignment.
use Prim.Native.Nat.{◌∣◌}
use corto.Base.{ℕ, ◌+◌, ◌^◌, ◌≤◌, ◌<◌, ◌≡◌, ◌⊎◌, arith}
use corto.Lang.Layout.{Target, u32}

-- What CORTO_ALIGN does: it rounds up to the next multiple of an alignment that is not 0. Pointers
-- have a size and an alignment.
pub record IsTarget (target : Target) : Type 0 where
  pub align_ge : (s a : ℕ) → 0 < a → s ≤ target.align s a
  pub align_lt : (s a : ℕ) → 0 < a → target.align s a < s + a
  pub align_dvd : (s a : ℕ) → 0 < a → a ∣ target.align s a
  pub pointer_size_pos : 0 < target.pointer_size
  pub pointer_alignment_pos : 0 < target.pointer_alignment

pub u32_small : (n : ℕ) → n < 2 ^ 32 → u32 n ≡ n
u32_small n h = omega arith

pub ℕ-order : (a b : ℕ) → (a < b) ⊎ (b ≤ a)
ℕ-order a b = omega arith
