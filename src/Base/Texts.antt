-- ===== src/Base/Texts.antt =====
-- Texts: lists of character codes, and their comparison.
use mathlib.Core.Path.{◌≡◌, refl}
use mathlib.Core.Bool.{Bool, true, false, ◌&&◌}
use mathlib.Core.List.{[], ◌∷◌}
use native.Mathlib.Omega.{arith}
use corto.Base.Booleans.{◌==◌}
use corto.Base.Lists.{Text}

-- !strcmp(a, b)
abbrev pub str_eq : Text → Text → Bool
str_eq [] [] = true
str_eq [] (d ∷ ds) = false
str_eq (c ∷ cs) [] = false
str_eq (c ∷ cs) (d ∷ ds) = c == d && str_eq cs ds

pub str_eq_sound : (a b : Text) → str_eq a b ≡ true → a ≡ b
str_eq_sound [] [] e = refl
str_eq_sound [] (d ∷ ds) e = absurd (cc)
str_eq_sound (c ∷ cs) [] e = absurd (cc)
str_eq_sound (c ∷ cs) (d ∷ ds) e = ground (arith, str_eq_sound cs ds)

pub str_eq_refl : (a : Text) → str_eq a a ≡ true
str_eq_refl [] = refl
str_eq_refl (c ∷ cs) = ground (arith, str_eq_refl cs)
