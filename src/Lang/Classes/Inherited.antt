-- ===== src/Lang/Classes/Inherited.antt =====
-- Which implementation of a delegate a type has once it has pulled it from its bases.
use corto.Base.{ℕ, Bool, ◌≡◌, refl, true, false, none, some, List, [], ◌∷◌, ◌++◌, All}
use corto.Lang.Methods.{claim_method}
use corto.Lang.Classes.{Held, is_missing, nearest, pull_delegate, set_delegate}

nearest-append :
    (before behind : List Held) (base : Held)
    → All (λ h. is_missing h ≡ true) before
    → is_missing base ≡ false
    → nearest (before ++ base ∷ behind) ≡ some base
unfolding nearest
nearest-append [] behind base h e = rw e refl
nearest-append (x ∷ xs) behind base h e = rw h.0 (nearest-append xs behind base h.1 e)

-- A type that has no implementation of a delegate of its own, or a stub, has the nearest one of its
-- bases once it has pulled it, with a reference of its own to it unless it is builtin; stubs on the way are passed over.
pull_delegate-nearest :
    (builtin : ℕ → Bool) (this base : Held) (before behind : List Held) (references : ℕ → ℕ) (m : ℕ)
    → this.applies ≡ true
    → this.procedure ≡ none
    → All (λ h. is_missing h ≡ true) before
    → base.procedure ≡ some m
    → base.stub ≡ false
    → base.applies ≡ true
    → pull_delegate builtin true this (before ++ base ∷ behind) references
      ≡ (some m, claim_method builtin m references)
unfolding pull_delegate set_delegate is_missing
pull_delegate-nearest builtin this base before behind references m a n h p s b =
    let missing : is_missing base ≡ false = rw (p, s, is_missing) refl in
    rw (a, n, nearest-append before behind base h missing, b, p, n) refl
