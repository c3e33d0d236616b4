-- ===== src/Object/Path/Rounds.antt =====
-- What a round of the loop of a lookup does next.
use corto.Base.{ℕ, suc, ◌≡◌, refl, Bool, true, false, some, [], Text}
use corto.Object.References.{Counts}
use corto.Object.Path.{Scopes, scan_element, skip_slash, at_end, is_over}
use corto.Object.Path.Search.{Ended, stopped, done, go_on, pass, walk}

module _ (s : Scopes) (rounds : ℕ) (first : Bool) (o : ℕ) (lastelem ptr : Text) (c : Counts) where
  pub walk-end :
      at_end (skip_slash ptr) ≡ true
      → walk s (suc rounds) first o lastelem ptr c ≡ stopped (some o) o lastelem (skip_slash ptr) c
  unfolding walk
  walk-end a = rw (walk, a) refl

  module _ (more : at_end (skip_slash ptr) ≡ false) where
    pub walk-done :
        (e : Ended)
        → pass s first o (skip_slash ptr) (scan_element false false (skip_slash ptr)) c ≡ done e
        → walk s (suc rounds) first o lastelem ptr c ≡ e
    unfolding walk
    walk-done e r = rw (walk, more, r) refl

    module _ (j : Bool) (next : Text) (x : ℕ) (d : Counts)
        (element : scan_element false false (skip_slash ptr) ≡ some (j, next))
        (goes : pass s first o (skip_slash ptr) (some (j, next)) c ≡ go_on x d) where
      pub walk-last :
          is_over next ≡ true
          → walk s (suc rounds) first o lastelem ptr c ≡ stopped (some x) o (skip_slash ptr) [] d
      unfolding walk
      walk-last b = rw (walk, more, element, goes, element, b) refl

      pub walk-on :
          is_over next ≡ false
          → walk s (suc rounds) first o lastelem ptr c
            ≡ walk s rounds false x (skip_slash ptr) next d
      unfolding walk
      walk-on b = rw (walk, more, element, goes, element, b, element) refl
