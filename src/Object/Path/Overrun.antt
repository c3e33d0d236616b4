-- ===== src/Object/Path/Overrun.antt =====
-- A path with an argument list that is not closed.
use corto.Base.{
  ℕ, suc, ◌≡◌, refl, ap, ◌∙◌, Bool, true, false, Option, [], ◌∷◌, ◌++◌, ◌==◌, if◌then◌else◌, Text,
  length, arith, All,
}
use corto.Object.Lookup.Matching.{IsId}
use corto.Object.References.{Counts}
use corto.Object.Path.{Scopes, scan_element, skip_slash, at_end}
use corto.Object.Path.Search.{overrun, pass, walk}
use corto.Object.Path.Resolve.{after_walk, or_root, past_end, lookup_intern}
use corto.Object.Path.Elements.{scan_overrun}
use corto.Object.Path.Rounds.{walk-done}

open_skip : (n a : Text) → IsId n → skip_slash (n ++ b'(' ∷ a) ≡ n ++ b'(' ∷ a
open_skip [] a h = refl
open_skip (c ∷ cs) a h = ground arith

open_more : (n a : Text) → IsId n → at_end (n ++ b'(' ∷ a) ≡ false
open_more [] a h = refl
open_more (c ∷ cs) a h = ground arith

module _ (s : Scopes) where
  -- The first round does not find the end of its element.
  walk_overrun :
      (rounds : ℕ) (o : ℕ) (n a : Text) (c : Counts)
      → IsId n
      → All (λ d. (d == b')') ≡ false) a
      → walk s (suc rounds) true o [] (n ++ b'(' ∷ a) c ≡ overrun
  unfolding pass
  walk_overrun rounds o n a c h k =
      let text = n ++ b'(' ∷ a in
      walk-done s rounds true o [] text c (ap at_end (open_skip n a h) ∙ open_more n a h) overrun (
        ap (λ q. pass s true o (skip_slash text) (scan_element false false q) c) (open_skip n a h)
        ∙ rw (scan_overrun n a h k) refl)

  -- A relative path whose first element opens an argument list that nothing closes makes
  -- `corto_lookup_intern` read past the end of the path, in any scope.
  lookup_intern_overrun :
      (scope : Option ℕ) (n a : Text) (resume secure : Bool) (c : Counts)
      → IsId n
      → All (λ d. (d == b')') ≡ false) a
      → lookup_intern s scope (n ++ b'(' ∷ a) resume secure c ≡ past_end
  unfolding lookup_intern after_walk
  lookup_intern_overrun scope [] a resume secure c h k =
      rw (walk_overrun (length (b'(' ∷ a)) (or_root s scope) [] a c h k) refl
  lookup_intern_overrun scope (d ∷ n) a resume secure c h k =
      let from : (if d == b'/' then s.root else or_root s scope) ≡ or_root s scope =
        ground (arith, h.0) in
      rw (from, walk_overrun (length ((d ∷ n) ++ b'(' ∷ a)) (or_root s scope) (d ∷ n) a c h k) refl
