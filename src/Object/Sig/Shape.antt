-- ===== src/Object/Sig/Shape.antt =====
-- The text of a signature that was built from plain type ids.
use corto.Base.{
  ℕ, ◌≡◌, ◌≢◌, refl, sym, ◌∙◌, ap, Bool, true, false, not, ◌&&◌, ◌||◌, List, [], ◌∷◌, ◌++◌, ◌==◌,
  Text, if◌then◌else◌, arith, All, All-append, All-imp,
}
use mathlib.Core.List.{append_assoc, append-nil}
use corto.Object.Sig.{Flags, Param, marks, ends_with_paren, open_sig, add, add_all, close, build}

-- A character with no meaning in a signature.
abbrev pub is_plain : ℕ → Bool
is_plain c =
    not (c == b'(' || c == b')' || c == b',' || c == b' ' || c == b'&' || c == b':' || c == b'{')

-- The id of a type as a request names it: not empty, and plain.
pub record IsTypeId (id : Text) : Type 0 where
  pub plain : All (λ c. is_plain c ≡ true) id
  pub filled : id ≢ []

abbrev pub arg : Param → Text
arg p = p.id ++ marks p.flags

abbrev pub tail_args : List Param → Text
tail_args [] = []
tail_args (p ∷ ps) = b',' ∷ (arg p ++ tail_args ps)

abbrev pub args : List Param → Text
args [] = []
args (p ∷ ps) = arg p ++ tail_args ps

ends_with_paren-skip :
    (s : Text) (c : ℕ) (t : Text) → ends_with_paren (s ++ c ∷ t) ≡ ends_with_paren (c ∷ t)
unfolding ends_with_paren
ends_with_paren-skip [] c t = refl
ends_with_paren-skip (a ∷ []) c t = refl
ends_with_paren-skip (a ∷ b ∷ s) c t = ends_with_paren-skip (b ∷ s) c t

no_paren_end :
    (c : ℕ) (cs : Text) → All (λ c. (c == b'(') ≡ false) (c ∷ cs) → ends_with_paren (c ∷ cs) ≡ false
unfolding ends_with_paren
no_paren_end c [] h = h.0
no_paren_end c (d ∷ cs) h = no_paren_end d cs h.1

plain_no_paren : (cs : Text) → All (λ c. is_plain c ≡ true) cs → All (λ c. (c == b'(') ≡ false) cs
plain_no_paren cs =
    All-imp (λ c. is_plain c ≡ true) (λ c. (c == b'(') ≡ false) cs (λ c h. ground arith)

marks_no_paren : (f : Flags) → All (λ c. (c == b'(') ≡ false) (marks f)
unfolding marks
marks_no_paren f = go f.reference f.force_reference
  where
    go :
        (a b : Bool)
        → All
            (λ c. (c == b'(') ≡ false)
            ((if a && (a || b) then b'&' ∷ [] else []) ++ (if a && b then b'&' ∷ [] else []))
    go true true = (refl, (refl, tt))
    go true false = (refl, tt)
    go false true = tt
    go false false = tt

-- Neither an id nor a mark behind it ends in a parenthesis.
arg_end : (s : Text) (p : Param) → IsTypeId p.id → ends_with_paren (s ++ arg p) ≡ false
arg_end s p h = go p.id h
  where
    go : (id : Text) → IsTypeId id → ends_with_paren (s ++ (id ++ marks p.flags)) ≡ false
    go [] h = absurd (h.filled refl)
    go (c ∷ cs) h =
        ends_with_paren-skip s c (cs ++ marks p.flags)
        ∙ no_paren_end c (cs ++ marks p.flags) (
            All-append (λ c. (c == b'(') ≡ false) (c ∷ cs) (marks p.flags)
              (plain_no_paren (c ∷ cs) h.plain) (marks_no_paren p.flags))

ends_with_comma :
    (s : Text) (p : Param) → IsTypeId p.id → ends_with_paren (s ++ b',' ∷ arg p) ≡ false
ends_with_comma s p h =
    ap ends_with_paren (sym (append_assoc s (b',' ∷ []) (arg p))) ∙ arg_end (s ++ b',' ∷ []) p h

-- What is added to a signature that has a parameter stands behind commas.
add_all-tail :
    (s : Text) (ps : List Param)
    → ends_with_paren s ≡ false
    → All (λ p. IsTypeId p.id) ps
    → add_all s ps ≡ s ++ tail_args ps
unfolding add_all add
add_all-tail s [] e h = sym (append-nil s)
add_all-tail s (p ∷ ps) e h = rw e (
    add_all-tail (s ++ b',' ∷ arg p) ps (ends_with_comma s p h.0) h.1
    ∙ append_assoc s (b',' ∷ arg p) (tail_args ps))

open_sig_end : (name : Text) → ends_with_paren (name ++ b'(' ∷ []) ≡ true
unfolding ends_with_paren
open_sig_end name = ends_with_paren-skip name b'(' []

-- The built text: the name, the list of parameters, and the parenthesis that closes it.
pub build_lem :
    (name : Text) (ps : List Param)
    → All (λ p. IsTypeId p.id) ps
    → build name ps ≡ name ++ b'(' ∷ (args ps ++ b')' ∷ [])
unfolding build open_sig close add_all
build_lem name [] h = append_assoc name (b'(' ∷ []) (b')' ∷ [])
build_lem name (p ∷ ps) h = rw (open_sig_end name) (
    rw (add_all-tail ((name ++ b'(' ∷ []) ++ arg p) ps (arg_end (name ++ b'(' ∷ []) p h.0) h.1)
      (simp append_assoc))
