-- ===== src/Object/Path/Elements.antt =====
-- The elements of a path: where they end, and what the loop that looks for the end reads.
use corto.Base.{
  ℕ, ◌≤◌, ◌<◌, ◌≡◌, refl, sym, ◌∙◌, ◌⊎◌, inl, inr, Bool, true, false, not, ◌||◌, none, some, [],
  ◌∷◌, ◌++◌, ◌==◌, Text, length, arith, All, Bool-cases,
}
use corto.Object.Lookup.Matching.{IsId, Follows, end, scope, value}
use corto.Object.Path.{scan_element, skip_slash, at_end}

-- An element without arguments ends where the path goes on.
pub scan_plain :
    (n t : Text) → IsId n → Follows t → scan_element false false (n ++ t) ≡ some (false, t)
unfolding scan_element
scan_plain [] [] h end = refl
scan_plain [] _ h (scope rest) = refl
scan_plain [] _ h (value rest) = refl
scan_plain (c ∷ cs) t h f = ground (arith, scan_plain cs t h.1 f)

scan_open : (k : Bool) (a : Text) → All (λ c. (c == b')') ≡ false) a → scan_element true k a ≡ none
unfolding scan_element
scan_open k [] h = refl
scan_open k (c ∷ cs) h = ground (arith, scan_open k cs h.1)

-- An argument list that is not closed is read past its end.
pub scan_overrun :
    (n a : Text)
    → IsId n
    → All (λ c. (c == b')') ≡ false) a
    → scan_element false false (n ++ b'(' ∷ a) ≡ none
unfolding scan_element
scan_overrun [] a h k = scan_open true a k
scan_overrun (c ∷ cs) a h k = ground (arith, scan_overrun cs a h.1 k)

-- A ')' stands in the text.
abbrev HasClose : Text → Type 0
HasClose [] = ⊥
HasClose (c ∷ cs) = (c ≡ b')') ⊎ HasClose cs

-- Behind each '(' stands a ')'.
abbrev pub IsClosed : Text → Type 0
IsClosed [] = Unit
IsClosed (c ∷ cs) = (c ≡ b'(' → HasClose cs) × IsClosed cs

-- The end of an element is found in a path that is closed, and the rest of it is closed.
pub scan-IsClosed :
    (m k : Bool) (t : Text)
    → (m ≡ true → HasClose t)
    → IsClosed t
    → (j : Bool) × (next : Text) × (scan_element m k t ≡ some (j, next)) × IsClosed next
unfolding scan_element
scan-IsClosed true k [] h q = absurd (h refl)
scan-IsClosed false k [] h q = (k, [], refl, tt)
scan-IsClosed true k (c ∷ cs) h (opens, q) = elim (Bool-cases (c == b')')) [
  | inl e ↦
      let (j, next, r, z) = scan-IsClosed false k cs (λ n. absurd (cc n)) q in
      (j, next, rw (scan_element, e) r, z)
  | inr e ↦ elim (h refl) [
    | inl same ↦ absurd (ground arith)
    | inr rest ↦
        let (j, next, r, z) = scan-IsClosed true k cs (λ _. rest) q in
        (j, next, rw (scan_element, e) r, z)
  ]
]
scan-IsClosed false k (c ∷ cs) h (opens, q) = elim (Bool-cases (c == b'/' || c == b'{')) [
  | inl e ↦ (k, c ∷ cs, rw e refl, (opens, q))
  | inr e ↦
      let (j, next, r, z) =
        scan-IsClosed (c == b'(') (k || c == b'(') cs (λ n. opens (ground arith)) q in
      (j, next, rw (scan_element, e) r, z)
]

pub skip-IsClosed : (t : Text) → IsClosed t → IsClosed (skip_slash t)
skip-IsClosed [] q = tt
skip-IsClosed (c ∷ cs) (opens, q) = elim (Bool-cases (c == b'/')) [
  | inl e ↦ rw e q
  | inr e ↦ rw e (opens, q)
]

scan-length :
    (m k : Bool) (t next : Text) (j : Bool)
    → scan_element m k t ≡ some (j, next)
    → length next ≤ length t
unfolding scan_element
scan-length true k [] next j e = absurd (cc)
scan-length false k [] next j e = let same : next ≡ [] = cc in rw same (omega arith)
scan-length true k (c ∷ cs) next j e = omega (arith, scan-length (not (c == b')')) k cs next j e)
scan-length false k (c ∷ cs) next j e = elim (Bool-cases (c == b'/' || c == b'{')) [
  | inl b ↦ let same : next ≡ c ∷ cs = ground arith in rw same (omega arith)
  | inr b ↦ omega (arith, scan-length (c == b'(') (k || c == b'(') cs next j (sym (rw b refl) ∙ e))
]

scan_char :
    (c : ℕ) (cs : Text)
    → (c == b'/') ≡ false
    → (c == b'{') ≡ false
    → scan_element false false (c ∷ cs) ≡ scan_element (c == b'(') (c == b'(') cs
unfolding scan_element
scan_char c cs a b = rw (a, b) refl

-- Every round of a lookup leaves less of the path.
pub next-shorter :
    (t next : Text) (j : Bool)
    → at_end (skip_slash t) ≡ false
    → scan_element false false (skip_slash t) ≡ some (j, next)
    → length next < length t
next-shorter [] next j a e = absurd (cc)
next-shorter (c ∷ cs) next j a e = elim (Bool-cases (c == b'/')) [
  | inl b ↦ omega (arith, scan-length false false cs next j (sym (rw b refl) ∙ e))
  | inr b ↦
      let k : (c == b'{') ≡ false = sym (rw b refl) ∙ a in
      let whole : scan_element false false (c ∷ cs) ≡ some (j, next) = sym (rw b refl) ∙ e in
      omega
        (arith, scan-length (c == b'(') (c == b'(') cs next j (sym (scan_char c cs b k) ∙ whole))
]
