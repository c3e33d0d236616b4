-- ===== src/Object/Sig/RoundTrip.antt =====
-- What was built with `corto_sig_open`, `corto_sig_add` and `corto_sig_close` is read back.
use corto.Base.{
  ℕ, zero, suc, ◌+◌, ◌≡◌, ◌≢◌, refl, sym, ◌∙◌, ap, Bool, true, false, not, ◌&&◌, ◌||◌, some, List,
  [], ◌∷◌, ◌++◌, ◌==◌, Text, str_eq, if◌then◌else◌, arith, All, All-append, All-imp, length,
  get_elem?, subst,
}
use mathlib.Core.List.{append_assoc, append-nil}
use corto.Object.Sig.{
  Flags, Param, Scan, scan, marks, build, name, argument_list, count_loop, count_from, param_count,
  wildcard_text, null_text, type_loop, final_flags, param_type,
}
use corto.Object.Sig.Shape.{is_plain, IsTypeId, arg, args, tail_args, build_lem}

-- A name with no argument list.
abbrev pub IsBare : Text → Type 0
IsBare = All (λ c. (c == b'(') ≡ false)

name-append : (n rest : Text) → IsBare n → name (n ++ b'(' ∷ rest) ≡ n
unfolding name
name-append [] rest h = refl
name-append (c ∷ n) rest h = rw h.0 (ap (λ t. c ∷ t) (name-append n rest h.1))

argument_list-append : (n rest : Text) → IsBare n → argument_list (n ++ b'(' ∷ rest) ≡ some rest
unfolding argument_list
argument_list-append [] rest h = refl
argument_list-append (c ∷ n) rest h = rw h.0 (argument_list-append n rest h.1)

-- A character that neither ends a parameter nor opens a nesting.
abbrev is_quiet : ℕ → Bool
is_quiet c = not (c == b',' || c == b'{')

abbrev IsQuiet : Text → Type 0
IsQuiet = All (λ c. is_quiet c ≡ true)

marks-IsQuiet : (f : Flags) → IsQuiet (marks f)
unfolding marks
marks-IsQuiet f = go f.reference f.force_reference
  where
    go :
        (a b : Bool)
        → IsQuiet ((if a && (a || b) then b'&' ∷ [] else []) ++ (if a && b then b'&' ∷ [] else []))
    go true true = (refl, (refl, tt))
    go true false = (refl, tt)
    go false true = tt
    go false false = tt

arg-IsQuiet : (p : Param) → IsTypeId p.id → IsQuiet (arg p)
arg-IsQuiet p h =
    All-append (λ c. is_quiet c ≡ true) p.id (marks p.flags)
      (All-imp (λ c. is_plain c ≡ true) (λ c. is_quiet c ≡ true) p.id (λ c h. ground arith) h.plain)
      (marks-IsQuiet p.flags)

count_loop-quiet :
    (n : ℕ) (cs rest : Text) → IsQuiet cs → count_loop 0 n (cs ++ rest) ≡ count_loop 0 n rest
unfolding count_loop
count_loop-quiet n [] rest h = refl
count_loop-quiet n (c ∷ cs) rest h = ground (arith, count_loop-quiet n cs rest h.1)

count_loop-tail :
    (n : ℕ) (ps : List Param)
    → All (λ p. IsTypeId p.id) ps
    → count_loop 0 n (tail_args ps ++ b')' ∷ []) ≡ n + length ps
unfolding count_loop
count_loop-tail n [] h = omega arith
count_loop-tail n (p ∷ ps) h =
    ap (count_loop 0 (n + 1)) (append_assoc (arg p) (tail_args ps) (b')' ∷ []))
    ∙ count_loop-quiet (n + 1) (arg p) (tail_args ps ++ b')' ∷ []) (arg-IsQuiet p h.0)
    ∙ count_loop-tail (n + 1) ps h.1
    ∙ omega arith

count_from-filled :
    (id rest : Text) → IsTypeId id → count_from (id ++ rest) ≡ count_loop 0 1 (id ++ rest)
unfolding count_from
count_from-filled [] rest h = absurd (h.filled refl)
count_from-filled (c ∷ cs) rest h = let p = h.plain.0 in ground arith

count_from-args :
    (ps : List Param) → All (λ p. IsTypeId p.id) ps → count_from (args ps ++ b')' ∷ []) ≡ length ps
unfolding count_from
count_from-args [] h = refl
count_from-args (p ∷ ps) h =
    let rest = tail_args ps ++ b')' ∷ [] in
    ap count_from
      (append_assoc (arg p) (tail_args ps) (b')' ∷ []) ∙ append_assoc p.id (marks p.flags) rest)
    ∙ count_from-filled p.id (marks p.flags ++ rest) h.0
    ∙ ap (count_loop 0 1) (sym (append_assoc p.id (marks p.flags) rest))
    ∙ count_loop-quiet 1 (arg p) rest (arg-IsQuiet p h.0)
    ∙ count_loop-tail 1 ps h.1
    ∙ omega arith

-- The name and the number of parameters of a request are those that it was built from. The name has
-- no '(' in it, and the ids of the types are not empty and have no character that has a meaning in
-- a signature.
pub count-build :
    (n : Text) (ps : List Param)
    → IsBare n
    → All (λ p. IsTypeId p.id) ps
    → (name (build n ps) ≡ n) × (param_count (build n ps) ≡ some (length ps))
unfolding param_count
count-build n ps b h = (
  ap name (build_lem n ps h) ∙ name-append n (args ps ++ b')' ∷ []) b,
  rw (build_lem n ps h, argument_list-append n (args ps ++ b')' ∷ []) b, param_count)
      (ap some (count_from-args ps h)),
)

-- The scan while parameters are passed, and while the one that is asked for is read.
abbrev passing : ℕ → Scan
passing i = record scan { index = i }

abbrev reading : ℕ → Text → Scan
reading i b = record scan { index = i; parsing = true; buffer = b }

pass_char :
    (id i c : ℕ) (rest : Text)
    → i ≢ id
    → is_quiet c ≡ true
    → type_loop id (passing i) (c ∷ rest) ≡ type_loop id (passing i) rest
unfolding type_loop
pass_char id i c rest h q = ground arith

pass_comma :
    (id i : ℕ) (rest : Text)
    → i ≢ id
    → type_loop id (passing i) (b',' ∷ rest) ≡ type_loop id (passing (i + 1)) rest
unfolding type_loop
pass_comma id i rest h = ground arith

read_first :
    (id c : ℕ) (rest : Text)
    → is_plain c ≡ true
    → type_loop id (passing id) (c ∷ rest) ≡ type_loop id (reading id (c ∷ [])) rest
unfolding type_loop
read_first id c rest h = ground arith

read_char :
    (id c : ℕ) (b rest : Text)
    → is_plain c ≡ true
    → type_loop id (reading id b) (c ∷ rest) ≡ type_loop id (reading id (b ++ c ∷ [])) rest
unfolding type_loop
read_char id c b rest h = ground arith

pass_quiet :
    (id i : ℕ) (cs rest : Text)
    → i ≢ id
    → IsQuiet cs
    → type_loop id (passing i) (cs ++ rest) ≡ type_loop id (passing i) rest
pass_quiet id i [] rest h q = refl
pass_quiet id i (c ∷ cs) rest h q =
    pass_char id i c (cs ++ rest) h q.0 ∙ pass_quiet id i cs rest h q.1

read_plain :
    (id : ℕ) (b cs rest : Text)
    → All (λ c. is_plain c ≡ true) cs
    → type_loop id (reading id b) (cs ++ rest) ≡ type_loop id (reading id (b ++ cs)) rest
read_plain id b [] rest h = ap (λ t. type_loop id (reading id t) rest) (sym (append-nil b))
read_plain id b (c ∷ cs) rest h =
    read_char id c b (cs ++ rest) h.0
    ∙ read_plain id (b ++ c ∷ []) cs rest h.1
    ∙ ap (λ t. type_loop id (reading id t) rest) (append_assoc b (c ∷ []) cs)

read_id :
    (id : ℕ) (cs rest : Text)
    → IsTypeId cs
    → type_loop id (passing id) (cs ++ rest) ≡ type_loop id (reading id cs) rest
read_id id [] rest h = absurd (h.filled refl)
read_id id (c ∷ cs) rest h =
    read_first id c (cs ++ rest) h.plain.0 ∙ read_plain id (c ∷ []) cs rest h.plain.1

-- What stands behind an id: its marks, the other parameters, the parenthesis.
abbrev behind : Flags → List Param → Text
behind f ps = marks f ++ (tail_args ps ++ b')' ∷ [])

read_end :
    (id : ℕ) (b : Text) (f : Flags) (ps : List Param)
    → type_loop id (reading id b) (behind f ps) ≡ some (reading id b, behind f ps)
unfolding type_loop marks
read_end id b f [] = ground arith
read_end id b f (p ∷ ps) = ground arith

-- The flags that a request hands over: a forced reference only where it is a reference too.
abbrev pub received : Param → Flags
received p = record {
  reference = p.flags.reference;
  force_reference = p.flags.reference && p.flags.force_reference;
  wildcard = str_eq p.id wildcard_text;
  null = str_eq p.id null_text;
  input = false;
  output = false;
}

final_flags-behind :
    (id : ℕ) (p : Param) (ps : List Param)
    → final_flags (reading id p.id) (behind p.flags ps) ≡ received p
unfolding final_flags marks
final_flags-behind id p [] = ground arith
final_flags-behind id p (q ∷ ps) = ground arith

args-split :
    (p : Param) (ps : List Param)
    → args (p ∷ ps) ++ b')' ∷ [] ≡ arg p ++ (tail_args ps ++ b')' ∷ [])
args-split p ps = append_assoc (arg p) (tail_args ps) (b')' ∷ [])

find_here :
    (id : ℕ) (p : Param) (ps : List Param)
    → IsTypeId p.id
    → type_loop id (passing id) (args (p ∷ ps) ++ b')' ∷ [])
      ≡ some (reading id p.id, behind p.flags ps)
find_here id p ps h =
    ap (type_loop id (passing id))
      (args-split p ps ∙ append_assoc p.id (marks p.flags) (tail_args ps ++ b')' ∷ []))
    ∙ read_id id p.id (behind p.flags ps) h
    ∙ read_end id p.id p.flags ps

find_param :
    (id i k : ℕ) (ps : List Param) (p : Param)
    → id ≡ i + k
    → All (λ p. IsTypeId p.id) ps
    → get_elem? ps k ≡ some p
    → (qs : List Param) × (type_loop id (passing i) (args ps ++ b')' ∷ [])
        ≡ some (reading id p.id, behind p.flags qs))
find_param id i k [] p e h g = cc
find_param id i zero (q ∷ qs) p e h g =
    let here : i ≡ id = omega arith in
    let same : q ≡ p = cc in
    (qs, rw (here, same) (find_here id p qs (subst (λ r. IsTypeId r.id) same h.0)))
find_param id i (suc k) (q ∷ []) p e h g = cc
find_param id i (suc k) (q ∷ r ∷ rs) p e h g =
    let rest = args (r ∷ rs) ++ b')' ∷ [] in
    let (qs, found) = find_param id (i + 1) k (r ∷ rs) p (omega arith) h.1 g in
    (
      qs,
      ap (type_loop id (passing i)) (args-split q (r ∷ rs))
          ∙ pass_quiet id i (arg q) (b',' ∷ rest) (omega arith) (arg-IsQuiet q h.0)
          ∙ pass_comma id i rest (omega arith)
          ∙ found,
    )

-- Each parameter of a request is read back: its type's id, and as flags its reference mark, its
-- forced-reference mark if it has a reference mark too, and whether the id is "?" or "null". The name
-- has no '(' in it, and the ids are not empty and have no character with a meaning in a signature.
pub param_type-build :
    (n : Text) (ps : List Param) (k : ℕ) (p : Param)
    → IsBare n
    → All (λ p. IsTypeId p.id) ps
    → get_elem? ps k ≡ some p
    → param_type (build n ps) k ≡ some (p.id, received p)
unfolding param_type
param_type-build n ps k p b h g =
    let (qs, found) = find_param k 0 k ps p (omega arith) h g in
    rw (build_lem n ps h, argument_list-append n (args ps ++ b')' ∷ []) b, found, param_type)
      (ap (λ f. some (p.id, f)) (final_flags-behind k p qs))
