-- ===== src/Object/Sig.antt =====
-- Signatures of procedures (src/store/object.c, `corto_sig_*`): a request is built with `open`,
-- `add`, `add_wildcard` and `close`, and read with `name`, `param_count` and `param_type`.
-- Buffers are values here: their sizes (`corto_id`, `corto_realloc`) are not modelled.
pub mod Shape
pub mod RoundTrip
use corto.Base.{
  ℕ, zero, suc, ◌+◌, Bool, true, false, not, ◌&&◌, ◌||◌, Option, none, some, List, [], ◌∷◌, ◌++◌,
  ◌==◌, Text, str_eq, if◌then◌else◌,
}

-- CORTO_PARAMETER_*, a bit mask.
pub record Flags : Type 0 where
  pub reference : Bool
  pub force_reference : Bool
  pub wildcard : Bool
  pub null : Bool
  pub input : Bool
  pub output : Bool

abbrev pub no_flags : Flags
no_flags = record {
  reference = false;
  force_reference = false;
  wildcard = false;
  null = false;
  input = false;
  output = false;
}

unfoldable pub name : Text → Text
name [] = []
name (c ∷ cs) = if c == b'(' then [] else c ∷ name cs

-- strchr(signature, '(') + 1
unfoldable pub argument_list : Text → Option Text
argument_list [] = none
argument_list (c ∷ cs) = if c == b'(' then some cs else argument_list cs

-- The loop of `corto_sig_paramCount`; the first number is the nesting of the inner loop over `{ }`.
unfoldable pub count_loop : ℕ → ℕ → Text → ℕ
count_loop nesting count [] = count
count_loop zero count (c ∷ cs) =
    count_loop (if c == b'{' then 1 else 0) (if c == b',' then count + 1 else count) cs
count_loop (suc nesting) count (c ∷ cs) =
    count_loop (if c == b'{' then suc (suc nesting) else if c == b'}' then nesting else suc nesting)
      count cs

unfoldable pub count_from : Text → ℕ
unfolding count_loop
count_from [] = 1
count_from (c ∷ cs) = if c == b')' then 0 else count_loop 0 1 (c ∷ cs)

-- `none` is -1.
unfoldable pub param_count : Text → Option ℕ
unfolding argument_list count_from
param_count signature = elim (argument_list signature) [
  | none ↦ none
  | some cs ↦ some (count_from cs)
]

-- ',', ' ', ')' and '&' end a type that is being read.
abbrev pub is_end : ℕ → Bool
is_end c = c == b',' || c == b' ' || c == b')' || c == b'&'

abbrev modifier_in : Text
modifier_in = b'i' ∷ b'n' ∷ []

abbrev modifier_out : Text
modifier_out = b'o' ∷ b'u' ∷ b't' ∷ []

abbrev modifier_inout : Text
modifier_inout = b'i' ∷ b'n' ∷ b'o' ∷ b'u' ∷ b't' ∷ []

abbrev pub wildcard_text : Text
wildcard_text = b'?' ∷ []

abbrev pub null_text : Text
null_text = b'n' ∷ b'u' ∷ b'l' ∷ b'l' ∷ []

-- The modifier before a ':'.
unfoldable modifier : Text → Flags → Option Flags
modifier buffer flags =
    if str_eq buffer modifier_in
    then some (record flags { input = true })
    else if str_eq buffer modifier_out
    then some (record flags { output = true })
    else if str_eq buffer modifier_inout
    then some (record flags { input = true; output = true })
    else none

-- The variables of the loop of `corto_sig_paramType`: the nesting of its inner loop, the parameter
-- that is being passed, whether its type has begun, whether the next character is the second of a
-- "::" that is copied already, what was copied, the flags.
pub record Scan : Type 0 where
  nesting : ℕ
  pub index : ℕ
  pub parsing : Bool
  skip : Bool
  pub buffer : Text
  pub flags : Flags

-- Behind a character of the outer loop that does not end the type.
unfoldable advance : ℕ → Scan → Scan
advance c s = record s {
  index = if c == b',' then s.index + 1 else s.index;
  nesting = if c == b'{' then 1 else 0;
}

-- One character of the inner loop.
unfoldable nested : ℕ → ℕ → ℕ → Scan → Scan
nested id nesting c s = record s {
  buffer = if s.index == id then s.buffer ++ c ∷ [] else s.buffer;
  nesting = if c == b'{' then suc (suc nesting) else if c == b'}' then nesting else suc nesting;
}

abbrev copied : Text → Scan → Scan
copied cs s = record s { parsing = true; buffer = s.buffer ++ cs }

-- What one round of the outer loop does.
pub data Round : Type 0 where
  stop : Round
  next : Scan → Round
  fail : Round

-- srcptr[1] == ':'
abbrev is_colon : Text → Bool
is_colon [] = false
is_colon (c ∷ cs) = c == b':'

unfoldable round : ℕ → ℕ → Text → Scan → Round
unfolding modifier
round id c rest s =
    if not (s.index == id)
    then next s
    else if is_end c
    then (if s.parsing then stop else next s)
    else if c == b':'
    then (if is_colon rest
        then next (record (copied (b':' ∷ b':' ∷ []) s) { skip = true })
        else elim (modifier s.buffer s.flags) [
          | none ↦ fail
          | some f ↦ next (record s { buffer = []; flags = f })
        ])
    else next (copied (c ∷ []) s)

-- The loop; with the scan it returns what is left of the signature. `none` is an error.
unfoldable pub type_loop : ℕ → Scan → Text → Option (Scan × Text)
unfolding round advance nested
type_loop id s [] = some (s, [])
type_loop id s (c ∷ rest) = elim (s.skip) [
  | true ↦ type_loop id (record s { skip = false }) rest
  | false ↦ elim (s.nesting) [
    | suc nesting ↦ type_loop id (nested id nesting c s) rest
    | zero ↦ elim (round id c rest s) [
      | stop ↦ some (s, c ∷ rest)
      | fail ↦ none
      | next t ↦ type_loop id (advance c t) rest
    ]
  ]
]

abbrev first_is : ℕ → Text → Bool
first_is d [] = false
first_is d (c ∷ cs) = c == d

abbrev second_is : ℕ → Text → Bool
second_is d [] = false
second_is d (c ∷ cs) = first_is d cs

abbrev pub scan : Scan
scan = record {
  nesting = 0;
  index = 0;
  parsing = false;
  skip = false;
  buffer = [];
  flags = no_flags;
}

-- The flags that are set behind the loop.
unfoldable pub final_flags : Scan → Text → Flags
final_flags s rest = record s.flags {
  reference = first_is b'&' rest;
  force_reference = first_is b'&' rest && second_is b'&' rest;
  wildcard = str_eq s.buffer wildcard_text;
  null = str_eq s.buffer null_text;
}

-- The type and the flags of a parameter; `none` is -1.
unfoldable pub param_type : Text → ℕ → Option (Text × Flags)
unfolding argument_list type_loop final_flags
param_type signature id = elim (argument_list signature) [
  | none ↦ none
  | some cs ↦ elim (type_loop id scan cs) [
    | none ↦ none
    | some (s, rest) ↦ some (s.buffer, final_flags s rest)
  ]
]

-- `corto_sig_open`
unfoldable pub open_sig : Text → Text
open_sig name = name ++ b'(' ∷ []

-- sig[len - 1] == '('
unfoldable pub ends_with_paren : Text → Bool
ends_with_paren [] = false
ends_with_paren (c ∷ []) = c == b'('
ends_with_paren (c ∷ d ∷ cs) = ends_with_paren (d ∷ cs)

-- The two `strcat`s of "&". In the source `reference` and `forceReference` are Booleans, and the bit
-- mask `flags` is tested against them: both tests look at bit 0, the reference flag.
unfoldable pub marks : Flags → Text
marks f =
    (if f.reference && (f.reference || f.force_reference) then b'&' ∷ [] else [])
    ++ (if f.reference && f.force_reference then b'&' ∷ [] else [])

-- `corto_sig_add`, with the type's id that it works out ("?" for a wildcard, "null" for no type).
unfoldable pub add : Text → Text → Flags → Text
unfolding ends_with_paren marks
add sig id flags =
    if ends_with_paren sig then sig ++ (id ++ marks flags) else sig ++ b',' ∷ (id ++ marks flags)

unfoldable add_wildcard : Text → Bool → Text
unfolding ends_with_paren
add_wildcard sig is_reference =
    let mark : Text = if is_reference then b'&' ∷ [] else [] in
    if ends_with_paren sig then sig ++ b'?' ∷ mark else sig ++ b',' ∷ b'?' ∷ mark

unfoldable pub close : Text → Text
close sig = sig ++ b')' ∷ []

-- A parameter of a request: the id of its type and its flags.
pub record Param : Type 0 where
  pub id : Text
  pub flags : Flags

unfoldable pub add_all : Text → List Param → Text
add_all sig [] = sig
add_all sig (p ∷ ps) = add_all (add sig p.id p.flags) ps

-- The way that requests are built, as in `corto_sig_fromDelegate`.
unfoldable pub build : Text → List Param → Text
unfolding open_sig add add_all close
build name ps = close (add_all (open_sig name) ps)
