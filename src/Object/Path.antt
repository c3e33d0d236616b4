-- ===== src/Object/Path.antt =====
-- Paths of objects (src/store/object.c): `corto_fullpath_intern`, and the elements of a path as
-- `corto_lookup_intern` reads them. The lookup itself is in Search and Resolve, in one thread, so that a
-- lock is never refused. `corto_rb_hasKey_w_cmp`, which searches a scope, belongs to the base package;
-- what `corto_overload` says of a request, what mounts resume, and what security allows, are fields of
-- `Scopes`. The values in '{' that a path may end in are not read: a path with one ends in `at_value`.
-- Names from a `nameof` delegate and objects without a name are left out.
pub mod Search
pub mod Resolve
pub mod Elements
pub mod Termination
pub mod Rounds
pub mod Places
pub mod Step
pub mod Chains
pub mod Overrun
pub mod RoundTrip
pub mod Resolution
use corto.Base.{
  ℕ, zero, suc, ◌+◌, ◌-◌, Bool, true, false, not, ◌&&◌, ◌||◌, Option, none, some, List, [], ◌∷◌,
  ◌++◌, ◌==◌, if◌then◌else◌, Text, length, is_some,
}
use corto.Object.References.{
  Counts, claim, claim_result, release, claim_all, release_all, set_count,
}
use corto.Object.Overload.Functions.{
  Entry, Best, infinite, rejected, at, function_from_sequence, Walk, walk_all, start, same_best,
}

-- The answer of corto_resume.
pub data Resumption : Type 0 where
  failed absent : Resumption
  loaded : ℕ → Resumption

pub record Scopes : Type 0 where
  pub root : ℕ
  pub lang : ℕ
  pub corto_package : ℕ
  pub vstore : ℕ
  -- CORTO_MAX_SCOPE_DEPTH
  pub max_depth : ℕ
  pub parent_of : ℕ → Option ℕ
  pub id_of : ℕ → Option Text
  -- the object has a scope, and the tree of its scope is there
  pub has_scope : ℕ → Bool
  pub has_tree : ℕ → Bool
  pub children : ℕ → List ℕ
  -- corto_rb_hasKey_w_cmp, with argument matching or without
  pub find : ℕ → Bool → Text → Option ℕ
  pub entries : ℕ → Text → List Entry
  -- a function whose flag `overloaded` is set
  pub overloaded : ℕ → Bool
  pub unknown : ℕ → Bool
  pub builtin : ℕ → Bool
  pub resume_object : ℕ → Text → Resumption
  -- corto_secured() and not corto_authorize(o, READ)
  pub forbidden : ℕ → Bool

module _ (s : Scopes) where
  -- The first loop of `corto_fullpath_intern`: the object and its parents, the nearest first; `none` is
  -- a write past the end of the stack.
  unfoldable pub scope_stack : ℕ → ℕ → Option (List ℕ)
  scope_stack zero o = none
  scope_stack (suc room) o = elim (s.parent_of o) [
    | none ↦ some (o ∷ [])
    | some p ↦ elim (scope_stack room p) [ none ↦ none | some os ↦ some (o ∷ os) ]
  ]

  -- One round of the second loop.
  abbrev pub printed : Option Text → Text
  printed none = []
  printed (some id) = b'/' ∷ id

  -- The second loop runs from the end of the stack.
  unfoldable pub print_stack : List ℕ → Text
  print_stack [] = []
  print_stack (o ∷ os) = print_stack os ++ printed (s.id_of o)

  abbrev pub is_lang : Option ℕ → Bool
  is_lang none = false
  is_lang (some p) = p == s.lang

  abbrev id_text : Option Text → Text
  id_text none = []
  id_text (some id) = id

  unfoldable pub print_path : Option (List ℕ) → Option Text
  unfolding print_stack
  print_path none = none
  print_path (some []) = some []
  print_path (some (o ∷ [])) = some (b'/' ∷ [])
  print_path (some (o ∷ p ∷ os)) = some (print_stack (o ∷ p ∷ os))

  -- corto_fullpath
  unfoldable pub fullpath : ℕ → Option Text
  unfolding scope_stack print_path
  fullpath o =
      if is_lang (s.parent_of o)
      then some (id_text (s.id_of o))
      else print_path (scope_stack s.max_depth o)

-- The loop that looks for the end of an element. The first flag says that the inner loop runs, behind
-- a '(', the second is `containsArgs`. `none` is a read past the end of the text: where the inner loop
-- has come to the terminator, the outer loop steps over it.
unfoldable pub scan_element : Bool → Bool → Text → Option (Bool × Text)
scan_element true contains [] = none
scan_element false contains [] = some (contains, [])
scan_element true contains (c ∷ cs) = scan_element (not (c == b')')) contains cs
scan_element false contains (c ∷ cs) =
    let rest = scan_element (c == b'(') (contains || c == b'(') cs in
    if c == b'/' || c == b'{' then some (contains, c ∷ cs) else rest

abbrev pub skip_slash : Text → Text
skip_slash [] = []
skip_slash (c ∷ cs) = if c == b'/' then cs else c ∷ cs

-- !ptr[0] || ptr[0] == '{'
abbrev pub at_end : Text → Bool
at_end [] = true
at_end (c ∷ cs) = c == b'{'

-- The element is "." or "..": what stands between `ptr` and `next` has as many characters.
abbrev pub is_dot : Text → Text → Bool
is_dot [] next = false
is_dot (c ∷ cs) next = c == b'.' && length cs == length next

abbrev pub is_dots : Text → Text → Bool
is_dots [] next = false
is_dots (c ∷ []) next = false
is_dots (c ∷ d ∷ cs) next = c == b'.' && d == b'.' && length cs == length next

abbrev pub is_over : Text → Bool
is_over [] = true
is_over (c ∷ cs) = false

abbrev pub next_text : Option (Bool × Text) → Text
next_text none = []
next_text (some (contains, next)) = next

-- strchr(id, '(')
abbrev pub has_args : Text → Bool
has_args [] = false
has_args (c ∷ cs) = c == b'(' || has_args cs
