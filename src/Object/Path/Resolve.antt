-- ===== src/Object/Path/Resolve.antt =====
-- `corto_lookup_intern` behind its loop, and `corto_resolve_intern` (src/store/object.c).
use corto.Base.{
  ℕ, suc, Bool, true, false, not, ◌&&◌, ◌||◌, Option, none, some, List, [], ◌∷◌, ◌++◌, ◌==◌,
  if◌then◌else◌, Text, length,
}
use corto.Object.References.{Counts, release}
use corto.Object.Path.{Scopes, absent, failed, loaded, scope_stack}
use corto.Object.Path.Search.{Ended, lost, jumped, overrun, stopped, unfinished, walk}

-- The result of a lookup: NULL, NULL with an error, an object, an object that a mount had behind an
-- error that was raised before, an object whose value follows in the path, a read past the end of the path, or none in the rounds that are given.
pub data Lookup : Type 0 where
  nothing : Counts → Lookup
  raised : Counts → Lookup
  found : ℕ → Counts → Lookup
  with_error : ℕ → Counts → Lookup
  at_value : ℕ → Text → Counts → Lookup
  past_end : Lookup
  unresolved : Lookup

abbrev starts_with : ℕ → Text → Bool
starts_with d [] = false
starts_with d (c ∷ cs) = c == d

abbrev pub mem : ℕ → List ℕ → Bool
mem o [] = false
mem o (p ∷ ps) = p == o || mem o ps

-- The id without a value, for corto_resume.
unfoldable pub cut_value : Text → Text
cut_value [] = []
cut_value (c ∷ cs) = if c == b'{' then [] else c ∷ cut_value cs

module _ (s : Scopes) where
  -- `if (!o && resume && parent != corto_lang_o)`, and what it sets `o` to; `none` is its error.
  unfoldable pub resume_missing : Bool → ℕ → ℕ → Text → Option ℕ → Option (Option ℕ)
  resume_missing resume parent prev ptr (some o) = some (some o)
  resume_missing resume parent prev ptr none =
      if resume && not (parent == s.lang)
      then elim (s.resume_object prev (cut_value ptr)) [
        | failed ↦ none
        | absent ↦ some none
        | loaded o ↦ some (some o)
      ]
      else some none

  -- The end of `corto_lookup_intern`.
  unfoldable pub conclude_lookup : Bool → Text → Option (Option ℕ) → Counts → Lookup
  conclude_lookup secure ptr none c = raised c
  conclude_lookup secure ptr (some none) c = nothing c
  conclude_lookup secure ptr (some (some o)) c =
      if starts_with b'{' ptr
      then at_value o ptr c
      else if secure && s.forbidden o
      then nothing (release s.builtin o c)
      else found o c

  -- The same, behind an error that was raised.
  unfoldable pub conclude_lost : Bool → Text → Option (Option ℕ) → Counts → Lookup
  conclude_lost secure ptr none c = raised c
  conclude_lost secure ptr (some none) c = raised c
  conclude_lost secure ptr (some (some o)) c =
      if starts_with b'{' ptr
      then at_value o ptr c
      else if secure && s.forbidden o
      then raised (release s.builtin o c)
      else with_error o c

  -- Behind the loop. An unknown object is given up if it may be resumed.
  unfoldable pub after_walk : Bool → Bool → ℕ → Ended → Lookup
  unfolding resume_missing conclude_lookup conclude_lost
  after_walk resume secure parent (jumped c) = raised c
  after_walk resume secure parent (lost prev ptr c) =
      conclude_lost secure ptr (resume_missing resume parent prev ptr none) c
  after_walk resume secure parent overrun = past_end
  after_walk resume secure parent unfinished = unresolved
  after_walk resume secure parent (stopped none prev lastelem ptr c) =
      conclude_lookup secure ptr (resume_missing resume parent prev ptr none) c
  after_walk resume secure parent (stopped (some o) prev lastelem ptr c) =
      if resume && s.unknown o
      then conclude_lookup secure lastelem (resume_missing resume parent prev lastelem none)
          (release s.builtin o c)
      else conclude_lookup secure ptr (some (some o)) c

  abbrev pub or_root : Option ℕ → ℕ
  or_root none = s.root
  or_root (some p) = p

  -- `resume`, as the function narrows it.
  abbrev pub may_resume : Bool → ℕ → Bool
  may_resume resume parent =
      resume && (not (s.builtin parent) || parent == s.corto_package || parent == s.root)

  -- corto_lookup_intern: as many rounds as the path has characters, and one.
  unfoldable pub lookup_intern : Option ℕ → Text → Bool → Bool → Counts → Lookup
  unfolding walk after_walk
  lookup_intern scope [] resume secure c = raised c
  lookup_intern scope (ch ∷ id) resume secure c =
      let parent = or_root scope in
      let from = if ch == b'/' then s.root else parent in
      after_walk (may_resume resume parent) secure parent
        (walk s (suc (length (ch ∷ id))) true from [] (ch ∷ id) c)

  -- corto_lookup
  unfoldable pub lookup : Option ℕ → Text → Counts → Lookup
  unfolding lookup_intern
  lookup scope id c = lookup_intern scope id true true c

  -- The scopes that `corto_resolve_intern` tries, given the parent and its parents: a package that
  -- was tried before is NULL in `from`.
  unfoldable pub resolve_order : List ℕ → List ℕ
  resolve_order parents =
      let tried = s.lang ∷ parents in
      let packages = if mem s.corto_package tried then tried else tried ++ s.corto_package ∷ [] in
      if mem s.vstore tried then packages else packages ++ s.vstore ∷ []

  -- The loops: up to the first scope in which the lookup finds an object or raises an error.
  unfoldable pub try_scopes : List ℕ → Text → Bool → Counts → Lookup
  unfolding lookup_intern
  try_scopes [] id resume c = nothing c
  try_scopes (o ∷ os) id resume c = elim (lookup_intern (some o) id resume false c) [
    | nothing d ↦ try_scopes os id resume d
    | raised d ↦ raised d
    | found x d ↦ found x d
    | with_error x d ↦ with_error x d
    | at_value x t d ↦ at_value x t d
    | past_end ↦ past_end
    | unresolved ↦ unresolved
  ]

  -- The authorization of what was found, which is left out where an error was raised.
  unfoldable pub authorized : Lookup → Lookup
  authorized (found o c) = if s.forbidden o then nothing (release s.builtin o c) else found o c
  authorized (nothing c) = nothing c
  authorized (raised c) = raised c
  authorized (with_error o c) = with_error o c
  authorized (at_value o t c) = at_value o t c
  authorized past_end = past_end
  authorized unresolved = unresolved

  unfoldable pub resolve_from : Option (List ℕ) → Text → Bool → Counts → Lookup
  unfolding try_scopes resolve_order authorized
  resolve_from none id resume c = unresolved
  resolve_from (some parents) id resume c =
      authorized (try_scopes (resolve_order parents) id resume c)

  -- corto_resolve_intern. A stack of `max_depth` holds the parents here; the code follows them one by
  -- one.
  unfoldable pub resolve_intern : Option ℕ → Text → Bool → Counts → Lookup
  unfolding resolve_from scope_stack lookup_intern
  resolve_intern scope [] resume c = nothing c
  resolve_intern scope (ch ∷ id) resume c =
      if ch == b'.'
      then lookup_intern scope (ch ∷ id) resume true c
      else if ch == b'/'
      then lookup_intern (some s.root) (ch ∷ id) resume true c
      else resolve_from (scope_stack s s.max_depth (or_root scope)) (ch ∷ id) resume c
