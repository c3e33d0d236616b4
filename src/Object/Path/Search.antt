-- ===== src/Object/Path/Search.antt =====
-- The loop of `corto_lookup_intern` (src/store/object.c), element by element.
use corto.Base.{
  ℕ, zero, suc, Bool, true, false, not, ◌&&◌, Option, none, some, [], ◌==◌, if◌then◌else◌, Text,
}
use corto.Object.References.{
  Counts, claim, claim_result, release, claim_all, release_all, set_count,
}
use corto.Object.Overload.Functions.{
  Best, infinite, rejected, function_from_sequence, walk_all, start, same_best,
}
use corto.Object.Path.{
  Scopes, at_end, has_args, is_dot, is_dots, is_over, next_text, scan_element, skip_slash,
}

-- What the search of one element gives: an object or NULL, NULL behind an error that the comparison of
-- an overload has raised, or a jump to the error label.
pub data Found : Type 0 where
  hit : Option ℕ → Counts → Found
  missed : Counts → Found
  error : Counts → Found

-- How the loop of `corto_lookup_intern` ends: with `o`, `prev`, `lastelem` and `ptr`, with NULL, `prev`
-- and `ptr` behind an error that was raised, at the error label, with a read past the end of the path, or not within the rounds that are given.
pub data Ended : Type 0 where
  stopped : (o : Option ℕ) (prev : ℕ) (lastelem ptr : Text) → Counts → Ended
  lost : (prev : ℕ) (ptr : Text) → Counts → Ended
  jumped : Counts → Ended
  overrun : Ended
  unfinished : Ended

-- A round of the loop: it ends, or it goes on with an object.
pub data Pass : Type 0 where
  done : Ended → Pass
  go_on : ℕ → Counts → Pass

module _ (s : Scopes) where
  abbrev release_option : Option ℕ → Counts → Counts
  release_option none c = c
  release_option (some o) c = release s.builtin o c

  abbrev claim_option : Option ℕ → Counts → Counts
  claim_option none c = c
  claim_option (some o) c = claim s.builtin o c

  -- corto_lookup_function: the result, `d`, whether `diff` is 0, and whether an error was raised.
  unfoldable lookup_function : ℕ → Text → Counts → (Option ℕ × Best × Bool × Bool) × Counts
  lookup_function o ptr c =
      let w = walk_all true ptr (s.entries o ptr) start in
      let (result, d) = function_from_sequence true ptr (s.entries o ptr) in
      let claimed = claim_option result (claim_all s.builtin (s.children o) c) in
      (
        (result, d, not (same_best d infinite) && same_best d w.old_d, w.error),
        release_all s.builtin (s.children o) claimed,
      )

  abbrev is_negative : Best → Bool
  is_negative rejected = true
  is_negative _ = false

  -- The branch for an element with arguments.
  unfoldable search_function : ℕ → Text → Counts → Found
  unfolding lookup_function
  search_function o ptr c =
      let ((result, d, ambiguous, was_raised), held) = lookup_function o ptr c in
      let let_go = release_option result held in
      if is_negative d
      then (if was_raised then missed let_go else hit none let_go)
      else if ambiguous
      then error let_go
      else if was_raised
      then missed let_go
      else hit result let_go

  abbrev id_has_args : Option Text → Bool
  id_has_args none = false
  id_has_args (some id) = has_args id

  -- What follows the first search of the tree.
  unfoldable pub prefer_plain : ℕ → Text → Option ℕ → Counts → Found
  prefer_plain o ptr none c = hit none c
  prefer_plain o ptr (some x) c =
      if id_has_args (s.id_of x)
      then elim (s.find o false ptr) [
        | some y ↦ hit (some y) c
        | none ↦ if s.overloaded x then error c else hit (some x) c
      ]
      else hit (some x) c

  unfoldable pub search_tree : ℕ → Text → Counts → Found
  unfolding prefer_plain
  search_tree o ptr c = prefer_plain o ptr (s.find o true ptr) c

  -- One element, from `o`.
  unfoldable pub search_element : ℕ → Bool → Text → Text → Counts → Found
  unfolding search_function search_tree
  search_element o contains ptr next c =
      if is_dot ptr next
      then hit (some o) c
      else if is_dots ptr next
      then hit (s.parent_of o) c
      else if not (s.has_scope o)
      then error c
      else if not (s.has_tree o)
      then hit none c
      else if contains
      then search_function o ptr c
      else search_tree o ptr c

  -- The claim on what was found, which fails for an object that is being deleted.
  unfoldable pub keep : Option ℕ → Counts → Option ℕ × Counts
  keep none c = (none, c)
  keep (some o) c =
      if claim_result s.builtin o c == 1
      then (none, set_count o 0 (claim s.builtin o c))
      else (some o, claim s.builtin o c)

  abbrev pub release_prev : Bool → ℕ → Counts → Counts
  release_prev first prev c = if first then c else release s.builtin prev c

  -- Behind the search: the claim and the release of the parent.
  unfoldable pub after : Bool → ℕ → Text → Text → Found → Pass
  unfolding keep
  after first prev ptr next (error c) = done (jumped c)
  after first prev ptr next (missed c) = done (lost prev ptr (release_prev first prev c))
  after first prev ptr next (hit found c) =
      let (o, held) = keep found c in
      let left = release_prev first prev held in
      elim o [ none ↦ done (stopped none prev ptr ptr left) | some x ↦ go_on x left ]

  unfoldable pub pass : Bool → ℕ → Text → Option (Bool × Text) → Counts → Pass
  unfolding search_element after
  pass first o ptr none c = done overrun
  pass first o ptr (some (contains, next)) c =
      after first o ptr next (search_element o contains ptr next c)

  -- The loop, in at most so many rounds; the flag says that it is the first.
  unfoldable pub walk : ℕ → Bool → ℕ → Text → Text → Counts → Ended
  unfolding pass
  walk zero first o lastelem ptr c = unfinished
  walk (suc rounds) first o lastelem ptr c = elim (at_end (skip_slash ptr)) [
    | true ↦ stopped (some o) o lastelem (skip_slash ptr) c
    | false ↦
        let element = scan_element false false (skip_slash ptr) in
        elim (pass first o (skip_slash ptr) element c) [
          | done e ↦ e
          | go_on x d ↦ elim (is_over (next_text element)) [
            | true ↦ stopped (some x) o (skip_slash ptr) [] d
            | false ↦ walk rounds false x (skip_slash ptr) (next_text element) d
          ]
        ]
  ]
