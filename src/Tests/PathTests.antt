-- ===== src/Tests/PathTests.antt =====
-- Paths and lookups on a small tree: src/store/object.c.
use corto.Base.{
  ℕ, ◌≡◌, refl, Bool, true, false, ◌&&◌, ◌==◌, Option, none, some, List, [], ◌∷◌, Text, ◌+◌, ltb,
  if◌then◌else◌,
}
use corto.Object.Lookup.{Equality, eq, lt, gt, compare_lookup}
use corto.Object.References.{Counts, claim, claim_result, release}
use corto.Object.Path.{Scopes, absent, scan_element, fullpath}
use corto.Object.Path.Resolve.{Lookup, found, lookup}

abbrev lowercase : ℕ → ℕ
lowercase c = if ltb 64 c && ltb c 91 then c + 32 else c

abbrev is_eq : Equality → Bool
is_eq eq = true
is_eq lt = false
is_eq gt = false

-- The root is 0. In it stand 5, whose id is b, and 1, which is lang; 6 is b/c and 2 is lang/int.
abbrev ids : ℕ → Option Text
ids o =
    if o == 1
    then some (b'l' ∷ b'a' ∷ b'n' ∷ b'g' ∷ [])
    else if o == 2
    then some (b'i' ∷ b'n' ∷ b't' ∷ [])
    else if o == 5
    then some (b'b' ∷ [])
    else if o == 6
    then some (b'c' ∷ [])
    else none

abbrev parents : ℕ → Option ℕ
parents o =
    if o == 1
    then some 0
    else if o == 2
    then some 1
    else if o == 5
    then some 0
    else if o == 6
    then some 5
    else none

abbrev scope_of : ℕ → List ℕ
scope_of o = if o == 0 then 5 ∷ 1 ∷ [] else if o == 1 then 2 ∷ [] else if o == 5 then 6 ∷ [] else []

abbrev is_match : Bool → Text → Option Text → Bool
is_match m t none = false
is_match m t (some id) = is_eq (compare_lookup lowercase m id t)

-- A search from the front.
abbrev first_match : Bool → Text → List ℕ → Option ℕ
first_match m t [] = none
first_match m t (x ∷ xs) =
    let rest = first_match m t xs in if is_match m t (ids x) then some x else rest

abbrev scopes : Scopes
scopes = record {
  root = 0;
  lang = 1;
  corto_package = 7;
  vstore = 8;
  max_depth = 64;
  parent_of = parents;
  id_of = ids;
  has_scope = λ o. true;
  has_tree = λ o. true;
  children = scope_of;
  find = λ p m t. first_match m t (scope_of p);
  entries = λ o t. [];
  overloaded = λ o. false;
  unknown = λ o. false;
  builtin = λ o. ltb o 5;
  resume_object = λ o t. absent;
  forbidden = λ o. false;
}

-- Each object is claimed once.
abbrev counts : Counts
counts = record { count = λ o. 1; destroyed = []; broken = false }

-- The path of an object of lang is its name.
int_path : fullpath scopes 2 ≡ some (b'i' ∷ b'n' ∷ b't' ∷ [])
unfolding fullpath
int_path = refl

abbrev object_of : Lookup → Option ℕ
object_of (found o c) = some o
object_of _ = none

-- A relative lookup, without regard to the case.
relative : object_of (lookup scopes (some 5) (b'.' ∷ b'/' ∷ b'C' ∷ []) counts) ≡ some 6
unfolding lookup scan_element compare_lookup claim_result claim release
relative = refl
