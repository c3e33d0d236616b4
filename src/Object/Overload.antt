-- ===== src/Object/Overload.antt =====
-- How well a parameter of a request fits an offered one, and whether the names fit (src/store/object.c:
-- `corto_overloadParamCompare`, `corto_sig_compareName`). `tolower` is the C library's.
pub mod Distance
pub mod Functions
use corto.Base.{
  ℕ, zero, suc, ◌+◌, Bool, true, false, not, ◌&&◌, ◌||◌, Option, none, some, List, [], ◌∷◌, ◌==◌,
  if◌then◌else◌, Text,
}
use corto.Lang.Kinds.{PrimitiveKind, boolean, text}
use corto.Lang.Primitive.{Kind, void, any, composite, primitive, same_kind, is_integer}

-- What a comparison reads of a type: its address, its kind, whether it is valid, and the addresses of
-- its bases, the nearest first.
pub record ParamType : Type 0 where
  pub address : ℕ
  pub kind : Kind
  pub valid : Bool
  pub bases : List ℕ

-- The flags that stand beside the types in the call: `o_reference`, and those of the request.
pub record Passing : Type 0 where
  pub offered_reference : Bool
  pub reference : Bool
  pub force_reference : Bool
  pub wildcard : Bool
  pub null : Bool

-- The result: `none` is -1.
abbrev is_any : Kind → Bool
is_any any = true
is_any _ = false

abbrev is_boolean_type : Kind → Bool
is_boolean_type (primitive boolean) = true
is_boolean_type _ = false

abbrev is_text_type : Kind → Bool
is_text_type (primitive text) = true
is_text_type _ = false

abbrev is_void_type : Kind → Bool
is_void_type void = true
is_void_type _ = false

abbrev is_composite_type : Kind → Bool
is_composite_type composite = true
is_composite_type _ = false

-- One more where both are primitive, of different kinds, and not both integers.
unfoldable kind_penalty : Kind → Kind → ℕ
unfolding same_kind is_integer
kind_penalty (primitive j) (primitive k) =
    if same_kind j k then 0 else if is_integer j && is_integer k then 0 else 1
kind_penalty _ _ = 0

-- The loop over `base`, from a type with the address and the bases: how many levels up `target` is.
unfoldable pub levels : ℕ → ℕ → List ℕ → Option ℕ
levels target address [] = if address == target then some 0 else none
levels target address (base ∷ bases) =
    let further = levels target base bases in
    if address == target then some 0 else elim further [ none ↦ none | some d ↦ some (suc d) ]

-- do d++ while ((base = base->base))
unfoldable pub depth : List ℕ → ℕ
depth [] = 1
depth (base ∷ bases) = suc (depth bases)

abbrev plus : ℕ → Option ℕ → Option ℕ
plus d none = none
plus d (some n) = some (d + n)

-- `compatible` is corto_type_compatible, and `object` the type `object`.
module _ (compatible : ParamType → ParamType → Bool) (object : ParamType) where
  -- The tests on two valid types that are not the same.
  unfoldable compare_types : ParamType → ParamType → Passing → Option ℕ
  unfolding levels depth kind_penalty
  compare_types o r p =
      if is_composite_type o.kind && is_composite_type r.kind
      then levels o.address r.address r.bases
      else if p.offered_reference && is_void_type o.kind
      then (if is_composite_type r.kind then some (depth r.bases) else some 1)
      else if p.force_reference && not (compatible o object)
      then some 1
      else if not (compatible o r)
      then none
      else some (kind_penalty o.kind r.kind)

  -- The reference modifiers: the distance that they add, or no match.
  unfoldable pub compare_references : Passing → Option ℕ
  compare_references p =
      if p.offered_reference
      then (if not p.reference && not p.null
          then none
          else if not p.force_reference
          then (if not p.null then some 1 else some 0)
          else some 0)
      else if p.reference
      then some 1
      else some 0

  -- A request for null.
  unfoldable compare_null : ParamType → Passing → Option ℕ
  compare_null o p =
      if is_boolean_type o.kind
      then some 1
      else if not p.offered_reference && not (is_text_type o.kind)
      then none
      else some 0

  -- The tests behind those on references. `r` is NULL for a wildcard and for null.
  unfoldable pub compare_rest : ParamType → Option ParamType → Passing → Option ℕ
  unfolding compare_types compare_null
  compare_rest o r p =
      if is_any o.kind || elim r [ none ↦ false | some t ↦ is_any t.kind ]
      then some 0
      else if p.null
      then compare_null o p
      else elim r [
        | none ↦ none
        | some t ↦
            if o.address == t.address
            then some 0
            else if o.valid && t.valid
            then compare_types o t p
            else none
      ]

  -- corto_overloadParamCompare
  unfoldable pub param_compare : ParamType → Option ParamType → Passing → Option ℕ
  unfolding compare_references compare_rest
  param_compare o r p =
      if p.wildcard
      then some 0
      else elim (compare_references p) [ none ↦ none | some d ↦ plus d (compare_rest o r p) ]

-- `*o_ptr` and `*r_ptr`, where the loop ends.
abbrev head_or_nul : Text → ℕ
head_or_nul [] = 0
head_or_nul (c ∷ cs) = c

module _ (tolower : ℕ → ℕ) where
  -- The loop of `corto_sig_compareName`. The arguments behind the texts are `o_ch` and `r_ch`: where the
  -- first condition ends the loop, `r_ch` still is what the round before left.
  unfoldable pub compare_name_loop : Text → Text → ℕ → Bool
  compare_name_loop [] rs r_ch = 0 == r_ch
  compare_name_loop (o ∷ os) [] r_ch = o == 0
  compare_name_loop (o ∷ os) (r ∷ rs) r_ch =
      let rest = compare_name_loop os rs (tolower r) in
      if o == b'(' || r == b'(' then o == r else if tolower o == tolower r then rest else false

  -- corto_sig_compareName
  unfoldable pub compare_name : Text → Text → Bool
  unfolding compare_name_loop
  compare_name offered requested = compare_name_loop offered requested (head_or_nul requested)
