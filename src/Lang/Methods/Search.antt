-- ===== src/Lang/Methods/Search.antt =====
-- What a lookup in a table of methods finds: a slot of the table whose method fits the request.
use corto.Base.{
  ℕ, suc, ◌+◌, ◌≡◌, refl, inl, inr, Bool, true, false, none, some, List, [], ◌∷◌, Text, str_eq,
  arith, All, is_some, Bool-cases, get_elem?, subst, not,
}
use corto.Object.Sig.{name, argument_list}
use corto.Object.Overload.Functions.{
  failed, no_match, no_match_overload, distance, Entry, procedure, other, Best, rejected, at, Walk,
  start, function_walk, walk_all, conclude, function_from_sequence, below, consider,
  consider_rejected, Outcome,
}
use corto.Lang.Vtable.{Vtable}
use corto.Lang.Methods.{Tables, Context, entries, vtable_lookup}

-- How near the answer of corto_overload, or the name, comes to a request.
abbrev FitsOutcome : Bool → Text → Best → Text → Outcome → Type 0
FitsOutcome true request (at d) n outcome = outcome ≡ distance d
FitsOutcome true request rejected n outcome = outcome ≡ no_match_overload
FitsOutcome false request (at d) n outcome = (d ≡ 0) × (str_eq n request ≡ true)
FitsOutcome has_args request _ n outcome = ⊥

abbrev Fits : Bool → Text → Best → Entry → Type 0
Fits has_args request d (procedure address n overloaded outcome) =
    FitsOutcome has_args request d n outcome
Fits has_args request (at d) (other address same_id) = (d ≡ 0) × (same_id ≡ true)
Fits has_args request _ (other address same_id) = ⊥

abbrev address : Entry → ℕ
address (procedure a n o outcome) = a
address (other a same_id) = a

abbrev Holds : (ℕ → Best → Type 0) → Walk → Type 0
Holds P w = (i : ℕ) → w.result ≡ some i → P i w.d

set-Holds : (P : ℕ → Best → Type 0) (a : ℕ) (d : Best) → P a d → (i : ℕ) → some a ≡ some i → P i d
set-Holds P a d p i q = subst (λ k. P k d) (cc) p

consider-Holds :
    (P : ℕ → Best → Type 0) (a d : ℕ) (w : Walk) → P a (at d) → Holds P w → Holds P (consider a d w)
unfolding consider
consider-Holds P a d w p h i = elim (Bool-cases (below d w.d)) [
  | inl e ↦ rw e (set-Holds P a (at d) p i)
  | inr e ↦ rw e (h i)
]

rejected-Holds :
    (P : ℕ → Best → Type 0) (a : ℕ) (w : Walk)
    → P a rejected
    → Holds P w
    → Holds P (consider_rejected a w)
unfolding consider_rejected
rejected-Holds P a w p h i = elim (Bool-cases (is_some w.result)) [
  | inl e ↦ rw e (h i)
  | inr e ↦ rw e (set-Holds P a rejected p i)
]

step-Holds :
    (P : ℕ → Best → Type 0) (has_args : Bool) (r : Text) (e : Entry) (w : Walk)
    → ((d : Best) → Fits has_args r d e → P (address e) d)
    → Holds P w
    → Holds P (function_walk has_args r e w).0
unfolding function_walk
step-Holds P has r (other a same) w p h = elim (Bool-cases same) [
  | inl e ↦ rw e (set-Holds P a (at 0) (p (at 0) (refl, e)))
  | inr e ↦ rw e h
]
step-Holds P true r (procedure a n o failed) w p h = h
step-Holds P true r (procedure a n o no_match) w p h = h
step-Holds P true r (procedure a n o no_match_overload) w p h =
    rejected-Holds P a w (p rejected refl) h
step-Holds P true r (procedure a n o (distance d)) w p h = consider-Holds P a d w (p (at d) refl) h
step-Holds P false r (procedure a n o outcome) w p h = elim (Bool-cases (str_eq n r)) [
  | inl e ↦ elim (Bool-cases (not o)) [
    | inl k ↦ rw (e, k) (set-Holds P a (at 0) (p (at 0) (refl, e)))
    | inr k ↦ rw (e, k) h
  ]
  | inr e ↦ rw e h
]

walk_all-Holds :
    (P : ℕ → Best → Type 0) (has_args : Bool) (r : Text) (es : List Entry) (w : Walk)
    → All (λ e. (d : Best) → Fits has_args r d e → P (address e) d) es
    → Holds P w
    → Holds P (walk_all has_args r es w)
unfolding walk_all
walk_all-Holds P has r [] w ps h = h
walk_all-Holds P has r (e ∷ es) w ps h =
    let one : Holds P (function_walk has r e w).0 = step-Holds P has r e w ps.0 h in
    elim (Bool-cases (function_walk has r e w).1) [
      | inl k ↦ rw k (walk_all-Holds P has r es (function_walk has r e w).0 ps.1 one)
      | inr k ↦ rw k one
    ]

-- Whatever holds of the slot and distance of each entry that fits, holds of the result.
function_from_sequence-Holds :
    (P : ℕ → Best → Type 0) (has_args : Bool) (r : Text) (es : List Entry)
    → All (λ e. (d : Best) → Fits has_args r d e → P (address e) d) es
    → (i : ℕ) → (function_from_sequence has_args r es).0 ≡ some i
    → P i (function_from_sequence has_args r es).1
unfolding function_from_sequence conclude
function_from_sequence-Holds P has r es ps i q =
    walk_all-Holds P has r es start ps (λ k e. absurd (cc)) i (ground arith)

-- How near a method comes to a request.
abbrev pub FitsMethod : Context → Text → Best → ℕ → Type 0
FitsMethod c request d m =
    FitsOutcome (is_some (argument_list request)) request d (name (c.procedures m).id)
      (c.overload m request)

-- The slot holds a method that fits.
abbrev pub Hits : Context → Vtable → Text → ℕ → Best → Type 0
Hits c table request slot d =
    (m : ℕ) × (get_elem? table slot ≡ some (some m)) × FitsMethod c request d m

entries-All :
    (c : Context) (overloaded : ℕ → Bool) (request : Text) (k : ℕ) (slots table : Vtable)
    → ((j m : ℕ) → get_elem? slots j ≡ some (some m) → get_elem? table (k + j) ≡ some (some m))
    → All
        (λ e.
          (d : Best)
          → Fits (is_some (argument_list request)) request d e
          → Hits c table request (address e) d)
        (entries c overloaded request k slots)
unfolding entries
entries-All c o r k [] table h = tt
entries-All c o r k (none ∷ slots) table h =
    entries-All c o r (suc k) slots table
      (λ j m e. subst (λ n. get_elem? table n ≡ some (some m)) (omega arith) (h (suc j) m e))
entries-All c o r k (some f ∷ slots) table h = (
  (λ d fits. (f, subst (λ n. get_elem? table n ≡ some (some f)) (omega arith) (h 0 f refl), fits)),
  entries-All c o r (suc k) slots table
      (λ j m e. subst (λ n. get_elem? table n ≡ some (some m)) (omega arith) (h (suc j) m e)),
)

-- The slot that a lookup finds holds a method that fits the request, at the distance of the lookup.
pub vtable_lookup-Hits :
    (c : Context) (t : Tables) (request : Text) (slot : ℕ)
    → (vtable_lookup c t request).0 ≡ some slot
    → Hits c t.methods request slot (vtable_lookup c t request).1
unfolding vtable_lookup
vtable_lookup-Hits c t request slot e =
    function_from_sequence-Holds (Hits c t.methods request) (is_some (argument_list request))
      request (entries c t.overloaded request 0 t.methods)
      (entries-All c t.overloaded request 0 t.methods t.methods
        (λ j m e. subst (λ n. get_elem? t.methods n ≡ some (some m)) (omega arith) e))
      slot e
