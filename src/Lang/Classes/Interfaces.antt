-- ===== src/Lang/Classes/Interfaces.antt =====
-- What the vector of an interface holds, and what the check of a class against the interface says.
use corto.Base.{
  ℕ, zero, suc, ◌<◌, ◌≤◌, All, ◌+◌, ◌-◌, ◌≡◌, refl, sym, ap, ◌∙◌, inl, inr, Bool, true, false,
  Option, none, some, List, [], ◌∷◌, ◌++◌, ◌==◌, arith, Bool-cases, Option-cases, length,
  if◌then◌else◌,
}
use mathlib.Core.List.{append_assoc}
use corto.Lang.Vtable.{Vtable}
use corto.Lang.Methods.{Tables, Context, check_procedure, assign, method_at}
use corto.Lang.Classes.{
  Vectors, zeroed, implementation, check_slot, check_slots, set_slot, Implemented, Vector,
  find_vector, find_class, resolve_interface_method, check_interface,
}

-- The method of the class that answers for a method of an interface: its implementation, if that is
-- compatible.
abbrev pub answer : Context → Tables → ℕ → Option ℕ
answer c t m = elim (implementation c t m) [
  | none ↦ none
  | some k ↦ if check_procedure c (c.procedures m) (c.procedures k) then some k else none
]

abbrev is_answered : Context → Tables → ℕ → Bool
is_answered c t m = elim (implementation c t m) [
  | none ↦ false
  | some k ↦ check_procedure c (c.procedures m) (c.procedures k)
]

-- What an assignment of a method to a slot leaves, if there is a method.
abbrev pub or_else : Option ℕ → Option ℕ → Option ℕ
or_else none old = old
or_else (some k) old = some k

-- The slots after the answers for these methods were written to them.
abbrev filled : (ℕ → Option ℕ) → List ℕ → Vtable → Vtable
filled f [] slots = slots
filled f (m ∷ ms) [] = []
filled f (m ∷ ms) (x ∷ slots) = or_else (f m) x ∷ filled f ms slots

assign-append :
    (before : Vtable) (x : Option ℕ) (behind : Vtable) (k : ℕ)
    → assign (before ++ x ∷ behind) (length before) k ≡ before ++ some k ∷ behind
unfolding assign
assign-append [] x behind k = refl
assign-append (y ∷ ys) x behind k = ap (λ r. y ∷ r) (assign-append ys x behind k)

assign-past : (before : Vtable) (i k : ℕ) → length before ≤ i → assign before i k ≡ before
unfolding assign
assign-past [] i k l = refl
assign-past (y ∷ ys) zero k l = absurd (omega arith)
assign-past (y ∷ ys) (suc i) k l = ap (λ r. y ∷ r) (assign-past ys i k (omega arith))

check_slot_lem :
    (c : Context) (t : Tables) (before behind : Vtable) (x : Option ℕ) (m : ℕ) (v : Vectors)
    → v.vector ≡ before ++ x ∷ behind
    → (check_slot c t (length before) m v).0.vector ≡ before ++ or_else (answer c t m) x ∷ behind
unfolding check_slot set_slot
check_slot_lem c t before behind x m v e = elim (Option-cases (implementation c t m)) [
  | inl n ↦ ground (arith, n, e)
  | inr (k, s) ↦ elim (Bool-cases (check_procedure c (c.procedures m) (c.procedures k))) [
    | inl q ↦
        ground
          (arith, s, q, ap (λ w. assign w (length before) k) e, assign-append before x behind k)
    | inr q ↦ ground (arith, s, q, e)
  ]
]

check_slot_past :
    (c : Context) (t : Tables) (i m : ℕ) (v : Vectors)
    → (check_slot c t (length v.vector + i) m v).0.vector ≡ v.vector
unfolding check_slot set_slot
check_slot_past c t i m v = elim (Option-cases (implementation c t m)) [
  | inl n ↦ ground (arith, n)
  | inr (k, s) ↦ elim (Bool-cases (check_procedure c (c.procedures m) (c.procedures k))) [
    | inl q ↦ ground (arith, s, q, assign-past v.vector (length v.vector + i) k (omega arith))
    | inr q ↦ ground (arith, s, q)
  ]
]

length-snoc : (before : Vtable) (x : Option ℕ) → length (before ++ x ∷ []) ≡ suc (length before)
length-snoc [] x = refl
length-snoc (y ∷ ys) x = ap suc (length-snoc ys x)

check_slots_past :
    (c : Context) (t : Tables) (i : ℕ) (ms : List ℕ) (v : Vectors) (b : Bool)
    → (check_slots c t (length v.vector + i) ms (v, b)).0.vector ≡ v.vector
unfolding check_slots
check_slots_past c t i [] v b = refl
check_slots_past c t i (m ∷ ms) v b =
    let w = check_slot c t (length v.vector + i) m v in
    let same : w.0.vector ≡ v.vector = check_slot_past c t i m v in
    let next : suc (length v.vector + i) ≡ length w.0.vector + suc i =
      omega (arith, ap length same) in
    ap (λ n. (check_slots c t n ms w).0.vector) next
    ∙ check_slots_past c t (suc i) ms w.0 w.1
    ∙ same

append-none : (before : Vtable) → before ++ [] ≡ before
append-none [] = refl
append-none (y ∷ ys) = ap (λ r. y ∷ r) (append-none ys)

check_slots_lem :
    (c : Context) (t : Tables) (before slots : Vtable) (ms : List ℕ) (v : Vectors) (b : Bool)
    → v.vector ≡ before ++ slots
    → (check_slots c t (length before) ms (v, b)).0.vector ≡ before ++ filled (answer c t) ms slots
unfolding check_slots
check_slots_lem c t before slots [] v b e = e
check_slots_lem c t before [] (m ∷ ms) v b e =
    let whole : v.vector ≡ before = e ∙ append-none before in
    let place : length before ≡ length v.vector + 0 = omega (arith, ap length whole) in
    ap (λ n. (check_slots c t n (m ∷ ms) (v, b)).0.vector) place
    ∙ check_slots_past c t 0 (m ∷ ms) v b
    ∙ e
check_slots_lem c t before (x ∷ slots) (m ∷ ms) v b e =
    let w = check_slot_lem c t before slots x m v e in
    let put = or_else (answer c t m) x in
    let rest =
      check_slots_lem c t (before ++ put ∷ []) slots ms (check_slot c t (length before) m v).0
        (check_slot c t (length before) m v).1 (w ∙ sym (append_assoc before (put ∷ []) slots)) in
    ap (λ n. (check_slots c t n ms (check_slot c t (length before) m v)).0.vector)
      (sym (length-snoc before put))
    ∙ rest
    ∙ append_assoc before (put ∷ []) (filled (answer c t) ms slots)

-- Whether a class is found to implement an interface that has no bases depends on the last method of
-- its table alone: it is the one that decides, whichever of the others have no implementation.
check_slots-last :
    (c : Context) (t : Tables) (methods : List ℕ) (last i : ℕ) (v : Vectors) (b : Bool)
    → (check_slots c t i (methods ++ last ∷ []) (v, b)).1 ≡ is_answered c t last
unfolding check_slots check_slot
check_slots-last c t [] last i v b = elim (Option-cases (implementation c t last)) [
  | inl n ↦ ground (arith, n)
  | inr (k, s) ↦ ground (arith, s)
]
check_slots-last c t (m ∷ ms) last i v b =
    check_slots-last c t ms last (suc i) (check_slot c t i m v).0 (check_slot c t i m v).1

-- The method of the interface in a slot, if it has so many, and what answers for it.
abbrev answer_at : (ℕ → Option ℕ) → List ℕ → ℕ → Option ℕ
answer_at f [] slot = none
answer_at f (m ∷ ms) zero = f m
answer_at f (m ∷ ms) (suc slot) = answer_at f ms slot

-- What a slot holds in the end: the answer for the method that the furthest of the interface and its
-- bases has in that slot, of those for which there is an answer.
abbrev pub furthest : (ℕ → Option ℕ) → List ℕ → List (List ℕ) → ℕ → Option ℕ
furthest f methods [] slot = answer_at f methods slot
furthest f methods (base ∷ bases) slot =
    or_else (furthest f base bases slot) (answer_at f methods slot)

filled-at :
    (f : ℕ → Option ℕ) (ms : List ℕ) (slots : Vtable) (i : ℕ)
    → i < length slots
    → method_at (filled f ms slots) (some i) ≡ or_else (answer_at f ms i) (method_at slots (some i))
filled-at f [] slots i l = refl
filled-at f (m ∷ ms) [] i l = absurd (omega arith)
filled-at f (m ∷ ms) (x ∷ slots) zero l = elim (Option-cases (f m)) [
  | inl n ↦ rw n refl
  | inr (k, s) ↦ rw s refl
]
filled-at f (m ∷ ms) (x ∷ slots) (suc i) l = filled-at f ms slots i (omega arith)

filled-length :
    (f : ℕ → Option ℕ) (ms : List ℕ) (slots : Vtable) → length (filled f ms slots) ≡ length slots
filled-length f [] slots = refl
filled-length f (m ∷ ms) [] = refl
filled-length f (m ∷ ms) (x ∷ slots) = ap suc (filled-length f ms slots)

or_else_assoc : (x y z : Option ℕ) → or_else x (or_else y z) ≡ or_else (or_else x y) z
or_else_assoc none y z = refl
or_else_assoc (some k) y z = refl

check_interface-at :
    (c : Context) (t : Tables) (methods : List ℕ) (bases : List (List ℕ)) (v : Vectors) (i : ℕ)
    → i < length v.vector
    → method_at (check_interface c t methods bases v).0.vector (some i)
      ≡ or_else (furthest (answer c t) methods bases i) (method_at v.vector (some i))
unfolding check_interface
check_interface-at c t methods [] v i l =
    ap (λ w. method_at w (some i)) (check_slots_lem c t [] v.vector methods v true refl)
    ∙ filled-at (answer c t) methods v.vector i l
check_interface-at c t methods (base ∷ bases) v i l =
    let w = (check_slots c t 0 methods (v, true)).0 in
    let whole : w.vector ≡ filled (answer c t) methods v.vector =
      check_slots_lem c t [] v.vector methods v true refl in
    let room : i < length w.vector =
      omega (arith, l, ap length whole, filled-length (answer c t) methods v.vector) in
    check_interface-at c t base bases w i room
    ∙ ap (or_else (furthest (answer c t) base bases i))
        (ap (λ q. method_at q (some i)) whole ∙ filled-at (answer c t) methods v.vector i l)
    ∙ or_else_assoc (furthest (answer c t) base bases i) (answer_at (answer c t) methods i)
        (method_at v.vector (some i))

zeroed-at : (ms : List ℕ) (i : ℕ) → method_at (zeroed ms) (some i) ≡ none
zeroed-at [] i = refl
zeroed-at (m ∷ ms) zero = refl
zeroed-at (m ∷ ms) (suc i) = zeroed-at ms i

zeroed-length : (ms : List ℕ) → length (zeroed ms) ≡ length ms
zeroed-length [] = refl
zeroed-length (m ∷ ms) = ap suc (zeroed-length ms)

or_else-none : (x : Option ℕ) → or_else x none ≡ x
or_else-none none = refl
or_else-none (some k) = refl

-- Where a class's first vector is the one that the check of an interface and of its bases has filled,
-- none of the bases having more methods than the interface, a call of a method of the interface by its
-- number finds what answers for the method in that slot: the method of the class that its id finds at
-- distance 0, if it is compatible. Where that is so for more than one of the interface and its bases,
-- the furthest base decides; where it is for none, no method is found.
pub resolve_interface_method-check :
    (c : Context) (t : Tables) (interface : ℕ) (methods : List ℕ) (bases : List (List ℕ)) (slot : ℕ)
    (v : Vectors) (others : Vector) (classes : List Vector)
    → v.vector ≡ zeroed methods
    → All (λ base. length base ≤ length methods) bases
    → slot < length methods
    → resolve_interface_method
        ((record { interface = interface; vector = (check_interface c t methods bases v).0.vector }
            ∷ others)
          ∷ classes)
        interface
        (slot + 1)
      ≡ furthest (answer c t) methods bases slot
unfolding resolve_interface_method find_class find_vector
resolve_interface_method-check c t interface methods bases slot v others classes e fits l =
    let entry : Implemented = record {
      interface = interface;
      vector = (check_interface c t methods bases v).0.vector;
    } in
    let same : (interface == interface) ≡ true = ground arith in
    let back : slot + 1 - 1 ≡ slot = omega arith in
    let room : slot < length v.vector = omega (arith, l, ap length e, zeroed-length methods) in
    let found : find_vector interface (entry ∷ others) ≡ some entry = rw (same, find_vector) refl in
    rw (found, back, resolve_interface_method, find_class)
      (check_interface-at c t methods bases v slot room
        ∙ ap (or_else (furthest (answer c t) methods bases slot))
            (ap (λ w. method_at w (some slot)) e ∙ zeroed-at methods slot)
        ∙ or_else-none (furthest (answer c t) methods bases slot))
