-- ===== src/Lang/Instances/Lineage.antt =====
-- What `_corto_type_instanceof` decides on classes, interfaces and primitive types.
use corto.Base.{
  ℕ, ◌≡◌, ◌≢◌, refl, sym, ◌∙◌, ◌↔◌, inl, inr, Bool, true, false, ◌||◌, none, List, [], ◌∷◌, ◌==◌,
  if◌then◌else◌, arith, Any, Bool-cases,
}
use corto.Lang.Instances.{
  Level, TypeInfo, composite, interface, class, base_loop, baseof, implements_loop, class_loop,
  addresses, type_instanceof,
}

equal_sound : (a b : ℕ) → (a == b) ≡ true → a ≡ b
equal_sound a b e = ground arith

equal_complete : (a b : ℕ) → a ≡ b → (a == b) ≡ true
equal_complete a b e = ground arith

base_loop-done : (t : ℕ) (cs : List ℕ) → base_loop t cs true ≡ true
unfolding base_loop
base_loop-done t [] = refl
base_loop-done t (a ∷ cs) = refl

baseof_sound : (t a : ℕ) (cs : List ℕ) → baseof a cs t ≡ true → Any (λ b. b ≡ t) (a ∷ cs)
unfolding baseof
baseof_sound t a [] e = inl (equal_sound a t e)
baseof_sound t a (b ∷ bs) e = elim (Bool-cases (a == t)) [
  | inl h ↦ inl (equal_sound a t h)
  | inr h ↦ inr (baseof_sound t b bs (sym (rw h refl) ∙ e))
]

baseof_complete : (t a : ℕ) (cs : List ℕ) → Any (λ b. b ≡ t) (a ∷ cs) → baseof a cs t ≡ true
unfolding baseof
baseof_complete t a cs (inl h) = rw (equal_complete a t h) (base_loop-done t cs)
baseof_complete t a [] (inr h) = absurd h
baseof_complete t a (b ∷ bs) (inr h) = elim (Bool-cases (a == t)) [
  | inl k ↦ rw k refl
  | inr k ↦ rw k (baseof_complete t b bs h)
]

-- The interface is among those that the class or a base of it implements, or among their bases.
abbrev Implements : ℕ → List Level → Type 0
Implements t = Any (λ l. Any (λ i. Any (λ b. b ≡ t) (i.0 ∷ i.1)) l.implements)

implements_sound :
    (t : ℕ) (is : List (ℕ × List ℕ))
    → implements_loop t is ≡ true
    → Any (λ i. Any (λ b. b ≡ t) (i.0 ∷ i.1)) is
unfolding implements_loop
implements_sound t [] e = absurd (cc)
implements_sound t ((a, cs) ∷ is) e = elim (Bool-cases (baseof a cs t)) [
  | inl h ↦ inl (baseof_sound t a cs h)
  | inr h ↦ inr (implements_sound t is (sym (rw h refl) ∙ e))
]

implements_complete :
    (t : ℕ) (is : List (ℕ × List ℕ))
    → Any (λ i. Any (λ b. b ≡ t) (i.0 ∷ i.1)) is
    → implements_loop t is ≡ true
unfolding implements_loop
implements_complete t [] h = absurd h
implements_complete t ((a, cs) ∷ is) (inl h) = rw (baseof_complete t a cs h) refl
implements_complete t ((a, cs) ∷ is) (inr h) = elim (Bool-cases (baseof a cs t)) [
  | inl k ↦ rw k refl
  | inr k ↦ rw k (implements_complete t is h)
]

class_sound : (t : ℕ) (ls : List Level) → class_loop t ls ≡ true → Implements t ls
unfolding class_loop
class_sound t [] e = absurd (cc)
class_sound t (l ∷ ls) e = elim (Bool-cases (implements_loop t l.implements)) [
  | inl h ↦ inl (implements_sound t l.implements h)
  | inr h ↦ inr (class_sound t ls (sym (rw h refl) ∙ e))
]

class_complete : (t : ℕ) (ls : List Level) → Implements t ls → class_loop t ls ≡ true
unfolding class_loop
class_complete t [] h = absurd h
class_complete t (l ∷ ls) (inl h) = rw (implements_complete t l.implements h) refl
class_complete t (l ∷ ls) (inr h) = elim (Bool-cases (implements_loop t l.implements)) [
  | inl k ↦ rw k refl
  | inr k ↦ rw k (class_complete t ls h)
]

if_same : (b : Bool) → (if b then true else false) ≡ b
if_same true = refl
if_same false = refl

on_class :
    (dst src : TypeInfo)
    → src.class_of ≡ composite class
    → src.target ≡ none
    → dst.class_of ≡ composite class
    → type_instanceof dst src ≡ (
        dst.own.address == src.own.address
        || baseof src.own.address (addresses src.bases) dst.own.address)
unfolding type_instanceof
on_class dst src s n c = rw (s, n, c) (if_same _)

on_interface :
    (dst src : TypeInfo)
    → src.class_of ≡ composite class
    → src.target ≡ none
    → dst.class_of ≡ composite interface
    → type_instanceof dst src
      ≡ (dst.own.address == src.own.address || class_loop dst.own.address (src.own ∷ src.bases))
unfolding type_instanceof
on_interface dst src s n c = rw (s, n, c) (if_same _)

or_right : (a b r : Bool) → r ≡ (a || b) → b ≡ true → r ≡ true
or_right true b r e h = e
or_right false b r e h = e ∙ h

-- A class that is no target is an instance of another class exactly when that is the class itself or
-- one of its bases.
pub type_instanceof-class_iff :
    (dst src : TypeInfo)
    → src.class_of ≡ composite class
    → src.target ≡ none
    → dst.class_of ≡ composite class
    → (type_instanceof dst src ≡ true)
      ↔ Any (λ b. b ≡ dst.own.address) (addresses (src.own ∷ src.bases))
type_instanceof-class_iff dst src s n c = (sound, complete)
  where
    e : type_instanceof dst src ≡ (
        dst.own.address == src.own.address
        || baseof src.own.address (addresses src.bases) dst.own.address)
    e = on_class dst src s n c

    sound :
        type_instanceof dst src ≡ true
        → Any (λ b. b ≡ dst.own.address) (addresses (src.own ∷ src.bases))
    sound t = elim (Bool-cases (dst.own.address == src.own.address)) [
      | inl h ↦ inl (sym (equal_sound dst.own.address src.own.address h))
      | inr h ↦
          baseof_sound dst.own.address src.own.address (addresses src.bases)
            (sym (rw h refl) ∙ sym e ∙ t)
    ]

    complete :
        Any (λ b. b ≡ dst.own.address) (addresses (src.own ∷ src.bases))
        → type_instanceof dst src ≡ true
    complete a =
        or_right (dst.own.address == src.own.address)
          (baseof src.own.address (addresses src.bases) dst.own.address) (type_instanceof dst src) e
          (baseof_complete dst.own.address src.own.address (addresses src.bases) a)

-- A class that is no target is an instance of an interface, other than the class itself, exactly when
-- the class or one of its bases implements the interface or another one that has it as a base.
type_instanceof-interface_iff :
    (dst src : TypeInfo)
    → src.class_of ≡ composite class
    → src.target ≡ none
    → dst.class_of ≡ composite interface
    → dst.own.address ≢ src.own.address
    → (type_instanceof dst src ≡ true) ↔ Implements dst.own.address (src.own ∷ src.bases)
type_instanceof-interface_iff dst src s n c ne = (sound, complete)
  where
    e :
        type_instanceof dst src
        ≡ (dst.own.address == src.own.address || class_loop dst.own.address (src.own ∷ src.bases))
    e = on_interface dst src s n c

    sound : type_instanceof dst src ≡ true → Implements dst.own.address (src.own ∷ src.bases)
    sound t = elim (Bool-cases (dst.own.address == src.own.address)) [
      | inl h ↦ absurd (ne (equal_sound dst.own.address src.own.address h))
      | inr h ↦ class_sound dst.own.address (src.own ∷ src.bases) (sym (rw h refl) ∙ sym e ∙ t)
    ]

    complete : Implements dst.own.address (src.own ∷ src.bases) → type_instanceof dst src ≡ true
    complete a =
        or_right (dst.own.address == src.own.address)
          (class_loop dst.own.address (src.own ∷ src.bases)) (type_instanceof dst src) e
          (class_complete dst.own.address (src.own ∷ src.bases) a)
