-- ===== src/Vstore/Router/Matching.antt =====
-- Which routes match a request, and which of them is taken.
use corto.Base.{
  ℕ, suc, ◌+◌, ◌≡◌, refl, sym, ap, ◌∙◌, ◌↔◌, ◌⊎◌, inl, inr, Bool, true, false, Option, none, some,
  List, [], ◌∷◌, ◌==◌, if◌then◌else◌, Text, str_eq, str_eq_sound, str_eq_refl, length, arith,
  Bool-cases, is_some, subst,
}
use corto.Vstore.Router.{
  Route, Method, route, other, is_variable, match_elements, match_route, find_loop, find_route,
}

-- Element by element, the request has what the route says: anything for a variable.
abbrev pub Fits : List Text → List Text → Type 0
Fits [] [] = Unit
Fits [] (p ∷ ps) = ⊥
Fits (e ∷ es) [] = ⊥
Fits (e ∷ es) (p ∷ ps) = ((is_variable e ≡ true) ⊎ (e ≡ p)) × Fits es ps

abbrev pub literals : List Text → ℕ
literals [] = 0
literals (e ∷ es) = if is_variable e then literals es else suc (literals es)

match_sound :
    (es ps : List Text) (n m : ℕ)
    → length es ≡ length ps
    → match_elements es ps n ≡ some m
    → Fits es ps × (m ≡ n + literals es)
unfolding match_elements
match_sound [] [] n m l e = (tt, ground arith)
match_sound [] (p ∷ ps) n m l e = absurd (omega arith)
match_sound (x ∷ es) [] n m l e = absurd (omega arith)
match_sound (x ∷ es) (p ∷ ps) n m l e = elim (Bool-cases (is_variable x)) [
  | inl v ↦
      let (h, k) = match_sound es ps n m (omega arith) (sym (rw v refl) ∙ e) in ((inl v, h), rw v k)
  | inr v ↦ elim (Bool-cases (str_eq x p)) [
    | inl s ↦
        let (h, k) = match_sound es ps (n + 1) m (omega arith) (sym (rw (v, s) refl) ∙ e) in
        ((inr (str_eq_sound x p s), h), rw v (omega (arith, k)))
    | inr s ↦ absurd (ground arith)
  ]
]

match_complete :
    (es ps : List Text) (n : ℕ) → Fits es ps → match_elements es ps n ≡ some (n + literals es)
unfolding match_elements
match_complete [] [] n h = ground arith
match_complete [] (p ∷ ps) n h = absurd h
match_complete (x ∷ es) [] n h = absurd h
match_complete (x ∷ es) (p ∷ ps) n h = elim (Bool-cases (is_variable x)) [
  | inl v ↦ rw v (match_complete es ps n h.1)
  | inr v ↦
      let s : str_eq x p ≡ true = elim h.0 [
        | inl w ↦ absurd (cc (v, w))
        | inr q ↦ subst (λ t. str_eq x t ≡ true) q (str_eq_refl x)
      ] in
      rw (v, s) (match_complete es ps (n + 1) h.1 ∙ ap some (omega arith))
]

Fits-length : (es ps : List Text) → Fits es ps → length es ≡ length ps
Fits-length [] [] h = refl
Fits-length [] (p ∷ ps) h = absurd h
Fits-length (x ∷ es) [] h = absurd h
Fits-length (x ∷ es) (p ∷ ps) h = omega (arith, Fits-length es ps h.1)

length_test : (a b : ℕ) → a ≡ b → (a == b) ≡ true
length_test a b e = ground arith

test_length : (a b : ℕ) → (a == b) ≡ true → a ≡ b
test_length a b e = ground arith

-- A route matches a request exactly when they have the same number of elements and those of the route
-- that do not start with '$' are those of the request; the result counts these.
pub match_route_iff :
    (r : Route) (pattern : List Text) (n : ℕ)
    → (match_route r pattern ≡ some n) ↔ (Fits r.elements pattern × (n ≡ literals r.elements))
unfolding match_route
match_route_iff r pattern n = (sound, complete)
  where
    sound : match_route r pattern ≡ some n → Fits r.elements pattern × (n ≡ literals r.elements)
    sound e = elim (Bool-cases (length r.elements == length pattern)) [
      | inl l ↦
          let (h, k) =
            match_sound r.elements pattern 0 n (test_length (length r.elements) (length pattern) l)
              (sym (rw l refl) ∙ e) in
          (h, omega arith)
      | inr l ↦ absurd (ground arith)
    ]

    complete : Fits r.elements pattern × (n ≡ literals r.elements) → match_route r pattern ≡ some n
    complete (h, k) =
        rw (length_test (length r.elements) (length pattern) (Fits-length r.elements pattern h))
          (match_complete r.elements pattern 0 h ∙ ap some (omega arith))

-- The last one of the routes that match, or what is given.
abbrev last_match : List Text → List Method → Option Route → Option Route
last_match pattern [] found = found
last_match pattern (other ∷ ms) found = last_match pattern ms found
last_match pattern (route r ∷ ms) found =
    last_match pattern ms (if is_some (match_route r pattern) then some r else found)

abbrev pub first_match : List Text → List Method → Option Route
first_match pattern [] = none
first_match pattern (other ∷ ms) = first_match pattern ms
first_match pattern (route r ∷ ms) =
    let rest = first_match pattern ms in if is_some (match_route r pattern) then some r else rest

loop_last :
    (pattern : List Text) (ms : List Method) (found : Option Route)
    → find_loop true pattern none ms found ≡ last_match pattern ms found
unfolding find_loop
loop_last pattern [] found = refl
loop_last pattern (other ∷ ms) found = loop_last pattern ms found
loop_last pattern (route r ∷ ms) found =
    ground (arith, loop_last pattern ms found, loop_last pattern ms (some r))

loop_first :
    (pattern : List Text) (ms : List Method)
    → find_loop false pattern none ms none ≡ first_match pattern ms
unfolding find_loop
loop_first pattern [] = refl
loop_first pattern (other ∷ ms) = loop_first pattern ms
loop_first pattern (route r ∷ ms) = ground (arith, loop_first pattern ms)

-- Of the methods of a class, a request takes the last route that matches if requests are split into
-- elements, however few of its elements are literal, and the first one if they are not.
find_route_lem :
    (separator : Bool) (ms : List Method) (pattern : List Text)
    → find_route separator ms pattern
      ≡ (if separator then last_match pattern ms none else first_match pattern ms)
unfolding find_route
find_route_lem true ms pattern = loop_last pattern ms none
find_route_lem false ms pattern = loop_first pattern ms
