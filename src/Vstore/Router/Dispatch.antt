-- ===== src/Vstore/Router/Dispatch.antt =====
-- The arguments that a route is called with, and the room that there is for them.
use corto.Base.{
  ℕ, suc, ◌+◌, ◌≤◌, ◌<◌, ◌≡◌, refl, sym, ap, ◌∙◌, ◌⊎◌, inl, inr, Bool, true, false, not, Option,
  none, some, List, [], ◌∷◌, leb, Text, length, arith, Bool-cases, Option-cases, All, Any, subst,
  ◌&&◌,
}
use corto.Vstore.Router.{
  Route, Method, route, other, RouterType, count_args, max_args, match_route, find_loop, find_route,
  Argument, instance_object, Reply, invalid, unknown, no_result, overflow, called, invoke_route,
  call_route, answer, parse_request, match_parsed, router_match,
}
use corto.Vstore.Router.Matching.{Fits, match_route_iff}
use corto.Vstore.Router.Parameters.{IsConstructed, GetsAll, GetsAll-length, tail_args, tail-GetsAll}

-- The number of the parameters is not cut off.
abbrev IsShort : Method → Type 0
IsShort other = Unit
IsShort (route r) = length r.parameters < 65536

counted-le : (m : Method) (n : ℕ) → IsShort m → n ≤ count_args m n
unfolding count_args
counted-le other n h = omega arith
counted-le (route r) n h = ground arith

max_args-le : (ms : List Method) (n : ℕ) → All IsShort ms → n ≤ max_args ms n
unfolding max_args
max_args-le [] n h = omega arith
max_args-le (m ∷ ms) n h = omega (arith, counted-le m n h.0, max_args-le ms (count_args m n) h.1)

counted :
    (r : Route) (n : ℕ) → length r.parameters < 65536 → length r.parameters ≤ count_args (route r) n
unfolding count_args
counted r n h = ground arith

-- Every route in the scope of a router fits into its array.
max_args-fits :
    (scope : List Method) (n : ℕ) (r : Route)
    → All IsShort scope
    → Any (λ m. m ≡ route r) scope
    → length r.parameters ≤ max_args scope n
unfolding max_args
max_args-fits [] n r s h = absurd h
max_args-fits (m ∷ ms) n r s (inl e) =
    let short : length r.parameters < 65536 = subst IsShort e s.0 in
    omega (
      arith,
      subst (λ k. length r.parameters ≤ count_args k n) (sym e) (counted r n short),
      max_args-le ms (count_args m n) s.1,
    )
max_args-fits (m ∷ ms) n r s (inr h) = max_args-fits ms (count_args m n) r s.1 h

module _ (base : RouterType) (max : ℕ) where
  -- The method is no route, or a route that was constructed and has room.
  abbrev HasRoom : Method → Type 0
  HasRoom other = Unit
  HasRoom (route r) = IsConstructed base r × (length r.parameters ≤ max)

  -- The request is refused, or a route is called with the instance and what its parameters ask for;
  -- the array of the arguments does not overflow.
  abbrev pub IsSafe : List Text → Reply → Type 0
  IsSafe pattern invalid = Unit
  IsSafe pattern unknown = Unit
  IsSafe pattern no_result = Unit
  IsSafe pattern overflow = ⊥
  IsSafe pattern (called r cs) =
      (ts : List Argument) × (cs ≡ instance_object ∷ ts)
      × GetsAll r.elements pattern r.parameters ts
      × (base.separator ≡ true → Fits r.elements pattern)

  found_one :
      (separator : Bool) (pattern : List Text) (ms : List Method) (found : Option Route) (r : Route)
      → All HasRoom ms
      → find_loop separator pattern none ms found ≡ some r
      → (found ≡ some r) ⊎ (HasRoom (route r) × ((n : ℕ) × (match_route r pattern ≡ some n)))
  unfolding find_loop
  found_one separator pattern [] found r h e = inl e
  found_one separator pattern (other ∷ ms) found r h e =
      found_one separator pattern ms found r h.1 e
  found_one separator pattern (route q ∷ ms) found r h e =
      elim (Option-cases (match_route q pattern)) [
        | inl k ↦ found_one separator pattern ms found r h.1 (ground arith)
        | inr (n, k) ↦ elim (Bool-cases separator) [
          | inr s ↦
              let same : q ≡ r = ground arith in
              inr (
                subst (λ r. HasRoom (route r) × ((n : ℕ) × (match_route r pattern ≡ some n))) same
                  (h.0, (n, k)))
          | inl s ↦ elim (found_one separator pattern ms (some q) r h.1 (ground arith)) [
            | inr x ↦ inr x
            | inl x ↦
                let same : q ≡ r = cc in
                inr (
                  subst (λ r. HasRoom (route r) × ((n : ℕ) × (match_route r pattern ≡ some n))) same
                    (h.0, (n, k)))
          ]
        ]
      ]

  invoke-IsSafe :
      (r : Route) (pattern : List Text) (ts : List Argument)
      → length r.parameters ≤ max
      → GetsAll r.elements pattern r.parameters ts
      → (base.separator ≡ true → Fits r.elements pattern)
      → IsSafe pattern (invoke_route max r (instance_object ∷ ts))
  unfolding invoke_route
  invoke-IsSafe r pattern ts l g f =
      let room : leb (length (instance_object ∷ ts)) (1 + max) ≡ true =
        fits_test (length ts)
          (omega (arith, GetsAll-length r.elements pattern r.parameters ts g)) in
      rw room (ts, refl, g, f)
    where
      fits_test : (n : ℕ) → n ≤ max → leb (suc n) (1 + max) ≡ true
      fits_test n h = ground arith

  call-IsSafe :
      (given : Bool) (r : Route) (pattern : List Text) (n : ℕ)
      → HasRoom (route r)
      → match_route r pattern ≡ some n
      → IsSafe pattern (call_route base max given r pattern)
  unfolding call_route
  call-IsSafe given r pattern n (made, room) e = elim (Bool-cases (r.returns && not given)) [
    | inl b ↦ rw b tt
    | inr b ↦
        let fits = (match_route_iff r pattern n).0 e in
        let ts = tail_args base r.elements pattern in
        let gets : GetsAll r.elements pattern r.parameters ts =
          subst (λ qs. GetsAll r.elements pattern qs ts) (sym made.0)
            (tail-GetsAll base r.elements pattern (λ _. fits.0) made.1) in
        rw b (invoke-IsSafe r pattern ts room gets (λ _. fits.0))
  ]

  answer-IsSafe :
      (given : Bool) (methods : List Method) (pattern : List Text) (found : Option Route)
      → All HasRoom methods
      → find_loop base.separator pattern none methods none ≡ found
      → IsSafe pattern (answer base max given pattern found)
  unfolding answer
  answer-IsSafe given methods pattern none h e = tt
  answer-IsSafe given methods pattern (some r) h e =
      elim (found_one base.separator pattern methods none r h e) [
        | inl x ↦ absurd (cc)
        | inr (room, (n, k)) ↦ call-IsSafe given r pattern n room k
      ]

-- A method of the instance's class is no route, or a constructed one that stands in the router's scope.
abbrev IsOwn : RouterType → List Method → Method → Type 0
IsOwn base scope other = Unit
IsOwn base scope (route r) = IsConstructed base r × Any (λ m. m ≡ route r) scope

own-HasRoom :
    (base : RouterType) (scope methods : List Method)
    → All IsShort scope
    → All (IsOwn base scope) methods
    → All (HasRoom base (max_args scope 0)) methods
own-HasRoom base scope [] s h = tt
own-HasRoom base scope (other ∷ ms) s h = (tt, own-HasRoom base scope ms s h.1)
own-HasRoom base scope (route r ∷ ms) s h =
    ((h.0.0, max_args-fits scope 0 r s h.0.1), own-HasRoom base scope ms s h.1)

-- Where the routes of an instance's class stand in the scope of its router, a request never overflows
-- the array of arguments: it is refused, or a route that matches it is called, with the instance and
-- with what each of the route's parameters asks for: the data of the application or the router, or the
-- element of the request where the route has the variable of that name. Routes and router are as they
-- were constructed, the routes of the scope have less than 65536 parameters each, and the request can be
-- split into elements.
pub router_match-IsSafe :
    (split : Text → Option (List Text)) (base : RouterType) (scope methods : List Method)
    (given : Bool) (request : Text) (pattern : List Text)
    → All IsShort scope
    → All (IsOwn base scope) methods
    → parse_request split base request ≡ some pattern
    → IsSafe base
        (max_args scope 0)
        pattern
        (router_match split base (max_args scope 0) methods given request)
unfolding router_match
router_match-IsSafe split base scope methods given request pattern s h e =
    subst
      (λ o.
        IsSafe base (max_args scope 0) pattern
          (match_parsed base (max_args scope 0) methods given o))
      (sym e)
      (answer-IsSafe base (max_args scope 0) given methods pattern
        (find_loop base.separator pattern none methods none) (own-HasRoom base scope methods s h)
        refl)

invoke_full :
    (max : ℕ) (r : Route) (cs : List Argument)
    → suc max < length cs
    → invoke_route max r cs ≡ overflow
unfolding invoke_route
invoke_full max r cs l = ground arith

-- A route that a request finds and that has more parameters than the router has counted in its own
-- scope, as a route that the class inherits may have, is called with more arguments than there is room
-- for. The route is as it was constructed, and needs no result or is given a place for it.
router_match-overflow :
    (split : Text → Option (List Text)) (base : RouterType) (max : ℕ) (methods : List Method)
    (given : Bool) (request : Text) (pattern : List Text) (r : Route) (n : ℕ)
    → parse_request split base request ≡ some pattern
    → find_route base.separator methods pattern ≡ some r
    → match_route r pattern ≡ some n
    → IsConstructed base r
    → (r.returns && not given) ≡ false
    → max < length r.parameters
    → router_match split base max methods given request ≡ overflow
unfolding router_match
router_match-overflow split base max methods given request pattern r n e f m made g l =
    let ts = tail_args base r.elements pattern in
    let gets : GetsAll r.elements pattern r.parameters ts =
      subst (λ qs. GetsAll r.elements pattern qs ts) (sym made.0)
        (tail-GetsAll base r.elements pattern (λ _. ((match_route_iff r pattern n).0 m).0)
          made.1) in
    ap (match_parsed base max methods given) e
    ∙ ap (answer base max given pattern) f
    ∙ rw g (
        invoke_full max r (instance_object ∷ ts)
          (omega (arith, GetsAll-length r.elements pattern r.parameters ts gets)))
