-- ===== src/Vstore/Router/Parameters.antt =====
-- The arguments of a route, one for each of its parameters.
use corto.Base.{
  ◌≡◌, refl, ◌⊎◌, inl, inr, Bool, true, false, List, [], ◌∷◌, ◌++◌, if◌then◌else◌, Text, length,
  arith, Bool-cases,
}
use corto.Vstore.Router.{
  RouteParam, application, router_data, element, Route, RouterType, is_variable, variable_name,
  element_params, route_params, Argument, param, data_value, text, element_args,
}
use corto.Vstore.Router.Matching.{Fits}

-- What a route's construction leaves: its parameters are those of its elements.
abbrev pub IsConstructed : RouterType → Route → Type 0
IsConstructed base r =
    (r.parameters ≡ route_params base r.elements) × (base.separator ≡ false → r.elements ≡ [])

-- A variable of this name stands in the route where the request has the text.
abbrev IsMatched : List Text → List Text → Text → Text → Type 0
IsMatched [] ps name t = ⊥
IsMatched (e ∷ es) [] name t = ⊥
IsMatched (e ∷ es) (p ∷ ps) name t =
    ((is_variable e ≡ true) × (variable_name e ≡ name) × (p ≡ t)) ⊎ IsMatched es ps name t

-- What a parameter is given, of a route with these elements and a request with those: one that stands
-- for an element of the request is given the text of that element.
abbrev Gets : List Text → List Text → RouteParam → Argument → Type 0
Gets es ps application a = a ≡ param
Gets es ps router_data a = a ≡ data_value
Gets es ps (element name) a = (t : Text) × IsMatched es ps name t × (a ≡ text t)

abbrev pub GetsAll : List Text → List Text → List RouteParam → List Argument → Type 0
GetsAll es ps [] [] = Unit
GetsAll es ps [] (a ∷ cs) = ⊥
GetsAll es ps (q ∷ qs) [] = ⊥
GetsAll es ps (q ∷ qs) (a ∷ cs) = Gets es ps q a × GetsAll es ps qs cs

elements-GetsAll :
    (all request es ps : List Text)
    → Fits es ps
    → ((name t : Text) → IsMatched es ps name t → IsMatched all request name t)
    → GetsAll all request (element_params es) (element_args es ps)
unfolding element_params element_args
elements-GetsAll all request [] [] h m = tt
elements-GetsAll all request [] (p ∷ ps) h m = absurd h
elements-GetsAll all request (e ∷ es) [] h m = absurd h
elements-GetsAll all request (e ∷ es) (p ∷ ps) h m =
    let rest = elements-GetsAll all request es ps h.1 (λ n t k. m n t (inr k)) in
    elim (Bool-cases (is_variable e)) [
      | inl v ↦ rw v ((p, m (variable_name e) p (inl (v, refl, refl)), refl), rest)
      | inr v ↦ rw v rest
    ]

pub GetsAll-length :
    (es ps : List Text) (qs : List RouteParam) (cs : List Argument)
    → GetsAll es ps qs cs
    → length cs ≡ length qs
GetsAll-length es ps [] [] h = refl
GetsAll-length es ps [] (a ∷ cs) h = absurd h
GetsAll-length es ps (q ∷ qs) [] h = absurd h
GetsAll-length es ps (q ∷ qs) (a ∷ cs) h = omega (arith, GetsAll-length es ps qs cs h.1)

-- The arguments behind the instance.
abbrev pub tail_args : RouterType → List Text → List Text → List Argument
tail_args base es ps =
    (if base.param_type then param ∷ [] else [])
    ++ ((if base.router_data_type then data_value ∷ [] else [])
        ++ (if base.separator then element_args es ps else []))

elements_part :
    (s : Bool) (es ps : List Text)
    → (s ≡ true → Fits es ps)
    → (s ≡ false → es ≡ [])
    → GetsAll es ps (element_params es) (if s then element_args es ps else [])
unfolding element_params
elements_part true es ps f n = elements-GetsAll es ps es ps (f refl) (λ _ _ k. k)
elements_part false es ps f n = rw (n refl) tt

front_part :
    (a b : Bool) (es ps : List Text) (qs : List RouteParam) (cs : List Argument)
    → GetsAll es ps qs cs
    → GetsAll es ps
        ((if a then application ∷ [] else []) ++ ((if b then router_data ∷ [] else []) ++ qs))
        ((if a then param ∷ [] else []) ++ ((if b then data_value ∷ [] else []) ++ cs))
front_part true true es ps qs cs h = (refl, (refl, h))
front_part true false es ps qs cs h = (refl, h)
front_part false true es ps qs cs h = (refl, h)
front_part false false es ps qs cs h = h

pub tail-GetsAll :
    (base : RouterType) (es ps : List Text)
    → (base.separator ≡ true → Fits es ps)
    → (base.separator ≡ false → es ≡ [])
    → GetsAll es ps (route_params base es) (tail_args base es ps)
unfolding route_params
tail-GetsAll base es ps f n =
    front_part base.param_type base.router_data_type es ps (element_params es)
      (if base.separator then element_args es ps else []) (elements_part base.separator es ps f n)
