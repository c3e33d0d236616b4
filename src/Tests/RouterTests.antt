-- ===== src/Tests/RouterTests.antt =====
-- Routers on concrete requests: src/vstore/routerimpl.c, router.c.
use corto.Base.{◌≡◌, refl, ◌↔◌, inl, true, false, Option, some, List, [], ◌∷◌, Text, arith}
use corto.Vstore.Router.{
  element, Route, route, other, RouterType, max_args, match_route, find_route, parse_request,
  route_params, router_match,
}
use corto.Vstore.Router.Matching.{Fits, literals, match_route_iff}
use corto.Vstore.Router.Dispatch.{IsSafe, router_match-IsSafe}

-- The routes /a and /$b, and the request /a.
abbrev literal_route : Route
literal_route = record {
  address = 1;
  elements = (b'a' ∷ []) ∷ [];
  parameters = [];
  returns = false;
}

abbrev variable_route : Route
variable_route = record {
  address = 2;
  elements = (b'$' ∷ b'b' ∷ []) ∷ [];
  parameters = element (b'b' ∷ []) ∷ [];
  returns = false;
}

abbrev a_request : List Text
a_request = (b'a' ∷ []) ∷ []

abbrev base : RouterType
base = record { separator = true; param_type = false; router_data_type = false }

-- A path of one element.
abbrev whole : Text → Option (List Text)
whole t = some (t ∷ [])

match_route_iff_example :
    (match_route literal_route a_request ≡ some 1)
    ↔ (Fits literal_route.elements a_request × (1 ≡ literals literal_route.elements))
match_route_iff_example = match_route_iff literal_route a_request 1

-- The literal route matches more of the request, but the other one is taken.
variable_wins :
    find_route true (route literal_route ∷ route variable_route ∷ []) a_request
    ≡ some variable_route
unfolding find_route
variable_wins = refl

router_match-IsSafe_example : IsSafe base (max_args (route variable_route ∷ []) 0) a_request (
    router_match whole base
      (max_args (route variable_route ∷ []) 0)
      (other ∷ route variable_route ∷ [])
      false
      (b'/' ∷ b'a' ∷ []))
unfolding parse_request route_params
router_match-IsSafe_example =
    router_match-IsSafe whole base (route variable_route ∷ []) (other ∷ route variable_route ∷ [])
      false (b'/' ∷ b'a' ∷ []) a_request (omega arith, tt)
      (tt, (((refl, absurd_separator), inl refl), tt)) refl
  where
    absurd_separator : true ≡ false → variable_route.elements ≡ []
    absurd_separator e = absurd (cc)
