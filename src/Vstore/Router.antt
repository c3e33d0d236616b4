-- ===== src/Vstore/Router.antt =====
-- Requests that are matched with routes (src/vstore/route.c, routerimpl.c, router.c). The method
-- `match` of a router is the default one. `corto_pathToArray` comes from the base package; buffer
-- sizes other than that of the arguments are left out.
pub mod Matching
pub mod Parameters
pub mod Dispatch
use corto.Base.{
  ℕ, zero, suc, ◌+◌, ◌%◌, Bool, true, false, not, ◌&&◌, Option, none, some, List, [], ◌∷◌, ◌++◌,
  ◌==◌, ltb, leb, if◌then◌else◌, Text, str_eq, length,
}

-- A parameter of a route: the data of the application, those of the router, or an element of the
-- request, by its name.
pub data RouteParam : Type 0 where
  application router_data : RouteParam
  element : Text → RouteParam

-- corto_route: `returns` says that it has a return type that is not void.
pub record Route : Type 0 where
  pub address : ℕ
  pub elements : List Text
  pub parameters : List RouteParam
  pub returns : Bool

-- An object in the scope of a router, or a method of the class of an instance.
pub data Method : Type 0 where
  route : Route → Method
  other : Method

-- corto_router: whether it has an `elementSeparator`, a `paramType` and a `routerDataType`.
pub record RouterType : Type 0 where
  pub separator : Bool
  pub param_type : Bool
  pub router_data_type : Bool

-- expr[0] == '$'
abbrev pub is_variable : Text → Bool
is_variable [] = false
is_variable (c ∷ cs) = c == b'$'

-- &element[1], of an element that is not empty
abbrev pub variable_name : Text → Text
variable_name [] = []
variable_name (c ∷ cs) = cs

-- The last loop of `corto_route_construct`.
unfoldable pub element_params : List Text → List RouteParam
element_params [] = []
element_params (e ∷ es) =
    let rest = element_params es in if is_variable e then element (variable_name e) ∷ rest else rest

unfoldable pub route_params : RouterType → List Text → List RouteParam
unfolding element_params
route_params base es =
    (if base.param_type then application ∷ [] else [])
    ++ ((if base.router_data_type then router_data ∷ [] else []) ++ element_params es)

abbrev drop_slash : Text → Text
drop_slash [] = []
drop_slash (c ∷ cs) = if c == b'/' then cs else c ∷ cs

-- The elements of a pattern; `split` is corto_pathToArray, `none` an error.
unfoldable pattern_elements :
    (Text → Option (List Text)) → RouterType → Option Text → Option (List Text)
pattern_elements split base none = some []
pattern_elements split base (some pattern) =
    if base.separator then split (drop_slash pattern) else some []

-- corto_route_construct, up to the construction of the function; `none` is an error.
unfoldable route_construct :
    (Text → Option (List Text)) → RouterType → ℕ → Option Text → Bool → Option Route
unfolding pattern_elements route_params
route_construct split base address pattern returns = elim (pattern_elements split base pattern) [
  | none ↦ none
  | some es ↦ some (record {
    address = address;
    elements = es;
    parameters = route_params base es;
    returns = returns;
  })
]

-- corto_routerimpl_countArgs: `maxArgs` has 16 bits.
unfoldable pub count_args : Method → ℕ → ℕ
count_args other max_args = max_args
count_args (route r) max_args =
    if ltb max_args (length r.parameters) then length r.parameters % 65536 else max_args

-- The walk of `corto_routerimpl_construct` over the scope, from 0.
unfoldable pub max_args : List Method → ℕ → ℕ
unfolding count_args
max_args [] n = n
max_args (m ∷ ms) n = max_args ms (count_args m n)

-- The loop of `corto_routerimpl_matchRoute_v`; `none` is `nomatch`.
unfoldable pub match_elements : List Text → List Text → ℕ → Option ℕ
match_elements [] pattern result = some result
match_elements (e ∷ es) [] result = some result
match_elements (e ∷ es) (p ∷ ps) result =
    let variable = match_elements es ps result in
    let literal = match_elements es ps (result + 1) in
    if is_variable e then variable else if not (str_eq e p) then none else literal

-- corto_routerimpl_matchRoute_v: `none` is -1.
unfoldable pub match_route : Route → List Text → Option ℕ
unfolding match_elements
match_route r pattern =
    if length r.elements == length pattern then match_elements r.elements pattern 0 else none

-- matched > maxMatched, where `none` is -1.
abbrev beats : ℕ → Option ℕ → Bool
beats n none = true
beats n (some m) = ltb m n

-- The loop of `corto_routerimpl_findRoute_v`: nothing is assigned to `maxMatched` in it.
unfoldable pub find_loop : Bool → List Text → Option ℕ → List Method → Option Route → Option Route
unfolding match_route
find_loop separator pattern max_matched [] result = result
find_loop separator pattern max_matched (other ∷ ms) result =
    find_loop separator pattern max_matched ms result
find_loop separator pattern max_matched (route r ∷ ms) result = elim (match_route r pattern) [
  | none ↦ find_loop separator pattern max_matched ms result
  | some n ↦
      let rest = find_loop separator pattern max_matched ms result in
      let taken = find_loop separator pattern max_matched ms (some r) in
      if beats n max_matched then (if not separator then some r else taken) else rest
]

-- corto_routerimpl_findRoute_v
unfoldable pub find_route : Bool → List Method → List Text → Option Route
unfolding find_loop
find_route separator methods pattern = find_loop separator pattern none methods none

-- What stands in a slot of the array `args`.
pub data Argument : Type 0 where
  instance_object param data_value : Argument
  text : Text → Argument

-- The loop over the elements of the request, which are as many as the route's.
unfoldable pub element_args : List Text → List Text → List Argument
element_args es [] = []
element_args [] (p ∷ ps) = []
element_args (e ∷ es) (p ∷ ps) =
    let rest = element_args es ps in if is_variable e then text p ∷ rest else rest

unfoldable pub arguments : RouterType → Route → List Text → List Argument
unfolding element_args
arguments base r pattern =
    instance_object
    ∷ ((if base.param_type then param ∷ [] else [])
        ++ ((if base.router_data_type then data_value ∷ [] else [])
            ++ (if base.separator then element_args r.elements pattern else [])))

-- How a request ends: an error, or the call of a route. `overflow` is a write past the end of `args`.
pub data Reply : Type 0 where
  invalid unknown no_result overflow : Reply
  called : Route → List Argument → Reply

-- The writes to `args`, which has room for `max` arguments and the instance, and the call.
unfoldable pub invoke_route : ℕ → Route → List Argument → Reply
invoke_route max r args = if leb (length args) (1 + max) then called r args else overflow

-- corto_router_match behind the search; `max` is the router's `maxArgs`. `result_given` says that the
-- caller passed a place for the result.
unfoldable pub call_route : RouterType → ℕ → Bool → Route → List Text → Reply
unfolding arguments invoke_route
call_route base max result_given r pattern =
    if r.returns && not result_given
    then no_result
    else invoke_route max r (arguments base r pattern)

-- What follows the search.
unfoldable pub answer : RouterType → ℕ → Bool → List Text → Option Route → Reply
unfolding call_route
answer base max result_given pattern none = unknown
answer base max result_given pattern (some r) = call_route base max result_given r pattern

-- The elements of a request; `none` is an error.
unfoldable pub parse_request : (Text → Option (List Text)) → RouterType → Text → Option (List Text)
parse_request split base request =
    if base.separator then split (drop_slash request) else some (request ∷ [])

unfoldable pub match_parsed : RouterType → ℕ → List Method → Bool → Option (List Text) → Reply
unfolding find_route answer
match_parsed base max methods result_given none = invalid
match_parsed base max methods result_given (some pattern) =
    answer base max result_given pattern (find_route base.separator methods pattern)

-- corto_router_match, without the second call of a route `_matched`
unfoldable pub router_match :
    (Text → Option (List Text)) → RouterType → ℕ → List Method → Bool → Text → Reply
unfolding parse_request match_parsed
router_match split base max methods result_given request =
    match_parsed base max methods result_given (parse_request split base request)
