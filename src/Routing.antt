-- ===== src/Routing.antt =====
-- constants/normalize.go and routing/route.go, routing/propagation.go: the route that a context
-- carries. A context is the values of it that the modelled code reads.
pub mod Inject
use go_wsc.Base.{
  String, Bool, true, false, ◌&&◌, Option, none, some, List, ◌∷◌, ◌++◌, str_eq, if◌then◌else◌,
  nat_eq, string_eq, pair_eq, [],
}

abbrev pub default_app_id : String
default_app_id = "__default_app__"

abbrev pub default_namespace : String
default_namespace = "__default_ns__"

abbrev pub default_group_id : String
default_group_id = "__default_gp__"

unfoldable pub normalize_app_id : String → String
normalize_app_id s = if str_eq s "" then default_app_id else s

unfoldable pub normalize_namespace : String → String
normalize_namespace s = if str_eq s "" then default_namespace else s

unfoldable pub normalize_group_id : String → String
normalize_group_id s = if str_eq s "" then default_group_id else s

unfoldable pub normalize_route : String → String → String × String
unfolding normalize_app_id normalize_namespace
normalize_route app_id namespace = (normalize_app_id app_id, normalize_namespace namespace)

pub record RoutingContext : Type 0 where
  pub app_id : String
  pub namespace : String
  pub group_ids : List String

pub record Context : Type 0 where
  pub routing : Option RoutingContext
  pub fanout_sourced : Bool

unfoldable pub with_fanout_sourced : Context → Context
with_fanout_sourced ctx = record ctx { fanout_sourced = true }

unfoldable pub routing_from_context : Context → Option RoutingContext
routing_from_context ctx = ctx.routing

-- `AppIDFromContext` and its siblings, which read a route or a default.
unfoldable pub app_id_from_context : Context → String
unfolding routing_from_context normalize_app_id
app_id_from_context ctx = elim (routing_from_context ctx) [
  | some rc ↦ normalize_app_id rc.app_id
  | none ↦ default_app_id
]

unfoldable pub namespace_from_context : Context → String
unfolding routing_from_context
namespace_from_context ctx = elim (routing_from_context ctx) [ some rc ↦ rc.namespace | none ↦ "" ]

unfoldable pub group_ids_from_context : Context → List String
unfolding routing_from_context
group_ids_from_context ctx = elim (routing_from_context ctx) [ some rc ↦ rc.group_ids | none ↦ [] ]

first : List String → String
first [] = ""
first (g ∷ gs) = g

unfoldable pub first_group_id_from_context : Context → String
unfolding group_ids_from_context first
first_group_id_from_context ctx = first (group_ids_from_context ctx)

pub record Route : Type 0 where
  pub app_id : String
  pub namespace : String
  pub group_ids : List String

unfoldable pub new_route : Route
new_route = record { app_id = ""; namespace = ""; group_ids = [] }

unfoldable pub route_from : Context → Route
unfolding routing_from_context new_route
route_from ctx = elim (routing_from_context ctx) [
  | some rc ↦ record { app_id = rc.app_id; namespace = rc.namespace; group_ids = rc.group_ids }
  | none ↦ new_route
]

unfoldable pub with_app_id : String → Route → Route
with_app_id s r = record r { app_id = s }

unfoldable pub with_namespace : String → Route → Route
with_namespace s r = record r { namespace = s }

unfoldable pub with_group_ids : List String → Route → Route
with_group_ids gs r = record r { group_ids = gs }

unfoldable pub with_group : String → Route → Route
with_group g r = record r { group_ids = r.group_ids ++ g ∷ [] }

-- Go's `slices.Equal`.
abbrev pub same_strings : List String → List String → Bool
same_strings [] [] = true
same_strings [] (y ∷ ys) = false
same_strings (x ∷ xs) [] = false
same_strings (x ∷ xs) (y ∷ ys) = str_eq x y && same_strings xs ys

-- Whether the context's route is this one.
is_route : String → Route → Option RoutingContext → Bool
is_route app_id r none = false
is_route app_id r (some cur) =
    str_eq cur.app_id app_id
    && str_eq cur.namespace r.namespace
    && same_strings cur.group_ids r.group_ids

unfoldable pub inject : Route → Context → Context
unfolding routing_from_context normalize_app_id is_route
inject r ctx =
    let app_id = normalize_app_id r.app_id in
    if is_route app_id r (routing_from_context ctx) then ctx else record ctx {
      routing = some (record { app_id = app_id; namespace = r.namespace; group_ids = r.group_ids });
    }

unfoldable pub ensure_route_defaults : Context → Context
unfolding route_from normalize_route
ensure_route_defaults ctx =
    let r = route_from ctx in
    let (app_id, ns) = normalize_route r.app_id r.namespace in
    record ctx {
      routing = some (record { app_id = app_id; namespace = ns; group_ids = r.group_ids });
    }
