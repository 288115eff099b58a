-- ===== src/Routing/Inject.antt =====
-- routing/route.go: what `Inject` and `EnsureRouteDefaults` make of a context.
use go_wsc.Base.{
  String, ◌≡◌, refl, ap, ap₂, ◌≢◌, inl, inr, true, Option, none, some, List, [], ◌∷◌, arith, eq_iff,
  str_eq, Bool-cases, nat_eq, string_eq, pair_eq,
}
use go_wsc.Routing.{
  Context, Route, RoutingContext, normalize_app_id, normalize_namespace, normalize_route, is_route,
  same_strings, inject, ensure_route_defaults, route_from, routing_from_context,
  app_id_from_context, namespace_from_context, group_ids_from_context,
}

same_strings→eq : (xs ys : List String) → same_strings xs ys ≡ true → xs ≡ ys
same_strings→eq [] [] h = refl
same_strings→eq [] (y ∷ ys) h = absurd (cc h)
same_strings→eq (x ∷ xs) [] h = absurd (cc h)
same_strings→eq (x ∷ xs) (y ∷ ys) h =
    ap₂ (λ a b. a ∷ b) ((eq_iff x y).0 (ground arith)) (same_strings→eq xs ys (ground arith))

kept :
    (app_id : String) (r : Route) (o : Option RoutingContext)
    → is_route app_id r o ≡ true
    → o ≡ some (record { app_id = app_id; namespace = r.namespace; group_ids = r.group_ids })
unfolding is_route
kept app_id r none h = absurd (cc h)
kept app_id r (some cur) h =
    let a : cur.app_id ≡ app_id = (eq_iff _ _).0 (ground arith) in
    let n : cur.namespace ≡ r.namespace = (eq_iff _ _).0 (ground arith) in
    let g : cur.group_ids ≡ r.group_ids = same_strings→eq _ _ (ground arith) in cc (a, n, g)

-- The route that Inject leaves in any context, one that carried the same route and is kept as it is
-- included, has the app id with its default, and the namespace and the groups as they are.
pub inject-routing :
    (r : Route) (ctx : Context)
    → (inject r ctx).routing
      ≡ some (record {
        app_id = normalize_app_id r.app_id;
        namespace = r.namespace;
        group_ids = r.group_ids;
      })
unfolding inject routing_from_context
inject-routing r ctx = elim (Bool-cases (is_route (normalize_app_id r.app_id) r ctx.routing)) [
  | inl same ↦ rw same (kept (normalize_app_id r.app_id) r ctx.routing same)
  | inr other ↦ rw other refl
]

normalize_app_id_idem : (s : String) → normalize_app_id (normalize_app_id s) ≡ normalize_app_id s
unfolding normalize_app_id
normalize_app_id_idem s = elim (Bool-cases (str_eq s "")) [
  | inl e ↦ rw e refl
  | inr e ↦ rw e (rw e refl)
]

normalize_namespace_idem :
    (s : String) → normalize_namespace (normalize_namespace s) ≡ normalize_namespace s
unfolding normalize_namespace
normalize_namespace_idem s = elim (Bool-cases (str_eq s "")) [
  | inl e ↦ rw e refl
  | inr e ↦ rw e (rw e refl)
]

normalize_app_id-ne : (s : String) → normalize_app_id s ≢ ""
unfolding normalize_app_id
normalize_app_id-ne s = elim (Bool-cases (str_eq s "")) [
  | inl e ↦ rw e (λ h. absurd (cc (ap (λ t. str_eq t "") h)))
  | inr e ↦ rw e (λ h. absurd (cc (e, ap (λ t. str_eq t "") h)))
]

normalize_namespace-ne : (s : String) → normalize_namespace s ≢ ""
unfolding normalize_namespace
normalize_namespace-ne s = elim (Bool-cases (str_eq s "")) [
  | inl e ↦ rw e (λ h. absurd (cc (ap (λ t. str_eq t "") h)))
  | inr e ↦ rw e (λ h. absurd (cc (e, ap (λ t. str_eq t "") h)))
]

route_from-groups : (ctx : Context) → (route_from ctx).group_ids ≡ group_ids_from_context ctx
unfolding route_from routing_from_context group_ids_from_context
route_from-groups ctx = go ctx.routing
  where
    go :
        (o : Option RoutingContext)
        → (route_from (record ctx { routing = o })).group_ids
          ≡ group_ids_from_context (record ctx { routing = o })
    go none = refl
    go (some rc) = refl

inject-fanout : (r : Route) (ctx : Context) → (inject r ctx).fanout_sourced ≡ ctx.fanout_sourced
unfolding inject routing_from_context
inject-fanout r ctx = elim (Bool-cases (is_route (normalize_app_id r.app_id) r ctx.routing)) [
  | inl same ↦ rw same refl
  | inr other ↦ rw other refl
]

-- What the readers find after `Inject`.
pub inject-read :
    (r : Route) (ctx : Context)
    → (app_id_from_context (inject r ctx) ≡ normalize_app_id r.app_id)
      × (namespace_from_context (inject r ctx) ≡ r.namespace)
      × (group_ids_from_context (inject r ctx) ≡ r.group_ids)
      × ((inject r ctx).fanout_sourced ≡ ctx.fanout_sourced)
unfolding app_id_from_context namespace_from_context group_ids_from_context routing_from_context
inject-read r ctx = (
  rw (inject-routing r ctx) (normalize_app_id_idem r.app_id),
  rw (inject-routing r ctx) refl,
  rw (inject-routing r ctx) refl,
  inject-fanout r ctx,
)

-- EnsureRouteDefaults leaves a route whose app id and namespace are not empty, with the groups as
-- they were, and a second call changes nothing.
pub ensure_route_defaults_complete :
    (ctx : Context)
    → (app_id_from_context (ensure_route_defaults ctx) ≢ "")
      × (namespace_from_context (ensure_route_defaults ctx) ≢ "")
      × (group_ids_from_context (ensure_route_defaults ctx) ≡ group_ids_from_context ctx)
      × (ensure_route_defaults (ensure_route_defaults ctx) ≡ ensure_route_defaults ctx)
unfolding ensure_route_defaults route_from routing_from_context app_id_from_context
    namespace_from_context group_ids_from_context normalize_route
ensure_route_defaults_complete ctx = (
  rw (normalize_app_id_idem (route_from ctx).app_id) (normalize_app_id-ne (route_from ctx).app_id),
  normalize_namespace-ne (route_from ctx).namespace,
  route_from-groups ctx,
  rw
      (
        normalize_app_id_idem (route_from ctx).app_id,
        normalize_namespace_idem (route_from ctx).namespace,
      )
      refl,
)
