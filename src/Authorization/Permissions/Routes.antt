-- ===== src/Authorization/Permissions/Routes.antt =====
-- What the constructor of the permissions plugin checks, and how its routes are looked up.
use mathlib.Core.Path.{subst}
use research_service_workben.Base.{
  String, true, false, none, List, [], ◌∷◌, map, ◌≡◌, inl, inr, ok, Dict, lookup, is_some, includes,
  any-append, ◌<>◌, ◌==◌, eq_iff, eq_refl, arith, text_cases, Option-cases,
}
use research_service_workben.Authorization.Permissions.{
  RouteTable, keys, route_methods, any_of, new_plugin, get_in,
}

includes-keys {ℓ} :
    {V : Type ℓ} (k : String) (d : Dict V) (route : String)
    → is_some (lookup k d) ≡ true
    → includes (k <> ":" <> route) (map (λ method. method <> ":" <> route) (keys d)) ≡ true
includes-keys k [] route h = cc
includes-keys k ((j, v) ∷ d) route h = elim (text_cases j k) [
  | inl same ↦ rw (same, eq_refl (k <> ":" <> route))
  | inr other ↦ ground (arith, eq_iff j k, includes-keys k d route)
]

includes-route_methods {ℓ} :
    {V : Type ℓ} (m : Dict (Dict V)) (route method : String)
    → is_some (get_in method (lookup route m)) ≡ true
    → includes (method <> ":" <> route) (route_methods m) ≡ true
unfolding route_methods
includes-route_methods [] route method h = cc
includes-route_methods ((r, d) ∷ m) route method h =
    let both =
      any-append (λ x. x == (method <> ":" <> route)) (map (λ k. k <> ":" <> r) (keys d))
        (route_methods m) in
    elim (text_cases r route) [
      | inl same ↦
          let here : is_some (lookup method d) ≡ true = ground (arith, eq_iff r route) in
          let named =
            subst (λ x. includes (method <> ":" <> x) (map (λ k. k <> ":" <> r) (keys d)) ≡ true)
              same (includes-keys method d r here) in
          ground (arith, both, named)
      | inr other ↦ ground (arith, both, eq_iff r route, includes-route_methods m route method)
    ]

any_of-includes :
    (x : String) (xs ys : List String)
    → any_of xs ys ≡ false
    → includes x xs ≡ true
    → includes x ys ≡ false
any_of-includes x [] ys h k = cc
any_of-includes x (z ∷ xs) ys h k = elim (text_cases z x) [
  | inl same ↦ ground (arith, same)
  | inr other ↦ ground (arith, eq_iff z x, any_of-includes x xs ys)
]

-- If the constructor of the plugin accepts the configured routes, a method that is listed under a
-- route as ignored has no dynamic operations under that route: what must be protected is never
-- listed as ignored.
pub new_plugin-disjoint :
    (r s : RouteTable) (route method : String)
    → new_plugin r ≡ ok s
    → is_some (get_in method (lookup route r.routes_ignored)) ≡ true
    → get_in method (lookup route r.dynamic_routes) ≡ none
unfolding new_plugin
new_plugin-disjoint r s route method made ignored =
    elim (Option-cases (get_in method (lookup route r.dynamic_routes))) [
      | inl free ↦ free
      | inr (ops, e) ↦
          let guarded = includes-route_methods r.dynamic_routes route method (rw e) in
          let listed = includes-route_methods r.routes_ignored route method ignored in
          let name = method <> ":" <> route in
          let apart =
            any_of-includes name (route_methods r.dynamic_routes)
              (route_methods r.routes_ignored) in
          absurd (ground (arith, apart, guarded, listed))
    ]
