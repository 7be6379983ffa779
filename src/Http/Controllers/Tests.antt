-- ===== src/Http/Controllers/Tests.antt =====
-- Baking a concrete controller.
use menagerie.Prelude.{ℕ, ◌≡◌, refl, true, false, none, some, List, [], ◌∷◌, bytes, Result, ok, err}
use menagerie.Http.Method.{get}
use menagerie.Http.Paths.{collapse_trailing_slash}
use menagerie.Http.Routes.{RouteRegistry}
use menagerie.Http.Routes.Templates.{RegistryError}
use menagerie.Http.Routes.Lookup.{register_all}
use menagerie.Http.Controllers.{
  GroupBinding, Middleware, wrap_with_middleware, LocalRoute, HttpController, bake_into,
  wrong_controller_type,
}
use menagerie.Http.Controllers.Baking.{registrations}

abbrev trace : ℕ → Middleware ℕ (List ℕ)
trace n ctx next = n ∷ next ctx

abbrev show : ℕ → List ℕ
show ctx = ctx ∷ []

in_order : wrap_with_middleware show (trace 1 ∷ trace 2 ∷ []) 9 ≡ (1 ∷ 2 ∷ 9 ∷ [])
unfolding wrap_with_middleware
in_order = refl

abbrev fresh : RouteRegistry (ℕ → List ℕ)
fresh = record {
  frozen = false;
  norm = collapse_trailing_slash;
  exact = [];
  parametric = [];
  conflicts = [];
}

abbrev or_fresh : Result RegistryError (RouteRegistry (ℕ → List ℕ)) → RouteRegistry (ℕ → List ℕ)
or_fresh (ok r) = r
or_fresh (err e) = fresh

abbrev route : LocalRoute ℕ (List ℕ)
route = record {
  method = get;
  path = bytes "/x";
  bake = λ mws. some (wrap_with_middleware show mws);
}

abbrev ctrl : HttpController ℕ (List ℕ)
ctrl = record {
  configured = true;
  baked = false;
  local_routes = route ∷ [];
  middlewares = trace 1 ∷ [];
}

registered : RouteRegistry (ℕ → List ℕ)
registered =
    or_fresh (register_all fresh (registrations ctrl.middlewares (bytes "/api") (route ∷ [])))

abbrev top : GroupBinding ℕ (List ℕ)
top = record { registry = fresh; controllers = []; prefix = bytes "/api/" }

-- A member function of another controller type.
abbrev foreign : LocalRoute ℕ (List ℕ)
foreign = record { method = get; path = bytes "/y"; bake = λ mws. none }

cross_controller_member :
    (bake_into (λ c. c) fresh (some (record ctrl { local_routes = foreign ∷ [] })) []).0
    ≡ some wrong_controller_type
unfolding bake_into
cross_controller_member = refl
