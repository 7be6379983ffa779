-- ===== src/Http/Controllers.antt =====
-- component/http-albatross/routing/controller/controller.cpp and routing/group/group.hpp: baking a
-- controller's routes into the registry, under a group's prefix and its middleware.
-- A controller is its state; `configure_routes`, which a derived class supplies, is a function on it.
-- A bake that throws has changed the registry and the controller all the same.
pub mod Baking
pub mod Tests
use menagerie.Prelude.{
  ℕ, zero, suc, ◌+◌, ◌-◌, ◌*◌, ◌/◌, ◌%◌, ◌^◌, ◌≤◌, ◌<◌, min, max, String, ◌≡◌, refl, sym, ap, subst,
  ◌∙◌, ◌≡⟨◌⟩◌, ◌∎, ◌≢◌, ◌↔◌, ◌⊎◌, inl, inr, Bool, true, false, not, ◌&&◌, ◌||◌, Option, none, some,
  List, [], ◌∷◌, ◌++◌, map, append_assoc, append-nil, arith, ltb, leb, ◌==◌, if◌then◌else◌, ltb→lt,
  lt→ltb, leb→le, ==_iff, ==-eq-false, tests, Bool-cases, Option-cases, and-eq-true, length,
  get_elem?, take, drop, is_empty, any, length-append, take-append-drop, length-take, length-drop,
  All, All-append, All-map, Bytes, bytes, bytes_eq, bytes_eq_refl, bytes_eq_iff, last?, pop_back,
  pop_back-append-last, last?-append-last, is_empty-append, append-eq-nil, Result, ok, err, ◌>>=◌,
  throw_if, Result-cases, throw_if-eq-ok, bind-eq-ok, ok-injective, some-injective, map-eq-some,
}
use menagerie.Http.Method.{HttpMethod}
use menagerie.Http.Paths.{join_path}
use menagerie.Http.Routes.{RouteRegistry, add_route}
use menagerie.Http.Routes.Templates.{RegistryError}

abbrev pub Middleware : Type 0 → Type 0 → Type 0
Middleware Ctx R = Ctx → (Ctx → R) → R

abbrev pub reverse_view : {A : Type 0} → List A → List A → List A
reverse_view [] done = done
reverse_view (a ∷ rest) done = reverse_view rest (a ∷ done)

module _ {Ctx R : Type 0} where
  -- The loop over the middlewares, from the last one on.
  unfoldable pub wrap_rounds : (Ctx → R) → List (Middleware Ctx R) → Ctx → R
  wrap_rounds inner [] = inner
  wrap_rounds inner (mw ∷ middlewares) = wrap_rounds (λ ctx. mw ctx inner) middlewares

  unfoldable pub wrap_with_middleware : (Ctx → R) → List (Middleware Ctx R) → Ctx → R
  unfolding wrap_rounds
  wrap_with_middleware inner middlewares = wrap_rounds inner (reverse_view middlewares [])

-- A local route: `bake`, which has the controller already, makes the handler from the middlewares.
-- It gives none where it throws: `typed_self` finds a member function of another controller type.
pub record LocalRoute (Ctx R : Type 0) : Type 0 where
  pub method : HttpMethod
  pub path : Bytes
  pub bake : List (Middleware Ctx R) → Option (Ctx → R)

pub record HttpController (Ctx R : Type 0) : Type 0 where
  pub configured : Bool
  pub baked : Bool
  pub local_routes : List (LocalRoute Ctx R)
  pub middlewares : List (Middleware Ctx R)

pub data BakeError : Type 0 where
  null_controller already_baked wrong_controller_type : BakeError
  registry_error : RegistryError → BakeError

module _ {Ctx R : Type 0} where
  -- The loop over the local routes: what it threw, and the registry after it.
  unfoldable pub bake_routes :
      List (Middleware Ctx R)
      → Bytes
      → RouteRegistry (Ctx → R)
      → List (LocalRoute Ctx R)
      → Option BakeError × RouteRegistry (Ctx → R)
  unfolding add_route join_path
  bake_routes middlewares prefix registry [] = (none, registry)
  bake_routes middlewares prefix registry (x ∷ xs) = elim (x.bake middlewares) [
    | none ↦ (some wrong_controller_type, registry)
    | some h ↦ elim (add_route registry x.method (join_path prefix x.path) (some h)) [
      | err e ↦ (some (registry_error e), registry)
      | ok r ↦ bake_routes middlewares prefix r xs
    ]
  ]

  -- `configure_routes` once, then the mark that comes before the routes are drained.
  abbrev pub marked :
      (HttpController Ctx R → HttpController Ctx R) → HttpController Ctx R → HttpController Ctx R
  marked configure_routes ctrl =
      if not ctrl.configured
      then record (configure_routes ctrl) { configured = true; baked = true }
      else record ctrl { baked = true }

  abbrev pub cleared : Option BakeError → HttpController Ctx R → HttpController Ctx R
  cleared none ctrl = record ctrl { local_routes = [] }
  cleared (some thrown) ctrl = ctrl

  unfoldable pub bake_into :
      (HttpController Ctx R → HttpController Ctx R)
      → RouteRegistry (Ctx → R)
      → Option (HttpController Ctx R)
      → Bytes
      → Option BakeError × RouteRegistry (Ctx → R) × Option (HttpController Ctx R)
  unfolding bake_routes
  bake_into configure_routes registry none prefix = (some null_controller, registry, none)
  bake_into configure_routes registry (some ctrl) prefix =
      let c = marked configure_routes ctrl in
      let (thrown, r) = bake_routes c.middlewares prefix registry c.local_routes in
      if ctrl.baked
      then (some already_baked, registry, some ctrl)
      else (thrown, r, some (cleared thrown c))

-- group.hpp. The registry and the list of controllers are the server's, which the group refers to.
pub record GroupBinding (Ctx R : Type 0) : Type 0 where
  pub registry : RouteRegistry (Ctx → R)
  pub controllers : List (Option (HttpController Ctx R))
  pub prefix : Bytes

module _ {Ctx R : Type 0} where
  abbrev pub recorded :
      GroupBinding Ctx R
      → Option BakeError × RouteRegistry (Ctx → R) × Option (HttpController Ctx R)
      → Option BakeError × GroupBinding Ctx R
  recorded group (none, r, ctrl) =
      (none, record group { registry = r; controllers = group.controllers ++ ctrl ∷ [] })
  recorded group (some thrown, r, ctrl) = (some thrown, record group { registry = r })

  unfoldable pub add_controller :
      (HttpController Ctx R → HttpController Ctx R)
      → Option (HttpController Ctx R)
      → GroupBinding Ctx R
      → Option BakeError × GroupBinding Ctx R
  unfolding bake_into
  add_controller configure_routes ctrl group =
      recorded group (bake_into configure_routes group.registry ctrl group.prefix)

  unfoldable pub in_group : Bytes → GroupBinding Ctx R → GroupBinding Ctx R
  unfolding join_path
  in_group sub_prefix group = record group { prefix = join_path group.prefix sub_prefix }
