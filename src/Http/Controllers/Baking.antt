-- ===== src/Http/Controllers/Baking.antt =====
-- The order of middleware, and what baking a controller does to the registry and to itself.
use menagerie.Prelude.{◌≡◌, refl, ap, Option, List, [], ◌∷◌, Bytes}
use menagerie.Http.Paths.{join_path}
use menagerie.Http.Paths.Joining.{join_path_assoc}
use menagerie.Http.Routes.Lookup.{Registration}
use menagerie.Http.Controllers.{
  GroupBinding, add_controller, in_group, Middleware, reverse_view, wrap_rounds,
  wrap_with_middleware, LocalRoute, HttpController,
}

module _ {Ctx R : Type 0} where
  -- The first middleware outermost, each with the rest of the chain as its next handler.
  pub nest : (Ctx → R) → List (Middleware Ctx R) → Ctx → R
  nest inner [] = inner
  nest inner (mw ∷ middlewares) = λ ctx. mw ctx (nest inner middlewares)

  rounds-reverse_view :
      (inner : Ctx → R) (rest done : List (Middleware Ctx R)) (handler : Ctx → R)
      → wrap_rounds inner (reverse_view rest done) ≡ wrap_rounds (nest inner rest) done
  unfolding wrap_rounds nest
  rounds-reverse_view inner [] done handler = refl
  rounds-reverse_view inner (mw ∷ rest) done handler =
      rounds-reverse_view inner rest (mw ∷ done) handler

  -- The wrapped handler is the middlewares nested in their order, the first one outermost: it is
  -- the first that a request meets, and the handler is the last.
  pub wrap_with_middleware-eq-nest :
      (inner : Ctx → R) (middlewares : List (Middleware Ctx R))
      → wrap_with_middleware inner middlewares ≡ nest inner middlewares
  unfolding wrap_with_middleware wrap_rounds
  wrap_with_middleware-eq-nest inner middlewares = rounds-reverse_view inner middlewares [] inner

  -- What a controller's routes ask of the registry under a prefix, with no handler for a route whose
  -- bake throws.
  abbrev pub registrations :
      List (Middleware Ctx R) → Bytes → List (LocalRoute Ctx R) → List (Registration (Ctx → R))
  registrations middlewares prefix [] = []
  registrations middlewares prefix (x ∷ xs) =
      record { method = x.method; path = join_path prefix x.path; handler = x.bake middlewares }
      ∷ registrations middlewares prefix xs

module _ {Ctx R : Type 0} where
  -- Adding a controller to a group nested in a group is adding it to the group of the joined
  -- prefix: what it throws, the registry, and the controllers recorded are the same, whatever
  -- slashes the prefixes begin or end with.
  pub add_controller-in_group :
      (configure_routes : HttpController Ctx R → HttpController Ctx R)
      (ctrl : Option (HttpController Ctx R)) (a b : Bytes) (group : GroupBinding Ctx R)
      → add_controller configure_routes ctrl (in_group b (in_group a group))
        ≡ add_controller configure_routes ctrl (in_group (join_path a b) group)
  unfolding in_group
  add_controller-in_group configure_routes ctrl a b group =
      ap (λ prefix. add_controller configure_routes ctrl (record group { prefix = prefix }))
        (join_path_assoc group.prefix a b)
