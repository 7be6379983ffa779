-- ===== src/Http/Dispatch/Tests.antt =====
-- Dispatch at a concrete registry.
use menagerie.Prelude.{ℕ, ◌≡◌, refl, true, false, none, some, [], Bytes, bytes, Result, ok, err}
use menagerie.Http.Method.{get}
use menagerie.Http.Paths.{collapse_trailing_slash}
use menagerie.Http.Responses.{okay, with_body, plain}
use menagerie.Http.Routes.{RouteRegistry, add_route}
use menagerie.Http.Routes.Templates.{RegistryError}
use menagerie.Http.Dispatch.{RequestContext, Hooks, ContextHandler, dispatch, raw_path_param}
use menagerie.Http.Dispatch.Observers.{told, dispatch-told}

abbrev greet : ContextHandler ℕ
greet ctx = elim (raw_path_param (bytes "id") ctx.path_params) [
  | some v ↦ ok (plain okay v)
  | none ↦ err 7
]

abbrev fresh : RouteRegistry (ContextHandler ℕ)
fresh = record {
  frozen = false;
  norm = collapse_trailing_slash;
  exact = [];
  parametric = [];
  conflicts = [];
}

abbrev or_fresh :
    Result RegistryError (RouteRegistry (ContextHandler ℕ)) → RouteRegistry (ContextHandler ℕ)
or_fresh (ok r) = r
or_fresh (err e) = fresh

hello : RouteRegistry (ContextHandler ℕ)
hello = or_fresh (add_route fresh get (bytes "/hello/{id}") (some greet))

abbrev no_decimals : ℕ → Bytes
no_decimals n = []

abbrev all_set : Hooks
all_set = record { on_request = true; on_response = true; on_unhandled_exception = true }

abbrev asked : RequestContext
asked = record { method = get; target = bytes "/hello/ann?x=1"; path_params = [] }

answered : (dispatch no_decimals hello all_set asked).0 ≡ ok (plain okay (bytes "ann"))
unfolding hello add_route dispatch raw_path_param with_body
answered = refl

dispatch-told_example :
    let none_set : Hooks = record {
      on_request = false;
      on_response = false;
      on_unhandled_exception = false;
    } in
    let outcome = (dispatch no_decimals hello none_set asked).0 in
    dispatch no_decimals hello all_set asked ≡ (outcome, told all_set asked outcome)
dispatch-told_example = dispatch-told no_decimals hello all_set asked
