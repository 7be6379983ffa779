-- ===== src/Http/Dispatch.antt =====
-- component/http-albatross/routing/router: dispatch of a request, with and without hooks, and what
-- it uses of types/request_context.
-- A handler's coroutine is run to its end: it answers a response or lets an exception escape. The
-- hooks observe, so their calls are a list of events, and which are set is all that is kept.
pub mod Observers
pub mod Tests
use menagerie.Prelude.{
  ℕ, zero, suc, ◌+◌, ◌-◌, ◌*◌, ◌/◌, ◌%◌, ◌^◌, ◌≤◌, ◌<◌, min, max, String, ◌≡◌, refl, sym, ap, subst,
  ◌∙◌, ◌≡⟨◌⟩◌, ◌∎, ◌≢◌, ◌↔◌, ◌⊎◌, inl, inr, Bool, true, false, not, ◌&&◌, ◌||◌, Option, none, some,
  List, [], ◌∷◌, ◌++◌, map, append_assoc, append-nil, arith, ltb, leb, ◌==◌, if◌then◌else◌, ltb→lt,
  lt→ltb, leb→le, ==_iff, ==-eq-false, tests, Bool-cases, Option-cases, and-eq-true, length,
  get_elem?, take, drop, is_empty, any, length-append, take-append-drop, length-take, length-drop,
  All, All-append, All-map, Bytes, bytes, bytes_eq, bytes_eq_refl, bytes_eq_iff, last?, pop_back,
  pop_back-append-last, last?-append-last, is_empty-append, append-eq-nil, Result, ok, err, ◌>>=◌,
  throw_if, Result-cases, throw_if-eq-ok, bind-eq-ok, ok-injective, some-injective, map-eq-some,
}
use menagerie.Http.Method.{HttpMethod}
use menagerie.Http.Headers.{Field}
use menagerie.Http.Responses.{
  Response, HttpError, to_http_response, not_found_error, method_not_allowed_error,
}
use menagerie.Http.Routes.{
  RouteRegistry, ResolvedRoute, RoutingError, not_found, method_not_allowed, find_route,
}

pub record RequestContext : Type 0 where
  pub method : HttpMethod
  pub target : Bytes
  pub path_params : List Field

-- The target before its first `?`.
unfoldable pub path_of : Bytes → Bytes
path_of [] = []
path_of (c ∷ t) = let rest = c ∷ path_of t in if c == 63 then [] else rest

abbrev pub set_path_param : Field → RequestContext → RequestContext
set_path_param p ctx = record ctx { path_params = ctx.path_params ++ p ∷ [] }

-- `for (const auto& [name, value] : path_params)`.
unfoldable pub set_path_params : List Field → RequestContext → RequestContext
set_path_params [] ctx = ctx
set_path_params (p ∷ params) ctx = set_path_params params (set_path_param p ctx)

unfoldable pub raw_path_param : Bytes → List Field → Option Bytes
unfolding bytes_eq
raw_path_param name [] = none
raw_path_param name ((k, v) ∷ params) =
    let rest = raw_path_param name params in if bytes_eq k name then some v else rest

pub record Hooks : Type 0 where
  pub on_request : Bool
  pub on_response : Bool
  pub on_unhandled_exception : Bool

pub data Event (X : Type 0) : Type 0 where
  requested : RequestContext → Event X
  responded : HttpMethod → Bytes → Response → Event X
  unhandled : X → Event X

abbrev pub ContextHandler : Type 0 → Type 0
ContextHandler X = RequestContext → Result X Response

-- The `std::visit` over a routing error; `decimal` is how a stream prints a number.
unfoldable pub routing_error_response : (ℕ → Bytes) → RoutingError → Response
unfolding to_http_response
routing_error_response decimal (not_found path) =
    to_http_response decimal (not_found_error (bytes "route") path)
routing_error_response decimal (method_not_allowed allowed) =
    to_http_response decimal (method_not_allowed_error allowed)

abbrev pub fire : {X : Type 0} → Bool → Event X → List (Event X)
fire set event = if set then event ∷ [] else []

abbrev pub call_handler :
    {X : Type 0} → RequestContext → ResolvedRoute (ContextHandler X) → Result X Response
call_handler ctx resolved = resolved.handler (set_path_params resolved.path_params ctx)

-- The `try` block and its `catch (...)`.
abbrev pub observe :
    {X : Type 0} → Hooks → RequestContext → Result X Response → Result X Response × List (Event X)
observe hooks ctx (ok r) = (ok r, fire hooks.on_response (responded ctx.method ctx.target r))
observe hooks ctx (err thrown) = (err thrown, fire hooks.on_unhandled_exception (unhandled thrown))

module _ {X : Type 0} (decimal : ℕ → Bytes) (registry : RouteRegistry (ContextHandler X)) where
  abbrev pub resolve : RequestContext → Result RoutingError (ResolvedRoute (ContextHandler X))
  resolve ctx = find_route registry ctx.method (path_of ctx.target)

  abbrev pub missed_or_routed :
      Hooks
      → RequestContext
      → Result RoutingError (ResolvedRoute (ContextHandler X))
      → Result X Response × List (Event X)
  missed_or_routed hooks ctx (err e) =
      let r = routing_error_response decimal e in
      (ok r, fire hooks.on_response (responded ctx.method ctx.target r))
  missed_or_routed hooks ctx (ok resolved) = observe hooks ctx (call_handler ctx resolved)

  unfoldable pub dispatch_with_hooks : Hooks → RequestContext → Result X Response × List (Event X)
  unfolding find_route path_of set_path_params routing_error_response
  dispatch_with_hooks hooks ctx =
      let (outcome, events) = missed_or_routed hooks ctx (resolve ctx) in
      (outcome, fire hooks.on_request (requested ctx) ++ events)

  abbrev pub without_hooks :
      RequestContext → Result RoutingError (ResolvedRoute (ContextHandler X)) → Result X Response
  without_hooks ctx (err e) = ok (routing_error_response decimal e)
  without_hooks ctx (ok resolved) = call_handler ctx resolved

  unfoldable pub dispatch : Hooks → RequestContext → Result X Response × List (Event X)
  unfolding dispatch_with_hooks find_route path_of set_path_params routing_error_response
  dispatch hooks ctx =
      if hooks.on_request || hooks.on_response || hooks.on_unhandled_exception
      then dispatch_with_hooks hooks ctx
      else (without_hooks ctx (resolve ctx), [])
