-- ===== src/Http/Dispatch/Observers.antt =====
-- The hooks observe a request and change nothing of it.
use menagerie.Prelude.{
  ℕ, ◌≡◌, refl, sym, ap, inl, inr, Bool, true, false, ◌||◌, List, [], ◌++◌, Bool-cases, Bytes,
  Result, ok, err,
}
use menagerie.Http.Responses.{Response}
use menagerie.Http.Routes.{RouteRegistry, ResolvedRoute, RoutingError}
use menagerie.Http.Dispatch.{
  RequestContext, Hooks, Event, requested, responded, unhandled, ContextHandler, fire, observe,
  call_handler, resolve, missed_or_routed, dispatch_with_hooks, without_hooks, dispatch,
}

-- What the hooks that are set are told of a request with this outcome: its start, then its response
-- or the exception that escaped.
pub told : {X : Type 0} → Hooks → RequestContext → Result X Response → List (Event X)
told hooks ctx (ok r) =
    fire hooks.on_request (requested ctx)
    ++ fire hooks.on_response (responded ctx.method ctx.target r)
told hooks ctx (err thrown) =
    fire hooks.on_request (requested ctx) ++ fire hooks.on_unhandled_exception (unhandled thrown)

or-eq-false : (a b : Bool) → (a || b) ≡ false → (a ≡ false) × (b ≡ false)
or-eq-false true b h = cc
or-eq-false false b h = (refl, h)

module _ {X : Type 0} (decimal : ℕ → Bytes) (registry : RouteRegistry (ContextHandler X)) where
  observe-told :
      (hooks : Hooks) (ctx : RequestContext) (outcome : Result X Response)
      → ◌≡◌ {A = Result X Response × List (Event X)}
          (
            (observe hooks ctx outcome).0,
            fire hooks.on_request (requested ctx) ++ (observe hooks ctx outcome).1,
          )
          (outcome, told hooks ctx outcome)
  unfolding told
  observe-told hooks ctx (ok r) = refl
  observe-told hooks ctx (err thrown) = refl

  routed-told :
      (hooks : Hooks) (ctx : RequestContext)
      (found : Result RoutingError (ResolvedRoute (ContextHandler X)))
      → ◌≡◌ {A = Result X Response × List (Event X)}
          (
            (missed_or_routed decimal registry hooks ctx found).0,
            fire hooks.on_request (requested ctx)
                ++ (missed_or_routed decimal registry hooks ctx found).1,
          )
          (
            without_hooks decimal registry ctx found,
            told hooks ctx (without_hooks decimal registry ctx found),
          )
  unfolding told
  routed-told hooks ctx (err e) = refl
  routed-told hooks ctx (ok resolved) = observe-told hooks ctx (call_handler ctx resolved)

  abbrev unset : Hooks
  unset = record { on_request = false; on_response = false; on_unhandled_exception = false }

  told_unset :
      (hooks : Hooks) (ctx : RequestContext) (outcome : Result X Response)
      → (hooks.on_request || hooks.on_response || hooks.on_unhandled_exception) ≡ false
      → told hooks ctx outcome ≡ []
  unfolding told
  told_unset hooks ctx (ok r) n =
      let (rest, thrown) =
        or-eq-false (hooks.on_request || hooks.on_response) hooks.on_unhandled_exception n in
      let (start, response) = or-eq-false hooks.on_request hooks.on_response rest in
      rw (start, response)
  told_unset hooks ctx (err e) n =
      let (rest, thrown) =
        or-eq-false (hooks.on_request || hooks.on_response) hooks.on_unhandled_exception n in
      let (start, response) = or-eq-false hooks.on_request hooks.on_response rest in
      rw (start, thrown)

  -- Whichever hooks are set, dispatch has the outcome that it has with none set, so the path
  -- without hooks and the coroutine with them agree; and the hooks that are set are told of the
  -- request, then of its response (a 404 or 405 for a miss included) or of the exception that
  -- escaped the handler, and of nothing else.
  pub dispatch-told :
      (hooks : Hooks) (ctx : RequestContext)
      → let outcome = (dispatch decimal registry unset ctx).0 in
        dispatch decimal registry hooks ctx ≡ (outcome, told hooks ctx outcome)
  unfolding dispatch dispatch_with_hooks
  dispatch-told hooks ctx =
      let found = resolve decimal registry ctx in
      let outcome = without_hooks decimal registry ctx found in
      elim (Bool-cases (hooks.on_request || hooks.on_response || hooks.on_unhandled_exception)) [
        | inl y ↦ rw y (routed-told hooks ctx found)
        | inr n ↦ rw n (ap (λ events. (outcome, events)) (sym (told_unset hooks ctx outcome n)))
      ]
