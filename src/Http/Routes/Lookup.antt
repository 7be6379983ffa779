-- ===== src/Http/Routes/Lookup.antt =====
-- From registration to lookup: which registered routes a frozen registry serves, and what its
-- errors mean.
use menagerie.Prelude.{
  ◌≡◌, ap, subst, ◌∙◌, ◌⊎◌, inl, inr, true, false, Option, some, List, [], ◌∷◌, arith, any, All,
  All-map, Bytes, Result, ok, ◌>>=◌, bind-eq-ok, ok-injective, none, sym, ◌≢◌, Option-cases,
  some-injective,
}
use menagerie.Http.Method.{HttpMethod}
use menagerie.Http.Paths.{normalize_owned, normalize_lookup}
use menagerie.Http.Routes.{
  RouteRegistry, ParamTemplate, add_route, freeze, find_route, find_exact, find_parametric,
}
use menagerie.Http.Routes.Matching.{match_template}
use menagerie.Http.Routes.Templates.{PathSegment, RegistryError, parse_segments}
use menagerie.Http.Routes.Parametric.{template_slot, template_slot-cases}
use menagerie.Http.Routes.Registration.{
  add_route-Accepted, IsServed, IsServed-kept, add_route-IsServed, find_route_of_slot_at,
}

-- The arguments of one `add_route`.
pub record Registration (H : Type 0) : Type 0 where
  pub method : HttpMethod
  pub path : Bytes
  pub handler : Option H

module _ {H : Type 0} where
  -- The build phase: one `add_route` after the other.
  unfoldable pub register_all :
      RouteRegistry H → List (Registration H) → Result RegistryError (RouteRegistry H)
  register_all r [] = ok r
  register_all r (x ∷ xs) = add_route r x.method x.path x.handler >>= λ r'. register_all r' xs

  -- The template that a path reaches: none if the path is a key of the exact table, and else the
  -- first template that matches it.
  abbrev pub first_match : Bytes → List (ParamTemplate H) → Option (List PathSegment)
  first_match key [] = none
  first_match key (t ∷ templates) =
      let rest = first_match key templates in
      elim (match_template t.segments key) [ none ↦ rest | some params ↦ some t.segments ]

  abbrev pub reached : RouteRegistry H → Bytes → Option (List PathSegment)
  reached r path =
      let template = first_match (normalize_lookup r.norm path) r.parametric in
      elim (find_exact (normalize_lookup r.norm path) r.exact) [
        | some slots ↦ none
        | none ↦ template
      ]

  -- What lookup does with a registered route. The path of a literal one resolves to its handler,
  -- without parameters. A requested path that reaches the template of a parametric one resolves to
  -- its handler, with the values that the template captures.
  abbrev pub Serves : RouteRegistry H → Bytes → Registration H → Type 0
  Serves r path x =
      (h : H) × (segments : List PathSegment) × (x.handler ≡ some h)
      × (parse_segments (normalize_owned r.norm x.path) ≡ ok segments)
      × (((any (λ s. s.is_param) segments ≡ false)
            × (find_route r x.method x.path ≡ ok (record { handler = h; path_params = [] })))
          ⊎ ((any (λ s. s.is_param) segments ≡ true)
              × ((reached r path ≢ some segments)
                  ⊎ ((params : List (Bytes × Bytes)) × (match_template segments
                          (normalize_lookup r.norm path)
                        ≡ some params)
                      × (find_route r x.method path
                          ≡ ok (record { handler = h; path_params = params }))))))

  abbrev Keeps : RouteRegistry H → RouteRegistry H → Type 0
  Keeps r r' =
      (m : HttpMethod) (path : Bytes) (handler : Option H)
      → IsServed r m path handler
      → IsServed r' m path handler

  add_route-Keeps :
      (r r' : RouteRegistry H) (x : Registration H)
      → add_route r x.method x.path x.handler ≡ ok r'
      → Keeps r r'
  add_route-Keeps r r' x e m path handler s =
      let a = add_route-Accepted r x.method x.path x.handler r' e in
      subst (λ q. IsServed q m path handler) a.result (IsServed-kept r _ _ _ a.h m path handler s)

  register_all-IsServed :
      (r r' : RouteRegistry H) (xs : List (Registration H))
      → register_all r xs ≡ ok r'
      → r'.conflicts ≡ []
      → (r.conflicts ≡ []) × Keeps r r' × All (λ x. IsServed r' x.method x.path x.handler) xs
  unfolding register_all
  register_all-IsServed r r' [] e n =
      let same = ok-injective e in
      ((ap (λ q. q.conflicts) same ∙ n), (λ m p h s. subst (λ q. IsServed q m p h) same s), tt)
  register_all-IsServed r r' (x ∷ xs) e n =
      let (r1, added, e') = bind-eq-ok _ _ e in
      let (none_later, keeps, served) = register_all-IsServed r1 r' xs e' n in
      let (none_before, here) =
        add_route-IsServed r r1 x.method x.path x.handler added none_later in
      (
        none_before,
        (λ m p h s. keeps m p h (add_route-Keeps r r1 x added m p h s)),
        (keeps x.method x.path x.handler here, served),
      )

  -- The template that is reached matches.
  first_match-matches :
      (key : Bytes) (templates : List (ParamTemplate H)) (segments : List PathSegment)
      → first_match key templates ≡ some segments
      → match_template segments key ≢ none
  first_match-matches key [] segments e n = absurd cc
  first_match-matches key (t ∷ templates) segments e n =
      elim (Option-cases (match_template t.segments key)) [
        | inl m ↦ first_match-matches key templates segments (rw (m, first_match) at e) n
        | inr (ps, m) ↦
            let same : some t.segments ≡ some segments = rw (m, first_match) at e in
            let never : match_template t.segments key ≡ none =
              subst (λ s. match_template s key ≡ none) (sym (some-injective same)) n in
            absurd cc
      ]

  -- A handler in a template is what lookup answers where the path reaches the template.
  find_parametric-template_slot :
      (m : HttpMethod) (key : Bytes) (segments : List PathSegment) (h : H)
      (templates : List (ParamTemplate H))
      → template_slot templates segments m ≡ some h
      → (first_match key templates ≢ some segments)
        ⊎ ((params : List (Bytes × Bytes)) × (match_template segments key ≡ some params)
            × (find_parametric m key templates ≡ ok (record { handler = h; path_params = params })))
  unfolding find_parametric
  find_parametric-template_slot m key segments h [] e = inl (λ q. cc)
  find_parametric-template_slot m key segments h (t ∷ templates) e =
      elim (Option-cases (match_template t.segments key)) [
        | inl n ↦
            rw (n, find_parametric, first_match)
              (elim (template_slot-cases t templates segments m h e) [
                | inl (same, _) ↦ inl (λ q.
                    first_match-matches key templates segments q
                      (subst (λ s. match_template s key ≡ none) same n))
                | inr (_, behind) ↦ find_parametric-template_slot m key segments h templates behind
              ])
        | inr (ps, y) ↦
            rw (y, find_parametric, first_match)
              (elim (template_slot-cases t templates segments m h e) [
                | inl (same, held) ↦
                    inr
                      (ps, subst (λ s. match_template s key ≡ some ps) same y, ground (arith, held))
                | inr (other, _) ↦ inl (λ q. other (some-injective q))
              ])
      ]

  find_route_of_template_slot :
      (r : RouteRegistry H) (m : HttpMethod) (path : Bytes) (segments : List PathSegment) (h : H)
      → template_slot r.parametric segments m ≡ some h
      → (reached r path ≢ some segments)
        ⊎ ((params : List (Bytes × Bytes)) × (match_template segments (normalize_lookup r.norm path)
              ≡ some params)
            × (find_route r m path ≡ ok (record { handler = h; path_params = params })))
  unfolding find_route
  find_route_of_template_slot r m path segments h e =
      elim (Option-cases (find_exact (normalize_lookup r.norm path) r.exact)) [
        | inr (slots, f) ↦ inl (rw (f, reached) (λ q. cc))
        | inl f ↦
            rw (f, find_route, reached)
              (find_parametric-template_slot m (normalize_lookup r.norm path) segments h
                r.parametric e)
      ]

  IsServed-Serves :
      (r : RouteRegistry H) (path : Bytes) (x : Registration H)
      → IsServed r x.method x.path x.handler
      → Serves (freeze r).0 path x
  unfolding freeze
  IsServed-Serves r path x (h, segments, given, parsed, place) = (
    h,
    segments,
    given,
    parsed,
    elim place [
      | inl (p, e) ↦ inl (p, find_route_of_slot_at _ x.method x.path h e)
      | inr (p, e) ↦ inr (p, find_route_of_template_slot _ x.method path segments h e)
    ],
  )

  -- If the build phase throws nothing and `freeze` reports no conflict, then the frozen registry
  -- serves every registered route: the path of a literal one resolves to its own handler without
  -- parameters; and for any requested path, a parametric one whose template is the first that
  -- matches it, if the path is no key of the exact table, answers it with its own handler and the
  -- values that the template captures.
  pub register_all-Serves :
      (r r' : RouteRegistry H) (xs : List (Registration H)) (path : Bytes)
      → register_all r xs ≡ ok r'
      → (freeze r').1 ≡ []
      → All (Serves (freeze r').0 path) xs
  register_all-Serves r r' xs path e n =
      All-map _ _ (λ x s. IsServed-Serves r' path x s) xs
        ((register_all-IsServed r r' xs e (unfold freeze in n)).2)
