-- ===== src/Http/Routes/Registration.antt =====
-- What a successful `add_route` leaves in the registry.
use menagerie.Prelude.{
  ◌≡◌, refl, sym, ap, subst, ◌∙◌, ◌≢◌, ◌⊎◌, inl, inr, Bool, true, false, not, Option, none, some,
  List, [], ◌++◌, arith, Bool-cases, any, Bytes, Result, ok, throw_if-eq-ok, bind-eq-ok,
  ok-injective, append-eq-nil,
}
use menagerie.Http.Method.{HttpMethod, unknown, index}
use menagerie.Http.Paths.{normalize_owned, normalize_lookup, starts_with_slash}
use menagerie.Http.Paths.Normalizing.{normalize_owned-eq-normalize_lookup}
use menagerie.Http.Routes.{
  RouteRegistry, or_throw, insert_route, add_route, find_route, add_exact, add_parametric,
  RouteConflictError,
}
use menagerie.Http.Routes.Templates.{PathSegment, RegistryError, parse_segments}
use menagerie.Http.Routes.Exact.{
  slot_at, slot_at-find_exact, slot_at-add_exact, slot_at-add_exact_kept,
}
use menagerie.Http.Routes.Parametric.{
  template_slot, template_slot-add_parametric, template_slot-add_parametric_kept,
}

not-false : (b : Bool) → not b ≡ false → b ≡ true
not-false true h = refl
not-false false h = cc

module _ {H : Type 0} where
  -- The checks that `add_route` has made when it returns.
  pub record Accepted (r : RouteRegistry H) (m : HttpMethod) (path : Bytes) (handler : Option H)
      (r' : RouteRegistry H) : Type 0 where
    pub unfrozen : r.frozen ≡ false
    pub known : m ≢ unknown
    pub rooted : starts_with_slash path ≡ true
    pub h : H
    pub given : handler ≡ some h
    pub segments : List PathSegment
    pub parsed : parse_segments (normalize_owned r.norm path) ≡ ok segments
    pub result : insert_route r m (normalize_owned r.norm path) segments h ≡ r'

  or_throw-eq-ok :
      (handler : Option H) (next : H → Result RegistryError (RouteRegistry H)) (r : RouteRegistry H)
      → or_throw handler next ≡ ok r
      → (h : H) × (handler ≡ some h) × (next h ≡ ok r)
  or_throw-eq-ok none next r e = cc
  or_throw-eq-ok (some h) next r e = (h, refl, e)

  pub add_route-Accepted :
      (r : RouteRegistry H) (m : HttpMethod) (path : Bytes) (handler : Option H)
      (r' : RouteRegistry H)
      → add_route r m path handler ≡ ok r'
      → Accepted r m path handler r'
  unfolding add_route
  add_route-Accepted r m path handler r' e =
      let (unfrozen, e1) = throw_if-eq-ok _ _ _ r' e in
      let (known, e2) = throw_if-eq-ok _ _ _ r' e1 in
      let (h, given, e3) = or_throw-eq-ok handler _ r' e2 in
      let (rooted, e4) = throw_if-eq-ok _ _ _ r' e3 in
      let (segments, parsed, e5) = bind-eq-ok _ _ e4 in
      record {
        unfrozen = unfrozen;
        known = λ q. ground (arith, ap index q);
        rooted = not-false _ rooted;
        h = h;
        given = given;
        segments = segments;
        parsed = parsed;
        result = ok-injective e5;
      }

  -- A key with a handler in the table of exact routes is resolved to it, without parameters.
  pub find_route_of_slot_at :
      (r : RouteRegistry H) (m : HttpMethod) (path : Bytes) (h : H)
      → slot_at r.exact (normalize_owned r.norm path) m ≡ some h
      → find_route r m path ≡ ok (record { handler = h; path_params = [] })
  unfolding find_route
  find_route_of_slot_at r m path h e =
      let (slots, found, held) =
        slot_at-find_exact r.exact (normalize_lookup r.norm path) m h
          (rw (← normalize_owned-eq-normalize_lookup r.norm path) e) in
      ground arith

  -- The route is served: a literal path resolves to its handler, and a template holds it.
  abbrev pub IsServed : RouteRegistry H → HttpMethod → Bytes → Option H → Type 0
  IsServed r m path handler =
      (h : H) × (segments : List PathSegment) × (handler ≡ some h)
      × (parse_segments (normalize_owned r.norm path) ≡ ok segments)
      × (((any (λ s. s.is_param) segments ≡ false)
            × (slot_at r.exact (normalize_owned r.norm path) m ≡ some h))
          ⊎ ((any (λ s. s.is_param) segments ≡ true)
              × (template_slot r.parametric segments m ≡ some h)))

  module _ (r : RouteRegistry H) (m : HttpMethod) (key : Bytes) (segments : List PathSegment)
      (h : H) where
    pub insert_literal :
        any (λ s. s.is_param) segments ≡ false
        → insert_route r m key segments h ≡ record r {
          exact = (add_exact m key h r.exact).0;
          conflicts = r.conflicts ++ (add_exact m key h r.exact).1;
        }
    unfolding insert_route
    insert_literal n = rw n

    pub insert_template :
        any (λ s. s.is_param) segments ≡ true
        → insert_route r m key segments h ≡ record r {
          parametric = (add_parametric m key segments h r.parametric).0;
          conflicts = r.conflicts ++ (add_parametric m key segments h r.parametric).1;
        }
    unfolding insert_route
    insert_template y = rw y

    -- The policy stays, the conflicts only grow, and what stands in the tables stays there.
    insert_route_kept :
        let r' = insert_route r m key segments h in
        (r'.norm ≡ r.norm)
        × ((c : List RouteConflictError) × (r'.conflicts ≡ r.conflicts ++ c))
        × ((k : Bytes) (n : HttpMethod) (g : H)
            → slot_at r.exact k n ≡ some g
            → slot_at r'.exact k n ≡ some g)
        × ((ts : List PathSegment) (n : HttpMethod) (g : H)
            → template_slot r.parametric ts n ≡ some g
            → template_slot r'.parametric ts n ≡ some g)
    insert_route_kept = elim (Bool-cases (any (λ s. s.is_param) segments)) [
      | inr n ↦
          rw (insert_literal n)
            (refl, (_, refl), (λ k. slot_at-add_exact_kept m key h r.exact k), λ ts n g e. e)
      | inl y ↦ rw (insert_template y) (
        refl,
        (_, refl),
        (λ k n g e. e),
        λ ts. template_slot-add_parametric_kept m key segments h r.parametric ts,
      )
    ]

  pub IsServed-kept :
      (r : RouteRegistry H) (m : HttpMethod) (key : Bytes) (segments : List PathSegment) (g : H)
      (n : HttpMethod) (path : Bytes) (handler : Option H)
      → IsServed r n path handler
      → IsServed (insert_route r m key segments g) n path handler
  IsServed-kept r m key segments g n path handler (h, ts, given, parsed, place) =
      let (norm, _, exact, templates) = insert_route_kept r m key segments g in
      (
        h,
        ts,
        given,
        ap (λ p. parse_segments (normalize_owned p path)) norm ∙ parsed,
        elim place [
          | inl (p, e) ↦ inl (p, rw norm (exact _ n h e))
          | inr (p, e) ↦ inr (p, templates ts n h e)
        ],
      )

  pub add_route-IsServed :
      (r r' : RouteRegistry H) (m : HttpMethod) (path : Bytes) (handler : Option H)
      → add_route r m path handler ≡ ok r'
      → r'.conflicts ≡ []
      → (r.conflicts ≡ []) × IsServed r' m path handler
  add_route-IsServed r r' m path handler e none_left =
      let a = add_route-Accepted r m path handler r' e in
      elim (Bool-cases (any (λ s. s.is_param) a.segments)) [
        | inr n ↦
            let same = sym (insert_literal r m _ a.segments a.h n) ∙ a.result in
            let (before, now) =
              append-eq-nil r.conflicts _ (ap (λ q. q.conflicts) same ∙ none_left) in
            (
              before,
              subst (λ q. IsServed q m path handler) same
                  (
                    a.h,
                    a.segments,
                    a.given,
                    a.parsed,
                    inl (n, slot_at-add_exact m _ a.h r.exact now),
                  ),
            )
        | inl y ↦
            let same = sym (insert_template r m _ a.segments a.h y) ∙ a.result in
            let (before, now) =
              append-eq-nil r.conflicts _ (ap (λ q. q.conflicts) same ∙ none_left) in
            (
              before,
              subst (λ q. IsServed q m path handler) same
                  (
                    a.h,
                    a.segments,
                    a.given,
                    a.parsed,
                    inr (y, template_slot-add_parametric m _ a.segments a.h r.parametric now),
                  ),
            )
      ]
