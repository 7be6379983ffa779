-- ===== src/Http/Routes/Unknown.antt =====
-- The slot of `HttpMethod::unknown` stays empty.
use menagerie.Prelude.{
  ◌≡◌, refl, sym, ap, subst, ◌∙◌, ◌≢◌, inl, inr, Option, none, some, List, [], ◌∷◌, arith,
  Bool-cases, Option-cases, any, All, Bytes, bytes_eq, ok, bind-eq-ok, ok-injective,
}
use menagerie.Http.Method.{HttpMethod, unknown, index}
use menagerie.Http.Method.Laws.{index_injective}
use menagerie.Http.Paths.{normalize_lookup}
use menagerie.Http.Routes.{
  RouteRegistry, MethodSlots, ParamTemplate, ResolvedRoute, set_slot, empty_slots, add_exact,
  add_parametric, insert_route, find_exact, find_parametric, find_route, answer,
}
use menagerie.Http.Routes.Templates.{PathSegment}
use menagerie.Http.Routes.Matching.{match_template}
use menagerie.Http.Routes.Registration.{add_route-Accepted, insert_literal, insert_template}
use menagerie.Http.Routes.Lookup.{Registration, register_all}

module _ {H : Type 0} where
  abbrev NoUnknown : MethodSlots H → Type 0
  NoUnknown slots = slots unknown ≡ none

  pub record IsUnknownFree (r : RouteRegistry H) : Type 0 where
    pub exact : All (λ e. NoUnknown e.1) r.exact
    pub parametric : All (λ t. NoUnknown t.by_method) r.parametric

  set_slot-NoUnknown :
      (slots : MethodSlots H) (m : HttpMethod) (h : H)
      → m ≢ unknown
      → NoUnknown slots
      → NoUnknown (set_slot slots m h)
  set_slot-NoUnknown slots m h k n =
      ground (arith, λ (q : index m ≡ 0). k (index_injective m unknown q))

  add_exact-NoUnknown :
      (m : HttpMethod) (key : Bytes) (h : H) (table : List (Bytes × MethodSlots H))
      → m ≢ unknown
      → All (λ e. NoUnknown e.1) table
      → All (λ e. NoUnknown e.1) (add_exact m key h table).0
  unfolding add_exact
  add_exact-NoUnknown m key h [] k a = (set_slot-NoUnknown empty_slots m h k refl, tt)
  add_exact-NoUnknown m key h ((k0, slots) ∷ table) k (n, a) =
      ground (arith, add_exact-NoUnknown m key h table k a, set_slot-NoUnknown slots m h k n)

  add_parametric-NoUnknown :
      (m : HttpMethod) (key : Bytes) (segments : List PathSegment) (h : H)
      (templates : List (ParamTemplate H))
      → m ≢ unknown
      → All (λ t. NoUnknown t.by_method) templates
      → All (λ t. NoUnknown t.by_method) (add_parametric m key segments h templates).0
  unfolding add_parametric
  add_parametric-NoUnknown m key segments h [] k a = (set_slot-NoUnknown empty_slots m h k refl, tt)
  add_parametric-NoUnknown m key segments h (t ∷ templates) k (n, a) = ground (
    arith,
    add_parametric-NoUnknown m key segments h templates k a,
    set_slot-NoUnknown t.by_method m h k n,
  )

  insert_route-IsUnknownFree :
      (r : RouteRegistry H) (m : HttpMethod) (key : Bytes) (segments : List PathSegment) (h : H)
      → m ≢ unknown
      → IsUnknownFree r
      → IsUnknownFree (insert_route r m key segments h)
  insert_route-IsUnknownFree r m key segments h k f =
      elim (Bool-cases (any (λ s. s.is_param) segments)) [
        | inr n ↦ rw (insert_literal r m key segments h n) (record {
          exact = add_exact-NoUnknown m key h r.exact k f.exact;
          parametric = f.parametric;
        })
        | inl y ↦ rw (insert_template r m key segments h y) (record {
          exact = f.exact;
          parametric = add_parametric-NoUnknown m key segments h r.parametric k f.parametric;
        })
      ]

  register_all-IsUnknownFree :
      (r r' : RouteRegistry H) (xs : List (Registration H))
      → register_all r xs ≡ ok r'
      → IsUnknownFree r
      → IsUnknownFree r'
  unfolding register_all
  register_all-IsUnknownFree r r' [] e f = subst IsUnknownFree (ok-injective e) f
  register_all-IsUnknownFree r r' (x ∷ xs) e f =
      let (r1, added, e') = bind-eq-ok _ _ e in
      let a = add_route-Accepted r x.method x.path x.handler r1 added in
      register_all-IsUnknownFree r1 r' xs e'
        (subst IsUnknownFree a.result (insert_route-IsUnknownFree r _ _ _ a.h a.known f))

  unknown_slot : Option (MethodSlots H) → Option H
  unknown_slot none = none
  unknown_slot (some slots) = slots unknown

  find_exact-NoUnknown :
      (table : List (Bytes × MethodSlots H)) (key : Bytes) (slots : MethodSlots H)
      → All (λ e. NoUnknown e.1) table
      → find_exact key table ≡ some slots
      → NoUnknown slots
  unfolding find_exact unknown_slot
  find_exact-NoUnknown [] key slots a e = cc
  find_exact-NoUnknown ((k, s) ∷ table) key slots (n, a) e = elim (Bool-cases (bytes_eq k key)) [
    | inl y ↦
        let same : ◌≡◌ {A = Option (MethodSlots H)} (some s) (some slots) =
          rw (y, find_exact) at e in
        sym (ap unknown_slot same) ∙ n
    | inr o ↦ find_exact-NoUnknown table key slots a (rw (o, find_exact) at e)
  ]

  answer_unserved :
      (slots : MethodSlots H) (params : List (Bytes × Bytes)) (route : ResolvedRoute H)
      → NoUnknown slots
      → answer slots unknown params ≢ ok route
  answer_unserved slots params route n e = ground arith

  find_parametric_unserved :
      (key : Bytes) (templates : List (ParamTemplate H)) (route : ResolvedRoute H)
      → All (λ t. NoUnknown t.by_method) templates
      → find_parametric unknown key templates ≢ ok route
  unfolding find_parametric
  find_parametric_unserved key [] route a e = cc
  find_parametric_unserved key (t ∷ templates) route (n, a) e =
      elim (Option-cases (match_template t.segments key)) [
        | inl k ↦ find_parametric_unserved key templates route a (rw (k, find_parametric) at e)
        | inr (ps, k) ↦ answer_unserved t.by_method ps route n (rw (k, find_parametric) at e)
      ]

  find_route_unserved :
      (r : RouteRegistry H) (path : Bytes) (route : ResolvedRoute H)
      → IsUnknownFree r
      → find_route r unknown path ≢ ok route
  unfolding find_route
  find_route_unserved r path route f e =
      elim (Option-cases (find_exact (normalize_lookup r.norm path) r.exact)) [
        | inl k ↦
            find_parametric_unserved _ r.parametric route f.parametric (rw (k, find_route) at e)
        | inr (slots, k) ↦
            answer_unserved slots [] route (find_exact-NoUnknown r.exact _ slots f.exact k)
              (rw (k, find_route) at e)
      ]

  -- Whatever is registered in a registry whose tables were empty, a request with an unrecognised
  -- verb is never resolved to a handler: it ends as a 404 or a 405.
  pub find_route-register_all-unknown :
      (r r' : RouteRegistry H) (xs : List (Registration H)) (path : Bytes) (route : ResolvedRoute H)
      → r.exact ≡ []
      → r.parametric ≡ []
      → register_all r xs ≡ ok r'
      → find_route r' unknown path ≢ ok route
  find_route-register_all-unknown r r' xs path route no_exact no_templates e =
      find_route_unserved r' path route (
        register_all-IsUnknownFree r r' xs e
          (record { exact = rw no_exact tt; parametric = rw no_templates tt }))
