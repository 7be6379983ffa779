-- ===== src/Http/Routes/Misses.antt =====
-- When lookup fails, and what its errors say.
use mathlib.Core.Path.{ap₂}
use menagerie.Prelude.{
  ◌≡◌, refl, sym, ap, ◌∙◌, ◌≢◌, ◌↔◌, inl, inr, true, not, ◌&&◌, Option, none, some, List, [], ◌∷◌,
  arith, ◌==◌, ==_iff, Bool-cases, Option-cases, any, All, Bytes, Result, ok, err, and-eq-true,
}
use menagerie.Http.Method.{
  HttpMethod, unknown, get, post, put, patch, del, head, options, index, known_methods,
}
use menagerie.Http.Method.Laws.{index_injective}
use menagerie.Http.Paths.{normalize_lookup}
use menagerie.Http.Routes.{
  RouteRegistry, MethodSlots, ParamTemplate, ResolvedRoute, RoutingError, not_found,
  method_not_allowed, find_exact, find_parametric, find_route, answer, is_set, populated,
  allowed_methods,
}
use menagerie.Http.Routes.Matching.{match_template}

abbrev pub Listed : HttpMethod → List HttpMethod → Type 0
Listed n ms = any (λ k. index k == index n) ms ≡ true

any_known : (n : HttpMethod) → any (λ k. index k == index n) known_methods ≡ not (index n == 0)
any_known unknown = refl
any_known get = refl
any_known post = refl
any_known put = refl
any_known patch = refl
any_known del = refl
any_known head = refl
any_known options = refl

known_iff : (n : HttpMethod) → (not (index n == 0) ≡ true) ↔ (n ≢ unknown)
known_iff n = (
  (λ e q. ground (arith, ap index q)),
  λ h. ground (arith, λ (q : index n ≡ 0). h (index_injective n unknown q)),
)

module _ {H : Type 0} where
  any-populated :
      (slots : MethodSlots H) (n : HttpMethod) (ms : List HttpMethod)
      → any (λ k. index k == index n) (populated slots ms)
        ≡ (any (λ k. index k == index n) ms && is_set (slots n))
  any-populated slots n [] = refl
  any-populated slots n (m ∷ ms) = elim (Bool-cases (index m == index n)) [
    | inl y ↦
        let same = index_injective m n ((==_iff (index m) (index n)).0 y) in
        ground (arith, any-populated slots n ms, ap (λ k. is_set (slots k)) same)
    | inr k ↦ ground (arith, any-populated slots n ms)
  ]

  -- The entry that a path reaches: the slots of a key, or of the first template that matches.
  entry_of : Bytes → List (ParamTemplate H) → Option (MethodSlots H × List (Bytes × Bytes))
  entry_of key [] = none
  entry_of key (t ∷ templates) = elim (match_template t.segments key) [
    | none ↦ entry_of key templates
    | some params ↦ some (t.by_method, params)
  ]

  entry : RouteRegistry H → Bytes → Option (MethodSlots H × List (Bytes × Bytes))
  entry r path = elim (find_exact (normalize_lookup r.norm path) r.exact) [
    | some slots ↦ some (slots, [])
    | none ↦ entry_of (normalize_lookup r.norm path) r.parametric
  ]

  abbrev decide :
      Option (MethodSlots H × List (Bytes × Bytes))
      → HttpMethod
      → Bytes
      → Result RoutingError (ResolvedRoute H)
  decide none m key = err (not_found key)
  decide (some (slots, params)) m key = answer slots m params

  find_parametric-eq-decide :
      (m : HttpMethod) (key : Bytes) (templates : List (ParamTemplate H))
      → find_parametric m key templates ≡ decide (entry_of key templates) m key
  unfolding find_parametric entry_of
  find_parametric-eq-decide m key [] = refl
  find_parametric-eq-decide m key (t ∷ templates) =
      elim (Option-cases (match_template t.segments key)) [
        | inl e ↦ rw (e, find_parametric, entry_of) (find_parametric-eq-decide m key templates)
        | inr (ps, e) ↦ rw (e, find_parametric, entry_of)
      ]

  -- The method only decides at the entry that the path reaches.
  find_route-eq-decide :
      (r : RouteRegistry H) (m : HttpMethod) (path : Bytes)
      → find_route r m path ≡ decide (entry r path) m (normalize_lookup r.norm path)
  unfolding find_route entry
  find_route-eq-decide r m path =
      elim (Option-cases (find_exact (normalize_lookup r.norm path) r.exact)) [
        | inl e ↦ rw (e, find_route, entry) (find_parametric-eq-decide m _ r.parametric)
        | inr (slots, e) ↦ rw (e, find_route, entry)
      ]

  decide-eq-method_not_allowed :
      (o : Option (MethodSlots H × List (Bytes × Bytes))) (m : HttpMethod) (key : Bytes)
      (ms : List HttpMethod)
      → decide o m key ≡ err (method_not_allowed ms)
      → (slots : MethodSlots H) × (params : List (Bytes × Bytes)) × (o ≡ some (slots, params))
        × (slots m ≡ none)
        × (ms ≡ allowed_methods slots)
  decide-eq-method_not_allowed none m key ms e = cc
  decide-eq-method_not_allowed (some (slots, params)) m key ms e = elim (Option-cases (slots m)) [
    | inl n ↦ (slots, params, refl, n, ground arith)
    | inr (h, s) ↦ absurd (ground arith)
  ]

  Listed-allowed_methods :
      (slots : MethodSlots H) (n : HttpMethod)
      → any (λ k. index k == index n) (allowed_methods slots)
        ≡ (not (index n == 0) && is_set (slots n))
  Listed-allowed_methods slots n =
      any-populated slots n known_methods ∙ ap (λ b. b && is_set (slots n)) (any_known n)

  answer_of_set :
      (slots : MethodSlots H) (n : HttpMethod) (params : List (Bytes × Bytes))
      → is_set (slots n) ≡ true
      → (route : ResolvedRoute H) × (answer slots n params ≡ ok route)
  answer_of_set slots n params e = elim (Option-cases (slots n)) [
    | inl k ↦ absurd (ground arith)
    | inr (h, held) ↦ (record { handler = h; path_params = params }, ground arith)
  ]

  set_of_answer :
      (slots : MethodSlots H) (n : HttpMethod) (params : List (Bytes × Bytes))
      (route : ResolvedRoute H)
      → answer slots n params ≡ ok route
      → is_set (slots n) ≡ true
  set_of_answer slots n params route e = ground arith

  -- A 405 lists exactly the methods, other than `unknown`, under which the same path is served.
  pub find_route-method_not_allowed :
      (r : RouteRegistry H) (m : HttpMethod) (path : Bytes) (ms : List HttpMethod)
      → find_route r m path ≡ err (method_not_allowed ms)
      → (n : HttpMethod)
      → Listed n ms
        ↔ ((n ≢ unknown) × ((route : ResolvedRoute H) × (find_route r n path ≡ ok route)))
  find_route-method_not_allowed r m path ms e n = (
    λ l.
        let both = and-eq-true _ _ (sym meant ∙ l) in
        let (route, served) = answer_of_set slots n params both.1 in
        ((known_iff n).0 both.0, (route, found ∙ served)),
    λ (other, (route, served)).
        meant
        ∙ ap₂ (λ a b. a && b) ((known_iff n).1 other)
            (set_of_answer slots n params route (sym found ∙ served)),
  )
    where
      key : Bytes
      key = normalize_lookup r.norm path

      reached :
          (slots : MethodSlots H) × (params : List (Bytes × Bytes)) × (entry r path
            ≡ some (slots, params))
          × (slots m ≡ none)
          × (ms ≡ allowed_methods slots)
      reached =
          decide-eq-method_not_allowed (entry r path) m key ms
            (sym (find_route-eq-decide r m path) ∙ e)

      slots : MethodSlots H
      slots = reached.0

      params : List (Bytes × Bytes)
      params = reached.1

      found : find_route r n path ≡ answer slots n params
      found = find_route-eq-decide r n path ∙ ap (λ o. decide o n key) reached.2

      meant : any (λ k. index k == index n) ms ≡ (not (index n == 0) && is_set (slots n))
      meant = ap (any (λ k. index k == index n)) reached.4 ∙ Listed-allowed_methods slots n

  entry_of-eq-none_iff :
      (key : Bytes) (templates : List (ParamTemplate H))
      → (entry_of key templates ≡ none) ↔ All (λ t. match_template t.segments key ≡ none) templates
  unfolding entry_of
  entry_of-eq-none_iff key [] = ((λ _. tt), λ _. refl)
  entry_of-eq-none_iff key (t ∷ templates) = elim (Option-cases (match_template t.segments key)) [
    | inl e ↦
        let ih = entry_of-eq-none_iff key templates in
        ((λ q. (e, ih.0 (rw (e, entry_of) at q))), λ (_, q). rw (e, entry_of) (ih.1 q))
    | inr (ps, e) ↦ ((λ q. cc (rw (e, entry_of) at q)), λ (q, _). cc (sym e ∙ q))
  ]

  decide-eq-not_found :
      (o : Option (MethodSlots H × List (Bytes × Bytes))) (m : HttpMethod) (key : Bytes)
      → decide o m key ≡ err (not_found key)
      → o ≡ none
  decide-eq-not_found none m key e = refl
  decide-eq-not_found (some (slots, params)) m key e = absurd (ground arith)

  entry_of_no_key :
      (r : RouteRegistry H) (path : Bytes)
      → find_exact (normalize_lookup r.norm path) r.exact ≡ none
      → entry r path ≡ entry_of (normalize_lookup r.norm path) r.parametric
  unfolding entry
  entry_of_no_key r path e = rw (e, entry)

  entry-eq-none :
      (r : RouteRegistry H) (path : Bytes)
      → entry r path ≡ none
      → (find_exact (normalize_lookup r.norm path) r.exact ≡ none)
        × (entry_of (normalize_lookup r.norm path) r.parametric ≡ none)
  unfolding entry
  entry-eq-none r path e = elim (Option-cases (find_exact (normalize_lookup r.norm path) r.exact)) [
    | inl n ↦ (n, rw (n, entry) at e)
    | inr (slots, f) ↦ cc (rw (f, entry) at e)
  ]

  -- A 404 is answered, whatever the method, exactly where the normalised path is no key of the
  -- exact table and no template matches it; it names that path.
  pub find_route-not_found_iff :
      (r : RouteRegistry H) (m : HttpMethod) (path : Bytes)
      → let key = normalize_lookup r.norm path in
        (find_route r m path ≡ err (not_found key)) ↔ (
          (find_exact key r.exact ≡ none)
          × All (λ t. match_template t.segments key ≡ none) r.parametric)
  find_route-not_found_iff r m path = (
    λ e.
        let none_reached = decide-eq-not_found _ m _ (sym (find_route-eq-decide r m path) ∙ e) in
        let (no_key, no_entry) = entry-eq-none r path none_reached in
        (no_key, (entry_of-eq-none_iff _ r.parametric).0 no_entry),
    λ (no_key, unmatched).
        find_route-eq-decide r m path
        ∙ ap (λ o. decide o m (normalize_lookup r.norm path))
            (entry_of_no_key r path no_key ∙ (entry_of-eq-none_iff _ r.parametric).1 unmatched),
  )
