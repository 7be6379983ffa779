-- ===== src/Http/Routes.antt =====
-- component/http-albatross/routing/route_registry: the registry of routes.
-- A handler is a value of a type `H`, and a null `std::function` is `none`. The hash table of exact
-- routes is an association list, and arena storage is left out. An exception of `add_route` is an
-- `err`; the code throws before it writes, so the registry is then the old one.
pub mod Templates
pub mod Matching
pub mod Exact
pub mod Parametric
pub mod Misses
pub mod Unknown
pub mod Registration
pub mod Lookup
mod Tests
use menagerie.Prelude.{
  ℕ, zero, suc, ◌+◌, ◌-◌, ◌*◌, ◌/◌, ◌%◌, ◌^◌, ◌≤◌, ◌<◌, min, max, String, ◌≡◌, refl, sym, ap, subst,
  ◌∙◌, ◌≡⟨◌⟩◌, ◌∎, ◌≢◌, ◌↔◌, ◌⊎◌, inl, inr, Bool, true, false, not, ◌&&◌, ◌||◌, Option, none, some,
  List, [], ◌∷◌, ◌++◌, map, append_assoc, append-nil, arith, ltb, leb, ◌==◌, if◌then◌else◌, ltb→lt,
  lt→ltb, leb→le, ==_iff, ==-eq-false, tests, Bool-cases, Option-cases, length, get_elem?, take,
  drop, is_empty, any, length-append, take-append-drop, length-take, length-drop, All, All-append,
  All-map, Bytes, bytes, bytes_eq, bytes_eq_refl, bytes_eq_iff, last?, pop_back,
  pop_back-append-last, last?-append-last, is_empty-append, Result, ok, err, ◌>>=◌, throw_if,
  Result-cases, throw_if-eq-ok, bind-eq-ok,
}
use menagerie.Http.Method.{HttpMethod, unknown, index, known_methods}
use menagerie.Http.Paths.{PathNormalization, normalize_owned, normalize_lookup, starts_with_slash}
use Templates.{
  PathSegment, RegistryError, after_freeze, unknown_method, null_handler, no_leading_slash,
  parse_segments, same_shape, names_match,
}
use Matching.{match_template}

-- `std::array<ContextHandler, HTTP_METHOD_COUNT>`.
abbrev pub MethodSlots : Type 0 → Type 0
MethodSlots H = HttpMethod → Option H

module _ {H : Type 0} where
  abbrev pub empty_slots : MethodSlots H
  empty_slots m = none

  abbrev pub set_slot : MethodSlots H → HttpMethod → H → MethodSlots H
  set_slot slots m h n = if index m == index n then some h else slots n

  abbrev pub is_set : Option H → Bool
  is_set none = false
  is_set (some h) = true

pub data ConflictDetail : Type 0 where
  duplicate_route different_names : ConflictDetail

pub record RouteConflictError : Type 0 where
  pub method : HttpMethod
  pub path : Bytes
  pub detail : ConflictDetail

abbrev pub conflict : HttpMethod → Bytes → ConflictDetail → List RouteConflictError
conflict m p d = record { method = m; path = p; detail = d } ∷ []

pub record ParamTemplate (H : Type 0) : Type 0 where
  pub segments : List PathSegment
  pub by_method : MethodSlots H

pub record RouteRegistry (H : Type 0) : Type 0 where
  pub frozen : Bool
  pub norm : PathNormalization
  pub exact : List (Bytes × MethodSlots H)
  pub parametric : List (ParamTemplate H)
  pub conflicts : List RouteConflictError

pub record ResolvedRoute (H : Type 0) : Type 0 where
  pub handler : H
  pub path_params : List (Bytes × Bytes)

pub data RoutingError : Type 0 where
  not_found : Bytes → RoutingError
  method_not_allowed : List HttpMethod → RoutingError

module _ {H : Type 0} where
  -- `exact_.find(key)`.
  unfoldable pub find_exact : Bytes → List (Bytes × MethodSlots H) → Option (MethodSlots H)
  unfolding bytes_eq
  find_exact key [] = none
  find_exact key ((k, slots) ∷ table) = if bytes_eq k key then some slots else find_exact key table

  -- `try_emplace` and the slot: the table after it, and the conflict that it records.
  unfoldable pub add_exact :
      HttpMethod
      → Bytes
      → H
      → List (Bytes × MethodSlots H)
      → List (Bytes × MethodSlots H) × List RouteConflictError
  unfolding bytes_eq
  add_exact m key h [] = ((key, set_slot empty_slots m h) ∷ [], [])
  add_exact m key h ((k, slots) ∷ table) =
      let (rest, conflicts) = add_exact m key h table in
      if bytes_eq k key
      then if is_set (slots m)
        then ((k, slots) ∷ table, conflict m k duplicate_route)
        else ((k, set_slot slots m h) ∷ table, [])
      else ((k, slots) ∷ rest, conflicts)

  -- The loop over the templates, and the push at its end.
  unfoldable pub add_parametric :
      HttpMethod
      → Bytes
      → List PathSegment
      → H
      → List (ParamTemplate H)
      → List (ParamTemplate H) × List RouteConflictError
  unfolding same_shape names_match
  add_parametric m key segments h [] =
      (record { segments = segments; by_method = set_slot empty_slots m h } ∷ [], [])
  add_parametric m key segments h (t ∷ templates) =
      let (rest, conflicts) = add_parametric m key segments h templates in
      if not (same_shape t.segments segments)
      then (t ∷ rest, conflicts)
      else if not (names_match t.segments segments)
      then (t ∷ templates, conflict m key different_names)
      else if is_set (t.by_method m)
      then (t ∷ templates, conflict m key duplicate_route)
      else (record t { by_method = set_slot t.by_method m h } ∷ templates, [])

  unfoldable pub insert_route :
      RouteRegistry H → HttpMethod → Bytes → List PathSegment → H → RouteRegistry H
  unfolding add_exact add_parametric
  insert_route r m key segments h =
      let (exact, exact_conflicts) = add_exact m key h r.exact in
      let (parametric, param_conflicts) = add_parametric m key segments h r.parametric in
      if not (any (λ s. s.is_param) segments)
      then record r { exact = exact; conflicts = r.conflicts ++ exact_conflicts }
      else record r { parametric = parametric; conflicts = r.conflicts ++ param_conflicts }

  abbrev or_throw :
      Option H
      → (H → Result RegistryError (RouteRegistry H))
      → Result RegistryError (RouteRegistry H)
  or_throw none next = err null_handler
  or_throw (some h) next = next h

  unfoldable pub add_route :
      RouteRegistry H → HttpMethod → Bytes → Option H → Result RegistryError (RouteRegistry H)
  unfolding insert_route parse_segments normalize_owned
  add_route r m path handler = throw_if r.frozen after_freeze (
      throw_if (index m == index unknown) unknown_method (
        or_throw handler λ h. throw_if (not (starts_with_slash path)) no_leading_slash (
          parse_segments (normalize_owned r.norm path) >>= λ segments.
          ok (insert_route r m (normalize_owned r.norm path) segments h))))

  unfoldable pub freeze : RouteRegistry H → RouteRegistry H × List RouteConflictError
  freeze r = (record r { frozen = true; conflicts = [] }, r.conflicts)

  abbrev pub populated : MethodSlots H → List HttpMethod → List HttpMethod
  populated slots [] = []
  populated slots (m ∷ ms) =
      let rest = populated slots ms in if is_set (slots m) then m ∷ rest else rest

  abbrev pub allowed_methods : MethodSlots H → List HttpMethod
  allowed_methods slots = populated slots known_methods

  -- A table entry that is reached decides between a route and a 405.
  abbrev pub answer :
      MethodSlots H → HttpMethod → List (Bytes × Bytes) → Result RoutingError (ResolvedRoute H)
  answer slots m params = elim (slots m) [
    | some h ↦ ok (record { handler = h; path_params = params })
    | none ↦ err (method_not_allowed (allowed_methods slots))
  ]

  unfoldable pub find_parametric :
      HttpMethod → Bytes → List (ParamTemplate H) → Result RoutingError (ResolvedRoute H)
  unfolding match_template
  find_parametric m key [] = err (not_found key)
  find_parametric m key (t ∷ templates) = elim (match_template t.segments key) [
    | none ↦ find_parametric m key templates
    | some params ↦ answer t.by_method m params
  ]

  unfoldable pub find_route :
      RouteRegistry H → HttpMethod → Bytes → Result RoutingError (ResolvedRoute H)
  unfolding find_exact find_parametric normalize_lookup
  find_route r m path = elim (find_exact (normalize_lookup r.norm path) r.exact) [
    | some slots ↦ answer slots m []
    | none ↦ find_parametric m (normalize_lookup r.norm path) r.parametric
  ]
