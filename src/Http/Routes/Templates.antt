-- ===== src/Http/Routes/Templates.antt =====
-- component/http-albatross/routing/route_registry: route templates, as `parse_segments` reads them.
pub mod Shapes
use menagerie.Prelude.{
  ℕ, zero, suc, ◌+◌, ◌-◌, ◌*◌, ◌/◌, ◌%◌, ◌^◌, ◌≤◌, ◌<◌, min, max, String, ◌≡◌, refl, sym, ap, subst,
  ◌∙◌, ◌≡⟨◌⟩◌, ◌∎, ◌≢◌, ◌↔◌, ◌⊎◌, inl, inr, Bool, true, false, not, ◌&&◌, ◌||◌, Option, none, some,
  List, [], ◌∷◌, ◌++◌, map, append_assoc, append-nil, arith, ltb, leb, ◌==◌, if◌then◌else◌, ltb→lt,
  lt→ltb, leb→le, ==_iff, ==-eq-false, tests, Bool-cases, Option-cases, length, get_elem?, take,
  drop, is_empty, any, length-append, take-append-drop, length-take, length-drop, All, All-append,
  All-map, Bytes, bytes, bytes_eq, bytes_eq_refl, bytes_eq_iff, last?, pop_back,
  pop_back-append-last, last?-append-last, is_empty-append, Result, ok, err, ◌>>=◌, throw_if,
  Result-cases, throw_if-eq-ok, bind-eq-ok,
}
use menagerie.Http.Paths.{for_each_segment, segments}

pub record PathSegment : Type 0 where
  pub text : Bytes
  pub is_param : Bool

-- The exceptions of `add_route`, by their messages.
pub data RegistryError : Type 0 where
  after_freeze unknown_method null_handler no_leading_slash : RegistryError
  empty_parameter nested_braces duplicate_parameter bad_literal : RegistryError

abbrev open_brace : ℕ
open_brace = 123

abbrev close_brace : ℕ
close_brace = 125

abbrev is_brace : ℕ → Bool
is_brace c = c == open_brace || c == close_brace

abbrev head_is : ℕ → Bytes → Bool
head_is b [] = false
head_is b (c ∷ s) = c == b

abbrev last_is : ℕ → Bytes → Bool
last_is b s = elim (last? s) [ none ↦ false | some c ↦ c == b ]

-- `seg.size() >= 2 && seg.front() == '{' && seg.back() == '}'`.
unfoldable pub is_braced : Bytes → Bool
is_braced seg = leb 2 (length seg) && (head_is open_brace seg && last_is close_brace seg)

-- `seg.substr(1, seg.size() - 2)`.
abbrev inner_name : Bytes → Bytes
inner_name seg = pop_back (drop 1 seg)

-- The segments so far, and the parameter names among them.
abbrev Parsed : Type 0
Parsed = List PathSegment × List Bytes

unfoldable pub parse_segment : Bytes → Parsed → Result RegistryError Parsed
unfolding is_braced bytes_eq
parse_segment seg (out, seen_names) =
    if is_braced seg
    then (let name = inner_name seg in
        throw_if (is_empty name) empty_parameter (
          throw_if (any is_brace name) nested_braces (
            throw_if (any (bytes_eq name) seen_names) duplicate_parameter
              (ok (out ++ record { text = name; is_param = true } ∷ [], seen_names ++ name ∷ [])))))
    else throw_if (any (λ c. c == b'%' || is_brace c) seg) bad_literal
        (ok (out ++ record { text = seg; is_param = false } ∷ [], seen_names))

unfoldable pub parse_segments : Bytes → Result RegistryError (List PathSegment)
unfolding parse_segment segments
parse_segments normalized =
    for_each_segment parse_segment normalized ([], []) >>= λ parsed. ok parsed.0

-- `std::ranges::equal` under a test of two elements.
abbrev equal_by : (PathSegment → PathSegment → Bool) → List PathSegment → List PathSegment → Bool
equal_by test [] [] = true
equal_by test [] (y ∷ ys) = false
equal_by test (x ∷ xs) [] = false
equal_by test (x ∷ xs) (y ∷ ys) = test x y && equal_by test xs ys

abbrev bool_eq : Bool → Bool → Bool
bool_eq true b = b
bool_eq false b = not b

unfoldable pub same_shape : List PathSegment → List PathSegment → Bool
unfolding bytes_eq
same_shape =
    equal_by (λ x y. bool_eq x.is_param y.is_param && (x.is_param || bytes_eq x.text y.text))

unfoldable pub names_match : List PathSegment → List PathSegment → Bool
unfolding bytes_eq
names_match = equal_by (λ x y. bytes_eq x.text y.text)
