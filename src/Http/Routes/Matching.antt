-- ===== src/Http/Routes/Matching.antt =====
-- component/http-albatross/routing/route_registry: `match_template`.
pub mod Laws
pub mod Filling
use menagerie.Prelude.{
  ℕ, zero, suc, ◌+◌, ◌-◌, ◌*◌, ◌/◌, ◌%◌, ◌^◌, ◌≤◌, ◌<◌, min, max, String, ◌≡◌, refl, sym, ap, subst,
  ◌∙◌, ◌≡⟨◌⟩◌, ◌∎, ◌≢◌, ◌↔◌, ◌⊎◌, inl, inr, Bool, true, false, not, ◌&&◌, ◌||◌, Option, none, some,
  List, [], ◌∷◌, ◌++◌, map, append_assoc, append-nil, arith, ltb, leb, ◌==◌, if◌then◌else◌, ltb→lt,
  lt→ltb, leb→le, ==_iff, ==-eq-false, tests, Bool-cases, Option-cases, length, get_elem?, take,
  drop, is_empty, any, length-append, take-append-drop, length-take, length-drop, All, All-append,
  All-map, Bytes, bytes, bytes_eq, bytes_eq_refl, bytes_eq_iff, last?, pop_back,
  pop_back-append-last, last?-append-last, is_empty-append, Result, ok, err, ◌>>=◌, throw_if,
  Result-cases, throw_if-eq-ok, bind-eq-ok,
}
use menagerie.Http.UrlDecode.{url_decode_arena}
use menagerie.Http.Paths.{for_each_segment, segments}
use menagerie.Http.Routes.Templates.{PathSegment}

abbrev Captured : Type 0
Captured = List (Bytes × Bytes)

-- What the walk has left of the template, from index `i` on, and the captures so far.
abbrev Walk : Type 0
Walk = List PathSegment × Captured

-- The callback of one incoming segment; `err` is its `return false`.
unfoldable pub match_segment : Bytes → Walk → Result (Unit {0}) Walk
unfolding url_decode_arena bytes_eq
match_segment seg ([], out_params) = err tt
match_segment seg (t ∷ rest, out_params) =
    if not t.is_param
    then (if bytes_eq seg t.text then ok (rest, out_params) else err tt)
    else if is_empty seg
    then err tt
    else elim ((url_decode_arena seg false).0) [
      | none ↦ err tt
      | some decoded ↦ ok (rest, out_params ++ (t.text, decoded) ∷ [])
    ]

-- A `false` of the source is `none`; the caller drops the captures of a failed attempt.
abbrev finished : Result (Unit {0}) Walk → Option Captured
finished (err e) = none
finished (ok ([], out_params)) = some out_params
finished (ok (t ∷ rest, out_params)) = none

unfoldable pub match_template : List PathSegment → Bytes → Option Captured
unfolding match_segment segments
match_template template path = finished (for_each_segment match_segment path (template, []))
