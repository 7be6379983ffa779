-- ===== src/Http/Paths.antt =====
-- component/http-albatross/routing/route_registry/route_registry.cpp: the path helpers, which are
-- `for_each_segment`, `join_path`, `normalize_owned` and `normalize_lookup`.
pub mod Joining
pub mod Normalizing
mod Tests
use menagerie.Prelude.{
  ℕ, zero, suc, ◌+◌, ◌-◌, ◌*◌, ◌/◌, ◌%◌, ◌^◌, ◌≤◌, ◌<◌, min, max, String, ◌≡◌, refl, sym, ap, subst,
  ◌∙◌, ◌≡⟨◌⟩◌, ◌∎, ◌≢◌, ◌↔◌, ◌⊎◌, inl, inr, Bool, true, false, not, ◌&&◌, ◌||◌, Option, none, some,
  List, [], ◌∷◌, ◌++◌, map, append_assoc, append-nil, arith, ltb, leb, ◌==◌, if◌then◌else◌, ltb→lt,
  lt→ltb, leb→le, ==_iff, ==-eq-false, tests, Bool-cases, Option-cases, length, get_elem?, take,
  drop, is_empty, any, length-append, take-append-drop, length-take, length-drop, All, All-append,
  All-map, Bytes, bytes, bytes_eq, bytes_eq_refl, bytes_eq_iff, last?, pop_back,
  pop_back-append-last, last?-append-last, Result, ok, err, ◌>>=◌, throw_if, Result-cases,
  throw_if-eq-ok, bind-eq-ok,
}

abbrev pub slash : ℕ
slash = b'/'

abbrev pub ends_in_slash : Bytes → Bool
ends_in_slash s = elim (last? s) [ none ↦ false | some c ↦ c == slash ]

abbrev pub starts_with_slash : Bytes → Bool
starts_with_slash [] = false
starts_with_slash (c ∷ s) = c == slash

abbrev push_front : ℕ → List Bytes → List Bytes
push_front c [] = (c ∷ []) ∷ []
push_front c (seg ∷ segs) = (c ∷ seg) ∷ segs

-- The segments from `pos` on: one more than there are slashes.
unfoldable pub segments_from : Bytes → List Bytes
segments_from [] = [] ∷ []
segments_from (c ∷ s) =
    let rest = segments_from s in if c == slash then [] ∷ rest else push_front c rest

-- The scan starts at 1, past the leading '/', and does not run on an empty path.
unfoldable pub segments : Bytes → List Bytes
unfolding segments_from
segments [] = []
segments (c ∷ s) = segments_from s

module _ {ℓ κ} {E : Type ℓ} {S : Type κ} (fn : Bytes → S → Result E S) where
  -- `err` stops the walk: a `false` from the callback, or its exception.
  abbrev pub visit : List Bytes → S → Result E S
  visit [] s = ok s
  visit (seg ∷ segs) s = fn seg s >>= visit segs

  abbrev pub for_each_segment : Bytes → S → Result E S
  for_each_segment path s = visit (segments path) s

-- `while (!out.empty() && out.back() == '/') out.pop_back();`, the rounds bounded by the size.
strip_rounds : ℕ → Bytes → Bytes
strip_rounds zero out = out
strip_rounds (suc n) out = elim (ends_in_slash out) [
  | true ↦ strip_rounds n (pop_back out)
  | false ↦ out
]

strip_slashes : Bytes → Bytes
strip_slashes out = strip_rounds (length out) out

abbrev rooted : Bytes → Bytes
rooted path = if starts_with_slash path then path else slash ∷ path

unfoldable pub join_path : Bytes → Bytes → Bytes
unfolding strip_slashes strip_rounds bytes_eq
join_path prefix path =
    let out = strip_slashes prefix in
    if is_empty path || bytes_eq path (bytes "/")
    then if is_empty out then bytes "/" else out
    else out ++ rooted path

pub data PathNormalization : Type 0 where
  keep collapse_trailing_slash collapse_multi_slash : PathNormalization

-- The copying loop that both sides share.
unfoldable pub collapse : Bool → Bytes → Bytes
collapse prev_slash [] = []
collapse prev_slash (c ∷ s) =
    let skipped = collapse prev_slash s in
    let kept = c ∷ collapse (c == slash) s in if c == slash && prev_slash then skipped else kept

abbrev pub strip_one : Bytes → Bytes
strip_one out = if ltb 1 (length out) && ends_in_slash out then pop_back out else out

-- At registration.
unfoldable pub normalize_owned : PathNormalization → Bytes → Bytes
unfolding collapse
normalize_owned keep path = path
normalize_owned collapse_trailing_slash path = strip_one path
normalize_owned collapse_multi_slash path = strip_one (collapse false path)

-- `path.find("//") != npos`.
abbrev pub has_double_slash : Bytes → Bool
has_double_slash [] = false
has_double_slash (c ∷ []) = false
has_double_slash (c ∷ d ∷ s) = c == slash && d == slash || has_double_slash (d ∷ s)

-- At lookup, where a path without "//" is not copied.
unfoldable pub normalize_lookup : PathNormalization → Bytes → Bytes
unfolding collapse
normalize_lookup keep path = path
normalize_lookup collapse_trailing_slash path = strip_one path
normalize_lookup collapse_multi_slash path =
    if has_double_slash path then strip_one (collapse false path) else strip_one path
