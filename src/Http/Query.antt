-- ===== src/Http/Query.antt =====
-- component/http-albatross/types/request_context: the query string and its parameters, and the
-- tests of the content and accept headers.
-- The caches of the split and of the parameters are left out, since nothing empties them.
pub mod Laws
pub mod Tests
use menagerie.Prelude.{
  ℕ, zero, suc, ◌+◌, ◌-◌, ◌*◌, ◌/◌, ◌%◌, ◌^◌, ◌≤◌, ◌<◌, min, max, String, ◌≡◌, refl, sym, ap, subst,
  ◌∙◌, ◌≡⟨◌⟩◌, ◌∎, ◌≢◌, ◌↔◌, ◌⊎◌, inl, inr, Bool, true, false, not, ◌&&◌, ◌||◌, Option, none, some,
  List, [], ◌∷◌, ◌++◌, map, append_assoc, append-nil, arith, ltb, leb, ◌==◌, if◌then◌else◌, ltb→lt,
  lt→ltb, leb→le, ==_iff, ==-eq-false, tests, Bool-cases, Option-cases, and-eq-true, length,
  get_elem?, take, drop, is_empty, any, length-append, take-append-drop, length-take, length-drop,
  All, All-append, All-map, Bytes, bytes, bytes_eq, bytes_eq_refl, bytes_eq_iff, last?, pop_back,
  pop_back-append-last, last?-append-last, is_empty-append, append-eq-nil, Result, ok, err, ◌>>=◌,
  throw_if, Result-cases, throw_if-eq-ok, bind-eq-ok, ok-injective, some-injective, map-eq-some,
}
use menagerie.Http.UrlDecode.{url_decode}
use menagerie.Http.Headers.{Field}

abbrev pub ampersand : ℕ
ampersand = 38

abbrev pub equals : ℕ
equals = 61

-- The target behind its first `?`.
unfoldable pub query_of : Bytes → Bytes
query_of [] = []
query_of (c ∷ t) = let rest = query_of t in if c == 63 then t else rest

abbrev push_front : ℕ → List Bytes → List Bytes
push_front c [] = (c ∷ []) ∷ []
push_front c (p ∷ ps) = (c ∷ p) ∷ ps

-- The pairs from `i` on, where `i` is within the string: the loop ends behind a pair that no `&`
-- ends, and where nothing follows the `&`.
unfoldable pub pairs_from : Bytes → List Bytes
pairs_from [] = [] ∷ []
pairs_from (c ∷ qs) =
    let rest = pairs_from qs in
    let later = if is_empty qs then [] else rest in
    if c == ampersand then [] ∷ later else push_front c rest

unfoldable pub pairs : Bytes → List Bytes
unfolding pairs_from
pairs qs = if is_empty qs then [] else pairs_from qs

unfoldable pub key_of : Bytes → Bytes
key_of [] = []
key_of (c ∷ pair) = let rest = c ∷ key_of pair in if c == equals then [] else rest

unfoldable pub value_of : Bytes → Bytes
value_of [] = []
value_of (c ∷ pair) = let rest = value_of pair in if c == equals then pair else rest

abbrev pub decoded_pair : Option Bytes → Option Bytes → List Field
decoded_pair none v = []
decoded_pair (some k) none = []
decoded_pair (some k) (some v) = (k, v) ∷ []

-- A pair with a malformed escape is skipped.
unfoldable pub query_params : List Bytes → List Field
unfolding key_of value_of url_decode
query_params [] = []
query_params (pair ∷ rest) =
    decoded_pair (url_decode (key_of pair) true) (url_decode (value_of pair) true)
    ++ query_params rest

unfoldable pub parse_query : Bytes → List Field
unfolding pairs query_params
parse_query qs = query_params (pairs qs)

unfoldable pub raw_query : Bytes → List Field → Option Bytes
unfolding bytes_eq
raw_query name [] = none
raw_query name ((k, v) ∷ params) =
    let rest = raw_query name params in if bytes_eq k name then some v else rest

unfoldable pub has_prefix : Bytes → Bytes → Bool
has_prefix [] hay = true
has_prefix (c ∷ needle) [] = false
has_prefix (c ∷ needle) (d ∷ hay) = c == d && has_prefix needle hay

unfoldable pub contains_substr : Bytes → Bytes → Bool
unfolding has_prefix
contains_substr [] needle = is_empty needle
contains_substr (c ∷ hay) needle = has_prefix needle (c ∷ hay) || contains_substr hay needle

-- A header that is there, and contains one of the texts.
abbrev pub mentions : Option Bytes → List Bytes → Bool
mentions none texts = false
mentions (some v) texts = any (contains_substr v) texts

abbrev pub is_json : Option Bytes → Bool
is_json content_type = mentions content_type (bytes "application/json" ∷ [])

abbrev pub is_form : Option Bytes → Bool
is_form content_type = mentions content_type (bytes "application/x-www-form-urlencoded" ∷ [])

abbrev pub is_multipart : Option Bytes → Bool
is_multipart content_type = mentions content_type (bytes "multipart/form-data" ∷ [])

abbrev pub accepts_json : Option Bytes → Bool
accepts_json accept = mentions accept (bytes "application/json" ∷ bytes "*/*" ∷ [])

abbrev pub accepts_html : Option Bytes → Bool
accepts_html accept = mentions accept (bytes "text/html" ∷ bytes "*/*" ∷ [])
