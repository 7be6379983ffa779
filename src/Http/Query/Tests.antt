-- ===== src/Http/Query/Tests.antt =====
-- Query strings at concrete bytes.
use menagerie.Prelude.{◌≡◌, refl, true, some, List, [], ◌∷◌, arith, bytes}
use menagerie.Http.UrlDecode.Tests.{letters_only, letters_only-IsUnreserved}
use menagerie.Http.Headers.{Field}
use menagerie.Http.Query.{parse_query, contains_substr, accepts_html, query_of}
use menagerie.Http.Query.Laws.{write_query, IsQuerySafe, parse_query-write_query}

parsed :
    parse_query (query_of (bytes "/x?a=1&b&&c=%2&d=x+y&"))
    ≡ ((bytes "a", bytes "1") ∷ (bytes "b", []) ∷ ([], []) ∷ (bytes "d", bytes "x y") ∷ [])
unfolding parse_query query_of
parsed = refl

wildcard : accepts_html (some (bytes "image/png, */*")) ≡ true
unfolding contains_substr
wildcard = refl

letters_only-IsQuerySafe : IsQuerySafe letters_only
letters_only-IsQuerySafe = record {
  unreserved = letters_only-IsUnreserved;
  no_ampersand = refl;
  no_equals = refl;
}

abbrev two : List Field
two = (bytes "a&b", bytes "=") ∷ (bytes "a&b", []) ∷ []

parse_query-write_query_example : parse_query (write_query letters_only two) ≡ two
parse_query-write_query_example =
    parse_query-write_query letters_only letters_only-IsQuerySafe two (
      ((omega arith, (omega arith, (omega arith, tt))), (omega arith, tt)),
      (((omega arith, (omega arith, (omega arith, tt))), tt), tt),
    )
