-- ===== src/Http/Routes/Tests.antt =====
-- The registry at concrete routes.
use menagerie.Prelude.{
  ℕ, ◌≡◌, refl, ◌≢◌, inl, inr, true, false, none, some, List, [], ◌∷◌, arith, All, Bytes, bytes,
  Result, ok, err,
}
use menagerie.Http.UrlDecode.Tests.{letters_only, letters_only-IsUnreserved}
use menagerie.Http.Method.{unknown, get, post, put}
use menagerie.Http.Paths.{collapse_trailing_slash, segments}
use menagerie.Http.Routes.{
  RouteRegistry, ResolvedRoute, add_route, freeze, find_route, find_exact, method_not_allowed,
}
use menagerie.Http.Routes.Templates.{PathSegment, RegistryError}
use menagerie.Http.Routes.Matching.{match_template}
use menagerie.Http.Routes.Matching.Laws.{Captures, match_template_iff}
use menagerie.Http.Routes.Matching.Filling.{fill, expected, match_template-fill}
use menagerie.Http.Routes.Lookup.{Registration, register_all, Serves, register_all-Serves}
use menagerie.Http.Routes.Misses.{find_route-method_not_allowed, find_route-not_found_iff}
use menagerie.Http.Routes.Unknown.{find_route-register_all-unknown}

abbrev fresh : RouteRegistry ℕ
fresh = record {
  frozen = false;
  norm = collapse_trailing_slash;
  exact = [];
  parametric = [];
  conflicts = [];
}

abbrev routes : List (Registration ℕ)
routes =
    record { method = get; path = bytes "/users/"; handler = some 1 }
    ∷ record { method = post; path = bytes "/users"; handler = some 2 }
    ∷ record { method = get; path = bytes "/users/{id}/posts/{post}"; handler = some 3 }
    ∷ []

abbrev or_fresh : Result RegistryError (RouteRegistry ℕ) → RouteRegistry ℕ
or_fresh (ok r) = r
or_fresh (err e) = fresh

users : RouteRegistry ℕ
users = or_fresh (register_all fresh routes)

exact_hit : find_route users get (bytes "/users") ≡ ok (record { handler = 1; path_params = [] })
unfolding users register_all add_route find_route
exact_hit = refl

captures :
    find_route users get (bytes "/users/a%20b/posts/7/")
    ≡ ok (record {
      handler = 3;
      path_params = (bytes "id", bytes "a b") ∷ (bytes "post", bytes "7") ∷ [];
    })
unfolding users register_all add_route find_route
captures = refl

wrong_method : find_route users put (bytes "/users") ≡ err (method_not_allowed (get ∷ post ∷ []))
unfolding users register_all add_route find_route
wrong_method = refl

-- The first template that matches decides, though only a later one has the method.
abbrev overlapping : List (Registration ℕ)
overlapping =
    record { method = get; path = bytes "/{a}/{c}"; handler = some 1 }
    ∷ record { method = post; path = bytes "/x/{b}"; handler = some 2 }
    ∷ []

first_decides :
    find_route (or_fresh (register_all fresh overlapping)) post (bytes "/x/1")
    ≡ err (method_not_allowed (get ∷ []))
unfolding register_all add_route find_route
first_decides = refl

register_all-Serves_example : All (Serves (freeze users).0 (bytes "/users/a/posts/7")) routes
unfolding users register_all add_route freeze
register_all-Serves_example =
    register_all-Serves fresh users routes (bytes "/users/a/posts/7") refl refl

find_route-method_not_allowed_example :
    (post ≢ unknown)
    × ((route : ResolvedRoute ℕ) × (find_route users post (bytes "/users") ≡ ok route))
unfolding users register_all add_route find_route
find_route-method_not_allowed_example =
    (find_route-method_not_allowed users put (bytes "/users") (get ∷ post ∷ []) refl post).0 refl

find_route-not_found_iff_example : find_exact (bytes "/users/7/posts") users.exact ≡ none
unfolding users register_all add_route find_route
find_route-not_found_iff_example =
    ((find_route-not_found_iff users get (bytes "/users/7/posts")).0 refl).0

find_route-register_all-unknown_example :
    find_route users unknown (bytes "/users") ≢ ok (record { handler = 1; path_params = [] })
unfolding users register_all add_route
find_route-register_all-unknown_example =
    find_route-register_all-unknown fresh users routes (bytes "/users") _ refl refl refl

abbrev template : List PathSegment
template =
    record { text = bytes "users"; is_param = false }
    ∷ record { text = bytes "id"; is_param = true }
    ∷ []

match_template_iff_example :
    Captures template (segments (bytes "/users/%41")) ((bytes "id", bytes "A") ∷ [])
unfolding match_template
match_template_iff_example =
    (match_template_iff template (bytes "/users/%41") ((bytes "id", bytes "A") ∷ [])).0 refl

abbrev value : Bytes → Bytes
value name = bytes "a/b"

match_template-fill_example :
    match_template template (fill letters_only value template)
    ≡ some (expected letters_only value template)
match_template-fill_example =
    match_template-fill letters_only value template letters_only-IsUnreserved refl
      (inl (refl, omega arith), (inr (refl, (λ e. cc), omega arith), tt))
