-- ===== src/Http/Paths/Tests.antt =====
-- Paths at concrete inputs.
use menagerie.Prelude.{◌≡◌, refl, [], ◌∷◌, bytes}
use menagerie.Http.Paths.{
  join_path, segments, normalize_owned, normalize_lookup, collapse_trailing_slash,
  collapse_multi_slash,
}
use menagerie.Http.Paths.Joining.{join_path_assoc}
use menagerie.Http.Paths.Normalizing.{normalize_owned-eq-normalize_lookup}

joined : join_path (bytes "/api/") (bytes "users") ≡ bytes "/api/users"
unfolding join_path
joined = refl

joined_root : join_path (bytes "/api") (bytes "/") ≡ bytes "/api"
unfolding join_path
joined_root = refl

split : segments (bytes "/a//b/") ≡ bytes "a" ∷ [] ∷ bytes "b" ∷ [] ∷ []
unfolding segments
split = refl

collapsed : normalize_owned collapse_multi_slash (bytes "//a///b//") ≡ bytes "/a/b"
unfolding normalize_owned
collapsed = refl

one_slash : normalize_owned collapse_trailing_slash (bytes "/a//") ≡ bytes "/a/"
unfolding normalize_owned
one_slash = refl

join_path_assoc_example :
    join_path (join_path (bytes "/api//") (bytes "/")) (bytes "v1/")
    ≡ join_path (bytes "/api//") (join_path (bytes "/") (bytes "v1/"))
join_path_assoc_example = join_path_assoc (bytes "/api//") (bytes "/") (bytes "v1/")

normalize_owned-eq-normalize_lookup_example :
    normalize_owned collapse_multi_slash (bytes "//a/")
    ≡ normalize_lookup collapse_multi_slash (bytes "//a/")
normalize_owned-eq-normalize_lookup_example =
    normalize_owned-eq-normalize_lookup collapse_multi_slash (bytes "//a/")
