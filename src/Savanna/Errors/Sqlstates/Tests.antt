-- ===== src/Savanna/Errors/Sqlstates/Tests.antt =====
-- SQL states of a server mapped to errors.
use menagerie.Prelude.{◌≡◌, refl, true, none, some, bytes, bytes_eq}
use menagerie.Savanna.Errors.{
  server_error, fatal_error, unique_violation, connection_error, unexpected_state,
}
use menagerie.Savanna.Errors.Sqlstates.{classes, map_sqlstate}
use menagerie.Savanna.Errors.Sqlstates.Laws.{retryable_of, rollbacks, retryable-map_sqlstate}

duplicate_key : map_sqlstate (bytes "23505") ≡ some (server_error unique_violation)
unfolding map_sqlstate classes bytes_eq
duplicate_key = refl

shut_down : map_sqlstate (bytes "57P01") ≡ some (server_error connection_error)
unfolding map_sqlstate classes bytes_eq
shut_down = refl

unknown_class : map_sqlstate (bytes "99000") ≡ some (fatal_error unexpected_state)
unfolding map_sqlstate classes bytes_eq
unknown_class = refl

no_error : map_sqlstate (bytes "00000") ≡ none
unfolding map_sqlstate bytes_eq
no_error = refl

retryable-map_sqlstate_example : retryable_of (map_sqlstate (bytes "40P01")) ≡ some true
retryable-map_sqlstate_example =
    retryable-map_sqlstate (bytes "40P01") (bytes "40") true rollbacks refl
