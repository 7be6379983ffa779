-- ===== src/Http/Responses/Tests.antt =====
-- Error responses at concrete errors.
use menagerie.Prelude.{ℕ, ◌≡◌, refl, true, [], ◌∷◌, Bytes, bytes}
use menagerie.Http.Method.{get, post}
use menagerie.Http.Responses.{allow_value}
use menagerie.Http.Responses.Laws.{elements, names, elements-allow_value}

abbrev no_decimals : ℕ → Bytes
no_decimals n = []

allow : allow_value [] true (get ∷ post ∷ []) ≡ bytes "GET, POST"
unfolding allow_value
allow = refl

elements-allow_value_example :
    elements [] (allow_value [] true (get ∷ post ∷ [])) ≡ names (get ∷ post ∷ [])
elements-allow_value_example = elements-allow_value get (post ∷ [])
