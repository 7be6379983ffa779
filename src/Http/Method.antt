-- ===== src/Http/Method.antt =====
-- component/http-albatross/types/enums/http_enums.hpp: methods, statuses, versions.
-- Boost.Beast's verbs are a type `V` with the constants that the code names.
pub mod Laws
mod Tests
use menagerie.Prelude.{
  ℕ, zero, suc, ◌+◌, Option, none, some, Bool, true, false, List, [], ◌∷◌, Bytes, bytes, ◌==◌,
  if◌then◌else◌,
}

pub data Protocol : Type 0 where
  http1 http2 http3 : Protocol

pub data HttpMethod : Type 0 where
  unknown get post put patch del head options : HttpMethod

-- `std::to_underlying`.
abbrev pub index : HttpMethod → ℕ
index unknown = 0
index get = 1
index post = 2
index put = 3
index patch = 4
index del = 5
index head = 6
index options = 7

-- Slots 1 to HTTP_METHOD_COUNT - 1, in their order.
abbrev pub known_methods : List HttpMethod
known_methods = get ∷ post ∷ put ∷ patch ∷ del ∷ head ∷ options ∷ []

unfoldable pub to_string_view : HttpMethod → Bytes
to_string_view get = bytes "GET"
to_string_view post = bytes "POST"
to_string_view put = bytes "PUT"
to_string_view patch = bytes "PATCH"
to_string_view del = bytes "DELETE"
to_string_view head = bytes "HEAD"
to_string_view options = bytes "OPTIONS"
to_string_view unknown = bytes "UNKNOWN"

pub data HttpVersion : Type 0 where
  http_1_0 http_1_1 http_2 http_3 : HttpVersion

pub version_to_beast : HttpVersion → ℕ
version_to_beast http_1_0 = 10
version_to_beast http_1_1 = 11
version_to_beast http_2 = 20
version_to_beast http_3 = 30

pub version_from_beast : ℕ → HttpVersion
version_from_beast v =
    if v == 10
    then http_1_0
    else if v == 11
    then http_1_1
    else if v == 20
    then http_2
    else if v == 30
    then http_3
    else http_1_1

-- What the code uses of `boost::beast::http::verb`: a test for equality and eight enumerators.
pub record Verbs (V : Type 0) : Type 0 where
  pub same : V → V → Bool
  pub verb : HttpMethod → V

module _ {V : Type 0} (verbs : Verbs V) where
  open verbs use {same, verb}

  pub method_from_beast : V → HttpMethod
  method_from_beast v =
      if same v (verb get)
      then get
      else if same v (verb post)
      then post
      else if same v (verb put)
      then put
      else if same v (verb patch)
      then patch
      else if same v (verb del)
      then del
      else if same v (verb head)
      then head
      else if same v (verb options)
      then options
      else unknown

  pub method_to_beast : HttpMethod → V
  method_to_beast get = verb get
  method_to_beast post = verb post
  method_to_beast put = verb put
  method_to_beast patch = verb patch
  method_to_beast del = verb del
  method_to_beast head = verb head
  method_to_beast options = verb options
  method_to_beast unknown = verb unknown
