-- ===== src/Http/UrlDecode/Tests.antt =====
-- Percent-decoding at concrete inputs.
use menagerie.Prelude.{ℕ, ◌≡◌, refl, Bool, true, false, ◌&&◌, none, some, arith, leb, bytes}
use menagerie.Http.UrlDecode.{url_decode}
use menagerie.Http.UrlDecode.Laws.{Decodes, url_decode_iff}
use menagerie.Http.UrlDecode.Encoding.{percent_encode, IsUnreserved, url_decode-percent_encode}

truncated_escape : url_decode (bytes "a%2Fb+c%") false ≡ none
unfolding url_decode
truncated_escape = refl

form_body : url_decode (bytes "a%2fb+c") true ≡ some (bytes "a/b c")
unfolding url_decode
form_body = refl

url_decode_iff_example : Decodes true (bytes "a%2fb+c") (bytes "a/b c")
unfolding url_decode
url_decode_iff_example = (url_decode_iff (bytes "a%2fb+c") (bytes "a/b c") true).0 refl

abbrev pub letters_only : ℕ → Bool
letters_only c = leb b'a' c && leb c b'z'

pub letters_only-IsUnreserved : IsUnreserved letters_only
letters_only-IsUnreserved c h = (ground arith, ground arith)

url_decode-percent_encode_example :
    url_decode (percent_encode letters_only (bytes "a/b +%")) true ≡ some (bytes "a/b +%")
url_decode-percent_encode_example =
    url_decode-percent_encode letters_only (bytes "a/b +%") true letters_only-IsUnreserved
      (omega arith)
