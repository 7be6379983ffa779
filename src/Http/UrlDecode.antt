-- ===== src/Http/UrlDecode.antt =====
-- component/http-albatross/types/url_decode/url_decode.cpp: percent-decoding.
-- A `char` is its byte value. An index that jumps (`i += 2`) is a count of bytes still to skip.
pub mod Laws
pub mod Encoding
pub mod Tests
use menagerie.Prelude.{
  ℕ, zero, suc, ◌+◌, ◌-◌, ◌*◌, ◌%◌, Option, none, some, Bool, true, false, not, ◌&&◌, ◌||◌, List,
  [], ◌∷◌, Bytes, leb, ◌==◌, if◌then◌else◌, any, length,
}
use mathlib.Core.Option

-- `none` is the -1 of the source.
unfoldable pub hex_val : ℕ → Option ℕ
hex_val x =
    if leb b'0' x && leb x b'9'
    then some (x - b'0')
    else if leb b'a' x && leb x b'f'
    then some (10 + x - b'a')
    else if leb b'A' x && leb x b'F'
    then some (10 + x - b'A')
    else none

-- `hi << 4 | lo` as a char: the digits are below 16, so the two halves do not overlap.
abbrev pub escape_byte : Option ℕ → Option ℕ → Option ℕ
escape_byte none lo = none
escape_byte (some hi) none = none
escape_byte (some hi) (some lo) = some ((hi * 16 + lo) % 256)

-- The byte that the escape stands for, from what follows its '%'.
unfoldable pub escaped : Bytes → Option ℕ
unfolding hex_val
escaped [] = none
escaped (h ∷ []) = none
escaped (h ∷ l ∷ rest) = escape_byte (hex_val h) (hex_val l)

-- The bytes written to `out`, or `none` on a malformed escape.
unfoldable pub decode_into : Bool → ℕ → Bytes → Option Bytes
decode_into plus_is_space skip [] = some []
decode_into plus_is_space (suc skip) (c ∷ rest) = decode_into plus_is_space skip rest
decode_into plus_is_space zero (c ∷ rest) =
    let next = decode_into plus_is_space 0 rest in
    let after = decode_into plus_is_space 2 rest in
    if c == b'+' && plus_is_space
    then Option.map (λ out. 32 ∷ out) next
    else if c == b'%'
    then elim (escaped rest) [ none ↦ none | some b ↦ Option.map (λ out. b ∷ out) after ]
    else Option.map (λ out. c ∷ out) next

unfoldable pub url_decode : Bytes → Bool → Option Bytes
unfolding decode_into escaped
url_decode input plus_is_space = decode_into plus_is_space 0 input

abbrev pub needs_rewrite : Bytes → Bool → Bool
needs_rewrite input plus_is_space =
    any (λ c. c == b'%') input || plus_is_space && any (λ c. c == b'+') input

-- The decoded view, and how many bytes the arena gave for it.
unfoldable pub url_decode_arena : Bytes → Bool → Option Bytes × ℕ
unfolding decode_into escaped
url_decode_arena input plus_is_space =
    if not (needs_rewrite input plus_is_space)
    then (some input, 0)
    else (decode_into plus_is_space 0 input, length input)
