-- ===== src/Savanna/Dialect.antt =====
-- component/database-savanna/providers/postgresql-elephant/dialect: postgres_dialect.hpp and its
-- .inl, what the dialect appends to a query; and `constexpr_to_string` of common/core-beaver.
-- `std::to_chars` is a parameter. A number of a field is an integer, whatever its width.
pub mod Reading
pub mod Escaping
pub mod Hex
pub mod Rendering
pub mod Tests
use menagerie.Prelude.{
  ℕ, zero, suc, ◌+◌, ◌-◌, ◌*◌, ◌/◌, ◌%◌, ◌^◌, ◌≤◌, ◌<◌, min, max, String, ◌≡◌, refl, sym, ap, subst,
  ◌∙◌, ◌≡⟨◌⟩◌, ◌∎, ◌≢◌, ◌↔◌, ◌⊎◌, inl, inr, Bool, true, false, not, ◌&&◌, ◌||◌, Option, none, some,
  List, [], ◌∷◌, ◌++◌, map, append_assoc, append-nil, arith, ltb, leb, ◌==◌, if◌then◌else◌, ltb→lt,
  lt→ltb, leb→le, ==_iff, ==-eq-false, tests, Bool-cases, Option-cases, and-eq-true, length,
  get_elem?, take, drop, is_empty, any, length-append, take-append-drop, length-take, length-drop,
  All, All-append, All-map, Bytes, bytes, bytes_eq, bytes_eq_refl, bytes_eq_iff, last?, pop_back,
  pop_back-append-last, last?-append-last, is_empty-append, append-eq-nil, Result, ok, err, ◌>>=◌,
  throw_if, Result-cases, throw_if-eq-ok, bind-eq-ok, ok-injective, some-injective, map-eq-some,
}
use menagerie.Prelude.Int.{ℤ}
use menagerie.Savanna.Visitor.{
  Piece, text, quote_identifier, placeholder, format_value, limit_clause,
}

-- A floating number is held as the text that the library prints of it.
pub data FieldValue : Type 0 where
  null : FieldValue
  boolean : Bool → FieldValue
  char : ℕ → FieldValue
  floating : Bytes → FieldValue
  integral : ℤ → FieldValue
  string : Bytes → FieldValue
  binary : List ℕ → FieldValue

unfoldable pub escape_char : ℕ → Bytes
escape_char c = if c == b'\'' then bytes "''" else if c == b'\\' then bytes "\\\\" else c ∷ []

unfoldable pub escape_string : Bytes → Bytes
unfolding escape_char
escape_string [] = []
escape_string (c ∷ str) = escape_char c ++ escape_string str

unfoldable pub escape_identifier : Bytes → Bytes
escape_identifier [] = []
escape_identifier (c ∷ name) =
    let rest = escape_identifier name in if c == b'"' then bytes "\"\"" ++ rest else c ∷ rest

-- The table of hexadecimal digits.
abbrev pub hex_chars : Bytes
hex_chars = bytes "0123456789abcdef"

abbrev pub char_at : Bytes → ℕ → ℕ
char_at [] i = 0
char_at (c ∷ cs) zero = c
char_at (c ∷ cs) (suc i) = char_at cs i

-- `byte >> 4` and `byte & 0x0F`.
unfoldable pub format_bytes : List ℕ → Bytes
format_bytes [] = []
format_bytes (byte ∷ data') =
    char_at hex_chars (byte / 16) ∷ char_at hex_chars (byte % 16) ∷ format_bytes data'

abbrev pub format_binary_data : List ℕ → Bytes
format_binary_data data' = bytes "'\\x" ++ format_bytes data' ++ bytes "'"

abbrev pub quoted_identifier : Bytes → Bytes
quoted_identifier name = b'"' ∷ escape_identifier name ++ b'"' ∷ []

abbrev pub format_char : ℕ → Bytes
format_char c = b'\'' ∷ escape_char c ++ b'\'' ∷ []

abbrev pub format_string_value : Bytes → Bytes
format_string_value str = b'\'' ∷ escape_string str ++ b'\'' ∷ []

unfoldable pub format_value_impl : (ℤ → Bytes) → FieldValue → Bytes
format_value_impl to_chars null = bytes "NULL"
format_value_impl to_chars (boolean b) = if b then bytes "TRUE" else bytes "FALSE"
format_value_impl to_chars (char c) = format_char c
format_value_impl to_chars (floating s) = s
format_value_impl to_chars (integral n) = to_chars n
format_value_impl to_chars (string s) = format_string_value s
format_value_impl to_chars (binary data') = format_binary_data data'

-- The table of the digits of the numbers below 100, and what is pushed for one of them. A buffer is
-- held with the byte pushed last in front, which is how the source reads it in the end.
abbrev pub digit_pairs : Bytes
digit_pairs =
    bytes "00010203040506070809"
    ++ bytes "10111213141516171819"
    ++ bytes "20212223242526272829"
    ++ bytes "30313233343536373839"
    ++ bytes "40414243444546474849"
    ++ bytes "50515253545556575859"
    ++ bytes "60616263646566676869"
    ++ bytes "70717273747576777879"
    ++ bytes "80818283848586878889"
    ++ bytes "90919293949596979899"

abbrev pub push_pair : ℕ → Bytes → Bytes
push_pair n buffer = char_at digit_pairs (n * 2) ∷ char_at digit_pairs (n * 2 + 1) ∷ buffer

unfoldable pub push_last : ℕ → Bytes → Bytes
push_last temp buffer = if leb 10 temp then push_pair temp buffer else (b'0' + temp) ∷ buffer

-- The loop over the pairs of digits, on fuel.
unfoldable pub push_pairs : ℕ → ℕ → Bytes → Bytes
unfolding push_last
push_pairs zero temp buffer = push_last temp buffer
push_pairs (suc fuel) temp buffer =
    let rest = push_pairs fuel (temp / 100) (push_pair (temp % 100) buffer) in
    if leb 100 temp then rest else push_last temp buffer

-- A `size_t` has at most 20 digits.
unfoldable pub constexpr_to_string : ℕ → Bytes
unfolding push_pairs
constexpr_to_string value = if value == 0 then bytes "0" else push_pairs 9 value []

unfoldable pub limit_text : ℕ → ℕ → Bytes
unfolding constexpr_to_string
limit_text n offset =
    bytes " LIMIT "
    ++ constexpr_to_string n
    ++ (if ltb 0 offset then bytes " OFFSET " ++ constexpr_to_string offset else [])

-- The text of a query, piece by piece.
unfoldable pub render : (ℤ → Bytes) → List (Piece FieldValue) → Bytes
unfolding constexpr_to_string limit_text format_value_impl escape_identifier
render to_chars [] = []
render to_chars (text s ∷ ps) = s ++ render to_chars ps
render to_chars (quote_identifier s ∷ ps) = quoted_identifier s ++ render to_chars ps
render to_chars (placeholder n ∷ ps) = b'$' ∷ constexpr_to_string n ++ render to_chars ps
render to_chars (format_value v ∷ ps) = format_value_impl to_chars v ++ render to_chars ps
render to_chars (limit_clause n offset ∷ ps) = limit_text n offset ++ render to_chars ps
