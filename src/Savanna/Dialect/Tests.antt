-- ===== src/Savanna/Dialect/Tests.antt =====
-- The dialect run on names and values that contain quotes.
use menagerie.Prelude.{◌≡◌, refl, some, [], ◌∷◌, ◌++◌, arith, bytes}
use menagerie.Savanna.Visitor.{text, quote_identifier, placeholder, format_value, limit_clause}
use menagerie.Savanna.Dialect.{
  string, escape_char, escape_string, escape_identifier, format_bytes, quoted_identifier,
  format_string_value, push_last, push_pairs, constexpr_to_string, limit_text, render,
  format_value_impl,
}
use menagerie.Savanna.Dialect.Reading.{
  read, read-quoted_identifier, double_backslashes, read-format_string_value,
}
use menagerie.Savanna.Dialect.Escaping.{read_escapes, read_escapes-format_string_value}
use menagerie.Savanna.Dialect.Hex.{unhex_bytes, unhex_bytes-format_bytes}
use menagerie.Savanna.Dialect.Rendering.{read_decimal, read_decimal-constexpr_to_string}

rendered :
    render
      (λ n. [])
      (text (bytes "SELECT ")
        ∷ quote_identifier (bytes "a\"b")
        ∷ text (bytes " = ")
        ∷ format_value (string (bytes "it's"))
        ∷ text (bytes " OR $")
        ∷ placeholder 120
        ∷ limit_clause 10 5
        ∷ [])
    ≡ bytes "SELECT \"a\"\"b\" = 'it''s' OR $$120 LIMIT 10 OFFSET 5"
unfolding render constexpr_to_string push_pairs push_last limit_text format_value_impl
    escape_identifier escape_string escape_char
rendered = refl

-- A path with backslashes, where they are ordinary characters: what is read has them doubled.
path_doubled :
    read b'\'' (format_string_value (bytes "C:\\tmp") ++ bytes ", 1")
    ≡ some (bytes "C:\\\\tmp", bytes ", 1")
path_doubled = read-format_string_value (bytes "C:\\tmp") (bytes ", 1") (omega arith)

read-quoted_identifier_example :
    read b'"' (quoted_identifier (bytes "a\"; DROP TABLE b") ++ bytes " = 1")
    ≡ some (bytes "a\"; DROP TABLE b", bytes " = 1")
read-quoted_identifier_example =
    read-quoted_identifier (bytes "a\"; DROP TABLE b") (bytes " = 1") (omega arith)

read-format_string_value_example :
    read b'\'' (format_string_value (bytes "\\' OR '1") ++ bytes " )")
    ≡ some (double_backslashes (bytes "\\' OR '1"), bytes " )")
read-format_string_value_example =
    read-format_string_value (bytes "\\' OR '1") (bytes " )") (omega arith)

read_escapes-format_string_value_example :
    read_escapes (format_string_value (bytes "\\' OR '1") ++ bytes " )")
    ≡ some (bytes "\\' OR '1", bytes " )")
read_escapes-format_string_value_example =
    read_escapes-format_string_value (bytes "\\' OR '1") (bytes " )") (omega arith)

unhex_bytes-format_bytes_example :
    unhex_bytes (format_bytes (0 ∷ 255 ∷ 171 ∷ [])) ≡ some (0 ∷ 255 ∷ 171 ∷ [])
unhex_bytes-format_bytes_example =
    unhex_bytes-format_bytes (0 ∷ 255 ∷ 171 ∷ []) (omega arith, (omega arith, (omega arith, tt)))

read_decimal-constexpr_to_string_example :
    read_decimal 0 (constexpr_to_string 18446744073709551615) ≡ 18446744073709551615
read_decimal-constexpr_to_string_example =
    read_decimal-constexpr_to_string 18446744073709551615 (omega arith)
