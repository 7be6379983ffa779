-- ===== src/Savanna/Dialect/Escaping.antt =====
-- Reading a string literal back where backslashes escape.
use menagerie.Prelude.{
  ℕ, ◌≡◌, refl, ap, ◌∙◌, ◌≢◌, inl, inr, none, some, [], ◌∷◌, ◌++◌, append_assoc, arith, ◌==◌,
  if◌then◌else◌, ==_iff, Bool-cases, Bytes,
}
use menagerie.Savanna.Dialect.{escape_char, escape_string, format_string_value}
use menagerie.Savanna.Dialect.Reading.{Scanned, prepend, Ends, differs}

-- The byte before: none that counts, a quote or a backslash.
pub data Before : Type 0 where
  plainly after_quote after_backslash : Before

-- The same where backslashes escape; the escapes that the dialect does not write are not read.
unfoldable pub scan_escapes : Before → Bytes → Scanned
scan_escapes plainly [] = none
scan_escapes after_quote [] = some ([], [])
scan_escapes after_backslash [] = none
scan_escapes plainly (c ∷ cs) =
    let closing = scan_escapes after_quote cs in
    let escaping = scan_escapes after_backslash cs in
    let within = scan_escapes plainly cs in
    if c == b'\'' then closing else if c == b'\\' then escaping else prepend c within
scan_escapes after_quote (c ∷ cs) =
    let within = scan_escapes plainly cs in
    if c == b'\'' then prepend c within else some ([], c ∷ cs)
scan_escapes after_backslash (c ∷ cs) =
    let within = scan_escapes plainly cs in if c == b'\\' then prepend c within else none

scan_escapes-closed :
    (rest : Bytes) → Ends b'\'' rest → scan_escapes after_quote rest ≡ some ([], rest)
unfolding scan_escapes
scan_escapes-closed [] e = refl
scan_escapes-closed (c ∷ rest) e = ground (arith, e)

scan_escapes-other :
    (c : ℕ) (cs : Bytes)
    → c ≢ b'\''
    → c ≢ b'\\'
    → scan_escapes plainly (c ∷ cs) ≡ prepend c (scan_escapes plainly cs)
unfolding scan_escapes
scan_escapes-other c cs n m = ground (arith, n, m)

scan_escapes-escape_char :
    (c : ℕ) (cs : Bytes)
    → scan_escapes plainly (escape_char c ++ cs) ≡ prepend c (scan_escapes plainly cs)
unfolding scan_escapes escape_char
scan_escapes-escape_char c cs = elim (Bool-cases (c == b'\'')) [
  | inl y ↦ let same = (==_iff c b'\'').0 y in rw same refl
  | inr n ↦ elim (Bool-cases (c == b'\\')) [
    | inl z ↦ let same = (==_iff c b'\\').0 z in rw same refl
    | inr m ↦ rw (n, m) (scan_escapes-other c cs (differs c b'\'' n) (differs c b'\\' m))
  ]
]

scan_escapes-escape_string :
    (str rest : Bytes)
    → Ends b'\'' rest
    → scan_escapes plainly (escape_string str ++ b'\'' ∷ rest) ≡ some (str, rest)
unfolding escape_string scan_escapes
scan_escapes-escape_string [] rest e = scan_escapes-closed rest e
scan_escapes-escape_string (c ∷ str) rest e =
    rw (append_assoc (escape_char c) (escape_string str) (b'\'' ∷ rest)) (
      scan_escapes-escape_char c (escape_string str ++ b'\'' ∷ rest)
      ∙ ap (prepend c) (scan_escapes-escape_string str rest e))

-- A string literal and what follows it, where backslashes escape.
unfoldable pub read_escapes : Bytes → Scanned
unfolding scan_escapes
read_escapes [] = none
read_escapes (c ∷ cs) = let token = scan_escapes plainly cs in if c == b'\'' then token else none

-- If what follows does not begin with a quote, and backslashes escape (standard_conforming_strings
-- is off), the literal of a string is read as that string, up to where it ends.
pub read_escapes-format_string_value :
    (str rest : Bytes)
    → Ends b'\'' rest
    → read_escapes (format_string_value str ++ rest) ≡ some (str, rest)
unfolding read_escapes
read_escapes-format_string_value str rest e =
    rw (append_assoc (escape_string str) (b'\'' ∷ []) rest) (scan_escapes-escape_string str rest e)
