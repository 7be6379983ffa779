-- ===== src/Savanna/Dialect/Reading.antt =====
-- Reading quoted text back, by the rules of PostgreSQL's documentation of its lexical structure.
use menagerie.Prelude.{
  ℕ, ◌≡◌, refl, ap, ◌∙◌, ◌≢◌, inl, inr, Bool, true, false, Option, none, some, [], ◌∷◌, ◌++◌,
  append_assoc, arith, ◌==◌, if◌then◌else◌, ==_iff, Bool-cases, Bytes,
}
use menagerie.Savanna.Dialect.{
  escape_char, escape_string, escape_identifier, quoted_identifier, format_string_value,
}

abbrev pub Scanned : Type 0
Scanned = Option (Bytes × Bytes)

abbrev pub prepend : ℕ → Scanned → Scanned
prepend c none = none
prepend c (some (token, rest)) = some (c ∷ token, rest)

-- What stands up to the closing quote, in which a doubled quote is one quote, and what follows. The
-- flag tells that the last byte was a quote.
unfoldable pub scan_token : ℕ → Bool → Bytes → Scanned
scan_token quote false [] = none
scan_token quote true [] = some ([], [])
scan_token quote false (c ∷ cs) =
    let closing = scan_token quote true cs in
    let within = scan_token quote false cs in if c == quote then closing else prepend c within
scan_token quote true (c ∷ cs) =
    let within = scan_token quote false cs in
    if c == quote then prepend quote within else some ([], c ∷ cs)

-- The text after a string literal or an identifier: it does not begin with the quote.
abbrev pub Ends : ℕ → Bytes → Type 0
Ends quote [] = Unit
Ends quote (c ∷ cs) = c ≢ quote

scan_token-closed :
    (quote : ℕ) (rest : Bytes) → Ends quote rest → scan_token quote true rest ≡ some ([], rest)
unfolding scan_token
scan_token-closed quote [] e = refl
scan_token-closed quote (c ∷ rest) e = ground (arith, e)

scan_token-quote :
    (quote : ℕ) (cs : Bytes) → scan_token quote false (quote ∷ cs) ≡ scan_token quote true cs
unfolding scan_token
scan_token-quote quote cs = ground arith

scan_token-other :
    (quote c : ℕ) (cs : Bytes)
    → c ≢ quote
    → scan_token quote false (c ∷ cs) ≡ prepend c (scan_token quote false cs)
unfolding scan_token
scan_token-other quote c cs h = ground (arith, h)

scan_token-doubled :
    (quote : ℕ) (cs : Bytes)
    → scan_token quote false (quote ∷ quote ∷ cs) ≡ prepend quote (scan_token quote false cs)
unfolding scan_token
scan_token-doubled quote cs = ground arith

pub differs : (a b : ℕ) → (a == b) ≡ false → a ≢ b
differs a b n e = ground arith

scan_token-escape_identifier :
    (name rest : Bytes)
    → Ends b'"' rest
    → scan_token b'"' false (escape_identifier name ++ b'"' ∷ rest) ≡ some (name, rest)
unfolding escape_identifier
scan_token-escape_identifier [] rest e = scan_token-quote b'"' rest ∙ scan_token-closed b'"' rest e
scan_token-escape_identifier (c ∷ name) rest e = elim (Bool-cases (c == b'"')) [
  | inl y ↦
      let same = (==_iff c b'"').0 y in
      rw same (
        scan_token-doubled b'"' (escape_identifier name ++ b'"' ∷ rest)
        ∙ ap (prepend b'"') (scan_token-escape_identifier name rest e))
  | inr n ↦ rw n (
      scan_token-other b'"' c (escape_identifier name ++ b'"' ∷ rest) (differs c b'"' n)
      ∙ ap (prepend c) (scan_token-escape_identifier name rest e))
]

-- A quoted token and what follows it.
unfoldable pub read : ℕ → Bytes → Scanned
unfolding scan_token
read quote [] = none
read quote (c ∷ cs) = let token = scan_token quote false cs in if c == quote then token else none

-- If what follows does not begin with a double quote, a quoted identifier is read as the name that
-- was quoted, up to where it ends.
pub read-quoted_identifier :
    (name rest : Bytes)
    → Ends b'"' rest
    → read b'"' (quoted_identifier name ++ rest) ≡ some (name, rest)
unfolding read
read-quoted_identifier name rest e =
    rw (append_assoc (escape_identifier name) (b'"' ∷ []) rest)
      (scan_token-escape_identifier name rest e)

-- A string with its backslashes doubled.
abbrev pub double_backslashes : Bytes → Bytes
double_backslashes [] = []
double_backslashes (c ∷ cs) =
    let rest = double_backslashes cs in if c == b'\\' then c ∷ c ∷ rest else c ∷ rest

scan_token-escape_string :
    (str rest : Bytes)
    → Ends b'\'' rest
    → scan_token b'\'' false (escape_string str ++ b'\'' ∷ rest)
      ≡ some (double_backslashes str, rest)
unfolding escape_string escape_char
scan_token-escape_string [] rest e = scan_token-quote b'\'' rest ∙ scan_token-closed b'\'' rest e
scan_token-escape_string (c ∷ str) rest e = elim (Bool-cases (c == b'\'')) [
  | inl y ↦
      let same = (==_iff c b'\'').0 y in
      rw same (
        scan_token-doubled b'\'' (escape_string str ++ b'\'' ∷ rest)
        ∙ ap (prepend b'\'') (scan_token-escape_string str rest e))
  | inr n ↦ elim (Bool-cases (c == b'\\')) [
    | inl z ↦
        let same = (==_iff c b'\\').0 z in
        rw same (
          scan_token-other b'\'' b'\\' (b'\\' ∷ escape_string str ++ b'\'' ∷ rest) (omega arith)
          ∙ ap (prepend b'\\') (
              scan_token-other b'\'' b'\\' (escape_string str ++ b'\'' ∷ rest) (omega arith)
              ∙ ap (prepend b'\\') (scan_token-escape_string str rest e)))
    | inr m ↦
        rw (n, m)
          (scan_token-other b'\'' c (escape_string str ++ b'\'' ∷ rest) (differs c b'\'' n)
            ∙ ap (prepend c) (scan_token-escape_string str rest e))
  ]
]

-- If what follows does not begin with a quote, and backslashes are ordinary characters
-- (standard_conforming_strings is on), the literal of a string ends at its own closing quote, and
-- is read as the string with each backslash doubled.
pub read-format_string_value :
    (str rest : Bytes)
    → Ends b'\'' rest
    → read b'\'' (format_string_value str ++ rest) ≡ some (double_backslashes str, rest)
unfolding read
read-format_string_value str rest e =
    rw (append_assoc (escape_string str) (b'\'' ∷ []) rest) (scan_token-escape_string str rest e)
