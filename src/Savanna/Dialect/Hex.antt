-- ===== src/Savanna/Dialect/Hex.antt =====
-- Reading the hexadecimal text of bytes back.
use menagerie.Prelude.{
  ℕ, ◌+◌, ◌-◌, ◌*◌, ◌/◌, ◌%◌, ◌<◌, ◌≡◌, refl, ap, Bool, true, false, ◌&&◌, Option, none, some, List,
  [], ◌∷◌, arith, leb, ◌==◌, if◌then◌else◌, ==_iff, All, Bytes,
}
use menagerie.Savanna.Dialect.{hex_chars, char_at, format_bytes}
use menagerie.Prelude.{all_below, all_below_sound}

-- The bytes that pairs of hexadecimal digits stand for.
unfoldable pub unhex : ℕ → Option ℕ
unhex c =
    if leb b'0' c && leb c b'9'
    then some (c - b'0')
    else if leb b'a' c && leb c b'f'
    then some (c - b'a' + 10)
    else none

abbrev pub unhex_pair : Option ℕ → Option ℕ → Option Bytes → Option Bytes
unhex_pair none low rest = none
unhex_pair (some h) none rest = none
unhex_pair (some h) (some l) none = none
unhex_pair (some h) (some l) (some rest) = some ((h * 16 + l) ∷ rest)

unfoldable pub unhex_bytes : Bytes → Option Bytes
unfolding unhex
unhex_bytes [] = some []
unhex_bytes (h ∷ []) = none
unhex_bytes (h ∷ l ∷ rest) = unhex_pair (unhex h) (unhex l) (unhex_bytes rest)

abbrev reads_as : Option ℕ → ℕ → Bool
reads_as none n = false
reads_as (some m) n = m == n

reads_as_sound : (o : Option ℕ) (n : ℕ) → reads_as o n ≡ true → o ≡ some n
reads_as_sound none n h = cc
reads_as_sound (some m) n h = ap some ((==_iff m n).0 h)

hex_table : all_below 16 (λ n. reads_as (unhex (char_at hex_chars n)) n) ≡ true
unfolding unhex
hex_table = refl

unhex-hex_chars : (n : ℕ) → n < 16 → unhex (char_at hex_chars n) ≡ some n
unhex-hex_chars n h =
    reads_as_sound (unhex (char_at hex_chars n)) n
      (all_below_sound 16 (λ k. reads_as (unhex (char_at hex_chars k)) k) n hex_table h)

-- The hexadecimal text of bytes reads back as these bytes.
pub unhex_bytes-format_bytes :
    (octets : List ℕ) → All (λ b. b < 256) octets → unhex_bytes (format_bytes octets) ≡ some octets
unfolding unhex_bytes format_bytes
unhex_bytes-format_bytes [] h = refl
unhex_bytes-format_bytes (b ∷ octets) (h, hs) =
    rw
      (
        unhex-hex_chars (b / 16) (omega (arith, h)),
        unhex-hex_chars (b % 16) (omega arith),
        unhex_bytes-format_bytes octets hs,
      )
      (ap (λ n. some (n ∷ octets)) (omega arith))
