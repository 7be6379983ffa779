-- ===== src/Http/UrlDecode/Encoding.antt =====
-- Percent-encoding, the reference that decoding undoes. The program itself never encodes.
use menagerie.Prelude.{
  ℕ, ◌+◌, ◌-◌, ◌*◌, ◌/◌, ◌%◌, ◌<◌, ◌≡◌, refl, ap, subst, ◌≢◌, inl, inr, Bool, true, false, some, [],
  ◌∷◌, arith, ltb, if◌then◌else◌, Bool-cases, All, Bytes,
}
use menagerie.Http.UrlDecode.{url_decode}
use menagerie.Http.UrlDecode.Laws.{IsHexDigit, Decodes, url_decode_iff}

unfoldable pub hex_digit : ℕ → ℕ
hex_digit v = if ltb v 10 then b'0' + v else b'A' + v - 10

-- RFC 3986 section 2.1, with the unreserved characters as a parameter.
unfoldable pub percent_encode : (ℕ → Bool) → Bytes → Bytes
unfolding hex_digit
percent_encode safe [] = []
percent_encode safe (c ∷ s) =
    let rest = percent_encode safe s in
    if safe c then c ∷ rest else b'%' ∷ hex_digit (c / 16) ∷ hex_digit (c % 16) ∷ rest

-- A character that stands for itself is neither the escape character nor '+'.
abbrev pub IsUnreserved : (ℕ → Bool) → Type 0
IsUnreserved safe = (c : ℕ) → safe c ≡ true → (c ≢ b'%') × (c ≢ b'+')

abbrev pub IsByte : ℕ → Type 0
IsByte c = c < 256

hex_digit-IsHexDigit : (v : ℕ) → v < 16 → IsHexDigit (hex_digit v) v
unfolding hex_digit
hex_digit-IsHexDigit v h = (h, inl refl)

module _ (safe : ℕ → Bool) (unreserved : IsUnreserved safe) (plus : Bool) where
  percent_encode-Decodes : (s : Bytes) → All IsByte s → Decodes plus (percent_encode safe s) s
  unfolding percent_encode
  percent_encode-Decodes [] _ = Decodes.done
  percent_encode-Decodes (c ∷ s) (b, h) = elim (Bool-cases (safe c)) [
    | inl y ↦ rw y (
        Decodes.plain (unreserved c y).0 (λ p. (unreserved c y).1 p.0) (percent_encode-Decodes s h))
    | inr n ↦
        let e : c / 16 * 16 + c % 16 ≡ c = omega arith in
        rw n (
          subst
            (λ d.
              Decodes plus (b'%' ∷ hex_digit (c / 16) ∷ hex_digit (c % 16) ∷ percent_encode safe s)
                (d ∷ s))
            e
            (Decodes.escape (c / 16) (c % 16) refl (hex_digit-IsHexDigit (c / 16) (omega arith))
              (hex_digit-IsHexDigit (c % 16) (omega arith)) (percent_encode-Decodes s h)))
  ]

-- Decoding gives back the bytes that were percent-encoded, in both modes, whichever characters
-- other than '%' and '+' stood for themselves.
pub url_decode-percent_encode :
    (safe : ℕ → Bool) (s : Bytes) (plus : Bool)
    → IsUnreserved safe
    → All IsByte s
    → url_decode (percent_encode safe s) plus ≡ some s
url_decode-percent_encode safe s plus unreserved h =
    (url_decode_iff _ s plus).1 (percent_encode-Decodes safe unreserved plus s h)

pub percent_encode-ne-nil : (safe : ℕ → Bool) (s : Bytes) → s ≢ [] → percent_encode safe s ≢ []
unfolding percent_encode
percent_encode-ne-nil safe [] h e = h refl
percent_encode-ne-nil safe (c ∷ s) h e = ground arith

hex_digit-ne-slash : (v : ℕ) → hex_digit v ≢ b'/'
unfolding hex_digit
hex_digit-ne-slash v e = ground arith

-- What is escaped holds no slash, unless a slash stands for itself.
pub percent_encode-All-ne-slash :
    (safe : ℕ → Bool) (s : Bytes) → safe b'/' ≡ false → All (λ c. c ≢ b'/') (percent_encode safe s)
unfolding percent_encode
percent_encode-All-ne-slash safe [] k = tt
percent_encode-All-ne-slash safe (c ∷ s) k = elim (Bool-cases (safe c)) [
  | inl y ↦ rw (y, percent_encode) ((λ e. cc (ap safe e)), percent_encode-All-ne-slash safe s k)
  | inr n ↦
      rw (n, percent_encode)
        (
          (λ e. ground arith),
          (
            hex_digit-ne-slash (c / 16),
            (hex_digit-ne-slash (c % 16), percent_encode-All-ne-slash safe s k),
          ),
        )
]
