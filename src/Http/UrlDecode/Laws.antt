-- ===== src/Http/UrlDecode/Laws.antt =====
-- What percent-decoding computes: a relation over the input, the bound on its buffer, and the
-- zero-copy variant.
use menagerie.Prelude.{
  ℕ, zero, suc, ◌+◌, ◌-◌, ◌*◌, ◌%◌, ◌≤◌, ◌<◌, ◌≡◌, refl, sym, ap, ◌∙◌, ◌≢◌, ◌↔◌, ◌⊎◌, inl, inr,
  Bool, true, false, ◌&&◌, Option, none, some, [], ◌∷◌, arith, ltb, ◌==◌, if◌then◌else◌, Bool-cases,
  Option-cases, length, drop, Bytes,
}
use mathlib.Core.Option
use menagerie.Http.UrlDecode.{
  hex_val, escape_byte, escaped, decode_into, url_decode, url_decode_arena, needs_rewrite,
}

-- `c` is a hexadecimal digit of value `v`.
abbrev pub IsHexDigit : ℕ → ℕ → Type 0
IsHexDigit c v =
    (v < 16)
    × ((c ≡ (if ltb v 10 then b'0' + v else b'A' + v - 10))
        ⊎ (c ≡ (if ltb v 10 then b'0' + v else b'a' + v - 10)))

-- RFC 3986 decoding: an escape stands for its byte, and '+' for a space where the form asks for it.
pub data Decodes (plus : Bool) : Bytes → Bytes → Type 0 where
  done : Decodes plus [] []
  space :
      {c : ℕ} {r out : Bytes}
      → c ≡ b'+'
      → plus ≡ true
      → Decodes plus r out
      → Decodes plus (c ∷ r) (32 ∷ out)
  escape :
      {c h l : ℕ} (x y : ℕ) {r out : Bytes}
      → c ≡ b'%'
      → IsHexDigit h x
      → IsHexDigit l y
      → Decodes plus r out
      → Decodes plus (c ∷ h ∷ l ∷ r) ((x * 16 + y) ∷ out)
  plain :
      {c : ℕ} {r out : Bytes}
      → c ≢ b'%'
      → ¬ ((c ≡ b'+') × (plus ≡ true))
      → Decodes plus r out
      → Decodes plus (c ∷ r) (c ∷ out)

hex_val-IsHexDigit : (c v : ℕ) → hex_val c ≡ some v → IsHexDigit c v
unfolding hex_val
hex_val-IsHexDigit c v h = ground arith

hex_val_of_IsHexDigit : (c v : ℕ) → IsHexDigit c v → hex_val c ≡ some v
unfolding hex_val
hex_val_of_IsHexDigit c v h = ground arith

-- One round of the loop, taken apart.
module _ (plus : Bool) (c : ℕ) (rest out : Bytes) where
  abbrev Spaced : Type 0
  Spaced =
      (c ≡ b'+')
      × (plus ≡ true)
      × ((t : Bytes) × (decode_into plus 0 rest ≡ some t) × (32 ∷ t ≡ out))

  abbrev Escaped : Type 0
  Escaped =
      (c ≡ b'%')
      × ((b : ℕ) × (escaped rest ≡ some b)
          × ((t : Bytes) × (decode_into plus 2 rest ≡ some t) × (b ∷ t ≡ out)))

  abbrev Plain : Type 0
  Plain =
      (c ≢ b'%')
      × ¬ ((c ≡ b'+') × (plus ≡ true))
      × ((t : Bytes) × (decode_into plus 0 rest ≡ some t) × (c ∷ t ≡ out))

  decode_into-round : decode_into plus 0 (c ∷ rest) ≡ some out → Spaced ⊎ (Escaped ⊎ Plain)
  unfolding decode_into
  decode_into-round e = elim (Bool-cases (c == b'+' && plus)) [
    | inl s ↦ inl (ground arith, ground arith, (Option.map-eq-some_iff _ _).0 (rw s at e))
    | inr s ↦ elim (Bool-cases (c == b'%')) [
      | inl p ↦ elim (Option-cases (escaped rest)) [
        | inl n ↦ absurd (ground arith)
        | inr (b, q) ↦
            inr (inl (ground arith, (b, q, (Option.map-eq-some_iff _ _).0 (rw (s, p, q) at e))))
      ]
      | inr p ↦
          inr (inr (ground arith, ground arith, (Option.map-eq-some_iff _ _).0 (rw (s, p) at e)))
    ]
  ]

escape_byte-eq-some :
    (hi lo : Option ℕ) (b : ℕ)
    → escape_byte hi lo ≡ some b
    → (x y : ℕ) × (hi ≡ some x) × (lo ≡ some y) × ((x * 16 + y) % 256 ≡ b)
escape_byte-eq-some none lo b e = cc
escape_byte-eq-some (some x) none b e = cc
escape_byte-eq-some (some x) (some y) b e = (x, y, refl, refl, ground arith)

-- What an escape is, from the bytes behind its '%'.
escaped-eq-some :
    (rest : Bytes) (b : ℕ)
    → escaped rest ≡ some b
    → (h l : ℕ) × (r : Bytes) × (x y : ℕ) × (h ∷ l ∷ r ≡ rest)
      × IsHexDigit h x
      × IsHexDigit l y
      × (x * 16 + y ≡ b)
unfolding escaped
escaped-eq-some [] b e = cc
escaped-eq-some (h ∷ []) b e = cc
escaped-eq-some (h ∷ l ∷ r) b e =
    let (x, y, p, q, v) = escape_byte-eq-some (hex_val h) (hex_val l) b e in
    let d = hex_val-IsHexDigit h x p in
    let d' = hex_val-IsHexDigit l y q in (h, l, r, x, y, refl, d, d', omega (arith, d.0, d'.0))

-- The decoded form never grows: the writes fit the buffer of `in.size()` bytes.
decode_into-le :
    (plus : Bool) (skip : ℕ) (input out : Bytes)
    → decode_into plus skip input ≡ some out
    → length out ≤ length input
unfolding decode_into
decode_into-le plus skip [] out e = ground arith
decode_into-le plus (suc skip) (c ∷ rest) out e = ground (arith, decode_into-le plus skip rest out)
decode_into-le plus zero (c ∷ rest) out e = elim (decode_into-round plus c rest out e) [
  | inl (_, _, (t, d, q)) ↦ rw (← q) (omega (arith, decode_into-le plus 0 rest t d))
  | inr (inl (_, (b, _, (t, d, q)))) ↦ rw (← q) (omega (arith, decode_into-le plus 2 rest t d))
  | inr (inr (_, _, (t, d, q))) ↦ rw (← q) (omega (arith, decode_into-le plus 0 rest t d))
]

module _ (plus : Bool) where
  decode_into_sound :
      (skip : ℕ) (input out : Bytes)
      → decode_into plus skip input ≡ some out
      → Decodes plus (drop skip input) out
  unfolding decode_into
  decode_into_sound zero [] out e = rw (← e') Decodes.done
    where
      e' : [] ≡ out
      e' = ground arith
  decode_into_sound (suc skip) [] out e = rw (← e') Decodes.done
    where
      e' : [] ≡ out
      e' = ground arith
  decode_into_sound (suc skip) (c ∷ rest) out e = decode_into_sound skip rest out e
  decode_into_sound zero (c ∷ rest) out e = elim (decode_into-round plus c rest out e) [
    | inl (p, q, (t, d, w)) ↦ rw (← w) (Decodes.space p q (decode_into_sound 0 rest t d))
    | inr (inl (p, (b, q, (t, d, w)))) ↦
        let (h, l, r, x, y, same, dx, dy, v) = escaped-eq-some rest b q in
        let tail = rw (← same) at (decode_into_sound 2 rest t d) in
        rw (← w, ← same, ← v) (Decodes.escape x y p dx dy tail)
    | inr (inr (p, q, (t, d, w))) ↦ rw (← w) (Decodes.plain p q (decode_into_sound 0 rest t d))
  ]

  escape_round :
      (c b : ℕ) (rest : Bytes)
      → c ≡ b'%'
      → escaped rest ≡ some b
      → decode_into plus 0 (c ∷ rest) ≡ Option.map (λ out. b ∷ out) (decode_into plus 2 rest)
  unfolding decode_into
  escape_round c b rest p e = ground arith

  escaped_of_digits :
      (h l x y : ℕ) (r : Bytes)
      → IsHexDigit h x
      → IsHexDigit l y
      → escaped (h ∷ l ∷ r) ≡ some (x * 16 + y)
  unfolding escaped
  escaped_of_digits h l x y r dx dy =
      rw (hex_val_of_IsHexDigit h x dx, hex_val_of_IsHexDigit l y dy)
        (ap some (omega (arith, dx.0, dy.0)))

  decode_into_complete :
      {input out : Bytes} → Decodes plus input out → decode_into plus 0 input ≡ some out
  unfolding decode_into
  decode_into_complete Decodes.done = refl
  decode_into_complete (Decodes.space p q d) = ground (arith, decode_into_complete d)
  decode_into_complete (Decodes.escape {c} {h} {l} x y {r} p dx dy d) =
      escape_round c _ (h ∷ l ∷ r) p (escaped_of_digits h l x y r dx dy)
      ∙ ap (Option.map (λ out. (x * 16 + y) ∷ out)) (decode_into_complete d)
  decode_into_complete (Decodes.plain p q d) = ground (arith, decode_into_complete d)

-- Decoding succeeds exactly on the inputs that the relation relates, with the related output.
pub url_decode_iff :
    (input out : Bytes) (plus : Bool) → (url_decode input plus ≡ some out) ↔ Decodes plus input out
unfolding url_decode
url_decode_iff input out plus = (decode_into_sound plus 0 input out, decode_into_complete plus)

-- A decoded output is no longer than its input.
pub length-url_decode-le :
    (input out : Bytes) (plus : Bool) → url_decode input plus ≡ some out → length out ≤ length input
unfolding url_decode
length-url_decode-le input out plus e = decode_into-le plus 0 input out e

decode_into_of_plain :
    (plus : Bool) (input : Bytes)
    → needs_rewrite input plus ≡ false
    → decode_into plus 0 input ≡ some input
unfolding decode_into
decode_into_of_plain plus [] e = refl
decode_into_of_plain plus (c ∷ rest) e = ground (arith, decode_into_of_plain plus rest)

-- The arena variant decodes as the owning one does, takes no arena byte when nothing needs a
-- rewrite, and else a buffer that holds the output.
pub url_decode_arena-eq-url_decode :
    (input : Bytes) (plus : Bool)
    → let (view, taken) = url_decode_arena input plus in
      (view ≡ url_decode input plus)
      × (needs_rewrite input plus ≡ false → taken ≡ 0)
      × (needs_rewrite input plus ≡ true → (out : Bytes) → view ≡ some out → length out ≤ taken)
unfolding url_decode_arena url_decode
url_decode_arena-eq-url_decode input plus = elim (Bool-cases (needs_rewrite input plus)) [
  | inl y ↦ rw y (refl, λ e. cc, λ _. decode_into-le plus 0 input)
  | inr n ↦ rw n (sym (decode_into_of_plain plus input n), λ _. refl, λ e. cc)
]
