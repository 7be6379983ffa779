-- ===== src/Savanna/Dialect/Rendering.antt =====
-- Numbers in decimal.
use menagerie.Prelude.{
  ℕ, zero, suc, ◌+◌, ◌-◌, ◌*◌, ◌/◌, ◌%◌, ◌^◌, ◌≤◌, ◌<◌, ◌≡◌, refl, sym, ap, ◌∙◌, inl, inr, true, [],
  ◌∷◌, arith, leb, ◌==◌, ==_iff, Bool-cases, length, Bytes,
}
use menagerie.Prelude.{all_below, all_below_sound}
use menagerie.Savanna.Dialect.{
  char_at, digit_pairs, push_pair, push_last, push_pairs, constexpr_to_string,
}

-- The number that decimal digits make, after those already read.
abbrev pub read_decimal : ℕ → Bytes → ℕ
read_decimal n [] = n
read_decimal n (c ∷ cs) = read_decimal (n * 10 + (c - b'0')) cs

-- The greatest number that so many rounds of the loop write in full is below this.
abbrev bound_of : ℕ → ℕ
bound_of zero = 100
bound_of (suc fuel) = 100 * bound_of fuel

abbrev pair_value : ℕ → ℕ
pair_value n = (char_at digit_pairs (n * 2) - b'0') * 10 + (char_at digit_pairs (n * 2 + 1) - b'0')

pair_table : all_below 100 (λ n. pair_value n == n) ≡ true
pair_table = refl

pair_value-below : (n : ℕ) → n < 100 → pair_value n ≡ n
pair_value-below n h =
    (==_iff (pair_value n) n).0 (all_below_sound 100 (λ n. pair_value n == n) n pair_table h)

read-push_pair :
    (n k : ℕ) (buffer : Bytes)
    → n < 100
    → read_decimal k (push_pair n buffer) ≡ read_decimal (100 * k + n) buffer
read-push_pair n k buffer h =
    let known = pair_value-below n h in ap (λ v. read_decimal v buffer) (omega (arith, known))

read-push_last :
    (temp : ℕ) (buffer : Bytes)
    → temp < 100
    → read_decimal 0 (push_last temp buffer) ≡ read_decimal temp buffer
unfolding push_last
read-push_last temp buffer h = elim (Bool-cases (leb 10 temp)) [
  | inl two ↦
      rw two (read-push_pair temp 0 buffer h ∙ ap (λ v. read_decimal v buffer) (omega arith))
  | inr one ↦ rw one (ap (λ v. read_decimal v buffer) (omega arith))
]

-- With fuel enough, the loop writes its number in decimal in front of the buffer.
read-push_pairs :
    (fuel temp : ℕ) (buffer : Bytes)
    → temp < bound_of fuel
    → read_decimal 0 (push_pairs fuel temp buffer) ≡ read_decimal temp buffer
unfolding push_pairs
read-push_pairs zero temp buffer h = read-push_last temp buffer h
read-push_pairs (suc fuel) temp buffer h = elim (Bool-cases (leb 100 temp)) [
  | inl more ↦ rw more (
      read-push_pairs fuel (temp / 100) (push_pair (temp % 100) buffer) (omega (arith, h))
      ∙ (read-push_pair (temp % 100) (temp / 100) buffer (omega arith)
          ∙ ap (λ v. read_decimal v buffer) (omega arith)))
  | inr done ↦ rw done (read-push_last temp buffer (ground (arith, done)))
]

-- A `size_t` that is written in decimal reads back as itself.
pub read_decimal-constexpr_to_string :
    (value : ℕ) → value < 2 ^ 64 → read_decimal 0 (constexpr_to_string value) ≡ value
unfolding constexpr_to_string
read_decimal-constexpr_to_string value h = elim (Bool-cases (value == 0)) [
  | inl e ↦ rw e (sym ((==_iff value 0).0 e))
  | inr n ↦ rw n (read-push_pairs 9 value [] (omega (arith, h)))
]

length-push_last : (temp : ℕ) (buffer : Bytes) → length (push_last temp buffer) ≤ length buffer + 2
unfolding push_last
length-push_last temp buffer = elim (Bool-cases (leb 10 temp)) [
  | inl two ↦ rw two (omega arith)
  | inr one ↦ rw one (omega arith)
]

length-push_pairs :
    (fuel temp : ℕ) (buffer : Bytes)
    → length (push_pairs fuel temp buffer) ≤ length buffer + 2 * fuel + 2
unfolding push_pairs
length-push_pairs zero temp buffer = omega (arith, length-push_last temp buffer)
length-push_pairs (suc fuel) temp buffer = elim (Bool-cases (leb 100 temp)) [
  | inl more ↦
      let rest = length-push_pairs fuel (temp / 100) (push_pair (temp % 100) buffer) in
      rw more (omega (arith, rest))
  | inr done ↦ rw done (omega (arith, length-push_last temp buffer))
]

-- No number needs more than the 20 bytes of the buffer.
pub length-constexpr_to_string : (value : ℕ) → length (constexpr_to_string value) ≤ 20
unfolding constexpr_to_string
length-constexpr_to_string value = elim (Bool-cases (value == 0)) [
  | inl e ↦ rw e (omega arith)
  | inr n ↦ rw n (omega (arith, length-push_pairs 9 value []))
]
