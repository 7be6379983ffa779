-- ===== src/Starling/Sequencers/Slots.antt =====
-- The slots of a ring: a position's slot is the position modulo the capacity, which for the powers
-- of two that the constructors assert is `position & (capacity - 1)`.
use menagerie.Prelude.{
  ℕ, ◌+◌, ◌-◌, ◌%◌, ◌≤◌, ◌<◌, ◌≡◌, sym, ap, ◌∙◌, inl, inr, arith, ltb, leb, ltb→lt, leb→le,
  Bool-cases,
}
use native.Mathlib.Nat.{mod-lt, mod-eq_of_lt, mod-eq-sub-mod, mod-add-mod}

-- Two positions less than a capacity apart are in one slot only if they are the same.
slot_near : (p d capacity : ℕ) → d < capacity → (p + d) % capacity ≡ p % capacity → d ≡ 0
slot_near p d capacity h e =
    let low : p % capacity < capacity = mod-lt p (omega (arith, h)) in
    let start = mod-add-mod p capacity d ∙ e in
    elim (Bool-cases (ltb (p % capacity + d) capacity)) [
      | inl y ↦ omega (arith, sym (mod-eq_of_lt (ltb→lt _ _ y)) ∙ start)
      | inr n ↦
          let wrapped : capacity ≤ p % capacity + d = ground arith in
          let short : p % capacity + d - capacity < capacity = omega (arith, low, h) in
          omega (arith, low, wrapped, sym (mod-eq-sub-mod wrapped ∙ mod-eq_of_lt short) ∙ start)
    ]

pub slot-injective :
    (p q capacity : ℕ) → p < q + capacity → q < p + capacity → p % capacity ≡ q % capacity → p ≡ q
slot-injective p q capacity h k e = elim (Bool-cases (leb p q)) [
  | inl y ↦
      let le = leb→le p q y in
      let same : p + (q - p) ≡ q = omega (arith, le) in
      omega (
        arith,
        le,
        slot_near p (q - p) capacity (omega (arith, k, le)) (ap (λ n. n % capacity) same ∙ sym e),
      )
  | inr n ↦
      let lt : q < p = ground arith in
      let same : q + (p - q) ≡ p = omega (arith, lt) in
      omega (
        arith,
        lt,
        slot_near q (p - q) capacity (omega (arith, h, lt)) (ap (λ n. n % capacity) same ∙ e),
      )
]
