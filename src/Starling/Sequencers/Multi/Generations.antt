-- ===== src/Starling/Sequencers/Multi/Generations.antt =====
-- What a slot's generation says about the positions that share the slot.
use menagerie.Prelude.{
  ℕ, ◌+◌, ◌*◌, ◌/◌, ◌%◌, ◌≤◌, ◌<◌, ◌≡◌, refl, sym, ap, ◌∙◌, ◌≢◌, true, false, arith, ◌==◌,
  if◌then◌else◌, ==-eq-false,
}
use native.Mathlib.Nat.{add-mul-mod_self_right, add-mul-div_right}
use menagerie.Prelude.Int.{ℤ, pos, negsuc}
use menagerie.Starling.Sequencers.{int64_max, to_uint64}
use menagerie.Starling.Sequencers.Slots.{slot-injective}
use menagerie.Starling.Sequencers.Multi.{
  MultiProducerSequencer, slot_of, generation_of, publish_slot, is_available,
}

slot_of_pos :
    (n : ℕ) (s : MultiProducerSequencer) → n ≤ int64_max → slot_of (pos n) s ≡ n % s.capacity
unfolding slot_of to_uint64
slot_of_pos n s h = ap (λ m. m % s.capacity) (omega (arith, h))

is_available-publish_slot :
    (p q : ℤ) (s : MultiProducerSequencer)
    → is_available q (publish_slot p s) ≡ (
        (if slot_of q s == slot_of p s then generation_of p s else s.slot_generations (slot_of q s))
        == generation_of q s)
unfolding is_available publish_slot slot_of
is_available-publish_slot (pos p) (pos q) s = unfold generation_of in refl
is_available-publish_slot (pos p) (negsuc q) s = unfold generation_of in refl
is_available-publish_slot (negsuc p) (pos q) s = unfold generation_of in refl
is_available-publish_slot (negsuc p) (negsuc q) s = unfold generation_of in refl

==-refl : (n : ℕ) → (n == n) ≡ true
==-refl n = ground arith

-- Publishing a position makes it available.
pub publish_slot-available :
    (p : ℤ) (s : MultiProducerSequencer) → is_available p (publish_slot p s) ≡ true
publish_slot-available p s =
    is_available-publish_slot p p s ∙ rw (==-refl (slot_of p s), ==-refl (generation_of p s))

-- For positions p and q within int64, less than a capacity apart and not the same, publishing p
-- does not change whether q is available.
pub publish_slot-elsewhere :
    (p q : ℕ) (s : MultiProducerSequencer)
    → p ≤ int64_max
    → q ≤ int64_max
    → p < q + s.capacity
    → q < p + s.capacity
    → p ≢ q
    → is_available (pos q) (publish_slot (pos p) s) ≡ is_available (pos q) s
unfolding is_available
publish_slot-elsewhere p q s hp hq h k apart =
    is_available-publish_slot (pos p) (pos q) s
    ∙ rw (==-eq-false (slot_of (pos q) s) (slot_of (pos p) s) other)
  where
    other : slot_of (pos q) s ≢ slot_of (pos p) s
    other e = apart (
        slot-injective p q s.capacity h k (sym (slot_of_pos p s hp) ∙ (sym e ∙ slot_of_pos q s hq)))

generation_later :
    (p laps : ℕ) (s : MultiProducerSequencer)
    → 1 ≤ s.capacity
    → 1 ≤ laps
    → laps < 4294967296
    → generation_of (pos p) s ≢ generation_of (pos (p + laps * s.capacity)) s
unfolding generation_of
generation_later p laps s c h k e =
    let split : (p + laps * s.capacity) / s.capacity ≡ p / s.capacity + laps =
      add-mul-div_right p laps (omega (arith, c)) in
    omega (arith, h, k, e ∙ ap (λ n. n % 4294967296) split)

-- For a capacity of at least one, a published position does not make a later one in its slot
-- available: not before as many laps of the ring as an int32 generation can tell apart.
pub publish_slot-later :
    (p laps : ℕ) (s : MultiProducerSequencer)
    → 1 ≤ s.capacity
    → 1 ≤ laps
    → laps < 4294967296
    → p + laps * s.capacity ≤ int64_max
    → is_available (pos (p + laps * s.capacity)) (publish_slot (pos p) s) ≡ false
publish_slot-later p laps s c h k m =
    is_available-publish_slot (pos p) (pos (p + laps * s.capacity)) s
    ∙ rw (same, ==-refl (slot_of (pos p) s))
        (==-eq-false (generation_of (pos p) s) (generation_of (pos (p + laps * s.capacity)) s)
          (generation_later p laps s c h k))
  where
    same : slot_of (pos (p + laps * s.capacity)) s ≡ slot_of (pos p) s
    same =
        slot_of_pos (p + laps * s.capacity) s m
        ∙ (add-mul-mod_self_right p laps s.capacity ∙ sym (slot_of_pos p s (omega (arith, m))))
