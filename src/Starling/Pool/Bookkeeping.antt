-- ===== src/Starling/Pool/Bookkeeping.antt =====
-- The invariant of a pool's inventory, and the changes of one slot's state.
use menagerie.Prelude.{
  ℕ, zero, suc, ◌+◌, ◌≤◌, ◌<◌, ◌≡◌, ap, Bool, true, false, Option, some, List, [], ◌∷◌, arith, ◌==◌,
  if◌then◌else◌, length, get_elem?,
}
use menagerie.Starling.Pool.{
  SlotState, vacant, reserved, idle, borrowed, quarantined, set_elem, bit_at, Pool, publish_idle,
  take_bit, quarantine_borrowed,
}
use menagerie.Starling.Pool.Operations.{count_bits, make_usable, rollback, take_back}
use menagerie.Starling.Pool.Slots.{
  same_state, one_if, count, has, occurrences, count-set_elem, length-set_elem, has-set_elem, had,
  bit_at-set_elem, count_bits-set_elem,
}

abbrev pub state_at : Pool → ℕ → Option SlotState
state_at p j = get_elem? p.states j

-- Each registry holds just the slots of its state, each once, and the counters count theirs.
pub record IsValid (p : Pool) : Type 0 where
  pub bits : length p.idle_bits ≡ length p.states
  pub in_vacant : (j : ℕ) → occurrences j p.vacant_slots ≡ has vacant (state_at p j)
  pub in_quarantined : (j : ℕ) → occurrences j p.quarantined_slots ≡ has quarantined (state_at p j)
  pub published : (j : ℕ) → one_if (bit_at p.idle_bits j) ≡ has idle (state_at p j)
  pub vacants : length p.vacant_slots ≡ count vacant p.states
  pub quarantineds : length p.quarantined_slots ≡ count quarantined p.states
  pub idles : count_bits p.idle_bits ≡ count idle p.states
  pub reserveds : p.reserved_count ≡ count reserved p.states
  pub usables : p.usable_size ≡ count idle p.states + count borrowed p.states
  pub gate : p.waiter_gate ≡ length p.waiters

-- The sum that the source asserts.
count_all :
    (xs : List SlotState)
    → length xs
      ≡ count vacant xs
        + count reserved xs
        + count quarantined xs
        + count idle xs
        + count borrowed xs
count_all [] = omega arith
count_all (vacant ∷ xs) = omega (arith, count_all xs)
count_all (reserved ∷ xs) = omega (arith, count_all xs)
count_all (idle ∷ xs) = omega (arith, count_all xs)
count_all (borrowed ∷ xs) = omega (arith, count_all xs)
count_all (quarantined ∷ xs) = omega (arith, count_all xs)

pub IsValid-sum :
    (p : Pool)
    → IsValid p
    → (length p.states
        ≡ length p.vacant_slots + p.reserved_count + length p.quarantined_slots + p.usable_size)
      × (count_bits p.idle_bits ≤ p.usable_size)
IsValid-sum p v = (
  omega (arith, count_all p.states, v.vacants, v.reserveds, v.quarantineds, v.usables),
  omega (arith, v.idles, v.usables),
)

-- A slot of which the state is known is one of the slots.
pub known-lt :
    (xs : List SlotState) (i : ℕ) (s : SlotState) → get_elem? xs i ≡ some s → i < length xs
known-lt [] i s e = absurd cc
known-lt (x ∷ xs) zero s e = omega arith
known-lt (x ∷ xs) (suc i) s e = omega (arith, known-lt xs i s e)

-- What a change of one slot from one state to another does to the tallies.
pub record Change (p : Pool) (i : ℕ) (old new : SlotState) : Type 0 where
  pub tally :
      (s : SlotState)
      → count s (set_elem i new p.states) + one_if (same_state s old)
        ≡ count s p.states + one_if (same_state s new)
  pub at :
      (s : SlotState) (j : ℕ)
      → has s (get_elem? (set_elem i new p.states) j)
        ≡ (if i == j then one_if (same_state s new) else has s (get_elem? p.states j))
  pub was :
      (s : SlotState) (j : ℕ)
      → (if i == j then has s (state_at p j) else one_if (same_state s old))
        ≡ one_if (same_state s old)
  pub here : (s : SlotState) → has s (state_at p i) ≡ one_if (same_state s old)
  pub same_length : length (set_elem i new p.states) ≡ length p.states
  pub within : i < length p.idle_bits
  pub set_bit :
      (b : Bool) (j : ℕ)
      → bit_at (set_elem i b p.idle_bits) j ≡ (if i == j then b else bit_at p.idle_bits j)
  pub set_count :
      (b : Bool)
      → count_bits (set_elem i b p.idle_bits) + one_if (bit_at p.idle_bits i)
        ≡ count_bits p.idle_bits + one_if b
  pub set_length : (b : Bool) → length (set_elem i b p.idle_bits) ≡ length p.idle_bits

pub changes :
    (p : Pool) (i : ℕ) (old new : SlotState)
    → IsValid p
    → state_at p i ≡ some old
    → Change p i old new
changes p i old new v e =
    let within : i < length p.idle_bits = omega (arith, v.bits, known-lt p.states i old e) in
    record {
      tally = λ s. count-set_elem s old new i p.states e;
      at = λ s j. has-set_elem s old new i j p.states e;
      was = λ s j. had s old i j p.states e;
      here = λ s. ap (has s) e;
      same_length = length-set_elem i new p.states;
      within = within;
      set_bit = λ b j. bit_at-set_elem b i j p.idle_bits within;
      set_count = λ b. count_bits-set_elem b i p.idle_bits within;
      set_length = λ b. length-set_elem i b p.idle_bits;
    }

-- Each change of one slot's state, which keeps the invariant.
pub publish_idle-IsValid :
    (i : ℕ) (p : Pool) → IsValid p → state_at p i ≡ some borrowed → IsValid (publish_idle i p)
unfolding publish_idle
publish_idle-IsValid i p v e =
    let c = changes p i borrowed idle v e in
    record {
      bits = omega (arith, v.bits, c.same_length, c.set_length true);
      in_vacant = λ j. ground (arith, v.in_vacant j, c.at vacant j, c.was vacant j);
      in_quarantined =
          λ j. ground (arith, v.in_quarantined j, c.at quarantined j, c.was quarantined j);
      published = λ j. ground (arith, v.published j, c.at idle j, c.was idle j, c.set_bit true j);
      vacants = omega (arith, v.vacants, c.tally vacant);
      quarantineds = omega (arith, v.quarantineds, c.tally quarantined);
      idles = omega (arith, v.idles, c.tally idle, v.published i, c.here idle, c.set_count true);
      reserveds = omega (arith, v.reserveds, c.tally reserved);
      usables = omega (arith, v.usables, c.tally idle, c.tally borrowed);
      gate = v.gate;
    }

pub take_bit-IsValid :
    (i : ℕ) (p : Pool) → IsValid p → state_at p i ≡ some idle → IsValid (take_bit i p)
take_bit-IsValid i p v e =
    let c = changes p i idle borrowed v e in
    record {
      bits = omega (arith, v.bits, c.same_length, c.set_length false);
      in_vacant = λ j. ground (arith, v.in_vacant j, c.at vacant j, c.was vacant j);
      in_quarantined =
          λ j. ground (arith, v.in_quarantined j, c.at quarantined j, c.was quarantined j);
      published = λ j. ground (arith, v.published j, c.at idle j, c.was idle j, c.set_bit false j);
      vacants = omega (arith, v.vacants, c.tally vacant);
      quarantineds = omega (arith, v.quarantineds, c.tally quarantined);
      idles = omega (arith, v.idles, c.tally idle, v.published i, c.here idle, c.set_count false);
      reserveds = omega (arith, v.reserveds, c.tally reserved);
      usables = omega (arith, v.usables, c.tally idle, c.tally borrowed);
      gate = v.gate;
    }

pub quarantine_borrowed-IsValid :
    (i : ℕ) (p : Pool)
    → IsValid p
    → state_at p i ≡ some borrowed
    → IsValid (quarantine_borrowed i p)
unfolding quarantine_borrowed
quarantine_borrowed-IsValid i p v e =
    let c = changes p i borrowed quarantined v e in
    record {
      bits = omega (arith, v.bits, c.same_length);
      in_vacant = λ j. ground (arith, v.in_vacant j, c.at vacant j, c.was vacant j);
      in_quarantined =
          λ j. ground (arith, v.in_quarantined j, c.at quarantined j, c.was quarantined j);
      published = λ j. ground (arith, v.published j, c.at idle j, c.was idle j);
      vacants = omega (arith, v.vacants, c.tally vacant);
      quarantineds = omega (arith, v.quarantineds, c.tally quarantined);
      idles = omega (arith, v.idles, c.tally idle);
      reserveds = omega (arith, v.reserveds, c.tally reserved);
      usables = omega (arith, v.usables, c.tally idle, c.tally borrowed);
      gate = v.gate;
    }

pub make_usable-IsValid :
    (i : ℕ) (p : Pool) → IsValid p → state_at p i ≡ some reserved → IsValid (make_usable i p)
make_usable-IsValid i p v e =
    let c = changes p i reserved borrowed v e in
    record {
      bits = omega (arith, v.bits, c.same_length);
      in_vacant = λ j. ground (arith, v.in_vacant j, c.at vacant j, c.was vacant j);
      in_quarantined =
          λ j. ground (arith, v.in_quarantined j, c.at quarantined j, c.was quarantined j);
      published = λ j. ground (arith, v.published j, c.at idle j, c.was idle j);
      vacants = omega (arith, v.vacants, c.tally vacant);
      quarantineds = omega (arith, v.quarantineds, c.tally quarantined);
      idles = omega (arith, v.idles, c.tally idle);
      reserveds = omega (arith, v.reserveds, c.tally reserved);
      usables = omega (arith, v.usables, c.tally idle, c.tally borrowed);
      gate = v.gate;
    }

pub rollback-IsValid :
    (i : ℕ) (p : Pool) → IsValid p → state_at p i ≡ some reserved → IsValid (rollback i p)
unfolding rollback
rollback-IsValid i p v e =
    let c = changes p i reserved vacant v e in
    record {
      bits = omega (arith, v.bits, c.same_length);
      in_vacant = λ j. ground (arith, v.in_vacant j, c.at vacant j, c.was vacant j);
      in_quarantined =
          λ j. ground (arith, v.in_quarantined j, c.at quarantined j, c.was quarantined j);
      published = λ j. ground (arith, v.published j, c.at idle j, c.was idle j);
      vacants = omega (arith, v.vacants, c.tally vacant);
      quarantineds = omega (arith, v.quarantineds, c.tally quarantined);
      idles = omega (arith, v.idles, c.tally idle);
      reserveds = omega (arith, v.reserveds, c.tally reserved);
      usables = omega (arith, v.usables, c.tally idle, c.tally borrowed);
      gate = v.gate;
    }

pub take_back-IsValid :
    (i : ℕ) (p : Pool) → IsValid p → state_at p i ≡ some borrowed → IsValid (take_back i p)
take_back-IsValid i p v e =
    let c = changes p i borrowed reserved v e in
    record {
      bits = omega (arith, v.bits, c.same_length);
      in_vacant = λ j. ground (arith, v.in_vacant j, c.at vacant j, c.was vacant j);
      in_quarantined =
          λ j. ground (arith, v.in_quarantined j, c.at quarantined j, c.was quarantined j);
      published = λ j. ground (arith, v.published j, c.at idle j, c.was idle j);
      vacants = omega (arith, v.vacants, c.tally vacant);
      quarantineds = omega (arith, v.quarantineds, c.tally quarantined);
      idles = omega (arith, v.idles, c.tally idle);
      reserveds = omega (arith, v.reserveds, c.tally reserved);
      usables = omega (arith, v.usables, c.tally idle, c.tally borrowed);
      gate = v.gate;
    }
