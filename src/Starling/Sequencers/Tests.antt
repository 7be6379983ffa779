-- ===== src/Starling/Sequencers/Tests.antt =====
-- The sequencers at concrete operations.
use menagerie.Prelude.{ℕ, ◌≤◌, ◌≡◌, refl, subst, true, false, some, [], ◌∷◌, arith}
use menagerie.Prelude.Int.{ℤ, pos, negsuc, ◌+ℤ◌, ◌-ℤ◌, ◌≤ℤ◌, int_laws}
use menagerie.Starling.Sequencers.Single
use menagerie.Starling.Sequencers.Single.{SingleProducerSequencer}
use menagerie.Starling.Sequencers.Single.Safety.{IsSafe}
use menagerie.Starling.Sequencers.Single.Interleavings.{
  Steps, stop, more, claims, claims_batch, publishes, consumes, Steps-IsSafe, new_sequencer-IsSafe,
  in_flight-injective, next-returns,
}
use menagerie.Starling.Sequencers.Multi
use menagerie.Starling.Sequencers.Multi.{MultiProducerSequencer, publish_slot, is_available}
use menagerie.Starling.Sequencers.Multi.Frontier.{IsFrontier, scan_published-IsFrontier}
use menagerie.Starling.Sequencers.Multi.Generations.{publish_slot-later}
use menagerie.Starling.Sequencers.Multi.Batches.{publish_batch-available}

abbrev ring : SingleProducerSequencer
ring = record {
  published_sequence = negsuc 0;
  consumed_sequence = negsuc 0;
  claimed_sequence = negsuc 0;
  cached_capacity_limit = pos 1;
  capacity = 2;
}

ring-fresh : Single.new_sequencer 2 ≡ ring
unfolding Single.new_sequencer ◌-ℤ◌
ring-fresh = refl

-- Two claims, one of them published and consumed, and a third that had to wait for it.
abbrev wrapped : SingleProducerSequencer
wrapped = record {
  published_sequence = pos 0;
  consumed_sequence = pos 0;
  claimed_sequence = pos 2;
  cached_capacity_limit = pos 2;
  capacity = 2;
}

abbrev two_claimed : SingleProducerSequencer
two_claimed = record ring { claimed_sequence = pos 1 }

abbrev one_read : SingleProducerSequencer
one_read = Single.consume (pos 0) (Single.publish (pos 0) two_claimed)

full : Single.try_next two_claimed ≡ (negsuc 0, two_claimed)
unfolding Single.try_next ◌+ℤ◌ ◌-ℤ◌
full = refl

ring-wrapped : Steps ring wrapped
unfolding Single.next Single.next_batch ◌+ℤ◌ ◌-ℤ◌
ring-wrapped = more (claims_batch [] 2 (pos 0) tt (omega int_laws) refl) (
    more (publishes (pos 0) (omega arith) (omega arith)) (
      more (consumes (pos 0) (omega arith) (omega arith)) (
        more
          (claims (negsuc 0 ∷ pos 0 ∷ []) (pos 2)
            ((omega arith, omega arith), ((omega arith, omega arith), tt)) (omega int_laws) refl)
          stop)))

ring-IsSafe : IsSafe ring
ring-IsSafe = subst IsSafe ring-fresh (new_sequencer-IsSafe 2 (omega arith) (omega arith))

Steps-IsSafe_example : IsSafe wrapped
Steps-IsSafe_example = Steps-IsSafe ring-wrapped ring-IsSafe

in_flight-injective_example : ◌≡◌ {A = ℕ} 2 2
in_flight-injective_example =
    in_flight-injective 2 2 ring-IsSafe ring-wrapped (omega int_laws) (omega arith) (omega int_laws)
      (omega arith) refl

next-returns_example :
    (limit : ℤ) × (Single.next (negsuc 0 ∷ pos 0 ∷ pos 0 ∷ []) one_read
      ≡ some (
        one_read.claimed_sequence +ℤ pos 1,
        record one_read {
          claimed_sequence = one_read.claimed_sequence +ℤ pos 1;
          cached_capacity_limit = limit;
        },
      ))
next-returns_example = next-returns (negsuc 0 ∷ []) (pos 0) (pos 0 ∷ []) one_read (omega int_laws)

abbrev four : MultiProducerSequencer
four = record {
  claimed_sequence = pos 6;
  consumed_sequence = pos 2;
  capacity = 4;
  slot_generations = λ slot. 0;
}

gap_hidden :
    Multi.get_published_sequence
      (pos 3)
      (Multi.publish_slot (pos 4) (Multi.publish_slot (pos 6) four))
    ≡ pos 4
unfolding Multi.get_published_sequence Multi.publish_slot ◌+ℤ◌ ◌-ℤ◌
gap_hidden = refl

scan_published-IsFrontier_example :
    IsFrontier four (pos 3) (pos 6) (Multi.scan_published (pos 3) (pos 6) four)
scan_published-IsFrontier_example = scan_published-IsFrontier four (pos 3) (pos 6) (omega int_laws)

publish_slot-later_example : is_available (pos 7) (publish_slot (pos 3) four) ≡ false
publish_slot-later_example =
    publish_slot-later 3 1 four (omega arith) (omega arith) (omega arith) (omega arith)

publish_batch-available_example :
    let t = Multi.publish_batch (pos 4) (pos 6) four in
    ((q : ℕ) → 4 ≤ q → q ≤ 6 → is_available (pos q) t ≡ true)
    × (pos 6 ≤ℤ Multi.scan_published (pos 4) (pos 6) t)
publish_batch-available_example =
    publish_batch-available 4 6 (pos 6) four (omega arith) (omega arith) (omega arith) (omega arith)
