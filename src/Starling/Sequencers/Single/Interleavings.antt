-- ===== src/Starling/Sequencers/Single/Interleavings.antt =====
-- The interleavings of one producer and one consumer.
use menagerie.Prelude.{ℕ, ◌%◌, ◌≤◌, ◌≡◌, ap, inl, inr, some, List, ◌∷◌, ◌++◌, Bool-cases}
use mathlib.Core.Option
use menagerie.Prelude.Int.{ℤ, pos, ◌+ℤ◌, ◌-ℤ◌, ◌≤ℤ◌, ltb_ℤ, int_laws}
use menagerie.Starling.Sequencers.{int64_max}
use menagerie.Starling.Sequencers.Slots.{slot-injective}
use menagerie.Starling.Sequencers.Single.{
  SingleProducerSequencer, new_sequencer, capacity_limit, next, next_batch, try_next, publish,
  publish_batch, consume, consume_batch,
}
use menagerie.Starling.Sequencers.Single.Bounds.{spin-finds}
use menagerie.Starling.Sequencers.Single.Safety.{
  AreReads, IsSafe, next-IsSafe, next_batch-IsSafe, try_next-IsSafe, publish-IsSafe, consume-IsSafe,
  wait_for_capacity_cached, wait_for_capacity_spins,
}

-- The operations of the two threads, each as the class's contract allows it.
pub data Step : SingleProducerSequencer → SingleProducerSequencer → Type 0 where
  claims :
      {s s' : SingleProducerSequencer} (reads : List ℤ) (sequence : ℤ)
      → AreReads s reads
      → s.claimed_sequence +ℤ pos 1 ≤ℤ pos int64_max
      → next reads s ≡ some (sequence, s')
      → Step s s'
  claims_batch :
      {s s' : SingleProducerSequencer} (reads : List ℤ) (count : ℕ) (first : ℤ)
      → AreReads s reads
      → s.claimed_sequence +ℤ pos count ≤ℤ pos int64_max
      → next_batch reads (pos count) s ≡ some (first, s')
      → Step s s'
  tries :
      {s : SingleProducerSequencer}
      → s.claimed_sequence +ℤ pos 1 ≤ℤ pos int64_max
      → Step s (try_next s).1
  publishes :
      {s : SingleProducerSequencer} (sequence : ℤ)
      → s.published_sequence ≤ℤ sequence
      → sequence ≤ℤ s.claimed_sequence
      → Step s (publish sequence s)
  publishes_batch :
      {s : SingleProducerSequencer} (lo hi : ℤ)
      → s.published_sequence ≤ℤ hi
      → hi ≤ℤ s.claimed_sequence
      → Step s (publish_batch lo hi s)
  consumes :
      {s : SingleProducerSequencer} (sequence : ℤ)
      → s.consumed_sequence ≤ℤ sequence
      → sequence ≤ℤ s.published_sequence
      → Step s (consume sequence s)
  consumes_batch :
      {s : SingleProducerSequencer} (lo hi : ℤ)
      → s.consumed_sequence ≤ℤ hi
      → hi ≤ℤ s.published_sequence
      → Step s (consume_batch lo hi s)

pub data Steps : SingleProducerSequencer → SingleProducerSequencer → Type 0 where
  stop : {s : SingleProducerSequencer} → Steps s s
  more : {s t u : SingleProducerSequencer} → Step s t → Steps t u → Steps s u

Step-IsSafe : {s s' : SingleProducerSequencer} → Step s s' → IsSafe s → IsSafe s'
Step-IsSafe (claims reads sequence h m e) safe = next-IsSafe reads sequence _ _ safe h m e
Step-IsSafe (claims_batch reads count first h m e) safe =
    next_batch-IsSafe reads count first _ _ safe h m e
Step-IsSafe (tries {s} m) safe = try_next-IsSafe s safe m
Step-IsSafe (publishes {s} sequence up m) safe = publish-IsSafe s sequence safe up m
Step-IsSafe (publishes_batch {s} lo hi up m) safe = publish-IsSafe s hi safe up m
Step-IsSafe (consumes {s} sequence up m) safe = consume-IsSafe s sequence safe up m
Step-IsSafe (consumes_batch {s} lo hi up m) safe = consume-IsSafe s hi safe up m

-- In every interleaving of the two threads' operations that keeps to the contract (positions are
-- published and consumed in order, and claims stay within int64), from a sequencer of any capacity
-- that has a slot: consumed ≤ published ≤ claimed ≤ consumed + capacity, and the producer's cached
-- limit is never more than consumed + capacity.
pub Steps-IsSafe : {s s' : SingleProducerSequencer} → Steps s s' → IsSafe s → IsSafe s'
Steps-IsSafe stop safe = safe
Steps-IsSafe (more step steps) safe = Steps-IsSafe steps (Step-IsSafe step safe)

pub new_sequencer-IsSafe :
    (buffer_size : ℕ)
    → 1 ≤ buffer_size
    → buffer_size ≤ int64_max
    → IsSafe (new_sequencer buffer_size)
unfolding new_sequencer
new_sequencer-IsSafe buffer_size h k = record {
  has_slot = h;
  fits = k;
  started = omega int_laws;
  read = omega int_laws;
  written = omega int_laws;
  representable = omega int_laws;
  claimed = omega int_laws;
  cached = omega int_laws;
}

-- After any interleaving that keeps to the contract, two positions claimed and not yet consumed
-- that share a slot of the ring are the same position: a claim never reuses a slot that is still
-- to be read.
pub in_flight-injective :
    {s s' : SingleProducerSequencer} (p q : ℕ)
    → IsSafe s
    → Steps s s'
    → s'.consumed_sequence +ℤ pos 1 ≤ℤ pos p
    → pos p ≤ℤ s'.claimed_sequence
    → s'.consumed_sequence +ℤ pos 1 ≤ℤ pos q
    → pos q ≤ℤ s'.claimed_sequence
    → p % s'.capacity ≡ q % s'.capacity
    → p ≡ q
in_flight-injective {s' = s'} p q safe steps pl pu ql qu =
    let after = Steps-IsSafe steps safe in
    slot-injective p q s'.capacity (omega (int_laws, after.claimed, pu, ql))
      (omega (int_laws, after.claimed, qu, pl))

-- The loop in `wait_for_capacity` ends as soon as it reads a position that leaves room, and then
-- `next` returns the position behind the last claim, with nothing changed but the claim and the
-- cached limit.
pub next-returns :
    (reads : List ℤ) (consumed : ℤ) (later : List ℤ) (s : SingleProducerSequencer)
    → s.claimed_sequence +ℤ pos 1 -ℤ pos s.capacity ≤ℤ consumed
    → (limit : ℤ) × (next (reads ++ consumed ∷ later) s
        ≡ some (
          s.claimed_sequence +ℤ pos 1,
          record s {
            claimed_sequence = s.claimed_sequence +ℤ pos 1;
            cached_capacity_limit = limit;
          },
        ))
unfolding next
next-returns reads consumed later s h =
    let claim = s.claimed_sequence +ℤ pos 1 in
    elim (Bool-cases (ltb_ℤ s.cached_capacity_limit claim)) [
      | inl y ↦
          let (got, found) = spin-finds (claim -ℤ pos s.capacity) reads consumed later h in
          (
            capacity_limit got s.capacity,
            ap (Option.map (λ t. (claim, record t { claimed_sequence = claim })))
                (wait_for_capacity_spins (reads ++ consumed ∷ later) claim s (some got) y found),
          )
      | inr n ↦ (
        s.cached_capacity_limit,
        ap (Option.map (λ t. (claim, record t { claimed_sequence = claim })))
            (wait_for_capacity_cached (reads ++ consumed ∷ later) claim s n),
      )
    ]
