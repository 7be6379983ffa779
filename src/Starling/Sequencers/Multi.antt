-- ===== src/Starling/Sequencers/Multi.antt =====
-- common/concurrency-starling/disruptor/sequencer/multi_producer_sequencer.hpp.
-- A slot's int32 generation is kept as its 32 bits, and the slots as a function of the index. A
-- wait that runs out of reads has claimed its positions all the same.
pub mod Frontier
pub mod Generations
pub mod Batches
use menagerie.Prelude.{
  ℕ, zero, suc, ◌+◌, ◌-◌, ◌*◌, ◌/◌, ◌%◌, ◌^◌, ◌≤◌, ◌<◌, min, max, String, ◌≡◌, refl, sym, ap, subst,
  ◌∙◌, ◌≡⟨◌⟩◌, ◌∎, ◌≢◌, ◌↔◌, ◌⊎◌, inl, inr, Bool, true, false, not, ◌&&◌, ◌||◌, Option, none, some,
  List, [], ◌∷◌, ◌++◌, map, append_assoc, append-nil, arith, ltb, leb, ◌==◌, if◌then◌else◌, ltb→lt,
  lt→ltb, leb→le, ==_iff, ==-eq-false, tests, Bool-cases, Option-cases, and-eq-true, length,
  get_elem?, take, drop, is_empty, any, length-append, take-append-drop, length-take, length-drop,
  All, All-append, All-map, Bytes, bytes, bytes_eq, bytes_eq_refl, bytes_eq_iff, last?, pop_back,
  pop_back-append-last, last?-append-last, is_empty-append, append-eq-nil, Result, ok, err, ◌>>=◌,
  throw_if, Result-cases, throw_if-eq-ok, bind-eq-ok, ok-injective, some-injective, map-eq-some,
}
use mathlib.Core.Option
use menagerie.Prelude.Int.{ℤ, pos, negsuc, pos_part, neg_part, ◌+ℤ◌, ◌-ℤ◌, ltb_ℤ}
use menagerie.Starling.Sequencers.{to_uint64, spin}

pub record MultiProducerSequencer : Type 0 where
  pub claimed_sequence : ℤ
  pub consumed_sequence : ℤ
  pub capacity : ℕ
  pub slot_generations : ℕ → ℕ

unfoldable pub new_sequencer : ℕ → MultiProducerSequencer
new_sequencer buffer_size = record {
  claimed_sequence = negsuc 0;
  consumed_sequence = negsuc 0;
  capacity = buffer_size;
  slot_generations = λ slot. 4294967295;
}

-- `sequence & slot_index_mask_`.
unfoldable pub slot_of : ℤ → MultiProducerSequencer → ℕ
unfolding to_uint64
slot_of sequence s = to_uint64 sequence % s.capacity

-- `static_cast<std::int32_t>(sequence >> generation_shift_)`.
unfoldable pub generation_of : ℤ → MultiProducerSequencer → ℕ
generation_of (pos n) s = n / s.capacity % 4294967296
generation_of (negsuc n) s = 4294967295 - n / s.capacity % 4294967296

unfoldable pub increment_and_get : MultiProducerSequencer → ℤ × MultiProducerSequencer
increment_and_get s =
    (s.claimed_sequence +ℤ pos 1, record s { claimed_sequence = s.claimed_sequence +ℤ pos 1 })

unfoldable pub add_and_get : ℤ → MultiProducerSequencer → ℤ × MultiProducerSequencer
add_and_get count s =
    (s.claimed_sequence +ℤ count, record s { claimed_sequence = s.claimed_sequence +ℤ count })

unfoldable pub wait_for_capacity : List ℤ → ℤ → MultiProducerSequencer → Option ℤ
unfolding spin
wait_for_capacity reads sequence s = spin (sequence -ℤ pos s.capacity) reads

-- The position claimed, and the read that ends the wait for its capacity.
unfoldable pub next : List ℤ → MultiProducerSequencer → Option ℤ × MultiProducerSequencer
unfolding increment_and_get wait_for_capacity
next reads s =
    let (next, t) = increment_and_get s in
    (Option.map (λ consumed. next) (wait_for_capacity reads next t), t)

unfoldable pub next_batch : List ℤ → ℤ → MultiProducerSequencer → Option ℤ × MultiProducerSequencer
unfolding add_and_get wait_for_capacity
next_batch reads count s =
    let (last, t) = add_and_get count s in
    (Option.map (λ consumed. last -ℤ count +ℤ pos 1) (wait_for_capacity reads last t), t)

-- `current` is the first read of the claimed position, `consumed` the read of the consumed one;
-- `succeeds` says whether the weak exchange does not fail spuriously.
unfoldable pub try_next : ℤ → ℤ → Bool → MultiProducerSequencer → ℤ × MultiProducerSequencer
try_next current consumed succeeds s =
    let next = current +ℤ pos 1 in
    let same = not (ltb_ℤ current s.claimed_sequence) && not (ltb_ℤ s.claimed_sequence current) in
    if ltb_ℤ consumed (next -ℤ pos s.capacity)
    then (negsuc 0, s)
    else if same && succeeds
    then (next, record s { claimed_sequence = next })
    else (negsuc 0, s)

unfoldable pub publish_slot : ℤ → MultiProducerSequencer → MultiProducerSequencer
unfolding slot_of generation_of
publish_slot sequence s = record s {
  slot_generations = λ slot.
      if slot == slot_of sequence s then generation_of sequence s else s.slot_generations slot;
}

abbrev pub publish : ℤ → MultiProducerSequencer → MultiProducerSequencer
publish sequence s = publish_slot sequence s

-- `publish_batch` from `lo` on, for as many positions.
unfoldable pub publish_slots : ℕ → ℤ → MultiProducerSequencer → MultiProducerSequencer
unfolding publish_slot
publish_slots zero lo s = s
publish_slots (suc count) lo s = publish_slots count (lo +ℤ pos 1) (publish_slot lo s)

-- The number of rounds of `for (seq = lo; seq <= hi; ++seq)`.
unfoldable pub rounds : ℤ → ℤ → ℕ
rounds lo hi = pos_part (hi +ℤ pos 1 -ℤ lo)

unfoldable pub publish_batch : ℤ → ℤ → MultiProducerSequencer → MultiProducerSequencer
unfolding publish_slots rounds
publish_batch lo hi s = publish_slots (rounds lo hi) lo s

unfoldable pub is_available : ℤ → MultiProducerSequencer → Bool
unfolding slot_of generation_of
is_available sequence s = s.slot_generations (slot_of sequence s) == generation_of sequence s

unfoldable pub scan : ℕ → ℤ → ℤ → MultiProducerSequencer → ℤ
unfolding is_available
scan zero seq claimed s = claimed
scan (suc count) seq claimed s =
    let rest = scan count (seq +ℤ pos 1) claimed s in
    if is_available seq s then rest else seq -ℤ pos 1

unfoldable pub scan_published : ℤ → ℤ → MultiProducerSequencer → ℤ
unfolding scan rounds
scan_published lower_bound claimed s = scan (rounds lower_bound claimed) lower_bound claimed s

unfoldable pub get_published_sequence : ℤ → MultiProducerSequencer → ℤ
unfolding scan_published
get_published_sequence lower_bound s = scan_published lower_bound s.claimed_sequence s

-- `claimed` is what the wait strategy answers.
unfoldable pub wait_for : ℤ → ℤ → MultiProducerSequencer → ℤ
unfolding scan_published
wait_for claimed sequence s =
    if ltb_ℤ claimed sequence then claimed else scan_published sequence claimed s

abbrev pub consume : ℤ → MultiProducerSequencer → MultiProducerSequencer
consume sequence s = record s { consumed_sequence = sequence }

abbrev pub consume_batch : ℤ → ℤ → MultiProducerSequencer → MultiProducerSequencer
consume_batch lo hi s = consume hi s

unfoldable pub remaining_capacity : MultiProducerSequencer → ℤ
remaining_capacity s = pos s.capacity -ℤ (s.claimed_sequence -ℤ s.consumed_sequence)

unfoldable pub approx_size : MultiProducerSequencer → ℤ
approx_size s = s.claimed_sequence -ℤ s.consumed_sequence
