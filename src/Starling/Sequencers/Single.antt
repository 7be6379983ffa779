-- ===== src/Starling/Sequencers/Single.antt =====
-- common/concurrency-starling/disruptor/sequencer/single_producer_sequencer.hpp.
pub mod Bounds
pub mod Safety
pub mod Interleavings
use menagerie.Prelude.{
  ℕ, zero, suc, ◌+◌, ◌-◌, ◌*◌, ◌/◌, ◌%◌, ◌^◌, ◌≤◌, ◌<◌, min, max, String, ◌≡◌, refl, sym, ap, subst,
  ◌∙◌, ◌≡⟨◌⟩◌, ◌∎, ◌≢◌, ◌↔◌, ◌⊎◌, inl, inr, Bool, true, false, not, ◌&&◌, ◌||◌, Option, none, some,
  List, [], ◌∷◌, ◌++◌, map, append_assoc, append-nil, arith, ltb, leb, ◌==◌, if◌then◌else◌, ltb→lt,
  lt→ltb, leb→le, ==_iff, ==-eq-false, tests, Bool-cases, Option-cases, and-eq-true, length,
  get_elem?, take, drop, is_empty, any, length-append, take-append-drop, length-take, length-drop,
  All, All-append, All-map, Bytes, bytes, bytes_eq, bytes_eq_refl, bytes_eq_iff, last?, pop_back,
  pop_back-append-last, last?-append-last, is_empty-append, append-eq-nil, Result, ok, err, ◌>>=◌,
  throw_if, Result-cases, throw_if-eq-ok, bind-eq-ok, ok-injective,
}
use mathlib.Core.Option
use menagerie.Prelude.Int.{ℤ, pos, negsuc, ◌+ℤ◌, ◌-ℤ◌, ◌≤ℤ◌, ltb_ℤ}
use menagerie.Starling.Sequencers.{int64_max, to_uint64, spin}

pub record SingleProducerSequencer : Type 0 where
  pub published_sequence : ℤ
  pub consumed_sequence : ℤ
  pub claimed_sequence : ℤ
  pub cached_capacity_limit : ℤ
  pub capacity : ℕ

unfoldable pub new_sequencer : ℕ → SingleProducerSequencer
new_sequencer buffer_size = record {
  published_sequence = negsuc 0;
  consumed_sequence = negsuc 0;
  claimed_sequence = negsuc 0;
  cached_capacity_limit = pos buffer_size -ℤ pos 1;
  capacity = buffer_size;
}

unfoldable pub capacity_limit : ℤ → ℕ → ℤ
unfolding to_uint64
capacity_limit consumed capacity =
    pos (min ((to_uint64 consumed + capacity) % 18446744073709551616) int64_max)

unfoldable pub wait_for_capacity :
    List ℤ → ℤ → SingleProducerSequencer → Option SingleProducerSequencer
unfolding spin capacity_limit
wait_for_capacity reads sequence s =
    if ltb_ℤ s.cached_capacity_limit sequence
    then Option.map
        (λ consumed. record s { cached_capacity_limit = capacity_limit consumed s.capacity })
        (spin (sequence -ℤ pos s.capacity) reads)
    else some s

unfoldable pub next : List ℤ → SingleProducerSequencer → Option (ℤ × SingleProducerSequencer)
unfolding wait_for_capacity
next reads s =
    let next = s.claimed_sequence +ℤ pos 1 in
    Option.map (λ t. (next, record t { claimed_sequence = next })) (wait_for_capacity reads next s)

unfoldable pub next_batch :
    List ℤ → ℤ → SingleProducerSequencer → Option (ℤ × SingleProducerSequencer)
unfolding wait_for_capacity
next_batch reads count s =
    let last_claim = s.claimed_sequence +ℤ count in
    Option.map (λ t. (s.claimed_sequence +ℤ pos 1, record t { claimed_sequence = last_claim }))
      (wait_for_capacity reads last_claim s)

-- -1: full.
unfoldable pub try_next : SingleProducerSequencer → ℤ × SingleProducerSequencer
try_next s =
    let next = s.claimed_sequence +ℤ pos 1 in
    if ltb_ℤ s.consumed_sequence (next -ℤ pos s.capacity)
    then (negsuc 0, s)
    else (next, record s { claimed_sequence = next })

abbrev pub publish : ℤ → SingleProducerSequencer → SingleProducerSequencer
publish sequence s = record s { published_sequence = sequence }

abbrev pub publish_batch : ℤ → ℤ → SingleProducerSequencer → SingleProducerSequencer
publish_batch lo hi s = record s { published_sequence = hi }

abbrev pub get_published_sequence : ℤ → SingleProducerSequencer → ℤ
get_published_sequence lower_bound s = s.published_sequence

abbrev pub is_available : ℤ → SingleProducerSequencer → Bool
is_available sequence s = not (ltb_ℤ s.published_sequence sequence)

abbrev pub consume : ℤ → SingleProducerSequencer → SingleProducerSequencer
consume sequence s = record s { consumed_sequence = sequence }

abbrev pub consume_batch : ℤ → ℤ → SingleProducerSequencer → SingleProducerSequencer
consume_batch lo hi s = consume hi s

unfoldable pub remaining_capacity : SingleProducerSequencer → ℤ
remaining_capacity s = pos s.capacity -ℤ (s.published_sequence -ℤ s.consumed_sequence)

unfoldable pub approx_size : SingleProducerSequencer → ℤ
approx_size s = s.published_sequence -ℤ s.consumed_sequence
