-- ===== src/Starling/Sequencers.antt =====
-- common/concurrency-starling/disruptor/sequencer and disruptor/sequence.hpp.
-- A position is an integer; that claims stay within int64 is a hypothesis where the code needs it,
-- and the saturating capacity limit keeps its machine arithmetic. A spin loop reads a position that
-- another thread moves: its successive reads are a list, and a loop that runs out of reads is still
-- spinning. The pauses between reads and the wait strategies' signals leave the state alone.
pub mod Slots
pub mod Single
pub mod Multi
pub mod Tests
use menagerie.Prelude.{
  ℕ, ◌+◌, ◌-◌, ◌*◌, ◌%◌, ◌≤◌, ◌<◌, min, ◌≡◌, refl, Bool, true, false, Option, none, some, List, [],
  ◌∷◌, if◌then◌else◌,
}
use menagerie.Prelude.Int.{ℤ, pos, negsuc, ltb_ℤ}

abbrev pub int64_max : ℕ
int64_max = 9223372036854775807

-- `static_cast<std::uint64_t>`.
unfoldable pub to_uint64 : ℤ → ℕ
to_uint64 (pos n) = n % 18446744073709551616
to_uint64 (negsuc n) = 18446744073709551615 - n % 18446744073709551616

-- The loop `while (wrap_point > (consumed = consumed_sequence_.get()))`.
unfoldable pub spin : ℤ → List ℤ → Option ℤ
spin wrap_point [] = none
spin wrap_point (consumed ∷ reads) =
    let rest = spin wrap_point reads in if ltb_ℤ consumed wrap_point then rest else some consumed
