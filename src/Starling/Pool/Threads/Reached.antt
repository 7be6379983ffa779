-- ===== src/Starling/Pool/Threads/Reached.antt =====
-- What holds of a pool, and of the threads that use it, whatever steps they took.
use menagerie.Prelude.{ℕ, ◌+◌, ◌≤◌, ◌<◌, ◌≡◌, inl, inr, true, false, List, arith, length, any}
use menagerie.Starling.Pool.{Pool, bit_at, vacant, reserved, idle, borrowed, quarantined}
use menagerie.Starling.Pool.Operations.{count_bits}
use menagerie.Starling.Pool.Slots.{one_if, has, occurrences}
use menagerie.Starling.Pool.Bookkeeping.{state_at}
use menagerie.Starling.Pool.Ownership.{assignments}
use menagerie.Starling.Pool.Threads.{Thread, borrowed_by, reserved_by, Reachable, starts, moves}
use menagerie.Starling.Pool.Handoff.{Quiet-cases}
use menagerie.Starling.Pool.Threads.Sections.{AllHeld}
use menagerie.Starling.Pool.Threads.Waking.{looks_again, Watched}
use menagerie.Starling.Pool.Threads.Safety.{Step-AllHeld}
use menagerie.Starling.Pool.Threads.Watching.{Step-Watched}
use menagerie.Starling.Pool.Bookkeeping.{IsValid-sum}
use menagerie.Starling.Pool.Threads.Beginning.{new-AllHeld, new-Watched}

Reachable-kept : (p : Pool) (ts : List Thread) → Reachable p ts → AllHeld p ts × Watched p ts
Reachable-kept _ _ (starts n p e) = (new-AllHeld n p e, new-Watched n p e)
Reachable-kept _ _ (moves p q ts us r step) =
    let (held, watched) = Reachable-kept p ts r in
    (Step-AllHeld p q ts us step held watched, Step-Watched p q ts us step held watched)

-- Whatever the threads did, a slot is borrowed just if it is in one hand, a thread's or an assigned
-- waiter's; it is reserved just if one thread reserves it; and it is in the registry of the vacant
-- or of the quarantined slots once, or has its idle bit set, just if that is its state.
pub Reachable-roles :
    (p : Pool) (ts : List Thread) (j : ℕ)
    → Reachable p ts
    → (occurrences j (borrowed_by ts) + assignments j p.completed ≡ has borrowed (state_at p j))
      × (occurrences j (reserved_by ts) ≡ has reserved (state_at p j))
      × (occurrences j p.vacant_slots ≡ has vacant (state_at p j))
      × (occurrences j p.quarantined_slots ≡ has quarantined (state_at p j))
      × (one_if (bit_at p.idle_bits j) ≡ has idle (state_at p j))
Reachable-roles p ts j r =
    let held = (Reachable-kept p ts r).0 in
    (
      held.borrows j,
      held.reserves j,
      held.valid.in_vacant j,
      held.valid.in_quarantined j,
      held.valid.published j,
    )

-- Whatever the threads did, the vacant, reserved, quarantined and usable slots add up to the
-- capacity, the idle ones are no more than the usable ones, and the gate counts the waiters.
pub Reachable-sums :
    (p : Pool) (ts : List Thread)
    → Reachable p ts
    → (length p.states
        ≡ length p.vacant_slots + p.reserved_count + length p.quarantined_slots + p.usable_size)
      × (count_bits p.idle_bits ≤ p.usable_size)
      × (p.waiter_gate ≡ length p.waiters)
Reachable-sums p ts r =
    let held = (Reachable-kept p ts r).0 in
    let sums = IsValid-sum p held.valid in (sums.0, sums.1, held.valid.gate)

-- Whatever the threads did, if the pool is open, somebody waits, and a slot is idle, then a thread
-- that has given a slot back has yet to look for waiters: no wake-up is missed.
pub Reachable-looks_again :
    (p : Pool) (ts : List Thread)
    → Reachable p ts
    → p.closed ≡ false
    → 0 < length p.waiters
    → 0 < count_bits p.idle_bits
    → any looks_again ts ≡ true
Reachable-looks_again p ts r still w i = elim ((Reachable-kept p ts r).1) [
  | inl h ↦ elim (Quiet-cases p h) [
    | inl y ↦ absurd cc
    | inr (inl e) ↦ absurd (omega (arith, e, w))
    | inr (inr e) ↦ absurd (omega (arith, e, i))
  ]
  | inr k ↦ k
]
