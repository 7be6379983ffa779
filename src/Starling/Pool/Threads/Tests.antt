-- ===== src/Starling/Pool/Threads/Tests.antt =====
-- A slot is given back just when somebody starts to wait for it.
use menagerie.Prelude.{ℕ, ◌+◌, ◌≤◌, ◌≡◌, refl, true, false, none, [], ◌∷◌, arith, length, any}
use menagerie.Starling.Pool.{
  Waiter, assigned, Pool, new, claim_idle, publish_idle, handoff_to, handoff_or_publish_locked,
  serve_waiters, vacant, reserved, idle, borrowed, quarantined, bit_at, take_bit,
}
use menagerie.Starling.Pool.Operations.{
  keep_claimed, park, waits, borrows, raise_gate, lower_gate, enqueue, claimed_parking, try_reserve,
  reserve_slot, publish, make_usable, recheck_gate, count_bits, stats,
}
use menagerie.Starling.Pool.Slots.{one_if, has, occurrences}
use menagerie.Starling.Pool.Bookkeeping.{state_at}
use menagerie.Starling.Pool.Ownership.{assignments}
use menagerie.Starling.Pool.Threads.{
  claims, holds, releases, rechecks, reserves, begins_borrow, checks_claim, starts_release,
  publishes, begins_reservation, publishes_reserved, parks, goes_on, raises, passes, meanwhile,
  Reachable, starts, moves,
}
use menagerie.Starling.Pool.Threads.Waking.{looks_again}
use menagerie.Starling.Pool.Threads.Reached.{Reachable-roles, Reachable-sums, Reachable-looks_again}

abbrev now : Waiter → ℕ
now w = 0

abbrev waiter : Waiter
waiter = record { id = 7; deadline = none }

abbrev fresh : Pool
fresh = record {
  states = vacant ∷ [];
  vacant_slots = 0 ∷ [];
  quarantined_slots = [];
  idle_bits = false ∷ [];
  waiters = [];
  waiter_gate = 0;
  usable_size = 0;
  reserved_count = 0;
  closed = false;
  completed = [];
}

abbrev in_reserve : Pool
in_reserve = record (reserve_slot 0 fresh) { vacant_slots = [] }

abbrev ready : Pool
ready = publish_idle 0 (make_usable 0 in_reserve)

abbrev lent : Pool
lent = take_bit 0 ready

abbrev awaited : Pool
awaited = record lent { waiter_gate = 1; waiters = waiter ∷ [] }

abbrev back : Pool
back = publish_idle 0 awaited

-- The borrower saw no waiter; then a parker raised the gate and saw the idle bit clear; then the
-- borrower set it; and then the parker went to sleep.
race : Reachable back (rechecks 0 ∷ [])
unfolding new try_reserve publish handoff_or_publish_locked handoff_to publish_idle claim_idle
    keep_claimed raise_gate enqueue
race =
    moves lent back (releases 0 ∷ []) (rechecks 0 ∷ [])
      (moves lent lent (holds 0 ∷ []) (releases 0 ∷ [])
        (moves lent lent (claims 0 ∷ []) (holds 0 ∷ [])
          (moves ready lent [] (claims 0 ∷ [])
            (moves in_reserve ready (reserves 0 ∷ []) []
              (moves fresh in_reserve [] (reserves 0 ∷ []) (starts 1 fresh refl)
                (begins_reservation fresh in_reserve 0 [] refl))
              (publishes_reserved now in_reserve 0 []))
            (goes_on ready lent [] (claims 0 ∷ []) (begins_borrow ready lent 0 [] refl)))
          (checks_claim lent 0 []))
        (goes_on lent lent (holds 0 ∷ []) (releases 0 ∷ []) (starts_release lent 0 [])))
      (parks waiter 1 lent (publish_idle 0 (raise_gate lent)) (releases 0 ∷ []) (rechecks 0 ∷ [])
        refl
        (meanwhile 1 (raise_gate lent) (publish_idle 0 (raise_gate lent)) (releases 0 ∷ [])
          (rechecks 0 ∷ []) (passes 0 (raise_gate lent) (releases 0 ∷ []) raises refl)
          (publishes (raise_gate lent) 0 []))
        (omega arith))

-- A parker that nobody interrupts.
parked : park now 0 waiter lent ≡ (waits, awaited)
unfolding park claim_idle raise_gate enqueue
parked = refl

found_parking : park now 0 waiter ready ≡ (borrows 0, lent)
unfolding park claim_idle raise_gate lower_gate publish_idle claimed_parking
found_parking = refl

-- Looking at the gate serves the waiter.
served_after : (recheck_gate now back).completed ≡ (7, assigned 0) ∷ []
unfolding recheck_gate serve_waiters claim_idle handoff_or_publish_locked handoff_to publish_idle
served_after = refl

stats_of_race : (stats back).idle ≡ 1
unfolding stats publish_idle
stats_of_race = refl

Reachable-roles_example :
    (occurrences 0 [] + assignments 0 back.completed ≡ has borrowed (state_at back 0))
    × (occurrences 0 [] ≡ has reserved (state_at back 0))
    × (occurrences 0 back.vacant_slots ≡ has vacant (state_at back 0))
    × (occurrences 0 back.quarantined_slots ≡ has quarantined (state_at back 0))
    × (one_if (bit_at back.idle_bits 0) ≡ has idle (state_at back 0))
Reachable-roles_example = Reachable-roles back (rechecks 0 ∷ []) 0 race

Reachable-sums_example :
    (length back.states
      ≡ length back.vacant_slots
        + back.reserved_count
        + length back.quarantined_slots
        + back.usable_size)
    × (count_bits back.idle_bits ≤ back.usable_size)
    × (back.waiter_gate ≡ length back.waiters)
Reachable-sums_example = Reachable-sums back (rechecks 0 ∷ []) race

Reachable-looks_again_example : any looks_again (rechecks 0 ∷ []) ≡ true
unfolding publish_idle
Reachable-looks_again_example =
    Reachable-looks_again back (rechecks 0 ∷ []) race refl (omega arith) (omega arith)
