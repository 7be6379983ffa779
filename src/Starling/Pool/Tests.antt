-- ===== src/Starling/Pool/Tests.antt =====
-- A pool of two slots: handing over, waiting and shutting.
use menagerie.Prelude.{ℕ, ◌≡◌, refl, true, false, none, some, [], ◌∷◌}
use menagerie.Starling.Pool.{
  Waiter, assigned, timeout, shutdown, Pool, claim_idle, handoff_or_publish_locked, idle, borrowed,
}
use menagerie.Starling.Pool.Operations.{
  borrows, fails, shut_down, try_acquire, sweep, end_waits, shut, count_bits,
}
use menagerie.Starling.Pool.Fairness.{handoff_or_publish_locked-first, shut-ends}

abbrev now : Waiter → ℕ
now w = 10

abbrev late_waiter : Waiter
late_waiter = record { id = 1; deadline = some 9 }

abbrev patient : Waiter
patient = record { id = 2; deadline = none }

-- Slot 0 is borrowed, slot 1 is idle.
abbrev two_slots : Pool
two_slots = record {
  states = borrowed ∷ idle ∷ [];
  vacant_slots = [];
  quarantined_slots = [];
  idle_bits = false ∷ true ∷ [];
  waiters = [];
  waiter_gate = 0;
  usable_size = 2;
  reserved_count = 0;
  closed = false;
  completed = [];
}

abbrev crowded : Pool
crowded = record two_slots { waiters = late_waiter ∷ patient ∷ []; waiter_gate = 2 }

acquires_idle : (try_acquire two_slots).0 ≡ borrows 1
unfolding try_acquire claim_idle
acquires_idle = refl

shut_then_fails : (try_acquire (shut now two_slots)).0 ≡ fails shut_down
unfolding try_acquire claim_idle shut sweep end_waits
shut_then_fails = refl

handoff_or_publish_locked-first_example :
    let q = handoff_or_publish_locked now 0 crowded in
    (q.waiters ≡ []) × (q.completed ≡ (1, timeout) ∷ (2, assigned 0) ∷ [])
handoff_or_publish_locked-first_example =
    handoff_or_publish_locked-first now 0 crowded (late_waiter ∷ []) patient [] refl refl (refl, tt)
      refl

shut-ends_example :
    ((shut now crowded).closed ≡ true)
    × (count_bits (shut now crowded).idle_bits ≡ 0)
    × ((shut now crowded).waiters ≡ [])
    × ((shut now crowded).completed ≡ (1, timeout) ∷ (2, shutdown) ∷ [])
shut-ends_example = shut-ends now crowded refl
