-- ===== src/Starling/Pool/Operations.antt =====
-- pool.hpp and its detail files: the operations, each from one look at the mutex to the next.
use menagerie.Prelude.{
  ℕ, suc, ◌+◌, ◌-◌, min, Bool, true, false, not, ◌||◌, Option, none, some, List, [], ◌∷◌, ◌++◌,
  ◌==◌, if◌then◌else◌, length,
}
use menagerie.Starling.Pool.{
  vacant, reserved, borrowed, quarantined, Waiter, timeout, shutdown, Pool, set_elem, claim_idle,
  publish_idle, reclaim_idle, serve_waiters, quarantine_borrowed, complete_front, past,
  handoff_or_publish_locked, serve_waiters_locked,
}

pub data AcquireError : Type 0 where
  exhausted timed_out shut_down : AcquireError

-- A token, an error, or the caller waits.
pub data Acquired : Type 0 where
  borrows : ℕ → Acquired
  fails : AcquireError → Acquired
  waits : Acquired

-- `try_acquire` up to the claim.
abbrev pub claimed_or : AcquireError → Pool → Option (ℕ × Pool) → Acquired × Pool
claimed_or error p none = (fails error, p)
claimed_or error p (some (index, q)) = (borrows index, q)

unfoldable pub try_acquire : Pool → Acquired × Pool
unfolding claim_idle
try_acquire p =
    let found = claimed_or exhausted p (claim_idle p) in
    if p.closed then (fails shut_down, p) else found

-- After a claim, the slot goes to quarantine if the pool was closed meanwhile.
unfoldable pub keep_claimed : ℕ → Pool → Acquired × Pool
unfolding quarantine_borrowed
keep_claimed index p =
    if p.closed then (fails shut_down, quarantine_borrowed index p) else (borrows index, p)

-- The parker's accesses to the gate, and its node at the end of the list.
unfoldable pub raise_gate : Pool → Pool
raise_gate p = record p { waiter_gate = p.waiter_gate + 1 }

unfoldable pub lower_gate : Pool → Pool
lower_gate p = record p { waiter_gate = p.waiter_gate - 1 }

unfoldable pub enqueue : Waiter → Pool → Pool
enqueue waiter p = record p { waiters = p.waiters ++ waiter ∷ [] }

-- A slot that the strong scan claimed: the gate goes down again, and the slot is passed on if it is
-- too late.
unfoldable pub claimed_parking : (Waiter → ℕ) → ℕ → Waiter → ℕ → Pool → Acquired × Pool
unfolding handoff_or_publish_locked
claimed_parking now later waiter index q =
    if past later waiter.deadline
    then (fails timed_out, handoff_or_publish_locked now index (lower_gate q))
    else (borrows index, lower_gate q)

-- What the strong scan found: a slot, or none.
abbrev pub scanned : (Waiter → ℕ) → ℕ → Waiter → Pool → Option (ℕ × Pool) → Acquired × Pool
scanned now later waiter p none = (waits, enqueue waiter p)
scanned now later waiter p (some (index, q)) = claimed_parking now later waiter index q

-- What `acquire` does under the mutex, after it found no slot outside, if no other thread runs
-- meanwhile: the gate is raised, and then the bits are scanned.
unfoldable pub park : (Waiter → ℕ) → ℕ → Waiter → Pool → Acquired × Pool
unfolding claim_idle claimed_parking raise_gate enqueue
park now later waiter p =
    let found = scanned now later waiter (raise_gate p) (claim_idle (raise_gate p)) in
    if p.closed
    then (fails shut_down, p)
    else if past (now waiter) waiter.deadline
    then (fails timed_out, p)
    else found

-- A waiter that wakes at its deadline takes itself off the list.
abbrev pub without : ℕ → List Waiter → List Waiter
without id [] = []
without id (w ∷ ws) = let rest = without id ws in if w.id == id then ws else w ∷ rest

abbrev pub is_waiting : ℕ → List Waiter → Bool
is_waiting id [] = false
is_waiting id (w ∷ ws) = w.id == id || is_waiting id ws

unfoldable pub unlink_waiter : ℕ → Pool → Pool
unlink_waiter id p =
    if is_waiting id p.waiters
    then record p {
      waiters = without id p.waiters;
      waiter_gate = p.waiter_gate - 1;
      completed = p.completed ++ (id, timeout) ∷ [];
    }
    else p

-- A slot off a registry becomes reserved.
abbrev pub reserve_slot : ℕ → Pool → Pool
reserve_slot index p = record p {
  states = set_elem index reserved p.states;
  reserved_count = p.reserved_count + 1;
}

abbrev pub reserve_from : List ℕ → Pool → Option (ℕ × Pool)
reserve_from [] p = none
reserve_from (index ∷ rest) p = some (index, record (reserve_slot index p) { vacant_slots = rest })

abbrev pub take_from : List ℕ → Pool → Option (ℕ × Pool)
take_from [] p = none
take_from (index ∷ rest) p =
    some (index, record (reserve_slot index p) { quarantined_slots = rest })

unfoldable pub try_reserve : Pool → Option (ℕ × Pool)
try_reserve p = if p.closed then none else reserve_from p.vacant_slots p

unfoldable pub try_take_quarantined : Pool → Option (ℕ × Pool)
try_take_quarantined p = if p.closed then none else take_from p.quarantined_slots p

abbrev pub take_back : ℕ → Pool → Pool
take_back index p = record p {
  states = set_elem index reserved p.states;
  usable_size = p.usable_size - 1;
  reserved_count = p.reserved_count + 1;
}

-- `try_take_idle` under the mutex, once it has claimed a slot.
unfoldable pub take_idle_locked : (Waiter → ℕ) → ℕ → Pool → Option ℕ × Pool
unfolding quarantine_borrowed publish_idle serve_waiters
take_idle_locked now index p =
    let published = serve_waiters_locked now (publish_idle index p) in
    if p.closed
    then (none, quarantine_borrowed index p)
    else if not (p.waiter_gate == 0)
    then (none, published)
    else (some index, take_back index p)

-- `rollback` of a reservation.
unfoldable pub rollback : ℕ → Pool → Pool
rollback index p = record p {
  states = set_elem index vacant p.states;
  vacant_slots = index ∷ p.vacant_slots;
  reserved_count = p.reserved_count - 1;
}

-- `publish` of a reservation: whether it went through.
abbrev pub make_usable : ℕ → Pool → Pool
make_usable index p = record p {
  states = set_elem index borrowed p.states;
  reserved_count = p.reserved_count - 1;
  usable_size = p.usable_size + 1;
}

unfoldable pub publish : (Waiter → ℕ) → ℕ → Pool → Bool × Pool
unfolding handoff_or_publish_locked
publish now index p =
    let handed = handoff_or_publish_locked now index (make_usable index p) in
    if p.closed then (false, p) else (true, handed)

-- An idle slot goes to quarantine; its bit goes with its word's.
abbrev pub sweep_slot : ℕ → Pool → Pool
sweep_slot index p = record p {
  idle_bits = set_elem index false p.idle_bits;
  states = set_elem index quarantined p.states;
  usable_size = p.usable_size - 1;
  quarantined_slots = index ∷ p.quarantined_slots;
}

-- The sweep of the idle bits from `i` on.
unfoldable pub sweep : ℕ → List Bool → Pool → Pool
sweep i [] p = p
sweep i (true ∷ bits) p = sweep (suc i) bits (sweep_slot i p)
sweep i (false ∷ bits) p = sweep (suc i) bits p

unfoldable pub end_waits : (Waiter → ℕ) → List Waiter → Pool → Pool
end_waits now [] p = p
end_waits now (w ∷ ws) p =
    end_waits now ws (complete_front w ws (if past (now w) w.deadline then timeout else shutdown) p)

unfoldable pub shut : (Waiter → ℕ) → Pool → Pool
unfolding sweep end_waits
shut now p =
    let swept = sweep 0 p.idle_bits (record p { closed = true }) in
    if p.closed then p else end_waits now swept.waiters swept

-- `handoff_or_publish` outside the mutex: whether it takes the mutex at once, what it publishes, and
-- what it does when it finds the pool closed, or waiters, afterwards.
abbrev pub takes_mutex : Pool → Bool
takes_mutex p = p.closed || not (p.waiter_gate == 0)

abbrev pub reclaimed : ℕ → Pool → Option Pool → Pool
reclaimed index p none = p
reclaimed index p (some q) = quarantine_borrowed index q

unfoldable pub recheck_closed : ℕ → Pool → Pool
unfolding reclaim_idle quarantine_borrowed
recheck_closed index p = reclaimed index p (reclaim_idle index p)

unfoldable pub recheck_gate : (Waiter → ℕ) → Pool → Pool
unfolding serve_waiters
recheck_gate now p =
    let served = serve_waiters_locked now p in if p.waiter_gate == 0 then p else served

-- The tallies of `stats`.
abbrev pub count_bits : List Bool → ℕ
count_bits [] = 0
count_bits (true ∷ bits) = suc (count_bits bits)
count_bits (false ∷ bits) = count_bits bits

pub record PoolStats : Type 0 where
  pub capacity : ℕ
  pub vacant : ℕ
  pub reserved : ℕ
  pub idle : ℕ
  pub borrowed : ℕ
  pub quarantined : ℕ
  pub waiters : ℕ

unfoldable pub stats : Pool → PoolStats
stats p =
    let idle_slots = min (count_bits p.idle_bits) p.usable_size in
    record {
      capacity = length p.states;
      vacant = length p.vacant_slots;
      reserved = p.reserved_count;
      idle = idle_slots;
      borrowed = p.usable_size - idle_slots;
      quarantined = length p.quarantined_slots;
      waiters = length p.waiters;
    }
