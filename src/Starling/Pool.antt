-- ===== src/Starling/Pool.antt =====
-- common/concurrency-starling/pool: pool.hpp, and of its detail files reserved_slot.hpp,
-- borrowed.hpp, sync_acquire.hpp and waiter.hpp what reads or changes the pool.
-- The words of idle bits are one list of bits. A registry is a list with the vector's back in front.
-- What runs under the mutex is one function; the steps outside it are functions of their own, which
-- Starling/Pool/Threads interleaves. The clock is a parameter: `now` gives the time at which a
-- waiter is looked at. Instead of a notification, a waiter's end is recorded.
pub mod Operations
pub mod Slots
pub mod Bookkeeping
pub mod Moves
pub mod Ownership
pub mod Handoff
pub mod Closing
pub mod Fairness
pub mod Threads
pub mod Tests
use menagerie.Prelude.{
  ℕ, zero, suc, ◌+◌, ◌-◌, ◌*◌, ◌/◌, ◌%◌, ◌^◌, ◌≤◌, ◌<◌, min, max, String, ◌≡◌, refl, sym, ap, subst,
  ◌∙◌, ◌≡⟨◌⟩◌, ◌∎, ◌≢◌, ◌↔◌, ◌⊎◌, inl, inr, Bool, true, false, not, ◌&&◌, ◌||◌, Option, none, some,
  List, [], ◌∷◌, ◌++◌, map, append_assoc, append-nil, arith, ltb, leb, ◌==◌, if◌then◌else◌, ltb→lt,
  lt→ltb, leb→le, ==_iff, ==-eq-false, tests, Bool-cases, Option-cases, and-eq-true, length,
  get_elem?, take, drop, is_empty, any, length-append, take-append-drop, length-take, length-drop,
  All, All-append, All-map, Bytes, bytes, bytes_eq, bytes_eq_refl, bytes_eq_iff, last?, pop_back,
  pop_back-append-last, last?-append-last, is_empty-append, append-eq-nil, Result, ok, err, ◌>>=◌,
  throw_if, Result-cases, throw_if-eq-ok, bind-eq-ok, ok-injective, some-injective, map-eq-some,
}

pub data SlotState : Type 0 where
  vacant reserved idle borrowed quarantined : SlotState

-- A deadline of none is `time_point::max()`.
pub record Waiter : Type 0 where
  pub id : ℕ
  pub deadline : Option ℕ

pub data WaiterState : Type 0 where
  assigned : ℕ → WaiterState
  timeout shutdown : WaiterState

pub record Pool : Type 0 where
  pub states : List SlotState
  pub vacant_slots : List ℕ
  pub quarantined_slots : List ℕ
  pub idle_bits : List Bool
  pub waiters : List Waiter
  pub waiter_gate : ℕ
  pub usable_size : ℕ
  pub reserved_count : ℕ
  pub closed : Bool
  pub completed : List (ℕ × WaiterState)

module _ {ℓ} {A : Type ℓ} where
  abbrev pub replicate : ℕ → A → List A
  replicate zero x = []
  replicate (suc n) x = x ∷ replicate n x

  abbrev pub set_elem : ℕ → A → List A → List A
  set_elem i x [] = []
  set_elem zero x (y ∷ ys) = x ∷ ys
  set_elem (suc i) x (y ∷ ys) = y ∷ set_elem i x ys

-- The indices of `n` slots from `i` on.
abbrev pub indices : ℕ → ℕ → List ℕ
indices i zero = []
indices i (suc n) = i ∷ indices (suc i) n

-- The constructor throws `invalid_argument` for a capacity of 0.
unfoldable pub new : ℕ → Option Pool
new zero = none
new (suc n) =
    let slots = suc n in
    some record {
      states = replicate slots vacant;
      vacant_slots = indices 0 slots;
      quarantined_slots = [];
      idle_bits = replicate slots false;
      waiters = [];
      waiter_gate = 0;
      usable_size = 0;
      reserved_count = 0;
      closed = false;
      completed = [];
    }

abbrev pub capacity : Pool → ℕ
capacity p = length p.states

abbrev pub set_state : ℕ → SlotState → Pool → Pool
set_state index state p = record p { states = set_elem index state p.states }

-- The lowest bit that is set.
abbrev pub first_set : ℕ → List Bool → Option ℕ
first_set i [] = none
first_set i (true ∷ bits) = some i
first_set i (false ∷ bits) = first_set (suc i) bits

-- The bit is cleared, and the slot is the caller's.
abbrev pub take_bit : ℕ → Pool → Pool
take_bit index p = record p {
  idle_bits = set_elem index false p.idle_bits;
  states = set_elem index borrowed p.states;
}

abbrev pub claimed : Pool → Option ℕ → Option (ℕ × Pool)
claimed p none = none
claimed p (some index) = some (index, take_bit index p)

unfoldable pub claim_idle : Pool → Option (ℕ × Pool)
claim_idle p = claimed p (first_set 0 p.idle_bits)

-- The state becomes idle, and the bit is set.
unfoldable pub publish_idle : ℕ → Pool → Pool
publish_idle index p = record p {
  states = set_elem index idle p.states;
  idle_bits = set_elem index true p.idle_bits;
}

abbrev pub bit_at : List Bool → ℕ → Bool
bit_at [] i = false
bit_at (b ∷ bits) zero = b
bit_at (b ∷ bits) (suc i) = bit_at bits i

-- The slot, if its bit was still there.
unfoldable pub reclaim_idle : ℕ → Pool → Option Pool
reclaim_idle index p = if bit_at p.idle_bits index then some (take_bit index p) else none

unfoldable pub quarantine_borrowed : ℕ → Pool → Pool
quarantine_borrowed index p = record p {
  states = set_elem index quarantined p.states;
  usable_size = p.usable_size - 1;
  quarantined_slots = index ∷ p.quarantined_slots;
}

-- `unlink_waiter` for the waiter in front, and the end of its wait.
abbrev pub complete_front : Waiter → List Waiter → WaiterState → Pool → Pool
complete_front waiter rest state p = record p {
  waiters = rest;
  waiter_gate = p.waiter_gate - 1;
  completed = p.completed ++ (waiter.id, state) ∷ [];
}

abbrev pub past : ℕ → Option ℕ → Bool
past time none = false
past time (some deadline) = leb deadline time

-- The loop of `handoff_or_publish_locked` over the waiters.
unfoldable pub handoff_to : (Waiter → ℕ) → ℕ → List Waiter → Pool → Pool
unfolding publish_idle
handoff_to now index [] p = publish_idle index p
handoff_to now index (waiter ∷ rest) p =
    let later = handoff_to now index rest (complete_front waiter rest timeout p) in
    if past (now waiter) waiter.deadline
    then later
    else complete_front waiter rest (assigned index) p

unfoldable pub handoff_or_publish_locked : (Waiter → ℕ) → ℕ → Pool → Pool
unfolding handoff_to quarantine_borrowed
handoff_or_publish_locked now index p =
    if p.closed then quarantine_borrowed index p else handoff_to now index p.waiters p

abbrev pub served : (ℕ → Pool → Pool) → Pool → Option (ℕ × Pool) → Pool
served continue p none = p
served continue p (some (index, claimed)) = continue index claimed

-- The loop of `serve_waiters_locked`, on fuel.
unfoldable pub serve_waiters : (Waiter → ℕ) → ℕ → Pool → Pool
unfolding claim_idle handoff_or_publish_locked
serve_waiters now zero p = p
serve_waiters now (suc fuel) p =
    let rest =
      served (λ index claimed. serve_waiters now fuel (handoff_or_publish_locked now index claimed))
        p (claim_idle p) in
    if p.closed || is_empty p.waiters then p else rest

-- Each round ends the wait of a waiter.
abbrev pub serve_waiters_locked : (Waiter → ℕ) → Pool → Pool
serve_waiters_locked now p = serve_waiters now (length p.waiters) p
