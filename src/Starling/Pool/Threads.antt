-- ===== src/Starling/Pool/Threads.antt =====
-- Threads that use one pool: their steps outside the mutex and their sections under it, in any order.
-- A section under the mutex is one step, and so is a call that an atomic word makes; but while a
-- parker has the mutex, the others take steps without it between its accesses to the gate and the bits. In a list of
-- threads the one in front moves next, and `turns` puts it behind the others.
pub mod Sections
pub mod Safety
pub mod Waking
pub mod Parking
pub mod Watching
pub mod Beginning
pub mod Reached
pub mod Tests
use menagerie.Prelude.{
  ℕ, zero, suc, ◌+◌, ◌-◌, ◌*◌, ◌/◌, ◌%◌, ◌^◌, ◌≤◌, ◌<◌, min, max, String, ◌≡◌, refl, sym, ap, subst,
  ◌∙◌, ◌≡⟨◌⟩◌, ◌∎, ◌≢◌, ◌↔◌, ◌⊎◌, inl, inr, Bool, true, false, not, ◌&&◌, ◌||◌, Option, none, some,
  List, [], ◌∷◌, ◌++◌, map, append_assoc, append-nil, arith, ltb, leb, ◌==◌, if◌then◌else◌, ltb→lt,
  lt→ltb, leb→le, ==_iff, ==-eq-false, tests, Bool-cases, Option-cases, and-eq-true, length,
  get_elem?, take, drop, is_empty, any, length-append, take-append-drop, length-take, length-drop,
  All, All-append, All-map, Bytes, bytes, bytes_eq, bytes_eq_refl, bytes_eq_iff, last?, pop_back,
  pop_back-append-last, last?-append-last, is_empty-append, append-eq-nil, Result, ok, err, ◌>>=◌,
  throw_if, Result-cases, throw_if-eq-ok, bind-eq-ok, ok-injective, some-injective, map-eq-some,
}
use menagerie.Starling.Pool.{
  Waiter, WaiterState, assigned, Pool, new, bit_at, take_bit, claim_idle, publish_idle,
  quarantine_borrowed, handoff_or_publish_locked,
}
use menagerie.Starling.Pool.Operations.{
  Acquired, borrows, fails, waits, keep_claimed, raise_gate, enqueue, claimed_parking,
  unlink_waiter, try_reserve, try_take_quarantined, take_idle_locked, rollback, publish, shut,
  takes_mutex, recheck_closed, recheck_gate,
}

-- Where a thread is that holds a token, or has yet to look again after it gave one back.
pub data Thread : Type 0 where
  claims holds hands releases rechecks maintains reserves : ℕ → Thread
  rechecks_gate : Thread

-- The slot that a thread has borrowed, and the one that it has reserved.
abbrev pub borrowed_token : Thread → List ℕ
borrowed_token (claims i) = i ∷ []
borrowed_token (holds i) = i ∷ []
borrowed_token (hands i) = i ∷ []
borrowed_token (releases i) = i ∷ []
borrowed_token (maintains i) = i ∷ []
borrowed_token (rechecks i) = []
borrowed_token (reserves i) = []
borrowed_token rechecks_gate = []

abbrev pub reserved_token : Thread → List ℕ
reserved_token (reserves i) = i ∷ []
reserved_token (claims i) = []
reserved_token (holds i) = []
reserved_token (hands i) = []
reserved_token (releases i) = []
reserved_token (maintains i) = []
reserved_token (rechecks i) = []
reserved_token rechecks_gate = []

abbrev pub tokens : (Thread → List ℕ) → List Thread → List ℕ
tokens token [] = []
tokens token (t ∷ ts) = token t ++ tokens token ts

abbrev pub borrowed_by : List Thread → List ℕ
borrowed_by ts = tokens borrowed_token ts

abbrev pub reserved_by : List Thread → List ℕ
reserved_by ts = tokens reserved_token ts

-- The thread that an outcome leaves, in front of the others.
abbrev pub taken : Acquired → List Thread → List Thread
taken (borrows i) ts = holds i ∷ ts
taken (fails error) ts = ts
taken waits ts = ts

abbrev pub reserving : Option ℕ → List Thread → List Thread
reserving none ts = ts
reserving (some i) ts = reserves i ∷ ts

-- The steps of a thread that need no mutex, among others the accesses to the gate: one that finds
-- it up has yet to take the mutex.
pub data LockFree : Pool → List Thread → Pool → List Thread → Type 0 where
  turns : (p : Pool) (t : Thread) (ts : List Thread) → LockFree p (t ∷ ts) p (ts ++ t ∷ [])
  begins_borrow :
      (p q : Pool) (i : ℕ) (ts : List Thread)
      → claim_idle p ≡ some (i, q)
      → LockFree p ts q (claims i ∷ ts)
  begins_maintenance :
      (p q : Pool) (i : ℕ) (ts : List Thread)
      → claim_idle p ≡ some (i, q)
      → LockFree p ts q (maintains i ∷ ts)
  keeps_claim :
      (p : Pool) (i : ℕ) (ts : List Thread)
      → p.closed ≡ false
      → LockFree p (claims i ∷ ts) p (holds i ∷ ts)
  starts_release :
      (p : Pool) (i : ℕ) (ts : List Thread)
      → LockFree p (holds i ∷ ts) p ((if takes_mutex p then hands i else releases i) ∷ ts)
  publishes :
      (p : Pool) (i : ℕ) (ts : List Thread)
      → LockFree p (releases i ∷ ts) (publish_idle i p) (rechecks i ∷ ts)
  finds_open :
      (p : Pool) (i : ℕ) (ts : List Thread)
      → p.closed ≡ false
      → LockFree p (rechecks i ∷ ts) p (rechecks_gate ∷ ts)
  finds_gate_down :
      (p : Pool) (ts : List Thread) → p.waiter_gate ≡ 0 → LockFree p (rechecks_gate ∷ ts) p ts

-- A parker has the mutex: it has raised the gate, and has then seen the first `k` idle bits clear,
-- each at a moment of its own, while the others went on without the mutex.
pub data Scan (p : Pool) (ts : List Thread) : ℕ → Pool → List Thread → Type 0 where
  raises : Scan p ts 0 (raise_gate p) ts
  passes :
      (k : ℕ) (q : Pool) (us : List Thread)
      → Scan p ts k q us
      → bit_at q.idle_bits k ≡ false
      → Scan p ts (suc k) q us
  meanwhile :
      (k : ℕ) (q r : Pool) (us vs : List Thread)
      → Scan p ts k q us
      → LockFree q us r vs
      → Scan p ts k r vs

pub data Step : Pool → List Thread → Pool → List Thread → Type 0 where
  goes_on : (p q : Pool) (ts us : List Thread) → LockFree p ts q us → Step p ts q us
  checks_claim :
      (p : Pool) (i : ℕ) (ts : List Thread)
      → Step p (claims i ∷ ts) (keep_claimed i p).1 (taken (keep_claimed i p).0 ts)
  gives_up :
      (p : Pool) (i : ℕ) (ts : List Thread) → Step p (holds i ∷ ts) (quarantine_borrowed i p) ts
  hands_over :
      (now : Waiter → ℕ) (p : Pool) (i : ℕ) (ts : List Thread)
      → Step p (hands i ∷ ts) (handoff_or_publish_locked now i p) ts
  finds_closed :
      (p : Pool) (i : ℕ) (ts : List Thread)
      → p.closed ≡ true
      → Step p (rechecks i ∷ ts) (recheck_closed i p) ts
  looks_at_gate :
      (now : Waiter → ℕ) (p : Pool) (ts : List Thread)
      → Step p (rechecks_gate ∷ ts) (recheck_gate now p) ts
  takes_idle :
      (now : Waiter → ℕ) (p : Pool) (i : ℕ) (ts : List Thread)
      → Step p
          (maintains i ∷ ts)
          (take_idle_locked now i p).1
          (reserving (take_idle_locked now i p).0 ts)
  begins_reservation :
      (p q : Pool) (i : ℕ) (ts : List Thread)
      → try_reserve p ≡ some (i, q)
      → Step p ts q (reserves i ∷ ts)
  begins_repair :
      (p q : Pool) (i : ℕ) (ts : List Thread)
      → try_take_quarantined p ≡ some (i, q)
      → Step p ts q (reserves i ∷ ts)
  rolls_back : (p : Pool) (i : ℕ) (ts : List Thread) → Step p (reserves i ∷ ts) (rollback i p) ts
  publishes_reserved :
      (now : Waiter → ℕ) (p : Pool) (i : ℕ) (ts : List Thread)
      → Step p
          (reserves i ∷ ts)
          (publish now i p).1
          (if (publish now i p).0 then ts else reserves i ∷ ts)
  parks :
      (w : Waiter) (k : ℕ) (p q : Pool) (ts us : List Thread)
      → p.closed ≡ false
      → Scan p ts k q us
      → length q.idle_bits ≤ k
      → Step p ts (enqueue w q) us
  claims_parking :
      (now : Waiter → ℕ) (later : ℕ) (w : Waiter) (k : ℕ) (p q : Pool) (ts us : List Thread)
      → p.closed ≡ false
      → Scan p ts k q us
      → bit_at q.idle_bits k ≡ true
      → Step p ts
          (claimed_parking now later w k (take_bit k q)).1
          (taken (claimed_parking now later w k (take_bit k q)).0 us)
  wakes : (id : ℕ) (p : Pool) (ts : List Thread) → Step p ts (unlink_waiter id p) ts
  collects :
      (p : Pool) (before after : List (ℕ × WaiterState)) (id i : ℕ) (ts : List Thread)
      → p.completed ≡ before ++ (id, assigned i) ∷ after
      → Step p ts (record p { completed = before ++ after }) (holds i ∷ ts)
  shuts : (now : Waiter → ℕ) (p : Pool) (ts : List Thread) → Step p ts (shut now p) ts

-- What threads reach from a new pool.
pub data Reachable : Pool → List Thread → Type 0 where
  starts : (n : ℕ) (p : Pool) → new n ≡ some p → Reachable p []
  moves : (p q : Pool) (ts us : List Thread) → Reachable p ts → Step p ts q us → Reachable q us
