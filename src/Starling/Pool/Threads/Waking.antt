-- ===== src/Starling/Pool/Threads/Waking.antt =====
-- No waiter is forgotten while a slot is idle.
use menagerie.Prelude.{
  ℕ, ◌≡◌, refl, sym, ap, subst, ◌⊎◌, inl, inr, Bool, true, false, not, Option, some, List, [], ◌∷◌,
  arith, ◌==◌, ==_iff, Bool-cases, length, any,
}
use menagerie.Prelude.{if-elim}
use menagerie.Starling.Pool.{
  Waiter, assigned, timeout, Pool, bit_at, claim_idle, publish_idle, take_bit, reclaim_idle,
  quarantine_borrowed, handoff_or_publish_locked, past,
}
use menagerie.Starling.Pool.Operations.{
  Acquired, keep_claimed, take_back, take_idle_locked, make_usable, publish, recheck_closed,
  recheck_gate, count_bits,
}
use menagerie.Starling.Pool.Bookkeeping.{IsValid}
use menagerie.Starling.Pool.Threads.{
  Thread, holds, claims, rechecks, maintains, reserves, hands, releases, rechecks_gate,
}
use menagerie.Starling.Pool.{handoff_to, complete_front}
use menagerie.Starling.Pool.Slots.{count_bits-set_elem}
use menagerie.Starling.Pool.Handoff.{
  Quiet, Quiet-closed, Quiet-alone, Quiet-busy, Quiet-cases, Quiet-fewer, serve_waiters-Quiet,
}
use menagerie.Starling.Pool.Moves.{claim_idle-take, claim_idle-bit}
use menagerie.Starling.Pool.Closing.{bit_at-lt}

-- A thread that has given a slot back and has yet to look for waiters.
abbrev pub looks_again : Thread → Bool
looks_again (claims i) = false
looks_again (holds i) = false
looks_again (hands i) = false
looks_again (releases i) = false
looks_again (rechecks i) = true
looks_again (maintains i) = false
looks_again (reserves i) = false
looks_again rechecks_gate = true

-- If somebody waits while a slot is idle, then some thread will look.
abbrev pub Watched : Pool → List Thread → Type 0
Watched p ts = Quiet p ⊎ (any looks_again ts ≡ true)

handoff_to-Quiet :
    (now : Waiter → ℕ) (i : ℕ) (ws : List Waiter) (p : Pool)
    → p.waiters ≡ ws
    → (length ws ≡ 0) ⊎ (count_bits p.idle_bits ≡ 0)
    → Quiet (handoff_to now i ws p)
unfolding handoff_to publish_idle
handoff_to-Quiet now i [] p front h = Quiet-alone (publish_idle i p) (ap length front)
handoff_to-Quiet now i (w ∷ ws) p front (inl e) = absurd (omega (arith, e))
handoff_to-Quiet now i (w ∷ ws) p front (inr e) =
    if-elim Quiet (past (now w) w.deadline)
      (λ y. handoff_to-Quiet now i ws (complete_front w ws timeout p) refl (inr e))
      (λ n. Quiet-busy (complete_front w ws (assigned i) p) e)

pub handoff_or_publish_locked-Quiet :
    (now : Waiter → ℕ) (i : ℕ) (p : Pool) → Quiet p → Quiet (handoff_or_publish_locked now i p)
unfolding handoff_or_publish_locked quarantine_borrowed
handoff_or_publish_locked-Quiet now i p h =
    if-elim Quiet p.closed (λ y. Quiet-closed (quarantine_borrowed i p) y)
      (λ n.
        handoff_to-Quiet now i p.waiters p refl
          (elim (Quiet-cases p h) [ inl y ↦ absurd cc | inr e ↦ e ]))

pub claim_idle-Quiet : (p q : Pool) (i : ℕ) → claim_idle p ≡ some (i, q) → Quiet p → Quiet q
claim_idle-Quiet p q i e h =
    let bit = claim_idle-bit p q i e in
    let fewer = count_bits-set_elem false i p.idle_bits (bit_at-lt i p.idle_bits bit) in
    subst Quiet (sym (claim_idle-take p q i e))
      (Quiet-fewer p (take_bit i p) h refl (omega arith) (omega (arith, fewer)))

pub keep_claimed-Quiet : (p : Pool) (i : ℕ) → Quiet p → Quiet (keep_claimed i p).1
unfolding keep_claimed quarantine_borrowed
keep_claimed-Quiet p i h =
    if-elim (λ (r : Acquired × Pool). Quiet r.1) p.closed
      (λ y. Quiet-closed (quarantine_borrowed i p) y) (λ n. h)

pub take_idle_locked-Quiet :
    (now : Waiter → ℕ) (i : ℕ) (p : Pool) → IsValid p → Quiet (take_idle_locked now i p).1
unfolding take_idle_locked quarantine_borrowed publish_idle
take_idle_locked-Quiet now i p v =
    if-elim (λ (r : Option ℕ × Pool). Quiet r.1) p.closed
      (λ y. Quiet-closed (quarantine_borrowed i p) y)
      (λ n.
        if-elim (λ (r : Option ℕ × Pool). Quiet r.1) (not (p.waiter_gate == 0))
          (λ y. serve_waiters-Quiet now (length p.waiters) (publish_idle i p) (omega arith))
          (λ m.
            let shut_gate : p.waiter_gate ≡ 0 = ground (arith, m) in
            Quiet-alone (take_back i p) (omega (arith, shut_gate, v.gate))))

pub publish-Quiet : (now : Waiter → ℕ) (i : ℕ) (p : Pool) → Quiet p → Quiet (publish now i p).1
unfolding publish
publish-Quiet now i p h =
    if-elim (λ (r : Bool × Pool). Quiet r.1) p.closed (λ y. h)
      (λ n.
        handoff_or_publish_locked-Quiet now i (make_usable i p)
          (Quiet-fewer p (make_usable i p) h refl (omega arith) (omega arith)))

pub recheck_closed-closed : (i : ℕ) (p : Pool) → (recheck_closed i p).closed ≡ p.closed
unfolding recheck_closed reclaim_idle quarantine_borrowed
recheck_closed-closed i p = elim (Bool-cases (bit_at p.idle_bits i)) [
  | inl y ↦ rw y refl
  | inr n ↦ rw n refl
]

pub recheck_gate-Quiet : (now : Waiter → ℕ) (p : Pool) → IsValid p → Quiet (recheck_gate now p)
unfolding recheck_gate
recheck_gate-Quiet now p v =
    if-elim Quiet (p.waiter_gate == 0)
      (λ y.
        let shut_gate : p.waiter_gate ≡ 0 = (==_iff p.waiter_gate 0).0 y in
        Quiet-alone p (omega (arith, shut_gate, v.gate)))
      (λ n. serve_waiters-Quiet now (length p.waiters) p (omega arith))
