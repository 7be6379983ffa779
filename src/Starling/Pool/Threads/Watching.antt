-- ===== src/Starling/Pool/Threads/Watching.antt =====
-- Each step leaves every waiter watched.
use menagerie.Prelude.{
  ℕ, ◌-◌, ◌≡◌, refl, subst, ◌∙◌, inl, true, Option, none, some, List, [], ◌∷◌, ◌++◌, arith, any,
}
use menagerie.Prelude.{if-elim}
use menagerie.Starling.Pool.{timeout, Pool, quarantine_borrowed}
use menagerie.Starling.Pool.Operations.{
  Acquired, borrows, fails, waits, keep_claimed, unlink_waiter, without, is_waiting, reserve_slot,
  reserve_from, take_from, try_reserve, try_take_quarantined, rollback, publish, shut,
  recheck_closed,
}
use menagerie.Starling.Pool.Closing.{shut-Shut}
use menagerie.Starling.Pool.Threads.{
  Thread, taken, Step, goes_on, checks_claim, gives_up, hands_over, finds_closed, looks_at_gate,
  takes_idle, begins_reservation, begins_repair, rolls_back, publishes_reserved, parks,
  claims_parking, wakes, collects, shuts,
}
use menagerie.Starling.Pool.Threads.Parking.{
  watch, LockFree-Watched, Scan-Scanning, enqueue-Watched, claimed_parking-Watched,
}
use menagerie.Starling.Pool.Handoff.{Quiet, Quiet-closed, Quiet-alone, Quiet-fewer}
use menagerie.Starling.Pool.Threads.Sections.{AllHeld, length-without}
use menagerie.Starling.Pool.Threads.Waking.{
  looks_again, Watched, handoff_or_publish_locked-Quiet, keep_claimed-Quiet, take_idle_locked-Quiet,
  publish-Quiet, recheck_closed-closed, recheck_gate-Quiet,
}

unlink_waiter-Quiet : (id : ℕ) (p : Pool) → Quiet p → Quiet (unlink_waiter id p)
unfolding unlink_waiter
unlink_waiter-Quiet id p h =
    if-elim Quiet (is_waiting id p.waiters)
      (λ y.
        Quiet-fewer p
          (record p {
            waiters = without id p.waiters;
            waiter_gate = p.waiter_gate - 1;
            completed = p.completed ++ (id, timeout) ∷ [];
          })
          h refl (omega (arith, length-without id p.waiters y)) (omega arith))
      (λ n. h)

abbrev Leaving : Option (ℕ × Pool) → Type 0
Leaving none = Unit
Leaving (some (i, q)) = Quiet q

reserve_from-Leaving : (slots : List ℕ) (p : Pool) → Quiet p → Leaving (reserve_from slots p)
reserve_from-Leaving [] p h = tt
reserve_from-Leaving (i ∷ rest) p h =
    Quiet-fewer p (record (reserve_slot i p) { vacant_slots = rest }) h refl (omega arith)
      (omega arith)

take_from-Leaving : (slots : List ℕ) (p : Pool) → Quiet p → Leaving (take_from slots p)
take_from-Leaving [] p h = tt
take_from-Leaving (i ∷ rest) p h =
    Quiet-fewer p (record (reserve_slot i p) { quarantined_slots = rest }) h refl (omega arith)
      (omega arith)

try_reserve-Leaving : (p : Pool) → Quiet p → Leaving (try_reserve p)
unfolding try_reserve
try_reserve-Leaving p h =
    if-elim Leaving p.closed (λ y. tt) (λ n. reserve_from-Leaving p.vacant_slots p h)

try_take_quarantined-Leaving : (p : Pool) → Quiet p → Leaving (try_take_quarantined p)
unfolding try_take_quarantined
try_take_quarantined-Leaving p h =
    if-elim Leaving p.closed (λ y. tt) (λ n. take_from-Leaving p.quarantined_slots p h)

taken-looks : (a : Acquired) (ts : List Thread) → any looks_again (taken a ts) ≡ any looks_again ts
taken-looks (borrows i) ts = refl
taken-looks (fails error) ts = refl
taken-looks waits ts = refl

-- Every step keeps the waiters watched.
pub Step-Watched :
    (p q : Pool) (ts us : List Thread) → Step p ts q us → AllHeld p ts → Watched p ts → Watched q us
unfolding quarantine_borrowed rollback
Step-Watched _ _ _ _ (goes_on p q ts us step) v h =
    LockFree-Watched p q ts us step (λ z. Quiet-alone p (omega (arith, z, v.valid.gate))) h
Step-Watched _ _ _ _ (checks_claim p i ts) v h =
    watch (keep_claimed-Quiet p i) (λ k. taken-looks (keep_claimed i p).0 ts ∙ k) h
Step-Watched _ _ _ _ (gives_up p i ts) v h =
    watch (λ k. Quiet-fewer p (quarantine_borrowed i p) k refl (omega arith) (omega arith)) (λ k. k)
      h
Step-Watched _ _ _ _ (hands_over now p i ts) v h =
    watch (handoff_or_publish_locked-Quiet now i p) (λ k. k) h
Step-Watched _ _ _ _ (finds_closed p i ts e) v h =
    inl (Quiet-closed (recheck_closed i p) (recheck_closed-closed i p ∙ e))
Step-Watched _ _ _ _ (looks_at_gate now p ts) v h = inl (recheck_gate-Quiet now p v.valid)
Step-Watched _ _ _ _ (takes_idle now p i ts) v h = inl (take_idle_locked-Quiet now i p v.valid)
Step-Watched _ _ _ _ (begins_reservation p q i ts e) v h =
    watch (λ k. subst Leaving e (try_reserve-Leaving p k)) (λ k. k) h
Step-Watched _ _ _ _ (begins_repair p q i ts e) v h =
    watch (λ k. subst Leaving e (try_take_quarantined-Leaving p k)) (λ k. k) h
Step-Watched _ _ _ _ (rolls_back p i ts) v h =
    watch (λ k. Quiet-fewer p (rollback i p) k refl (omega arith) (omega arith)) (λ k. k) h
Step-Watched _ _ _ _ (publishes_reserved now p i ts) v h =
    watch (publish-Quiet now i p)
      (λ k. if-elim (λ us. any looks_again us ≡ true) (publish now i p).0 (λ y. k) (λ n. k)) h
Step-Watched _ _ _ _ (parks x k p q ts us open_still s le) v h =
    enqueue-Watched p.waiter_gate k x q us (Scan-Scanning p ts k q us s v h) le
Step-Watched _ _ _ _ (claims_parking now later x k p q ts us open_still s bit) v h =
    claimed_parking-Watched p.waiter_gate k x q us (Scan-Scanning p ts k q us s v h) now later bit
Step-Watched _ _ _ _ (wakes id p ts) v h = watch (unlink_waiter-Quiet id p) (λ k. k) h
Step-Watched _ _ _ _ (collects p before after id i ts e) v h =
    watch
      (λ k.
        Quiet-fewer p (record p { completed = before ++ after }) k refl (omega arith) (omega arith))
      (λ k. k) h
Step-Watched _ _ _ _ (shuts now p ts) v h = inl (Quiet-closed (shut now p) (shut-Shut now p v).1)
