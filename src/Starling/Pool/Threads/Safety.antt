-- ===== src/Starling/Pool/Threads/Safety.antt =====
-- No step of a thread puts a slot into two hands.
use menagerie.Prelude.{
  ℕ, ◌≡◌, refl, sym, ap, subst, inl, inr, Bool, not, Option, none, some, List, [], ◌∷◌, ◌++◌, arith,
  ◌==◌, if◌then◌else◌, Bool-cases, length,
}
use menagerie.Prelude.{if-elim}
use menagerie.Starling.Pool.{
  Waiter, WaiterState, assigned, Pool, bit_at, publish_idle, take_bit, reclaim_idle,
}
use menagerie.Starling.Pool.Operations.{
  reserve_from, take_from, try_reserve, try_take_quarantined, take_idle_locked, make_usable,
  publish, reclaimed, recheck_closed, recheck_gate,
}
use menagerie.Starling.Pool.Ownership.{
  Held, assignments, assignments-append, publish_idle-Held, quarantine_borrowed-Held,
  make_usable-Held, rollback-Held, take_back-Held, take_bit-Held, reserve_from-Held, take_from-Held,
}
use menagerie.Starling.Pool.Handoff.{handoff_or_publish_locked-Held, serve_waiters-Held}
use menagerie.Starling.Pool.Closing.{shut-Shut}
use menagerie.Starling.Pool.Threads.{
  Thread, maintains, reserves, borrowed_by, reserved_by, reserving, Step, goes_on, checks_claim,
  gives_up, hands_over, finds_closed, looks_at_gate, takes_idle, begins_reservation, begins_repair,
  rolls_back, publishes_reserved, parks, claims_parking, wakes, collects, shuts,
}
use menagerie.Starling.Pool.Threads.Waking.{Watched}
use menagerie.Starling.Pool.Threads.Parking.{
  LockFree-AllHeld, Scan-Scanning, enqueue-AllHeld, claimed_parking-Outcome,
}
use menagerie.Starling.Pool.Threads.Sections.{AllHeld, keep_claimed-Outcome, unlink_waiter-Held}

abbrev Reserving : List Thread → Option ℕ × Pool → Type 0
Reserving ts r = AllHeld r.1 (reserving r.0 ts)

take_idle_locked-Reserving :
    (now : Waiter → ℕ) (i : ℕ) (p : Pool) (ts : List Thread)
    → AllHeld p (maintains i ∷ ts)
    → Reserving ts (take_idle_locked now i p)
unfolding take_idle_locked
take_idle_locked-Reserving now i p ts h =
    if-elim (Reserving ts) p.closed (λ y. quarantine_borrowed-Held i p h)
      (λ n.
        if-elim (Reserving ts) (not (p.waiter_gate == 0))
          (λ y.
            serve_waiters-Held now (length (publish_idle i p).waiters) (publish_idle i p)
              (publish_idle-Held i p h))
          (λ m. take_back-Held i p h))

abbrev Publishing : ℕ → List Thread → Bool × Pool → Type 0
Publishing i ts r = AllHeld r.1 (if r.0 then ts else reserves i ∷ ts)

publish-Publishing :
    (now : Waiter → ℕ) (i : ℕ) (p : Pool) (ts : List Thread)
    → AllHeld p (reserves i ∷ ts)
    → Publishing i ts (publish now i p)
unfolding publish
publish-Publishing now i p ts h =
    if-elim (Publishing i ts) p.closed (λ y. h)
      (λ n. handoff_or_publish_locked-Held now i (make_usable i p) (make_usable-Held i p h))

recheck_closed-Held :
    {bs rs : List ℕ} (i : ℕ) (p : Pool) → Held bs rs p → Held bs rs (recheck_closed i p)
unfolding recheck_closed reclaim_idle
recheck_closed-Held {bs} {rs} i p h = elim (Bool-cases (bit_at p.idle_bits i)) [
  | inl y ↦
      subst (λ b. Held bs rs (reclaimed i p (if b then some (take_bit i p) else none))) (sym y)
        (quarantine_borrowed-Held i (take_bit i p) (take_bit-Held i p y h))
  | inr n ↦
      subst (λ b. Held bs rs (reclaimed i p (if b then some (take_bit i p) else none))) (sym n) h
]

recheck_gate-Held :
    {bs rs : List ℕ} (now : Waiter → ℕ) (p : Pool) → Held bs rs p → Held bs rs (recheck_gate now p)
unfolding recheck_gate
recheck_gate-Held {bs} {rs} now p h =
    if-elim (Held bs rs) (p.waiter_gate == 0) (λ y. h)
      (λ n. serve_waiters-Held now (length p.waiters) p h)

abbrev Takes : List ℕ → List ℕ → Option (ℕ × Pool) → Type 0
Takes bs rs none = Unit
Takes bs rs (some (i, q)) = Held bs (i ∷ rs) q

reserve_from-Takes :
    {bs rs : List ℕ} (p : Pool) (slots : List ℕ)
    → p.vacant_slots ≡ slots
    → Held bs rs p
    → Takes bs rs (reserve_from slots p)
reserve_from-Takes p [] top h = tt
reserve_from-Takes p (i ∷ rest) top h = reserve_from-Held i p rest top h

take_from-Takes :
    {bs rs : List ℕ} (p : Pool) (slots : List ℕ)
    → p.quarantined_slots ≡ slots
    → Held bs rs p
    → Takes bs rs (take_from slots p)
take_from-Takes p [] top h = tt
take_from-Takes p (i ∷ rest) top h = take_from-Held i p rest top h

try_reserve-Takes : {bs rs : List ℕ} (p : Pool) → Held bs rs p → Takes bs rs (try_reserve p)
unfolding try_reserve
try_reserve-Takes {bs} {rs} p h =
    if-elim (Takes bs rs) p.closed (λ y. tt) (λ n. reserve_from-Takes p p.vacant_slots refl h)

try_take_quarantined-Takes :
    {bs rs : List ℕ} (p : Pool) → Held bs rs p → Takes bs rs (try_take_quarantined p)
unfolding try_take_quarantined
try_take_quarantined-Takes {bs} {rs} p h =
    if-elim (Takes bs rs) p.closed (λ y. tt) (λ n. take_from-Takes p p.quarantined_slots refl h)

-- A waiter that was assigned a slot takes it.
collect-Held :
    {bs rs : List ℕ} (p : Pool) (before after : List (ℕ × WaiterState)) (id i : ℕ)
    → p.completed ≡ before ++ (id, assigned i) ∷ after
    → Held bs rs p
    → Held (i ∷ bs) rs (record p { completed = before ++ after })
collect-Held {bs} {rs} p before after id i e h = record {
  valid = record {
    bits = h.valid.bits;
    in_vacant = h.valid.in_vacant;
    in_quarantined = h.valid.in_quarantined;
    published = h.valid.published;
    vacants = h.valid.vacants;
    quarantineds = h.valid.quarantineds;
    idles = h.valid.idles;
    reserveds = h.valid.reserveds;
    usables = h.valid.usables;
    gate = h.valid.gate;
  };
  borrows = λ j.
      let all : assignments j p.completed ≡ assignments j (before ++ (id, assigned i) ∷ after) =
        ap (assignments j) e in
      omega (
        arith,
        h.borrows j,
        all,
        assignments-append j before ((id, assigned i) ∷ after),
        assignments-append j before after,
      );
  reserves = h.reserves;
}

-- Every step keeps the invariant: a slot is borrowed or reserved just if it is in one hand, and the
-- registries, the idle bits and the counters agree with the states of the slots.
pub Step-AllHeld :
    (p q : Pool) (ts us : List Thread) → Step p ts q us → AllHeld p ts → Watched p ts → AllHeld q us
Step-AllHeld _ _ _ _ (goes_on p q ts us step) h w = LockFree-AllHeld p q ts us step h
Step-AllHeld _ _ _ _ (checks_claim p i ts) h w = keep_claimed-Outcome p i ts h
Step-AllHeld _ _ _ _ (gives_up p i ts) h w = quarantine_borrowed-Held i p h
Step-AllHeld _ _ _ _ (hands_over now p i ts) h w = handoff_or_publish_locked-Held now i p h
Step-AllHeld _ _ _ _ (finds_closed p i ts e) h w = recheck_closed-Held i p h
Step-AllHeld _ _ _ _ (looks_at_gate now p ts) h w = recheck_gate-Held now p h
Step-AllHeld _ _ _ _ (takes_idle now p i ts) h w = take_idle_locked-Reserving now i p ts h
Step-AllHeld _ _ _ _ (begins_reservation p q i ts e) h w =
    subst (Takes (borrowed_by ts) (reserved_by ts)) e (try_reserve-Takes p h)
Step-AllHeld _ _ _ _ (begins_repair p q i ts e) h w =
    subst (Takes (borrowed_by ts) (reserved_by ts)) e (try_take_quarantined-Takes p h)
Step-AllHeld _ _ _ _ (rolls_back p i ts) h w = rollback-Held i p h
Step-AllHeld _ _ _ _ (publishes_reserved now p i ts) h w = publish-Publishing now i p ts h
Step-AllHeld _ _ _ _ (wakes id p ts) h w = unlink_waiter-Held id p h
Step-AllHeld _ _ _ _ (collects p before after id i ts e) h w = collect-Held p before after id i e h
Step-AllHeld _ _ _ _ (shuts now p ts) h w = (shut-Shut now p h).0
Step-AllHeld _ _ _ _ (parks x k p q ts us open_still s le) h w =
    enqueue-AllHeld p.waiter_gate k x q us (Scan-Scanning p ts k q us s h w)
Step-AllHeld _ _ _ _ (claims_parking now later x k p q ts us open_still s bit) h w =
    claimed_parking-Outcome p.waiter_gate k x q us (Scan-Scanning p ts k q us s h w) now later bit
