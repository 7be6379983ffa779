-- ===== src/Starling/Pool/Threads/Parking.antt =====
-- A parker and the threads that go on without the mutex while it raises the gate and scans the bits.
use menagerie.Prelude.{
  ℕ, zero, suc, ◌+◌, ◌-◌, ◌≤◌, ◌≡◌, refl, sym, ap, subst, ◌∙◌, ◌⊎◌, inl, inr, Bool, true, false,
  ◌||◌, List, [], ◌∷◌, ◌++◌, arith, length, any, take, some,
}
use menagerie.Prelude.{if-elim}
use menagerie.Starling.Pool.{
  Waiter, Pool, claim_idle, publish_idle, take_bit, bit_at, set_elem, past,
}
use menagerie.Starling.Pool.Operations.{
  Acquired, takes_mutex, raise_gate, lower_gate, enqueue, claimed_parking, count_bits,
}
use menagerie.Starling.Pool.Slots.{count_bits-set_elem}
use menagerie.Starling.Pool.Closing.{bit_at-lt}
use menagerie.Starling.Pool.Ownership.{publish_idle-Held, take_bit-Held}
use menagerie.Starling.Pool.Moves.{claim_idle-take, claim_idle-bit}
use menagerie.Starling.Pool.Handoff.{Quiet, Quiet-busy, Quiet-fewer, handoff_or_publish_locked-Held}
use menagerie.Starling.Pool.Threads.{
  Thread, LockFree, turns, begins_borrow, begins_maintenance, keeps_claim, starts_release,
  publishes, finds_open, finds_gate_down, Scan, raises, passes, meanwhile, holds, claims, taken,
}
use menagerie.Starling.Pool.Threads.Sections.{AllHeld, Outcome, turned-AllHeld, waiting-Held}
use menagerie.Starling.Pool.Threads.Waking.{
  looks_again, Watched, claim_idle-Quiet, handoff_or_publish_locked-Quiet,
}

pub watch : {A B C D : Type 0} → (A → B) → (C → D) → A ⊎ C → B ⊎ D
watch quiets looks (inl h) = inl (quiets h)
watch quiets looks (inr h) = inr (looks h)

any-turns :
    (t : Thread) (ts : List Thread) → any looks_again (ts ++ t ∷ []) ≡ any looks_again (t ∷ ts)
any-turns t [] = refl
any-turns t (u ∷ ts) =
    ap (λ b. looks_again u || b) (any-turns t ts)
    ∙ swap (looks_again u) (looks_again t) (any looks_again ts)
  where
    swap : (a b c : Bool) → (a || (b || c)) ≡ (b || (a || c))
    swap true true c = refl
    swap true false c = refl
    swap false true c = refl
    swap false false c = refl

-- The pool with another count in its gate.
abbrev pub gated : ℕ → Pool → Pool
gated g p = record p { waiter_gate = g }

-- Whatever the gate says, a step without the mutex moves a slot from one hand to another.
LockFree-gated :
    (g : ℕ) (p q : Pool) (ts us : List Thread)
    → LockFree p ts q us
    → AllHeld (gated g p) ts
    → AllHeld (gated g q) us
unfolding publish_idle
LockFree-gated g _ _ _ _ (turns p t ts) h = turned-AllHeld (gated g p) t ts h
LockFree-gated g _ _ _ _ (begins_borrow p q i ts e) h =
    subst (λ r. AllHeld (gated g r) (claims i ∷ ts)) (sym (claim_idle-take p q i e))
      (take_bit-Held i (gated g p) (claim_idle-bit p q i e) h)
LockFree-gated g _ _ _ _ (begins_maintenance p q i ts e) h =
    subst (λ r. AllHeld (gated g r) (claims i ∷ ts)) (sym (claim_idle-take p q i e))
      (take_bit-Held i (gated g p) (claim_idle-bit p q i e) h)
LockFree-gated g _ _ _ _ (keeps_claim p i ts e) h = h
LockFree-gated g _ _ _ _ (starts_release p i ts) h =
    if-elim (λ t. AllHeld (gated g p) (t ∷ ts)) (takes_mutex p) (λ y. h) (λ n. h)
LockFree-gated g _ _ _ _ (publishes p i ts) h = publish_idle-Held i (gated g p) h
LockFree-gated g _ _ _ _ (finds_open p i ts e) h = h
LockFree-gated g _ _ _ _ (finds_gate_down p ts e) h = h

-- It leaves the gate as it is.
LockFree-gate :
    (p q : Pool) (ts us : List Thread) → LockFree p ts q us → q.waiter_gate ≡ p.waiter_gate
unfolding publish_idle
LockFree-gate _ _ _ _ (turns p t ts) = refl
LockFree-gate _ _ _ _ (begins_borrow p q i ts e) = ap (λ r. r.waiter_gate) (claim_idle-take p q i e)
LockFree-gate _ _ _ _ (begins_maintenance p q i ts e) =
    ap (λ r. r.waiter_gate) (claim_idle-take p q i e)
LockFree-gate _ _ _ _ (keeps_claim p i ts e) = refl
LockFree-gate _ _ _ _ (starts_release p i ts) = refl
LockFree-gate _ _ _ _ (publishes p i ts) = refl
LockFree-gate _ _ _ _ (finds_open p i ts e) = refl
LockFree-gate _ _ _ _ (finds_gate_down p ts e) = refl

pub LockFree-AllHeld :
    (p q : Pool) (ts us : List Thread) → LockFree p ts q us → AllHeld p ts → AllHeld q us
LockFree-AllHeld p q ts us step h =
    subst (λ g. AllHeld (gated g q) us) (sym (LockFree-gate p q ts us step))
      (LockFree-gated p.waiter_gate p q ts us step h)

-- What a step without the mutex keeps: a claim that claims keep, or else that some thread looks; a
-- thread that stops looking has found the gate down.
LockFree-watches :
    (P : Pool → Type 0)
    → ((p q : Pool) (i : ℕ) → claim_idle p ≡ some (i, q) → P p → P q)
    → (p q : Pool) (ts us : List Thread) → LockFree p ts q us
    → (p.waiter_gate ≡ 0 → P p)
    → P p ⊎ (any looks_again ts ≡ true)
    → P q ⊎ (any looks_again us ≡ true)
LockFree-watches P claim _ _ _ _ (turns p t ts) down h = watch (λ k. k) (λ k. any-turns t ts ∙ k) h
LockFree-watches P claim _ _ _ _ (begins_borrow p q i ts e) down h =
    watch (claim p q i e) (λ k. k) h
LockFree-watches P claim _ _ _ _ (begins_maintenance p q i ts e) down h =
    watch (claim p q i e) (λ k. k) h
LockFree-watches P claim _ _ _ _ (keeps_claim p i ts e) down h = h
LockFree-watches P claim _ _ _ _ (starts_release p i ts) down h =
    watch (λ k. k)
      (λ k. if-elim (λ t. any looks_again (t ∷ ts) ≡ true) (takes_mutex p) (λ y. k) (λ n. k)) h
LockFree-watches P claim _ _ _ _ (publishes p i ts) down h = inr refl
LockFree-watches P claim _ _ _ _ (finds_open p i ts e) down h = inr refl
LockFree-watches P claim _ _ _ _ (finds_gate_down p ts e) down h = inl (down e)

pub LockFree-Watched :
    (p q : Pool) (ts us : List Thread)
    → LockFree p ts q us
    → (p.waiter_gate ≡ 0 → Quiet p)
    → Watched p ts
    → Watched q us
LockFree-Watched = LockFree-watches Quiet claim_idle-Quiet

-- The bits before the `k`-th are clear.
abbrev IsClear : ℕ → Pool → Type 0
IsClear k p = count_bits (take k p.idle_bits) ≡ 0

clear_next :
    (k : ℕ) (bits : List Bool)
    → count_bits (take k bits) ≡ 0
    → bit_at bits k ≡ false
    → count_bits (take (suc k) bits) ≡ 0
clear_next k [] h e = refl
clear_next zero (true ∷ bits) h e = absurd cc
clear_next zero (false ∷ bits) h e = refl
clear_next (suc k) (true ∷ bits) h e = absurd (omega (arith, h))
clear_next (suc k) (false ∷ bits) h e = clear_next k bits h e

clear_kept :
    (k i : ℕ) (bits : List Bool)
    → count_bits (take k bits) ≡ 0
    → count_bits (take k (set_elem i false bits)) ≡ 0
clear_kept k i [] h = h
clear_kept zero i (b ∷ bits) h = refl
clear_kept (suc k) zero (true ∷ bits) h = absurd (omega (arith, h))
clear_kept (suc k) zero (false ∷ bits) h = h
clear_kept (suc k) (suc i) (true ∷ bits) h = absurd (omega (arith, h))
clear_kept (suc k) (suc i) (false ∷ bits) h = clear_kept k i bits h

clear_all :
    (k : ℕ) (bits : List Bool)
    → length bits ≤ k
    → count_bits (take k bits) ≡ 0
    → count_bits bits ≡ 0
clear_all k [] le h = refl
clear_all zero (b ∷ bits) le h = absurd (omega (arith, le))
clear_all (suc k) (true ∷ bits) le h = absurd (omega (arith, h))
clear_all (suc k) (false ∷ bits) le h = clear_all k bits (omega (arith, le)) h

claim_idle-IsClear :
    (k : ℕ) (p q : Pool) (i : ℕ) → claim_idle p ≡ some (i, q) → IsClear k p → IsClear k q
claim_idle-IsClear k p q i e h =
    subst (IsClear k) (sym (claim_idle-take p q i e)) (clear_kept k i p.idle_bits h)

-- During a scan: the gate counts one more than the waiters, the hands and the registries agree, the
-- waiters are watched, and a bit that was passed is clear unless some thread has yet to look.
pub record Scanning (g k : ℕ) (q : Pool) (us : List Thread) : Type 0 where
  pub up : q.waiter_gate ≡ g + 1
  pub held : AllHeld (gated g q) us
  pub watched : Watched q us
  pub passed : IsClear k q ⊎ (any looks_again us ≡ true)

pub Scan-Scanning :
    (p : Pool) (ts : List Thread) (k : ℕ) (q : Pool) (us : List Thread)
    → Scan p ts k q us
    → AllHeld p ts
    → Watched p ts
    → Scanning p.waiter_gate k q us
unfolding raise_gate
Scan-Scanning p ts _ _ _ raises h w = record {
  up = refl;
  held = h;
  watched = watch (λ k. Quiet-fewer p (raise_gate p) k refl (omega arith) (omega arith)) (λ l. l) w;
  passed = inl refl;
}
Scan-Scanning p ts _ _ _ (passes k q us s e) h w =
    let r = Scan-Scanning p ts k q us s h w in
    record {
      up = r.up;
      held = r.held;
      watched = r.watched;
      passed = watch (λ c. clear_next k q.idle_bits c e) (λ l. l) r.passed;
    }
Scan-Scanning p ts _ _ _ (meanwhile k q t us vs s step) h w =
    let r = Scan-Scanning p ts k q us s h w in
    record {
      up = LockFree-gate q t us vs step ∙ r.up;
      held = LockFree-gated p.waiter_gate q t us vs step r.held;
      watched = LockFree-Watched q t us vs step (λ z. absurd (omega (arith, z, r.up))) r.watched;
      passed =
          LockFree-watches (IsClear k) (claim_idle-IsClear k) q t us vs step
            (λ z. absurd (omega (arith, z, r.up))) r.passed;
    }

-- A scan that found nothing ends with the parker in the list.
module _ (g k : ℕ) (w : Waiter) (q : Pool) (us : List Thread) (s : Scanning g k q us) where
  pub enqueue-AllHeld : AllHeld (enqueue w q) us
  unfolding enqueue
  enqueue-AllHeld =
      subst (λ n. AllHeld (record q { waiter_gate = n; waiters = q.waiters ++ w ∷ [] }) us)
        (sym s.up) (waiting-Held w (gated g q) s.held)

  pub enqueue-Watched : length q.idle_bits ≤ k → Watched (enqueue w q) us
  unfolding enqueue
  enqueue-Watched le =
      watch (λ c. Quiet-busy (enqueue w q) (clear_all k q.idle_bits le c)) (λ l. l) s.passed

  module _ (now : Waiter → ℕ) (later : ℕ) (bit : bit_at q.idle_bits k ≡ true) where
    lowered_held : AllHeld (lower_gate (take_bit k q)) (holds k ∷ us)
    unfolding lower_gate
    lowered_held =
        let back : g ≡ q.waiter_gate - 1 = omega (arith, s.up) in
        subst (λ n. AllHeld (gated n (take_bit k q)) (holds k ∷ us)) back
          (take_bit-Held k (gated g q) bit s.held)

    -- A scan that found a slot ends with the slot in one hand.
    pub claimed_parking-Outcome : Outcome us (claimed_parking now later w k (take_bit k q))
    unfolding claimed_parking
    claimed_parking-Outcome =
        if-elim (Outcome us) (past later w.deadline)
          (λ y. handoff_or_publish_locked-Held now k (lower_gate (take_bit k q)) lowered_held)
          (λ n. lowered_held)

    pub claimed_parking-Watched :
        let r = claimed_parking now later w k (take_bit k q) in Watched r.1 (taken r.0 us)
    unfolding claimed_parking lower_gate
    claimed_parking-Watched =
        if-elim (λ (r : Acquired × Pool). Watched r.1 (taken r.0 us)) (past later w.deadline)
          (λ y.
            watch (λ h. handoff_or_publish_locked-Quiet now k (lower_gate (take_bit k q)) (fewer h))
              (λ l. l) s.watched)
          (λ n. watch fewer (λ l. l) s.watched)
      where
        fewer : Quiet q → Quiet (lower_gate (take_bit k q))
        fewer h =
            Quiet-fewer q (lower_gate (take_bit k q)) h refl (omega arith)
              (omega (arith, count_bits-set_elem false k q.idle_bits (bit_at-lt k q.idle_bits bit)))
