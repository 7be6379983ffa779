-- ===== src/Starling/Pool/Closing.antt =====
-- Closing the pool.
use menagerie.Prelude.{
  ℕ, zero, suc, ◌+◌, ◌-◌, ◌<◌, ◌≡◌, refl, sym, ap, subst, ◌∙◌, Bool, true, false, List, [], ◌∷◌,
  arith, ◌==◌, if◌then◌else◌, length,
}
use menagerie.Prelude.{if-elim}
use menagerie.Starling.Pool.{
  SlotState, borrowed, quarantined, Waiter, timeout, shutdown, set_elem, bit_at, Pool, take_bit,
  quarantine_borrowed, complete_front, past,
}
use menagerie.Starling.Pool.Operations.{sweep_slot, sweep, end_waits, shut}
use menagerie.Starling.Pool.Slots.{bit_at-set_elem}
use menagerie.Starling.Pool.Ownership.{assigned_to, Held, quarantine_borrowed-Held, take_bit-Held}
use menagerie.Starling.Pool.Handoff.{complete_front-Held}

set_elem-twice :
    (i : ℕ) (x y : SlotState) (xs : List SlotState)
    → set_elem i x (set_elem i y xs) ≡ set_elem i x xs
set_elem-twice i x y [] = refl
set_elem-twice zero x y (z ∷ xs) = refl
set_elem-twice (suc i) x y (z ∷ xs) = ap (λ l. z ∷ l) (set_elem-twice i x y xs)

-- An idle slot of which the bit is set goes to quarantine.
sweep_slot-Held :
    {bs rs : List ℕ} (i : ℕ) (p : Pool)
    → bit_at p.idle_bits i ≡ true
    → Held bs rs p
    → Held bs rs (sweep_slot i p)
unfolding quarantine_borrowed
sweep_slot-Held {bs} {rs} i p bit h =
    let swept = quarantine_borrowed-Held i (take_bit i p) (take_bit-Held i p bit h) in
    subst
      (λ xs. Held bs rs (record p {
        idle_bits = set_elem i false p.idle_bits;
        states = xs;
        usable_size = p.usable_size - 1;
        quarantined_slots = i ∷ p.quarantined_slots;
      }))
      (set_elem-twice i quarantined borrowed p.states) swept

-- The bits still to sweep are those of the pool from an index on.
abbrev pub Remaining : ℕ → List Bool → Pool → Type 0
Remaining i bits p = (k : ℕ) → bit_at bits k ≡ bit_at p.idle_bits (i + k)

pub Remaining-next :
    (i : ℕ) (b : Bool) (bits : List Bool) (p : Pool)
    → Remaining i (b ∷ bits) p
    → Remaining (suc i) bits p
Remaining-next i b bits p r k =
    let at : i + suc k ≡ suc i + k = omega arith in r (suc k) ∙ ap (bit_at p.idle_bits) at

pub Remaining-swept :
    (i : ℕ) (bits : List Bool) (p : Pool)
    → i < length p.idle_bits
    → Remaining (suc i) bits p
    → Remaining (suc i) bits (sweep_slot i p)
Remaining-swept i bits p h r k =
    let other : (i == suc i + k) ≡ false = ground arith in
    r k ∙ sym (bit_at-set_elem false i (suc i + k) p.idle_bits h ∙ rw other refl)

abbrev Closes : List ℕ → List ℕ → Pool → Pool → Type 0
Closes bs rs p q = Held bs rs q × (q.closed ≡ p.closed) × (q.waiters ≡ p.waiters)

pub bit_at-lt : (i : ℕ) (bits : List Bool) → bit_at bits i ≡ true → i < length bits
bit_at-lt i [] e = absurd cc
bit_at-lt zero (b ∷ bits) e = omega arith
bit_at-lt (suc i) (b ∷ bits) e = omega (arith, bit_at-lt i bits e)

sweep-Closes :
    {bs rs : List ℕ} (i : ℕ) (bits : List Bool) (p : Pool)
    → Remaining i bits p
    → Held bs rs p
    → Closes bs rs p (sweep i bits p)
unfolding sweep
sweep-Closes i [] p r h = (h, refl, refl)
sweep-Closes i (false ∷ bits) p r h =
    sweep-Closes (suc i) bits p (Remaining-next i false bits p r) h
sweep-Closes i (true ∷ bits) p r h =
    let at : i + 0 ≡ i = omega arith in
    let bit : bit_at p.idle_bits i ≡ true = sym (r 0 ∙ ap (bit_at p.idle_bits) at) in
    sweep-Closes (suc i) bits (sweep_slot i p)
      (Remaining-swept i bits p (bit_at-lt i p.idle_bits bit) (Remaining-next i true bits p r))
      (sweep_slot-Held i p bit h)

end_waits-Held :
    {bs rs : List ℕ} (now : Waiter → ℕ) (ws : List Waiter) (p : Pool)
    → p.waiters ≡ ws
    → Held bs rs p
    → Held bs rs (end_waits now ws p)
      × ((end_waits now ws p).waiters ≡ [])
      × ((end_waits now ws p).closed ≡ p.closed)
unfolding end_waits
end_waits-Held now [] p front h = (h, front, refl)
end_waits-Held now (w ∷ ws) p front h =
    end_waits-Held now ws
      (complete_front w ws (if past (now w) w.deadline then timeout else shutdown) p) refl
      (complete_front-Held p w ws (if past (now w) w.deadline then timeout else shutdown)
        (λ j. none_assigned j (past (now w) w.deadline)) front h)
  where
    none_assigned : (j : ℕ) (b : Bool) → assigned_to j (if b then timeout else shutdown) ≡ 0
    none_assigned j true = refl
    none_assigned j false = refl

closing-Held : {bs rs : List ℕ} (p : Pool) → Held bs rs p → Held bs rs (record p { closed = true })
closing-Held p h = record {
  valid = record {
    bits = h.valid.bits;
    in_vacant = h.valid.in_vacant;
    in_quarantined = h.valid.in_quarantined;
    published = h.valid.published;
    vacants = h.valid.vacants;
    quarantineds = h.valid.quarantineds;
    idles = h.valid.idles;
    reserveds = h.valid.reserveds;
    usables = h.valid.usables;
    gate = h.valid.gate;
  };
  borrows = h.borrows;
  reserves = h.reserves;
}

-- A pool that is shut: closed, and nobody waits any more.
abbrev Shut : List ℕ → List ℕ → Pool → Type 0
Shut bs rs q = Held bs rs q × (q.closed ≡ true)

pub shut-Shut :
    {bs rs : List ℕ} (now : Waiter → ℕ) (p : Pool) → Held bs rs p → Shut bs rs (shut now p)
unfolding shut
shut-Shut {bs} {rs} now p h =
    if-elim (Shut bs rs) p.closed (λ y. (h, y))
      (λ n.
        let closing = record p { closed = true } in
        let swept =
          sweep-Closes 0 p.idle_bits closing (λ k. ap (bit_at p.idle_bits) (omega arith))
            (closing-Held p h) in
        let ended =
          end_waits-Held now (sweep 0 p.idle_bits closing).waiters (sweep 0 p.idle_bits closing)
            refl swept.0 in
        (ended.0, ended.2 ∙ swept.1))
