-- ===== src/Starling/Pool/Fairness.antt =====
-- What a slot that is given back, and a shutdown, do to the waiters.
use menagerie.Prelude.{
  ℕ, suc, ◌+◌, ◌≡◌, refl, sym, ap, subst, ◌∙◌, Bool, true, false, List, [], ◌∷◌, ◌++◌, append_assoc,
  append-nil, arith, if◌then◌else◌, All,
}
use menagerie.Prelude.{if-elim}
use menagerie.Starling.Pool.{
  Waiter, WaiterState, assigned, timeout, shutdown, complete_front, handoff_to, Pool, bit_at,
  handoff_or_publish_locked, past,
}
use menagerie.Starling.Pool.Operations.{sweep_slot, sweep, end_waits, shut, count_bits}
use menagerie.Starling.Pool.Slots.{count_bits-set_elem, one_if}
use menagerie.Starling.Pool.Closing.{Remaining, Remaining-next, Remaining-swept, bit_at-lt}

-- How the waits end that a shutdown ends, and the ones past their deadline.
abbrev pub ends : (Waiter → ℕ) → List Waiter → List (ℕ × WaiterState)
ends now [] = []
ends now (w ∷ ws) = (w.id, if past (now w) w.deadline then timeout else shutdown) ∷ ends now ws

abbrev pub timeouts : List Waiter → List (ℕ × WaiterState)
timeouts [] = []
timeouts (w ∷ ws) = (w.id, timeout) ∷ timeouts ws

handoff_to-first :
    (now : Waiter → ℕ) (i : ℕ) (late : List Waiter) (w : Waiter) (rest : List Waiter) (p : Pool)
    → All (λ v. past (now v) v.deadline ≡ true) late
    → past (now w) w.deadline ≡ false
    → ((handoff_to now i (late ++ w ∷ rest) p).waiters ≡ rest)
      × ((handoff_to now i (late ++ w ∷ rest) p).completed
          ≡ p.completed ++ (timeouts late ++ (w.id, assigned i) ∷ []))
unfolding handoff_to
handoff_to-first now i [] w rest p l e =
    subst
      (λ b.
        let q =
          if b
          then handoff_to now i rest (complete_front w rest timeout p)
          else complete_front w rest (assigned i) p in
        (q.waiters ≡ rest) × (q.completed ≡ p.completed ++ (w.id, assigned i) ∷ []))
      (sym e) (refl, refl)
handoff_to-first now i (v ∷ late) w rest p (lv, ls) e =
    let q = complete_front v (late ++ w ∷ rest) timeout p in
    let later = handoff_to-first now i late w rest q ls e in
    let given : (handoff_to now i (late ++ w ∷ rest) q).completed
        ≡ p.completed ++ (timeouts (v ∷ late) ++ (w.id, assigned i) ∷ []) =
      later.1
      ∙ append_assoc p.completed ((v.id, timeout) ∷ [])
          (timeouts late ++ (w.id, assigned i) ∷ []) in
    subst
      (λ b.
        let r =
          if b
          then handoff_to now i (late ++ w ∷ rest) q
          else complete_front v (late ++ w ∷ rest) (assigned i) p in
        (r.waiters ≡ rest)
        × (r.completed ≡ p.completed ++ (timeouts (v ∷ late) ++ (w.id, assigned i) ∷ [])))
      (sym lv) (later.0, given)

-- In an open pool, a slot that is handed over goes to the first waiter that is not past its
-- deadline; those before it time out, in their order, and those behind it wait on.
pub handoff_or_publish_locked-first :
    (now : Waiter → ℕ) (i : ℕ) (p : Pool) (late : List Waiter) (w : Waiter) (rest : List Waiter)
    → p.closed ≡ false
    → p.waiters ≡ late ++ w ∷ rest
    → All (λ v. past (now v) v.deadline ≡ true) late
    → past (now w) w.deadline ≡ false
    → let q = handoff_or_publish_locked now i p in
      (q.waiters ≡ rest) × (q.completed ≡ p.completed ++ (timeouts late ++ (w.id, assigned i) ∷ []))
unfolding handoff_or_publish_locked
handoff_or_publish_locked-first now i p late w rest still front l e =
    let first = handoff_to-first now i late w rest p l e in
    if-elim
      (λ (q : Pool).
        (q.waiters ≡ rest)
        × (q.completed ≡ p.completed ++ (timeouts late ++ (w.id, assigned i) ∷ [])))
      p.closed (λ y. absurd cc)
      (λ n.
        subst
          (λ ws.
            ((handoff_to now i ws p).waiters ≡ rest)
            × ((handoff_to now i ws p).completed
                ≡ p.completed ++ (timeouts late ++ (w.id, assigned i) ∷ [])))
          (sym front) first)

-- What the sweep leaves of the idle bits, the waiters and the waits that ended.
sweep-bits :
    (i : ℕ) (bits : List Bool) (p : Pool)
    → Remaining i bits p
    → (count_bits (sweep i bits p).idle_bits + count_bits bits ≡ count_bits p.idle_bits)
      × ((sweep i bits p).waiters ≡ p.waiters)
      × ((sweep i bits p).completed ≡ p.completed)
      × ((sweep i bits p).closed ≡ p.closed)
unfolding sweep
sweep-bits i [] p r = (omega arith, refl, refl, refl)
sweep-bits i (false ∷ bits) p r = sweep-bits (suc i) bits p (Remaining-next i false bits p r)
sweep-bits i (true ∷ bits) p r =
    let at : i + 0 ≡ i = omega arith in
    let bit : bit_at p.idle_bits i ≡ true = sym (r 0 ∙ ap (bit_at p.idle_bits) at) in
    let within = bit_at-lt i p.idle_bits bit in
    let rest =
      sweep-bits (suc i) bits (sweep_slot i p)
        (Remaining-swept i bits p within (Remaining-next i true bits p r)) in
    let one : one_if (bit_at p.idle_bits i) ≡ 1 = ap one_if bit in
    (
      omega (arith, rest.0, one, count_bits-set_elem false i p.idle_bits within),
      rest.1,
      rest.2,
      rest.3,
    )

end_waits-ends :
    (now : Waiter → ℕ) (ws : List Waiter) (p : Pool)
    → p.waiters ≡ ws
    → ((end_waits now ws p).waiters ≡ [])
      × ((end_waits now ws p).completed ≡ p.completed ++ ends now ws)
      × ((end_waits now ws p).idle_bits ≡ p.idle_bits)
      × ((end_waits now ws p).closed ≡ p.closed)
unfolding end_waits
end_waits-ends now [] p front = (front, sym (append-nil p.completed), refl, refl)
end_waits-ends now (w ∷ ws) p front =
    let state : WaiterState = if past (now w) w.deadline then timeout else shutdown in
    let rest = end_waits-ends now ws (complete_front w ws state p) refl in
    (rest.0, rest.1 ∙ append_assoc p.completed ((w.id, state) ∷ []) (ends now ws), rest.2, rest.3)

-- Shutting an open pool closes it, leaves no slot idle and nobody waiting, and ends every wait, in
-- the order of the waiters: with a timeout past its deadline, and with a shutdown otherwise.
pub shut-ends :
    (now : Waiter → ℕ) (p : Pool)
    → p.closed ≡ false
    → ((shut now p).closed ≡ true)
      × (count_bits (shut now p).idle_bits ≡ 0)
      × ((shut now p).waiters ≡ [])
      × ((shut now p).completed ≡ p.completed ++ ends now p.waiters)
unfolding shut
shut-ends now p still =
    let closing = record p { closed = true } in
    let swept = sweep 0 p.idle_bits closing in
    let bits = sweep-bits 0 p.idle_bits closing (λ k. ap (bit_at p.idle_bits) (omega arith)) in
    let ended = end_waits-ends now swept.waiters swept refl in
    if-elim
      (λ (q : Pool).
        (q.closed ≡ true)
        × (count_bits q.idle_bits ≡ 0)
        × (q.waiters ≡ [])
        × (q.completed ≡ p.completed ++ ends now p.waiters))
      p.closed (λ y. absurd cc)
      (λ n. (
        ended.3 ∙ bits.3,
        ap count_bits ended.2 ∙ omega (arith, bits.0),
        ended.0,
        ended.1 ∙ rw (bits.1, bits.2) refl,
      ))
