-- ===== src/Starling/Pool/Threads/Sections.antt =====
-- Sections of threads, and which slots they leave in whose hands.
use menagerie.Prelude.{
  ℕ, suc, ◌+◌, ◌-◌, ◌≡◌, refl, ap, ◌∙◌, inl, inr, true, List, [], ◌∷◌, ◌++◌, arith, ◌==◌,
  Bool-cases, length, length-append,
}
use menagerie.Prelude.{if-elim}
use menagerie.Starling.Pool.{Waiter, WaiterState, timeout, Pool}
use menagerie.Starling.Pool.Operations.{Acquired, keep_claimed, unlink_waiter, without, is_waiting}
use menagerie.Starling.Pool.Slots.{occurrences}
use menagerie.Starling.Pool.Bookkeeping.{IsValid}
use menagerie.Starling.Pool.Ownership.{
  Held, assignments, assignments-append, quarantine_borrowed-Held,
}
use menagerie.Starling.Pool.Threads.{
  tokens, borrowed_token, reserved_token, Thread, claims, borrowed_by, reserved_by, taken,
}

-- What the threads hold is what the pool has given out.
abbrev pub AllHeld : Pool → List Thread → Type 0
AllHeld p ts = Held (borrowed_by ts) (reserved_by ts) p

-- Only the numbers of the tokens count.
Held-same :
    {bs cs rs ss : List ℕ} {p : Pool}
    → ((j : ℕ) → occurrences j cs ≡ occurrences j bs)
    → ((j : ℕ) → occurrences j ss ≡ occurrences j rs)
    → Held bs rs p
    → Held cs ss p
Held-same {bs} {cs} {rs} {ss} {p} b r h = record {
  valid = h.valid;
  borrows = λ j. ap (λ n. n + assignments j p.completed) (b j) ∙ h.borrows j;
  reserves = λ j. r j ∙ h.reserves j;
}

occurrences-append :
    (j : ℕ) (xs ys : List ℕ) → occurrences j (xs ++ ys) ≡ occurrences j xs + occurrences j ys
occurrences-append j [] ys = omega arith
occurrences-append j (x ∷ xs) ys = omega (arith, occurrences-append j xs ys)

-- A thread that goes to the back takes its tokens along.
tokens-turns :
    (token : Thread → List ℕ) (t : Thread) (ts : List Thread) (j : ℕ)
    → occurrences j (tokens token (ts ++ t ∷ []))
      ≡ occurrences j (token t) + occurrences j (tokens token ts)
tokens-turns token t [] j = omega (arith, occurrences-append j (token t) [])
tokens-turns token t (u ∷ ts) j = omega (
  arith,
  occurrences-append j (token u) (tokens token (ts ++ t ∷ [])),
  occurrences-append j (token u) (tokens token ts),
  tokens-turns token t ts j,
)

pub turned-AllHeld :
    (p : Pool) (t : Thread) (ts : List Thread) → AllHeld p (t ∷ ts) → AllHeld p (ts ++ t ∷ [])
turned-AllHeld p t ts h =
    Held-same
      (λ j. omega (
        arith,
        tokens-turns borrowed_token t ts j,
        occurrences-append j (borrowed_token t) (borrowed_by ts),
      ))
      (λ j. omega (
        arith,
        tokens-turns reserved_token t ts j,
        occurrences-append j (reserved_token t) (reserved_by ts),
      ))
      h

-- The inventory is valid whoever waits, as long as the gate counts them.
gate-IsValid :
    (p : Pool) (gate : ℕ) (ws : List Waiter) (ended : List (ℕ × WaiterState))
    → gate ≡ length ws
    → IsValid p
    → IsValid (record p { waiter_gate = gate; waiters = ws; completed = ended })
gate-IsValid p gate ws ended e v = record {
  bits = v.bits;
  in_vacant = v.in_vacant;
  in_quarantined = v.in_quarantined;
  published = v.published;
  vacants = v.vacants;
  quarantineds = v.quarantineds;
  idles = v.idles;
  reserveds = v.reserveds;
  usables = v.usables;
  gate = e;
}

-- An outcome with the pool it leaves, seen with the other threads.
abbrev pub Outcome : List Thread → Acquired × Pool → Type 0
Outcome ts r = AllHeld r.1 (taken r.0 ts)

pub keep_claimed-Outcome :
    (p : Pool) (i : ℕ) (ts : List Thread)
    → AllHeld p (claims i ∷ ts)
    → Outcome ts (keep_claimed i p)
unfolding keep_claimed
keep_claimed-Outcome p i ts h =
    if-elim (Outcome ts) p.closed (λ y. quarantine_borrowed-Held i p h) (λ n. h)

pub waiting-Held :
    {bs rs : List ℕ} (w : Waiter) (p : Pool)
    → Held bs rs p
    → Held bs rs (record p { waiter_gate = p.waiter_gate + 1; waiters = p.waiters ++ w ∷ [] })
waiting-Held w p h = record {
  valid =
      gate-IsValid p (p.waiter_gate + 1) (p.waiters ++ w ∷ []) p.completed
        (omega (arith, h.valid.gate, length-append p.waiters (w ∷ []))) h.valid;
  borrows = h.borrows;
  reserves = h.reserves;
}

pub length-without :
    (id : ℕ) (ws : List Waiter) → is_waiting id ws ≡ true → length ws ≡ suc (length (without id ws))
length-without id [] e = absurd cc
length-without id (w ∷ ws) e = elim (Bool-cases (w.id == id)) [
  | inl y ↦ rw y refl
  | inr n ↦
      let rest : is_waiting id ws ≡ true = ground (arith, e, n) in
      rw n (ap suc (length-without id ws rest))
]

pub unlink_waiter-Held :
    {bs rs : List ℕ} (id : ℕ) (p : Pool) → Held bs rs p → Held bs rs (unlink_waiter id p)
unfolding unlink_waiter
unlink_waiter-Held {bs} {rs} id p h =
    if-elim (Held bs rs) (is_waiting id p.waiters)
      (λ y. record {
        valid =
            gate-IsValid p (p.waiter_gate - 1) (without id p.waiters)
              (p.completed ++ (id, timeout) ∷ [])
              (omega (arith, h.valid.gate, length-without id p.waiters y)) h.valid;
        borrows =
            λ j. omega (arith, h.borrows j, assignments-append j p.completed ((id, timeout) ∷ []));
        reserves = h.reserves;
      })
      (λ n. h)
