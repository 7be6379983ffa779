-- ===== src/Starling/Pool/Ownership.antt =====
-- Who holds which slot: the tokens outside the pool, and the slots assigned to waiters that have not
-- yet taken them.
use menagerie.Prelude.{
  ℕ, ◌+◌, ◌≡◌, sym, ap, ◌∙◌, true, some, List, [], ◌∷◌, ◌++◌, arith, ◌==◌, if◌then◌else◌, get_elem?,
}
use menagerie.Starling.Pool.{
  SlotState, vacant, reserved, idle, borrowed, quarantined, WaiterState, assigned, timeout,
  shutdown, set_elem, bit_at, Pool, publish_idle, take_bit, quarantine_borrowed,
}
use menagerie.Starling.Pool.Operations.{reserve_slot, make_usable, rollback, take_back}
use menagerie.Starling.Pool.Slots.{same_state, one_if, has, occurrences, has-set_elem, had}
use menagerie.Starling.Pool.Bookkeeping.{
  state_at, IsValid, publish_idle-IsValid, take_bit-IsValid, quarantine_borrowed-IsValid,
  make_usable-IsValid, rollback-IsValid, take_back-IsValid,
}
use menagerie.Starling.Pool.Moves.{has-pos, reserve_from-IsValid, take_from-IsValid}

-- How often a slot is assigned among the waits that have ended.
abbrev pub assigned_to : ℕ → WaiterState → ℕ
assigned_to j (assigned i) = one_if (i == j)
assigned_to j timeout = 0
assigned_to j shutdown = 0

abbrev pub assignments : ℕ → List (ℕ × WaiterState) → ℕ
assignments j [] = 0
assignments j ((id, state) ∷ ended) = assigned_to j state + assignments j ended

pub assignments-append :
    (j : ℕ) (xs ys : List (ℕ × WaiterState))
    → assignments j (xs ++ ys) ≡ assignments j xs + assignments j ys
assignments-append j [] ys = omega arith
assignments-append j ((id, state) ∷ xs) ys = omega (arith, assignments-append j xs ys)

-- A slot is borrowed just if it is in one hand, a borrower's of `bs` or an assigned waiter's, and
-- reserved just if it is in one hand of `rs`.
pub record Held (bs rs : List ℕ) (p : Pool) : Type 0 where
  pub valid : IsValid p
  pub borrows : (j : ℕ) → occurrences j bs + assignments j p.completed ≡ has borrowed (state_at p j)
  pub reserves : (j : ℕ) → occurrences j rs ≡ has reserved (state_at p j)

pub Held-borrowed :
    {bs rs : List ℕ} {p : Pool} (i : ℕ) → Held (i ∷ bs) rs p → state_at p i ≡ some borrowed
Held-borrowed {bs} {rs} {p} i h =
    let mine : one_if (i == i) ≡ 1 = ground arith in
    has-pos borrowed (state_at p i) (omega (arith, h.borrows i, mine))

pub Held-reserved :
    {bs rs : List ℕ} {p : Pool} (i : ℕ) → Held bs (i ∷ rs) p → state_at p i ≡ some reserved
Held-reserved {bs} {rs} {p} i h =
    let mine : one_if (i == i) ≡ 1 = ground arith in
    has-pos reserved (state_at p i) (omega (arith, h.reserves i, mine))

-- What a change of one slot does to the two tallies.
record Shift (p : Pool) (i : ℕ) (old new : SlotState) : Type 0 where
  at :
      (s : SlotState) (j : ℕ)
      → has s (get_elem? (set_elem i new p.states) j)
        ≡ (if i == j then one_if (same_state s new) else has s (get_elem? p.states j))
  was :
      (s : SlotState) (j : ℕ)
      → (if i == j then has s (state_at p j) else one_if (same_state s old))
        ≡ one_if (same_state s old)

shifts : (p : Pool) (i : ℕ) (old new : SlotState) → state_at p i ≡ some old → Shift p i old new
shifts p i old new e = record {
  at = λ s j. has-set_elem s old new i j p.states e;
  was = λ s j. had s old i j p.states e;
}

pub bit_at-idle :
    (i : ℕ) (p : Pool) → IsValid p → bit_at p.idle_bits i ≡ true → state_at p i ≡ some idle
bit_at-idle i p v bit =
    let one : one_if (bit_at p.idle_bits i) ≡ 1 = ap one_if bit in
    has-pos idle (state_at p i) (omega (arith, v.published i, one))

top-state :
    (s : SlotState) (i : ℕ) (rest slots : List ℕ) (p : Pool)
    → ((j : ℕ) → occurrences j slots ≡ has s (state_at p j))
    → slots ≡ i ∷ rest
    → state_at p i ≡ some s
top-state s i rest slots p listed top =
    let mine : one_if (i == i) ≡ 1 = ground arith in
    let head : one_if (i == i) + occurrences i rest ≡ has s (state_at p i) =
      ap (occurrences i) (sym top) ∙ listed i in
    has-pos s (state_at p i) (omega (arith, head, mine))

pub publish_idle-Held :
    {bs rs : List ℕ} (i : ℕ) (p : Pool) → Held (i ∷ bs) rs p → Held bs rs (publish_idle i p)
unfolding publish_idle
publish_idle-Held i p h =
    let e = Held-borrowed i h in
    let c = shifts p i borrowed idle e in
    record {
      valid = publish_idle-IsValid i p h.valid e;
      borrows = λ j. ground (arith, h.borrows j, c.at borrowed j, c.was borrowed j);
      reserves = λ j. ground (arith, h.reserves j, c.at reserved j, c.was reserved j);
    }

pub quarantine_borrowed-Held :
    {bs rs : List ℕ} (i : ℕ) (p : Pool) → Held (i ∷ bs) rs p → Held bs rs (quarantine_borrowed i p)
unfolding quarantine_borrowed
quarantine_borrowed-Held i p h =
    let e = Held-borrowed i h in
    let c = shifts p i borrowed quarantined e in
    record {
      valid = quarantine_borrowed-IsValid i p h.valid e;
      borrows = λ j. ground (arith, h.borrows j, c.at borrowed j, c.was borrowed j);
      reserves = λ j. ground (arith, h.reserves j, c.at reserved j, c.was reserved j);
    }

pub make_usable-Held :
    {bs rs : List ℕ} (i : ℕ) (p : Pool) → Held bs (i ∷ rs) p → Held (i ∷ bs) rs (make_usable i p)
make_usable-Held i p h =
    let e = Held-reserved i h in
    let c = shifts p i reserved borrowed e in
    record {
      valid = make_usable-IsValid i p h.valid e;
      borrows = λ j. ground (arith, h.borrows j, c.at borrowed j, c.was borrowed j);
      reserves = λ j. ground (arith, h.reserves j, c.at reserved j, c.was reserved j);
    }

pub rollback-Held :
    {bs rs : List ℕ} (i : ℕ) (p : Pool) → Held bs (i ∷ rs) p → Held bs rs (rollback i p)
unfolding rollback
rollback-Held i p h =
    let e = Held-reserved i h in
    let c = shifts p i reserved vacant e in
    record {
      valid = rollback-IsValid i p h.valid e;
      borrows = λ j. ground (arith, h.borrows j, c.at borrowed j, c.was borrowed j);
      reserves = λ j. ground (arith, h.reserves j, c.at reserved j, c.was reserved j);
    }

pub take_back-Held :
    {bs rs : List ℕ} (i : ℕ) (p : Pool) → Held (i ∷ bs) rs p → Held bs (i ∷ rs) (take_back i p)
take_back-Held i p h =
    let e = Held-borrowed i h in
    let c = shifts p i borrowed reserved e in
    record {
      valid = take_back-IsValid i p h.valid e;
      borrows = λ j. ground (arith, h.borrows j, c.at borrowed j, c.was borrowed j);
      reserves = λ j. ground (arith, h.reserves j, c.at reserved j, c.was reserved j);
    }

pub take_bit-Held :
    {bs rs : List ℕ} (i : ℕ) (p : Pool)
    → bit_at p.idle_bits i ≡ true
    → Held bs rs p
    → Held (i ∷ bs) rs (take_bit i p)
take_bit-Held i p bit h =
    let e = bit_at-idle i p h.valid bit in
    let c = shifts p i idle borrowed e in
    record {
      valid = take_bit-IsValid i p h.valid e;
      borrows = λ j. ground (arith, h.borrows j, c.at borrowed j, c.was borrowed j);
      reserves = λ j. ground (arith, h.reserves j, c.at reserved j, c.was reserved j);
    }

pub reserve_from-Held :
    {bs rs : List ℕ} (i : ℕ) (p : Pool) (rest : List ℕ)
    → p.vacant_slots ≡ i ∷ rest
    → Held bs rs p
    → Held bs (i ∷ rs) (record (reserve_slot i p) { vacant_slots = rest })
reserve_from-Held i p rest top h =
    let e = top-state vacant i rest p.vacant_slots p h.valid.in_vacant top in
    let c = shifts p i vacant reserved e in
    record {
      valid = reserve_from-IsValid i rest p h.valid top;
      borrows = λ j. ground (arith, h.borrows j, c.at borrowed j, c.was borrowed j);
      reserves = λ j. ground (arith, h.reserves j, c.at reserved j, c.was reserved j);
    }

pub take_from-Held :
    {bs rs : List ℕ} (i : ℕ) (p : Pool) (rest : List ℕ)
    → p.quarantined_slots ≡ i ∷ rest
    → Held bs rs p
    → Held bs (i ∷ rs) (record (reserve_slot i p) { quarantined_slots = rest })
take_from-Held i p rest top h =
    let e = top-state quarantined i rest p.quarantined_slots p h.valid.in_quarantined top in
    let c = shifts p i quarantined reserved e in
    record {
      valid = take_from-IsValid i rest p h.valid top;
      borrows = λ j. ground (arith, h.borrows j, c.at borrowed j, c.was borrowed j);
      reserves = λ j. ground (arith, h.reserves j, c.at reserved j, c.was reserved j);
    }
