-- ===== src/Starling/Pool/Moves.antt =====
-- The operations keep the invariant of the inventory.
use menagerie.Prelude.{
  ℕ, zero, suc, ◌+◌, ◌-◌, ◌≤◌, ◌<◌, ◌≡◌, refl, sym, ap, subst, ◌∙◌, inl, inr, Bool, true, false,
  Option, none, some, List, [], ◌∷◌, arith, ◌==◌, if◌then◌else◌, ==_iff, Bool-cases, length,
  get_elem?, some-injective,
}
use menagerie.Starling.Pool.{
  SlotState, vacant, reserved, idle, borrowed, quarantined, Waiter, WaiterState, set_elem, bit_at,
  first_set, Pool, claimed, claim_idle, take_bit, complete_front,
}
use menagerie.Starling.Pool.Operations.{count_bits, reserve_slot}
use menagerie.Starling.Pool.Slots.{one_if, count, has, occurrences, number}
use menagerie.Starling.Pool.Bookkeeping.{state_at, IsValid, changes, take_bit-IsValid}

state_of : ℕ → SlotState
state_of n =
    if n == 0
    then vacant
    else if n == 1
    then reserved
    else if n == 2
    then idle
    else if n == 3
    then borrowed
    else quarantined

number-state_of : (s : SlotState) → state_of (number s) ≡ s
unfolding state_of
number-state_of vacant = refl
number-state_of reserved = refl
number-state_of idle = refl
number-state_of borrowed = refl
number-state_of quarantined = refl

-- A slot that is tallied under a state has that state.
pub has-pos : (s : SlotState) (o : Option SlotState) → 0 < has s o → o ≡ some s
has-pos s none h = absurd (omega (arith, h))
has-pos s (some x) h = elim (Bool-cases (number s == number x)) [
  | inl y ↦ ap some (
      sym (number-state_of x)
      ∙ (ap state_of (sym ((==_iff (number s) (number x)).0 y)) ∙ number-state_of s))
  | inr n ↦ let none_here : has s (some x) ≡ 0 = rw n refl in absurd (omega (arith, h, none_here))
]

occurrences-head : (i : ℕ) (is : List ℕ) → 0 < occurrences i (i ∷ is)
occurrences-head i is = ground arith

pub reserve_from-IsValid :
    (i : ℕ) (rest : List ℕ) (p : Pool)
    → IsValid p
    → p.vacant_slots ≡ i ∷ rest
    → IsValid (record (reserve_slot i p) { vacant_slots = rest })
reserve_from-IsValid i rest p v top =
    let head : (j : ℕ) → one_if (i == j) + occurrences j rest ≡ has vacant (state_at p j) =
      λ j. ap (occurrences j) (sym top) ∙ v.in_vacant j in
    let long : suc (length rest) ≡ count vacant p.states = ap length (sym top) ∙ v.vacants in
    let mine = occurrences-head i rest in
    let c =
      changes p i vacant reserved v (has-pos vacant (state_at p i) (omega (arith, head i, mine))) in
    record {
      bits = omega (arith, v.bits, c.same_length);
      in_vacant = λ j. ground (arith, head j, c.at vacant j, c.was vacant j);
      in_quarantined =
          λ j. ground (arith, v.in_quarantined j, c.at quarantined j, c.was quarantined j);
      published = λ j. ground (arith, v.published j, c.at idle j, c.was idle j);
      vacants = omega (arith, long, c.tally vacant);
      quarantineds = omega (arith, v.quarantineds, c.tally quarantined);
      idles = omega (arith, v.idles, c.tally idle);
      reserveds = omega (arith, v.reserveds, c.tally reserved);
      usables = omega (arith, v.usables, c.tally idle, c.tally borrowed);
      gate = v.gate;
    }

pub take_from-IsValid :
    (i : ℕ) (rest : List ℕ) (p : Pool)
    → IsValid p
    → p.quarantined_slots ≡ i ∷ rest
    → IsValid (record (reserve_slot i p) { quarantined_slots = rest })
take_from-IsValid i rest p v top =
    let head : (j : ℕ) → one_if (i == j) + occurrences j rest ≡ has quarantined (state_at p j) =
      λ j. ap (occurrences j) (sym top) ∙ v.in_quarantined j in
    let long : suc (length rest) ≡ count quarantined p.states =
      ap length (sym top) ∙ v.quarantineds in
    let mine = occurrences-head i rest in
    let c =
      changes p i quarantined reserved v
        (has-pos quarantined (state_at p i) (omega (arith, head i, mine))) in
    record {
      bits = omega (arith, v.bits, c.same_length);
      in_vacant = λ j. ground (arith, v.in_vacant j, c.at vacant j, c.was vacant j);
      in_quarantined = λ j. ground (arith, head j, c.at quarantined j, c.was quarantined j);
      published = λ j. ground (arith, v.published j, c.at idle j, c.was idle j);
      vacants = omega (arith, v.vacants, c.tally vacant);
      quarantineds = omega (arith, long, c.tally quarantined);
      idles = omega (arith, v.idles, c.tally idle);
      reserveds = omega (arith, v.reserveds, c.tally reserved);
      usables = omega (arith, v.usables, c.tally idle, c.tally borrowed);
      gate = v.gate;
    }

first_set-bit_at :
    (k i : ℕ) (bits : List Bool)
    → first_set k bits ≡ some i
    → (k ≤ i) × (bit_at bits (i - k) ≡ true)
first_set-bit_at k i [] e = absurd cc
first_set-bit_at k i (true ∷ bits) e =
    let same = some-injective e in
    let here : i - k ≡ 0 = omega (arith, same) in (omega (arith, same), rw here refl)
first_set-bit_at k i (false ∷ bits) e =
    let (le, bit) = first_set-bit_at (suc k) i bits e in
    let next : i - k ≡ suc (i - suc k) = omega (arith, le) in (omega (arith, le), rw next bit)

pub first_set-none : (k : ℕ) (bits : List Bool) → first_set k bits ≡ none → count_bits bits ≡ 0
first_set-none k [] e = refl
first_set-none k (true ∷ bits) e = absurd cc
first_set-none k (false ∷ bits) e = first_set-none (suc k) bits e

claimed-some :
    (p q : Pool) (i : ℕ) (o : Option ℕ)
    → claimed p o ≡ some (i, q)
    → (o ≡ some i) × (q ≡ take_bit i p)
claimed-some p q i none e = absurd cc
claimed-some p q i (some x) e =
    let both = some-injective e in
    let same : x ≡ i = ap (λ c. c.0) both in
    (ap some same, sym (ap (λ c. c.1) both) ∙ ap (λ k. take_bit k p) same)

pub get_elem?-set_elem :
    (i : ℕ) (old new : SlotState) (xs : List SlotState)
    → get_elem? xs i ≡ some old
    → get_elem? (set_elem i new xs) i ≡ some new
get_elem?-set_elem i old new [] e = absurd cc
get_elem?-set_elem zero old new (x ∷ xs) e = refl
get_elem?-set_elem (suc i) old new (x ∷ xs) e = get_elem?-set_elem i old new xs e

-- A slot is the caller's, in a valid pool.
pub record Owns (p : Pool) (i : ℕ) (s : SlotState) : Type 0 where
  pub valid : IsValid p
  pub state : state_at p i ≡ some s

-- A set bit is an idle slot's, which the claim makes the caller's.
pub take_bit-Owns :
    (p : Pool) (i : ℕ) → IsValid p → bit_at p.idle_bits i ≡ true → Owns (take_bit i p) i borrowed
take_bit-Owns p i v bit =
    let one : one_if (bit_at p.idle_bits i) ≡ 1 = ap one_if bit in
    let known = has-pos idle (state_at p i) (omega (arith, v.published i, one)) in
    record {
      valid = take_bit-IsValid i p v known;
      state = get_elem?-set_elem i idle borrowed p.states known;
    }

pub claim_idle-some :
    (p q : Pool) (i : ℕ)
    → IsValid p
    → claim_idle p ≡ some (i, q)
    → (q ≡ take_bit i p) × Owns q i borrowed
unfolding claim_idle
claim_idle-some p q i v e =
    let (found, same) = claimed-some p q i (first_set 0 p.idle_bits) e in
    let (low, bit) = first_set-bit_at 0 i p.idle_bits found in
    let at_i : i - 0 ≡ i = omega arith in
    let bit_i = subst (λ k. bit_at p.idle_bits k ≡ true) at_i bit in
    (same, subst (λ r. Owns r i borrowed) (sym same) (take_bit-Owns p i v bit_i))

pub claim_idle-take : (p q : Pool) (i : ℕ) → claim_idle p ≡ some (i, q) → q ≡ take_bit i p
unfolding claim_idle
claim_idle-take p q i e = (claimed-some p q i (first_set 0 p.idle_bits) e).1

claimed-none : (p : Pool) (o : Option ℕ) → claimed p o ≡ none → o ≡ none
claimed-none p none e = refl
claimed-none p (some x) e = absurd cc

pub claim_idle-none : (p : Pool) → claim_idle p ≡ none → count_bits p.idle_bits ≡ 0
unfolding claim_idle
claim_idle-none p e = first_set-none 0 p.idle_bits (claimed-none p (first_set 0 p.idle_bits) e)

pub claim_idle-bit : (p q : Pool) (i : ℕ) → claim_idle p ≡ some (i, q) → bit_at p.idle_bits i ≡ true
unfolding claim_idle
claim_idle-bit p q i e =
    let found = claimed-some p q i (first_set 0 p.idle_bits) e in
    let low = first_set-bit_at 0 i p.idle_bits found.0 in
    let at_i : i - 0 ≡ i = omega arith in subst (λ k. bit_at p.idle_bits k ≡ true) at_i low.1

pub complete_front-IsValid :
    (p : Pool) (w : Waiter) (ws : List Waiter) (state : WaiterState)
    → IsValid p
    → p.waiters ≡ w ∷ ws
    → IsValid (complete_front w ws state p)
complete_front-IsValid p w ws state v front = record {
  bits = v.bits;
  in_vacant = v.in_vacant;
  in_quarantined = v.in_quarantined;
  published = v.published;
  vacants = v.vacants;
  quarantineds = v.quarantineds;
  idles = v.idles;
  reserveds = v.reserveds;
  usables = v.usables;
  gate = let long = v.gate ∙ ap length front in omega (arith, long);
}
