-- ===== src/Starling/Pool/Threads/Beginning.antt =====
-- A new pool.
use menagerie.Prelude.{
  ℕ, zero, suc, ◌+◌, ◌<◌, ◌≡◌, refl, sym, ap, subst, ◌∙◌, inl, false, some, List, [], ◌∷◌, arith,
  ◌==◌, length, get_elem?, some-injective,
}
use menagerie.Starling.Pool.{
  Pool, new, bit_at, replicate, indices, SlotState, vacant, reserved, idle, borrowed, quarantined,
}
use menagerie.Starling.Pool.Operations.{count_bits}
use menagerie.Starling.Pool.Slots.{one_if, count, has, occurrences}
use menagerie.Starling.Pool.Slots.{same_state}
use menagerie.Starling.Pool.Handoff.{Quiet-alone}
use menagerie.Starling.Pool.Threads.Sections.{AllHeld}
use menagerie.Starling.Pool.Threads.Waking.{Watched}

module _ {A : Type 0} where
  length-replicate : (n : ℕ) (x : A) → length (replicate n x) ≡ n
  length-replicate zero x = refl
  length-replicate (suc n) x = ap suc (length-replicate n x)

length-indices : (i n : ℕ) → length (indices i n) ≡ n
length-indices i zero = refl
length-indices i (suc n) = ap suc (length-indices (suc i) n)

count-vacant : (n : ℕ) → count vacant (replicate n vacant) ≡ n
count-vacant zero = refl
count-vacant (suc n) = omega (arith, count-vacant n)

-- No slot of a new pool has this state.
abbrev Absent : SlotState → Type 0
Absent s =
    (n : ℕ)
    → (count s (replicate n vacant) ≡ 0) × ((j : ℕ) → has s (get_elem? (replicate n vacant) j) ≡ 0)

has-cons :
    (s : SlotState) (xs : List SlotState)
    → one_if (same_state s vacant) ≡ 0
    → ((j : ℕ) → has s (get_elem? xs j) ≡ 0)
    → (j : ℕ) → has s (get_elem? (vacant ∷ xs) j) ≡ 0
has-cons s xs e h zero = e
has-cons s xs e h (suc j) = h j

absent : (s : SlotState) → one_if (same_state s vacant) ≡ 0 → Absent s
absent s e zero = (refl, λ j. refl)
absent s e (suc n) =
    let rest = absent s e n in (omega (arith, rest.0, e), has-cons s (replicate n vacant) e rest.1)

occurrences-below : (j i n : ℕ) → j < i → occurrences j (indices i n) ≡ 0
occurrences-below j i zero h = refl
occurrences-below j i (suc n) h =
    let other : one_if (i == j) ≡ 0 = ground (arith, h) in
    omega (arith, other, occurrences-below j (suc i) n (omega (arith, h)))

occurrences-indices :
    (i n k : ℕ) → occurrences (i + k) (indices i n) ≡ has vacant (get_elem? (replicate n vacant) k)
occurrences-indices i zero k = refl
occurrences-indices i (suc n) zero =
    let mine : one_if (i == i + 0) ≡ 1 = ground arith in
    omega (arith, mine, occurrences-below (i + 0) (suc i) n (omega arith))
occurrences-indices i (suc n) (suc k) =
    let other : one_if (i == i + suc k) ≡ 0 = ground arith in
    let at : i + suc k ≡ suc i + k = omega arith in
    let rest = ap (λ j. occurrences j (indices (suc i) n)) at ∙ occurrences-indices (suc i) n k in
    omega (arith, other, rest)

no_bit : (n j : ℕ) → one_if (bit_at (replicate n false) j) ≡ 0
no_bit zero j = refl
no_bit (suc n) zero = refl
no_bit (suc n) (suc j) = no_bit n j

no_bits : (n : ℕ) → count_bits (replicate n false) ≡ 0
no_bits zero = refl
no_bits (suc n) = no_bits n

pub new-AllHeld : (n : ℕ) (p : Pool) → new n ≡ some p → AllHeld p []
unfolding new
new-AllHeld zero p e = absurd cc
new-AllHeld (suc n) p e =
    subst (λ q. AllHeld q []) (some-injective e)
      record {
        valid = record {
          bits = ap suc (length-replicate n false ∙ sym (length-replicate n vacant));
          in_vacant = λ j.
              ap (λ k. occurrences k (indices 0 (suc n))) (omega arith)
              ∙ occurrences-indices 0 (suc n) j;
          in_quarantined = λ j. sym ((absent quarantined refl (suc n)).1 j);
          published = λ j. no_bit (suc n) j ∙ sym ((absent idle refl (suc n)).1 j);
          vacants = length-indices 0 (suc n) ∙ sym (count-vacant (suc n));
          quarantineds = sym (absent quarantined refl (suc n)).0;
          idles = no_bits (suc n) ∙ sym (absent idle refl (suc n)).0;
          reserveds = sym (absent reserved refl (suc n)).0;
          usables = omega (arith, (absent idle refl (suc n)).0, (absent borrowed refl (suc n)).0);
          gate = refl;
        };
        borrows = λ j. sym ((absent borrowed refl (suc n)).1 j);
        reserves = λ j. sym ((absent reserved refl (suc n)).1 j);
      }

new-alone : (n : ℕ) (p : Pool) → new n ≡ some p → p.waiters ≡ []
unfolding new
new-alone zero p e = absurd cc
new-alone (suc n) p e = sym (ap (λ q. q.waiters) (some-injective e))

pub new-Watched : (n : ℕ) (p : Pool) → new n ≡ some p → Watched p []
new-Watched n p e = inl (Quiet-alone p (ap length (new-alone n p e)))
