-- ===== src/Starling/Pool/Slots.antt =====
-- Tallies of the slots' states and of the registries, and how one change of state moves them.
use menagerie.Prelude.{
  ℕ, zero, suc, ◌+◌, ◌<◌, ◌≡◌, refl, sym, ap, inl, inr, Bool, true, false, Option, none, some, List,
  [], ◌∷◌, arith, ◌==◌, if◌then◌else◌, ==_iff, Bool-cases, length, get_elem?, some-injective,
}
use menagerie.Starling.Pool.{
  SlotState, vacant, reserved, idle, borrowed, quarantined, set_elem, bit_at,
}
use menagerie.Starling.Pool.Operations.{count_bits}

abbrev pub number : SlotState → ℕ
number vacant = 0
number reserved = 1
number idle = 2
number borrowed = 3
number quarantined = 4

abbrev pub same_state : SlotState → SlotState → Bool
same_state a b = number a == number b

suc-== : (i j : ℕ) → (suc i == suc j) ≡ (i == j)
suc-== i j = ground arith

abbrev pub one_if : Bool → ℕ
one_if b = if b then 1 else 0

-- How many slots have this state.
abbrev pub count : SlotState → List SlotState → ℕ
count s [] = 0
count s (x ∷ xs) = one_if (same_state s x) + count s xs

-- Whether the slot has this state, as a number.
abbrev pub has : SlotState → Option SlotState → ℕ
has s none = 0
has s (some x) = one_if (same_state s x)

-- How often an index stands in a registry.
abbrev pub occurrences : ℕ → List ℕ → ℕ
occurrences j [] = 0
occurrences j (i ∷ is) = one_if (i == j) + occurrences j is

pub count-set_elem :
    (s old new : SlotState) (i : ℕ) (xs : List SlotState)
    → get_elem? xs i ≡ some old
    → count s (set_elem i new xs) + one_if (same_state s old)
      ≡ count s xs + one_if (same_state s new)
count-set_elem s old new i [] e = absurd cc
count-set_elem s old new zero (x ∷ xs) e = let same = some-injective e in rw same (omega arith)
count-set_elem s old new (suc i) (x ∷ xs) e = omega (arith, count-set_elem s old new i xs e)

module _ {ℓ} {A : Type ℓ} where
  pub length-set_elem : (i : ℕ) (x : A) (xs : List A) → length (set_elem i x xs) ≡ length xs
  length-set_elem i x [] = refl
  length-set_elem zero x (y ∷ ys) = refl
  length-set_elem (suc i) x (y ∷ ys) = ap suc (length-set_elem i x ys)

pub has-set_elem :
    (s old new : SlotState) (i j : ℕ) (xs : List SlotState)
    → get_elem? xs i ≡ some old
    → has s (get_elem? (set_elem i new xs) j)
      ≡ (if i == j then one_if (same_state s new) else has s (get_elem? xs j))
has-set_elem s old new i j [] e = absurd cc
has-set_elem s old new zero zero (x ∷ xs) e = refl
has-set_elem s old new zero (suc j) (x ∷ xs) e = ground arith
has-set_elem s old new (suc i) zero (x ∷ xs) e = ground arith
has-set_elem s old new (suc i) (suc j) (x ∷ xs) e =
    rw (suc-== i j) (has-set_elem s old new i j xs e)

pub had :
    (s old : SlotState) (i j : ℕ) (xs : List SlotState)
    → get_elem? xs i ≡ some old
    → (if i == j then has s (get_elem? xs j) else one_if (same_state s old))
      ≡ one_if (same_state s old)
had s old i j xs e = elim (Bool-cases (i == j)) [
  | inl y ↦ let same = (==_iff i j).0 y in rw (y, sym same, e) refl
  | inr n ↦ rw n refl
]

pub bit_at-set_elem :
    (b : Bool) (i j : ℕ) (bits : List Bool)
    → i < length bits
    → bit_at (set_elem i b bits) j ≡ (if i == j then b else bit_at bits j)
bit_at-set_elem b i j [] h = absurd (omega (arith, h))
bit_at-set_elem b zero zero (x ∷ bits) h = refl
bit_at-set_elem b zero (suc j) (x ∷ bits) h = ground arith
bit_at-set_elem b (suc i) zero (x ∷ bits) h = ground arith
bit_at-set_elem b (suc i) (suc j) (x ∷ bits) h =
    rw (suc-== i j) (bit_at-set_elem b i j bits (omega (arith, h)))

pub count_bits-set_elem :
    (b : Bool) (i : ℕ) (bits : List Bool)
    → i < length bits
    → count_bits (set_elem i b bits) + one_if (bit_at bits i) ≡ count_bits bits + one_if b
count_bits-set_elem b i [] h = absurd (omega (arith, h))
count_bits-set_elem true zero (true ∷ bits) h = omega arith
count_bits-set_elem true zero (false ∷ bits) h = omega arith
count_bits-set_elem false zero (true ∷ bits) h = omega arith
count_bits-set_elem false zero (false ∷ bits) h = omega arith
count_bits-set_elem b (suc i) (true ∷ bits) h =
    omega (arith, count_bits-set_elem b i bits (omega (arith, h)))
count_bits-set_elem b (suc i) (false ∷ bits) h =
    omega (arith, count_bits-set_elem b i bits (omega (arith, h)))
