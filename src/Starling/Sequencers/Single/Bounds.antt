-- ===== src/Starling/Sequencers/Single/Bounds.antt =====
-- The capacity limit and the wait for capacity.
use menagerie.Prelude.{
  ℕ, ◌≤◌, ◌≡◌, refl, sym, ap, subst, ◌∙◌, inl, inr, some, List, [], ◌∷◌, ◌++◌, arith, if◌then◌else◌,
  Bool-cases, All, some-injective,
}
use menagerie.Prelude.Int.{ℤ, pos, negsuc, ◌+ℤ◌, ◌≤ℤ◌, ltb_ℤ, ltb_ℤ-eq-false, int_laws}
use menagerie.Starling.Sequencers.{int64_max, to_uint64, spin}
use menagerie.Starling.Sequencers.Single.{capacity_limit}

-- The positions that the counters can hold, from the initial -1 on.
abbrev pub IsPosition : ℤ → Type 0
IsPosition p = (negsuc 0 ≤ℤ p) × (p ≤ℤ pos int64_max)

-- The saturated limit never admits a claim beyond the capacity.
pub capacity_limit-le :
    (consumed : ℤ) (capacity : ℕ)
    → IsPosition consumed
    → 1 ≤ capacity
    → capacity ≤ int64_max
    → capacity_limit consumed capacity ≤ℤ consumed +ℤ pos capacity
unfolding capacity_limit to_uint64
capacity_limit-le (pos n) capacity (lo, hi) h k = omega int_laws
capacity_limit-le (negsuc n) capacity (lo, hi) h k = omega int_laws

-- Saturation costs nothing: a claim within int64 and within the capacity is admitted.
pub le-capacity_limit :
    (sequence consumed : ℤ) (capacity : ℕ)
    → IsPosition consumed
    → 1 ≤ capacity
    → capacity ≤ int64_max
    → sequence ≤ℤ pos int64_max
    → sequence ≤ℤ consumed +ℤ pos capacity
    → sequence ≤ℤ capacity_limit consumed capacity
unfolding capacity_limit to_uint64
le-capacity_limit sequence (pos n) capacity (lo, hi) h k m e = omega int_laws
le-capacity_limit sequence (negsuc n) capacity (lo, hi) h k m e = omega int_laws

spin-cons :
    (wrap_point consumed : ℤ) (reads : List ℤ)
    → spin wrap_point (consumed ∷ reads)
      ≡ (if ltb_ℤ consumed wrap_point then spin wrap_point reads else some consumed)
unfolding spin
spin-cons wrap_point consumed reads = refl

-- A loop that ends has read a position that leaves room.
pub spin-some :
    (P : ℤ → Type 0) (wrap_point : ℤ) (reads : List ℤ) (consumed : ℤ)
    → All P reads
    → spin wrap_point reads ≡ some consumed
    → P consumed × (wrap_point ≤ℤ consumed)
spin-some P wrap_point [] consumed h e = unfold spin in cc
spin-some P wrap_point (read ∷ reads) consumed (p, h) e =
    elim (Bool-cases (ltb_ℤ read wrap_point)) [
      | inl y ↦
          spin-some P wrap_point reads consumed h (sym (spin-cons wrap_point read reads ∙ rw y) ∙ e)
      | inr n ↦
          let same = some-injective (sym (spin-cons wrap_point read reads ∙ rw n) ∙ e) in
          (subst P same p, subst (λ c. wrap_point ≤ℤ c) same (ltb_ℤ-eq-false read wrap_point n))
    ]

-- A loop that reads a position that leaves room ends.
pub spin-finds :
    (wrap_point : ℤ) (reads : List ℤ) (consumed : ℤ) (later : List ℤ)
    → wrap_point ≤ℤ consumed
    → (got : ℤ) × (spin wrap_point (reads ++ consumed ∷ later) ≡ some got)
spin-finds wrap_point [] consumed later h =
    (consumed, spin-cons wrap_point consumed later ∙ ground arith)
spin-finds wrap_point (read ∷ reads) consumed later h =
    let all = reads ++ consumed ∷ later in
    elim (Bool-cases (ltb_ℤ read wrap_point)) [
      | inl y ↦
          let (got, found) = spin-finds wrap_point reads consumed later h in
          (
            got,
            spin-cons wrap_point read all
                ∙ (ap (λ b. if b then spin wrap_point all else some read) y ∙ found),
          )
      | inr n ↦ (read, spin-cons wrap_point read all ∙ rw n)
    ]
