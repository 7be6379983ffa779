-- ===== src/Bowerbird/Sorting.antt =====
-- Sorting a batch: the insertion sort of small batches, and what `std::sort` promises.
use menagerie.Prelude.{
  ◌≡◌, refl, ◌∙◌, inl, inr, Bool, false, List, [], ◌∷◌, ◌++◌, append-nil, arith, Bool-cases, length,
  All, All-map,
}
use mathlib.Core.List.{Perm, perm_middle}
use mathlib.Core.List.Perm
use mathlib.Core.List.{Permᴰ}
use mathlib.Core.Logic.{∥∥₁_elim}
use native.Mathlib.Nat.{ℕ_set}
use menagerie.Bowerbird.{insert_upper, insertion_sort}
use menagerie.Bowerbird.Merging.{IsStrictWeakOrder, IsSorted}

-- A rearrangement has the same number of entries.
Permᴰ-length : {T : Type 0} {xs ys : List T} → Permᴰ xs ys → length xs ≡ length ys
Permᴰ-length Permᴰ.nil = refl
Permᴰ-length (Permᴰ.cons e d) = omega (arith, Permᴰ-length d)
Permᴰ-length (Permᴰ.swap e f) = refl
Permᴰ-length (Permᴰ.trans d d') = Permᴰ-length d ∙ Permᴰ-length d'

pub Perm-length : {T : Type 0} {xs ys : List T} → Perm xs ys → length xs ≡ length ys
Perm-length p = ∥∥₁_elim p (ℕ_set _ _) Permᴰ-length

-- The documented behaviour of `std::sort`, which asks for a strict weak order.
pub record IsSort {T : Type 0} (std_sort : (T → T → Bool) → List T → List T) : Type 0 where
  pub permutes :
      (comp : T → T → Bool) (l : List T) → IsStrictWeakOrder comp → Perm (std_sort comp l) l
  pub sorts :
      (comp : T → T → Bool) (l : List T) → IsStrictWeakOrder comp → IsSorted comp (std_sort comp l)

module _ {T : Type 0} (comp : T → T → Bool) where
  insert_upper-perm : (key : T) (es : List T) → Perm (insert_upper comp key es) (key ∷ es)
  unfolding insert_upper
  insert_upper-perm key [] = Perm.refl (key ∷ [])
  insert_upper-perm key (e ∷ es) = elim (Bool-cases (comp key e)) [
    | inl y ↦ rw (y, insert_upper) (Perm.refl (key ∷ e ∷ es))
    | inr n ↦
        rw (n, insert_upper)
          (Perm.trans (Perm.cons e (insert_upper-perm key es)) (Perm.swap key e es))
  ]

  -- Insertion sort keeps every entry.
  pub insertion_sort-perm : (sorted l : List T) → Perm (insertion_sort comp sorted l) (sorted ++ l)
  unfolding insertion_sort
  insertion_sort-perm sorted [] = rw append-nil (Perm.refl sorted)
  insertion_sort-perm sorted (key ∷ rest) =
      Perm.trans (insertion_sort-perm (insert_upper comp key sorted) rest) (
        Perm.trans (Perm.append_right rest (insert_upper-perm key sorted))
          (Perm.symm (perm_middle sorted rest)))

  insert_upper-All :
      (P : T → Type 0) (key : T) (es : List T) → P key → All P es → All P (insert_upper comp key es)
  unfolding insert_upper
  insert_upper-All P key [] p h = (p, tt)
  insert_upper-All P key (e ∷ es) p (q, h) = elim (Bool-cases (comp key e)) [
    | inl y ↦ rw (y, insert_upper) (p, (q, h))
    | inr n ↦ rw (n, insert_upper) (q, insert_upper-All P key es p h)
  ]

  module _ (order : IsStrictWeakOrder comp) where
    insert_upper-IsSorted :
        (key : T) (es : List T) → IsSorted comp es → IsSorted comp (insert_upper comp key es)
    unfolding insert_upper
    insert_upper-IsSorted key [] h = (tt, tt)
    insert_upper-IsSorted key (e ∷ es) (p, h) = elim (Bool-cases (comp key e)) [
      | inl y ↦
          let le = order.asymmetric key e y in
          rw (y, insert_upper)
            ((le, All-map _ _ (λ z n. order.negatively_transitive key e z le n) es p), (p, h))
      | inr n ↦
          rw (n, insert_upper)
            (insert_upper-All (λ z. comp z e ≡ false) key es n p, insert_upper-IsSorted key es h)
    ]

    -- Insertion sort sorts.
    pub insertion_sort-IsSorted :
        (sorted l : List T) → IsSorted comp sorted → IsSorted comp (insertion_sort comp sorted l)
    unfolding insertion_sort
    insertion_sort-IsSorted sorted [] h = h
    insertion_sort-IsSorted sorted (key ∷ rest) h =
        insertion_sort-IsSorted (insert_upper comp key sorted) rest
          (insert_upper-IsSorted key sorted h)
