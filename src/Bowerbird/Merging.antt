-- ===== src/Bowerbird/Merging.antt =====
-- Sorted lists, and merging two of them.
use menagerie.Prelude.{
  ◌≡◌, refl, inl, inr, Bool, true, false, List, [], ◌∷◌, ◌++◌, append-nil, arith, if◌then◌else◌,
  Bool-cases, length, take, drop, All, All-map,
}
use mathlib.Core.List.{Perm, perm_middle}
use mathlib.Core.List.Perm
use menagerie.Bowerbird.{merge, inplace_merge}

-- What the standard library asks of a comparator: a strict weak order.
pub record IsStrictWeakOrder {T : Type 0} (comp : T → T → Bool) : Type 0 where
  pub asymmetric : (a b : T) → comp a b ≡ true → comp b a ≡ false
  pub negatively_transitive : (a b c : T) → comp b a ≡ false → comp c b ≡ false → comp c a ≡ false

module _ {T : Type 0} (comp : T → T → Bool) where
  -- No entry is less than one before it.
  abbrev pub IsSorted : List T → Type 0
  IsSorted [] = Unit
  IsSorted (x ∷ xs) = All (λ y. comp y x ≡ false) xs × IsSorted xs

  merge-nil : (xs : List T) → merge comp xs [] ≡ xs
  unfolding merge
  merge-nil [] = refl
  merge-nil (x ∷ xs) = refl

  merge-cons :
      (x y : T) (xs ys : List T)
      → merge comp (x ∷ xs) (y ∷ ys)
        ≡ (if comp y x then y ∷ merge comp (x ∷ xs) ys else x ∷ merge comp xs (y ∷ ys))
  unfolding merge
  merge-cons x y xs ys = ground arith

  -- Merging keeps every entry.
  pub merge-perm : (xs ys : List T) → Perm (merge comp xs ys) (xs ++ ys)
  merge-perm [] ys = unfold merge in Perm.refl ys
  merge-perm (x ∷ xs) [] = rw (merge-nil (x ∷ xs), append-nil xs) (Perm.refl (x ∷ xs))
  merge-perm (x ∷ xs) (y ∷ ys) = elim (Bool-cases (comp y x)) [
    | inl e ↦
        rw (merge-cons x y xs ys, e)
          (Perm.trans (Perm.cons y (merge-perm (x ∷ xs) ys)) (Perm.symm (perm_middle (x ∷ xs) ys)))
    | inr e ↦ rw (merge-cons x y xs ys, e) (Perm.cons x (merge-perm xs (y ∷ ys)))
  ]

  merge-All {κ} : (P : T → Type κ) (xs ys : List T) → All P xs → All P ys → All P (merge comp xs ys)
  merge-All P [] ys h k = unfold merge in k
  merge-All P (x ∷ xs) [] h k = unfold merge in h
  merge-All P (x ∷ xs) (y ∷ ys) (p, h) (q, k) = elim (Bool-cases (comp y x)) [
    | inl e ↦ rw (merge-cons x y xs ys, e) (q, merge-All P (x ∷ xs) ys (p, h) k)
    | inr e ↦ rw (merge-cons x y xs ys, e) (p, merge-All P xs (y ∷ ys) h (q, k))
  ]

  module _ (order : IsStrictWeakOrder comp) where
    -- Merging two sorted lists gives a sorted list.
    pub merge-IsSorted : (xs ys : List T) → IsSorted xs → IsSorted ys → IsSorted (merge comp xs ys)
    merge-IsSorted [] ys h k = unfold merge in k
    merge-IsSorted (x ∷ xs) [] h k = unfold merge in h
    merge-IsSorted (x ∷ xs) (y ∷ ys) (p, h) (q, k) = elim (Bool-cases (comp y x)) [
      | inl e ↦
          let le = order.asymmetric y x e in
          rw (merge-cons x y xs ys, e)
            (
              merge-All (λ z. comp z y ≡ false) (x ∷ xs) ys
                  (le, All-map _ _ (λ z n. order.negatively_transitive y x z le n) xs p) q,
              merge-IsSorted (x ∷ xs) ys (p, h) k,
            )
      | inr e ↦
          rw (merge-cons x y xs ys, e)
            (
              merge-All (λ z. comp z x ≡ false) xs (y ∷ ys) p
                  (e, All-map _ _ (λ z n. order.negatively_transitive x y z e n) ys q),
              merge-IsSorted xs (y ∷ ys) h (q, k),
            )
    ]

take-length-append {ℓ} : {A : Type ℓ} (xs ys : List A) → take (length xs) (xs ++ ys) ≡ xs
take-length-append [] ys = refl
take-length-append (x ∷ xs) ys = rw (take-length-append xs ys)

drop-length-append {ℓ} : {A : Type ℓ} (xs ys : List A) → drop (length xs) (xs ++ ys) ≡ ys
drop-length-append [] ys = refl
drop-length-append (x ∷ xs) ys = drop-length-append xs ys

-- The two ways to merge agree: behind one another in one vector, or in a buffer of their own.
pub inplace_merge-eq-merge :
    {T : Type 0} (comp : T → T → Bool) (xs ys : List T)
    → inplace_merge comp (length xs) (xs ++ ys) ≡ merge comp xs ys
unfolding inplace_merge
inplace_merge-eq-merge comp xs ys = rw (take-length-append xs ys, drop-length-append xs ys)
