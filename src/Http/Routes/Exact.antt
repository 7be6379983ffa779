-- ===== src/Http/Routes/Exact.antt =====
-- The table of exact routes, one entry and one slot at a time.
use menagerie.Prelude.{
  ◌≡◌, refl, ap, inl, inr, true, false, Option, none, some, List, [], ◌∷◌, arith, if◌then◌else◌,
  Bool-cases, Option-cases, Bytes, bytes_eq, bytes_eq_refl, bytes_eq_iff,
}
use menagerie.Http.Method.{HttpMethod, index}
use menagerie.Http.Method.Laws.{index_injective}
use menagerie.Http.Routes.{MethodSlots, set_slot, find_exact, add_exact, conflict, duplicate_route}

module _ {H : Type 0} where
  -- The handler of a key and a method in the table of exact routes.
  pub slot_at : List (Bytes × MethodSlots H) → Bytes → HttpMethod → Option H
  slot_at [] key m = none
  slot_at ((k, slots) ∷ table) key m = if bytes_eq k key then slots m else slot_at table key m

  pub slot_at-find_exact :
      (table : List (Bytes × MethodSlots H)) (key : Bytes) (m : HttpMethod) (h : H)
      → slot_at table key m ≡ some h
      → (slots : MethodSlots H) × (find_exact key table ≡ some slots) × (slots m ≡ some h)
  unfolding slot_at find_exact
  slot_at-find_exact [] key m h e = cc
  slot_at-find_exact ((k, slots) ∷ table) key m h e = elim (Bool-cases (bytes_eq k key)) [
    | inl y ↦ rw (y, find_exact) (slots, refl, ground arith)
    | inr n ↦ rw (n, find_exact) (slot_at-find_exact table key m h (ground arith))
  ]

  pub set_slot_kept :
      (slots : MethodSlots H) (m n : HttpMethod) (h g : H)
      → slots m ≡ none
      → slots n ≡ some g
      → set_slot slots m h n ≡ some g
  set_slot_kept slots m n h g free held =
      ground (arith, λ (e : index m ≡ index n). ap slots (index_injective m n e))

  pub set_slot_self :
      (slots : MethodSlots H) (m : HttpMethod) (h : H) → set_slot slots m h m ≡ some h
  set_slot_self slots m h = ground arith

  -- The three cases of an entry.
  module _ (m : HttpMethod) (key : Bytes) (h : H) (k : Bytes) (slots : MethodSlots H)
      (table : List (Bytes × MethodSlots H)) where
    add_exact_taken :
        (g : H)
        → bytes_eq k key ≡ true
        → slots m ≡ some g
        → add_exact m key h ((k, slots) ∷ table)
          ≡ ((k, slots) ∷ table, conflict m k duplicate_route)
    unfolding add_exact
    add_exact_taken g y held = ground arith

    add_exact_free :
        bytes_eq k key ≡ true
        → slots m ≡ none
        → add_exact m key h ((k, slots) ∷ table) ≡ ((k, set_slot slots m h) ∷ table, [])
    unfolding add_exact
    add_exact_free y free = ground arith

    add_exact_other :
        bytes_eq k key ≡ false
        → add_exact m key h ((k, slots) ∷ table)
          ≡ ((k, slots) ∷ (add_exact m key h table).0, (add_exact m key h table).1)
    unfolding add_exact
    add_exact_other n = rw n

  slot_at-cons_mono :
      (k : Bytes) (slots slots' : MethodSlots H) (table table' : List (Bytes × MethodSlots H))
      (key : Bytes) (n : HttpMethod) (g : H)
      → (slots n ≡ some g → slots' n ≡ some g)
      → (slot_at table key n ≡ some g → slot_at table' key n ≡ some g)
      → slot_at ((k, slots) ∷ table) key n ≡ some g
      → slot_at ((k, slots') ∷ table') key n ≡ some g
  unfolding slot_at
  slot_at-cons_mono k slots slots' table table' key n g here there e =
      elim (Bool-cases (bytes_eq k key)) [
        | inl y ↦ rw (y, slot_at) (here (rw (y, slot_at) at e))
        | inr o ↦ rw (o, slot_at) (there (rw (o, slot_at) at e))
      ]

  -- A handler that stands in the table stays where it is, whatever is added.
  pub slot_at-add_exact_kept :
      (m : HttpMethod) (key : Bytes) (h : H) (table : List (Bytes × MethodSlots H)) (k : Bytes)
      (n : HttpMethod) (g : H)
      → slot_at table k n ≡ some g
      → slot_at (add_exact m key h table).0 k n ≡ some g
  slot_at-add_exact_kept m key h [] k n g e = unfold slot_at in cc
  slot_at-add_exact_kept m key h ((k0, slots) ∷ table) k n g e =
      elim (Bool-cases (bytes_eq k0 key)) [
        | inl y ↦ elim (Option-cases (slots m)) [
          | inl free ↦ rw (add_exact_free m key h k0 slots table y free) (
              slot_at-cons_mono k0 slots (set_slot slots m h) table table k n g
                (set_slot_kept slots m n h g free) (λ q. q) e)
          | inr (h0, held) ↦ rw (add_exact_taken m key h k0 slots table h0 y held) e
        ]
        | inr o ↦ rw (add_exact_other m key h k0 slots table o) (
            slot_at-cons_mono k0 slots slots table (add_exact m key h table).0 k n g (λ q. q)
              (slot_at-add_exact_kept m key h table k n g) e)
      ]

  -- Without a conflict the new handler stands in the table.
  pub slot_at-add_exact :
      (m : HttpMethod) (key : Bytes) (h : H) (table : List (Bytes × MethodSlots H))
      → (add_exact m key h table).1 ≡ []
      → slot_at (add_exact m key h table).0 key m ≡ some h
  unfolding slot_at add_exact
  slot_at-add_exact m key h [] e = ground (arith, bytes_eq_refl key)
  slot_at-add_exact m key h ((k0, slots) ∷ table) e =
      ground (arith, slot_at-add_exact m key h table)

  -- The table changes only where there is no conflict.
  pub add_exact-conflict :
      (m : HttpMethod) (key : Bytes) (h g : H) (table : List (Bytes × MethodSlots H))
      → slot_at table key m ≡ some g
      → add_exact m key h table ≡ (table, conflict m key duplicate_route)
  unfolding slot_at add_exact
  add_exact-conflict m key h g [] e = cc
  add_exact-conflict m key h g ((k0, slots) ∷ table) e =
      ground (arith, add_exact-conflict m key h g table, bytes_eq_iff k0 key)
