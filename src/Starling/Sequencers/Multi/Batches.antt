-- ===== src/Starling/Sequencers/Multi/Batches.antt =====
-- Publishing a range of positions.
use menagerie.Prelude.{
  ℕ, zero, suc, ◌+◌, ◌≤◌, ◌<◌, ◌≡◌, refl, sym, ap, subst, ◌∙◌, inl, inr, true, false, arith, ltb,
  ltb→lt, Bool-cases,
}
use menagerie.Prelude.Int.{
  ℤ, pos, pos_part, neg_part, ◌+ℤ◌, ◌≤ℤ◌, ltb_ℤ, int_laws, eq_of_parts, ltb_ℤ-eq-false,
  ltb_ℤ-eq-true, pos_part-sub, pos_part-nonneg,
}
use menagerie.Starling.Sequencers.{int64_max}
use menagerie.Starling.Sequencers.Multi.{
  MultiProducerSequencer, publish_slot, publish_slots, publish_batch, rounds, is_available,
  scan_published,
}
use menagerie.Starling.Sequencers.Multi.Frontier.{IsFrontier, scan_published-IsFrontier}
use menagerie.Starling.Sequencers.Multi.Generations.{publish_slot-available, publish_slot-elsewhere}

pos_succ : (n : ℕ) → pos n +ℤ pos 1 ≡ pos (suc n)
pos_succ n = eq_of_parts _ _ (omega int_laws)

publish_slots-suc :
    (count lo : ℕ) (s : MultiProducerSequencer)
    → publish_slots (suc count) (pos lo) s
      ≡ publish_slots count (pos (suc lo)) (publish_slot (pos lo) s)
unfolding publish_slots
publish_slots-suc count lo s =
    ap (λ p. publish_slots count p (publish_slot (pos lo) s)) (pos_succ lo)

capacity-publish_slot :
    (p : ℤ) (s : MultiProducerSequencer) → (publish_slot p s).capacity ≡ s.capacity
unfolding publish_slot
capacity-publish_slot p s = refl

-- A position before the range, and less than a capacity below its end, stays as it was.
publish_slots-before :
    (count lo q : ℕ) (s : MultiProducerSequencer)
    → lo + count ≤ int64_max
    → q < lo
    → lo + count ≤ q + s.capacity
    → is_available (pos q) (publish_slots count (pos lo) s) ≡ is_available (pos q) s
publish_slots-before zero lo q s m h k = unfold publish_slots in refl
publish_slots-before (suc count) lo q s m h k =
    ap (is_available (pos q)) (publish_slots-suc count lo s)
    ∙ (publish_slots-before count (suc lo) q (publish_slot (pos lo) s) (omega (arith, m))
          (omega (arith, h)) (omega (arith, k, capacity-publish_slot (pos lo) s))
        ∙ publish_slot-elsewhere lo q s (omega (arith, m)) (omega (arith, m, h)) (omega (arith, k))
            (omega (arith, h, k)) (λ e. omega (arith, e, h)))

publish_slots-available :
    (count lo q : ℕ) (s : MultiProducerSequencer)
    → lo + count ≤ int64_max
    → count ≤ s.capacity
    → lo ≤ q
    → q < lo + count
    → is_available (pos q) (publish_slots count (pos lo) s) ≡ true
publish_slots-available zero lo q s m c h k = absurd (omega (arith, h, k))
publish_slots-available (suc count) lo q s m c h k =
    let room = capacity-publish_slot (pos lo) s in
    let t = publish_slot (pos lo) s in
    ap (is_available (pos q)) (publish_slots-suc count lo s) ∙ elim (Bool-cases (ltb lo q)) [
      | inl y ↦
          publish_slots-available count (suc lo) q t (omega (arith, m)) (omega (arith, c, room))
            (ltb→lt lo q y) (omega (arith, k))
      | inr n ↦
          let here : lo ≡ q = ground (arith, h) in
          publish_slots-before count (suc lo) q t (omega (arith, m)) (omega (arith, here))
            (omega (arith, c, room, here))
          ∙ subst (λ p. is_available (pos p) t ≡ true) here (publish_slot-available (pos lo) s)
    ]

-- If the range [lo, hi] is not empty, no longer than the capacity, and below the greatest int64,
-- then `publish_batch` makes every position of it available, and a scan from `lo` up to a claimed
-- position that is not before `hi` answers at least `hi`.
pub publish_batch-available :
    (lo hi : ℕ) (claimed : ℤ) (s : MultiProducerSequencer)
    → lo ≤ hi
    → hi < int64_max
    → hi < lo + s.capacity
    → pos hi ≤ℤ claimed
    → let t = publish_batch (pos lo) (pos hi) s in
      ((q : ℕ) → lo ≤ q → q ≤ hi → is_available (pos q) t ≡ true)
      × (pos hi ≤ℤ scan_published (pos lo) claimed t)
publish_batch-available lo hi claimed s h m c le = (available, reached)
  where
    t : MultiProducerSequencer
    t = publish_batch (pos lo) (pos hi) s

    count : lo + rounds (pos lo) (pos hi) ≡ suc hi
    count =
        unfold rounds in omega (int_laws, pos_part-sub (pos lo) (pos hi +ℤ pos 1) (omega int_laws))

    available : (q : ℕ) → lo ≤ q → q ≤ hi → is_available (pos q) t ≡ true
    available q up down =
        unfold publish_batch in
        publish_slots-available (rounds (pos lo) (pos hi)) lo q s (omega (arith, count, m))
          (omega (arith, count, c)) up (omega (arith, count, down))

    frontier : ℤ
    frontier = scan_published (pos lo) claimed t

    scanned : IsFrontier t (pos lo) claimed frontier
    scanned = scan_published-IsFrontier t (pos lo) claimed (omega (int_laws, h, le))

    reached : pos hi ≤ℤ frontier
    reached = elim (Bool-cases (ltb_ℤ frontier (pos hi))) [
      | inr n ↦ ltb_ℤ-eq-false frontier (pos hi) n
      | inl y ↦ elim scanned.ends [
        | inl all ↦ subst (λ p. pos hi ≤ℤ p) (sym all) le
        | inr gap ↦
            let first = ltb_ℤ-eq-true frontier (pos hi) y in
            let place : frontier +ℤ pos 1 ≡ pos (pos_part (frontier +ℤ pos 1)) =
              pos_part-nonneg _ (omega (int_laws, scanned.above)) in
            let no_neg : neg_part (frontier +ℤ pos 1) ≡ 0 = ap neg_part place in
            let there =
              available (pos_part (frontier +ℤ pos 1)) (omega (arith, no_neg, scanned.above))
                (omega (arith, no_neg, first)) in
            let not_there = subst (λ p. is_available p t ≡ false) place gap in absurd cc
      ]
    ]
