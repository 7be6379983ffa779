-- ===== src/Starling/Sequencers/Multi/Frontier.antt =====
-- The scan for the contiguous published frontier.
use menagerie.Prelude.{
  ℕ, zero, suc, ◌≡◌, refl, sym, ap, subst, ◌∙◌, ◌⊎◌, inl, inr, true, false, arith, if◌then◌else◌,
  Bool-cases,
}
use menagerie.Prelude.Int.{
  ℤ, pos, pos_part, neg_part, ◌+ℤ◌, ◌-ℤ◌, ◌≤ℤ◌, ltb_ℤ, int_laws, eq_of_parts, ltb_ℤ-eq-false,
  ltb_ℤ-eq-true, pos_part-sub,
}
use menagerie.Starling.Sequencers.Multi.{
  MultiProducerSequencer, is_available, scan, scan_published, rounds,
}

-- `frontier` ends the published positions from `lower_bound` on, as far as `claimed`.
pub record IsFrontier (s : MultiProducerSequencer) (lower_bound claimed frontier : ℤ) : Type 0 where
  pub above : lower_bound ≤ℤ frontier +ℤ pos 1
  pub below : frontier ≤ℤ claimed
  pub published : (q : ℤ) → lower_bound ≤ℤ q → q ≤ℤ frontier → is_available q s ≡ true
  pub ends : (frontier ≡ claimed) ⊎ (is_available (frontier +ℤ pos 1) s ≡ false)

scan-suc :
    (count : ℕ) (seq claimed : ℤ) (s : MultiProducerSequencer)
    → scan (suc count) seq claimed s
      ≡ (if is_available seq s then scan count (seq +ℤ pos 1) claimed s else seq -ℤ pos 1)
unfolding scan
scan-suc count seq claimed s = refl

scan-IsFrontier :
    (s : MultiProducerSequencer) (claimed : ℤ) (count : ℕ) (seq : ℤ)
    → seq +ℤ pos count ≡ claimed +ℤ pos 1
    → IsFrontier s seq claimed (scan count seq claimed s)
scan-IsFrontier s claimed zero seq e =
    unfold scan in
    record {
      above = omega (int_laws, ap pos_part e, ap neg_part e);
      below = omega int_laws;
      published = λ q lo hi. absurd (omega (int_laws, lo, hi, ap pos_part e, ap neg_part e));
      ends = inl refl;
    }
scan-IsFrontier s claimed (suc count) seq e =
    let shift : seq +ℤ pos 1 +ℤ pos count ≡ claimed +ℤ pos 1 =
      eq_of_parts _ _ (omega (int_laws, ap pos_part e, ap neg_part e)) in
    let rest = scan-IsFrontier s claimed count (seq +ℤ pos 1) shift in
    elim (Bool-cases (is_available seq s)) [
      | inl y ↦
          let frontier = scan count (seq +ℤ pos 1) claimed s in
          let on : scan (suc count) seq claimed s ≡ frontier =
            scan-suc count seq claimed s ∙ rw y in
          subst (IsFrontier s seq claimed) (sym on) (record {
            above = omega (int_laws, rest.above);
            below = rest.below;
            published = λ q lo hi. elim (Bool-cases (ltb_ℤ seq q)) [
              | inl later ↦ rest.published q (ltb_ℤ-eq-true seq q later) hi
              | inr here ↦
                  let same : seq ≡ q =
                    eq_of_parts seq q (omega (arith, lo, ltb_ℤ-eq-false seq q here)) in
                  subst (λ p. is_available p s ≡ true) same y
            ];
            ends = rest.ends;
          })
      | inr n ↦
          let out : scan (suc count) seq claimed s ≡ seq -ℤ pos 1 =
            scan-suc count seq claimed s ∙ rw n in
          subst (IsFrontier s seq claimed) (sym out) (record {
            above = omega int_laws;
            below = omega (int_laws, ap pos_part e, ap neg_part e);
            published = λ q lo hi. absurd (omega (int_laws, lo, hi));
            ends = inr (
                subst (λ p. is_available p s ≡ false)
                  (eq_of_parts seq (seq -ℤ pos 1 +ℤ pos 1) (omega int_laws)) n);
          })
    ]

-- For a lower bound at most one behind the claimed position, the answer of `scan_published` lies
-- between the lower bound less one and the claimed position, every position from the lower bound
-- to it is published, and the next one is not, unless the answer is the claimed position itself:
-- publication gaps stay hidden, and nothing published before a gap is held back.
pub scan_published-IsFrontier :
    (s : MultiProducerSequencer) (lower_bound claimed : ℤ)
    → lower_bound ≤ℤ claimed +ℤ pos 1
    → IsFrontier s lower_bound claimed (scan_published lower_bound claimed s)
scan_published-IsFrontier s lower_bound claimed h =
    unfold scan_published in
    scan-IsFrontier s claimed (rounds lower_bound claimed) lower_bound (
      eq_of_parts _ _
        (unfold rounds in omega (int_laws, pos_part-sub lower_bound (claimed +ℤ pos 1) h)))
