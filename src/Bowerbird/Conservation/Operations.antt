-- ===== src/Bowerbird/Conservation/Operations.antt =====
-- Conservation for each operation of sliding_window_sorter.hpp.
use menagerie.Prelude.{
  ◌+◌, ◌-◌, ◌≤◌, ◌≡◌, refl, sym, ap, subst, ◌∙◌, inl, inr, Bool, true, false, not, ◌&&◌, ◌||◌, List,
  [], ◌∷◌, ◌++◌, append_assoc, append-nil, arith, if◌then◌else◌, Bool-cases, and-eq-true, length,
  is_empty,
}
use mathlib.Core.List.{Perm, flatten}
use mathlib.Core.List.Perm
use menagerie.Bowerbird.{
  SlidingWindowConfig, SlidingWindowSorter, take_in, deliver, process_batch, process_if_due,
  should_process, add_entries, add_entry, flush, reconfigure,
}
use menagerie.Bowerbird.Merging.{IsStrictWeakOrder}
use menagerie.Bowerbird.Sorting.{IsSort}
use menagerie.Bowerbird.Output.{delivered, Hands, deliver-Hands, length-deliver-le, length-deliver}
use menagerie.Bowerbird.Conservation.{
  held, Passes, nil_of_is_empty, TakesIn, take_in-TakesIn, process_batch_idle,
  process_batch-eq-deliver,
}

length_nil {ℓ} : {A : Type ℓ} (l : List A) → length l ≡ 0 → l ≡ []
length_nil [] h = refl
length_nil (x ∷ l) h = absurd (omega (arith, h))

not_both : (a b : Bool) → (a && b) ≡ false → (not a || not b) ≡ true
not_both true true h = cc
not_both true false h = refl
not_both false b h = refl

-- The counter counts the delivered entries, the window keeps within its size, fewer entries wait
-- than a batch has, and the comparator is a strict weak order.
pub record IsTidy {T : Type 0} (s : SlidingWindowSorter T) : Type 0 where
  pub counted : s.total_processed ≡ length (delivered s)
  pub bounded : length s.sorted_window ≤ s.config.window_size
  pub waiting : length s.new_entries ≤ s.config.batch_size - 1
  pub order : IsStrictWeakOrder s.config.comparator

-- One operation: the invariant holds again, and what is held is what was and what came.
abbrev pub Keeps : {T : Type 0} → SlidingWindowSorter T → List T → SlidingWindowSorter T → Type 0
Keeps s entries s' = IsTidy s' × Perm (held s') (held s ++ entries)

module _ {T : Type 0} (std_sort : (T → T → Bool) → List T → List T)
    (has_room : SlidingWindowSorter T → Bool) (sorts : IsSort std_sort) where
  -- A delivery after a batch is taken in keeps what is held.
  deliver_kept :
      (s t d : SlidingWindowSorter T)
      → TakesIn std_sort has_room sorts s t
      → Hands t d
      → Perm (held d) (held s)
  deliver_kept s t d taken hands =
      subst (λ l. Perm l (held s)) (sym same) (Perm.append_left (delivered s) taken.window)
    where
      same : held d ≡ delivered s ++ t.sorted_window
      same =
          ap (λ l. delivered d ++ (d.sorted_window ++ l)) (hands.new_entries ∙ taken.emptied)
          ∙ (ap (λ l. delivered d ++ l) (append-nil d.sorted_window)
              ∙ (hands.kept ∙ ap (λ l. flatten l ++ t.sorted_window) taken.consumed))

  process_batch-Passes :
      (force_all : Bool) (s : SlidingWindowSorter T)
      → IsStrictWeakOrder s.config.comparator
      → Passes s (process_batch std_sort has_room force_all s)
  process_batch-Passes force_all s order =
      elim (Bool-cases (is_empty s.new_entries && is_empty s.sorted_window)) [
        | inl e ↦
            let (no_new, no_window) = and-eq-true _ _ e in
            let window = nil_of_is_empty s.sorted_window no_window in
            rw (process_batch_idle std_sort has_room sorts force_all s e) (record {
              config = refl;
              emptied = nil_of_is_empty s.new_entries no_new;
              kept = Perm.refl (held s);
              counted = refl;
              bounded = omega (arith, ap length window);
            })
        | inr e ↦
            let t = take_in std_sort has_room s in
            let taken = take_in-TakesIn std_sort has_room sorts s order in
            let hands = deliver-Hands force_all t in
            rw (process_batch-eq-deliver std_sort has_room sorts force_all s e) (record {
              config = hands.config ∙ taken.config;
              emptied = hands.new_entries ∙ taken.emptied;
              kept = deliver_kept s t (deliver force_all t) taken hands;
              counted =
                  omega (
                    arith,
                    hands.counted,
                    taken.total,
                    ap (λ l. length (flatten l)) taken.consumed,
                  );
              bounded = rw hands.config (length-deliver-le force_all t);
            })
      ]

  pub flush-Flushes :
      (s : SlidingWindowSorter T)
      → IsStrictWeakOrder s.config.comparator
      → let s' = flush std_sort has_room s in
        Perm (held s') (held s)
        × (s'.sorted_window ≡ [])
        × (s'.new_entries ≡ [])
        × (s'.total_processed + length (delivered s) ≡ s.total_processed + length (delivered s'))
        × (s'.config ≡ s.config)
  unfolding flush
  flush-Flushes s order = elim (Bool-cases (is_empty s.new_entries && is_empty s.sorted_window)) [
    | inl e ↦
        let (no_new, no_window) =
          and-eq-true (is_empty s.new_entries) (is_empty s.sorted_window) e in
        rw (no_new, no_window)
          (
            Perm.refl (held s),
            nil_of_is_empty s.sorted_window no_window,
            nil_of_is_empty s.new_entries no_new,
            refl,
            refl,
          )
    | inr e ↦
        let passed = process_batch-Passes true s order in
        subst Flushed (sym (due e))
          (passed.kept, emptied e, passed.emptied, passed.counted, passed.config)
  ]
    where
      Flushed : SlidingWindowSorter T → Type 0
      Flushed s' =
          Perm (held s') (held s)
          × (s'.sorted_window ≡ [])
          × (s'.new_entries ≡ [])
          × (s'.total_processed + length (delivered s) ≡ s.total_processed + length (delivered s'))
          × (s'.config ≡ s.config)

      due :
          (is_empty s.new_entries && is_empty s.sorted_window) ≡ false
          → flush std_sort has_room s ≡ process_batch std_sort has_room true s
      due e = rw (not_both _ _ e)

      emptied :
          (is_empty s.new_entries && is_empty s.sorted_window) ≡ false
          → (process_batch std_sort has_room true s).sorted_window ≡ []
      emptied e =
          rw (process_batch-eq-deliver std_sort has_room sorts true s e)
            (length_nil _ (omega (arith, length-deliver true (take_in std_sort has_room s))))

  pub held_new :
      (s : SlidingWindowSorter T) (entries : List T)
      → held (record s { new_entries = s.new_entries ++ entries }) ≡ held s ++ entries
  held_new s entries =
      ap (λ l. delivered s ++ l) (sym (append_assoc s.sorted_window s.new_entries entries))
      ∙ sym (append_assoc (delivered s) (s.sorted_window ++ s.new_entries) entries)

  process_if_due-Keeps :
      (s : SlidingWindowSorter T) (entries : List T)
      → IsTidy s
      → Keeps s entries
          (process_if_due std_sort has_room (record s { new_entries = s.new_entries ++ entries }))
  process_if_due-Keeps s entries v = elim (Bool-cases (should_process t)) [
    | inl y ↦
        subst (Keeps s entries) (sym (chosen y))
          (passed_Keeps (process_batch-Passes false t v.order))
    | inr n ↦ subst (Keeps s entries) (sym (chosen n)) (
      record { counted = v.counted; bounded = v.bounded; waiting = ground arith; order = v.order },
      rw (held_new s entries) (Perm.refl (held s ++ entries)),
    )
  ]
    where
      t : SlidingWindowSorter T
      t = record s { new_entries = s.new_entries ++ entries }

      chosen :
          {b : Bool}
          → should_process t ≡ b
          → process_if_due std_sort has_room t
            ≡ (if b then process_batch std_sort has_room false t else t)
      chosen e = ap (λ c. if c then process_batch std_sort has_room false t else t) e

      passed_Keeps :
          Passes t (process_batch std_sort has_room false t)
          → Keeps s entries (process_batch std_sort has_room false t)
      passed_Keeps p = (
        record {
          counted = omega (arith, p.counted, v.counted);
          bounded = p.bounded;
          waiting = rw p.emptied (omega arith);
          order =
              subst (λ (c : SlidingWindowConfig T). IsStrictWeakOrder c.comparator) (sym p.config)
                v.order;
        },
        subst (Perm _) (held_new s entries) p.kept,
      )

  Keeps-refl : (s : SlidingWindowSorter T) → IsTidy s → Keeps s [] s
  Keeps-refl s v = (v, rw (append-nil (held s)) (Perm.refl (held s)))

  pub add_entries-Keeps :
      (entries : List T) (s : SlidingWindowSorter T)
      → IsTidy s
      → Keeps s entries (add_entries std_sort has_room entries s)
  unfolding add_entries
  add_entries-Keeps [] s v = Keeps-refl s v
  add_entries-Keeps (e ∷ entries) s v = process_if_due-Keeps s (e ∷ entries) v

  pub add_entry-Keeps :
      (entry : T) (s : SlidingWindowSorter T)
      → IsTidy s
      → Keeps s (entry ∷ []) (add_entry std_sort has_room entry s)
  unfolding add_entry
  add_entry-Keeps entry s v = process_if_due-Keeps s (entry ∷ []) v

  pub flush-Keeps : (s : SlidingWindowSorter T) → IsTidy s → Keeps s [] (flush std_sort has_room s)
  flush-Keeps s v =
      let (kept, no_window, no_new, counted, same) = flush-Flushes s v.order in
      (
        record {
          counted = omega (arith, counted, v.counted);
          bounded = rw no_window (omega arith);
          waiting = rw no_new (omega arith);
          order =
              subst (λ (c : SlidingWindowConfig T). IsStrictWeakOrder c.comparator) (sym same)
                v.order;
        },
        rw (append-nil (held s)) kept,
      )

  pub reconfigure-Keeps :
      (config : SlidingWindowConfig T) (s : SlidingWindowSorter T)
      → IsStrictWeakOrder config.comparator
      → IsTidy s
      → Keeps s [] (reconfigure std_sort has_room config s)
  unfolding reconfigure
  reconfigure-Keeps config s order v =
      let (kept, no_window, no_new, counted, _) = flush-Flushes s v.order in
      (
        record {
          counted = omega (arith, counted, v.counted);
          bounded = rw no_window (omega arith);
          waiting = rw no_new (omega arith);
          order = order;
        },
        rw (append-nil (held s)) kept,
      )
