-- ===== src/Bowerbird/Order.antt =====
-- With sorting enabled: the order of the window and of the batches handed over.
use menagerie.Prelude.{
  ℕ, zero, suc, ◌≡◌, sym, ap, subst, inl, inr, Bool, true, false, not, ◌&&◌, ◌||◌, List, [], ◌∷◌,
  ◌++◌, ltb, leb, ◌==◌, if◌then◌else◌, Bool-cases, length, take, drop, is_empty, All, All-append,
}
use menagerie.Bowerbird.{
  add_entries, add_entry, flush, reconfigure, SlidingWindowSorter, merge, sort_new, sort_and_merge,
  take_in, output_count, output_entries, deliver, process_batch, process_if_due, should_process,
}
use menagerie.Bowerbird.Merging.{IsStrictWeakOrder, IsSorted, merge-IsSorted}
use menagerie.Bowerbird.Sorting.{IsSort, insertion_sort-IsSorted}
use menagerie.Bowerbird.Output.{count_of, output_entries_none, output_entries_some}
use menagerie.Bowerbird.Histories.{Call, adds, adds_one, flushes, reconfigures, step, run}
use menagerie.Bowerbird.Conservation.{
  sort_and_merge_idle, sort_and_merge_first, sort_and_merge_again, take_in_sorting,
  process_batch_idle, process_batch-eq-deliver,
}

-- The window is sorted by the comparator in use, and so is each batch handed over.
pub record IsOrdered {T : Type 0} (comp : T → T → Bool) (s : SlidingWindowSorter T) : Type 0 where
  pub uses : s.config.comparator ≡ comp
  pub sorting : s.config.enable_sorting ≡ true
  pub window : IsSorted comp s.sorted_window
  pub batches : All (IsSorted comp) s.consumed

-- A new configuration sorts, with this comparator.
abbrev pub Sorts : {T : Type 0} → (T → T → Bool) → Call T → Type 0
Sorts comp (adds entries) = Unit
Sorts comp (adds_one entry) = Unit
Sorts comp flushes = Unit
Sorts comp (reconfigures config) = (config.comparator ≡ comp) × (config.enable_sorting ≡ true)

module _ {T : Type 0} (comp : T → T → Bool) where
  All-take {κ} : (P : T → Type κ) (n : ℕ) (l : List T) → All P l → All P (take n l)
  All-take P zero l h = tt
  All-take P (suc n) [] h = tt
  All-take P (suc n) (x ∷ l) (p, h) = (p, All-take P n l h)

  take-IsSorted : (n : ℕ) (l : List T) → IsSorted comp l → IsSorted comp (take n l)
  take-IsSorted zero l h = tt
  take-IsSorted (suc n) [] h = tt
  take-IsSorted (suc n) (x ∷ l) (p, h) =
      (All-take (λ y. comp y x ≡ false) n l p, take-IsSorted n l h)

  drop-IsSorted : (n : ℕ) (l : List T) → IsSorted comp l → IsSorted comp (drop n l)
  drop-IsSorted zero l h = h
  drop-IsSorted (suc n) [] h = tt
  drop-IsSorted (suc n) (x ∷ l) (p, h) = drop-IsSorted n l h

  output_entries-IsOrdered :
      (count : ℕ) (s : SlidingWindowSorter T)
      → IsOrdered comp s
      → IsOrdered comp (output_entries count s)
  output_entries-IsOrdered count s o = elim (Bool-cases (count == 0 || is_empty s.sorted_window)) [
    | inl e ↦ rw (output_entries_none count s e) o
    | inr e ↦ rw (output_entries_some count s e) (record {
      uses = o.uses;
      sorting = o.sorting;
      window = drop-IsSorted (count_of count s) s.sorted_window o.window;
      batches =
          All-append (IsSorted comp) s.consumed (take (count_of count s) s.sorted_window ∷ [])
            o.batches (take-IsSorted (count_of count s) s.sorted_window o.window, tt);
    })
  ]

  deliver-IsOrdered :
      (force_all : Bool) (s : SlidingWindowSorter T)
      → IsOrdered comp s
      → IsOrdered comp (deliver force_all s)
  deliver-IsOrdered force_all s o = elim (Bool-cases (ltb 0 (output_count force_all s))) [
    | inl y ↦ rw y (output_entries-IsOrdered (output_count force_all s) s o)
    | inr n ↦ rw n o
  ]

module _ {T : Type 0} (std_sort : (T → T → Bool) → List T → List T)
    (has_room : SlidingWindowSorter T → Bool) (sorts : IsSort std_sort) (comp : T → T → Bool)
    (order : IsStrictWeakOrder comp) where
  sort_new-IsSorted :
      (s : SlidingWindowSorter T)
      → s.config.comparator ≡ comp
      → IsSorted comp (sort_new std_sort has_room s)
  sort_new-IsSorted s e = elim (Bool-cases (leb (length s.new_entries) s.config.merge_threshold)) [
    | inl y ↦ rw (y, e) (insertion_sort-IsSorted comp order [] s.new_entries tt)
    | inr n ↦ rw (n, e) (sorts.sorts comp s.new_entries order)
  ]

  sort_and_merge-IsOrdered :
      (s : SlidingWindowSorter T)
      → IsOrdered comp s
      → IsOrdered comp (sort_and_merge std_sort has_room s)
  sort_and_merge-IsOrdered s o =
      let new = sort_new-IsSorted s o.uses in
      elim (Bool-cases (is_empty s.new_entries)) [
        | inl e ↦ rw (sort_and_merge_idle std_sort has_room sorts s e) o
        | inr e ↦ elim (Bool-cases (is_empty s.sorted_window)) [
          | inl f ↦
              rw (sort_and_merge_first std_sort has_room sorts s e f)
                (record { uses = o.uses; sorting = o.sorting; window = new; batches = o.batches })
          | inr f ↦ rw (sort_and_merge_again std_sort has_room sorts s e f) (record {
            uses = o.uses;
            sorting = o.sorting;
            window =
                subst (λ c. IsSorted comp (merge c s.sorted_window (sort_new std_sort has_room s)))
                  (sym o.uses)
                  (merge-IsSorted comp order s.sorted_window (sort_new std_sort has_room s) o.window
                    new);
            batches = o.batches;
          })
        ]
      ]

  -- A pass, forced or not.
  pub process_batch-IsOrdered :
      (force_all : Bool) (s : SlidingWindowSorter T)
      → IsOrdered comp s
      → IsOrdered comp (process_batch std_sort has_room force_all s)
  process_batch-IsOrdered force_all s o =
      elim (Bool-cases (is_empty s.new_entries && is_empty s.sorted_window)) [
        | inl e ↦ rw (process_batch_idle std_sort has_room sorts force_all s e) o
        | inr e ↦
            let taken = take_in std_sort has_room s in
            rw (process_batch-eq-deliver std_sort has_room sorts force_all s e) (
              deliver-IsOrdered comp force_all taken (
                subst (IsOrdered comp) (sym (take_in_sorting std_sort has_room sorts s o.sorting))
                  (sort_and_merge-IsOrdered s o)))
      ]

  process_if_due-IsOrdered :
      (s : SlidingWindowSorter T)
      → IsOrdered comp s
      → IsOrdered comp (process_if_due std_sort has_room s)
  process_if_due-IsOrdered s o = elim (Bool-cases (should_process s)) [
    | inl y ↦ subst (IsOrdered comp) (sym (chosen y)) (process_batch-IsOrdered false s o)
    | inr n ↦ subst (IsOrdered comp) (sym (chosen n)) o
  ]
    where
      chosen :
          {b : Bool}
          → should_process s ≡ b
          → process_if_due std_sort has_room s
            ≡ (if b then process_batch std_sort has_room false s else s)
      chosen e = ap (λ c. if c then process_batch std_sort has_room false s else s) e

  flush-IsOrdered :
      (s : SlidingWindowSorter T) → IsOrdered comp s → IsOrdered comp (flush std_sort has_room s)
  unfolding flush
  flush-IsOrdered s o =
      elim (Bool-cases (not (is_empty s.new_entries) || not (is_empty s.sorted_window))) [
        | inl y ↦ rw y (process_batch-IsOrdered true s o)
        | inr n ↦ rw n o
      ]

  step-IsOrdered :
      (call : Call T) (s : SlidingWindowSorter T)
      → Sorts comp call
      → IsOrdered comp s
      → IsOrdered comp (step std_sort has_room call s)
  unfolding add_entries add_entry reconfigure
  step-IsOrdered (adds []) s k o = o
  step-IsOrdered (adds (e ∷ entries)) s k o =
      process_if_due-IsOrdered (record s { new_entries = s.new_entries ++ e ∷ entries })
        (record { uses = o.uses; sorting = o.sorting; window = o.window; batches = o.batches })
  step-IsOrdered (adds_one entry) s k o =
      process_if_due-IsOrdered (record s { new_entries = s.new_entries ++ entry ∷ [] })
        (record { uses = o.uses; sorting = o.sorting; window = o.window; batches = o.batches })
  step-IsOrdered flushes s k o = flush-IsOrdered s o
  step-IsOrdered (reconfigures config) s (uses, sorting) o = record {
    uses = uses;
    sorting = sorting;
    window = (flush-IsOrdered s o).window;
    batches = (flush-IsOrdered s o).batches;
  }

  -- If `std::sort` sorts, the comparator is a strict weak order, and every configuration in use
  -- enables sorting with that comparator, then after any calls on a sorter whose window and
  -- delivered batches are sorted the window is sorted and every batch that the consumer was given
  -- is sorted, whatever merge the settings and the room in the vector select.
  pub run-IsOrdered :
      (calls : List (Call T)) (s : SlidingWindowSorter T)
      → All (Sorts comp) calls
      → IsOrdered comp s
      → IsOrdered comp (run std_sort has_room calls s)
  run-IsOrdered [] s k o = o
  run-IsOrdered (call ∷ calls) s (k, ks) o =
      run-IsOrdered calls (step std_sort has_room call s) ks (step-IsOrdered call s k o)
