-- ===== src/Bowerbird/Conservation.antt =====
-- No entry is lost, and none is made up.
pub mod Operations
use menagerie.Prelude.{
  ℕ, zero, suc, ◌+◌, ◌-◌, ◌*◌, ◌/◌, ◌%◌, ◌^◌, ◌≤◌, ◌<◌, min, max, String, ◌≡◌, refl, sym, ap, subst,
  ◌∙◌, ◌≡⟨◌⟩◌, ◌∎, ◌≢◌, ◌↔◌, ◌⊎◌, inl, inr, Bool, true, false, not, ◌&&◌, ◌||◌, Option, none, some,
  List, [], ◌∷◌, ◌++◌, map, append_assoc, append-nil, arith, ltb, leb, ◌==◌, if◌then◌else◌, ltb→lt,
  lt→ltb, leb→le, ==_iff, ==-eq-false, tests, Bool-cases, Option-cases, and-eq-true, length,
  get_elem?, take, drop, is_empty, any, length-append, take-append-drop, length-take, length-drop,
  All, All-append, All-map, Bytes, bytes, bytes_eq, bytes_eq_refl, bytes_eq_iff, last?, pop_back,
  pop_back-append-last, last?-append-last, is_empty-append, append-eq-nil, Result, ok, err, ◌>>=◌,
  throw_if, Result-cases, throw_if-eq-ok, bind-eq-ok, ok-injective,
}
use mathlib.Core.List.{Perm, flatten}
use mathlib.Core.List.Perm
use menagerie.Bowerbird.{
  SlidingWindowConfig, SlidingWindowSorter, insertion_sort, inplace_merge, merge, sort_new,
  merge_with_window, sort_and_merge, append_new, take_in, deliver, maintain_window_size,
  process_batch, process_if_due, add_entries, add_entry, flush, reconfigure,
}
use menagerie.Bowerbird.Merging.{IsStrictWeakOrder, merge-perm, inplace_merge-eq-merge}
use menagerie.Bowerbird.Sorting.{IsSort, insertion_sort-perm}
use menagerie.Bowerbird.Output.{
  delivered, Hands, deliver-Hands, length-deliver-le, maintain_window_size_idle, length-deliver,
}

nil_of_is_empty {ℓ} : {A : Type ℓ} (l : List A) → is_empty l ≡ true → l ≡ []
nil_of_is_empty [] h = refl
nil_of_is_empty (x ∷ l) h = cc

-- All that was given to the sorter and not taken away: delivered, in the window, or new.
abbrev pub held : {T : Type 0} → SlidingWindowSorter T → List T
held s = delivered s ++ (s.sorted_window ++ s.new_entries)

-- What a pass does to the rest of the state.
pub record Passes {T : Type 0} (s s' : SlidingWindowSorter T) : Type 0 where
  pub config : s'.config ≡ s.config
  pub emptied : s'.new_entries ≡ []
  pub kept : Perm (held s') (held s)
  pub counted :
      s'.total_processed + length (delivered s) ≡ s.total_processed + length (delivered s')
  pub bounded : length s'.sorted_window ≤ s'.config.window_size

module _ {T : Type 0} (std_sort : (T → T → Bool) → List T → List T)
    (has_room : SlidingWindowSorter T → Bool) (sorts : IsSort std_sort) where
  sort_new-perm :
      (s : SlidingWindowSorter T)
      → IsStrictWeakOrder s.config.comparator
      → Perm (sort_new std_sort has_room s) s.new_entries
  sort_new-perm s order = elim (Bool-cases (leb (length s.new_entries) s.config.merge_threshold)) [
    | inl y ↦ rw y (insertion_sort-perm s.config.comparator [] s.new_entries)
    | inr n ↦ rw n (sorts.permutes s.config.comparator s.new_entries order)
  ]

  -- Both merges are the merge of the window with the entries.
  pub merge_with_window-eq-merge :
      (s : SlidingWindowSorter T) (entries : List T)
      → merge_with_window std_sort has_room s entries
        ≡ merge s.config.comparator s.sorted_window entries
  merge_with_window-eq-merge s entries =
      elim (Bool-cases (s.config.use_inplace_merge && has_room s)) [
        | inl y ↦ rw y (inplace_merge-eq-merge s.config.comparator s.sorted_window entries)
        | inr n ↦ rw n
      ]

  -- Only the window and the new entries change when a batch is taken in.
  record TakesIn (s s' : SlidingWindowSorter T) : Type 0 where
    config : s'.config ≡ s.config
    consumed : s'.consumed ≡ s.consumed
    total : s'.total_processed ≡ s.total_processed
    emptied : s'.new_entries ≡ []
    window : Perm s'.sorted_window (s.sorted_window ++ s.new_entries)

  pub sort_and_merge_idle :
      (s : SlidingWindowSorter T)
      → is_empty s.new_entries ≡ true
      → sort_and_merge std_sort has_room s ≡ s
  unfolding sort_and_merge
  sort_and_merge_idle s e = rw e

  pub sort_and_merge_first :
      (s : SlidingWindowSorter T)
      → is_empty s.new_entries ≡ false
      → is_empty s.sorted_window ≡ true
      → sort_and_merge std_sort has_room s ≡ record s {
        sorted_window = sort_new std_sort has_room s;
        new_entries = [];
        sort_operations = s.sort_operations + 1;
      }
  unfolding sort_and_merge
  sort_and_merge_first s e f = rw (e, f)

  pub sort_and_merge_again :
      (s : SlidingWindowSorter T)
      → is_empty s.new_entries ≡ false
      → is_empty s.sorted_window ≡ false
      → sort_and_merge std_sort has_room s ≡ record s {
        sorted_window = merge s.config.comparator s.sorted_window (sort_new std_sort has_room s);
        new_entries = [];
        sort_operations = s.sort_operations + 1;
        merge_operations = s.merge_operations + 1;
      }
  unfolding sort_and_merge
  sort_and_merge_again s e f =
      rw (e, f, merge_with_window-eq-merge s (sort_new std_sort has_room s))

  sort_and_merge-TakesIn :
      (s : SlidingWindowSorter T)
      → IsStrictWeakOrder s.config.comparator
      → TakesIn s (sort_and_merge std_sort has_room s)
  sort_and_merge-TakesIn s order = elim (Bool-cases (is_empty s.new_entries)) [
    | inl e ↦ rw (sort_and_merge_idle s e) (record {
      config = refl;
      consumed = refl;
      total = refl;
      emptied = nil_of_is_empty s.new_entries e;
      window =
          rw (nil_of_is_empty s.new_entries e, append-nil s.sorted_window)
            (Perm.refl s.sorted_window);
    })
    | inr e ↦ elim (Bool-cases (is_empty s.sorted_window)) [
      | inl f ↦ rw (sort_and_merge_first s e f) (record {
        config = refl;
        consumed = refl;
        total = refl;
        emptied = refl;
        window = rw (nil_of_is_empty s.sorted_window f) (sort_new-perm s order);
      })
      | inr f ↦ rw (sort_and_merge_again s e f) (record {
        config = refl;
        consumed = refl;
        total = refl;
        emptied = refl;
        window =
            Perm.trans
              (merge-perm s.config.comparator s.sorted_window (sort_new std_sort has_room s))
              (Perm.append_left s.sorted_window (sort_new-perm s order));
      })
    ]
  ]

  pub take_in_sorting :
      (s : SlidingWindowSorter T)
      → s.config.enable_sorting ≡ true
      → take_in std_sort has_room s ≡ sort_and_merge std_sort has_room s
  take_in_sorting s y = ap (λ b. if b then sort_and_merge std_sort has_room s else append_new s) y

  pub take_in_plain :
      (s : SlidingWindowSorter T)
      → s.config.enable_sorting ≡ false
      → take_in std_sort has_room s ≡ append_new s
  take_in_plain s n = ap (λ b. if b then sort_and_merge std_sort has_room s else append_new s) n

  take_in-TakesIn :
      (s : SlidingWindowSorter T)
      → IsStrictWeakOrder s.config.comparator
      → TakesIn s (take_in std_sort has_room s)
  take_in-TakesIn s order = elim (Bool-cases s.config.enable_sorting) [
    | inl y ↦ subst (TakesIn s) (sym (take_in_sorting s y)) (sort_and_merge-TakesIn s order)
    | inr n ↦ subst (TakesIn s) (sym (take_in_plain s n)) (record {
      config = refl;
      consumed = refl;
      total = refl;
      emptied = refl;
      window = Perm.refl (s.sorted_window ++ s.new_entries);
    })
  ]

  pub process_batch_idle :
      (force_all : Bool) (s : SlidingWindowSorter T)
      → (is_empty s.new_entries && is_empty s.sorted_window) ≡ true
      → process_batch std_sort has_room force_all s ≡ s
  unfolding process_batch
  process_batch_idle force_all s e = rw e

  -- `maintain_window_size` finds nothing to drop: the delivery before it has made room.
  pub process_batch-eq-deliver :
      (force_all : Bool) (s : SlidingWindowSorter T)
      → (is_empty s.new_entries && is_empty s.sorted_window) ≡ false
      → process_batch std_sort has_room force_all s
        ≡ deliver force_all (take_in std_sort has_room s)
  unfolding process_batch
  process_batch-eq-deliver force_all s e = rw e (
      maintain_window_size_idle (deliver force_all (take_in std_sort has_room s)) (
        rw ((deliver-Hands force_all (take_in std_sort has_room s)).config)
          (length-deliver-le force_all (take_in std_sort has_room s))))
