-- ===== src/Bowerbird/Tests.antt =====
-- The sorter on concrete calls, with an insertion sort for `std::sort`.
use menagerie.Prelude.{ℕ, ◌≡◌, refl, Bool, true, false, List, [], ◌∷◌, ◌++◌, arith, ltb}
use mathlib.Core.List.{Perm}
use menagerie.Bowerbird.{
  SlidingWindowConfig, SlidingWindowSorter, insertion_sort, process_batch, add_entries, add_entry,
  flush, reconfigure,
}
use menagerie.Bowerbird.Merging.{IsStrictWeakOrder}
use menagerie.Bowerbird.Sorting.{IsSort, insertion_sort-perm, insertion_sort-IsSorted}
use menagerie.Bowerbird.Output.{delivered}
use menagerie.Bowerbird.Conservation.{held}
use menagerie.Bowerbird.Conservation.Operations.{Keeps}
use menagerie.Bowerbird.Histories.{
  Call, adds, adds_one, reconfigures, inputs, new_sorter, run, run-Keeps, flush-run-delivered,
}
use menagerie.Bowerbird.Order.{IsOrdered, run-IsOrdered}
use menagerie.Bowerbird.Fifo.{held-run}

abbrev sort_ℕ : (ℕ → ℕ → Bool) → List ℕ → List ℕ
sort_ℕ comp l = insertion_sort comp [] l

sort_ℕ-IsSort : IsSort sort_ℕ
sort_ℕ-IsSort = record {
  permutes = λ comp l order. insertion_sort-perm comp [] l;
  sorts = λ comp l order. insertion_sort-IsSorted comp order [] l tt;
}

ltb-IsStrictWeakOrder : IsStrictWeakOrder ltb
ltb-IsStrictWeakOrder = record {
  asymmetric = λ a b h. ground arith;
  negatively_transitive = λ a b c h k. ground arith;
}

abbrev no_room : SlidingWindowSorter ℕ → Bool
no_room s = false

abbrev small : Bool → SlidingWindowConfig ℕ
small sorting = record {
  window_size = 2;
  batch_size = 2;
  enable_sorting = sorting;
  comparator = ltb;
  use_inplace_merge = true;
  merge_threshold = 4;
}

abbrev calls : Bool → List (Call ℕ)
calls sorting =
    adds (5 ∷ 1 ∷ 4 ∷ []) ∷ adds_one 2 ∷ adds_one 9 ∷ reconfigures (small sorting) ∷ adds_one 3 ∷ []

batches :
    (run sort_ℕ no_room (calls true) (new_sorter (small true))).consumed
    ≡ ((1 ∷ 4 ∷ []) ∷ (2 ∷ 5 ∷ []) ∷ (9 ∷ []) ∷ [])
unfolding process_batch add_entries add_entry flush reconfigure
batches = refl

in_order :
    (run sort_ℕ no_room (calls false) (new_sorter (small false))).consumed
    ≡ ((5 ∷ 1 ∷ []) ∷ (4 ∷ 2 ∷ []) ∷ (9 ∷ []) ∷ [])
unfolding process_batch add_entries add_entry flush reconfigure
in_order = refl

fresh-IsOrdered : IsOrdered ltb (new_sorter (small true))
fresh-IsOrdered = record { uses = refl; sorting = refl; window = tt; batches = tt }

run-Keeps_example :
    Keeps
      (new_sorter (small true))
      (inputs (calls true))
      (run sort_ℕ no_room (calls true) (new_sorter (small true)))
run-Keeps_example =
    run-Keeps sort_ℕ no_room sort_ℕ-IsSort (small true) (calls true) ltb-IsStrictWeakOrder
      (tt, (tt, (tt, (ltb-IsStrictWeakOrder, (tt, tt)))))

flush-run-delivered_example :
    let s = flush sort_ℕ no_room (run sort_ℕ no_room (calls true) (new_sorter (small true))) in
    (s.sorted_window ≡ [])
    × (s.new_entries ≡ [])
    × Perm (delivered s) (inputs (calls true))
    × (s.total_processed ≡ 6)
flush-run-delivered_example =
    flush-run-delivered sort_ℕ no_room sort_ℕ-IsSort (small true) (calls true) ltb-IsStrictWeakOrder
      (tt, (tt, (tt, (ltb-IsStrictWeakOrder, (tt, tt)))))

run-IsOrdered_example : IsOrdered ltb (run sort_ℕ no_room (calls true) (new_sorter (small true)))
run-IsOrdered_example =
    run-IsOrdered sort_ℕ no_room sort_ℕ-IsSort ltb ltb-IsStrictWeakOrder (calls true)
      (new_sorter (small true)) (tt, (tt, (tt, ((refl, refl), (tt, tt))))) fresh-IsOrdered

held-run_example :
    held (run sort_ℕ no_room (calls false) (new_sorter (small false)))
    ≡ held (new_sorter (small false)) ++ inputs (calls false)
held-run_example =
    held-run sort_ℕ no_room sort_ℕ-IsSort (calls false) (new_sorter (small false))
      (tt, (tt, (tt, (refl, (tt, tt))))) refl
