-- ===== src/Bowerbird/Histories.antt =====
-- Histories of calls of sliding_window_sorter.hpp, from the constructor on.
use menagerie.Prelude.{
  ◌≡◌, refl, subst, ◌∙◌, Bool, List, [], ◌∷◌, ◌++◌, append_assoc, append-nil, arith, length, All,
}
use mathlib.Core.List.{Perm, flatten}
use mathlib.Core.List.Perm
use menagerie.Bowerbird.{
  SlidingWindowConfig, SlidingWindowSorter, add_entries, add_entry, flush, reconfigure,
}
use menagerie.Bowerbird.Merging.{IsStrictWeakOrder}
use menagerie.Bowerbird.Sorting.{IsSort, Perm-length}
use menagerie.Bowerbird.Output.{delivered}
use menagerie.Bowerbird.Conservation.{held}
use menagerie.Bowerbird.Conservation.Operations.{
  IsTidy, Keeps, add_entries-Keeps, add_entry-Keeps, flush-Keeps, reconfigure-Keeps, flush-Flushes,
}

-- The public operations that change state.
pub data Call (T : Type 0) : Type 0 where
  adds : List T → Call T
  adds_one : T → Call T
  flushes : Call T
  reconfigures : SlidingWindowConfig T → Call T

-- A call that sets a configuration sets one whose comparator is a strict weak order.
abbrev pub Orders : {T : Type 0} → Call T → Type 0
Orders (adds entries) = Unit
Orders (adds_one entry) = Unit
Orders flushes = Unit
Orders (reconfigures config) = IsStrictWeakOrder config.comparator

-- What a call puts in.
abbrev pub input : {T : Type 0} → Call T → List T
input (adds entries) = entries
input (adds_one entry) = entry ∷ []
input flushes = []
input (reconfigures config) = []

abbrev pub inputs : {T : Type 0} → List (Call T) → List T
inputs [] = []
inputs (call ∷ calls) = input call ++ inputs calls

abbrev pub new_sorter : {T : Type 0} → SlidingWindowConfig T → SlidingWindowSorter T
new_sorter config = record {
  config = config;
  sorted_window = [];
  new_entries = [];
  consumed = [];
  total_processed = 0;
  merge_operations = 0;
  sort_operations = 0;
}

module _ {T : Type 0} (std_sort : (T → T → Bool) → List T → List T)
    (has_room : SlidingWindowSorter T → Bool) where
  abbrev pub step : Call T → SlidingWindowSorter T → SlidingWindowSorter T
  step (adds entries) s = add_entries std_sort has_room entries s
  step (adds_one entry) s = add_entry std_sort has_room entry s
  step flushes s = flush std_sort has_room s
  step (reconfigures config) s = reconfigure std_sort has_room config s

  abbrev pub run : List (Call T) → SlidingWindowSorter T → SlidingWindowSorter T
  run [] s = s
  run (call ∷ calls) s = run calls (step call s)

  module _ (sorts : IsSort std_sort) where
    step-Keeps :
        (call : Call T) (s : SlidingWindowSorter T)
        → Orders call
        → IsTidy s
        → Keeps s (input call) (step call s)
    step-Keeps (adds entries) s k v = add_entries-Keeps std_sort has_room sorts entries s v
    step-Keeps (adds_one entry) s k v = add_entry-Keeps std_sort has_room sorts entry s v
    step-Keeps flushes s k v = flush-Keeps std_sort has_room sorts s v
    step-Keeps (reconfigures config) s k v = reconfigure-Keeps std_sort has_room sorts config s k v

    calls-Keeps :
        (calls : List (Call T)) (s : SlidingWindowSorter T)
        → All Orders calls
        → IsTidy s
        → Keeps s (inputs calls) (run calls s)
    calls-Keeps [] s k v = (v, rw (append-nil (held s)) (Perm.refl (held s)))
    calls-Keeps (call ∷ calls) s (k, ks) v =
        let (tidy, kept) = step-Keeps call s k v in
        let (last, all) = calls-Keeps calls (step call s) ks tidy in
        (
          last,
          Perm.trans all (
              subst (Perm _) (append_assoc (held s) (input call) (inputs calls))
                (Perm.append_right (inputs calls) kept)),
        )

    new_sorter-IsTidy :
        (config : SlidingWindowConfig T)
        → IsStrictWeakOrder config.comparator
        → IsTidy (new_sorter config)
    unfolding flatten
    new_sorter-IsTidy config order = record {
      counted = refl;
      bounded = omega arith;
      waiting = omega arith;
      order = order;
    }

    -- If `std::sort` sorts by a strict weak order, and the comparator of every configuration is
    -- one, then after any calls on a fresh sorter the counter counts the delivered entries, the
    -- window is within its size, fewer entries wait than a batch has, the comparator in use is a
    -- strict weak order, and what is delivered, in the window or waiting is a rearrangement of all
    -- that the calls put in.
    pub run-Keeps :
        (config : SlidingWindowConfig T) (calls : List (Call T))
        → IsStrictWeakOrder config.comparator
        → All Orders calls
        → Keeps (new_sorter config) (inputs calls) (run calls (new_sorter config))
    run-Keeps config calls order k =
        calls-Keeps calls (new_sorter config) k (new_sorter-IsTidy config order)

    -- If `std::sort` sorts by a strict weak order, and the comparator of every configuration is
    -- one, then after any calls on a fresh sorter a flush leaves nothing behind: the window and the
    -- new entries are empty, the consumer has been given a rearrangement of all that was put in,
    -- and the counter is the number of entries put in.
    pub flush-run-delivered :
        (config : SlidingWindowConfig T) (calls : List (Call T))
        → IsStrictWeakOrder config.comparator
        → All Orders calls
        → let s = flush std_sort has_room (run calls (new_sorter config)) in
          (s.sorted_window ≡ [])
          × (s.new_entries ≡ [])
          × Perm (delivered s) (inputs calls)
          × (s.total_processed ≡ length (inputs calls))
    unfolding flatten
    flush-run-delivered config calls order k =
        let s = run calls (new_sorter config) in
        let (tidy, kept) = run-Keeps config calls order k in
        let (flushed, no_window, no_new, counted, _) =
          flush-Flushes std_sort has_room sorts s tidy.order in
        let all = delivered_all (flush std_sort has_room s) no_window no_new in
        let perm = subst (λ l. Perm l (inputs calls)) all (Perm.trans flushed kept) in
        (
          no_window,
          no_new,
          perm,
          (flush-Keeps std_sort has_room sorts s tidy).0.counted ∙ Perm-length perm,
        )
      where
        delivered_all :
            (t : SlidingWindowSorter T)
            → t.sorted_window ≡ []
            → t.new_entries ≡ []
            → held t ≡ delivered t
        delivered_all t no_window no_new = rw (no_window, no_new, append-nil (delivered t))
