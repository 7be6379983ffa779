-- ===== src/Bowerbird.antt =====
-- common/algorithms-bowerbird/sliding_window_sorter/sliding_window_sorter.hpp.
-- What the standard library leaves open is a parameter: the order in which `std::sort` leaves
-- equivalent entries, and whether the window's vector has room for a merge in place. The calls of
-- the consumer are kept as a list. The merge buffer is scratch, empty between two operations, and
-- capacities that are only reserved are left out.
pub mod Merging
pub mod Sorting
pub mod Output
pub mod Conservation
pub mod Histories
pub mod Order
pub mod Fifo
pub mod Tests
use menagerie.Prelude.{
  ℕ, zero, suc, ◌+◌, ◌-◌, ◌*◌, ◌/◌, ◌%◌, ◌^◌, ◌≤◌, ◌<◌, min, max, String, ◌≡◌, refl, sym, ap, subst,
  ◌∙◌, ◌≡⟨◌⟩◌, ◌∎, ◌≢◌, ◌↔◌, ◌⊎◌, inl, inr, Bool, true, false, not, ◌&&◌, ◌||◌, Option, none, some,
  List, [], ◌∷◌, ◌++◌, map, append_assoc, append-nil, arith, ltb, leb, ◌==◌, if◌then◌else◌, ltb→lt,
  lt→ltb, leb→le, ==_iff, ==-eq-false, tests, Bool-cases, Option-cases, and-eq-true, length,
  get_elem?, take, drop, is_empty, any, length-append, take-append-drop, length-take, length-drop,
  All, All-append, All-map, Bytes, bytes, bytes_eq, bytes_eq_refl, bytes_eq_iff, last?, pop_back,
  pop_back-append-last, last?-append-last, is_empty-append, append-eq-nil, Result, ok, err, ◌>>=◌,
  throw_if, Result-cases, throw_if-eq-ok, bind-eq-ok, ok-injective,
}

pub record SlidingWindowConfig (T : Type 0) : Type 0 where
  pub window_size : ℕ
  pub batch_size : ℕ
  pub enable_sorting : Bool
  pub comparator : T → T → Bool
  pub use_inplace_merge : Bool
  pub merge_threshold : ℕ

pub record SlidingWindowSorter (T : Type 0) : Type 0 where
  pub config : SlidingWindowConfig T
  pub sorted_window : List T
  pub new_entries : List T
  pub consumed : List (List T)
  pub total_processed : ℕ
  pub merge_operations : ℕ
  pub sort_operations : ℕ

module _ {T : Type 0} where
  -- `std::upper_bound` in a sorted prefix, and the move that makes room at that place.
  unfoldable pub insert_upper : (T → T → Bool) → T → List T → List T
  insert_upper comp key [] = key ∷ []
  insert_upper comp key (e ∷ es) =
      let rest = e ∷ insert_upper comp key es in if comp key e then key ∷ e ∷ es else rest

  unfoldable pub insertion_sort : (T → T → Bool) → List T → List T → List T
  unfolding insert_upper
  insertion_sort comp sorted [] = sorted
  insertion_sort comp sorted (key ∷ rest) = insertion_sort comp (insert_upper comp key sorted) rest

  -- `std::merge`: stable, the first range first.
  unfoldable pub merge : (T → T → Bool) → List T → List T → List T
  merge comp [] ys = ys
  merge comp (x ∷ xs) [] = x ∷ xs
  merge comp (x ∷ xs) (y ∷ ys) =
      let second = y ∷ merge comp (x ∷ xs) ys in
      let first = x ∷ merge comp xs (y ∷ ys) in if comp y x then second else first

  -- `std::inplace_merge` of the two ranges that meet at `middle`.
  unfoldable pub inplace_merge : (T → T → Bool) → ℕ → List T → List T
  unfolding merge
  inplace_merge comp middle l = merge comp (take middle l) (drop middle l)

  abbrev pub perform_inplace_merge : SlidingWindowSorter T → List T → List T
  perform_inplace_merge s entries =
      inplace_merge s.config.comparator (length s.sorted_window) (s.sorted_window ++ entries)

  abbrev pub perform_standard_merge : SlidingWindowSorter T → List T → List T
  perform_standard_merge s entries = merge s.config.comparator s.sorted_window entries

  unfoldable pub calculate_output_count : SlidingWindowSorter T → ℕ
  calculate_output_count s =
      if ltb (length s.sorted_window) s.config.window_size
      then 0
      else max (length s.sorted_window - s.config.window_size) s.config.batch_size

  unfoldable pub output_entries : ℕ → SlidingWindowSorter T → SlidingWindowSorter T
  output_entries count s = if count == 0 || is_empty s.sorted_window then s else record s {
    sorted_window = drop (min count (length s.sorted_window)) s.sorted_window;
    consumed = s.consumed ++ take (min count (length s.sorted_window)) s.sorted_window ∷ [];
    total_processed =
        s.total_processed + length (take (min count (length s.sorted_window)) s.sorted_window);
  }

  unfoldable pub maintain_window_size : SlidingWindowSorter T → SlidingWindowSorter T
  maintain_window_size s =
      if ltb s.config.window_size (length s.sorted_window)
      then record s {
        sorted_window = drop (length s.sorted_window - s.config.window_size) s.sorted_window;
      }
      else s

  abbrev pub should_process : SlidingWindowSorter T → Bool
  should_process s = leb s.config.batch_size (length s.new_entries)

  -- `enable_sorting` unset: the new entries go behind the window as they came.
  abbrev pub append_new : SlidingWindowSorter T → SlidingWindowSorter T
  append_new s = record s { sorted_window = s.sorted_window ++ s.new_entries; new_entries = [] }

  abbrev pub output_count : Bool → SlidingWindowSorter T → ℕ
  output_count force_all s = if force_all then length s.sorted_window else calculate_output_count s

  abbrev pub deliver : Bool → SlidingWindowSorter T → SlidingWindowSorter T
  deliver force_all s =
      if ltb 0 (output_count force_all s) then output_entries (output_count force_all s) s else s

module _ {T : Type 0} (std_sort : (T → T → Bool) → List T → List T)
    (has_room : SlidingWindowSorter T → Bool) where
  abbrev pub sort_new : SlidingWindowSorter T → List T
  sort_new s =
      if leb (length s.new_entries) s.config.merge_threshold
      then insertion_sort s.config.comparator [] s.new_entries
      else std_sort s.config.comparator s.new_entries

  abbrev pub merge_with_window : SlidingWindowSorter T → List T → List T
  merge_with_window s entries =
      if s.config.use_inplace_merge && has_room s
      then perform_inplace_merge s entries
      else perform_standard_merge s entries

  unfoldable pub sort_and_merge : SlidingWindowSorter T → SlidingWindowSorter T
  unfolding insertion_sort inplace_merge
  sort_and_merge s =
      if is_empty s.new_entries
      then s
      else if is_empty s.sorted_window
      then record s {
        sorted_window = sort_new s;
        new_entries = [];
        sort_operations = s.sort_operations + 1;
      }
      else record s {
        sorted_window = merge_with_window s (sort_new s);
        new_entries = [];
        sort_operations = s.sort_operations + 1;
        merge_operations = s.merge_operations + 1;
      }

  abbrev pub take_in : SlidingWindowSorter T → SlidingWindowSorter T
  take_in s = if s.config.enable_sorting then sort_and_merge s else append_new s

  unfoldable pub process_batch : Bool → SlidingWindowSorter T → SlidingWindowSorter T
  unfolding sort_and_merge calculate_output_count output_entries maintain_window_size
  process_batch force_all s =
      if is_empty s.new_entries && is_empty s.sorted_window
      then s
      else maintain_window_size (deliver force_all (take_in s))

  abbrev pub process_if_due : SlidingWindowSorter T → SlidingWindowSorter T
  process_if_due s = if should_process s then process_batch false s else s

  unfoldable pub add_entries : List T → SlidingWindowSorter T → SlidingWindowSorter T
  add_entries entries s =
      if is_empty entries
      then s
      else process_if_due (record s { new_entries = s.new_entries ++ entries })

  unfoldable pub add_entry : T → SlidingWindowSorter T → SlidingWindowSorter T
  add_entry entry s = process_if_due (record s { new_entries = s.new_entries ++ entry ∷ [] })

  unfoldable pub flush : SlidingWindowSorter T → SlidingWindowSorter T
  flush s =
      if not (is_empty s.new_entries) || not (is_empty s.sorted_window)
      then process_batch true s
      else s

  unfoldable pub reconfigure : SlidingWindowConfig T → SlidingWindowSorter T → SlidingWindowSorter T
  reconfigure new_config s = record (flush s) { config = new_config }
