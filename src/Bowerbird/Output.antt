-- ===== src/Bowerbird/Output.antt =====
-- Handing entries to the consumer: what `deliver` and `maintain_window_size` do to a state.
use menagerie.Prelude.{
  ℕ, ◌+◌, ◌-◌, ◌≤◌, min, ◌≡◌, refl, sym, inl, inr, Bool, true, false, ◌||◌, List, [], ◌∷◌, ◌++◌,
  append_assoc, append-nil, arith, ltb, ◌==◌, Bool-cases, length, take, drop, is_empty,
  length-append, take-append-drop, length-drop,
}
use mathlib.Core.List.{flatten}
use menagerie.Bowerbird.{
  SlidingWindowSorter, calculate_output_count, output_entries, maintain_window_size, output_count,
  deliver,
}

flatten_snoc {ℓ} :
    {A : Type ℓ} (xs : List (List A)) (y : List A) → flatten (xs ++ y ∷ []) ≡ flatten xs ++ y
unfolding flatten
flatten_snoc [] y = append-nil y
flatten_snoc (x ∷ xs) y = rw (flatten_snoc xs y) (sym (append_assoc x (flatten xs) y))

module _ {T : Type 0} where
  -- All that the consumer was given, in the order in which it was.
  abbrev pub delivered : SlidingWindowSorter T → List T
  delivered s = flatten s.consumed

  abbrev pub count_of : ℕ → SlidingWindowSorter T → ℕ
  count_of count s = min count (length s.sorted_window)

  pub output_entries_none :
      (count : ℕ) (s : SlidingWindowSorter T)
      → (count == 0 || is_empty s.sorted_window) ≡ true
      → output_entries count s ≡ s
  unfolding output_entries
  output_entries_none count s e = rw e

  pub output_entries_some :
      (count : ℕ) (s : SlidingWindowSorter T)
      → (count == 0 || is_empty s.sorted_window) ≡ false
      → output_entries count s ≡ record s {
        sorted_window = drop (count_of count s) s.sorted_window;
        consumed = s.consumed ++ take (count_of count s) s.sorted_window ∷ [];
        total_processed = s.total_processed + length (take (count_of count s) s.sorted_window);
      }
  unfolding output_entries
  output_entries_some count s e = rw e

  -- What is handed over leaves the window from its front.
  pub record Hands (s s' : SlidingWindowSorter T) : Type 0 where
    pub config : s'.config ≡ s.config
    pub new_entries : s'.new_entries ≡ s.new_entries
    pub kept : delivered s' ++ s'.sorted_window ≡ delivered s ++ s.sorted_window
    pub counted :
        s'.total_processed + length (delivered s) ≡ s.total_processed + length (delivered s')

  pub Hands-refl : (s : SlidingWindowSorter T) → Hands s s
  Hands-refl s = record { config = refl; new_entries = refl; kept = refl; counted = refl }

  output_entries-Hands : (count : ℕ) (s : SlidingWindowSorter T) → Hands s (output_entries count s)
  output_entries-Hands count s = elim (Bool-cases (count == 0 || is_empty s.sorted_window)) [
    | inl e ↦ rw (output_entries_none count s e) (Hands-refl s)
    | inr e ↦ rw (output_entries_some count s e) (record {
      config = refl;
      new_entries = refl;
      kept = rw (
        flatten_snoc s.consumed (take (count_of count s) s.sorted_window),
        append_assoc (delivered s) (take (count_of count s) s.sorted_window)
            (drop (count_of count s) s.sorted_window),
        take-append-drop (count_of count s) s.sorted_window,
      );
      counted =
          rw (flatten_snoc s.consumed (take (count_of count s) s.sorted_window))
            (omega (arith, length-append (delivered s) (take (count_of count s) s.sorted_window)));
    })
  ]

  pub deliver-Hands : (force_all : Bool) (s : SlidingWindowSorter T) → Hands s (deliver force_all s)
  deliver-Hands force_all s = elim (Bool-cases (ltb 0 (output_count force_all s))) [
    | inl y ↦ rw y (output_entries-Hands (output_count force_all s) s)
    | inr n ↦ rw n (Hands-refl s)
  ]

  length-output_entries :
      (count : ℕ) (s : SlidingWindowSorter T)
      → length (output_entries count s).sorted_window ≡ length s.sorted_window - count
  length-output_entries count s = elim (Bool-cases (count == 0 || is_empty s.sorted_window)) [
    | inl e ↦ rw (output_entries_none count s e) (ground (arith, is_empty-length s.sorted_window))
    | inr e ↦
        rw (output_entries_some count s e)
          (omega (arith, length-drop (count_of count s) s.sorted_window))
  ]
    where
      is_empty-length : (l : List T) → is_empty l ≡ true → length l ≡ 0
      is_empty-length [] h = refl
      is_empty-length (x ∷ l) h = cc

  pub length-deliver :
      (force_all : Bool) (s : SlidingWindowSorter T)
      → length (deliver force_all s).sorted_window
        ≡ length s.sorted_window - output_count force_all s
  length-deliver force_all s = elim (Bool-cases (ltb 0 (output_count force_all s))) [
    | inl y ↦ rw y (length-output_entries (output_count force_all s) s)
    | inr n ↦ rw n (ground arith)
  ]

  -- After a delivery the window is within its size, and after a forced one it is empty.
  pub length-deliver-le :
      (force_all : Bool) (s : SlidingWindowSorter T)
      → length (deliver force_all s).sorted_window ≤ s.config.window_size
  unfolding calculate_output_count
  length-deliver-le true s = omega (arith, length-deliver true s)
  length-deliver-le false s = rw (length-deliver false s) (ground arith)

  pub maintain_window_size_idle :
      (s : SlidingWindowSorter T)
      → length s.sorted_window ≤ s.config.window_size
      → maintain_window_size s ≡ s
  unfolding maintain_window_size
  maintain_window_size_idle s h = ground arith
