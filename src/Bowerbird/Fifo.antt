-- ===== src/Bowerbird/Fifo.antt =====
-- With sorting disabled: the sorter hands its entries over in the order in which they came.
use menagerie.Prelude.{
  ◌≡◌, refl, sym, ap, subst, ◌∙◌, inl, inr, Bool, true, false, not, ◌&&◌, ◌||◌, List, [], ◌∷◌, ◌++◌,
  append_assoc, append-nil, if◌then◌else◌, Bool-cases, is_empty, All,
}
use menagerie.Bowerbird.{
  SlidingWindowSorter, append_new, deliver, process_batch, process_if_due, should_process,
  add_entries, add_entry, flush, reconfigure,
}
use menagerie.Bowerbird.Sorting.{IsSort}
use menagerie.Bowerbird.Output.{delivered, deliver-Hands}
use menagerie.Bowerbird.Conservation.{
  held, take_in_plain, process_batch_idle, process_batch-eq-deliver,
}
use menagerie.Bowerbird.Conservation.Operations.{held_new}
use menagerie.Bowerbird.Histories.{
  Call, adds, adds_one, flushes, reconfigures, input, inputs, step, run,
}

-- A new configuration does not sort.
abbrev pub Appends : {T : Type 0} → Call T → Type 0
Appends (adds entries) = Unit
Appends (adds_one entry) = Unit
Appends flushes = Unit
Appends (reconfigures config) = config.enable_sorting ≡ false

module _ {T : Type 0} (std_sort : (T → T → Bool) → List T → List T)
    (has_room : SlidingWindowSorter T → Bool) (sorts : IsSort std_sort) where
  -- Sorting stays disabled, and what is held is what was and what came behind it.
  abbrev Queues : SlidingWindowSorter T → List T → SlidingWindowSorter T → Type 0
  Queues s entries s' = (s'.config.enable_sorting ≡ false) × (held s' ≡ held s ++ entries)

  deliver-held :
      (force_all : Bool) (t : SlidingWindowSorter T)
      → t.new_entries ≡ []
      → held (deliver force_all t) ≡ held t
  deliver-held force_all t e =
      let hands = deliver-Hands force_all t in
      ap (λ l. delivered (deliver force_all t) ++ ((deliver force_all t).sorted_window ++ l))
        (hands.new_entries ∙ e)
      ∙ (ap (λ l. delivered (deliver force_all t) ++ l) (append-nil _)
          ∙ (hands.kept
              ∙ (sym (ap (λ l. delivered t ++ l) (append-nil t.sorted_window))
                  ∙ sym (ap (λ l. delivered t ++ (t.sorted_window ++ l)) e))))

  process_batch-Queues :
      (force_all : Bool) (s : SlidingWindowSorter T)
      → s.config.enable_sorting ≡ false
      → Queues s [] (process_batch std_sort has_room force_all s)
  process_batch-Queues force_all s f =
      elim (Bool-cases (is_empty s.new_entries && is_empty s.sorted_window)) [
        | inl e ↦
            rw (process_batch_idle std_sort has_room sorts force_all s e)
              (f, sym (append-nil (held s)))
        | inr e ↦
            rw
              (
                process_batch-eq-deliver std_sort has_room sorts force_all s e,
                take_in_plain std_sort has_room sorts s f,
              )
              (
                ap (λ c. c.enable_sorting) (deliver-Hands force_all (append_new s)).config ∙ f,
                deliver-held force_all (append_new s) refl
                    ∙ (ap (λ l. delivered s ++ l) (append-nil (s.sorted_window ++ s.new_entries))
                        ∙ sym (append-nil (held s))),
              )
      ]

  process_if_due-Queues :
      (s : SlidingWindowSorter T) (entries : List T)
      → s.config.enable_sorting ≡ false
      → Queues s entries
          (process_if_due std_sort has_room (record s { new_entries = s.new_entries ++ entries }))
  process_if_due-Queues s entries f = elim (Bool-cases (should_process t)) [
    | inl y ↦
        let (plain, kept) = process_batch-Queues false t f in
        subst (Queues s entries) (sym (chosen y)) (plain, kept ∙ (append-nil (held t) ∙ came))
    | inr n ↦ subst (Queues s entries) (sym (chosen n)) (f, came)
  ]
    where
      t : SlidingWindowSorter T
      t = record s { new_entries = s.new_entries ++ entries }

      came : held t ≡ held s ++ entries
      came = held_new std_sort has_room sorts s entries

      chosen :
          {b : Bool}
          → should_process t ≡ b
          → process_if_due std_sort has_room t
            ≡ (if b then process_batch std_sort has_room false t else t)
      chosen e = ap (λ c. if c then process_batch std_sort has_room false t else t) e

  flush-Queues :
      (s : SlidingWindowSorter T)
      → s.config.enable_sorting ≡ false
      → Queues s [] (flush std_sort has_room s)
  unfolding flush
  flush-Queues s f =
      elim (Bool-cases (not (is_empty s.new_entries) || not (is_empty s.sorted_window))) [
        | inl y ↦ rw y (process_batch-Queues true s f)
        | inr n ↦ rw n (f, sym (append-nil (held s)))
      ]

  step-Queues :
      (call : Call T) (s : SlidingWindowSorter T)
      → Appends call
      → s.config.enable_sorting ≡ false
      → Queues s (input call) (step std_sort has_room call s)
  unfolding add_entries add_entry reconfigure
  step-Queues (adds []) s k f = (f, sym (append-nil (held s)))
  step-Queues (adds (e ∷ entries)) s k f = process_if_due-Queues s (e ∷ entries) f
  step-Queues (adds_one entry) s k f = process_if_due-Queues s (entry ∷ []) f
  step-Queues flushes s k f = flush-Queues s f
  step-Queues (reconfigures config) s k f = (k, (flush-Queues s f).1)

  -- If `std::sort` sorts, and every configuration in use disables sorting, then after any calls
  -- what the consumer was given, followed by the window and the entries that wait, is what it was
  -- before, followed by all that the calls put in, in the order in which they did.
  pub held-run :
      (calls : List (Call T)) (s : SlidingWindowSorter T)
      → All Appends calls
      → s.config.enable_sorting ≡ false
      → held (run std_sort has_room calls s) ≡ held s ++ inputs calls
  held-run [] s k f = sym (append-nil (held s))
  held-run (call ∷ calls) s (k, ks) f =
      let (plain, kept) = step-Queues call s k f in
      held-run calls (step std_sort has_room call s) ks plain
      ∙ (ap (λ l. l ++ inputs calls) kept ∙ append_assoc (held s) (input call) (inputs calls))
