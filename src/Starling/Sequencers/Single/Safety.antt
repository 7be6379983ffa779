-- ===== src/Starling/Sequencers/Single/Safety.antt =====
-- One producer and one consumer: the invariant, and that each operation keeps it.
use menagerie.Prelude.{
  ℕ, ◌≤◌, ◌≡◌, refl, sym, ap, subst, ◌∙◌, inl, inr, true, false, Option, none, some, List,
  Bool-cases, Option-cases, All, some-injective, map-eq-some,
}
use mathlib.Core.Option
use menagerie.Prelude.Int.{ℤ, pos, negsuc, ◌+ℤ◌, ◌-ℤ◌, ◌≤ℤ◌, ltb_ℤ, ltb_ℤ-eq-false, int_laws}
use menagerie.Starling.Sequencers.{int64_max, spin}
use menagerie.Starling.Sequencers.Single.{
  SingleProducerSequencer, capacity_limit, wait_for_capacity, next, next_batch, try_next, publish,
  consume,
}
use menagerie.Starling.Sequencers.Single.Bounds.{capacity_limit-le, le-capacity_limit, spin-some}

-- Positions that the producer may have read: the consumer only advances.
abbrev pub AreReads : SingleProducerSequencer → List ℤ → Type 0
AreReads s reads = All (λ c. (negsuc 0 ≤ℤ c) × (c ≤ℤ s.consumed_sequence)) reads

pub record IsSafe (s : SingleProducerSequencer) : Type 0 where
  pub has_slot : 1 ≤ s.capacity
  pub fits : s.capacity ≤ int64_max
  pub started : negsuc 0 ≤ℤ s.consumed_sequence
  pub read : s.consumed_sequence ≤ℤ s.published_sequence
  pub written : s.published_sequence ≤ℤ s.claimed_sequence
  pub representable : s.claimed_sequence ≤ℤ pos int64_max
  pub claimed : s.claimed_sequence ≤ℤ s.consumed_sequence +ℤ pos s.capacity
  pub cached : s.cached_capacity_limit ≤ℤ s.consumed_sequence +ℤ pos s.capacity

-- A wait that ends has found room, and changed nothing but the cached limit.
record Admits (sequence : ℤ) (s t : SingleProducerSequencer) : Type 0 where
  same : t ≡ record s { cached_capacity_limit = t.cached_capacity_limit }
  room : sequence ≤ℤ s.consumed_sequence +ℤ pos s.capacity
  limit : t.cached_capacity_limit ≤ℤ s.consumed_sequence +ℤ pos s.capacity
  admitted : sequence ≤ℤ t.cached_capacity_limit

abbrev waited : (s : SingleProducerSequencer) → ℤ → SingleProducerSequencer
waited s consumed = record s { cached_capacity_limit = capacity_limit consumed s.capacity }

pub wait_for_capacity_cached :
    (reads : List ℤ) (sequence : ℤ) (s : SingleProducerSequencer)
    → ltb_ℤ s.cached_capacity_limit sequence ≡ false
    → wait_for_capacity reads sequence s ≡ some s
unfolding wait_for_capacity
wait_for_capacity_cached reads sequence s e = rw e

pub wait_for_capacity_spins :
    (reads : List ℤ) (sequence : ℤ) (s : SingleProducerSequencer) (o : Option ℤ)
    → ltb_ℤ s.cached_capacity_limit sequence ≡ true
    → spin (sequence -ℤ pos s.capacity) reads ≡ o
    → wait_for_capacity reads sequence s ≡ Option.map (waited s) o
unfolding wait_for_capacity
wait_for_capacity_spins reads sequence s o e f = rw (e, f)

wait_for_capacity-Admits :
    (reads : List ℤ) (sequence : ℤ) (s t : SingleProducerSequencer)
    → IsSafe s
    → AreReads s reads
    → sequence ≤ℤ pos int64_max
    → wait_for_capacity reads sequence s ≡ some t
    → Admits sequence s t
wait_for_capacity-Admits reads sequence s t safe h m e =
    elim (Bool-cases (ltb_ℤ s.cached_capacity_limit sequence)) [
      | inr n ↦ subst (Admits sequence s) (found n) (record {
        same = refl;
        room = omega (int_laws, safe.cached, ltb_ℤ-eq-false s.cached_capacity_limit sequence n);
        limit = safe.cached;
        admitted = ltb_ℤ-eq-false s.cached_capacity_limit sequence n;
      })
      | inl y ↦ elim (Option-cases (spin (sequence -ℤ pos s.capacity) reads)) [
        | inl stuck ↦
            let never = sym (wait_for_capacity_spins reads sequence s none y stuck) ∙ e in cc
        | inr (consumed, got) ↦
            let there = sym (wait_for_capacity_spins reads sequence s (some consumed) y got) ∙ e in
            let ((lo, hi), gap) =
              spin-some (λ c. (negsuc 0 ≤ℤ c) × (c ≤ℤ s.consumed_sequence))
                (sequence -ℤ pos s.capacity) reads consumed h got in
            subst (Admits sequence s) (some-injective there) (admits consumed lo hi gap)
      ]
    ]
  where
    found : ltb_ℤ s.cached_capacity_limit sequence ≡ false → s ≡ t
    found n = some-injective (sym (wait_for_capacity_cached reads sequence s n) ∙ e)

    admits :
        (consumed : ℤ)
        → negsuc 0 ≤ℤ consumed
        → consumed ≤ℤ s.consumed_sequence
        → sequence -ℤ pos s.capacity ≤ℤ consumed
        → Admits sequence s (waited s consumed)
    admits consumed lo hi gap =
        let top : consumed ≤ℤ pos int64_max =
          omega (int_laws, hi, safe.read, safe.written, safe.representable) in
        record {
          same = refl;
          room = omega (int_laws, gap, hi);
          limit = omega (
            int_laws,
            hi,
            capacity_limit-le consumed s.capacity (lo, top) safe.has_slot safe.fits,
          );
          admitted =
              le-capacity_limit sequence consumed s.capacity (lo, top) safe.has_slot safe.fits m
                (omega (int_laws, gap));
        }

-- A claim that ends.
claim-IsSafe :
    (sequence : ℤ) (s t : SingleProducerSequencer)
    → IsSafe s
    → Admits sequence s t
    → s.claimed_sequence ≤ℤ sequence
    → sequence ≤ℤ pos int64_max
    → IsSafe (record t { claimed_sequence = sequence })
claim-IsSafe sequence s t safe a up m =
    subst (λ r. IsSafe (record r { claimed_sequence = sequence })) (sym a.same)
      (record {
        has_slot = safe.has_slot;
        fits = safe.fits;
        started = safe.started;
        read = safe.read;
        written = omega (int_laws, safe.written, up);
        representable = m;
        claimed = a.room;
        cached = a.limit;
      })

pub next-IsSafe :
    (reads : List ℤ) (sequence : ℤ) (s s' : SingleProducerSequencer)
    → IsSafe s
    → AreReads s reads
    → s.claimed_sequence +ℤ pos 1 ≤ℤ pos int64_max
    → next reads s ≡ some (sequence, s')
    → IsSafe s'
unfolding next
next-IsSafe reads sequence s s' safe h m e =
    let claim = s.claimed_sequence +ℤ pos 1 in
    let (t, waits, done) =
      map-eq-some (λ t. (claim, record t { claimed_sequence = claim }))
        (wait_for_capacity reads claim s) (sequence, s') e in
    subst IsSafe (ap (λ r. r.1) done) (
      claim-IsSafe claim s t safe (wait_for_capacity-Admits reads claim s t safe h m waits)
        (omega int_laws) m)

pub next_batch-IsSafe :
    (reads : List ℤ) (count : ℕ) (first : ℤ) (s s' : SingleProducerSequencer)
    → IsSafe s
    → AreReads s reads
    → s.claimed_sequence +ℤ pos count ≤ℤ pos int64_max
    → next_batch reads (pos count) s ≡ some (first, s')
    → IsSafe s'
unfolding next_batch
next_batch-IsSafe reads count first s s' safe h m e =
    let claim = s.claimed_sequence +ℤ pos count in
    let (t, waits, done) =
      map-eq-some (λ t. (s.claimed_sequence +ℤ pos 1, record t { claimed_sequence = claim }))
        (wait_for_capacity reads claim s) (first, s') e in
    subst IsSafe (ap (λ r. r.1) done) (
      claim-IsSafe claim s t safe (wait_for_capacity-Admits reads claim s t safe h m waits)
        (omega int_laws) m)

pub try_next-IsSafe :
    (s : SingleProducerSequencer)
    → IsSafe s
    → s.claimed_sequence +ℤ pos 1 ≤ℤ pos int64_max
    → IsSafe (try_next s).1
unfolding try_next
try_next-IsSafe s safe m =
    let claim = s.claimed_sequence +ℤ pos 1 in
    elim (Bool-cases (ltb_ℤ s.consumed_sequence (claim -ℤ pos s.capacity))) [
      | inl y ↦ rw y safe
      | inr n ↦ rw n (record {
        has_slot = safe.has_slot;
        fits = safe.fits;
        started = safe.started;
        read = safe.read;
        written = omega (int_laws, safe.written);
        representable = m;
        claimed = omega (int_laws, ltb_ℤ-eq-false s.consumed_sequence (claim -ℤ pos s.capacity) n);
        cached = safe.cached;
      })
    ]

pub publish-IsSafe :
    (s : SingleProducerSequencer) (sequence : ℤ)
    → IsSafe s
    → s.published_sequence ≤ℤ sequence
    → sequence ≤ℤ s.claimed_sequence
    → IsSafe (publish sequence s)
publish-IsSafe s sequence safe up m = record {
  has_slot = safe.has_slot;
  fits = safe.fits;
  started = safe.started;
  read = omega (int_laws, safe.read, up);
  written = m;
  representable = safe.representable;
  claimed = safe.claimed;
  cached = safe.cached;
}

pub consume-IsSafe :
    (s : SingleProducerSequencer) (sequence : ℤ)
    → IsSafe s
    → s.consumed_sequence ≤ℤ sequence
    → sequence ≤ℤ s.published_sequence
    → IsSafe (consume sequence s)
consume-IsSafe s sequence safe up m = record {
  has_slot = safe.has_slot;
  fits = safe.fits;
  started = omega (int_laws, safe.started, up);
  read = m;
  written = safe.written;
  representable = safe.representable;
  claimed = omega (int_laws, safe.claimed, up);
  cached = omega (int_laws, safe.cached, up);
}
