-- ===== src/Starling/Pool/Handoff.antt =====
-- Handing slots over to the waiters, under the mutex.
use menagerie.Prelude.{
  ℕ, zero, suc, ◌-◌, ◌≤◌, ◌≡◌, refl, sym, ap, subst, ◌∙◌, ◌⊎◌, inl, inr, Bool, true, false, ◌||◌,
  Option, none, some, List, [], ◌∷◌, arith, ◌==◌, Bool-cases, length, is_empty,
}
use menagerie.Prelude.{if-elim}
use menagerie.Starling.Pool.{
  Waiter, WaiterState, assigned, timeout, Pool, claim_idle, publish_idle, complete_front, past,
  handoff_to, handoff_or_publish_locked, served, serve_waiters,
}
use menagerie.Starling.Pool.Operations.{count_bits}
use menagerie.Starling.Pool.Moves.{
  claim_idle-some, complete_front-IsValid, claim_idle-bit, claim_idle-take, claim_idle-none,
}
use menagerie.Starling.Pool.Ownership.{
  assigned_to, Held, assignments-append, publish_idle-Held, quarantine_borrowed-Held, take_bit-Held,
}

pub complete_front-Held :
    {bs rs : List ℕ} (p : Pool) (w : Waiter) (ws : List Waiter) (state : WaiterState)
    → ((j : ℕ) → assigned_to j state ≡ 0)
    → p.waiters ≡ w ∷ ws
    → Held bs rs p
    → Held bs rs (complete_front w ws state p)
complete_front-Held p w ws state unassigned front h = record {
  valid = complete_front-IsValid p w ws state h.valid front;
  borrows = λ j.
      omega
        (arith, h.borrows j, unassigned j, assignments-append j p.completed ((w.id, state) ∷ []));
  reserves = h.reserves;
}

assign_front-Held :
    {bs rs : List ℕ} (i : ℕ) (p : Pool) (w : Waiter) (ws : List Waiter)
    → p.waiters ≡ w ∷ ws
    → Held (i ∷ bs) rs p
    → Held bs rs (complete_front w ws (assigned i) p)
assign_front-Held i p w ws front h = record {
  valid = complete_front-IsValid p w ws (assigned i) h.valid front;
  borrows =
      λ j. omega (arith, h.borrows j, assignments-append j p.completed ((w.id, assigned i) ∷ []));
  reserves = h.reserves;
}

handoff_to-Held :
    {bs rs : List ℕ} (now : Waiter → ℕ) (i : ℕ) (ws : List Waiter) (p : Pool)
    → p.waiters ≡ ws
    → Held (i ∷ bs) rs p
    → Held bs rs (handoff_to now i ws p)
unfolding handoff_to
handoff_to-Held now i [] p front h = publish_idle-Held i p h
handoff_to-Held {bs} {rs} now i (w ∷ ws) p front h =
    if-elim (Held bs rs) (past (now w) w.deadline)
      (λ y.
        handoff_to-Held now i ws (complete_front w ws timeout p) refl
          (complete_front-Held p w ws timeout (λ j. refl) front h))
      (λ n. assign_front-Held i p w ws front h)

-- The caller's slot goes to a waiter, to the idle ones or to quarantine, and no other changes hands.
pub handoff_or_publish_locked-Held :
    {bs rs : List ℕ} (now : Waiter → ℕ) (i : ℕ) (p : Pool)
    → Held (i ∷ bs) rs p
    → Held bs rs (handoff_or_publish_locked now i p)
unfolding handoff_or_publish_locked
handoff_or_publish_locked-Held {bs} {rs} now i p h =
    if-elim (Held bs rs) p.closed (λ y. quarantine_borrowed-Held i p h)
      (λ n. handoff_to-Held now i p.waiters p refl h)

pub claim_idle-Held :
    {bs rs : List ℕ} (i : ℕ) (p q : Pool)
    → Held bs rs p
    → claim_idle p ≡ some (i, q)
    → Held (i ∷ bs) rs q
claim_idle-Held {bs} {rs} i p q h e =
    let (same, owns) = claim_idle-some p q i h.valid e in
    subst (Held (i ∷ bs) rs) (sym same) (take_bit-Held i p (claim_idle-bit p q i e) h)

-- What holds of the pool, and of what each claim leads to.
served-elim :
    (P : Pool → Type 0) (f : ℕ → Pool → Pool) (p : Pool) (o : Option (ℕ × Pool))
    → (o ≡ none → P p)
    → ((i : ℕ) (q : Pool) → o ≡ some (i, q) → P (f i q))
    → P (served f p o)
served-elim P f p none no_slot slot = no_slot refl
served-elim P f p (some (i, q)) no_slot slot = slot i q refl

pub serve_waiters-Held :
    {bs rs : List ℕ} (now : Waiter → ℕ) (fuel : ℕ) (p : Pool)
    → Held bs rs p
    → Held bs rs (serve_waiters now fuel p)
unfolding serve_waiters
serve_waiters-Held now zero p h = h
serve_waiters-Held {bs} {rs} now (suc fuel) p h =
    if-elim (Held bs rs) (p.closed || is_empty p.waiters) (λ y. h)
      (λ n.
        served-elim (Held bs rs) (λ i q. serve_waiters now fuel (handoff_or_publish_locked now i q))
          p (claim_idle p) (λ e. h)
          (λ i q e.
            serve_waiters-Held now fuel (handoff_or_publish_locked now i q)
              (handoff_or_publish_locked-Held now i q (claim_idle-Held i p q h e))))

-- No idle slot while someone waits, in a pool that is open.
unfoldable pub quiet : Pool → Bool
quiet p = p.closed || is_empty p.waiters || count_bits p.idle_bits == 0

abbrev pub Quiet : Pool → Type 0
Quiet p = quiet p ≡ true

-- At most so many wait, and the pool is as open as it was.
abbrev Shortens : ℕ → Bool → Pool → Type 0
Shortens n c q = (length q.waiters ≤ n) × (q.closed ≡ c)

handoff_to-Shortens :
    (now : Waiter → ℕ) (i : ℕ) (ws : List Waiter) (p : Pool)
    → p.waiters ≡ ws
    → Shortens (length ws - 1) p.closed (handoff_to now i ws p)
unfolding handoff_to publish_idle
handoff_to-Shortens now i [] p front =
    let none_wait : length p.waiters ≡ 0 = ap length front in (omega (arith, none_wait), refl)
handoff_to-Shortens now i (w ∷ ws) p front =
    if-elim (Shortens (length (w ∷ ws) - 1) p.closed) (past (now w) w.deadline)
      (λ y.
        let fewer = handoff_to-Shortens now i ws (complete_front w ws timeout p) refl in
        (omega (arith, fewer.0), fewer.1))
      (λ n. (omega arith, refl))

handoff_or_publish_locked-Shortens :
    (now : Waiter → ℕ) (i : ℕ) (p : Pool)
    → p.closed ≡ false
    → Shortens (length p.waiters - 1) p.closed (handoff_or_publish_locked now i p)
unfolding handoff_or_publish_locked
handoff_or_publish_locked-Shortens now i p o =
    if-elim (Shortens (length p.waiters - 1) p.closed) p.closed (λ y. absurd cc)
      (λ n. handoff_to-Shortens now i p.waiters p refl)

module _ {ℓ} {A : Type ℓ} where
  is_empty-zero : (xs : List A) → length xs ≡ 0 → is_empty xs ≡ true
  is_empty-zero [] e = refl
  is_empty-zero (x ∷ xs) e = absurd (omega (arith, e))

  is_empty-length : (xs : List A) → is_empty xs ≡ true → length xs ≡ 0
  is_empty-length [] e = refl
  is_empty-length (x ∷ xs) e = absurd cc

pub Quiet-closed : (p : Pool) → p.closed ≡ true → Quiet p
unfolding quiet
Quiet-closed p e = ground (arith, e)

pub Quiet-alone : (p : Pool) → length p.waiters ≡ 0 → Quiet p
unfolding quiet
Quiet-alone p e = let h = is_empty-zero p.waiters e in ground (arith, h)

pub Quiet-busy : (p : Pool) → count_bits p.idle_bits ≡ 0 → Quiet p
unfolding quiet
Quiet-busy p e = ground (arith, e)

pub Quiet-cases :
    (p : Pool) → Quiet p → (p.closed ≡ true) ⊎ (length p.waiters ≡ 0) ⊎ (count_bits p.idle_bits ≡ 0)
unfolding quiet
Quiet-cases p h = elim (Bool-cases p.closed) [
  | inl y ↦ inl y
  | inr n ↦ elim (Bool-cases (is_empty p.waiters)) [
    | inl y ↦ inr (inl (is_empty-length p.waiters y))
    | inr m ↦ inr (inr (ground (arith, h, n, m)))
  ]
]

-- A pool with no more waiters and no more idle slots, as open as it was.
pub Quiet-fewer :
    (p q : Pool)
    → Quiet p
    → q.closed ≡ p.closed
    → length q.waiters ≤ length p.waiters
    → count_bits q.idle_bits ≤ count_bits p.idle_bits
    → Quiet q
Quiet-fewer p q h c w b = elim (Quiet-cases p h) [
  | inl y ↦ Quiet-closed q (c ∙ y)
  | inr (inl alone) ↦ Quiet-alone q (omega (arith, w, alone))
  | inr (inr busy) ↦ Quiet-busy q (omega (arith, b, busy))
]

-- With fuel for every waiter, the loop ends with nobody waiting, or with no idle slot.
pub serve_waiters-Quiet :
    (now : Waiter → ℕ) (fuel : ℕ) (p : Pool)
    → length p.waiters ≤ fuel
    → Quiet (serve_waiters now fuel p)
unfolding serve_waiters claim_idle
serve_waiters-Quiet now zero p le = Quiet-alone p (omega (arith, le))
serve_waiters-Quiet now (suc fuel) p le =
    if-elim Quiet (p.closed || is_empty p.waiters)
      (λ y. elim (Bool-cases p.closed) [
        | inl c ↦ Quiet-closed p c
        | inr o ↦ Quiet-alone p (is_empty-length p.waiters (ground (arith, y, o)))
      ])
      (λ n.
        served-elim Quiet (λ i q. serve_waiters now fuel (handoff_or_publish_locked now i q)) p
          (claim_idle p) (λ e. Quiet-busy p (claim_idle-none p e))
          (λ i q e.
            let same = claim_idle-take p q i e in
            let still : p.closed ≡ false = ground (arith, n) in
            let fewer =
              handoff_or_publish_locked-Shortens now i q (ap (λ r. r.closed) same ∙ still) in
            let long = ap (λ r. length r.waiters) same in
            serve_waiters-Quiet now fuel (handoff_or_publish_locked now i q)
              (omega (arith, fewer.0, long, le))))
