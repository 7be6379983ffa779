-- ===== src/Http/Paths/Normalizing.antt =====
-- The two normalisations, at registration and at lookup.
use menagerie.Prelude.{
  ℕ, ◌≤◌, ◌≡◌, refl, sym, ap, ◌∙◌, ◌≢◌, inl, inr, Bool, true, false, ◌&&◌, ◌||◌, [], ◌∷◌, ◌++◌,
  arith, ◌==◌, Bool-cases, length, length-append, Bytes, pop_back, pop_back-append-last,
  last?-append-last,
}
use menagerie.Http.Paths.{
  slash, ends_in_slash, starts_with_slash, PathNormalization, keep, collapse_trailing_slash,
  collapse_multi_slash, collapse, strip_one, has_double_slash, normalize_owned, normalize_lookup,
}

collapse_of_single :
    (prev : Bool) (s : Bytes)
    → has_double_slash s ≡ false
    → (prev && starts_with_slash s) ≡ false
    → collapse prev s ≡ s
unfolding collapse
collapse_of_single prev [] h k = refl
collapse_of_single prev (c ∷ []) h k = ground arith
collapse_of_single prev (c ∷ d ∷ s) h k = ground (arith, collapse_of_single (c == slash) (d ∷ s))

-- Registration and lookup bring a path to the same form, under each policy.
pub normalize_owned-eq-normalize_lookup :
    (norm : PathNormalization) (path : Bytes)
    → normalize_owned norm path ≡ normalize_lookup norm path
unfolding normalize_owned normalize_lookup
normalize_owned-eq-normalize_lookup keep path = refl
normalize_owned-eq-normalize_lookup collapse_trailing_slash path = refl
normalize_owned-eq-normalize_lookup collapse_multi_slash path =
    elim (Bool-cases (has_double_slash path)) [
      | inl y ↦ rw y
      | inr n ↦ rw (n, collapse_of_single false path n refl)
    ]

starts-collapse : (s : Bytes) → starts_with_slash (collapse true s) ≡ false
unfolding collapse
starts-collapse [] = refl
starts-collapse (c ∷ s) = ground (arith, starts-collapse s)

has_double_slash-cons :
    (c : ℕ) (s : Bytes)
    → has_double_slash (c ∷ s) ≡ (c == slash && starts_with_slash s || has_double_slash s)
has_double_slash-cons c [] = ground arith
has_double_slash-cons c (d ∷ s) = refl

has_double_slash-collapse : (prev : Bool) (s : Bytes) → has_double_slash (collapse prev s) ≡ false
unfolding collapse
has_double_slash-collapse prev [] = refl
has_double_slash-collapse prev (c ∷ s) = ground (
  arith,
  has_double_slash-collapse prev s,
  has_double_slash-collapse (c == slash) s,
  has_double_slash-cons c (collapse (c == slash) s),
  starts-collapse s,
)

has_double_slash-pop_back :
    (s : Bytes) → has_double_slash s ≡ false → has_double_slash (pop_back s) ≡ false
has_double_slash-pop_back [] h = refl
has_double_slash-pop_back (c ∷ []) h = refl
has_double_slash-pop_back (c ∷ d ∷ []) h = refl
has_double_slash-pop_back (c ∷ d ∷ e ∷ s) h = ground (arith, has_double_slash-pop_back (d ∷ e ∷ s))

pop_back_ends :
    (s : Bytes)
    → has_double_slash s ≡ false
    → ends_in_slash s ≡ true
    → ends_in_slash (pop_back s) ≡ false
pop_back_ends [] h k = cc
pop_back_ends (c ∷ []) h k = refl
pop_back_ends (c ∷ d ∷ []) h k = ground arith
pop_back_ends (c ∷ d ∷ e ∷ s) h k = pop_back_ends (d ∷ e ∷ s) (ground arith) k

-- A canonical path has no "//", and ends in '/' only if it is no longer than one byte.
abbrev pub IsCanonical : Bytes → Type 0
IsCanonical s = (has_double_slash s ≡ false) × ((ends_in_slash s ≡ true) → length s ≤ 1)

strip_one-IsCanonical : (s : Bytes) → has_double_slash s ≡ false → IsCanonical (strip_one s)
strip_one-IsCanonical s h =
    (ground (arith, has_double_slash-pop_back s), λ e. ground (arith, pop_back_ends s))

strip_one_of_IsCanonical : (s : Bytes) → IsCanonical s → strip_one s ≡ s
strip_one_of_IsCanonical s (h, k) = elim (Bool-cases (ends_in_slash s)) [
  | inl y ↦ ground (arith, k y)
  | inr n ↦ ground arith
]

-- Under `collapse_multi_slash` every registered path is canonical, a canonical path is left as it
-- is, and so a second normalisation changes nothing.
pub normalize_owned-IsCanonical :
    (path : Bytes)
    → let normal = normalize_owned collapse_multi_slash path in
      IsCanonical normal
      × (IsCanonical path → normal ≡ path)
      × (normalize_owned collapse_multi_slash normal ≡ normal)
unfolding normalize_owned
normalize_owned-IsCanonical path =
    let canonical =
      strip_one-IsCanonical (collapse false path) (has_double_slash-collapse false path) in
    (canonical, fixed path, fixed _ canonical)
  where
    fixed : (s : Bytes) → IsCanonical s → strip_one (collapse false s) ≡ s
    fixed s h = rw (collapse_of_single false s h.0 refl) (strip_one_of_IsCanonical s h)

ends_in_slash-append : (s : Bytes) → ends_in_slash (s ++ slash ∷ []) ≡ true
ends_in_slash-append s = rw (last?-append-last s slash, ends_in_slash)

strip_one-append : (s : Bytes) → s ≢ [] → strip_one (s ++ slash ∷ []) ≡ s
strip_one-append [] h = absurd (h refl)
strip_one-append (c ∷ s) h = ground (
  arith,
  ends_in_slash-append (c ∷ s),
  pop_back-append-last (c ∷ s) slash,
  length-append s (slash ∷ []),
)

collapse-append :
    (prev : Bool) (s : Bytes)
    → s ≢ []
    → ends_in_slash s ≡ false
    → collapse prev (s ++ slash ∷ []) ≡ collapse prev s ++ slash ∷ []
unfolding collapse
collapse-append prev [] h k = absurd (h refl)
collapse-append prev (c ∷ []) h k = ground arith
collapse-append prev (c ∷ d ∷ s) h k =
    ground (arith, collapse-append prev (d ∷ s), collapse-append (c == slash) (d ∷ s))

ends_in_slash-cons : (c : ℕ) (s : Bytes) → s ≢ [] → ends_in_slash (c ∷ s) ≡ ends_in_slash s
ends_in_slash-cons c [] h = absurd (h refl)
ends_in_slash-cons c (d ∷ s) h = refl

-- What `collapse` leaves of a path that does not end in a slash.
collapse_end :
    (prev : Bool) (s : Bytes)
    → s ≢ []
    → ends_in_slash s ≡ false
    → (collapse prev s ≢ []) × (ends_in_slash (collapse prev s) ≡ false)
unfolding collapse
collapse_end prev [] h k = absurd (h refl)
collapse_end prev (c ∷ []) h k = (ground arith, ground arith)
collapse_end prev (c ∷ d ∷ s) h k =
    let kept = collapse_end (c == slash) (d ∷ s) (λ e. cc) k in
    let skipped = collapse_end prev (d ∷ s) (λ e. cc) k in
    let e = ends_in_slash-cons c (collapse (c == slash) (d ∷ s)) kept.0 in
    elim (Bool-cases (c == slash && prev)) [
      | inl y ↦ rw (y, collapse) skipped
      | inr n ↦ rw (n, collapse) ((λ q. cc), e ∙ kept.1)
    ]

strip_one_of_kept : (s : Bytes) → ends_in_slash s ≡ false → strip_one s ≡ s
strip_one_of_kept s h = ground arith

-- Under a policy other than `none`, a path and the same path with a slash behind it are looked up
-- as one, where the path is not empty and does not end in a slash itself.
pub normalize_lookup-append :
    (norm : PathNormalization) (path : Bytes)
    → norm ≢ keep
    → path ≢ []
    → ends_in_slash path ≡ false
    → normalize_lookup norm (path ++ slash ∷ []) ≡ normalize_lookup norm path
normalize_lookup-append keep path h p e = absurd (h refl)
normalize_lookup-append collapse_trailing_slash path h p e =
    unfold normalize_lookup in strip_one-append path p ∙ sym (strip_one_of_kept path e)
normalize_lookup-append collapse_multi_slash path h p e =
    let kept = collapse_end false path p e in
    rw
      (
        ← normalize_owned-eq-normalize_lookup collapse_multi_slash (path ++ slash ∷ []),
        ← normalize_owned-eq-normalize_lookup collapse_multi_slash path,
      )
      (unfold normalize_owned in
        ap strip_one (collapse-append false path p e)
        ∙ (strip_one-append (collapse false path) kept.0 ∙ sym (strip_one_of_kept _ kept.1)))
