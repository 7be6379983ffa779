-- ===== src/Http/Paths/Joining.antt =====
-- `join_path` and the nesting of groups.
use menagerie.Prelude.{
  ℕ, zero, suc, ◌-◌, ◌≤◌, ◌≡◌, refl, sym, ap, ◌∙◌, inl, inr, Bool, true, false, ◌&&◌, ◌||◌, [], ◌∷◌,
  ◌++◌, append_assoc, arith, ◌==◌, if◌then◌else◌, is_empty-append, Bool-cases, length, is_empty,
  Bytes, bytes_eq, pop_back,
}
use menagerie.Http.Paths.{slash, ends_in_slash, strip_rounds, strip_slashes, rooted, join_path}

-- What the loop that pops slashes computes.
strip : Bytes → Bytes
strip [] = []
strip (c ∷ s) = let rest = strip s in if is_empty rest && c == slash then [] else c ∷ rest

strip-pop_back : (s : Bytes) → ends_in_slash s ≡ true → strip (pop_back s) ≡ strip s
unfolding strip
strip-pop_back [] h = cc
strip-pop_back (c ∷ []) h = ground arith
strip-pop_back (c ∷ d ∷ s) h = rw (strip-pop_back (d ∷ s) h)

strip_of_kept : (s : Bytes) → ends_in_slash s ≡ false → strip s ≡ s
unfolding strip
strip_of_kept [] h = refl
strip_of_kept (c ∷ []) h = ground arith
strip_of_kept (c ∷ d ∷ s) h = rw (strip_of_kept (d ∷ s) h)

length-pop_back : (s : Bytes) → length (pop_back s) ≡ length s - 1
length-pop_back [] = omega arith
length-pop_back (c ∷ []) = omega arith
length-pop_back (c ∷ d ∷ s) = omega (arith, length-pop_back (d ∷ s))

-- The rounds allowed, one for each byte, are enough.
strip_rounds-eq-strip : (n : ℕ) (s : Bytes) → length s ≤ n → strip_rounds n s ≡ strip s
unfolding strip_rounds
strip_rounds-eq-strip zero [] h = sym (strip_of_kept [] refl)
strip_rounds-eq-strip zero (c ∷ s) h = absurd (omega arith)
strip_rounds-eq-strip (suc n) s h = ground (
  arith,
  strip_rounds-eq-strip n (pop_back s),
  length-pop_back s,
  strip-pop_back s,
  strip_of_kept s,
)

strip_idempotent : (s : Bytes) → strip (strip s) ≡ strip s
unfolding strip
strip_idempotent [] = refl
strip_idempotent (c ∷ s) = ground (arith, strip_idempotent s)

strip-append :
    (x y : Bytes) → strip (x ++ y) ≡ (if is_empty (strip y) then strip x else x ++ strip y)
unfolding strip
strip-append [] y = ground arith
strip-append (c ∷ x) y = ground (arith, strip-append x y, is_empty-append x (strip y))

is_root : Bytes → Bool
is_root path = is_empty path || bytes_eq path (slash ∷ [])

-- A path below a prefix, both without slashes at their ends.
below : Bytes → Bytes → Bytes
below x y = if is_empty y then x else x ++ rooted y

join_path-eq :
    (prefix path : Bytes)
    → join_path prefix path ≡ (
        if is_root path
        then (if is_empty (strip prefix) then slash ∷ [] else strip prefix)
        else strip prefix ++ rooted path)
unfolding join_path is_root strip_slashes
join_path-eq prefix path = rw (strip_rounds-eq-strip (length prefix) prefix (omega arith)) refl

strip-rooted :
    (y : Bytes) → strip (rooted y) ≡ (if is_empty (strip y) then [] else rooted (strip y))
unfolding strip
strip-rooted [] = refl
strip-rooted (c ∷ y) = ground arith

is_root-strip : (y : Bytes) → is_root (strip y) ≡ is_empty (strip y)
unfolding is_root strip bytes_eq
is_root-strip [] = refl
is_root-strip (c ∷ y) = ground arith

is_root_of_long : (x y : Bytes) → is_empty x ≡ false → is_empty y ≡ false → is_root (x ++ y) ≡ false
unfolding is_root bytes_eq
is_root_of_long [] y h k = cc
is_root_of_long (c ∷ []) [] h k = cc
is_root_of_long (c ∷ []) (d ∷ y) h k = ground arith
is_root_of_long (c ∷ d ∷ x) y h k = ground arith

is_root-rooted : (y : Bytes) → is_root y ≡ false → is_root (rooted y) ≡ false
unfolding is_root bytes_eq
is_root-rooted [] h = cc
is_root-rooted (c ∷ []) h = ground arith
is_root-rooted (c ∷ d ∷ y) h = ground arith

rooted-append : (x y : Bytes) → is_empty x ≡ false → rooted (x ++ y) ≡ rooted x ++ y
rooted-append [] y h = cc
rooted-append (c ∷ x) y h = ground arith

strip_of_root : (y : Bytes) → is_root y ≡ true → strip y ≡ []
unfolding is_root bytes_eq strip
strip_of_root [] h = refl
strip_of_root (c ∷ []) h = ground arith
strip_of_root (c ∷ d ∷ y) h = ground arith

is_empty-rooted : (y : Bytes) → is_empty (rooted y) ≡ false
is_empty-rooted [] = refl
is_empty-rooted (c ∷ y) = ground arith

is_empty_iff : (y : Bytes) → is_empty y ≡ true → y ≡ []
is_empty_iff [] h = refl
is_empty_iff (c ∷ y) h = cc

-- The path of a group: a prefix that has lost its slashes, or the root.
or_root : Bytes → Bytes
or_root x = if is_empty x then slash ∷ [] else x

join_path_of_root :
    (prefix path : Bytes) → is_root path ≡ true → join_path prefix path ≡ or_root (strip prefix)
unfolding or_root
join_path_of_root prefix path r = rw (join_path-eq prefix path, r)

join_path_of_other :
    (prefix path : Bytes)
    → is_root path ≡ false
    → join_path prefix path ≡ strip prefix ++ rooted path
join_path_of_other prefix path n = rw (join_path-eq prefix path, n)

strip-or_root : (x : Bytes) → strip (or_root (strip x)) ≡ strip x
unfolding or_root
strip-or_root x =
    ground
      (arith, strip_idempotent x, is_empty_iff (strip x), strip_of_root (slash ∷ []), is_root-slash)
  where
    is_root-slash : is_root (slash ∷ []) ≡ true
    is_root-slash = unfold is_root bytes_eq in refl

strip_of_other :
    (x y : Bytes)
    → strip (x ++ rooted y) ≡ (if is_empty (strip y) then strip x else x ++ rooted (strip y))
strip_of_other x y = elim (Bool-cases (is_empty (strip y))) [
  | inl e ↦ rw (strip-append x (rooted y), strip-rooted y, e)
  | inr e ↦ rw (strip-append x (rooted y), strip-rooted y, e, is_empty-rooted (strip y))
]

-- A joined path, less its trailing slashes.
strip-join_path :
    (prefix path : Bytes) → strip (join_path prefix path) ≡ below (strip prefix) (strip path)
unfolding below
strip-join_path prefix path = elim (Bool-cases (is_root path)) [
  | inl r ↦ rw (join_path_of_root prefix path r, strip_of_root path r) (strip-or_root prefix)
  | inr n ↦
      rw (join_path_of_other prefix path n, strip_of_other (strip prefix) path)
        (ground (arith, strip_idempotent prefix))
]

or_root_of_other : (x : Bytes) → is_empty x ≡ false → or_root x ≡ x
unfolding or_root
or_root_of_other x h = rw h

is_empty-append_right : (x y : Bytes) → is_empty y ≡ false → is_empty (x ++ y) ≡ false
is_empty-append_right [] y h = h
is_empty-append_right (c ∷ x) y h = refl

rooted_idempotent : (y : Bytes) → rooted (rooted y) ≡ rooted y
rooted_idempotent [] = refl
rooted_idempotent (c ∷ y) = ground arith

nest_at_root : (a b : Bytes) → or_root (below (strip a) (strip b)) ≡ join_path a (or_root (strip b))
unfolding below
nest_at_root a b = elim (Bool-cases (is_empty (strip b))) [
  | inl e ↦
      rw (is_empty_iff (strip b) e)
        (sym (join_path_of_root a (or_root []) (unfold or_root is_root bytes_eq in refl)))
  | inr e ↦
      let long = is_empty-append_right (strip a) (rooted (strip b)) (is_empty-rooted (strip b)) in
      rw (e, or_root_of_other (strip b) e, or_root_of_other (strip a ++ rooted (strip b)) long)
        (sym (join_path_of_other a (strip b) (is_root-strip b ∙ e)))
]

nest_at_other :
    (a b c : Bytes)
    → is_root c ≡ false
    → below (strip a) (strip b) ++ rooted c ≡ join_path a (strip b ++ rooted c)
unfolding below
nest_at_other a b c n = elim (Bool-cases (is_empty (strip b))) [
  | inl e ↦ rw (is_empty_iff (strip b) e) (
      sym (
        join_path_of_other a (rooted c) (is_root-rooted c n)
        ∙ ap (λ r. strip a ++ r) (rooted_idempotent c)))
  | inr e ↦
      let long = is_root_of_long (strip b) (rooted c) e (is_empty-rooted c) in
      rw e (
        append_assoc (strip a) (rooted (strip b)) (rooted c)
        ∙ sym (
            join_path_of_other a (strip b ++ rooted c) long
            ∙ ap (λ r. strip a ++ r) (rooted-append (strip b) (rooted c) e)))
]

-- Groups nest: joining to a joined prefix is joining a joined path, whatever slashes the three
-- parts begin or end with.
pub join_path_assoc : (a b c : Bytes) → join_path (join_path a b) c ≡ join_path a (join_path b c)
join_path_assoc a b c = elim (Bool-cases (is_root c)) [
  | inl r ↦
      rw (join_path_of_root (join_path a b) c r, join_path_of_root b c r, strip-join_path a b)
        (nest_at_root a b)
  | inr n ↦
      rw (join_path_of_other (join_path a b) c n, join_path_of_other b c n, strip-join_path a b)
        (nest_at_other a b c n)
]
