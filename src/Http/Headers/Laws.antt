-- ===== src/Http/Headers/Laws.antt =====
-- Lookup after each change of the headers, and the two backings.
use menagerie.Prelude.{
  ℕ, ◌+◌, ◌≤◌, ◌⊎◌, ◌&&◌, leb, suc, ◌≡◌, refl, sym, ap, ◌∙◌, ◌↔◌, inl, inr, true, false, Option,
  none, some, List, [], ◌∷◌, ◌++◌, append-nil, arith, ◌==◌, if◌then◌else◌, ==_iff, Bool-cases,
  length, Bytes,
}
use menagerie.Http.Headers.{
  Field, BeastFields, Headers, beast, owned, lower, all_equal, does_equal, first_value, all_values,
  erase_name, add, set, remove, entries_of, promote_to_owned, get, get_all, contains, size,
}

-- What Beast documents of `find` and `equal_range`: names are compared without case, the first
-- field of a name is found, and the range holds its values in their order.
pub record IsBeast {F : Type 0} (fields_of : BeastFields F) : Type 0 where
  pub finds :
      (name : Bytes) (fields : F)
      → fields_of.find name fields ≡ first_value name (fields_of.scan fields)
  pub ranges :
      (name : Bytes) (fields : F)
      → fields_of.equal_range name fields ≡ all_values name (fields_of.scan fields)

abbrev lowered : Bytes → Bytes
lowered [] = []
lowered (x ∷ a) = lower x ∷ lowered a

-- The names that `does_equal` identifies are those that agree in lower case.
all_equal_sound : (a b : Bytes) → length a ≡ length b → all_equal a b ≡ true → lowered a ≡ lowered b
unfolding all_equal
all_equal_sound [] [] h e = refl
all_equal_sound [] (y ∷ b) h e = absurd (omega (arith, h))
all_equal_sound (x ∷ a) [] h e = absurd (omega (arith, h))
all_equal_sound (x ∷ a) (y ∷ b) h e = elim (Bool-cases (lower x == lower y)) [
  | inl same ↦
      let rest = all_equal_sound a b (omega (arith, h)) (sym (rw same) ∙ e) in
      let first = (==_iff (lower x) (lower y)).0 same in rw (first, rest)
  | inr n ↦ let never : true ≡ false = sym e ∙ rw n in cc
]

all_equal_complete :
    (a b : Bytes) → lowered a ≡ lowered b → (length a ≡ length b) × (all_equal a b ≡ true)
unfolding all_equal
all_equal_complete [] [] e = (refl, refl)
all_equal_complete [] (y ∷ b) e = cc
all_equal_complete (x ∷ a) [] e = cc
all_equal_complete (x ∷ a) (y ∷ b) e =
    let tails : lowered a ≡ lowered b = cc in
    let heads : lower x ≡ lower y = cc in
    let (sizes, rest) = all_equal_complete a b tails in
    (ap suc sizes, rw ((==_iff (lower x) (lower y)).1 heads, rest))

does_equal_iff : (a b : Bytes) → (does_equal a b ≡ true) ↔ (lowered a ≡ lowered b)
unfolding does_equal
does_equal_iff a b = (sound, complete)
  where
    sound : does_equal a b ≡ true → lowered a ≡ lowered b
    sound e = elim (Bool-cases (length a == length b)) [
      | inl y ↦ all_equal_sound a b ((==_iff (length a) (length b)).0 y) (sym (rw y) ∙ e)
      | inr n ↦ let never : true ≡ false = sym e ∙ rw n in cc
    ]

    complete : lowered a ≡ lowered b → does_equal a b ≡ true
    complete e =
        let (sizes, same) = all_equal_complete a b e in
        rw ((==_iff (length a) (length b)).1 sizes, same)

-- One character but for case: the letters A to Z go with a to z.
abbrev pub AlikeChar : ℕ → ℕ → Type 0
AlikeChar c d =
    (c ≡ d) ⊎ ((65 ≤ c) × (c ≤ 90) × (d ≡ c + 32)) ⊎ ((65 ≤ d) × (d ≤ 90) × (c ≡ d + 32))

-- One name but for case.
pub data Alike : Bytes → Bytes → Type 0 where
  ends : Alike [] []
  next : {c d : ℕ} {a b : Bytes} → AlikeChar c d → Alike a b → Alike (c ∷ a) (d ∷ b)

lower_iff : (c d : ℕ) → (lower c ≡ lower d) ↔ AlikeChar c d
unfolding lower
lower_iff c d = (sound, complete)
  where
    sound : lower c ≡ lower d → AlikeChar c d
    sound e = elim (Bool-cases (leb 65 c && leb c 90)) [
      | inl y ↦ elim (Bool-cases (leb 65 d && leb d 90)) [
        | inl z ↦ inl (ground arith)
        | inr n ↦ inr (inl (ground arith, ground arith, ground arith))
      ]
      | inr m ↦ elim (Bool-cases (leb 65 d && leb d 90)) [
        | inl z ↦ inr (inr (ground arith, ground arith, ground arith))
        | inr n ↦ inl (ground arith)
      ]
    ]

    complete : AlikeChar c d → lower c ≡ lower d
    complete (inl e) = ap lower e
    complete (inr (inl (lo, hi, e))) = ground (arith, lo, hi, e)
    complete (inr (inr (lo, hi, e))) = ground (arith, lo, hi, e)

lowered_Alike : (a b : Bytes) → lowered a ≡ lowered b → Alike a b
lowered_Alike [] [] e = ends
lowered_Alike [] (y ∷ b) e = cc
lowered_Alike (x ∷ a) [] e = cc
lowered_Alike (x ∷ a) (y ∷ b) e =
    let tails : lowered a ≡ lowered b = cc in
    let heads : lower x ≡ lower y = cc in next ((lower_iff x y).0 heads) (lowered_Alike a b tails)

Alike_lowered : (a b : Bytes) → Alike a b → lowered a ≡ lowered b
Alike_lowered _ _ ends = refl
Alike_lowered _ _ (next {c} {d} {a} {b} h r) = rw ((lower_iff c d).1 h, Alike_lowered a b r)

-- The names that `does_equal` identifies are the same but for the case of their letters.
does_equal-Alike : (a b : Bytes) → (does_equal a b ≡ true) ↔ Alike a b
does_equal-Alike a b = (
  (λ e. lowered_Alike a b ((does_equal_iff a b).0 e)),
  λ h. (does_equal_iff a b).1 (Alike_lowered a b h),
)

-- It is an equivalence: two names like a third are alike.
does_equal_euclid :
    (a b c : Bytes) → does_equal a b ≡ true → does_equal a c ≡ true → does_equal b c ≡ true
does_equal_euclid a b c h k =
    (does_equal_iff b c).1 (sym ((does_equal_iff a b).0 h) ∙ (does_equal_iff a c).0 k)

does_equal_trans :
    (a b c : Bytes) → does_equal a b ≡ true → does_equal b c ≡ true → does_equal a c ≡ true
does_equal_trans a b c h k =
    (does_equal_iff a c).1 ((does_equal_iff a b).0 h ∙ (does_equal_iff b c).0 k)

does_equal-false :
    (a b c : Bytes) → does_equal a b ≡ false → does_equal c b ≡ true → does_equal a c ≡ false
does_equal-false a b c h k = elim (Bool-cases (does_equal a c)) [
  | inl y ↦ let never : false ≡ true = sym h ∙ does_equal_trans a c b y k in cc
  | inr n ↦ n
]

abbrev head? : List Bytes → Option Bytes
head? [] = none
head? (x ∷ xs) = some x

first_value-eq-head :
    (name : Bytes) (entries : List Field)
    → first_value name entries ≡ head? (all_values name entries)
unfolding first_value all_values
first_value-eq-head name [] = refl
first_value-eq-head name ((n, v) ∷ entries) = elim (Bool-cases (does_equal n name)) [
  | inl y ↦ rw y
  | inr f ↦ rw f (first_value-eq-head name entries)
]

all_values-append :
    (name : Bytes) (xs ys : List Field)
    → all_values name (xs ++ ys) ≡ all_values name xs ++ all_values name ys
unfolding all_values
all_values-append name [] ys = refl
all_values-append name ((n, v) ∷ xs) ys = elim (Bool-cases (does_equal n name)) [
  | inl y ↦ rw (y, all_values-append name xs ys)
  | inr f ↦ rw (f, all_values-append name xs ys)
]

-- Erasing a name takes away the values of the names like it, and no others.
all_values-erase_name :
    (name other : Bytes) (entries : List Field)
    → all_values other (erase_name name entries)
      ≡ (if does_equal name other then [] else all_values other entries)
unfolding all_values erase_name
all_values-erase_name name other [] = elim (Bool-cases (does_equal name other)) [
  | inl y ↦ rw y
  | inr f ↦ rw f
]
all_values-erase_name name other ((n, v) ∷ entries) =
    let rest = all_values-erase_name name other entries in
    elim (Bool-cases (does_equal name other)) [
      | inl y ↦ elim (Bool-cases (does_equal n name)) [
        | inl e ↦ rw (e, rest, y)
        | inr e ↦ rw (e, does_equal_apart n name other e y, rest, y)
      ]
      | inr f ↦ elim (Bool-cases (does_equal n name)) [
        | inl e ↦ rw (e, rest, f, does_equal_other n name other e f)
        | inr e ↦ elim (Bool-cases (does_equal n other)) [
          | inl g ↦ rw (e, g, rest, f)
          | inr g ↦ rw (e, g, rest, f)
        ]
      ]
    ]
  where
    does_equal_apart :
        (n name other : Bytes)
        → does_equal n name ≡ false
        → does_equal name other ≡ true
        → does_equal n other ≡ false
    does_equal_apart n name other e y =
        does_equal-false n name other e
          ((does_equal_iff other name).1 (sym ((does_equal_iff name other).0 y)))

    does_equal_other :
        (n name other : Bytes)
        → does_equal n name ≡ true
        → does_equal name other ≡ false
        → does_equal n other ≡ false
    does_equal_other n name other e f = elim (Bool-cases (does_equal n other)) [
      | inl g ↦ let never : false ≡ true = sym f ∙ does_equal_euclid n name other e g in cc
      | inr g ↦ g
    ]

all_values_one :
    (name value other : Bytes)
    → all_values other ((name, value) ∷ []) ≡ (if does_equal name other then value ∷ [] else [])
unfolding all_values
all_values_one name value other = refl

module _ {F : Type 0} (fields_of : BeastFields F) where
  -- What every lookup says of one name.
  pub record Answers (h : Headers F) (other : Bytes) (values : List Bytes) : Type 0 where
    pub all_found : get_all fields_of other h ≡ values
    pub first_found : get fields_of other h ≡ head? values

  owned-Answers :
      (entries : List Field) (other : Bytes) (values : List Bytes)
      → all_values other entries ≡ values
      → Answers (owned entries) other values
  owned-Answers entries other values e = record {
    all_found = unfold get_all in e;
    first_found = unfold get in first_value-eq-head other entries ∙ ap head? e;
  }

  -- On owned headers `set` succeeds; a lookup of a name that is the set one but for the case of
  -- ASCII letters then finds the new value alone, and every other lookup finds what it found before.
  pub set-Answers :
      (name value other : Bytes) (entries : List Field)
      → (h : Headers F) × (set name value (owned entries) ≡ some h)
        × ((Alike name other × Answers h other (value ∷ []))
            ⊎ ((¬ Alike name other) × Answers h other (get_all fields_of other (owned entries))))
  unfolding set get_all
  set-Answers name value other entries = (
    owned (erase_name name entries ++ (name, value) ∷ []),
    refl,
    elim (Bool-cases (does_equal name other)) [
      | inl y ↦ inl ((does_equal-Alike name other).0 y, found (value ∷ []) (joined ∙ rw y))
      | inr n ↦ inr (
        (λ k. let never : false ≡ true = sym n ∙ (does_equal-Alike name other).1 k in cc),
        found (all_values other entries) (joined ∙ rw n),
      )
    ],
  )
    where
      joined :
          all_values other (erase_name name entries ++ (name, value) ∷ [])
          ≡ (if does_equal name other then value ∷ [] else all_values other entries)
      joined =
          all_values-append other (erase_name name entries) ((name, value) ∷ [])
          ∙ elim (Bool-cases (does_equal name other)) [
            | inl y ↦
                rw (all_values-erase_name name other entries, all_values_one name value other, y)
            | inr f ↦
                rw (all_values-erase_name name other entries, all_values_one name value other, f)
                  (append-nil (all_values other entries))
          ]

      found :
          (values : List Bytes)
          → all_values other (erase_name name entries ++ (name, value) ∷ []) ≡ values
          → Answers (owned (erase_name name entries ++ (name, value) ∷ [])) other values
      found values e = owned-Answers (erase_name name entries ++ (name, value) ∷ []) other values e

  -- On owned headers `add` succeeds and puts the value behind those of its name, and `remove`
  -- succeeds and leaves none of its name; names are compared without case, and every other lookup
  -- finds what it found before.
  pub add-remove-Answers :
      (name value other : Bytes) (entries : List Field)
      → let found = get_all fields_of other (owned entries) in
        ((h : Headers F) × (add name value (owned entries) ≡ some h)
          × Answers h other (if does_equal name other then found ++ value ∷ [] else found))
        × ((h : Headers F) × (remove name (owned entries) ≡ some h)
            × Answers h other (if does_equal name other then [] else found))
  unfolding add remove get_all
  add-remove-Answers name value other entries = (
    (
      owned (entries ++ (name, value) ∷ []),
      refl,
      owned-Answers (entries ++ (name, value) ∷ []) other _
          (all_values-append other entries ((name, value) ∷ []) ∙ joined),
    ),
    (
      owned (erase_name name entries),
      refl,
      owned-Answers (erase_name name entries) other _ (all_values-erase_name name other entries),
    ),
  )
    where
      joined : all_values other entries ++ all_values other ((name, value) ∷ []) ≡ (
          if does_equal name other
          then all_values other entries ++ value ∷ []
          else all_values other entries)
      joined = elim (Bool-cases (does_equal name other)) [
        | inl y ↦ rw (all_values_one name value other, y)
        | inr f ↦ rw (all_values_one name value other, f) (append-nil (all_values other entries))
      ]

  -- Promotion to owned headers cannot be seen by a reader: for fields that behave as Beast
  -- documents, every lookup, the size and the entries in their order are what they were.
  pub promote_to_owned-reads :
      IsBeast fields_of
      → (h : Headers F) (name : Bytes)
      → let h' = promote_to_owned fields_of h in
        (get fields_of name h' ≡ get fields_of name h)
        × (get_all fields_of name h' ≡ get_all fields_of name h)
        × (contains fields_of name h' ≡ contains fields_of name h)
        × (size fields_of h' ≡ size fields_of h)
        × (entries_of fields_of h' ≡ entries_of fields_of h)
  unfolding promote_to_owned get get_all contains size
  promote_to_owned-reads law (owned entries) name = (refl, refl, refl, refl, refl)
  promote_to_owned-reads law (beast fields) name = (
    sym (law.finds name fields),
    sym (law.ranges name fields),
    rw (law.finds name fields),
    refl,
    refl,
  )
