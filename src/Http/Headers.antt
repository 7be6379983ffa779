-- ===== src/Http/Headers.antt =====
-- component/http-albatross/types/headers: multi-valued, case-insensitive headers over two backings.
-- Beast's fields are a parameter, of which the code uses a scan, `find` and `equal_range`. A mutator
-- asserts that the headers are owned: over Beast's fields it gives nothing. The allocators are left
-- out.
pub mod Laws
pub mod Tests
use menagerie.Prelude.{
  ℕ, zero, suc, ◌+◌, ◌-◌, ◌*◌, ◌/◌, ◌%◌, ◌^◌, ◌≤◌, ◌<◌, min, max, String, ◌≡◌, refl, sym, ap, subst,
  ◌∙◌, ◌≡⟨◌⟩◌, ◌∎, ◌≢◌, ◌↔◌, ◌⊎◌, inl, inr, Bool, true, false, not, ◌&&◌, ◌||◌, Option, none, some,
  List, [], ◌∷◌, ◌++◌, map, append_assoc, append-nil, arith, ltb, leb, ◌==◌, if◌then◌else◌, ltb→lt,
  lt→ltb, leb→le, ==_iff, ==-eq-false, tests, Bool-cases, Option-cases, and-eq-true, length,
  get_elem?, take, drop, is_empty, any, length-append, take-append-drop, length-take, length-drop,
  All, All-append, All-map, Bytes, bytes, bytes_eq, bytes_eq_refl, bytes_eq_iff, last?, pop_back,
  pop_back-append-last, last?-append-last, is_empty-append, append-eq-nil, Result, ok, err, ◌>>=◌,
  throw_if, Result-cases, throw_if-eq-ok, bind-eq-ok, ok-injective, some-injective, map-eq-some,
}
use mathlib.Core.Option

abbrev pub Field : Type 0
Field = Bytes × Bytes

pub record BeastFields (F : Type 0) : Type 0 where
  pub scan : F → List Field
  pub find : Bytes → F → Option Bytes
  pub equal_range : Bytes → F → List Bytes

pub data Headers (F : Type 0) : Type 0 where
  beast : F → Headers F
  owned : List Field → Headers F

abbrev pub has_value : Option Bytes → Bool
has_value none = false
has_value (some v) = true

unfoldable pub lower : ℕ → ℕ
lower c = if leb 65 c && leb c 90 then (c + 32) % 256 else c

-- The loop of `does_equal`, over names of one length.
unfoldable pub all_equal : Bytes → Bytes → Bool
unfolding lower
all_equal [] b = true
all_equal (x ∷ a) [] = true
all_equal (x ∷ a) (y ∷ b) =
    let rest = all_equal a b in if not (lower x == lower y) then false else rest

unfoldable pub does_equal : Bytes → Bytes → Bool
unfolding all_equal
does_equal a b = if not (length a == length b) then false else all_equal a b

unfoldable pub first_value : Bytes → List Field → Option Bytes
unfolding does_equal
first_value name [] = none
first_value name ((n, v) ∷ entries) =
    let rest = first_value name entries in if does_equal n name then some v else rest

unfoldable pub all_values : Bytes → List Field → List Bytes
unfolding does_equal
all_values name [] = []
all_values name ((n, v) ∷ entries) =
    let rest = all_values name entries in if does_equal n name then v ∷ rest else rest

-- `std::erase_if`.
unfoldable pub erase_name : Bytes → List Field → List Field
unfolding does_equal
erase_name name [] = []
erase_name name ((n, v) ∷ entries) =
    let rest = erase_name name entries in if does_equal n name then rest else (n, v) ∷ rest

module _ {F : Type 0} where
  -- `as_owned()`.
  abbrev pub as_owned : Headers F → Option (List Field)
  as_owned (beast fields) = none
  as_owned (owned entries) = some entries

  unfoldable pub add : Bytes → Bytes → Headers F → Option (Headers F)
  add name value h = Option.map (λ entries. owned (entries ++ (name, value) ∷ [])) (as_owned h)

  unfoldable pub set : Bytes → Bytes → Headers F → Option (Headers F)
  unfolding erase_name
  set name value h =
      Option.map (λ entries. owned (erase_name name entries ++ (name, value) ∷ [])) (as_owned h)

  unfoldable pub remove : Bytes → Headers F → Option (Headers F)
  unfolding erase_name
  remove name h = Option.map (λ entries. owned (erase_name name entries)) (as_owned h)

module _ {F : Type 0} (fields_of : BeastFields F) where
  abbrev pub entries_of : Headers F → List Field
  entries_of (beast fields) = fields_of.scan fields
  entries_of (owned entries) = entries

  unfoldable pub promote_to_owned : Headers F → Headers F
  promote_to_owned (beast fields) = owned (fields_of.scan fields)
  promote_to_owned (owned entries) = owned entries

  unfoldable pub get : Bytes → Headers F → Option Bytes
  unfolding first_value
  get name (beast fields) = fields_of.find name fields
  get name (owned entries) = first_value name entries

  unfoldable pub get_or : Bytes → Bytes → Headers F → Bytes
  unfolding get
  get_or name fallback h = elim (get name h) [ some v ↦ v | none ↦ fallback ]

  unfoldable pub get_all : Bytes → Headers F → List Bytes
  unfolding all_values
  get_all name (beast fields) = fields_of.equal_range name fields
  get_all name (owned entries) = all_values name entries

  unfoldable pub contains : Bytes → Headers F → Bool
  unfolding get
  contains name h = has_value (get name h)

  unfoldable pub size : Headers F → ℕ
  size h = length (entries_of h)
