-- ===== src/Http/Routes/Templates/Shapes.antt =====
-- Comparing two templates.
use menagerie.Prelude.{
  ◌≡◌, refl, sym, Bool, true, false, List, [], ◌∷◌, arith, bytes_eq, bytes_eq_refl, bytes_eq_iff,
}
use menagerie.Http.Routes.Templates.{PathSegment, equal_by, bool_eq, same_shape, names_match}

equal_by_refl :
    (test : PathSegment → PathSegment → Bool)
    → ((x : PathSegment) → test x x ≡ true)
    → (xs : List PathSegment) → equal_by test xs xs ≡ true
equal_by_refl test h [] = refl
equal_by_refl test h (x ∷ xs) = rw (h x) (equal_by_refl test h xs)

bool_eq_refl : (b : Bool) → bool_eq b b ≡ true
bool_eq_refl true = refl
bool_eq_refl false = refl

pub same_shape_refl : (xs : List PathSegment) → same_shape xs xs ≡ true
unfolding same_shape
same_shape_refl = equal_by_refl _ λ x. ground (arith, bytes_eq_refl x.text, bool_eq_refl x.is_param)

pub names_match_refl : (xs : List PathSegment) → names_match xs xs ≡ true
unfolding names_match
names_match_refl = equal_by_refl _ λ x. bytes_eq_refl x.text

segment-eq :
    (x y : PathSegment)
    → bool_eq x.is_param y.is_param ≡ true
    → bytes_eq x.text y.text ≡ true
    → x ≡ y
segment-eq x y h e = ground (arith, bytes_eq_iff x.text y.text, bool_eq-sound x.is_param y.is_param)
  where
    bool_eq-sound : (a b : Bool) → bool_eq a b ≡ true → a ≡ b
    bool_eq-sound true b h = sym h
    bool_eq-sound false true h = cc
    bool_eq-sound false false h = refl

-- Two templates of one shape whose names match are one template.
pub eq_of_same_shape :
    (xs ys : List PathSegment) → same_shape xs ys ≡ true → names_match xs ys ≡ true → xs ≡ ys
unfolding same_shape names_match
eq_of_same_shape [] [] h e = refl
eq_of_same_shape [] (y ∷ ys) h e = cc
eq_of_same_shape (x ∷ xs) [] h e = cc
eq_of_same_shape (x ∷ xs) (y ∷ ys) h e = ground (arith, segment-eq x y, eq_of_same_shape xs ys)
