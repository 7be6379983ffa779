-- ===== src/Savanna/Errors/Sqlstates/Laws.antt =====
-- Which SQL states are errors, and which errors are tried again.
use menagerie.Prelude.{
  ◌≡◌, refl, sym, ap, subst, ◌∙◌, Bool, true, false, not, ◌&&◌, Option, none, some, List, [], ◌∷◌,
  ◌++◌, if◌then◌else◌, and-eq-true, take, drop, take-append-drop, Bytes, bytes, bytes_eq,
}
use menagerie.Prelude.{if-elim}
use menagerie.Savanna.Errors.{ErrorCode, is_retryable, client_value, server_value, fatal_value}
use menagerie.Savanna.Errors.Sqlstates.{
  StateTest, matches, ClassRule, classes, state_code, class_code, map_sqlstate,
}

abbrev pub retryable_of : Option ErrorCode → Option Bool
retryable_of none = none
retryable_of (some e) = some (is_retryable e)

-- The classes of which all errors are tried again, with true, or none is, with false; the other
-- classes are left out.
pub data Verdict : Bytes → Bool → Type 0 where
  data_exceptions : Verdict (bytes "22") false
  integrity_violations : Verdict (bytes "23") false
  authorization_failures : Verdict (bytes "28") false
  rollbacks : Verdict (bytes "40") true
  syntax_or_access_errors : Verdict (bytes "42") false
  insufficient_resources : Verdict (bytes "53") true
  exceeded_limits : Verdict (bytes "54") true
  operator_interventions : Verdict (bytes "57") true
  system_errors : Verdict (bytes "58") false
  internal_errors : Verdict (bytes "XX") false

-- All the errors that a list of rules can give.
abbrev agree : Bool → List (StateTest × ErrorCode) → Bool
agree b [] = true
agree b ((test, e) ∷ rest) = (if is_retryable e then b else not b) && agree b rest

same : (b d : Bool) → (if d then b else not b) ≡ true → d ≡ b
same true true h = refl
same true false h = absurd cc
same false true h = absurd cc
same false false h = refl

state_code-retryable :
    (s : Bytes) (b : Bool) (rows : List (StateTest × ErrorCode)) (otherwise : ErrorCode)
    → agree b rows ≡ true
    → is_retryable otherwise ≡ b
    → is_retryable (state_code s rows otherwise) ≡ b
state_code-retryable s b [] otherwise h d = d
state_code-retryable s b ((test, e) ∷ rest) otherwise h d =
    if-elim (λ c. is_retryable c ≡ b) (matches test s)
      (λ y. same b (is_retryable e) (and-eq-true _ _ h).0)
      (λ n. state_code-retryable s b rest otherwise (and-eq-true _ _ h).1 d)

-- The rules of the first row of a class agree; with no row, the error is unexpected.
abbrev agree_class : Bool → Bytes → List ClassRule → Bool
agree_class b c [] = not b
agree_class b c (r ∷ rules) =
    let later = agree_class b c rules in
    if bytes_eq c r.error_class
    then agree b r.states && (if is_retryable r.otherwise then b else not b)
    else later

class_code-retryable :
    (s c : Bytes) (b : Bool) (rules : List ClassRule)
    → agree_class b c rules ≡ true
    → is_retryable (class_code s c rules) ≡ b
unfolding is_retryable
class_code-retryable s c true [] h = absurd cc
class_code-retryable s c false [] h = refl
class_code-retryable s c b (r ∷ rules) h =
    if-elim (λ (e : ErrorCode). is_retryable e ≡ b) (bytes_eq c r.error_class)
      (λ y.
        let k = chosen _ _ _ y h in
        state_code-retryable s b r.states r.otherwise (and-eq-true _ _ k).0
          (same b _ (and-eq-true _ _ k).1))
      (λ n. class_code-retryable s c b rules (passed _ _ _ n h))
  where
    chosen : (t x y : Bool) → t ≡ true → (if t then x else y) ≡ true → x ≡ true
    chosen true x y e h = h
    chosen false x y e h = absurd cc

    passed : (t x y : Bool) → t ≡ false → (if t then x else y) ≡ true → y ≡ true
    passed true x y e h = absurd cc
    passed false x y e h = h

-- A state of the class, written out.
classed :
    (c : Bytes) (b : Bool) (rest : Bytes)
    → Verdict c b
    → retryable_of (map_sqlstate (c ++ rest)) ≡ some b
unfolding map_sqlstate is_retryable classes client_value server_value fatal_value bytes_eq
classed _ _ rest data_exceptions =
    ap some (class_code-retryable (bytes "22" ++ rest) (bytes "22") false classes refl)
classed _ _ rest integrity_violations =
    ap some (class_code-retryable (bytes "23" ++ rest) (bytes "23") false classes refl)
classed _ _ rest authorization_failures =
    ap some (class_code-retryable (bytes "28" ++ rest) (bytes "28") false classes refl)
classed _ _ rest rollbacks =
    ap some (class_code-retryable (bytes "40" ++ rest) (bytes "40") true classes refl)
classed _ _ rest syntax_or_access_errors =
    ap some (class_code-retryable (bytes "42" ++ rest) (bytes "42") false classes refl)
classed _ _ rest insufficient_resources =
    ap some (class_code-retryable (bytes "53" ++ rest) (bytes "53") true classes refl)
classed _ _ rest exceeded_limits =
    ap some (class_code-retryable (bytes "54" ++ rest) (bytes "54") true classes refl)
classed _ _ rest operator_interventions =
    ap some (class_code-retryable (bytes "57" ++ rest) (bytes "57") true classes refl)
classed _ _ rest system_errors =
    ap some (class_code-retryable (bytes "58" ++ rest) (bytes "58") false classes refl)
classed _ _ rest internal_errors =
    ap some (class_code-retryable (bytes "XX" ++ rest) (bytes "XX") false classes refl)

-- A state of a class that has a verdict maps to an error, and to one that `is_retryable` just if the
-- verdict is true.
pub retryable-map_sqlstate :
    (s c : Bytes) (b : Bool) → Verdict c b → take 2 s ≡ c → retryable_of (map_sqlstate s) ≡ some b
retryable-map_sqlstate s c b v e =
    subst (λ t. retryable_of (map_sqlstate t) ≡ some b)
      (ap (λ (a : Bytes). a ++ drop 2 s) (sym e) ∙ take-append-drop 2 s) (classed c b (drop 2 s) v)
