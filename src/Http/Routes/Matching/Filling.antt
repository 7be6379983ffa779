-- ===== src/Http/Routes/Matching/Filling.antt =====
-- Reverse routing, the reference that matching undoes: the path of a template for given values.
use menagerie.Prelude.{
  ℕ, ◌≡◌, refl, sym, ap, subst, ◌∙◌, ◌≢◌, ◌⊎◌, inl, inr, Bool, true, false, some, List, [], ◌∷◌,
  ◌++◌, map, append-nil, arith, if◌then◌else◌, All, Bytes,
}
use menagerie.Http.UrlDecode.Encoding.{
  percent_encode, IsUnreserved, IsByte, url_decode-percent_encode, percent_encode-ne-nil,
  percent_encode-All-ne-slash,
}
use menagerie.Http.Paths.{slash, segments, segments_from}
use menagerie.Http.Routes.Templates.{PathSegment}
use menagerie.Http.Routes.Matching.{Captured, match_template}
use menagerie.Http.Routes.Matching.Laws.{Captures, match_template_iff}

abbrev pub HasNoSlash : Bytes → Type 0
HasNoSlash = All (λ c. c ≢ slash)

segments_from-append :
    (x y : Bytes) → HasNoSlash x → segments_from (x ++ slash ∷ y) ≡ x ∷ segments_from y
unfolding segments_from
segments_from-append [] y h = refl
segments_from-append (c ∷ x) y (p, h) = ground (arith, segments_from-append x y h)

segments_from_last : (x : Bytes) → HasNoSlash x → segments_from x ≡ x ∷ []
unfolding segments_from
segments_from_last [] h = refl
segments_from_last (c ∷ x) (p, h) = ground (arith, segments_from_last x h)

module _ (safe : ℕ → Bool) (value : Bytes → Bytes) where
  -- What stands in the path for a segment of the template.
  pub filled : PathSegment → Bytes
  filled t = if t.is_param then percent_encode safe (value t.text) else t.text

  pub fill : List PathSegment → Bytes
  unfolding filled
  fill [] = []
  fill (t ∷ ts) = slash ∷ (filled t ++ fill ts)

  pub expected : List PathSegment → Captured
  expected [] = []
  expected (t ∷ ts) =
      let rest = expected ts in if t.is_param then (t.text, value t.text) ∷ rest else rest

  -- A literal has no slash, and a parameter's value is a byte string that is not empty.
  abbrev pub IsFillable : PathSegment → Type 0
  IsFillable t =
      ((t.is_param ≡ false) × HasNoSlash t.text)
      ⊎ ((t.is_param ≡ true) × (value t.text ≢ []) × All IsByte (value t.text))

  filled_literal : (t : PathSegment) → t.is_param ≡ false → filled t ≡ t.text
  unfolding filled
  filled_literal t p = ground arith

  filled_param :
      (t : PathSegment) → t.is_param ≡ true → filled t ≡ percent_encode safe (value t.text)
  unfolding filled
  filled_param t p = ground arith

  expected_literal :
      (t : PathSegment) (ts : List PathSegment)
      → t.is_param ≡ false
      → expected (t ∷ ts) ≡ expected ts
  unfolding expected
  expected_literal t ts p = ground arith

  expected_param :
      (t : PathSegment) (ts : List PathSegment)
      → t.is_param ≡ true
      → expected (t ∷ ts) ≡ (t.text, value t.text) ∷ expected ts
  unfolding expected
  expected_param t ts p = ground arith

  module _ (unreserved : IsUnreserved safe) (no_slash : safe slash ≡ false) where
    filled-HasNoSlash : (t : PathSegment) → IsFillable t → HasNoSlash (filled t)
    filled-HasNoSlash t (inl (p, h)) = rw (filled_literal t p) h
    filled-HasNoSlash t (inr (p, n, h)) =
        rw (filled_param t p) (percent_encode-All-ne-slash safe (value t.text) no_slash)

    segments_from-fill :
        (t : PathSegment) (ts : List PathSegment)
        → All IsFillable (t ∷ ts)
        → segments_from (filled t ++ fill ts) ≡ map filled (t ∷ ts)
    unfolding fill
    segments_from-fill t [] (h, _) =
        rw append-nil (segments_from_last (filled t) (filled-HasNoSlash t h))
    segments_from-fill t (t' ∷ ts) (h, hs) =
        segments_from-append (filled t) _ (filled-HasNoSlash t h)
        ∙ ap (λ r. filled t ∷ r) (segments_from-fill t' ts hs)

    segments-fill : (ts : List PathSegment) → All IsFillable ts → segments (fill ts) ≡ map filled ts
    unfolding segments fill
    segments-fill [] h = refl
    segments-fill (t ∷ ts) h = segments_from-fill t ts h

    fill-Captures :
        (ts : List PathSegment) → All IsFillable ts → Captures ts (map filled ts) (expected ts)
    fill-Captures [] h = unfold expected in Captures.done
    fill-Captures (t ∷ ts) (inl (p, h), hs) =
        subst (Captures (t ∷ ts) (map filled (t ∷ ts))) (sym (expected_literal t ts p))
          (Captures.literal p (filled_literal t p) (fill-Captures ts hs))
    fill-Captures (t ∷ ts) (inr (p, n, h), hs) =
        subst (Captures (t ∷ ts) (map filled (t ∷ ts))) (sym (expected_param t ts p)) (
          Captures.param p
            (λ e. percent_encode-ne-nil safe (value t.text) n (sym (filled_param t p) ∙ e))
            (rw (filled_param t p)
              (url_decode-percent_encode safe (value t.text) false unreserved h))
            (fill-Captures ts hs))

-- If no literal of a template has a slash, every parameter's value is a byte string that is not
-- empty, and the encoder leaves neither `%` nor `+` nor a slash alone, then the template matches the
-- path that is filled in from it, and captures the values that were put in.
pub match_template-fill :
    (safe : ℕ → Bool) (value : Bytes → Bytes) (ts : List PathSegment)
    → IsUnreserved safe
    → safe slash ≡ false
    → All (IsFillable safe value) ts
    → match_template ts (fill safe value ts) ≡ some (expected safe value ts)
match_template-fill safe value ts unreserved no_slash h = (match_template_iff ts _ _).1 (
    rw (segments-fill safe value unreserved no_slash ts h)
      (fill-Captures safe value unreserved no_slash ts h))
