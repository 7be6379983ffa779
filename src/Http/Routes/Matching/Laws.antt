-- ===== src/Http/Routes/Matching/Laws.antt =====
-- What it means that a template matches a path.
use menagerie.Prelude.{
  ◌≡◌, sym, ap, subst, ◌∙◌, ◌≢◌, ◌↔◌, ◌⊎◌, inl, inr, true, false, some, List, [], ◌∷◌, ◌++◌,
  append_assoc, append-nil, arith, Bool-cases, Option-cases, is_empty, Bytes, bytes_eq,
  bytes_eq_iff, ok, err,
}
use menagerie.Http.UrlDecode.{url_decode, url_decode_arena}
use menagerie.Http.UrlDecode.Laws.{url_decode_arena-eq-url_decode}
use menagerie.Http.Paths.{segments, visit}
use menagerie.Http.Routes.Templates.{PathSegment}
use menagerie.Http.Routes.Matching.{Captured, match_segment, finished, match_template}

-- A literal is met byte for byte; a parameter captures one decoded segment that is not empty.
pub data Captures : List PathSegment → List Bytes → Captured → Type 0 where
  done : Captures [] [] []
  literal :
      {t : PathSegment} {ts : List PathSegment} {seg : Bytes} {segs : List Bytes} {ps : Captured}
      → t.is_param ≡ false
      → seg ≡ t.text
      → Captures ts segs ps
      → Captures (t ∷ ts) (seg ∷ segs) ps
  param :
      {t : PathSegment} {ts : List PathSegment} {seg : Bytes} {segs : List Bytes} {v : Bytes}
      {ps : Captured}
      → t.is_param ≡ true
      → seg ≢ []
      → url_decode seg false ≡ some v
      → Captures ts segs ps
      → Captures (t ∷ ts) (seg ∷ segs) ((t.text, v) ∷ ps)

decoded-eq : (seg : Bytes) → (url_decode_arena seg false).0 ≡ url_decode seg false
decoded-eq seg = (url_decode_arena-eq-url_decode seg false).0

-- The callback on a segment, while the template lasts.
module _ (seg : Bytes) (t : PathSegment) (ts : List PathSegment) (acc : Captured) where
  abbrev Literal : Type 0
  Literal = (match_segment seg (t ∷ ts, acc) ≡ ok (ts, acc)) × (t.is_param ≡ false) × (seg ≡ t.text)

  abbrev Capture : Type 0
  Capture =
      (v : Bytes) × (match_segment seg (t ∷ ts, acc) ≡ ok (ts, acc ++ (t.text, v) ∷ []))
      × (t.is_param ≡ true)
      × (seg ≢ [])
      × (url_decode seg false ≡ some v)

  match_segment-cases : (match_segment seg (t ∷ ts, acc) ≡ err tt) ⊎ (Literal ⊎ Capture)
  unfolding match_segment
  match_segment-cases = elim (Bool-cases t.is_param) [
    | inl p ↦ elim (Bool-cases (is_empty seg)) [
      | inl e ↦ inl (ground arith)
      | inr n ↦ elim (Option-cases (url_decode seg false)) [
        | inl d ↦ inl (ground (arith, decoded-eq seg))
        | inr (v, d) ↦ inr (inr (v, ground (arith, decoded-eq seg), p, nonempty n, d))
      ]
    ]
    | inr p ↦ elim (Bool-cases (bytes_eq seg t.text)) [
      | inl e ↦ inr (inl (ground arith, p, (bytes_eq_iff seg t.text).0 e))
      | inr n ↦ inl (ground arith)
    ]
  ]
    where
      nonempty : {s : Bytes} → is_empty s ≡ false → s ≢ []
      nonempty {s} n e = cc (ap is_empty e)

  match_segment_literal :
      t.is_param ≡ false → seg ≡ t.text → match_segment seg (t ∷ ts, acc) ≡ ok (ts, acc)
  unfolding match_segment
  match_segment_literal p e = ground (arith, (bytes_eq_iff seg t.text).1 e)

  match_segment_param :
      (v : Bytes)
      → t.is_param ≡ true
      → seg ≢ []
      → url_decode seg false ≡ some v
      → match_segment seg (t ∷ ts, acc) ≡ ok (ts, acc ++ (t.text, v) ∷ [])
  unfolding match_segment
  match_segment_param v p n d = ground (arith, decoded-eq seg)

walk_sound :
    (segs : List Bytes) (ts : List PathSegment) (acc out : Captured)
    → finished (visit match_segment segs (ts, acc)) ≡ some out
    → (ps : Captured) × (acc ++ ps ≡ out) × Captures ts segs ps
walk_sound [] [] acc out e = ([], append-nil acc ∙ ground arith, Captures.done)
walk_sound [] (t ∷ ts) acc out e = cc
walk_sound (seg ∷ segs) [] acc out e = unfold match_segment in cc
walk_sound (seg ∷ segs) (t ∷ ts) acc out e = elim (match_segment-cases seg t ts acc) [
  | inl failed ↦ absurd (ground arith)
  | inr (inl (step, p, same)) ↦
      let (ps, q, c) = walk_sound segs ts acc out (rw step at e) in
      (ps, q, Captures.literal p same c)
  | inr (inr (v, step, p, n, d)) ↦
      let (ps, q, c) = walk_sound segs ts (acc ++ (t.text, v) ∷ []) out (rw step at e) in
      ((t.text, v) ∷ ps, sym (append_assoc acc ((t.text, v) ∷ []) ps) ∙ q, Captures.param p n d c)
]

walk_complete :
    {ts : List PathSegment} {segs : List Bytes} {ps : Captured} (acc : Captured)
    → Captures ts segs ps
    → visit match_segment segs (ts, acc) ≡ ok ([], acc ++ ps)
walk_complete acc Captures.done = ap (λ l. ok ([], l)) (sym (append-nil acc))
walk_complete acc (Captures.literal {t} {ts} {seg} p same c) =
    rw (match_segment_literal seg t ts acc p same) (walk_complete acc c)
walk_complete acc (Captures.param {t} {ts} {seg} {v} {ps} p n d c) =
    rw (match_segment_param seg t ts acc v p n d) (
      walk_complete (acc ++ (t.text, v) ∷ []) c
      ∙ ap (λ l. ok ([], l)) (append_assoc acc ((t.text, v) ∷ []) ps))

-- A template matches a path with some captures exactly when the relation holds of its segments.
pub match_template_iff :
    (ts : List PathSegment) (path : Bytes) (ps : Captured)
    → (match_template ts path ≡ some ps) ↔ Captures ts (segments path) ps
unfolding match_template
match_template_iff ts path ps = (
  λ e. let (ps', q, c) = walk_sound (segments path) ts [] ps e in subst (Captures ts _) q c,
  λ c. ap finished (walk_complete [] c),
)
