-- ===== src/Http/Routes/Parametric.antt =====
-- The list of parametric templates, one template and one slot at a time.
use menagerie.Prelude.{
  ◌≡◌, refl, sym, ap, ◌∙◌, ◌≢◌, ◌⊎◌, inl, inr, true, false, and-eq-true, ◌&&◌, Option, none, some,
  List, [], ◌∷◌, if◌then◌else◌, Bool-cases, Option-cases, Bytes,
}
use menagerie.Http.Method.{HttpMethod}
use menagerie.Http.Routes.{
  set_slot, empty_slots, ParamTemplate, add_parametric, conflict, duplicate_route, different_names,
}
use menagerie.Http.Routes.Exact.{set_slot_kept, set_slot_self}
use menagerie.Http.Routes.Templates.{PathSegment, same_shape, names_match}
use menagerie.Http.Routes.Templates.Shapes.{same_shape_refl, names_match_refl, eq_of_same_shape}

module _ {H : Type 0} where
  -- The handler of a template and a method; templates are told apart by shape and names.
  pub template_slot : List (ParamTemplate H) → List PathSegment → HttpMethod → Option H
  template_slot [] segments m = none
  template_slot (t ∷ templates) segments m =
      if same_shape t.segments segments && names_match t.segments segments
      then t.by_method m
      else template_slot templates segments m

  -- The cases of a template.
  module _ (m : HttpMethod) (key : Bytes) (segments : List PathSegment) (h : H)
      (t : ParamTemplate H) (templates : List (ParamTemplate H)) where
    add_parametric_other :
        same_shape t.segments segments ≡ false
        → add_parametric m key segments h (t ∷ templates) ≡ (
          t ∷ (add_parametric m key segments h templates).0,
          (add_parametric m key segments h templates).1,
        )
    unfolding add_parametric
    add_parametric_other n = rw n

    add_parametric_renamed :
        same_shape t.segments segments ≡ true
        → names_match t.segments segments ≡ false
        → add_parametric m key segments h (t ∷ templates)
          ≡ (t ∷ templates, conflict m key different_names)
    unfolding add_parametric
    add_parametric_renamed y n = rw (y, n)

    add_parametric_taken :
        (g : H)
        → same_shape t.segments segments ≡ true
        → names_match t.segments segments ≡ true
        → t.by_method m ≡ some g
        → add_parametric m key segments h (t ∷ templates)
          ≡ (t ∷ templates, conflict m key duplicate_route)
    unfolding add_parametric
    add_parametric_taken g y n held = simp (y, n, held)

    add_parametric_free :
        same_shape t.segments segments ≡ true
        → names_match t.segments segments ≡ true
        → t.by_method m ≡ none
        → add_parametric m key segments h (t ∷ templates)
          ≡ (record t { by_method = set_slot t.by_method m h } ∷ templates, [])
    unfolding add_parametric
    add_parametric_free y n free = simp (y, n, free)

  template_slot-cons_mono :
      (t t' : ParamTemplate H) (templates templates' : List (ParamTemplate H))
      (segments : List PathSegment) (n : HttpMethod) (g : H)
      → t'.segments ≡ t.segments
      → (t.by_method n ≡ some g → t'.by_method n ≡ some g)
      → (template_slot templates segments n ≡ some g → template_slot templates' segments n ≡ some g)
      → template_slot (t ∷ templates) segments n ≡ some g
      → template_slot (t' ∷ templates') segments n ≡ some g
  unfolding template_slot
  template_slot-cons_mono t t' templates templates' segments n g same here there e =
      elim (Bool-cases (same_shape t.segments segments && names_match t.segments segments)) [
        | inl y ↦ simp (same, y) (here (rw (y, template_slot) at e))
        | inr o ↦ simp (same, o) (there (rw (o, template_slot) at e))
      ]

  -- A handler that stands in a template stays there, whatever is added.
  pub template_slot-add_parametric_kept :
      (m : HttpMethod) (key : Bytes) (segments : List PathSegment) (h : H)
      (templates : List (ParamTemplate H)) (segments' : List PathSegment) (n : HttpMethod) (g : H)
      → template_slot templates segments' n ≡ some g
      → template_slot (add_parametric m key segments h templates).0 segments' n ≡ some g
  template_slot-add_parametric_kept m key segments h [] segments' n g e = unfold template_slot in cc
  template_slot-add_parametric_kept m key segments h (t ∷ templates) segments' n g e =
      elim (Bool-cases (same_shape t.segments segments)) [
        | inr o ↦ rw (add_parametric_other m key segments h t templates o) (
            template_slot-cons_mono t t templates _ segments' n g refl (λ q. q)
              (template_slot-add_parametric_kept m key segments h templates segments' n g) e)
        | inl y ↦ elim (Bool-cases (names_match t.segments segments)) [
          | inr o ↦ rw (add_parametric_renamed m key segments h t templates y o) e
          | inl y' ↦ elim (Option-cases (t.by_method m)) [
            | inr (g0, held) ↦ rw (add_parametric_taken m key segments h t templates g0 y y' held) e
            | inl free ↦ rw (add_parametric_free m key segments h t templates y y' free) (
                template_slot-cons_mono t _ templates templates segments' n g refl
                  (set_slot_kept t.by_method m n h g free) (λ q. q) e)
          ]
        ]
      ]

  template_slot_other :
      (t : ParamTemplate H) (templates : List (ParamTemplate H)) (segments : List PathSegment)
      (m : HttpMethod)
      → same_shape t.segments segments ≡ false
      → template_slot (t ∷ templates) segments m ≡ template_slot templates segments m
  unfolding template_slot
  template_slot_other t templates segments m o = rw o

  -- Without a conflict the new handler stands in a template of its shape and names.
  pub template_slot-add_parametric :
      (m : HttpMethod) (key : Bytes) (segments : List PathSegment) (h : H)
      (templates : List (ParamTemplate H))
      → (add_parametric m key segments h templates).1 ≡ []
      → template_slot (add_parametric m key segments h templates).0 segments m ≡ some h
  template_slot-add_parametric m key segments h [] e =
      unfold add_parametric template_slot in
      rw (same_shape_refl segments, names_match_refl segments) (set_slot_self empty_slots m h)
  template_slot-add_parametric m key segments h (t ∷ templates) e =
      elim (Bool-cases (same_shape t.segments segments)) [
        | inr o ↦
            let eq = add_parametric_other m key segments h t templates o in
            rw eq (
              template_slot_other t _ segments m o
              ∙ template_slot-add_parametric m key segments h templates
                  (sym (ap (λ r. r.1) eq) ∙ e))
        | inl y ↦ elim (Bool-cases (names_match t.segments segments)) [
          | inr o ↦ cc (ap (λ r. r.1) (add_parametric_renamed m key segments h t templates y o))
          | inl y' ↦ elim (Option-cases (t.by_method m)) [
            | inr (g0, held) ↦
                cc (ap (λ r. r.1) (add_parametric_taken m key segments h t templates g0 y y' held))
            | inl free ↦
                rw (add_parametric_free m key segments h t templates y y' free)
                  (unfold template_slot in rw (y, y') (set_slot_self t.by_method m h))
          ]
        ]
      ]

  -- Where a handler stands: in the first template, which is then the one sought, or behind it.
  pub template_slot-cases :
      (t : ParamTemplate H) (templates : List (ParamTemplate H)) (segments : List PathSegment)
      (m : HttpMethod) (h : H)
      → template_slot (t ∷ templates) segments m ≡ some h
      → ((t.segments ≡ segments) × (t.by_method m ≡ some h))
        ⊎ ((t.segments ≢ segments) × (template_slot templates segments m ≡ some h))
  unfolding template_slot
  template_slot-cases t templates segments m h e =
      elim (Bool-cases (same_shape t.segments segments && names_match t.segments segments)) [
        | inl y ↦
            let (shape, names) = and-eq-true _ _ y in
            inl (eq_of_same_shape t.segments segments shape names, rw (y, template_slot) at e)
        | inr o ↦ inr (
          (λ q.
              let never : true ≡ false =
                sym (rw (q, same_shape_refl segments, names_match_refl segments)) ∙ o in
              cc),
          rw (o, template_slot) at e,
        )
      ]
