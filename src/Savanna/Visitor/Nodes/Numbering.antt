-- ===== src/Savanna/Visitor/Nodes/Numbering.antt =====
-- The three modes side by side: how their texts and their parameters correspond.
use menagerie.Prelude.{
  ℕ, zero, suc, ◌+◌, ◌-◌, ◌≡◌, refl, sym, ap, ◌∙◌, some, List, [], ◌∷◌, ◌++◌, append_assoc,
  append-nil, arith, length, get_elem?, length-append, Bytes,
}
use menagerie.Savanna.Visitor.{
  inline, tuple, sink, Piece, placeholder, format_value, SqlGenerator, Visit, ◌>>◌,
  visit_param_placeholder, visit_value, visit_alias,
}
use menagerie.Savanna.Visitor.Nodes.{visit_literal}
use menagerie.Savanna.Visitor.Nodes.Hooks.{
  placeholders, substitute, placeholders-append, substitute-append, IsPlain, bound, IsPlain-alias,
}

abbrev pub up_from : ℕ → ℕ → List ℕ
up_from start zero = []
up_from start (suc n) = start ∷ up_from (suc start) n

pub up_from-snoc : (start n : ℕ) → up_from start (suc n) ≡ up_from start n ++ (start + n) ∷ []
up_from-snoc start zero = ap (λ k. k ∷ []) (omega arith)
up_from-snoc start (suc n) =
    ap (λ l. start ∷ l)
      (up_from-snoc (suc start) n ∙ ap (λ k. up_from (suc start) n ++ k ∷ []) (omega arith))

module _ {V : Type 0} where
  pub get_elem?-at : (xs ys : List V) (v : V) → get_elem? (xs ++ v ∷ ys) (length xs) ≡ some v
  get_elem?-at [] ys v = refl
  get_elem?-at (x ∷ xs) ys v = get_elem?-at xs ys v

  -- Three generators: a tuple's, a sink's and one that writes values inline.
  pub record Agree (t s i : SqlGenerator V) : Type 0 where
    pub same_sql : t.sql ≡ s.sql
    pub same_count : t.param_count ≡ length s.sink_values
    pub inlined : (ys : List V) → i.sql ≡ substitute (s.sink_values ++ ys) t.sql
    pub numbered : placeholders t.sql ≡ up_from 1 (length s.sink_values)

  -- Three visits that keep this up, of which the first captures what the second pushes.
  pub record Agrees (a b c : Visit V) : Type 0 where
    pub keeps : {t s i : SqlGenerator V} → Agree t s i → Agree (a t).0 (b s).0 (c i).0
    pub pushes :
        {t s i : SqlGenerator V} → Agree t s i → (b s).0.sink_values ≡ s.sink_values ++ (a t).1
    pub sink_drops : {t s i : SqlGenerator V} → Agree t s i → (b s).1 ≡ []
    pub inline_drops : {t s i : SqlGenerator V} → Agree t s i → (c i).1 ≡ []

  Agree-append :
      {t s i : SqlGenerator V} (ps : List (Piece V))
      → placeholders ps ≡ []
      → ((vs : List V) → substitute vs ps ≡ ps)
      → Agree t s i
      → Agree
          (record t { sql = t.sql ++ ps })
          (record s { sql = s.sql ++ ps })
          (record i { sql = i.sql ++ ps })
  Agree-append {t} {s} {i} ps none_placed unbound r = record {
    same_sql = ap (λ l. l ++ ps) r.same_sql;
    same_count = r.same_count;
    inlined = λ ys.
        rw
          (
            substitute-append (s.sink_values ++ ys) t.sql ps,
            unbound (s.sink_values ++ ys),
            r.inlined ys,
          )
          refl;
    numbered =
        placeholders-append t.sql ps ∙ rw (none_placed, append-nil (placeholders t.sql)) r.numbered;
  }

  pub plain-Agrees : {a : Visit V} → IsPlain a → Agrees a a a
  plain-Agrees {a} p = record {
    keeps = λ {t} {s} {i} r.
        rw (p.runs t, p.runs s, p.runs i) (Agree-append p.pieces p.placeholders p.substitute r);
    pushes = λ {t} {s} {i} r. rw (p.runs t, p.runs s) (sym (append-nil s.sink_values));
    sink_drops = λ {t} {s} {i} r. rw (p.runs s) refl;
    inline_drops = λ {t} {s} {i} r. rw (p.runs i) refl;
  }

  pub Agrees->> :
      {a b c a₁ b₁ c₁ : Visit V}
      → Agrees a b c
      → Agrees a₁ b₁ c₁
      → Agrees (a >> a₁) (b >> b₁) (c >> c₁)
  unfolding ◌>>◌
  Agrees->> {a} {b} {c} {a₁} {b₁} {c₁} p q = record {
    keeps = λ {t} {s} {i} r. q.keeps (p.keeps r);
    pushes = λ {t} {s} {i} r.
        q.pushes (p.keeps r) ∙ rw (p.pushes r) (append_assoc s.sink_values (a t).1 (a₁ (a t).0).1);
    sink_drops = λ {t} {s} {i} r. rw (p.sink_drops r) (q.sink_drops (p.keeps r));
    inline_drops = λ {t} {s} {i} r. rw (p.inline_drops r) (q.inline_drops (p.keeps r));
  }

  pub length-snoc : (xs : List V) (v : V) → length (xs ++ v ∷ []) ≡ suc (length xs)
  length-snoc xs v = omega (arith, length-append xs (v ∷ []))

  bound-at :
      (xs ys : List V) (v : V) (n : ℕ)
      → n ≡ length xs
      → bound (n + 1) (get_elem? ((xs ++ v ∷ []) ++ ys) (n + 1 - 1)) ≡ format_value v
  bound-at xs ys v n e =
      let at : n + 1 - 1 ≡ length xs = omega (arith, e) in
      rw (at, append_assoc xs (v ∷ []) ys, get_elem?-at xs ys v) refl

  pub literal_keeps :
      (v : V) {t s i : SqlGenerator V}
      → Agree t s i
      → Agree (visit_param_placeholder t).0 (visit_value sink v s).0 (visit_value inline v i).0
  unfolding visit_value visit_param_placeholder
  literal_keeps v {t} {s} {i} r = record {
    same_sql = rw (r.same_sql, r.same_count) refl;
    same_count = omega (arith, r.same_count, length-snoc s.sink_values v);
    inlined = λ ys.
        rw
          (
            substitute-append ((s.sink_values ++ v ∷ []) ++ ys) t.sql
                (placeholder (t.param_count + 1) ∷ []),
            bound-at s.sink_values ys v t.param_count r.same_count,
            append_assoc s.sink_values (v ∷ []) ys,
            r.inlined (v ∷ ys),
          )
          refl;
    numbered =
        let next : t.param_count + 1 ≡ 1 + length s.sink_values = omega (arith, r.same_count) in
        placeholders-append t.sql (placeholder (t.param_count + 1) ∷ [])
        ∙ rw (r.numbered, next, length-snoc s.sink_values v)
            (sym (up_from-snoc 1 (length s.sink_values)));
  }

  pub literal-Agrees :
      (v : V) (alias : Bytes)
      → Agrees
          (visit_literal tuple v alias)
          (visit_literal sink v alias)
          (visit_literal inline v alias)
  unfolding visit_value visit_param_placeholder ◌>>◌
  literal-Agrees v alias = record {
    keeps = λ {t} {s} {i} r. p.keeps (literal_keeps v r);
    pushes = λ {t} {s} {i} r.
        p.pushes (literal_keeps v r)
        ∙ rw (unaliased (visit_param_placeholder t).0) (append_assoc s.sink_values (v ∷ []) []);
    sink_drops = λ {t} {s} {i} r. rw (p.sink_drops (literal_keeps v r)) refl;
    inline_drops = λ {t} {s} {i} r. rw (p.inline_drops (literal_keeps v r)) refl;
  }
    where
      p : Agrees (visit_alias alias) (visit_alias alias) (visit_alias alias)
      p = plain-Agrees (IsPlain-alias alias)

      unaliased : (g : SqlGenerator V) → (visit_alias alias g).1 ≡ []
      unaliased g = ap (λ x. x.1) ((IsPlain-alias alias).runs g)
