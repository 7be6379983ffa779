-- ===== src/Savanna/Visitor/Nodes/Statements.antt =====
-- INSERT and UPDATE, whose values are not literals of the tree.
use menagerie.Prelude.{
  suc, ◌+◌, ◌≡◌, refl, sym, ap, ◌∙◌, Bool, true, false, List, [], ◌∷◌, ◌++◌, append-nil, length,
  length-append, Bytes, bytes,
}
use menagerie.Savanna.Expressions.{Table, Node, where_query, insert, update}
use menagerie.Savanna.Visitor.{
  ParamMode, inline, tuple, sink, SqlGenerator, new_generator, Visit, insert_row,
  visit_insert_values, update_assignments, visit_update_set, ◌>>◌, visit_param_placeholder,
  visit_value,
}
use menagerie.Savanna.Visitor.Nodes.{visit, compile_static, compile_dynamic}
use menagerie.Savanna.Visitor.Nodes.Hooks.{
  IsPlain-table, IsPlain-insert_columns, IsPlain-quote, placeholders, substitute, IsPlain,
  IsPlain-text, IsPlain-skip, IsPlain-separator,
}
use menagerie.Savanna.Visitor.Nodes.Numbering.{
  up_from, Agrees, plain-Agrees, Agrees->>, literal_keeps,
}
use menagerie.Savanna.Visitor.Nodes.Modes.{BindsLiterals, visit-Agrees}
use menagerie.Savanna.Visitor.Nodes.Compiling.{new-Agree}
use menagerie.Savanna.Visitor.Nodes.{compile_static, compile_dynamic}

module _ {V : Type 0} where
  -- The visit, as if it captured these parameters.
  abbrev capturing : List V → Visit V → Visit V
  capturing vs a g = ((a g).0, vs)

  -- The three visits agree, once the first, which captures nothing, gives these parameters back.
  record Binds (vs : List V) (a b c : Visit V) : Type 0 where
    agrees : Agrees (capturing vs a) b c
    silent : (g : SqlGenerator V) → (a g).1 ≡ []

  plain-Binds : {a : Visit V} → IsPlain a → Binds [] a a a
  plain-Binds {a} p = record {
    agrees = record {
      keeps = λ {t} {s} {i} r. q.keeps r;
      pushes = λ {t} {s} {i} r. q.pushes r ∙ rw (p.runs t) refl;
      sink_drops = λ {t} {s} {i} r. q.sink_drops r;
      inline_drops = λ {t} {s} {i} r. q.inline_drops r;
    };
    silent = λ g. ap (λ x. x.1) (p.runs g);
  }
    where
      q : Agrees a a a
      q = plain-Agrees p

  Binds->> :
      {vs ws : List V} {a b c a₁ b₁ c₁ : Visit V}
      → Binds vs a b c
      → Binds ws a₁ b₁ c₁
      → Binds (vs ++ ws) (a >> a₁) (b >> b₁) (c >> c₁)
  unfolding ◌>>◌
  Binds->> {vs} {ws} {a} p q = record {
    agrees = Agrees->> p.agrees q.agrees;
    silent = λ g. rw (p.silent g, q.silent (a g).0) refl;
  }

  abbrev BindsAt : List V → ((mode : ParamMode) → Visit V) → Type 0
  BindsAt vs a = Binds vs (a tuple) (a sink) (a inline)

  value-Binds : (v : V) → BindsAt (v ∷ []) (λ mode. visit_value mode v)
  unfolding visit_value visit_param_placeholder
  value-Binds v = record {
    agrees = record {
      keeps = λ r. literal_keeps v r;
      pushes = λ r. refl;
      sink_drops = λ r. refl;
      inline_drops = λ r. refl;
    };
    silent = λ g. refl;
  }

  row-Binds : (first : Bool) (row : List V) → BindsAt row (λ mode. insert_row mode first row)
  unfolding insert_row
  row-Binds first [] = plain-Binds IsPlain-skip
  row-Binds first (v ∷ row) =
      Binds->> (plain-Binds (IsPlain-separator first))
        (Binds->> (value-Binds v) (row-Binds false row))

  abbrev pub concat : List (List V) → List V
  concat [] = []
  concat (row ∷ rows) = row ++ concat rows

  rows-Binds :
      (first : Bool) (rows : List (List V))
      → BindsAt (concat rows) (λ mode. visit_insert_values mode first rows)
  unfolding visit_insert_values
  rows-Binds first [] = plain-Binds IsPlain-skip
  rows-Binds first (row ∷ rows) = Binds->> (plain-Binds (IsPlain-separator first)) (
      Binds->> (plain-Binds (IsPlain-text _)) (
        Binds->> (row-Binds true row)
          (Binds->> (plain-Binds (IsPlain-text _)) (rows-Binds false rows))))

  abbrev pub assigned : List (Bytes × V) → List V
  assigned [] = []
  assigned ((col, v) ∷ assignments) = v ∷ assigned assignments

  length-assigned :
      (assignments : List (Bytes × V)) → length (assigned assignments) ≡ length assignments
  length-assigned [] = refl
  length-assigned (a ∷ assignments) = ap suc (length-assigned assignments)

  assignments-Binds :
      (first : Bool) (assignments : List (Bytes × V))
      → BindsAt (assigned assignments) (λ mode. update_assignments mode first assignments)
  unfolding update_assignments
  assignments-Binds first [] = plain-Binds IsPlain-skip
  assignments-Binds first ((col, v) ∷ assignments) =
      Binds->> (plain-Binds (IsPlain-separator first)) (
        Binds->> (plain-Binds (IsPlain-quote col)) (
          Binds->> (plain-Binds (IsPlain-text _))
            (Binds->> (value-Binds v) (assignments-Binds false assignments))))

  insert-Binds :
      (table : Table) (columns : List Bytes) (rows : List (List V))
      → BindsAt (concat rows) (λ mode. visit mode (insert table columns rows))
  unfolding visit
  insert-Binds table columns rows = Binds->> (plain-Binds (IsPlain-text _)) (
      Binds->> (plain-Binds (IsPlain-table table))
        (Binds->> (plain-Binds (IsPlain-insert_columns columns)) (rows-Binds true rows)))

  update-Binds :
      (table : Table) (assignments : List (Bytes × V))
      → BindsAt (assigned assignments) (λ mode. visit mode (update table assignments))
  unfolding visit visit_update_set
  update-Binds table assignments = Binds->> (plain-Binds (IsPlain-text _)) (
      Binds->> (plain-Binds (IsPlain-table table))
        (Binds->> (plain-Binds (IsPlain-text _)) (assignments-Binds true assignments)))

  -- A statement whose compilation into a sink has these values for its placeholders, numbered from
  -- 1, and whose text with the values inline has each at its placeholder.
  pub record SinksValues (e : Node V) (vs : List V) : Type 0 where
    pub values : (compile_dynamic sink e).1 ≡ vs
    pub numbered : placeholders (compile_dynamic sink e).0 ≡ up_from 1 (length vs)
    pub inlined : (compile_static inline e).0 ≡ substitute vs (compile_dynamic sink e).0

  Agrees-SinksValues :
      (e : Node V) {vs : List V} {a : Visit V}
      → Agrees a (visit sink e) (visit inline e)
      → (a new_generator).1 ≡ vs
      → SinksValues e vs
  unfolding compile_static compile_dynamic
  Agrees-SinksValues e {vs} b given =
      let kept = b.keeps new-Agree in
      let pushed : (visit sink e new_generator).0.sink_values ≡ vs = b.pushes new-Agree ∙ given in
      record {
        values = pushed;
        numbered =
            ap placeholders (sym kept.same_sql)
            ∙ (kept.numbered ∙ ap (λ l. up_from 1 (length l)) pushed);
        inlined =
            kept.inlined []
            ∙ rw (append-nil (visit sink e new_generator).0.sink_values, pushed, kept.same_sql)
                refl;
      }

  -- An INSERT that is compiled into a sink has the values of its rows, row by row, and one
  -- placeholder for each, numbered in order from 1; with the values inline, each stands at its
  -- placeholder.
  pub compile_dynamic-insert :
      (table : Table) (columns : List Bytes) (rows : List (List V))
      → SinksValues (insert table columns rows) (concat rows)
  compile_dynamic-insert table columns rows =
      Agrees-SinksValues (insert table columns rows) (insert-Binds table columns rows).agrees refl

  -- An UPDATE that is compiled into a sink has the values of its assignments, in order, and one
  -- placeholder for each, numbered in order from 1; with the values inline, each stands at its
  -- placeholder.
  pub compile_dynamic-update :
      (table : Table) (assignments : List (Bytes × V))
      → SinksValues (update table assignments) (assigned assignments)
  compile_dynamic-update table assignments =
      Agrees-SinksValues (update table assignments) (update-Binds table assignments).agrees refl

  -- What the first of two visits does not give back is missing at the end.
  placeholders-dropped :
      {vs : List V} {a b c a₁ b₁ c₁ : Visit V}
      → Binds vs a b c
      → Agrees a₁ b₁ c₁
      → let (g, params) = (a >> a₁) new_generator in
        placeholders g.sql ≡ up_from 1 (length vs + length params)
  unfolding ◌>>◌
  placeholders-dropped {vs} {a} {a₁} p q =
      let agrees = Agrees->> p.agrees q in
      (agrees.keeps new-Agree).numbered
      ∙ (ap (λ l. up_from 1 (length l)) (agrees.pushes new-Agree)
          ∙ rw (p.silent new_generator)
              (ap (up_from 1) (length-append vs (a₁ (a new_generator).0).1)))

  -- If the parameters of a condition are literals, the static query of an UPDATE with that WHERE
  -- has as many placeholders as there are assignments and parameters: the parameters collected are
  -- fewer than the placeholders by the number of assignments.
  pub placeholders-update_where :
      (table : Table) (assignments : List (Bytes × V)) (condition : Node V)
      → BindsLiterals condition
      → let (sql, params) =
          compile_static tuple (where_query (update table assignments) condition) in
        placeholders sql ≡ up_from 1 (length assignments + length params)
  unfolding compile_static visit
  placeholders-update_where table assignments condition b = rw⁻¹ (length-assigned assignments) (
      placeholders-dropped (update-Binds table assignments)
        (Agrees->> (plain-Agrees (IsPlain-text (bytes " WHERE "))) (visit-Agrees condition b)))
