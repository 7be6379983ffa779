-- ===== src/Savanna/Visitor/Nodes/Modes.antt =====
-- The three modes on a tree whose parameters are literals.
use menagerie.Prelude.{◌≡◌, sym, ap, subst, Bool, true, false, [], Bytes}
use menagerie.Savanna.Expressions.{
  op_not, is_null, is_not_null, Node, column, literal, null_literal, param_placeholder, all_columns,
  binary, unary, between, in_list, subquery, exists, count_all, count, aggregate, order_by, select,
  from_table, from_cte, where_query, group_by, group_by_query, having, order_by_query, limit, join,
  insert, update, delete, set_op, case_when, case_else, cte, create_table, drop_table, Nodes, nil,
  cons, WhenClauses, no_when, when,
}
use menagerie.Savanna.Visitor.{ParamMode, inline, tuple, sink, Visit}
use menagerie.Savanna.Visitor.Nodes.{visit, visit_elements, visit_whens, dropped}
use menagerie.Savanna.Visitor.Nodes.Hooks.{IsPlain, IsPlain-column, IsPlain-skip, plain_hooks}
use menagerie.Savanna.Visitor.Nodes.Numbering.{Agrees, plain-Agrees, Agrees->>, literal-Agrees}

module _ {V : Type 0} where
  pub record IsColumn (e : Node V) : Type 0 where
    pub name : Bytes
    pub table : Bytes
    pub alias : Bytes
    pub is : e ≡ column name table alias

  -- The trees whose parameters are literals: without ParamPlaceholder, INSERT and UPDATE, and with
  -- plain columns under COUNT, the other aggregates and an element of ORDER BY.
  unfoldable mutual
    pub BindsLiterals : Node V → Type 0
    BindsLiterals (column name table alias) = Unit
    BindsLiterals (literal value alias) = Unit
    BindsLiterals null_literal = Unit
    BindsLiterals param_placeholder = ⊥
    BindsLiterals (all_columns table) = Unit
    BindsLiterals (binary op l r) = BindsLiterals l × BindsLiterals r
    BindsLiterals (unary op e) = BindsLiterals e
    BindsLiterals (between o l u) = BindsLiterals o × BindsLiterals l × BindsLiterals u
    BindsLiterals (in_list o vs) = BindsLiterals o × AllBindLiterals vs
    BindsLiterals (subquery q alias) = BindsLiterals q
    BindsLiterals (exists q) = BindsLiterals q
    BindsLiterals (count_all distinct alias) = Unit
    BindsLiterals (count distinct col alias) = IsColumn col
    BindsLiterals (aggregate f col alias) = IsColumn col
    BindsLiterals (order_by col dir) = IsColumn col
    BindsLiterals (select distinct cols) = AllBindLiterals cols
    BindsLiterals (from_table q table alias) = BindsLiterals q
    BindsLiterals (from_cte q name c rec) = BindsLiterals q × BindsLiterals c
    BindsLiterals (where_query q c) = BindsLiterals q × BindsLiterals c
    BindsLiterals (group_by q cols) = BindsLiterals q × AllBindLiterals cols
    BindsLiterals (group_by_query q c) = BindsLiterals q × BindsLiterals c
    BindsLiterals (having q c) = BindsLiterals q × BindsLiterals c
    BindsLiterals (order_by_query q os) = BindsLiterals q × AllBindLiterals os
    BindsLiterals (limit q n offset) = BindsLiterals q
    BindsLiterals (join q type table alias c) = BindsLiterals q × BindsLiterals c
    BindsLiterals (insert table columns rows) = ⊥
    BindsLiterals (update table assignments) = ⊥
    BindsLiterals (delete table) = Unit
    BindsLiterals (set_op l r op) = BindsLiterals l × BindsLiterals r
    BindsLiterals (case_when ws alias) = WhensBindLiterals ws
    BindsLiterals (case_else ws e alias) = WhensBindLiterals ws × BindsLiterals e
    BindsLiterals (cte name q rec) = BindsLiterals q
    BindsLiterals (create_table table if_not_exists) = Unit
    BindsLiterals (drop_table table if_exists cascade) = Unit

    pub AllBindLiterals : Nodes V → Type 0
    AllBindLiterals nil = Unit
    AllBindLiterals (cons e es) = BindsLiterals e × AllBindLiterals es

    pub WhensBindLiterals : WhenClauses V → Type 0
    WhensBindLiterals no_when = Unit
    WhensBindLiterals (when c v ws) = BindsLiterals c × BindsLiterals v × WhensBindLiterals ws

  dropped-IsPlain : {a : Visit V} → IsPlain a → IsPlain (dropped a)
  dropped-IsPlain p = record {
    pieces = p.pieces;
    runs = λ g. ap (λ x. (x.0, [])) (p.runs g);
    placeholders = p.placeholders;
    substitute = p.substitute;
  }

  abbrev AgreesAt : ((mode : ParamMode) → Visit V) → Type 0
  AgreesAt a = Agrees (a tuple) (a sink) (a inline)

  dropped_column : {e : Node V} → IsColumn e → AgreesAt (λ mode. dropped (visit mode e))
  unfolding visit
  dropped_column c =
      subst (λ e. AgreesAt (λ mode. dropped (visit mode e))) (sym c.is)
        (plain-Agrees (dropped-IsPlain (IsPlain-column c.name c.table c.alias)))

  ruleset agreeing = (plain_hooks, plain-Agrees, Agrees->>)

  mutual
    unfolding visit BindsLiterals

    pub visit-Agrees : (e : Node V) → BindsLiterals e → AgreesAt (λ mode. visit mode e)
    visit-Agrees (column name table alias) b = search agreeing depth 16
    visit-Agrees (literal value alias) b = literal-Agrees value alias
    visit-Agrees null_literal b = search agreeing depth 16
    visit-Agrees param_placeholder b = absurd b
    visit-Agrees (all_columns table) b = search agreeing depth 16
    visit-Agrees (binary op l r) (p, q) =
        let x : AgreesAt (λ mode. visit mode l) = visit-Agrees l p in
        let y : AgreesAt (λ mode. visit mode r) = visit-Agrees r q in search agreeing depth 16
    visit-Agrees (unary op_not e) p =
        let x : AgreesAt (λ mode. visit mode e) = visit-Agrees e p in search agreeing depth 16
    visit-Agrees (unary is_null e) p =
        let x : AgreesAt (λ mode. visit mode e) = visit-Agrees e p in search agreeing depth 16
    visit-Agrees (unary is_not_null e) p =
        let x : AgreesAt (λ mode. visit mode e) = visit-Agrees e p in search agreeing depth 16
    visit-Agrees (between o l u) (p, q, r) =
        let x : AgreesAt (λ mode. visit mode o) = visit-Agrees o p in
        let y : AgreesAt (λ mode. visit mode l) = visit-Agrees l q in
        let z : AgreesAt (λ mode. visit mode u) = visit-Agrees u r in search agreeing depth 16
    visit-Agrees (in_list o vs) (p, q) =
        let x : AgreesAt (λ mode. visit mode o) = visit-Agrees o p in
        let y : AgreesAt (λ mode. visit_elements mode true vs) = elements-Agrees true vs q in
        search agreeing depth 16
    visit-Agrees (subquery e alias) p =
        let x : AgreesAt (λ mode. visit mode e) = visit-Agrees e p in search agreeing depth 16
    visit-Agrees (exists e) p =
        let x : AgreesAt (λ mode. visit mode e) = visit-Agrees e p in search agreeing depth 16
    visit-Agrees (count_all distinct alias) b = search agreeing depth 16
    visit-Agrees (count distinct col alias) b =
        let x : AgreesAt (λ mode. dropped (visit mode col)) = dropped_column b in
        search agreeing depth 16
    visit-Agrees (aggregate f col alias) b =
        let x : AgreesAt (λ mode. dropped (visit mode col)) = dropped_column b in
        search agreeing depth 16
    visit-Agrees (order_by col dir) b =
        let x : AgreesAt (λ mode. dropped (visit mode col)) = dropped_column b in
        search agreeing depth 16
    visit-Agrees (select distinct es) p =
        let x : AgreesAt (λ mode. visit_elements mode true es) = elements-Agrees true es p in
        search agreeing depth 16
    visit-Agrees (from_table e table alias) p =
        let x : AgreesAt (λ mode. visit mode e) = visit-Agrees e p in search agreeing depth 16
    visit-Agrees (from_cte l name r rec) (p, q) =
        let x : AgreesAt (λ mode. visit mode l) = visit-Agrees l p in
        let y : AgreesAt (λ mode. visit mode r) = visit-Agrees r q in search agreeing depth 16
    visit-Agrees (where_query l r) (p, q) =
        let x : AgreesAt (λ mode. visit mode l) = visit-Agrees l p in
        let y : AgreesAt (λ mode. visit mode r) = visit-Agrees r q in search agreeing depth 16
    visit-Agrees (group_by l es) (p, q) =
        let x : AgreesAt (λ mode. visit mode l) = visit-Agrees l p in
        let y : AgreesAt (λ mode. visit_elements mode true es) = elements-Agrees true es q in
        search agreeing depth 16
    visit-Agrees (group_by_query l r) (p, q) =
        let x : AgreesAt (λ mode. visit mode l) = visit-Agrees l p in
        let y : AgreesAt (λ mode. visit mode r) = visit-Agrees r q in search agreeing depth 16
    visit-Agrees (having l r) (p, q) =
        let x : AgreesAt (λ mode. visit mode l) = visit-Agrees l p in
        let y : AgreesAt (λ mode. visit mode r) = visit-Agrees r q in search agreeing depth 16
    visit-Agrees (order_by_query l es) (p, q) =
        let x : AgreesAt (λ mode. visit mode l) = visit-Agrees l p in
        let y : AgreesAt (λ mode. visit_elements mode true es) = elements-Agrees true es q in
        search agreeing depth 16
    visit-Agrees (limit e n offset) p =
        let x : AgreesAt (λ mode. visit mode e) = visit-Agrees e p in search agreeing depth 16
    visit-Agrees (join l type table alias r) (p, q) =
        let x : AgreesAt (λ mode. visit mode l) = visit-Agrees l p in
        let y : AgreesAt (λ mode. visit mode r) = visit-Agrees r q in search agreeing depth 16
    visit-Agrees (insert table columns rows) b = absurd b
    visit-Agrees (update table assignments) b = absurd b
    visit-Agrees (delete table) b = search agreeing depth 16
    visit-Agrees (set_op l r op) (p, q) =
        let x : AgreesAt (λ mode. visit mode l) = visit-Agrees l p in
        let y : AgreesAt (λ mode. visit mode r) = visit-Agrees r q in search agreeing depth 16
    visit-Agrees (case_when ws alias) p =
        let x : AgreesAt (λ mode. visit_whens mode ws) = whens-Agrees ws p in
        search agreeing depth 16
    visit-Agrees (case_else ws e alias) (p, q) =
        let x : AgreesAt (λ mode. visit_whens mode ws) = whens-Agrees ws p in
        let y : AgreesAt (λ mode. visit mode e) = visit-Agrees e q in search agreeing depth 16
    visit-Agrees (cte name e rec) p =
        let x : AgreesAt (λ mode. visit mode e) = visit-Agrees e p in search agreeing depth 16
    visit-Agrees (create_table table if_not_exists) b = search agreeing depth 16
    visit-Agrees (drop_table table if_exists cascade) b = search agreeing depth 16

    elements-Agrees :
        (first : Bool) (es : Nodes V)
        → AllBindLiterals es
        → AgreesAt (λ mode. visit_elements mode first es)
    elements-Agrees first nil b = plain-Agrees IsPlain-skip
    elements-Agrees first (cons e es) (p, q) =
        let x : AgreesAt (λ mode. visit mode e) = visit-Agrees e p in
        let y : AgreesAt (λ mode. visit_elements mode false es) = elements-Agrees false es q in
        search agreeing depth 16

    whens-Agrees :
        (ws : WhenClauses V) → WhensBindLiterals ws → AgreesAt (λ mode. visit_whens mode ws)
    whens-Agrees no_when b = plain-Agrees IsPlain-skip
    whens-Agrees (when c v ws) (p, q, r) =
        let x : AgreesAt (λ mode. visit mode c) = visit-Agrees c p in
        let y : AgreesAt (λ mode. visit mode v) = visit-Agrees v q in
        let z : AgreesAt (λ mode. visit_whens mode ws) = whens-Agrees ws r in
        search agreeing depth 16
