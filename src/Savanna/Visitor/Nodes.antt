-- ===== src/Savanna/Visitor/Nodes.antt =====
-- component/database-savanna/query/compiler/query_visitor/query_visitor.hpp: the walk of an
-- expression tree, and query_compiler.hpp.
-- The overloads for rvalues and for constants of one node do the same and are one function here. It
-- takes the visits of the children, which `visit` at the end puts in.
pub mod Hooks
pub mod Numbering
pub mod Modes
pub mod Compiling
pub mod Statements
pub mod Tests
use menagerie.Prelude.{
  ℕ, zero, suc, ◌+◌, ◌-◌, ◌*◌, ◌/◌, ◌%◌, ◌^◌, ◌≤◌, ◌<◌, min, max, String, ◌≡◌, refl, sym, ap, subst,
  ◌∙◌, ◌≡⟨◌⟩◌, ◌∎, ◌≢◌, ◌↔◌, ◌⊎◌, inl, inr, Bool, true, false, not, ◌&&◌, ◌||◌, Option, none, some,
  List, [], ◌∷◌, ◌++◌, map, append_assoc, append-nil, arith, ltb, leb, ◌==◌, if◌then◌else◌, ltb→lt,
  lt→ltb, leb→le, ==_iff, ==-eq-false, tests, Bool-cases, Option-cases, and-eq-true, length,
  get_elem?, take, drop, is_empty, any, length-append, take-append-drop, length-take, length-drop,
  All, All-append, All-map, Bytes, bytes, bytes_eq, bytes_eq_refl, bytes_eq_iff, last?, pop_back,
  pop_back-append-last, last?-append-last, is_empty-append, append-eq-nil, Result, ok, err, ◌>>=◌,
  throw_if, Result-cases, throw_if-eq-ok, bind-eq-ok, ok-injective, some-injective, map-eq-some,
}
use menagerie.Savanna.Expressions.{
  OrderDirection, JoinType, SetOperation, BinaryOp, UnaryOp, op_not, is_null, is_not_null,
  Aggregate, TableSchema, Table, Node, column, literal, null_literal, param_placeholder,
  all_columns, binary, unary, between, in_list, subquery, exists, count_all, count, aggregate,
  order_by, select, from_table, from_cte, where_query, group_by, group_by_query, having,
  order_by_query, limit, join, insert, update, delete, set_op, case_when, case_else, cte,
  create_table, drop_table, Nodes, nil, cons, WhenClauses, no_when, when,
}
use menagerie.Savanna.Visitor.{
  ParamMode, inline, tuple, sink, Piece, limit_clause, quote_identifier, SqlGenerator,
  new_generator, Visit, emit, write, skip, ◌>>◌, visit_param_placeholder, visit_value,
  capture_param, visit_alias, visit_table_name, visit_table, visit_schema, visit_column,
  visit_all_columns, visit_binary_op, visit_unary_op, visit_count, visit_aggregate_start,
  visit_aggregate_end, visit_select_start, visit_order_direction, visit_join_start, visit_set_op,
  separator, visit_insert_columns, visit_insert_values, visit_update_set, visit_cte_start,
  visit_create_table_start, visit_create_table_columns, visit_drop_table_start,
  visit_drop_table_end,
}

module _ {V : Type 0} where
  abbrev pub visit_literal : ParamMode → V → Bytes → Visit V
  visit_literal mode value alias =
      visit_value mode value >> visit_alias alias >> capture_param mode value

  abbrev pub visit_binary : BinaryOp → Visit V → Visit V → Visit V
  visit_binary op left right = write "(" >> left >> visit_binary_op op >> right >> write ")"

  abbrev pub visit_unary : UnaryOp → Visit V → Visit V
  visit_unary op_not operand = visit_unary_op op_not >> operand
  visit_unary is_null operand = operand >> visit_unary_op is_null
  visit_unary is_not_null operand = operand >> visit_unary_op is_not_null

  abbrev pub visit_between : Visit V → Visit V → Visit V → Visit V
  visit_between operand lower upper =
      operand >> write " BETWEEN " >> lower >> write " AND " >> upper

  abbrev pub visit_in_list : Visit V → Visit V → Visit V
  visit_in_list operand values = operand >> write " IN (" >> values >> write ")"

  abbrev pub visit_subquery : Visit V → Bytes → Visit V
  visit_subquery query alias = write "(" >> query >> write ")" >> visit_alias alias

  abbrev pub visit_exists : Visit V → Visit V
  visit_exists query = write "EXISTS (" >> query >> write ")"

  abbrev pub visit_count_all : Bool → Bytes → Visit V
  visit_count_all distinct alias =
      visit_count distinct >> visit_all_columns [] >> visit_aggregate_end alias

  -- What the column captures is dropped.
  abbrev pub dropped : Visit V → Visit V
  dropped a g = ((a g).0, [])

  abbrev pub visit_count_column : Bool → Visit V → Bytes → Visit V
  visit_count_column distinct col alias =
      visit_count distinct >> dropped col >> visit_aggregate_end alias

  abbrev pub visit_aggregate : Aggregate → Visit V → Bytes → Visit V
  visit_aggregate function col alias =
      visit_aggregate_start function >> dropped col >> visit_aggregate_end alias

  abbrev pub visit_order_by : Visit V → OrderDirection → Visit V
  visit_order_by col direction = dropped col >> visit_order_direction direction

  abbrev pub visit_select : Bool → Visit V → Visit V
  visit_select distinct columns = visit_select_start distinct >> columns

  abbrev pub visit_from_table : Visit V → Table → Bytes → Visit V
  visit_from_table query table alias =
      query >> write " FROM " >> visit_table table >> visit_alias alias

  abbrev pub visit_cte : Bytes → Visit V → Bool → Visit V
  visit_cte name query recursive =
      visit_cte_start recursive
      >> emit (quote_identifier name)
      >> write " AS ("
      >> query
      >> write ")"
      >> write " "

  abbrev pub visit_from_cte : Visit V → Bytes → Visit V → Bool → Visit V
  visit_from_cte query name cte_query recursive =
      visit_cte name cte_query recursive >> query >> write " FROM " >> visit_table_name name

  abbrev pub visit_where : Visit V → Visit V → Visit V
  visit_where query condition = query >> write " WHERE " >> condition

  abbrev pub visit_group_by : Visit V → Visit V → Visit V
  visit_group_by query columns = query >> write " GROUP BY " >> columns

  abbrev pub visit_having : Visit V → Visit V → Visit V
  visit_having query condition = query >> write " HAVING " >> condition

  abbrev pub visit_order_by_query : Visit V → Visit V → Visit V
  visit_order_by_query query orders = query >> write " ORDER BY " >> orders

  abbrev pub visit_limit : Visit V → ℕ → ℕ → Visit V
  visit_limit query n offset = query >> emit (limit_clause n offset)

  abbrev pub visit_join : Visit V → JoinType → Table → Bytes → Visit V → Visit V
  visit_join query type table alias condition =
      query
      >> visit_join_start type
      >> visit_table table
      >> visit_alias alias
      >> write " ON "
      >> condition

  abbrev pub visit_insert : ParamMode → Table → List Bytes → List (List V) → Visit V
  visit_insert mode table columns rows =
      write "INSERT INTO "
      >> visit_table table
      >> visit_insert_columns columns
      >> visit_insert_values mode true rows

  abbrev pub visit_update : ParamMode → Table → List (Bytes × V) → Visit V
  visit_update mode table assignments =
      write "UPDATE " >> visit_table table >> visit_update_set mode assignments

  abbrev pub visit_delete : Table → Visit V
  visit_delete table = write "DELETE FROM " >> visit_table table

  abbrev pub visit_set_operation : Visit V → Visit V → SetOperation → Visit V
  visit_set_operation left right op = left >> visit_set_op op >> right

  abbrev pub visit_case : Visit V → Bytes → Visit V
  visit_case whens alias = write "CASE" >> whens >> write " END" >> visit_alias alias

  abbrev pub visit_case_else : Visit V → Visit V → Bytes → Visit V
  visit_case_else whens otherwise alias =
      write "CASE" >> whens >> write " ELSE " >> otherwise >> write " END" >> visit_alias alias

  abbrev pub visit_single_when : Visit V → Visit V → Visit V
  visit_single_when condition value = write " WHEN " >> condition >> write " THEN " >> value

  abbrev pub visit_create_table : TableSchema → Bool → Visit V
  visit_create_table table if_not_exists =
      visit_create_table_start if_not_exists
      >> visit_schema table
      >> visit_create_table_columns table

  abbrev pub visit_drop_table : Table → Bool → Bool → Visit V
  visit_drop_table table if_exists cascade =
      visit_drop_table_start if_exists >> visit_table table >> visit_drop_table_end cascade

  unfoldable mutual
    pub visit : ParamMode → Node V → Visit V
    visit mode (column name table alias) = visit_column name table alias
    visit mode (literal value alias) = visit_literal mode value alias
    visit mode null_literal = write "NULL"
    visit mode param_placeholder = visit_param_placeholder
    visit mode (all_columns table) = visit_all_columns table
    visit mode (binary op l r) = visit_binary op (visit mode l) (visit mode r)
    visit mode (unary op e) = visit_unary op (visit mode e)
    visit mode (between o l u) = visit_between (visit mode o) (visit mode l) (visit mode u)
    visit mode (in_list o vs) = visit_in_list (visit mode o) (visit_elements mode true vs)
    visit mode (subquery q alias) = visit_subquery (visit mode q) alias
    visit mode (exists q) = visit_exists (visit mode q)
    visit mode (count_all distinct alias) = visit_count_all distinct alias
    visit mode (count distinct col alias) = visit_count_column distinct (visit mode col) alias
    visit mode (aggregate f col alias) = visit_aggregate f (visit mode col) alias
    visit mode (order_by col dir) = visit_order_by (visit mode col) dir
    visit mode (select distinct cols) = visit_select distinct (visit_elements mode true cols)
    visit mode (from_table q table alias) = visit_from_table (visit mode q) table alias
    visit mode (from_cte q name c rec) = visit_from_cte (visit mode q) name (visit mode c) rec
    visit mode (where_query q c) = visit_where (visit mode q) (visit mode c)
    visit mode (group_by q cols) = visit_group_by (visit mode q) (visit_elements mode true cols)
    visit mode (group_by_query q c) = visit_group_by (visit mode q) (visit mode c)
    visit mode (having q c) = visit_having (visit mode q) (visit mode c)
    visit mode (order_by_query q os) =
        visit_order_by_query (visit mode q) (visit_elements mode true os)
    visit mode (limit q n offset) = visit_limit (visit mode q) n offset
    visit mode (join q type table alias c) =
        visit_join (visit mode q) type table alias (visit mode c)
    visit mode (insert table columns rows) = visit_insert mode table columns rows
    visit mode (update table assignments) = visit_update mode table assignments
    visit mode (delete table) = visit_delete table
    visit mode (set_op l r op) = visit_set_operation (visit mode l) (visit mode r) op
    visit mode (case_when ws alias) = visit_case (visit_whens mode ws) alias
    visit mode (case_else ws e alias) = visit_case_else (visit_whens mode ws) (visit mode e) alias
    visit mode (cte name q rec) = visit_cte name (visit mode q) rec
    visit mode (create_table table if_not_exists) = visit_create_table table if_not_exists
    visit mode (drop_table table if_exists cascade) = visit_drop_table table if_exists cascade

    pub visit_elements : ParamMode → Bool → Nodes V → Visit V
    visit_elements mode first nil = skip
    visit_elements mode first (cons e es) =
        separator first >> visit mode e >> visit_elements mode false es

    pub visit_whens : ParamMode → WhenClauses V → Visit V
    visit_whens mode no_when = skip
    visit_whens mode (when c v ws) =
        visit_single_when (visit mode c) (visit mode v) >> visit_whens mode ws

  -- The text and the parameters captured, of a compilation to a static query.
  unfoldable pub compile_static : ParamMode → Node V → List (Piece V) × List V
  compile_static mode expr = let (g, params) = visit mode expr new_generator in (g.sql, params)

  -- The text and the parameters of the sink, of a compilation at run time.
  unfoldable pub compile_dynamic : ParamMode → Node V → List (Piece V) × List V
  compile_dynamic mode expr =
      let (g, params) = visit mode expr new_generator in (g.sql, g.sink_values)
