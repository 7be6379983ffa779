-- ===== src/Savanna/Visitor.antt =====
-- component/database-savanna/query/compiler/query_visitor/sql_generator_visitor.hpp and its .inl:
-- the hooks of the SQL generator.
-- The dialect is a template argument of the generator: its calls are pieces of the text, which
-- Savanna/Dialect renders for PostgreSQL. A hook is a function on the generator's state that also
-- gives the parameters captured, and `no_params` is the empty list; the hooks that emit nothing are
-- left out. The sink of a compilation is the list of the values pushed to it.
pub mod Nodes
use menagerie.Prelude.{
  ℕ, zero, suc, ◌+◌, ◌-◌, ◌*◌, ◌/◌, ◌%◌, ◌^◌, ◌≤◌, ◌<◌, min, max, String, ◌≡◌, refl, sym, ap, subst,
  ◌∙◌, ◌≡⟨◌⟩◌, ◌∎, ◌≢◌, ◌↔◌, ◌⊎◌, inl, inr, Bool, true, false, not, ◌&&◌, ◌||◌, Option, none, some,
  List, [], ◌∷◌, ◌++◌, map, append_assoc, append-nil, arith, ltb, leb, ◌==◌, if◌then◌else◌, ltb→lt,
  lt→ltb, leb→le, ==_iff, ==-eq-false, tests, Bool-cases, Option-cases, and-eq-true, length,
  get_elem?, take, drop, is_empty, any, length-append, take-append-drop, length-take, length-drop,
  All, All-append, All-map, Bytes, bytes, bytes_eq, bytes_eq_refl, bytes_eq_iff, last?, pop_back,
  pop_back-append-last, last?-append-last, is_empty-append, append-eq-nil, Result, ok, err, ◌>>=◌,
  throw_if, Result-cases, throw_if-eq-ok, bind-eq-ok, ok-injective, some-injective, map-eq-some,
}
use menagerie.Savanna.Expressions.{
  OrderDirection, asc, desc, JoinType, inner, left, right, full, cross, SetOperation, union,
  union_all, intersect, except, BinaryOp, equal, not_equal, less, less_equal, greater,
  greater_equal, and, or, like, not_like, in_op, UnaryOp, op_not, is_null, is_not_null, Aggregate,
  sum, avg, max_of, min_of, FieldSchema, TableSchema, dynamic_null, dynamic_table, static_table,
  Table, by_name, by_schema,
}

pub data ParamMode : Type 0 where
  inline tuple sink : ParamMode

pub data Piece (V : Type 0) : Type 0 where
  text : Bytes → Piece V
  quote_identifier : Bytes → Piece V
  placeholder : ℕ → Piece V
  format_value : V → Piece V
  limit_clause : ℕ → ℕ → Piece V

pub record SqlGenerator (V : Type 0) : Type 0 where
  pub sql : List (Piece V)
  pub sink_values : List V
  pub param_count : ℕ

abbrev pub new_generator : {V : Type 0} → SqlGenerator V
new_generator = record { sql = []; sink_values = []; param_count = 0 }

abbrev pub Visit : Type 0 → Type 0
Visit V = SqlGenerator V → SqlGenerator V × List V

abbrev pub emit : {V : Type 0} → Piece V → Visit V
emit p g = (record g { sql = g.sql ++ p ∷ [] }, [])

abbrev pub write : {V : Type 0} → String → Visit V
write s = emit (text (bytes s))

abbrev pub skip : {V : Type 0} → Visit V
skip g = (g, [])

-- One hook after the other: `cat_params` puts what they captured together in that order.
infixr 5 ◌>>◌
unfoldable pub ◌>>◌ : {V : Type 0} → Visit V → Visit V → Visit V
◌>>◌ a b g = let (g₁, first) = a g in let (g₂, second) = b g₁ in (g₂, first ++ second)

module _ {V : Type 0} where
  -- `values.push_back`; the index given back is the number of values.
  abbrev pub push : V → SqlGenerator V → SqlGenerator V × ℕ
  push value g = (record g { sink_values = g.sink_values ++ value ∷ [] }, length g.sink_values + 1)

  -- `DialectT::placeholder(sql_, ++param_count_)`.
  unfoldable pub visit_param_placeholder : Visit V
  visit_param_placeholder g = (
    record g {
      sql = g.sql ++ placeholder (g.param_count + 1) ∷ [];
      param_count = g.param_count + 1;
    },
    [],
  )

  unfoldable pub visit_value : ParamMode → V → Visit V
  visit_value inline value g = emit (format_value value) g
  visit_value tuple value g = visit_param_placeholder g
  visit_value sink value g = let (pushed, idx) = push value g in emit (placeholder idx) pushed

  -- A parameter of the result, in the one mode that collects them.
  abbrev pub capture_param : ParamMode → V → Visit V
  capture_param inline value g = (g, [])
  capture_param tuple value g = (g, value ∷ [])
  capture_param sink value g = (g, [])

  unfoldable pub visit_alias : Bytes → Visit V
  visit_alias alias = if is_empty alias then skip else write " AS " >> emit (quote_identifier alias)

  unfoldable pub visit_table_name : Bytes → Visit V
  visit_table_name name = if is_empty name then skip else emit (quote_identifier name)

  unfoldable pub visit_schema : TableSchema → Visit V
  visit_schema dynamic_null = skip
  visit_schema (dynamic_table name fields) = emit (quote_identifier name)
  visit_schema (static_table name fields) = visit_table_name name

  unfoldable pub visit_table : Table → Visit V
  visit_table (by_name name) = visit_table_name name
  visit_table (by_schema schema) = visit_schema schema

  abbrev pub visit_qualifier : Bytes → Visit V
  visit_qualifier table = if is_empty table then skip else visit_table_name table >> write "."

  unfoldable pub visit_column : Bytes → Bytes → Bytes → Visit V
  visit_column name table alias =
      visit_qualifier table >> emit (quote_identifier name) >> visit_alias alias

  unfoldable pub visit_all_columns : Bytes → Visit V
  visit_all_columns table = visit_qualifier table >> write "*"

  unfoldable pub visit_binary_op : BinaryOp → Visit V
  visit_binary_op equal = write " = "
  visit_binary_op not_equal = write " != "
  visit_binary_op less = write " < "
  visit_binary_op less_equal = write " <= "
  visit_binary_op greater = write " > "
  visit_binary_op greater_equal = write " >= "
  visit_binary_op and = write " AND "
  visit_binary_op or = write " OR "
  visit_binary_op like = write " LIKE "
  visit_binary_op not_like = write " NOT LIKE "
  visit_binary_op in_op = write " IN "

  unfoldable pub visit_unary_op : UnaryOp → Visit V
  visit_unary_op op_not = write "NOT "
  visit_unary_op is_null = write " IS NULL"
  visit_unary_op is_not_null = write " IS NOT NULL"

  unfoldable pub visit_count : Bool → Visit V
  visit_count distinct = write "COUNT(" >> (if distinct then write "DISTINCT " else skip)

  unfoldable pub visit_aggregate_start : Aggregate → Visit V
  visit_aggregate_start sum = write "SUM("
  visit_aggregate_start avg = write "AVG("
  visit_aggregate_start max_of = write "MAX("
  visit_aggregate_start min_of = write "MIN("

  unfoldable pub visit_aggregate_end : Bytes → Visit V
  visit_aggregate_end alias = write ")" >> visit_alias alias

  unfoldable pub visit_select_start : Bool → Visit V
  visit_select_start distinct = write "SELECT " >> (if distinct then write "DISTINCT " else skip)

  unfoldable pub visit_order_direction : OrderDirection → Visit V
  visit_order_direction asc = write " ASC"
  visit_order_direction desc = write " DESC"

  unfoldable pub visit_join_start : JoinType → Visit V
  visit_join_start inner = write " INNER JOIN "
  visit_join_start left = write " LEFT JOIN "
  visit_join_start right = write " RIGHT JOIN "
  visit_join_start full = write " FULL OUTER JOIN "
  visit_join_start cross = write " CROSS JOIN "

  unfoldable pub visit_set_op : SetOperation → Visit V
  visit_set_op union = write " UNION "
  visit_set_op union_all = write " UNION ALL "
  visit_set_op intersect = write " INTERSECT "
  visit_set_op except = write " EXCEPT "

  abbrev pub separator : Bool → Visit V
  separator first = if first then skip else write ", "

  -- The loop over the columns, and whether it is still at the first.
  unfoldable pub insert_columns : Bool → List Bytes → Visit V
  insert_columns first [] = skip
  insert_columns first (col ∷ columns) =
      separator first >> emit (quote_identifier col) >> insert_columns false columns

  unfoldable pub visit_insert_columns : List Bytes → Visit V
  visit_insert_columns columns = write " (" >> insert_columns true columns >> write ") VALUES "

  unfoldable pub insert_row : ParamMode → Bool → List V → Visit V
  insert_row mode first [] = skip
  insert_row mode first (val ∷ row) =
      separator first >> visit_value mode val >> insert_row mode false row

  unfoldable pub visit_insert_values : ParamMode → Bool → List (List V) → Visit V
  visit_insert_values mode first [] = skip
  visit_insert_values mode first (row ∷ rows) =
      separator first
      >> write "("
      >> insert_row mode true row
      >> write ")"
      >> visit_insert_values mode false rows

  unfoldable pub update_assignments : ParamMode → Bool → List (Bytes × V) → Visit V
  update_assignments mode first [] = skip
  update_assignments mode first ((col, val) ∷ assignments) =
      separator first
      >> emit (quote_identifier col)
      >> write " = "
      >> visit_value mode val
      >> update_assignments mode false assignments

  unfoldable pub visit_update_set : ParamMode → List (Bytes × V) → Visit V
  visit_update_set mode assignments = write " SET " >> update_assignments mode true assignments

  unfoldable pub visit_cte_start : Bool → Visit V
  visit_cte_start recursive = write "WITH " >> (if recursive then write "RECURSIVE " else skip)

  unfoldable pub visit_create_table_start : Bool → Visit V
  visit_create_table_start if_not_exists =
      write "CREATE TABLE " >> (if if_not_exists then write "IF NOT EXISTS " else skip)

  abbrev pub constraint : Bool → String → Visit V
  constraint holds words = if holds then write words else skip

  -- What a dynamic table's column has and a static table's has not.
  unfoldable pub dynamic_constraints : FieldSchema → Visit V
  dynamic_constraints field =
      (if is_empty field.default_value
        then skip
        else write " DEFAULT " >> emit (text field.default_value))
      >> (if field.is_foreign_key && not (is_empty field.foreign_table)
          then write " REFERENCES "
            >> emit (quote_identifier field.foreign_table)
            >> write "("
            >> emit (quote_identifier field.foreign_column)
            >> write ")"
          else skip)

  unfoldable pub column_definition : FieldSchema → Visit V
  column_definition field =
      emit (quote_identifier field.name)
      >> write " "
      >> emit (text field.db_type)
      >> constraint field.is_primary_key " PRIMARY KEY"
      >> constraint (not field.is_nullable && not field.is_primary_key) " NOT NULL"
      >> constraint (field.is_unique && not field.is_primary_key) " UNIQUE"

  unfoldable pub dynamic_columns : Bool → List FieldSchema → Visit V
  dynamic_columns first [] = skip
  dynamic_columns first (field ∷ fields) =
      separator first
      >> column_definition field
      >> dynamic_constraints field
      >> dynamic_columns false fields

  unfoldable pub static_columns : Bool → List FieldSchema → Visit V
  static_columns first [] = skip
  static_columns first (field ∷ fields) =
      separator first >> column_definition field >> static_columns false fields

  unfoldable pub visit_create_table_columns : TableSchema → Visit V
  visit_create_table_columns dynamic_null = skip
  visit_create_table_columns (dynamic_table name fields) =
      write " (" >> dynamic_columns true fields >> write ")"
  visit_create_table_columns (static_table name fields) =
      write " (" >> static_columns true fields >> write ")"

  unfoldable pub visit_drop_table_start : Bool → Visit V
  visit_drop_table_start if_exists =
      write "DROP TABLE " >> (if if_exists then write "IF EXISTS " else skip)

  unfoldable pub visit_drop_table_end : Bool → Visit V
  visit_drop_table_end cascade = if cascade then write " CASCADE" else skip
