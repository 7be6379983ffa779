-- ===== src/Savanna/Visitor/Nodes/Tests.antt =====
-- The compiler run on a query, an INSERT and an UPDATE.
use menagerie.Prelude.{ℕ, ◌+◌, String, ◌≡◌, refl, false, List, [], ◌∷◌, length, Bytes, bytes}
use menagerie.Savanna.Expressions.{
  Node, column, literal, binary, equal, and, in_list, all_columns, select, from_table, where_query,
  insert, update, nil, cons, by_name, limit, Table, param_placeholder,
}
use menagerie.Savanna.Visitor.{
  inline, tuple, sink, ◌>>◌, visit_table, visit_table_name, visit_column, visit_alias, visit_value,
  visit_param_placeholder, visit_all_columns, visit_binary_op, visit_select_start, visit_update_set,
  update_assignments,
}
use menagerie.Savanna.Visitor.Nodes.{visit, compile_static, compile_dynamic}
use menagerie.Savanna.Visitor.Nodes.Hooks.{placeholders, substitute}
use menagerie.Savanna.Visitor.Nodes.Numbering.{up_from}
use menagerie.Savanna.Visitor.Nodes.Modes.{BindsLiterals}
use menagerie.Savanna.Visitor.Nodes.Compiling.{
  compile_dynamic-eq-compile_static, compile_static-inline, placeholders-compile_static,
}
use menagerie.Savanna.Visitor.Nodes.Statements.{
  SinksValues, compile_dynamic-insert, placeholders-update_where,
}

abbrev users : Table
users = by_name (bytes "users")

abbrev named : String → Node ℕ
named s = column (bytes s) [] []

-- `id = 7`.
abbrev condition : Node ℕ
condition = binary equal (named "id") (literal 7 [])

-- `SELECT * FROM "users" WHERE (("id" = 7) AND "age" IN (30, 40)) LIMIT`.
abbrev query : Node ℕ
query =
    limit
      (where_query (from_table (select false (cons (all_columns []) nil)) users []) (
        binary and condition
          (in_list (named "age") (cons (literal 30 []) (cons (literal 40 []) nil)))))
      10 0

abbrev new_values : List (Bytes × ℕ)
new_values = (bytes "age", 8) ∷ (bytes "rank", 9) ∷ []

query-BindsLiterals : BindsLiterals query
unfolding BindsLiterals
query-BindsLiterals = search parts 9

condition-BindsLiterals : BindsLiterals condition
unfolding BindsLiterals
condition-BindsLiterals = search parts 9

query_values : (compile_static tuple query).1 ≡ 7 ∷ 30 ∷ 40 ∷ []
unfolding compile_static visit ◌>>◌ visit_table visit_table_name visit_column visit_alias
    visit_value visit_all_columns visit_binary_op visit_select_start visit_param_placeholder
query_values = refl

query_placeholders : placeholders (compile_dynamic sink query).0 ≡ 1 ∷ 2 ∷ 3 ∷ []
unfolding compile_dynamic visit ◌>>◌ visit_table visit_table_name visit_column visit_alias
    visit_value visit_all_columns visit_binary_op visit_select_start visit_param_placeholder
query_placeholders = refl

-- An UPDATE with a WHERE: three placeholders, and one parameter is collected.
update_where_lost :
    let (sql, params) = compile_static tuple (where_query (update users new_values) condition) in
    (placeholders sql ≡ 1 ∷ 2 ∷ 3 ∷ []) × (params ≡ 7 ∷ [])
unfolding compile_static visit ◌>>◌ visit_table visit_table_name visit_column visit_alias
    visit_value visit_param_placeholder visit_update_set update_assignments visit_binary_op
update_where_lost = (refl, refl)

-- A ParamPlaceholder and a literal in a sink: both placeholders have number 1.
same_number :
    placeholders {V = ℕ} (compile_dynamic sink (binary and param_placeholder (literal 7 []))).0
    ≡ 1 ∷ 1 ∷ []
unfolding compile_dynamic visit ◌>>◌ visit_alias visit_value visit_param_placeholder visit_binary_op
same_number = refl

compile_dynamic-eq-compile_static_example : compile_dynamic sink query ≡ compile_static tuple query
compile_dynamic-eq-compile_static_example =
    compile_dynamic-eq-compile_static query query-BindsLiterals

compile_static-inline_example :
    compile_static inline query
    ≡ (substitute (compile_static tuple query).1 (compile_static tuple query).0, [])
compile_static-inline_example = compile_static-inline query query-BindsLiterals

placeholders-compile_static_example :
    placeholders (compile_static tuple query).0 ≡ up_from 1 (length (compile_static tuple query).1)
placeholders-compile_static_example = placeholders-compile_static query query-BindsLiterals

abbrev new_rows : List (List ℕ)
new_rows = (1 ∷ 2 ∷ []) ∷ (3 ∷ 4 ∷ []) ∷ []

compile_dynamic-insert_example :
    SinksValues (insert users (bytes "a" ∷ bytes "b" ∷ []) new_rows) (1 ∷ 2 ∷ 3 ∷ 4 ∷ [])
compile_dynamic-insert_example = compile_dynamic-insert users (bytes "a" ∷ bytes "b" ∷ []) new_rows

placeholders-update_where_example :
    let (sql, params) = compile_static tuple (where_query (update users new_values) condition) in
    placeholders sql ≡ up_from 1 (2 + length params)
placeholders-update_where_example =
    placeholders-update_where users new_values condition condition-BindsLiterals
