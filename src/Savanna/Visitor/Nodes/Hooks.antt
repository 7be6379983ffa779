-- ===== src/Savanna/Visitor/Nodes/Hooks.antt =====
-- The hooks that number no placeholder and capture nothing.
use menagerie.Prelude.{
  ℕ, ◌-◌, ◌≡◌, refl, sym, ap, ◌∙◌, Bool, true, false, Option, none, some, List, [], ◌∷◌, ◌++◌,
  append_assoc, append-nil, if◌then◌else◌, get_elem?, Bytes,
}
use menagerie.Savanna.Expressions.{
  OrderDirection, asc, desc, JoinType, inner, left, right, full, cross, SetOperation, union,
  union_all, intersect, except, BinaryOp, equal, not_equal, less, less_equal, greater,
  greater_equal, and, or, like, not_like, in_op, UnaryOp, op_not, is_null, is_not_null, Aggregate,
  sum, avg, max_of, min_of, FieldSchema, TableSchema, dynamic_null, dynamic_table, static_table,
  Table, by_name, by_schema,
}
use menagerie.Savanna.Visitor.{
  Piece, text, limit_clause, quote_identifier, placeholder, format_value, SqlGenerator, Visit, emit,
  skip, ◌>>◌, visit_alias, visit_table_name, visit_table, visit_schema, visit_column,
  visit_all_columns, visit_binary_op, visit_unary_op, visit_count, visit_aggregate_start,
  visit_aggregate_end, visit_select_start, visit_order_direction, visit_join_start, visit_set_op,
  separator, visit_insert_columns, insert_columns, visit_cte_start, visit_create_table_start,
  visit_create_table_columns, visit_drop_table_start, column_definition, dynamic_constraints,
  dynamic_columns, static_columns, visit_drop_table_end,
}

module _ {V : Type 0} where
  -- The numbers of the placeholders of a text, in order.
  abbrev pub placeholders : List (Piece V) → List ℕ
  placeholders [] = []
  placeholders (text s ∷ ps) = placeholders ps
  placeholders (quote_identifier s ∷ ps) = placeholders ps
  placeholders (placeholder n ∷ ps) = n ∷ placeholders ps
  placeholders (format_value v ∷ ps) = placeholders ps
  placeholders (limit_clause n offset ∷ ps) = placeholders ps

  abbrev pub bound : ℕ → Option V → Piece V
  bound n none = placeholder n
  bound n (some v) = format_value v

  -- The text with each placeholder's parameter written in its place; they count from 1.
  abbrev pub substitute : List V → List (Piece V) → List (Piece V)
  substitute vs [] = []
  substitute vs (text s ∷ ps) = text s ∷ substitute vs ps
  substitute vs (quote_identifier s ∷ ps) = quote_identifier s ∷ substitute vs ps
  substitute vs (placeholder n ∷ ps) = bound n (get_elem? vs (n - 1)) ∷ substitute vs ps
  substitute vs (format_value v ∷ ps) = format_value v ∷ substitute vs ps
  substitute vs (limit_clause n offset ∷ ps) = limit_clause n offset ∷ substitute vs ps

  pub placeholders-append :
      (ps qs : List (Piece V)) → placeholders (ps ++ qs) ≡ placeholders ps ++ placeholders qs
  placeholders-append [] qs = refl
  placeholders-append (text s ∷ ps) qs = placeholders-append ps qs
  placeholders-append (quote_identifier s ∷ ps) qs = placeholders-append ps qs
  placeholders-append (placeholder n ∷ ps) qs = ap (λ l. n ∷ l) (placeholders-append ps qs)
  placeholders-append (format_value v ∷ ps) qs = placeholders-append ps qs
  placeholders-append (limit_clause n offset ∷ ps) qs = placeholders-append ps qs

  pub substitute-append :
      (vs : List V) (ps qs : List (Piece V))
      → substitute vs (ps ++ qs) ≡ substitute vs ps ++ substitute vs qs
  substitute-append vs [] qs = refl
  substitute-append vs (text s ∷ ps) qs = ap (λ l. text s ∷ l) (substitute-append vs ps qs)
  substitute-append vs (quote_identifier s ∷ ps) qs =
      ap (λ l. quote_identifier s ∷ l) (substitute-append vs ps qs)
  substitute-append vs (placeholder n ∷ ps) qs =
      ap (λ l. bound n (get_elem? vs (n - 1)) ∷ l) (substitute-append vs ps qs)
  substitute-append vs (format_value v ∷ ps) qs =
      ap (λ l. format_value v ∷ l) (substitute-append vs ps qs)
  substitute-append vs (limit_clause n offset ∷ ps) qs =
      ap (λ l. limit_clause n offset ∷ l) (substitute-append vs ps qs)

  -- A visit that only appends to the text, and there no placeholder.
  pub record IsPlain (a : Visit V) : Type 0 where
    pub pieces : List (Piece V)
    pub runs : (g : SqlGenerator V) → a g ≡ (record g { sql = g.sql ++ pieces }, [])
    pub placeholders : placeholders pieces ≡ []
    pub substitute : (vs : List V) → substitute vs pieces ≡ pieces

  pub IsPlain-skip : IsPlain skip
  IsPlain-skip = record {
    pieces = [];
    runs = λ g. ap (λ l. (record g { sql = l }, [])) (sym (append-nil g.sql));
    placeholders = refl;
    substitute = λ vs. refl;
  }

  pub IsPlain-text : (s : Bytes) → IsPlain (emit (text s))
  IsPlain-text s = record {
    pieces = text s ∷ [];
    runs = λ g. refl;
    placeholders = refl;
    substitute = λ vs. refl;
  }

  pub IsPlain-quote : (s : Bytes) → IsPlain (emit (quote_identifier s))
  IsPlain-quote s = record {
    pieces = quote_identifier s ∷ [];
    runs = λ g. refl;
    placeholders = refl;
    substitute = λ vs. refl;
  }

  pub IsPlain-limit : (n offset : ℕ) → IsPlain (emit (limit_clause n offset))
  IsPlain-limit n offset = record {
    pieces = limit_clause n offset ∷ [];
    runs = λ g. refl;
    placeholders = refl;
    substitute = λ vs. refl;
  }

  pub IsPlain->> : {a b : Visit V} → IsPlain a → IsPlain b → IsPlain (a >> b)
  unfolding ◌>>◌
  IsPlain->> {a} {b} p q = record {
    pieces = p.pieces ++ q.pieces;
    runs = λ g.
        rw
          (
            p.runs g,
            q.runs (record g { sql = g.sql ++ p.pieces }),
            append_assoc g.sql p.pieces q.pieces,
          )
          refl;
    placeholders = placeholders-append p.pieces q.pieces ∙ rw (p.placeholders, q.placeholders) refl;
    substitute =
        λ vs. substitute-append vs p.pieces q.pieces ∙ rw (p.substitute vs, q.substitute vs) refl;
  }

  pub IsPlain-if : {a b : Visit V} (c : Bool) → IsPlain a → IsPlain b → IsPlain (if c then a else b)
  IsPlain-if true p q = p
  IsPlain-if false p q = q

  pub ruleset plain =
      (IsPlain-skip, IsPlain-text, IsPlain-quote, IsPlain-limit, IsPlain->>, IsPlain-if)

  pub IsPlain-separator : (first : Bool) → IsPlain (separator first)
  IsPlain-separator first = IsPlain-if first IsPlain-skip (IsPlain-text _)

  pub IsPlain-alias : (alias : Bytes) → IsPlain (visit_alias alias)
  unfolding visit_alias
  IsPlain-alias alias = search plain

  pub IsPlain-table_name : (name : Bytes) → IsPlain (visit_table_name name)
  unfolding visit_table_name
  IsPlain-table_name name = search plain

  pub ruleset named = (plain, IsPlain-alias, IsPlain-table_name)

  pub IsPlain-schema : (schema : TableSchema) → IsPlain (visit_schema schema)
  unfolding visit_schema
  IsPlain-schema dynamic_null = search named
  IsPlain-schema (dynamic_table name fields) = search named
  IsPlain-schema (static_table name fields) = search named

  pub IsPlain-table : (table : Table) → IsPlain (visit_table table)
  unfolding visit_table
  IsPlain-table (by_name name) = IsPlain-table_name name
  IsPlain-table (by_schema schema) = IsPlain-schema schema

  pub IsPlain-column : (name table alias : Bytes) → IsPlain (visit_column name table alias)
  unfolding visit_column
  IsPlain-column name table alias = search named

  pub IsPlain-all_columns : (table : Bytes) → IsPlain (visit_all_columns table)
  unfolding visit_all_columns
  IsPlain-all_columns table = search named

  pub IsPlain-binary_op : (op : BinaryOp) → IsPlain (visit_binary_op op)
  unfolding visit_binary_op
  IsPlain-binary_op equal = search plain
  IsPlain-binary_op not_equal = search plain
  IsPlain-binary_op less = search plain
  IsPlain-binary_op less_equal = search plain
  IsPlain-binary_op greater = search plain
  IsPlain-binary_op greater_equal = search plain
  IsPlain-binary_op and = search plain
  IsPlain-binary_op or = search plain
  IsPlain-binary_op like = search plain
  IsPlain-binary_op not_like = search plain
  IsPlain-binary_op in_op = search plain

  pub IsPlain-unary_op : (op : UnaryOp) → IsPlain (visit_unary_op op)
  unfolding visit_unary_op
  IsPlain-unary_op op_not = search plain
  IsPlain-unary_op is_null = search plain
  IsPlain-unary_op is_not_null = search plain

  pub IsPlain-count : (distinct : Bool) → IsPlain (visit_count distinct)
  unfolding visit_count
  IsPlain-count distinct = search plain

  pub IsPlain-aggregate_start : (f : Aggregate) → IsPlain (visit_aggregate_start f)
  unfolding visit_aggregate_start
  IsPlain-aggregate_start sum = search plain
  IsPlain-aggregate_start avg = search plain
  IsPlain-aggregate_start max_of = search plain
  IsPlain-aggregate_start min_of = search plain

  pub IsPlain-aggregate_end : (alias : Bytes) → IsPlain (visit_aggregate_end alias)
  unfolding visit_aggregate_end
  IsPlain-aggregate_end alias = search named

  pub IsPlain-select_start : (distinct : Bool) → IsPlain (visit_select_start distinct)
  unfolding visit_select_start
  IsPlain-select_start distinct = search plain

  pub IsPlain-order_direction : (dir : OrderDirection) → IsPlain (visit_order_direction dir)
  unfolding visit_order_direction
  IsPlain-order_direction asc = search plain
  IsPlain-order_direction desc = search plain

  pub IsPlain-join_start : (type : JoinType) → IsPlain (visit_join_start type)
  unfolding visit_join_start
  IsPlain-join_start inner = search plain
  IsPlain-join_start left = search plain
  IsPlain-join_start right = search plain
  IsPlain-join_start full = search plain
  IsPlain-join_start cross = search plain

  pub IsPlain-set_op : (op : SetOperation) → IsPlain (visit_set_op op)
  unfolding visit_set_op
  IsPlain-set_op union = search plain
  IsPlain-set_op union_all = search plain
  IsPlain-set_op intersect = search plain
  IsPlain-set_op except = search plain

  pub IsPlain-cte_start : (recursive : Bool) → IsPlain (visit_cte_start recursive)
  unfolding visit_cte_start
  IsPlain-cte_start recursive = search plain

  insert_columns-IsPlain : (first : Bool) (cols : List Bytes) → IsPlain (insert_columns first cols)
  unfolding insert_columns
  insert_columns-IsPlain first [] = IsPlain-skip
  insert_columns-IsPlain first (col ∷ cols) =
      IsPlain->> (IsPlain-separator first)
        (IsPlain->> (IsPlain-quote col) (insert_columns-IsPlain false cols))

  pub IsPlain-insert_columns : (cols : List Bytes) → IsPlain (visit_insert_columns cols)
  unfolding visit_insert_columns
  IsPlain-insert_columns cols = search (plain, insert_columns-IsPlain)

  column_definition-IsPlain : (field : FieldSchema) → IsPlain (column_definition field)
  unfolding column_definition
  column_definition-IsPlain field = search plain depth 12

  dynamic_constraints-IsPlain : (field : FieldSchema) → IsPlain (dynamic_constraints field)
  unfolding dynamic_constraints
  dynamic_constraints-IsPlain field = search plain depth 12

  dynamic_columns-IsPlain :
      (first : Bool) (fields : List FieldSchema) → IsPlain (dynamic_columns first fields)
  unfolding dynamic_columns
  dynamic_columns-IsPlain first [] = IsPlain-skip
  dynamic_columns-IsPlain first (field ∷ fields) = IsPlain->> (IsPlain-separator first) (
      IsPlain->> (column_definition-IsPlain field)
        (IsPlain->> (dynamic_constraints-IsPlain field) (dynamic_columns-IsPlain false fields)))

  static_columns-IsPlain :
      (first : Bool) (fields : List FieldSchema) → IsPlain (static_columns first fields)
  unfolding static_columns
  static_columns-IsPlain first [] = IsPlain-skip
  static_columns-IsPlain first (field ∷ fields) =
      IsPlain->> (IsPlain-separator first)
        (IsPlain->> (column_definition-IsPlain field) (static_columns-IsPlain false fields))

  pub IsPlain-create_table_columns :
      (schema : TableSchema) → IsPlain (visit_create_table_columns schema)
  unfolding visit_create_table_columns
  IsPlain-create_table_columns dynamic_null = IsPlain-skip
  IsPlain-create_table_columns (dynamic_table name fields) = search (plain, dynamic_columns-IsPlain)
  IsPlain-create_table_columns (static_table name fields) = search (plain, static_columns-IsPlain)

  pub IsPlain-create_table_start : (b : Bool) → IsPlain (visit_create_table_start b)
  unfolding visit_create_table_start
  IsPlain-create_table_start b = search plain

  pub IsPlain-drop_table_start : (b : Bool) → IsPlain (visit_drop_table_start b)
  unfolding visit_drop_table_start
  IsPlain-drop_table_start b = search plain

  pub IsPlain-drop_table_end : (b : Bool) → IsPlain (visit_drop_table_end b)
  unfolding visit_drop_table_end
  IsPlain-drop_table_end b = search plain

  pub ruleset plain_hooks = (
    named, IsPlain-schema, IsPlain-table, IsPlain-column, IsPlain-all_columns, IsPlain-binary_op,
    IsPlain-unary_op, IsPlain-count, IsPlain-aggregate_start, IsPlain-aggregate_end,
    IsPlain-select_start, IsPlain-order_direction, IsPlain-join_start, IsPlain-set_op,
    IsPlain-cte_start, IsPlain-insert_columns, IsPlain-create_table_columns,
    IsPlain-create_table_start, IsPlain-drop_table_start, IsPlain-drop_table_end,
  )
