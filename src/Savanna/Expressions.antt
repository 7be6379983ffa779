-- ===== src/Savanna/Expressions.antt =====
-- component/database-savanna/query/expressions: the nodes of an expression tree.
-- The source's class templates are one type here, so it has more trees than C++ admits: concepts
-- decide there which node may stand in which. A value type is a parameter. A list of nodes, and the
-- list of the WHEN clauses of a CASE, stand for the source's tuples.
use menagerie.Prelude.{ℕ, Bool, List, Bytes}

pub data OrderDirection : Type 0 where
  asc desc : OrderDirection

pub data JoinType : Type 0 where
  inner left right full cross : JoinType

pub data SetOperation : Type 0 where
  union union_all intersect except : SetOperation

pub data BinaryOp : Type 0 where
  equal not_equal less less_equal greater greater_equal and or like not_like in_op : BinaryOp

pub data UnaryOp : Type 0 where
  op_not is_null is_not_null : UnaryOp

-- SUM, AVG, MAX and MIN.
pub data Aggregate : Type 0 where
  sum avg max_of min_of : Aggregate

pub record FieldSchema : Type 0 where
  pub name : Bytes
  pub db_type : Bytes
  pub is_primary_key : Bool
  pub is_nullable : Bool
  pub is_unique : Bool
  pub default_value : Bytes
  pub is_foreign_key : Bool
  pub foreign_table : Bytes
  pub foreign_column : Bytes

-- A dynamic table is a pointer, which may be null.
pub data TableSchema : Type 0 where
  dynamic_null : TableSchema
  dynamic_table : Bytes → List FieldSchema → TableSchema
  static_table : Bytes → List FieldSchema → TableSchema

pub data Table : Type 0 where
  by_name : Bytes → Table
  by_schema : TableSchema → Table

mutual
  pub data Node (V : Type 0) : Type 0 where
    column : Bytes → Bytes → Bytes → Node V
    literal : V → Bytes → Node V
    null_literal : Node V
    param_placeholder : Node V
    all_columns : Bytes → Node V
    binary : BinaryOp → Node V → Node V → Node V
    unary : UnaryOp → Node V → Node V
    between : Node V → Node V → Node V → Node V
    in_list : Node V → Nodes V → Node V
    subquery : Node V → Bytes → Node V
    exists : Node V → Node V
    count_all : Bool → Bytes → Node V
    count : Bool → Node V → Bytes → Node V
    aggregate : Aggregate → Node V → Bytes → Node V
    order_by : Node V → OrderDirection → Node V
    select : Bool → Nodes V → Node V
    from_table : Node V → Table → Bytes → Node V
    from_cte : Node V → Bytes → Node V → Bool → Node V
    where_query : Node V → Node V → Node V
    group_by : Node V → Nodes V → Node V
    group_by_query : Node V → Node V → Node V
    having : Node V → Node V → Node V
    order_by_query : Node V → Nodes V → Node V
    limit : Node V → ℕ → ℕ → Node V
    join : Node V → JoinType → Table → Bytes → Node V → Node V
    insert : Table → List Bytes → List (List V) → Node V
    update : Table → List (Bytes × V) → Node V
    delete : Table → Node V
    set_op : Node V → Node V → SetOperation → Node V
    case_when : WhenClauses V → Bytes → Node V
    case_else : WhenClauses V → Node V → Bytes → Node V
    cte : Bytes → Node V → Bool → Node V
    create_table : TableSchema → Bool → Node V
    drop_table : Table → Bool → Bool → Node V

  pub data Nodes (V : Type 0) : Type 0 where
    nil : Nodes V
    cons : Node V → Nodes V → Nodes V

  pub data WhenClauses (V : Type 0) : Type 0 where
    no_when : WhenClauses V
    when : Node V → Node V → WhenClauses V → WhenClauses V
