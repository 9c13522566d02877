-- ===== src/Core/Query.antt =====
-- core/interfaces.go: queries, and the interface of a database adapter.
use beacon_auth.Prelude.{ℕ, String, Bool, false, Option, List, [], ℤ, pos}
use beacon_auth.Core.Value.{Value, Record}
use beacon_auth.Core.Types.{Result}

-- `Operator` is a string in the source; `op_other` stands for every string that is none of its
-- constants.
pub data Operator : Type 0 where
  op_equal op_not_equal op_greater_than op_greater_or_equal op_less_than op_less_or_equal : Operator
  op_like op_in op_not_in op_is_null op_is_not_null : Operator
  op_other : String → Operator

pub record WhereClause : Type 0 where
  pub field : String
  pub operator : Operator
  pub value : Value
  pub is_or : Bool

pub record OrderBy : Type 0 where
  pub field : String
  pub desc : Bool

pub data JoinType : Type 0 where
  inner_join left_join right_join : JoinType

pub record JoinCondition : Type 0 where
  pub left : String
  pub right : String

pub record Join : Type 0 where
  pub model : String
  pub kind : JoinType
  pub on : JoinCondition

pub record Query : Type 0 where
  pub model : String
  pub clauses : List WhereClause
  pub joins : List Join
  pub limit : ℤ
  pub offset : ℤ
  pub order_by : List OrderBy

-- A clause that is joined by AND.
abbrev pub clause : String → Operator → Value → WhereClause
clause f o v = record { field = f; operator = o; value = v; is_or = false }

-- A query with clauses only.
abbrev pub query : String → List WhereClause → Query
query model cs = record {
  model = model;
  clauses = cs;
  joins = [];
  limit = pos 0;
  offset = pos 0;
  order_by = [];
}

-- An operation on the state `S` of a database.
abbrev pub Op : Type 0 → Type 0 → Type 0
Op S A = S → Result A × S

-- `Adapter` without its metadata; a missing row is `none`.
pub record Adapter (S : Type 0) : Type 0 where
  pub create : String → Record → Op S Record
  pub find_one : Query → Op S (Option Record)
  pub find_many : Query → Op S (List Record)
  pub update : Query → Record → Op S (Option Record)
  pub update_many : Query → Record → Op S ℕ
  pub delete : Query → Op S Unit
  pub delete_many : Query → Op S ℕ
  pub count : Query → Op S ℕ
  pub close : Op S Unit
