-- ===== src/Expression.antt =====
-- datalog/expressions.go: the operations of expressions and the stack machine that evaluates them.
pub mod Effect
pub mod Unary
pub mod Binary
pub mod Machine
pub mod Tree
pub mod Arithmetic
pub mod Comparison
use biscuit_go.Term.{Term}

pub data UnaryOpFunc : Type 0 where
  negate parens length : UnaryOpFunc

pub data BinaryOpFunc : Type 0 where
  less_than less_or_equal greater_than greater_or_equal equal contains : BinaryOpFunc
  prefix suffix regex add sub mul div and or intersection union : BinaryOpFunc

pub data Op : Type 0 where
  value : Term → Op
  unary : UnaryOpFunc → Op
  binary : BinaryOpFunc → Op
