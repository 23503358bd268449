-- ===== src/Tests/Expressions.antt =====
-- The theorems of the expressions, and runs of the stack machine.
use biscuit_go.Prelude.{
  ℕ, ◌+◌, ◌^◌, ◌≡◌, ◌≢◌, ◌≤◌, ◌⊎◌, refl, Bool, true, false, List, [], ◌∷◌, Option, some, Run, ok,
  err, panic, Error, arith, ℤ, pos, negsuc, ◌+ℤ◌, IsInt64, quot_ℤ,
}
use biscuit_go.Symbol.{SymbolTable}
use biscuit_go.Term.{integer, bool, variable}
use biscuit_go.Expression.{
  add, mul, div, less_than, less_or_equal, greater_than, greater_or_equal, negate,
}
use biscuit_go.Expression.Effect.{◌>>=◌}
use biscuit_go.Expression.Unary.{eval_unary}
use biscuit_go.Expression.Binary.{eval_binary}
use biscuit_go.Expression.Machine.{Values, evaluate}
use biscuit_go.Expression.Tree.{
  Tree, leaf, unary_node, binary_node, postfix, eval_tree, evaluate-postfix,
}
use biscuit_go.Expression.Arithmetic.{mul_arith, eval_binary-IsInt64, div_lem, min_int64}
use biscuit_go.Expression.Comparison.{comparisons_lem}
use biscuit_go.Tests.{test_runtime}

-- `!(1 + $7 < 4)`, where `$7` is 5.
abbrev sample : Tree
sample = unary_node negate (
    binary_node less_than (binary_node add (leaf (integer (pos 1))) (leaf (variable 7)))
      (leaf (integer (pos 4))))

abbrev sample_values : Values
sample_values = (7, some (integer (pos 5))) ∷ []

evaluate-sample : evaluate test_runtime sample_values (postfix sample) [] ≡ (ok (bool true), [])
unfolding evaluate eval_binary ◌+ℤ◌ eval_unary
evaluate-sample = refl

evaluate-postfix_example :
    evaluate test_runtime sample_values (postfix sample) []
    ≡ eval_tree test_runtime sample_values sample []
evaluate-postfix_example = evaluate-postfix test_runtime sample_values sample [] (omega arith)

comparisons_lem_example :
    (eval_binary test_runtime less_than (integer (pos 1)) (integer (negsuc 4)) []
      ≡ eval_binary test_runtime greater_than (integer (negsuc 4)) (integer (pos 1)) [])
    × (eval_binary test_runtime less_or_equal (integer (pos 1)) (integer (negsuc 4)) []
        ≡ eval_binary test_runtime greater_or_equal (integer (negsuc 4)) (integer (pos 1)) [])
    × (eval_binary test_runtime less_or_equal (integer (pos 1)) (integer (negsuc 4)) []
        ≡ (eval_binary test_runtime greater_than (integer (pos 1)) (integer (negsuc 4))
              >>= eval_unary negate)
            [])
comparisons_lem_example = comparisons_lem test_runtime (integer (pos 1)) (integer (negsuc 4)) []

six :
    eval_binary test_runtime mul (integer (negsuc 1)) (integer (negsuc 2)) []
    ≡ (ok (integer (pos 6)), [])
unfolding eval_binary biscuit_go.Prelude.◌*ℤ◌
six = refl

eval_binary-IsInt64_example : IsInt64 (pos 6) × (◌≡◌ {A = SymbolTable} [] [])
eval_binary-IsInt64_example =
    eval_binary-IsInt64 test_runtime [] mul (negsuc 1) (negsuc 2) (pos 6) [] mul_arith six

div_lem_example :
    (eval_binary test_runtime div (integer min_int64) (integer (negsuc 0)) []
      ≡ (ok (integer (quot_ℤ min_int64 (negsuc 0))), []))
    ⊎ ((min_int64 ≡ min_int64)
        × (negsuc 0 ≡ negsuc 0)
        × (eval_binary test_runtime div (integer min_int64) (integer (negsuc 0)) []
            ≡ (ok (integer min_int64), [])))
div_lem_example = div_lem test_runtime [] min_int64 (negsuc 0) refl refl (λ e. ground arith)

-- The quotient that does not fit wraps around.
div_overflow :
    eval_binary test_runtime div (integer min_int64) (integer (negsuc 0)) []
    ≡ (ok (integer min_int64), [])
unfolding eval_binary biscuit_go.Prelude.wrap_int64 quot_ℤ
div_overflow = refl
