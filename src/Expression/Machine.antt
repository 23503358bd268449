-- ===== src/Expression/Machine.antt =====
-- `Expression.Evaluate` and its stack. The stack is a list, the last pushed term first.
use biscuit_go.Prelude.{
  ℕ, Option, none, some, List, [], ◌∷◌, Run, ok, err, panic, Error, leb, ◌==◌, if◌then◌else◌,
  length,
}
use biscuit_go.Term.{Term, variable}
use biscuit_go.Expression.{Op, value, unary, binary}
use biscuit_go.Expression.Effect.{Runtime, M, return, fail, lift, ◌>>=◌}
use biscuit_go.Expression.Unary.{eval_unary}
use biscuit_go.Expression.Binary.{eval_binary}

-- `map[Variable]*Term`: an entry without a term is a nil pointer.
abbrev pub Values : Type 0
Values = List (ℕ × Option Term)

unfoldable pub lookup_value : ℕ → Values → Option (Option Term)
lookup_value v [] = none
lookup_value v ((w, t) ∷ values) = if w == v then some t else lookup_value v values

abbrev pub max_stack_size : ℕ
max_stack_size = 1000

unfoldable pub push : Term → List Term → Run (List Term)
push t s = if leb max_stack_size (length s) then err Error.stack_overflow else ok (t ∷ s)

unfoldable pub pop : List Term → Run (Term × List Term)
pop [] = err Error.empty_stack
pop (t ∷ s) = ok (t, s)

-- The term that a `Value` pushes: that of the variable, if it is one.
unfoldable pub resolve : Values → Term → Run Term
unfolding lookup_value
resolve values (variable v) = elim (lookup_value v values) [
  | none ↦ err Error.unknown_variable
  | some none ↦ panic
  | some (some t) ↦ ok t
]
resolve values t = ok t

module _ (rt : Runtime) (values : Values) where
  -- One round of the loop.
  unfoldable pub step : Op → List Term → M (List Term)
  unfolding push pop resolve
  step (value t) s = do u ← lift (resolve values t); lift (push u s)
  step (unary f) s = do (v, s') ← lift (pop s); r ← eval_unary f v; lift (push r s')
  step (binary f) s = do
    (right, s') ← lift (pop s)
    (left, s'') ← lift (pop s')
    r ← eval_binary rt f left right
    lift (push r s'')

  unfoldable pub run_ops : List Op → List Term → M (List Term)
  unfolding step
  run_ops [] s = return s
  run_ops (op ∷ ops) s = step op s >>= run_ops ops

  -- After the loop a single value must be left.
  unfoldable pub result_of : List Term → M Term
  result_of (t ∷ []) = return t
  result_of _ = fail Error.invalid_stack

  unfoldable pub evaluate : List Op → M Term
  unfolding run_ops result_of
  evaluate ops = run_ops ops [] >>= result_of
