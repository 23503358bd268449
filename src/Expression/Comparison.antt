-- ===== src/Expression/Comparison.antt =====
-- How the comparisons of the expression language relate to each other.
use biscuit_go.Prelude.{
  ◌≡◌, refl, sym, ap, ◌∙◌, Bool, Ordering, compare_ℤ, compare, ◌==◌, arith, if◌then◌else◌, Run, ok,
  err, panic, Error,
}
use biscuit_go.Symbol.{SymbolTable}
use biscuit_go.Term.{Term, integer, date, bool, term_type}
use biscuit_go.Expression.{less_than, less_or_equal, greater_than, greater_or_equal, negate}
use biscuit_go.Expression.Effect.{Runtime, M, fail, return, continue, lift, ◌>>=◌}
use biscuit_go.Expression.Unary.{eval_unary, eval_negate}
use biscuit_go.Expression.Binary.{eval_binary, eval_order, is_le, is_gt}

-- How two terms are ordered, which all four comparisons ask.
abbrev order_of : Term → Term → Run Ordering
order_of (integer a) (integer b) = ok (compare_ℤ a b)
order_of (date a) (date b) = ok (compare a b)
order_of a b =
    if term_type a == term_type b then err Error.unexpected_type else err Error.type_mismatch

abbrev test_order : (Ordering → Bool) → Run Ordering → M Term
test_order p (ok o) = return (bool (p o))
test_order p (err e) = fail e
test_order p panic = lift panic

eval_order_lem :
    (p : Ordering → Bool) (a b : Term) (t : SymbolTable)
    → eval_order p a b t ≡ test_order p (order_of a b) t
unfolding eval_order
eval_order_lem p a b t = ground arith

test_order-complement :
    (r : Run Ordering) (t : SymbolTable)
    → test_order is_le r t ≡ (test_order is_gt r >>= eval_unary negate) t
unfolding eval_unary eval_negate
test_order-complement (ok Ordering.lt) t = refl
test_order-complement (ok Ordering.eq) t = refl
test_order-complement (ok Ordering.gt) t = refl
test_order-complement (err e) t = refl
test_order-complement panic t = refl

module _ (rt : Runtime) (a b : Term) (t : SymbolTable) where
  less_than-swap : eval_binary rt less_than a b t ≡ eval_binary rt greater_than b a t
  unfolding eval_binary eval_order
  less_than-swap = ground arith

  less_or_equal-swap : eval_binary rt less_or_equal a b t ≡ eval_binary rt greater_or_equal b a t
  unfolding eval_binary eval_order
  less_or_equal-swap = ground arith

  less_or_equal-negate :
      eval_binary rt less_or_equal a b t ≡ (eval_binary rt greater_than a b >>= eval_unary negate) t
  unfolding eval_binary
  less_or_equal-negate =
      eval_order_lem is_le a b t
      ∙ test_order-complement (order_of a b) t
      ∙ ap (λ r. continue r (eval_unary negate)) (sym (eval_order_lem is_gt a b t))

  -- On all terms, also where they give an error: `a < b` is `b > a`, `a <= b` is `b >= a`, and `a
  -- <= b` is `!(a > b)`.
  pub comparisons_lem :
      (eval_binary rt less_than a b t ≡ eval_binary rt greater_than b a t)
      × (eval_binary rt less_or_equal a b t ≡ eval_binary rt greater_or_equal b a t)
      × (eval_binary rt less_or_equal a b t
          ≡ (eval_binary rt greater_than a b >>= eval_unary negate) t)
  comparisons_lem = (less_than-swap, less_or_equal-swap, less_or_equal-negate)
