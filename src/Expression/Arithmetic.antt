-- ===== src/Expression/Arithmetic.antt =====
-- The arithmetic operations of datalog/expressions.go.
use native.Mathlib.Nat.{div-le_self, div-lt_self}
use biscuit_go.Prelude.{
  ◌-◌, ◌∙◌, ℕ, zero, suc, ◌/◌, ◌^◌, ◌≤◌, ◌<◌, ◌≡◌, refl, ap, ℤ, pos, negsuc, ◌+ℤ◌, neg_ℕ, IsInt64,
  wrap_int64, quot_ℤ, +ℤ_cancel, ◌≢◌, ◌⊎◌, inl, inr, arith, ok,
}
use biscuit_go.Symbol.{SymbolTable}
use biscuit_go.Term.{integer}
use biscuit_go.Expression.{BinaryOpFunc, add, sub, mul, div}
use biscuit_go.Expression.Effect.{Runtime, ◌>>=◌}
use biscuit_go.Expression.Binary.{eval_binary, eval_add, eval_sub, eval_mul, eval_div, checked}

-- The four operations that compute a number.
pub data IsArithmetic : BinaryOpFunc → Type 0 where
  add_arith : IsArithmetic add
  sub_arith : IsArithmetic sub
  mul_arith : IsArithmetic mul
  div_arith : IsArithmetic div

-- The least 64-bit integer.
abbrev pub min_int64 : ℤ
min_int64 = negsuc (2 ^ 63 - 1)

wrap-IsInt64 : (a : ℤ) → IsInt64 (wrap_int64 a)
unfolding wrap_int64
wrap-IsInt64 (pos n) = ground arith
wrap-IsInt64 (negsuc n) = ground arith

wrap_pos : (n : ℕ) → n < 2 ^ 63 → wrap_int64 (pos n) ≡ pos n
unfolding wrap_int64
wrap_pos n h = ground arith

wrap_neg : (n : ℕ) → n ≤ 2 ^ 63 → wrap_int64 (neg_ℕ n) ≡ neg_ℕ n
unfolding wrap_int64
wrap_neg zero h = refl
wrap_neg (suc n) h = ground arith

quot-exact :
    (a b : ℤ)
    → IsInt64 a
    → IsInt64 b
    → a ≢ min_int64 ⊎ b ≢ negsuc 0
    → wrap_int64 (quot_ℤ a b) ≡ quot_ℤ a b
unfolding quot_ℤ
quot-exact (pos a) (pos b) ha hb h = wrap_pos (a / b) (ground (arith, div-le_self a b))
quot-exact (pos a) (negsuc b) ha hb h = wrap_neg (a / suc b) (ground (arith, div-le_self a (suc b)))
quot-exact (negsuc a) (pos b) ha hb h = wrap_neg (suc a / b) (ground (arith, div-le_self (suc a) b))
quot-exact (negsuc a) (negsuc zero) ha hb (inl h) =
    wrap_pos (suc a / 1) (ground (arith, div-le_self (suc a) 1, not_min))
  where
    not_min : a ≢ 2 ^ 63 - 1
    not_min e = h (ap negsuc e)
quot-exact (negsuc a) (negsuc zero) ha hb (inr h) = absurd (h refl)
quot-exact (negsuc a) (negsuc (suc b)) ha hb h =
    wrap_pos (suc a / suc (suc b))
      (ground (arith, div-lt_self {n = suc a} {k = suc (suc b)} (omega arith) (omega arith)))

is_overflow : (a b : ℤ) → (a ≢ min_int64 ⊎ b ≢ negsuc 0) ⊎ ((a ≡ min_int64) × (b ≡ negsuc 0))
is_overflow (pos a) b = inl (inl (λ e. ground arith))
is_overflow (negsuc a) (pos b) = inl (inr (λ e. ground arith))
is_overflow (negsuc a) (negsuc b) = ground arith

module _ (rt : Runtime) (t : SymbolTable) where
  -- Whatever two integers are given, an addition, subtraction, multiplication or division that
  -- gives an integer gives one of 64 bits, and leaves the symbol table as it was.
  pub eval_binary-IsInt64 :
      (f : BinaryOpFunc) (a b c : ℤ) (u : SymbolTable)
      → IsArithmetic f
      → eval_binary rt f (integer a) (integer b) t ≡ (ok (integer c), u)
      → IsInt64 c × (u ≡ t)
  unfolding eval_binary eval_add eval_sub eval_mul eval_div checked
  eval_binary-IsInt64 f a b c u add_arith h = ground arith
  eval_binary-IsInt64 f a b c u sub_arith h = ground arith
  eval_binary-IsInt64 f a b c u mul_arith h = ground arith
  eval_binary-IsInt64 f a (pos zero) c u div_arith h = ground arith
  eval_binary-IsInt64 f a (pos (suc n)) c u div_arith h =
      ground (arith, wrap-IsInt64 (quot_ℤ a (pos (suc n))))
  eval_binary-IsInt64 f a (negsuc n) c u div_arith h =
      ground (arith, wrap-IsInt64 (quot_ℤ a (negsuc n)))

  -- Where `a` and `a + b` are of 64 bits, subtracting `b` from what `a + b` is evaluated to gives
  -- `a`.
  pub sub-add :
      (a b : ℤ)
      → IsInt64 a
      → IsInt64 (a +ℤ b)
      → (eval_binary rt add (integer a) (integer b) >>= λ s. eval_binary rt sub s (integer b)) t
        ≡ (ok (integer a), t)
  unfolding eval_binary eval_add eval_sub checked
  sub-add a b ha hab = rw (hab, +ℤ_cancel a b, ha)

  divide :
      (a b : ℤ)
      → b ≢ pos 0
      → eval_binary rt div (integer a) (integer b) t ≡ (ok (integer (wrap_int64 (quot_ℤ a b))), t)
  unfolding eval_binary eval_div
  divide a (pos zero) h = absurd (h refl)
  divide a (pos (suc n)) h = refl
  divide a (negsuc n) h = refl

  -- A division of 64-bit integers by one that is not zero gives the quotient, truncated towards
  -- zero, except for the least integer by -1, which gives the least integer again and no error.
  pub div_lem :
      (a b : ℤ)
      → IsInt64 a
      → IsInt64 b
      → b ≢ pos 0
      → (eval_binary rt div (integer a) (integer b) t ≡ (ok (integer (quot_ℤ a b)), t))
        ⊎ ((a ≡ min_int64)
            × (b ≡ negsuc 0)
            × (eval_binary rt div (integer a) (integer b) t ≡ (ok (integer min_int64), t)))
  div_lem a b ha hb nonzero = elim (is_overflow a b) [
    | inl h ↦ inl (divide a b nonzero ∙ ap (λ q. (ok (integer q), t)) (quot-exact a b ha hb h))
    | inr (ea, eb) ↦
        inr (ea, eb, (divide a b nonzero ∙ ap (λ q. (ok (integer q), t)) (wraps ea eb)))
  ]
    where
      wraps : a ≡ min_int64 → b ≡ negsuc 0 → wrap_int64 (quot_ℤ a b) ≡ min_int64
      wraps ea eb = rw (ea, eb) (unfold wrap_int64 in unfold quot_ℤ in refl)
