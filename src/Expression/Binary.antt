-- ===== src/Expression/Binary.antt =====
-- The `Eval` methods of the binary operations.
use biscuit_go.Prelude.{
  ℕ, zero, ◌==◌, Bool, true, false, ◌&&◌, ◌||◌, none, some, ◌++◌, any, every, Bytes, has_prefix,
  has_suffix, contains_bytes, ℤ, pos, ◌+ℤ◌, ◌-ℤ◌, ◌*ℤ◌, quot_ℤ, wrap_int64, is_int64, compare_ℤ,
  compare, Ordering, Error, if◌then◌else◌,
}
use biscuit_go.HashSet.{
  Element, HashSet, new_hash_set, to_slice, intersect, union as hash_set_union,
}
use biscuit_go.Term.{
  Term, variable, integer, string, date, bytes, bool, set, Terms, list_of, terms_of, term_type,
  hashed,
}
use biscuit_go.Term
use biscuit_go.Expression.{
  BinaryOpFunc, less_than, less_or_equal, greater_than, greater_or_equal, equal, contains, prefix,
  suffix, regex, add, sub, mul, div, and, or, intersection, union,
}
use biscuit_go.Expression.Effect.{Runtime, M, return, fail, read_str, intern, ◌>>=◌}

-- A comparison of two terms of one type, integers or dates, by what the comparison must not be or
-- must be.
unfoldable pub eval_order : (Ordering → Bool) → Term → Term → M Term
eval_order holds (integer a) (integer b) = return (bool (holds (compare_ℤ a b)))
eval_order holds (date a) (date b) = return (bool (holds (compare a b)))
eval_order holds a b =
    if term_type a == term_type b then fail Error.unexpected_type else fail Error.type_mismatch

abbrev pub is_lt : Ordering → Bool
is_lt Ordering.lt = true
is_lt _ = false

abbrev pub is_le : Ordering → Bool
is_le Ordering.gt = false
is_le _ = true

abbrev pub is_gt : Ordering → Bool
is_gt Ordering.gt = true
is_gt _ = false

abbrev pub is_ge : Ordering → Bool
is_ge Ordering.lt = false
is_ge _ = true

unfoldable pub eval_equal : Term → Term → M Term
eval_equal (variable v) (variable w) = fail Error.unexpected_type
eval_equal a b =
    if term_type a == term_type b then return (bool (Term.equal a b)) else fail Error.type_mismatch

-- Two symbols, read as strings, under a test of strings.
unfoldable pub eval_strings : (Bytes → Bytes → Bool) → Term → Term → M Term
eval_strings test (string a) (string b) = do
  left ← read_str a
  right ← read_str b
  return (bool (test left right))
eval_strings test _ _ = fail Error.type_mismatch

-- The loops of `Contains.Eval` over the elements of the left set.
unfoldable pub eval_set_contains : Terms → Term → Bool
eval_set_contains left (set right) =
    every (λ r. any (λ l. Term.equal l r) (list_of left)) (list_of right)
eval_set_contains left right = any (λ l. Term.equal right l) (list_of left)

unfoldable pub eval_contains : Term → Term → M Term
unfolding eval_set_contains eval_strings
eval_contains (string a) right = eval_strings contains_bytes (string a) right
eval_contains left (variable v) = fail Error.unexpected_type
eval_contains (set left) right = return (bool (eval_set_contains left right))
eval_contains left right = fail Error.type_mismatch

-- `res.IsInt64()`, and the result as an `Integer`.
unfoldable pub checked : ℤ → M Term
checked i = if is_int64 i then return (integer i) else fail Error.int64_overflow

unfoldable pub eval_add : Term → Term → M Term
unfolding checked
eval_add (string a) (string b) = do
  left ← read_str a
  right ← read_str b
  s ← intern (left ++ right)
  return (string s)
eval_add (integer a) (integer b) = checked (a +ℤ b)
eval_add _ _ = fail Error.type_mismatch

unfoldable pub eval_sub : Term → Term → M Term
unfolding checked
eval_sub (integer a) (integer b) = checked (a -ℤ b)
eval_sub _ _ = fail Error.type_mismatch

unfoldable pub eval_mul : Term → Term → M Term
unfolding checked
eval_mul (integer a) (integer b) = checked (a *ℤ b)
eval_mul _ _ = fail Error.type_mismatch

-- Go's `/` on two `int64`, whose quotient wraps.
unfoldable pub eval_div : Term → Term → M Term
eval_div (integer a) (integer (pos zero)) = fail Error.div_by_zero
eval_div (integer a) (integer b) = return (integer (wrap_int64 (quot_ℤ a b)))
eval_div _ _ = fail Error.type_mismatch

unfoldable pub eval_bools : (Bool → Bool → Bool) → Term → Term → M Term
eval_bools f (bool a) (bool b) = return (bool (f a b))
eval_bools f _ _ = fail Error.type_mismatch

-- `Equal` and `Hash` of a term, for the hash sets of terms.
abbrev pub term_element : (Bytes → ℕ) → Element Term
term_element digest = record { hash = λ t. digest (hashed t); equal = Term.equal }

-- The hash set of a set term, and the set term of a hash set.
unfoldable pub hash_set_of : (Bytes → ℕ) → Terms → HashSet Term
hash_set_of digest ts = new_hash_set ⦃e = term_element digest⦄ (list_of ts)

unfoldable pub set_of : HashSet Term → Term
set_of s = set (terms_of (to_slice s))

module _ (rt : Runtime) where
  unfoldable pub eval_intersection : Term → Term → M Term
  unfolding hash_set_of set_of
  eval_intersection (set a) (set b) = return (
      set_of (
        intersect ⦃e = term_element rt.digest⦄ (hash_set_of rt.digest a) (hash_set_of rt.digest b)))
  eval_intersection _ _ = fail Error.type_mismatch

  unfoldable pub eval_union : Term → Term → M Term
  unfolding hash_set_of set_of
  eval_union (set a) (set b) = return (
      set_of (
        hash_set_union ⦃e = term_element rt.digest⦄ (hash_set_of rt.digest a)
          (hash_set_of rt.digest b)))
  eval_union _ _ = fail Error.type_mismatch

  unfoldable pub eval_regex : Term → Term → M Term
  eval_regex (string a) (string b) = do
    pattern_text ← read_str b
    elim (rt.compile pattern_text) [
      | none ↦ fail Error.invalid_regex
      | some matches ↦ do text ← read_str a; return (bool (matches text))
    ]
  eval_regex _ _ = fail Error.type_mismatch

  unfoldable pub eval_binary : BinaryOpFunc → Term → Term → M Term
  unfolding eval_order eval_equal eval_strings eval_contains eval_add eval_sub eval_mul eval_div
      eval_bools eval_intersection eval_union eval_regex
  eval_binary less_than = eval_order is_lt
  eval_binary less_or_equal = eval_order is_le
  eval_binary greater_than = eval_order is_gt
  eval_binary greater_or_equal = eval_order is_ge
  eval_binary equal = eval_equal
  eval_binary contains = eval_contains
  eval_binary prefix = eval_strings has_prefix
  eval_binary suffix = eval_strings has_suffix
  eval_binary regex = eval_regex
  eval_binary add = eval_add
  eval_binary sub = eval_sub
  eval_binary mul = eval_mul
  eval_binary div = eval_div
  eval_binary and = eval_bools (λ a b. a && b)
  eval_binary or = eval_bools (λ a b. a || b)
  eval_binary intersection = eval_intersection
  eval_binary union = eval_union
