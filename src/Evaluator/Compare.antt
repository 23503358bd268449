-- ===== src/Evaluator/Compare.antt =====
-- datalog/datalog.go, datalog/expressions.go and datalog/scope.go: the order of rules, and what their
-- `Hash` writes.
use biscuit_go.Prelude.{
  ℕ, none, Slice, elements, List, [], ◌∷◌, ◌++◌, ◌≡◌, refl, Bool, false, Bytes, Ordering, compare,
  then_compare, is_eq, compared_slices, little_endian, arith,
}
use biscuit_go.Term.{compare_terms, hashed}
use biscuit_go.Origin.{Scope, ScopeType, authority, previous, public_key}
use biscuit_go.Fact.{compare_predicates, hashed_predicate}
use biscuit_go.Expression.{
  UnaryOpFunc, negate, parens, length, BinaryOpFunc, less_than, less_or_equal, greater_than,
  greater_or_equal, equal, contains, prefix, suffix, regex, add, sub, mul, div, and, or,
  intersection, union, Op, value, unary, binary,
}
use biscuit_go.Evaluator.{Rule}

-- `Type` of the operations, in the order of the constants.
unfoldable pub unary_type : UnaryOpFunc → ℕ
unary_type negate = 0
unary_type parens = 1
unary_type length = 2

unfoldable pub binary_type : BinaryOpFunc → ℕ
binary_type less_than = 0
binary_type less_or_equal = 1
binary_type greater_than = 2
binary_type greater_or_equal = 3
binary_type equal = 4
binary_type contains = 5
binary_type prefix = 6
binary_type suffix = 7
binary_type regex = 8
binary_type add = 9
binary_type sub = 10
binary_type mul = 11
binary_type div = 12
binary_type and = 13
binary_type or = 14
binary_type intersection = 15
binary_type union = 16

unfoldable pub op_type : Op → ℕ
op_type (value _) = 0
op_type (unary _) = 1
op_type (binary _) = 2

unfoldable pub compare_ops : Op → Op → Ordering
unfolding unary_type binary_type op_type
compare_ops (value t) (value u) = compare_terms t u
compare_ops (unary f) (unary g) = compare (unary_type f) (unary_type g)
compare_ops (binary f) (binary g) = compare (binary_type f) (binary_type g)
compare_ops a b = compare (op_type a) (op_type b)

unfoldable pub hashed_op : Op → Bytes
unfolding unary_type binary_type
hashed_op (value t) = 0 ∷ hashed t
hashed_op (unary f) = 1 ∷ unary_type f ∷ []
hashed_op (binary f) = 2 ∷ binary_type f ∷ []

unfoldable pub compare_expressions : Slice Op → Slice Op → Ordering
unfolding compare_ops
compare_expressions e e2 = compared_slices compare_ops e e2

-- The loops of `Hash` over a slice.
unfoldable pub hashed_each {ℓ} : {A : Type ℓ} → (A → Bytes) → List A → Bytes
hashed_each h [] = []
hashed_each h (a ∷ as_) = h a ++ hashed_each h as_

unfoldable pub hashed_expression : Slice Op → Bytes
unfolding hashed_op hashed_each
hashed_expression e = hashed_each hashed_op (elements e)

unfoldable pub scope_type_number : ScopeType → ℕ
scope_type_number authority = 0
scope_type_number previous = 1
scope_type_number public_key = 2

unfoldable pub compare_scopes : Scope → Scope → Ordering
unfolding scope_type_number
compare_scopes s s2 =
    then_compare (compare (scope_type_number s.scope_type) (scope_type_number s2.scope_type))
      (compare s.public_key_table_index s2.public_key_table_index)

unfoldable pub hashed_scope : Scope → Bytes
unfolding scope_type_number
hashed_scope s =
    little_endian 8 (scope_type_number s.scope_type) ++ little_endian 8 s.public_key_table_index

-- `Rule.Compare`.
unfoldable pub compare_rules : Rule → Rule → Ordering
unfolding compare_expressions compare_scopes
compare_rules r r2 = then_compare (compare_predicates r.head r2.head) (
    then_compare (compared_slices compare_predicates r.body r2.body) (
      then_compare (compared_slices compare_expressions r.expressions r2.expressions)
        (compared_slices compare_scopes r.scopes r2.scopes)))

-- `Rule.Hash`.
unfoldable pub hashed_rule : Rule → Bytes
unfolding hashed_each hashed_expression hashed_scope
hashed_rule r =
    hashed_predicate r.head
    ++ (hashed_each hashed_predicate (elements r.body)
        ++ (hashed_each hashed_expression (elements r.expressions)
            ++ hashed_each hashed_scope (elements r.scopes)))

-- `Rule.Equal`.
unfoldable pub equal_rules : Rule → Rule → Bool
unfolding compare_rules
equal_rules r r2 = is_eq (compare_rules r r2)

then_compare-gt :
    (a b c d : Ordering)
    → d ≡ Ordering.gt
    → is_eq (then_compare a (then_compare b (then_compare c d))) ≡ false
then_compare-gt a b c d h = ground arith

-- A rule whose scopes are a `nil` slice is equal to no rule, not to itself either.
pub equal_rules-no_scopes : (r r2 : Rule) → r2.scopes ≡ none → equal_rules r r2 ≡ false
unfolding equal_rules compare_rules compared_slices
equal_rules-no_scopes r r2 h =
    then_compare-gt (compare_predicates r.head r2.head)
      (compared_slices compare_predicates r.body r2.body)
      (compared_slices compare_expressions r.expressions r2.expressions)
      (compared_slices compare_scopes r.scopes r2.scopes) (rw h refl)
