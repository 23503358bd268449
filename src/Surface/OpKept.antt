-- ===== src/Surface/OpKept.antt =====
-- types.go: operations and scopes that are converted and read back, and what is read back of a rule.
use biscuit_go.Prelude.{slice_of, none, some, ◌≡◌, refl, map, ok, Extends, Extends-refl, elements}
use biscuit_go.PublicKey.{PublicKeyTable, insert_key}
use biscuit_go.PublicKey.Lookup.{get_elem?-insert_key, insert_key-Extends}
use biscuit_go.Expression.{UnaryOpFunc, BinaryOpFunc}
use biscuit_go.Expression
use biscuit_go.Origin
use biscuit_go.Surface.{
  UnaryOp, unary_undefined, unary_negate, unary_parens, unary_length, BinaryOp, binary_undefined,
  binary_less_than, binary_less_or_equal, binary_greater_than, binary_greater_or_equal,
  binary_equal, binary_contains, binary_prefix, binary_suffix, binary_regex, binary_add, binary_sub,
  binary_mul, binary_div, binary_and, binary_or, binary_intersection, binary_union, Op, value,
  unary, binary, Expression, PublicKey, authority_scope_type, previous_scope_type,
  public_key_scope_type, Scope, Rule, Check,
}
use biscuit_go.Surface.Each.{Kept}
use biscuit_go.Surface.Convert.{convert_unary, convert_binary, convert_key, convert_scope}
use biscuit_go.Surface.Read.{read_unary, read_binary, read_scope}
use biscuit_go.Surface.TermKept.{to_seconds, predicate_to_seconds}

abbrev pub IsDefinedUnary : UnaryOp → Type 0
IsDefinedUnary unary_undefined = ⊥
IsDefinedUnary _ = Unit

abbrev pub IsDefinedBinary : BinaryOp → Type 0
IsDefinedBinary binary_undefined = ⊥
IsDefinedBinary _ = Unit

pub unary_kept :
    (f : UnaryOp)
    → IsDefinedUnary f
    → (g : UnaryOpFunc) × (convert_unary f ≡ ok g) × (read_unary g ≡ ok f)
unfolding convert_unary read_unary
unary_kept unary_undefined d = absurd d
unary_kept unary_negate d = (Expression.negate, refl, refl)
unary_kept unary_parens d = (Expression.parens, refl, refl)
unary_kept unary_length d = (Expression.length, refl, refl)

pub binary_kept :
    (f : BinaryOp)
    → IsDefinedBinary f
    → (g : BinaryOpFunc) × (convert_binary f ≡ ok g) × (read_binary g ≡ ok f)
unfolding convert_binary read_binary
binary_kept binary_undefined d = absurd d
binary_kept binary_less_than d = (biscuit_go.Expression.less_than, refl, refl)
binary_kept binary_less_or_equal d = (biscuit_go.Expression.less_or_equal, refl, refl)
binary_kept binary_greater_than d = (biscuit_go.Expression.greater_than, refl, refl)
binary_kept binary_greater_or_equal d = (biscuit_go.Expression.greater_or_equal, refl, refl)
binary_kept binary_equal d = (biscuit_go.Expression.equal, refl, refl)
binary_kept binary_contains d = (biscuit_go.Expression.contains, refl, refl)
binary_kept binary_prefix d = (biscuit_go.Expression.prefix, refl, refl)
binary_kept binary_suffix d = (biscuit_go.Expression.suffix, refl, refl)
binary_kept binary_regex d = (biscuit_go.Expression.regex, refl, refl)
binary_kept binary_add d = (biscuit_go.Expression.add, refl, refl)
binary_kept binary_sub d = (biscuit_go.Expression.sub, refl, refl)
binary_kept binary_mul d = (biscuit_go.Expression.mul, refl, refl)
binary_kept binary_div d = (biscuit_go.Expression.div, refl, refl)
binary_kept binary_and d = (biscuit_go.Expression.and, refl, refl)
binary_kept binary_or d = (biscuit_go.Expression.or, refl, refl)
binary_kept binary_intersection d = (biscuit_go.Expression.intersection, refl, refl)
binary_kept binary_union d = (biscuit_go.Expression.union, refl, refl)

-- What is read back of an operation, an expression and a rule: dates are cut to the second, an empty
-- slice of scopes is `nil`, and the other slices are not.
unfoldable pub op_to_seconds : Op → Op
unfolding to_seconds
op_to_seconds (value t) = value (to_seconds t)
op_to_seconds (unary f) = unary f
op_to_seconds (binary f) = binary f

unfoldable pub expression_to_seconds : Expression → Expression
unfolding op_to_seconds
expression_to_seconds e = some (map op_to_seconds (elements e))

unfoldable pub rule_to_seconds : Rule → Rule
unfolding predicate_to_seconds expression_to_seconds slice_of
rule_to_seconds r = record {
  head = predicate_to_seconds r.head;
  body = some (map predicate_to_seconds (elements r.body));
  expressions = some (map expression_to_seconds (elements r.expressions));
  scopes = slice_of (elements r.scopes);
}

unfoldable pub check_to_seconds : Check → Check
unfolding rule_to_seconds
check_to_seconds c = record {
  queries = some (map rule_to_seconds (elements c.queries));
  kind = c.kind;
}

-- A scope has a key exactly if its type is that of a key.
pub data IsComplete : Scope → Type 0 where
  authority_scope : IsComplete (record { scope_type = authority_scope_type; key = none })
  previous_scope : IsComplete (record { scope_type = previous_scope_type; key = none })
  key_scope :
      (pk : PublicKey) → IsComplete (record { scope_type = public_key_scope_type; key = some pk })

pub scope-Kept :
    (s : Scope) (keys : PublicKeyTable)
    → IsComplete s
    → Kept Extends (λ T. Unit {0}) (λ c k. ok (convert_scope c k)) read_scope (λ c. c) s keys
unfolding convert_scope read_scope
scope-Kept _ keys authority_scope = record {
  converted = record { scope_type = biscuit_go.Origin.authority; public_key_table_index = 0 };
  after = keys;
  runs = refl;
  grown = Extends-refl keys;
  reads = λ T x f. refl;
}
scope-Kept _ keys previous_scope = record {
  converted = record { scope_type = biscuit_go.Origin.previous; public_key_table_index = 0 };
  after = keys;
  runs = refl;
  grown = Extends-refl keys;
  reads = λ T x f. refl;
}
scope-Kept _ keys (key_scope pk) = record {
  converted = record {
    scope_type = biscuit_go.Origin.public_key;
    public_key_table_index = (insert_key (convert_key pk) keys).0;
  };
  after = (insert_key (convert_key pk) keys).1;
  runs = refl;
  grown = insert_key-Extends (convert_key pk) keys;
  reads = λ T x f. rw (get_elem?-insert_key (convert_key pk) keys T x, read_scope) refl;
}
