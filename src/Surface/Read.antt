-- ===== src/Surface/Read.antt =====
-- types.go: the `fromDatalog` functions, which look symbols and indexes up in the tables of a token.
use biscuit_go.Prelude.{
  slice_of, map_run, ℕ, none, some, Bytes, Slice, elements, pos, wrap_int64, Run, ok, err, Error,
  ◌>>=◌, get_elem?,
}
use biscuit_go.HashSet.{to_slice, new_hash_set}
use biscuit_go.Symbol.{SymbolTable, str}
use biscuit_go.PublicKey.{PublicKeyTable}
use biscuit_go.Term.{
  Term as DatalogTerm, variable as datalog_variable, integer as datalog_integer,
  string as datalog_string, date as datalog_date, bytes as datalog_bytes, bool as datalog_bool,
  set as datalog_set, Terms as DatalogTerms, nil as datalog_nil, cons as datalog_cons,
  terms_of as datalog_terms,
}
use biscuit_go.Fact.{Predicate as DatalogPredicate}
use biscuit_go.Expression.{
  Op as DatalogOp, value as datalog_value, unary as datalog_unary, binary as datalog_binary,
  UnaryOpFunc, negate, parens, length, BinaryOpFunc, less_than, less_or_equal, greater_than,
  greater_or_equal, equal, contains, prefix, suffix, regex, add, sub, mul, div, and, or,
  intersection, union,
}
use biscuit_go.Origin.{Scope as DatalogScope, authority, previous, public_key}
use biscuit_go.Evaluator.{
  Rule as DatalogRule, Check as DatalogCheck, CheckKind as DatalogCheckKind,
  check_one as datalog_check_one, check_all as datalog_check_all,
  check_reject as datalog_check_reject,
}
use biscuit_go.Surface.{
  Term, variable, integer, string, date, bytes, bool, set, Terms, nil, cons, list_of, terms_of,
  Predicate, UnaryOp, unary_negate, unary_parens, unary_length, BinaryOp, binary_less_than,
  binary_less_or_equal, binary_greater_than, binary_greater_or_equal, binary_equal, binary_contains,
  binary_prefix, binary_suffix, binary_regex, binary_add, binary_sub, binary_mul, binary_div,
  binary_and, binary_or, binary_intersection, binary_union, Op, value, unary, binary, Expression,
  authority_scope_type, previous_scope_type, public_key_scope_type, Scope, Rule, CheckKind,
  check_one, check_all, check_reject, Check,
}
use biscuit_go.Surface.Compare.{term_element}

-- `NewSet`.
unfoldable pub new_set : (Bytes → ℕ) → Terms → Term
new_set digest ts = set (terms_of (to_slice (new_hash_set ⦃e = term_element digest⦄ (list_of ts))))

unfoldable pub read_unary : UnaryOpFunc → Run UnaryOp
read_unary negate = ok unary_negate
read_unary parens = ok unary_parens
read_unary length = ok unary_length

unfoldable pub read_binary : BinaryOpFunc → Run BinaryOp
read_binary less_than = ok binary_less_than
read_binary less_or_equal = ok binary_less_or_equal
read_binary greater_than = ok binary_greater_than
read_binary greater_or_equal = ok binary_greater_or_equal
read_binary equal = ok binary_equal
read_binary contains = ok binary_contains
read_binary prefix = ok binary_prefix
read_binary suffix = ok binary_suffix
read_binary regex = ok binary_regex
read_binary add = ok binary_add
read_binary sub = ok binary_sub
read_binary mul = ok binary_mul
read_binary div = ok binary_div
read_binary and = ok binary_and
read_binary or = ok binary_or
read_binary intersection = ok binary_intersection
read_binary union = ok binary_union

unfoldable pub read_scope : PublicKeyTable → DatalogScope → Run Scope
read_scope keys s = elim (s.scope_type) [
  | authority ↦ ok (record { scope_type = authority_scope_type; key = none })
  | previous ↦ ok (record { scope_type = previous_scope_type; key = none })
  | public_key ↦ elim (get_elem? keys s.public_key_table_index) [
    | none ↦ err Error.invalid_key_index
    | some pk ↦ ok (record {
      scope_type = public_key_scope_type;
      key = some (record { algorithm = pk.algorithm; key_bytes = pk.key });
    })
  ]
]

unfoldable pub read_check_kind : DatalogCheckKind → CheckKind
read_check_kind datalog_check_all = check_all
read_check_kind datalog_check_reject = check_reject
read_check_kind datalog_check_one = check_one

module _ (digest : Bytes → ℕ) (symbols : SymbolTable) where
  -- `fromDatalogID`.
  unfoldable mutual
    unfolding new_set

    pub read_term : DatalogTerm → Run Term
    read_term (datalog_variable v) = do s ← str symbols v; ok (variable s)
    read_term (datalog_integer i) = ok (integer i)
    read_term (datalog_string s) = do v ← str symbols s; ok (string v)
    read_term (datalog_date d) = ok (date (wrap_int64 (pos d)) 0)
    read_term (datalog_bytes b) = ok (bytes b)
    read_term (datalog_bool b) = ok (bool b)
    read_term (datalog_set ds) = do ts ← read_terms ds; ok (new_set digest ts)

    pub read_terms : DatalogTerms → Run Terms
    read_terms datalog_nil = ok nil
    read_terms (datalog_cons d ds) = do t ← read_term d; ts ← read_terms ds; ok (cons t ts)

  -- `fromDatalogPredicate`, and `fromDatalogFact`.
  unfoldable pub read_predicate : DatalogPredicate → Run Predicate
  unfolding read_term
  read_predicate p = do
    ids ← read_terms (datalog_terms (elements p.terms))
    name ← str symbols p.name
    ok (record { name = name; ids = ids })

  unfoldable pub read_op : DatalogOp → Run Op
  unfolding read_term read_unary read_binary
  read_op (datalog_value d) = do t ← read_term d; ok (value t)
  read_op (datalog_unary g) = do f ← read_unary g; ok (unary f)
  read_op (datalog_binary g) = do f ← read_binary g; ok (binary f)

  -- `fromDatalogExpression`.
  unfoldable pub read_expression : Slice DatalogOp → Run Expression
  unfolding read_op
  read_expression e = do os ← map_run read_op (elements e); ok (some os)

  module _ (keys : PublicKeyTable) where
    -- `fromDatalogRule`.
    unfoldable pub read_rule : DatalogRule → Run Rule
    unfolding read_predicate read_expression read_scope slice_of
    read_rule r = do
      head ← read_predicate r.head
      body ← map_run read_predicate (elements r.body)
      expressions ← map_run read_expression (elements r.expressions)
      scopes ← map_run (read_scope keys) (elements r.scopes)
      ok (record {
        head = head;
        body = some body;
        expressions = some expressions;
        scopes = slice_of scopes;
      })

    -- `fromDatalogCheck`.
    unfoldable pub read_check : DatalogCheck → Run Check
    unfolding read_rule read_check_kind
    read_check c = do
      queries ← map_run read_rule c.queries
      ok (record { queries = some queries; kind = read_check_kind c.kind })
