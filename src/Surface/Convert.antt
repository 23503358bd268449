-- ===== src/Surface/Convert.antt =====
-- types.go: the `convert` methods, which intern strings and keys in the tables that they are given. A
-- conversion takes the tables and gives its result with the tables afterwards.
use biscuit_go.Prelude.{
  slice_of, ℕ, ◌%◌, ◌^◌, none, some, List, [], ◌∷◌, Bytes, Slice, elements, to_uint64, Run, ok,
  panic, ◌>>=◌,
}
use biscuit_go.HashSet.{to_slice, new_hash_set}
use biscuit_go.Symbol.{SymbolTable, insert}
use biscuit_go.PublicKey.{PublicKeyTable, insert_key, PublicKey as DatalogKey}
use biscuit_go.Term.{
  Term as DatalogTerm, variable as datalog_variable, integer as datalog_integer,
  string as datalog_string, date as datalog_date, bytes as datalog_bytes, bool as datalog_bool,
  set as datalog_set, terms_of,
}
use biscuit_go.Fact.{Predicate as DatalogPredicate}
use biscuit_go.Expression.{
  Op as DatalogOp, value as datalog_value, unary as datalog_unary, binary as datalog_binary,
  UnaryOpFunc, negate, parens, length, BinaryOpFunc, less_than, less_or_equal, greater_than,
  greater_or_equal, equal, contains, prefix, suffix, regex, add, sub, mul, div, and, or,
  intersection, union,
}
use biscuit_go.Expression.Binary.{term_element}
use biscuit_go.Origin.{
  Scope as DatalogScope, ScopeType as DatalogScopeType, authority, previous, public_key,
}
use biscuit_go.Evaluator.{
  Rule as DatalogRule, Check as DatalogCheck, CheckKind as DatalogCheckKind,
  check_one as datalog_check_one, check_all as datalog_check_all,
  check_reject as datalog_check_reject,
}
use biscuit_go.Surface.Each.{convert_each}
use biscuit_go.Surface.{
  Term, variable, integer, string, date, bytes, bool, set, Terms, nil, cons, Predicate, UnaryOp,
  unary_undefined, unary_negate, unary_parens, unary_length, BinaryOp, binary_undefined,
  binary_less_than, binary_less_or_equal, binary_greater_than, binary_greater_or_equal,
  binary_equal, binary_contains, binary_prefix, binary_suffix, binary_regex, binary_add, binary_sub,
  binary_mul, binary_div, binary_and, binary_or, binary_intersection, binary_union, Op, value,
  unary, binary, Expression, PublicKey, ScopeType, authority_scope_type, previous_scope_type,
  public_key_scope_type, Scope, Rule, CheckKind, check_one, check_all, check_reject, Check,
}

abbrev pub Tables : Type 0
Tables = SymbolTable × PublicKeyTable

-- The set that `Insert` builds of the elements, one after the other.
unfoldable pub stored : (Bytes → ℕ) → List DatalogTerm → DatalogTerm
stored digest ts = datalog_set (terms_of (to_slice (new_hash_set ⦃e = term_element digest⦄ ts)))

unfoldable pub convert_unary : UnaryOp → Run UnaryOpFunc
convert_unary unary_negate = ok negate
convert_unary unary_parens = ok parens
convert_unary unary_length = ok length
convert_unary unary_undefined = panic

unfoldable pub convert_binary : BinaryOp → Run BinaryOpFunc
convert_binary binary_less_than = ok less_than
convert_binary binary_less_or_equal = ok less_or_equal
convert_binary binary_greater_than = ok greater_than
convert_binary binary_greater_or_equal = ok greater_or_equal
convert_binary binary_equal = ok equal
convert_binary binary_contains = ok contains
convert_binary binary_prefix = ok prefix
convert_binary binary_suffix = ok suffix
convert_binary binary_regex = ok regex
convert_binary binary_add = ok add
convert_binary binary_sub = ok sub
convert_binary binary_mul = ok mul
convert_binary binary_div = ok div
convert_binary binary_and = ok and
convert_binary binary_or = ok or
convert_binary binary_intersection = ok intersection
convert_binary binary_union = ok union
convert_binary binary_undefined = panic

unfoldable pub convert_key : PublicKey → DatalogKey
convert_key pk = record { key = pk.key_bytes; algorithm = pk.algorithm }

unfoldable pub convert_scope_type : ScopeType → DatalogScopeType
convert_scope_type authority_scope_type = authority
convert_scope_type previous_scope_type = previous
convert_scope_type public_key_scope_type = public_key

unfoldable pub convert_scope : Scope → PublicKeyTable → DatalogScope × PublicKeyTable
unfolding convert_key convert_scope_type
convert_scope s keys = elim (s.key) [
  | none ↦
      (record { scope_type = convert_scope_type s.scope_type; public_key_table_index = 0 }, keys)
  | some pk ↦
      let (index, keys') = insert_key (convert_key pk) keys in
      (
        record { scope_type = convert_scope_type s.scope_type; public_key_table_index = index },
        keys',
      )
]

unfoldable pub convert_scopes :
    List Scope → PublicKeyTable → Run (List DatalogScope × PublicKeyTable)
unfolding convert_scope
convert_scopes ss keys = convert_each (λ s k. ok (convert_scope s k)) ss keys

unfoldable pub convert_check_kind : CheckKind → DatalogCheckKind
convert_check_kind check_all = datalog_check_all
convert_check_kind check_reject = datalog_check_reject
convert_check_kind check_one = datalog_check_one

module _ (digest : Bytes → ℕ) where
  -- `convert` of the terms: a variable is a `uint32`, a date its seconds as a `uint64`.
  unfoldable mutual
    unfolding stored

    pub convert : Term → SymbolTable → DatalogTerm × SymbolTable
    convert (variable v) t = let (i, t') = insert v t in (datalog_variable (i % 2 ^ 32), t')
    convert (integer i) t = (datalog_integer i, t)
    convert (string s) t = let (i, t') = insert s t in (datalog_string i, t')
    convert (date d n) t = (datalog_date (to_uint64 d), t)
    convert (bytes b) t = (datalog_bytes b, t)
    convert (bool b) t = (datalog_bool b, t)
    convert (set ts) t = let (ds, t') = convert_all ts t in (stored digest ds, t')

    pub convert_all : Terms → SymbolTable → List DatalogTerm × SymbolTable
    convert_all nil t = ([], t)
    convert_all (cons a ts) t =
        let (d, t1) = convert a t in let (ds, t2) = convert_all ts t1 in (d ∷ ds, t2)

  -- The terms come before the name.
  unfoldable pub convert_predicate : Predicate → SymbolTable → DatalogPredicate × SymbolTable
  unfolding convert
  convert_predicate p t =
      let (ds, t1) = convert_all p.ids t in
      let (name, t2) = insert p.name t1 in (record { name = name; terms = some ds }, t2)

  unfoldable pub convert_predicates :
      List Predicate → SymbolTable → Run (List DatalogPredicate × SymbolTable)
  unfolding convert_predicate
  convert_predicates ps t = convert_each (λ p s. ok (convert_predicate p s)) ps t

  unfoldable pub convert_op : Op → SymbolTable → Run (DatalogOp × SymbolTable)
  unfolding convert convert_unary convert_binary
  convert_op (value a) t = let (d, t') = convert a t in ok (datalog_value d, t')
  convert_op (unary f) t = do g ← convert_unary f; ok (datalog_unary g, t)
  convert_op (binary f) t = do g ← convert_binary f; ok (datalog_binary g, t)

  -- `Expression.convert`.
  unfoldable pub convert_expression : Expression → SymbolTable → Run (Slice DatalogOp × SymbolTable)
  unfolding convert_op
  convert_expression e t = do (ds, t') ← convert_each convert_op (elements e) t; ok (some ds, t')

  unfoldable pub convert_expressions :
      List Expression → SymbolTable → Run (List (Slice DatalogOp) × SymbolTable)
  unfolding convert_expression
  convert_expressions es t = convert_each convert_expression es t

  -- `Rule.Convert`: the body, the expressions, the scopes, and the head at last.
  unfoldable pub convert_rule : Rule → Tables → Run (DatalogRule × Tables)
  unfolding convert_predicate convert_predicates convert_expressions convert_scopes slice_of
  convert_rule r (t, keys) = do
    (body, t1) ← convert_predicates (elements r.body) t
    (expressions, t2) ← convert_expressions (elements r.expressions) t1
    (scopes, keys1) ← convert_scopes (elements r.scopes) keys
    let (head, t3) = convert_predicate r.head t2
    ok (
      record {
        head = head;
        body = some body;
        expressions = some expressions;
        scopes = slice_of scopes;
      },
      (t3, keys1),
    )

  -- `Check.Convert`.
  unfoldable pub convert_check : Check → Tables → Run (DatalogCheck × Tables)
  unfolding convert_rule convert_check_kind
  convert_check c t = do
    (queries, t') ← convert_each convert_rule (elements c.queries) t
    ok (record { queries = queries; kind = convert_check_kind c.kind }, t')
