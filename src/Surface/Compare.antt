-- ===== src/Surface/Compare.antt =====
-- types.go: `Type`, `Compare`, `Equal` and `Hash` of the terms, and `Compare` of predicates, scopes and rules.
use biscuit_go.Prelude.{
  ℕ, zero, suc, ◌+◌, ◌-◌, ◌%◌, ◌^◌, Bool, true, false, Option, none, some, List, [], ◌∷◌, ◌++◌,
  Bytes, ℤ, pos, negsuc, compare_ℤ, compare_bytes, little_endian, compare, Ordering, is_eq,
  then_compare, compared, if◌then◌else◌, leb, ◌+ℤ◌, ◌*ℤ◌, length, codes, Run, ok, panic, Slice,
  elements, ◌>>=◌, compared_slices,
}
use biscuit_go.HashSet.{Element}
use biscuit_go.Term.{compare_bool}
use biscuit_go.Surface.{
  Term, variable, integer, string, date, bytes, bool, set, Terms, nil, cons, list_of, Predicate,
  UnaryOp, unary_undefined, unary_negate, unary_parens, unary_length, BinaryOp, binary_undefined,
  binary_less_than, binary_less_or_equal, binary_greater_than, binary_greater_or_equal,
  binary_equal, binary_contains, binary_prefix, binary_suffix, binary_regex, binary_add, binary_sub,
  binary_mul, binary_div, binary_and, binary_or, binary_intersection, binary_union, Op, value,
  unary, binary, Expression, PublicKey, ScopeType, authority_scope_type, previous_scope_type,
  public_key_scope_type, Scope, Rule, Check,
}

-- `TermType`, in the order of its constants, the first of which no term has.
unfoldable pub term_type : Term → ℕ
term_type (variable _) = 1
term_type (integer _) = 2
term_type (string _) = 3
term_type (date _ _) = 4
term_type (bytes _) = 5
term_type (bool _) = 6
term_type (set _) = 7

-- The `Compare` methods behind their tests of the type. `cmp` compares the elements of sets.
unfoldable pub compare_same : (Term → Term → Ordering) → Term → Term → Ordering
compare_same cmp (variable v) (variable w) = compare_bytes v w
compare_same cmp (integer i) (integer j) = compare_ℤ i j
compare_same cmp (string s) (string t) = compare_bytes s t
compare_same cmp (date d n) (date e m) = then_compare (compare_ℤ d e) (compare n m)
compare_same cmp (bytes a) (bytes b) = compare_bytes a b
compare_same cmp (bool a) (bool b) = compare_bool a b
compare_same cmp (set a) (set b) = compared cmp (list_of a) (list_of b)
compare_same cmp _ _ = Ordering.eq

-- `Compare`, to a depth of nested sets.
unfoldable pub compare_at : ℕ → Term → Term → Ordering
unfolding term_type compare_same
compare_at zero a b = Ordering.eq
compare_at (suc n) a b =
    then_compare (compare (term_type a) (term_type b)) (compare_same (compare_at n) a b)

unfoldable mutual
  pub depth : Term → ℕ
  depth (variable _) = 0
  depth (integer _) = 0
  depth (string _) = 0
  depth (date _ _) = 0
  depth (bytes _) = 0
  depth (bool _) = 0
  depth (set ts) = suc (depths ts)

  pub depths : Terms → ℕ
  depths nil = 0
  depths (cons t ts) = if leb (depth t) (depths ts) then depths ts else depth t

-- `Compare`: the depth of the deeper term is enough.
unfoldable pub compare_terms : Term → Term → Ordering
unfolding compare_at depth
compare_terms a b = compare_at (suc (depth a + depth b)) a b

-- `Equal`.
unfoldable pub equal : Term → Term → Bool
unfolding compare_terms
equal a b = is_eq (compare_terms a b)

-- The 64 bits of an integer, modulo 2^64.
unfoldable pub bits64 : ℤ → ℕ
bits64 (pos n) = n % 2 ^ 64
bits64 (negsuc n) = 2 ^ 64 - 1 - n % 2 ^ 64

-- What `Hash` writes. `UnixNano` is the number of nanoseconds since 1970.
unfoldable mutual
  unfolding bits64

  pub hashed : Term → Bytes
  hashed (variable v) = 1 ∷ (codes "$" ++ v)
  hashed (integer i) = 2 ∷ little_endian 8 (bits64 i)
  hashed (string s) = 3 ∷ s
  hashed (date d n) = 4 ∷ little_endian 8 (bits64 ((d *ℤ pos 1000000000) +ℤ pos n))
  hashed (bytes b) = 5 ∷ b
  hashed (bool true) = 6 ∷ 1 ∷ []
  hashed (bool false) = 6 ∷ 0 ∷ []
  hashed (set ts) = 7 ∷ hashed_all ts

  pub hashed_all : Terms → Bytes
  hashed_all nil = []
  hashed_all (cons t ts) = hashed t ++ hashed_all ts

abbrev pub term_element : (Bytes → ℕ) → Element Term
term_element digest = record { hash = λ t. digest (hashed t); equal = equal }

-- The loop of `Predicate.Compare` over two lists of one length.
unfoldable pub compare_ids : Terms → Terms → Ordering
unfolding compare_terms
compare_ids nil us = Ordering.eq
compare_ids (cons t ts) nil = Ordering.eq
compare_ids (cons t ts) (cons u us) = then_compare (compare_terms t u) (compare_ids ts us)

unfoldable pub compare_predicates : Predicate → Predicate → Ordering
unfolding compare_ids
compare_predicates p q = then_compare (compare_bytes p.name q.name) (
    then_compare (compare (length (list_of p.ids)) (length (list_of q.ids)))
      (compare_ids p.ids q.ids))

-- The numbers of the operations, in the order of their constants.
unfoldable pub unary_number : UnaryOp → ℕ
unary_number unary_undefined = 0
unary_number unary_negate = 1
unary_number unary_parens = 2
unary_number unary_length = 3

unfoldable pub binary_number : BinaryOp → ℕ
binary_number binary_undefined = 0
binary_number binary_less_than = 1
binary_number binary_less_or_equal = 2
binary_number binary_greater_than = 3
binary_number binary_greater_or_equal = 4
binary_number binary_equal = 5
binary_number binary_contains = 6
binary_number binary_prefix = 7
binary_number binary_suffix = 8
binary_number binary_regex = 9
binary_number binary_add = 10
binary_number binary_sub = 11
binary_number binary_mul = 12
binary_number binary_div = 13
binary_number binary_and = 14
binary_number binary_or = 15
binary_number binary_intersection = 16
binary_number binary_union = 17

unfoldable pub op_type : Op → ℕ
op_type (value _) = 0
op_type (unary _) = 1
op_type (binary _) = 2

unfoldable pub compare_ops : Op → Op → Ordering
unfolding compare_terms unary_number binary_number op_type
compare_ops (value t) (value u) = compare_terms t u
compare_ops (unary f) (unary g) = compare (unary_number f) (unary_number g)
compare_ops (binary f) (binary g) = compare (binary_number f) (binary_number g)
compare_ops a b = compare (op_type a) (op_type b)

unfoldable pub compare_expressions : Expression → Expression → Ordering
unfolding compare_ops
compare_expressions e e2 = compared_slices compare_ops e e2

unfoldable pub scope_type_number : ScopeType → ℕ
scope_type_number authority_scope_type = 0
scope_type_number previous_scope_type = 1
scope_type_number public_key_scope_type = 2

-- `PublicKey.Compare`, a method of pointers, which reads through both.
unfoldable pub compare_keys : Option PublicKey → Option PublicKey → Run Ordering
compare_keys none other = panic
compare_keys (some pk) none = panic
compare_keys (some pk) (some pk2) =
    ok
      (then_compare (compare pk.algorithm pk2.algorithm) (compare_bytes pk.key_bytes pk2.key_bytes))

-- `if x := c; x != 0 { return x }`, where what follows may panic.
unfoldable pub then_run : Ordering → Run Ordering → Run Ordering
then_run Ordering.eq d = d
then_run Ordering.lt d = ok Ordering.lt
then_run Ordering.gt d = ok Ordering.gt

unfoldable pub compare_scopes : Scope → Scope → Run Ordering
unfolding scope_type_number compare_keys then_run
compare_scopes s s2 =
    then_run (compare (scope_type_number s.scope_type) (scope_type_number s2.scope_type))
      (compare_keys s.key s2.key)

-- The loop of `set.ComparedSlices` over two lists of one length, where a comparison may panic.
unfoldable pub compare_each_run {ℓ} :
    {A : Type ℓ} → (A → A → Run Ordering) → List A → List A → Run Ordering
unfolding then_run
compare_each_run cmp [] bs = ok Ordering.eq
compare_each_run cmp (a ∷ as_) [] = ok Ordering.eq
compare_each_run cmp (a ∷ as_) (b ∷ bs) =
    let rest = compare_each_run cmp as_ bs in do x ← cmp a b; then_run x rest

unfoldable pub compared_slices_run {ℓ} :
    {A : Type ℓ} → (A → A → Run Ordering) → Slice A → Slice A → Run Ordering
unfolding compare_each_run then_run
compared_slices_run cmp a none = ok Ordering.gt
compared_slices_run cmp a (some b) =
    then_run (compare (length (elements a)) (length b)) (compare_each_run cmp (elements a) b)

unfoldable pub compare_rules : Rule → Rule → Run Ordering
unfolding compare_predicates compare_expressions compare_scopes compared_slices_run then_run
compare_rules r r2 = then_run (compare_predicates r.head r2.head) (
    then_run (compared_slices compare_predicates r.body r2.body) (
      then_run (compared_slices compare_expressions r.expressions r2.expressions)
        (compared_slices_run compare_scopes r.scopes r2.scopes)))

unfoldable pub compare_checks : Check → Check → Run Ordering
unfolding compare_rules compared_slices_run
compare_checks c c2 = compared_slices_run compare_rules c.queries c2.queries
