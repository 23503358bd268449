-- ===== src/Surface/RoundTrip.antt =====
-- types.go: rules and checks that are converted and read back.
use biscuit_go.Prelude.{
  slice_of, elements-slice_of, ℕ, some, List, [], ◌∷◌, ◌≡◌, refl, sym, subst, ap, ◌∙◌, map, Bytes,
  Run, ok, Extends, Extends-refl, Extends-trans, elements,
}
use biscuit_go.Symbol.{SymbolTable}
use biscuit_go.Symbol.Laws.{FitsVariables}
use biscuit_go.PublicKey.{PublicKeyTable}
use biscuit_go.Expression.{UnaryOpFunc, BinaryOpFunc}
use biscuit_go.Expression
use biscuit_go.Evaluator
use biscuit_go.Evaluator
use biscuit_go.Surface.{
  Op, value, unary, binary, Expression, Rule, CheckKind, check_one, check_all, check_reject, Check,
}
use biscuit_go.Surface.Each.{Kept, After, Each, convert_each-Kept}
use biscuit_go.Surface.Convert.{
  convert, convert_scope, convert_scopes, convert_predicate, convert_predicates, convert_op,
  convert_expression, convert_expressions, convert_rule, convert_check_kind, convert_check, Tables,
}
use biscuit_go.Surface.Read.{
  read_scope, read_predicate, read_op, read_expression, read_rule, read_check_kind, read_check,
}
use biscuit_go.Surface.TermKept.{
  predicate_to_seconds, IsStorable, AreStorable, convert-Extends, read_term-convert,
  convert_predicate-Kept, convert_predicate-Extends, read_predicate-convert_predicate,
}
use biscuit_go.Surface.OpKept.{
  IsDefinedUnary, IsDefinedBinary, unary_kept, binary_kept, op_to_seconds, expression_to_seconds,
  rule_to_seconds, check_to_seconds, IsComplete, scope-Kept,
}

map_identity : {A : Type 0} (l : List A) → map (λ a. a) l ≡ l
map_identity [] = refl
map_identity (a ∷ l) = ap (λ r. a ∷ r) (map_identity l)

ok-parts :
    {A B C : Type 0} {a a' : A} {b b' : B} {c c' : C}
    → ◌≡◌ {A = Run (A × (B × C))} (ok (a, (b, c))) (ok (a', (b', c')))
    → (a ≡ a') × (b ≡ b') × (c ≡ c')
ok-parts h = (cc, cc, cc)

-- Tables grow, both the symbols and the keys.
abbrev pub Grow : Tables → Tables → Type 0
Grow (t, keys) (t', keys') = Extends t t' × Extends keys keys'

abbrev pub Fit : Tables → Type 0
Fit (t, keys) = FitsVariables t

Grow-refl : (t : Tables) → Grow t t
Grow-refl (t, keys) = (Extends-refl t, Extends-refl keys)

Grow-trans : (t u v : Tables) → Grow t u → Grow u v → Grow t v
Grow-trans (t, k) (u, l) (v, m) (x, y) (x', y') =
    (Extends-trans t u v x x', Extends-trans k l m y y')

read_check_kind-convert : (k : CheckKind) → read_check_kind (convert_check_kind k) ≡ k
unfolding read_check_kind convert_check_kind
read_check_kind-convert check_one = refl
read_check_kind-convert check_all = refl
read_check_kind-convert check_reject = refl

module _ (digest : Bytes → ℕ) where
  abbrev pub IsStorableOp : Op → SymbolTable → Type 0
  IsStorableOp (value a) t = IsStorable digest a t
  IsStorableOp (unary f) t = IsDefinedUnary f
  IsStorableOp (binary f) t = IsDefinedBinary f

  abbrev pub IsStorableExpression : Expression → SymbolTable → Type 0
  IsStorableExpression e t = Each (convert_op digest) IsStorableOp (elements e) t

  -- Every term of the rule is storable in the table that it meets, every operation is a defined one,
  -- and every scope is complete.
  abbrev pub IsStorableRule : Rule → Tables → Type 0
  IsStorableRule r (t, keys) =
      Each (λ p s. ok (convert_predicate digest p s)) (λ p. AreStorable digest p.ids)
        (elements r.body) t
      × After (convert_predicates digest (elements r.body) t) (λ t1.
        Each (convert_expression digest) IsStorableExpression (elements r.expressions) t1
        × After (convert_expressions digest (elements r.expressions) t1)
            (AreStorable digest r.head.ids))
      × Each (λ s k. ok (convert_scope s k)) (λ s k. IsComplete s) (elements r.scopes) keys

  abbrev pub IsStorableCheck : Check → Tables → Type 0
  IsStorableCheck c t = Each (convert_rule digest) IsStorableRule (elements c.queries) t

  op-Kept :
      (o : Op) (t : SymbolTable)
      → IsStorableOp o t
      → Kept Extends FitsVariables (convert_op digest) (read_op digest) op_to_seconds o t
  unfolding convert_op read_op op_to_seconds
  op-Kept (value a) t h = record {
    converted = biscuit_go.Expression.value (convert digest a t).0;
    after = (convert digest a t).1;
    runs = refl;
    grown = convert-Extends digest a t;
    reads = λ T x f. rw (read_term-convert digest T f a t h x) refl;
  }
  op-Kept (unary f) t h =
      let (g, c, r) = unary_kept f h in
      record {
        converted = biscuit_go.Expression.unary g;
        after = t;
        runs = rw c refl;
        grown = Extends-refl t;
        reads = λ T x i. rw r refl;
      }
  op-Kept (binary f) t h =
      let (g, c, r) = binary_kept f h in
      record {
        converted = biscuit_go.Expression.binary g;
        after = t;
        runs = rw c refl;
        grown = Extends-refl t;
        reads = λ T x i. rw r refl;
      }

  expression-Kept :
      (e : Expression) (t : SymbolTable)
      → IsStorableExpression e t
      → Kept Extends FitsVariables
          (convert_expression digest)
          (read_expression digest)
          expression_to_seconds
          e
          t
  unfolding convert_expression read_expression expression_to_seconds
  expression-Kept e t h =
      let k =
        convert_each-Kept Extends-refl Extends-trans (convert_op digest) (read_op digest)
          op_to_seconds IsStorableOp op-Kept (elements e) t h in
      record {
        converted = some k.converted;
        after = k.after;
        runs = rw k.runs refl;
        grown = k.grown;
        reads = λ T x f. rw (k.reads T x f) refl;
      }

  rule-Kept :
      (r : Rule) (t : Tables)
      → IsStorableRule r t
      → Kept Grow Fit (convert_rule digest) (λ (T, K). read_rule digest T K) rule_to_seconds r t
  unfolding convert_rule read_rule rule_to_seconds convert_predicates convert_expressions
      convert_scopes
  rule-Kept r (t, keys) (body, h, scopes) =
      let b =
        convert_each-Kept Extends-refl Extends-trans (λ p s. ok (convert_predicate digest p s))
          (read_predicate digest) predicate_to_seconds (λ p. AreStorable digest p.ids)
          (convert_predicate-Kept digest) (elements r.body) t body in
      let h' = rw b.runs at h in
      let e =
        convert_each-Kept Extends-refl Extends-trans (convert_expression digest)
          (read_expression digest) expression_to_seconds IsStorableExpression expression-Kept
          (elements r.expressions) b.after h'.0 in
      let head = rw e.runs at h'.1 in
      let s =
        convert_each-Kept Extends-refl Extends-trans (λ c k. ok (convert_scope c k)) read_scope
          (λ c. c) (λ c k. IsComplete c) scope-Kept (elements r.scopes) keys scopes in
      let t3 = (convert_predicate digest r.head e.after).1 in
      let last = convert_predicate-Extends digest r.head e.after in
      record {
        converted = record {
          head = (convert_predicate digest r.head e.after).0;
          body = some b.converted;
          expressions = some e.converted;
          scopes = slice_of s.converted;
        };
        after = (t3, s.after);
        runs = rw (b.runs, e.runs, s.runs) refl;
        grown = (
          Extends-trans t b.after t3 b.grown (Extends-trans b.after e.after t3 e.grown last),
          s.grown,
        );
        reads = λ (T, K) (x, y) f.
            let xe = Extends-trans e.after t3 T last x in
            rw
              (
                read_predicate-convert_predicate digest r.head e.after T head x f,
                b.reads T (Extends-trans b.after e.after T e.grown xe) f,
                e.reads T xe f,
                elements-slice_of s.converted,
                s.reads K y tt,
                map_identity (elements r.scopes),
              )
              refl;
      }

  -- A rule that is storable in the tables at hand is converted without a panic, and the tables only
  -- grow.
  pub convert_rule-ok :
      (r : Rule) (t : SymbolTable) (keys : PublicKeyTable)
      → IsStorableRule r (t, keys)
      → (d : biscuit_go.Evaluator.Rule) × (t' : SymbolTable) × (keys' : PublicKeyTable)
        × (convert_rule digest r (t, keys) ≡ ok (d, (t', keys')))
        × Extends t t'
        × Extends keys keys'
  convert_rule-ok r t keys h =
      let k = rule-Kept r (t, keys) h in
      (k.converted, k.after.0, k.after.1, k.runs, k.grown.0, k.grown.1)

  -- What a storable rule is converted to is read back as that rule, up to what `rule_to_seconds`
  -- says, from the tables after the conversion, and from all that grow out of them and stay below
  -- 2^32 symbols.
  pub read_rule-convert_rule :
      (r : Rule) (t t' T : SymbolTable) (keys keys' K : PublicKeyTable)
      (d : biscuit_go.Evaluator.Rule)
      → IsStorableRule r (t, keys)
      → convert_rule digest r (t, keys) ≡ ok (d, (t', keys'))
      → Extends t' T
      → Extends keys' K
      → FitsVariables T
      → read_rule digest T K d ≡ ok (rule_to_seconds r)
  read_rule-convert_rule r t t' T keys keys' K d h runs x y f =
      let k = rule-Kept r (t, keys) h in
      let (ed, et, ek) = ok-parts (sym k.runs ∙ runs) in
      subst (λ e. read_rule digest T K e ≡ ok (rule_to_seconds r)) ed
        (k.reads (T, K) (subst (λ u. Extends u T) (sym et) x, subst (λ l. Extends l K) (sym ek) y)
          f)

  check-Kept :
      (c : Check) (t : Tables)
      → IsStorableCheck c t
      → Kept Grow Fit (convert_check digest) (λ (T, K). read_check digest T K) check_to_seconds c t
  unfolding convert_check read_check check_to_seconds
  check-Kept c t h =
      let k =
        convert_each-Kept Grow-refl Grow-trans (convert_rule digest)
          (λ (T, K). read_rule digest T K) rule_to_seconds IsStorableRule rule-Kept
          (elements c.queries) t h in
      record {
        converted = record { queries = k.converted; kind = convert_check_kind c.kind };
        after = k.after;
        runs = rw k.runs refl;
        grown = k.grown;
        reads = λ (T, K) g f. rw (k.reads (T, K) g f, read_check_kind-convert c.kind) refl;
      }

  -- What a check with storable queries is converted to is read back as that check, of the same
  -- kind, with its queries up to what `rule_to_seconds` says, from the tables after the conversion,
  -- and from all that grow out of them and stay below 2^32 symbols.
  pub read_check-convert_check :
      (c : Check) (t t' T : SymbolTable) (keys keys' K : PublicKeyTable)
      (d : biscuit_go.Evaluator.Check)
      → IsStorableCheck c (t, keys)
      → convert_check digest c (t, keys) ≡ ok (d, (t', keys'))
      → Extends t' T
      → Extends keys' K
      → FitsVariables T
      → read_check digest T K d ≡ ok (check_to_seconds c)
  read_check-convert_check c t t' T keys keys' K d h runs x y f =
      let k = check-Kept c (t, keys) h in
      let (ed, et, ek) = ok-parts (sym k.runs ∙ runs) in
      subst (λ e. read_check digest T K e ≡ ok (check_to_seconds c)) ed
        (k.reads (T, K) (subst (λ u. Extends u T) (sym et) x, subst (λ l. Extends l K) (sym ek) y)
          f)
