-- ===== src/Conversion/Rules.antt =====
-- converters_v2.go: rules and checks, to and from their messages.
use biscuit_go.Prelude.{slice_of, ℕ, some, List, [], ◌∷◌, Bytes, elements, Run, ok, ◌>>=◌, map_run}
use biscuit_go.Origin.{Scope}
use biscuit_go.Evaluator.{Rule, Check}
use biscuit_go.Conversion.{
  ProtoScope, scope_to_proto, scope_from_proto, check_kind_to_proto, check_kind_from_proto,
}
use biscuit_go.Conversion.Schema.{RuleV2, CheckV2}
use biscuit_go.Conversion.Terms.{
  predicate_to_proto, expression_to_proto, predicate_from_proto, expression_from_proto,
}

-- `tokenScopeToProtoScope`, which fails on no type of scope that the program has.
unfoldable pub scopes_to_proto : List Scope → List ProtoScope
unfolding scope_to_proto
scopes_to_proto [] = []
scopes_to_proto (s ∷ ss) = scope_to_proto s ∷ scopes_to_proto ss

-- `tokenRuleToProtoRuleV2`: the body, the expressions and the head, in this order.
unfoldable pub rule_to_proto : Rule → Run RuleV2
unfolding predicate_to_proto expression_to_proto scopes_to_proto
rule_to_proto r = do
  body ← map_run predicate_to_proto (elements r.body)
  expressions ← map_run expression_to_proto (elements r.expressions)
  head ← predicate_to_proto r.head
  ok (record {
    head = head;
    body = body;
    expressions = expressions;
    scope = scopes_to_proto (elements r.scopes);
  })

-- `tokenCheckToProtoCheckV2`.
unfoldable pub check_to_proto : Check → Run CheckV2
unfolding rule_to_proto check_kind_to_proto
check_to_proto c = do
  queries ← map_run rule_to_proto c.queries
  ok (record { queries = queries; kind = check_kind_to_proto c.kind })

module _ (digest : Bytes → ℕ) where
  -- `protoRuleToTokenRuleV2`: the body, the expressions, the scopes and the head, in this order.
  unfoldable pub rule_from_proto : RuleV2 → Run Rule
  unfolding predicate_from_proto expression_from_proto scope_from_proto slice_of
  rule_from_proto r = do
    body ← map_run (predicate_from_proto digest) r.body
    expressions ← map_run (expression_from_proto digest) r.expressions
    scopes ← map_run scope_from_proto r.scope
    head ← predicate_from_proto digest r.head
    ok (record {
      head = head;
      body = some body;
      expressions = some expressions;
      scopes = slice_of scopes;
    })

  -- `protoCheckToTokenCheckV2`.
  unfoldable pub check_from_proto : CheckV2 → Run Check
  unfolding rule_from_proto check_kind_from_proto
  check_from_proto c = do
    queries ← map_run rule_from_proto c.queries
    ok (record { queries = queries; kind = check_kind_from_proto c.kind })
