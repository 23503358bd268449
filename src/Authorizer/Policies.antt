-- ===== src/Authorizer/Policies.antt =====
-- authorizer.go, `SerializePolicies` and `LoadPolicies`: what was added to a builder, as a message with
-- a symbol table of its own. proto.Marshal and proto.Unmarshal of the message are left to protobuf.
use biscuit_go.Prelude.{
  ℕ, ◌==◌, Option, none, some, List, [], ◌∷◌, Bytes, if◌then◌else◌, Run, ok, err, panic, Error,
  ◌>>=◌, map_run,
}
use biscuit_go.Symbol.{SymbolTable}
use biscuit_go.Block.{datalog_version_3_3, get_datalog_version}
use biscuit_go.Conversion.Schema.{PredicateV2, RuleV2, CheckV2}
use biscuit_go.Conversion.Terms.{predicate_to_proto, predicate_from_proto}
use biscuit_go.Conversion.Rules.{rule_to_proto, check_to_proto, rule_from_proto, check_from_proto}
use biscuit_go.Surface.{Predicate, Rule, Check}
use biscuit_go.Surface.Each.{convert_each}
use biscuit_go.Surface.Convert.{convert_predicate, convert_rule, convert_check, Tables}
use biscuit_go.Surface.Read.{read_predicate, read_rule, read_check}
use biscuit_go.Authorizer.{PolicyKind, allow, deny, other, Policy}
use biscuit_go.Authorizer.Builder.{AuthorizerBuilder, add_fact, add_rule, add_check, add_policy}

-- `pb.Policy`.
pub record ProtoPolicy : Type 0 where
  pub queries : List RuleV2
  pub kind : Option ℕ

-- `pb.AuthorizerPolicies`.
pub record AuthorizerPolicies : Type 0 where
  pub symbols : List Bytes
  pub version : Option ℕ
  pub facts : List PredicateV2
  pub rules : List RuleV2
  pub checks : List CheckV2
  pub policies : List ProtoPolicy

unfoldable pub policy_kind_to_proto : PolicyKind → Run ℕ
policy_kind_to_proto allow = ok 0
policy_kind_to_proto deny = ok 1
policy_kind_to_proto (other k) = err Error.unsupported_kind

-- `*pbPolicy.Kind`, which panics if the field is absent.
unfoldable pub policy_kind_from_proto : Option ℕ → Run PolicyKind
policy_kind_from_proto none = panic
policy_kind_from_proto (some k) =
    if k == 0 then ok allow else if k == 1 then ok deny else err Error.unsupported_kind

-- What a loader gives: whether it has failed, and the builder afterwards.
abbrev pub Loading : Type 0
Loading = Run (Unit {0}) × AuthorizerBuilder

-- The next loop starts only if the one before has not failed.
abbrev pub and_then : Loading → (AuthorizerBuilder → Loading) → Loading
and_then (ok u, ab) next = next ab
and_then (err e, ab) next = (err e, ab)
and_then (panic, ab) next = (panic, ab)

-- A loop that reads each element and adds it, and stops at the first that cannot be read.
unfoldable pub load_each :
    {A B : Type 0}
    → (B → Run A)
    → (A → AuthorizerBuilder → AuthorizerBuilder)
    → List B
    → AuthorizerBuilder
    → Loading
load_each read add [] ab = (ok tt, ab)
load_each read add (b ∷ bs) ab = elim (read b) [
  | ok a ↦ load_each read add bs (add a ab)
  | err e ↦ (err e, ab)
  | panic ↦ (panic, ab)
]

module _ (digest : Bytes → ℕ) where
  unfoldable pub write_fact : Predicate → SymbolTable → Run (PredicateV2 × SymbolTable)
  unfolding convert_predicate predicate_to_proto
  write_fact f t =
      let (fact, t1) = convert_predicate digest f t in do p ← predicate_to_proto fact; ok (p, t1)

  unfoldable pub write_rule : Rule → Tables → Run (RuleV2 × Tables)
  unfolding convert_rule rule_to_proto
  write_rule r t = do (rule, t1) ← convert_rule digest r t; p ← rule_to_proto rule; ok (p, t1)

  unfoldable pub write_check : Check → Tables → Run (CheckV2 × Tables)
  unfolding convert_check check_to_proto
  write_check c t = do (check, t1) ← convert_check digest c t; p ← check_to_proto check; ok (p, t1)

  unfoldable pub write_policy : Policy → Tables → Run (ProtoPolicy × Tables)
  unfolding write_rule policy_kind_to_proto
  write_policy p t = do
    kind ← policy_kind_to_proto p.kind
    (queries, t1) ← convert_each write_rule p.queries t
    ok (record { queries = queries; kind = some kind }, t1)

  -- `SerializePolicies`, up to the bytes of the message.
  unfoldable pub serialize_policies : AuthorizerBuilder → Run AuthorizerPolicies
  unfolding write_fact write_rule write_check write_policy
  serialize_policies ab = do
    (facts, t1) ← convert_each write_fact ab.facts []
    (rules, t2) ← convert_each write_rule ab.rules (t1, [])
    (checks, t3) ← convert_each write_check ab.checks t2
    (policies, t4) ← convert_each write_policy ab.policies t3
    ok (record {
      symbols = t4.0;
      version = some datalog_version_3_3;
      facts = facts;
      rules = rules;
      checks = checks;
      policies = policies;
    })

  module _ (symbols : SymbolTable) where
    unfoldable pub load_fact : PredicateV2 → Run Predicate
    unfolding predicate_from_proto read_predicate
    load_fact p = do fact ← predicate_from_proto digest p; read_predicate digest symbols fact

    -- The table of keys is a new one, and stays empty.
    unfoldable pub load_rule : RuleV2 → Run Rule
    unfolding rule_from_proto read_rule
    load_rule p = do rule ← rule_from_proto digest p; read_rule digest symbols [] rule

    unfoldable pub load_check : CheckV2 → Run Check
    unfolding check_from_proto read_check
    load_check p = do check ← check_from_proto digest p; read_check digest symbols [] check

    unfoldable pub load_policy : ProtoPolicy → Run Policy
    unfolding load_rule policy_kind_from_proto
    load_policy p = do
      kind ← policy_kind_from_proto p.kind
      queries ← map_run load_rule p.queries
      ok (record { queries = queries; kind = kind })

  -- `loadPoliciesV2`.
  unfoldable pub load_policies_v2 : AuthorizerPolicies → AuthorizerBuilder → Loading
  unfolding load_each load_fact load_rule load_check load_policy add_fact add_rule add_check
      add_policy
  load_policies_v2 p ab =
      and_then
        (and_then
          (and_then (load_each (load_fact p.symbols) add_fact p.facts ab)
            (load_each (load_rule p.symbols) add_rule p.rules))
          (load_each (load_check p.symbols) add_check p.checks))
        (load_each (load_policy p.symbols) add_policy p.policies)

  -- `LoadPolicies`, of the message that the bytes are parsed to.
  unfoldable pub load_policies : AuthorizerPolicies → AuthorizerBuilder → Loading
  unfolding load_policies_v2 get_datalog_version
  load_policies p ab = elim (get_datalog_version p.version) [
    | ok version ↦ load_policies_v2 p ab
    | err e ↦ (err e, ab)
    | panic ↦ (panic, ab)
  ]
