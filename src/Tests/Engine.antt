-- ===== src/Tests/Engine.antt =====
-- The theorems of the rule engine and the authorizer, on an authorizer with one fact, one rule and one
-- check of each kind.
use biscuit_go.Prelude.{
  ℕ, ◌+◌, ◌^◌, ◌≡◌, ◌≢◌, ◌≤◌, ◌<◌, ◌↔◌, refl, Bool, true, false, List, [], ◌∷◌, Option, none, some,
  codes, Slice, Run, ok, err, panic, Error, arith, pos, All, length, elements,
}
use biscuit_go.Symbol.{SymbolTable}
use biscuit_go.HashSet.{HashSet, new_hash_set, empty}
use biscuit_go.HashSet.Valid.{IsValid}
use biscuit_go.HashSet.Algebra.{new_hash_set-IsValid}
use biscuit_go.Origin.Block.{block_element, block_element-IsLawful}
use biscuit_go.Term.{Term, integer, string, bool, variable}
use biscuit_go.Origin.{
  Origin, Scope, SignatureRegistry, new_trusted_origin, new_origin, encode_to_string,
}
use biscuit_go.Fact.{Predicate, Fact, FactSet, insert}
use biscuit_go.Combinations.{combinations}
use biscuit_go.Combinations.Tuples.{tuples}
use biscuit_go.Combinations.Search.{keep}
use biscuit_go.Combinations.Odometer.{combinations-keep}
use biscuit_go.Matching.{FactWithOrigin, matches, failed_position, yielded_all}
use biscuit_go.Matching.Pruning.{matches-keep, failed_position-IsPruning}
use biscuit_go.Matching.Yielded.{IsMatch, matches-IsMatch}
use biscuit_go.Evaluator.{Rule, Check, check_one, check_all, check_reject, verify}
use biscuit_go.Evaluator.Kinds.{verify-all_one, verify-reject_no_conditions}
use biscuit_go.World.{RuleInBlock, default_run_limits, Clock, run_from}
use biscuit_go.World.Saturation.{IsSaturated, run_from-IsSaturated}
use biscuit_go.Surface.{Rule as SurfaceRule, nil, cons, variable as variable_name}
use biscuit_go.Authorizer.{allow, Authorizer, authorize}
use biscuit_go.Authorizer.Success.{IsAuthorized, authorize_iff}
use biscuit_go.Authorizer.Kinds.{with_kinds, authorize-with_kinds}
use biscuit_go.Tests.{test_digest, test_runtime}

-- `right(1, 2)`, a fact of the authority block, and `right($1, $2)`.
abbrev right_fact : Fact
right_fact = record { name = 4; terms = some (integer (pos 1) ∷ integer (pos 2) ∷ []) }

abbrev right_body : Predicate
right_body = record { name = 4; terms = some (variable 1 ∷ variable 2 ∷ []) }

abbrev authority_origin : Origin
authority_origin = new_origin test_digest 0 []

abbrev sample_facts : List FactWithOrigin
sample_facts = record { fact = right_fact; origin = authority_origin } ∷ []

abbrev sample_body : List Predicate
sample_body = right_body ∷ right_body ∷ []

combinations-keep_example :
    combinations 1 (failed_position sample_facts sample_body) 2
    ≡ keep (failed_position sample_facts sample_body) (tuples 1 2)
combinations-keep_example =
    combinations-keep 1 2 (failed_position sample_facts sample_body)
      (failed_position-IsPruning sample_facts sample_body)

matches-keep_example :
    matches sample_facts test_digest sample_body
    ≡ yielded_all sample_facts test_digest sample_body (
        keep
          (failed_position sample_facts sample_body)
          (tuples (length sample_facts) (length sample_body)))
matches-keep_example = matches-keep sample_facts test_digest sample_body

authority_origin-IsValid : IsValid ⦃e = block_element test_digest⦄ authority_origin
unfolding new_origin biscuit_go.HashSet.insert_all new_hash_set
authority_origin-IsValid =
    new_hash_set-IsValid ⦃e = block_element test_digest⦄ (block_element-IsLawful test_digest)
      (0 ∷ [])

matches-IsMatch_example :
    All
      (IsMatch sample_facts test_digest sample_body)
      (matches sample_facts test_digest sample_body)
matches-IsMatch_example =
    matches-IsMatch sample_facts test_digest (authority_origin-IsValid, tt) sample_body

-- `right($1, $2)` as a query, and `copy($1) <- right($1, $2)` as a rule.
abbrev right_query : Rule
right_query = record {
  head = record { name = 27; terms = some [] };
  body = some (right_body ∷ []);
  expressions = some [];
  scopes = some [];
}

abbrev copy_rule : Rule
copy_rule = record {
  head = record { name = 1024; terms = some (variable 1 ∷ []) };
  body = some (right_body ∷ []);
  expressions = some [];
  scopes = some [];
}

abbrev fact_set : FactSet
fact_set = insert test_digest authority_origin right_fact []

abbrev no_deadline : Clock
no_deadline round ribs = false

abbrev sample_rules : List (Origin × List RuleInBlock)
sample_rules = (new_trusted_origin test_digest, record { block_id = 0; rule = copy_rule } ∷ []) ∷ []

-- `right($1, $2)` as a query of a policy, before its conversion.
abbrev written_query : SurfaceRule
written_query = record {
  head = record { name = codes "query"; ids = nil };
  body = some (
      record {
        name = codes "right";
        ids = cons (variable_name (codes "a")) (cons (variable_name (codes "b")) nil);
      }
      ∷ []);
  expressions = none;
  scopes = none;
}

abbrev sample_authorizer : Authorizer
sample_authorizer = record {
  world = record { facts = fact_set; rules = []; run_limits = default_run_limits };
  public_keys = [];
  signature_registry = [];
  authorizer_scopes = [];
  authorizer_checks = record { queries = right_query ∷ []; kind = check_one } ∷ [];
  authorizer_policies = record { queries = written_query ∷ []; kind = allow } ∷ [];
  biscuit_blocks =
      record {
        block_scopes = [];
        block_checks = record { queries = right_query ∷ []; kind = check_all } ∷ [];
      }
      ∷ [];
}

authorize_iff_example :
    (authorize test_runtime no_deadline sample_authorizer [] ≡ (ok tt, []))
    ↔ IsAuthorized test_runtime no_deadline sample_authorizer [] []
authorize_iff_example = authorize_iff test_runtime no_deadline sample_authorizer [] []

authorize-with_kinds_example :
    authorize test_runtime no_deadline (with_kinds check_reject sample_authorizer) []
    ≡ authorize test_runtime no_deadline sample_authorizer []
authorize-with_kinds_example =
    authorize-with_kinds test_runtime no_deadline check_reject sample_authorizer []

verify_all_sample :
    verify test_runtime fact_set [] 0 []
      (record { queries = right_query ∷ []; kind = check_all })
      []
    ≡ (ok true, [])
unfolding verify biscuit_go.Evaluator.matches_of matches combinations biscuit_go.Fact.entries
    biscuit_go.Fact.with_origin insert biscuit_go.Origin.decode_from_string encode_to_string
    biscuit_go.Prelude.sort biscuit_go.HashSet.to_slice new_origin biscuit_go.HashSet.insert_all
    new_hash_set biscuit_go.HashSet.insert biscuit_go.Prelude.format_uint
    biscuit_go.Prelude.parse_uint biscuit_go.Origin.is_super_set biscuit_go.HashSet.is_superset
    biscuit_go.HashSet.contains biscuit_go.Origin.new_trusted_origin_from_scopes
    biscuit_go.Prelude.little_endian biscuit_go.Origin.Block.compare_blocks
    biscuit_go.Fact.predicate_match
verify_all_sample = refl

verify-all_one_example :
    (w : SymbolTable) × (verify test_runtime fact_set [] 0 []
        (record { queries = right_query ∷ []; kind = check_one })
        []
      ≡ (ok true, w))
verify-all_one_example =
    verify-all_one test_runtime fact_set [] 0 [] right_query [] [] [] verify_all_sample

verify-reject_no_conditions_example :
    verify test_runtime fact_set [] 0 []
      (record { queries = right_query ∷ []; kind = check_reject })
      []
    ≡ (ok true, [])
verify-reject_no_conditions_example =
    verify-reject_no_conditions test_runtime fact_set [] 0 [] (right_query ∷ []) [] (refl, tt)

abbrev facts_of : Run FactSet × SymbolTable → FactSet
facts_of (ok facts, t) = facts
facts_of (err e, t) = []
facts_of (panic, t) = []

abbrev sample_facts_after : FactSet
sample_facts_after =
    facts_of (run_from test_runtime no_deadline default_run_limits sample_rules 3 fact_set [])

run_sample :
    run_from test_runtime no_deadline default_run_limits sample_rules 3 fact_set []
    ≡ (ok sample_facts_after, [])
unfolding run_from biscuit_go.Evaluator.apply matches combinations biscuit_go.Fact.entries
    biscuit_go.Fact.with_origin insert biscuit_go.Origin.decode_from_string encode_to_string
    biscuit_go.Prelude.sort biscuit_go.HashSet.to_slice new_origin biscuit_go.HashSet.insert_all
    new_hash_set biscuit_go.HashSet.insert biscuit_go.Prelude.format_uint
    biscuit_go.Prelude.parse_uint biscuit_go.Origin.is_super_set biscuit_go.HashSet.is_superset
    biscuit_go.HashSet.contains new_trusted_origin biscuit_go.Prelude.little_endian
    biscuit_go.Origin.Block.compare_blocks biscuit_go.Fact.predicate_match biscuit_go.Fact.count
    biscuit_go.Origin.insert_origin biscuit_go.HashSet.union biscuit_go.Fact.insert_multi
    biscuit_go.Prelude.bytes_eq biscuit_go.Fact.hashed_predicate biscuit_go.Term.hashed
    biscuit_go.Fact.equal_predicates biscuit_go.Prelude.compared_slices
    biscuit_go.Prelude.compare_lists biscuit_go.Term.compare_terms
run_sample = refl

run_from-IsSaturated_example :
    IsSaturated test_runtime no_deadline default_run_limits sample_rules sample_facts_after []
run_from-IsSaturated_example =
    run_from-IsSaturated test_runtime no_deadline default_run_limits sample_rules 3 fact_set []
      sample_facts_after [] run_sample
