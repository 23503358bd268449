-- ===== src/Evaluator.antt =====
-- datalog/evaluator.go, `evaluator`, and the `Apply` of a rule and the `Verify` of a check in
-- datalog/datalog.go, which use it.
pub mod Kinds
pub mod Compare
use biscuit_go.Prelude.{
  ℕ, Bytes, Bool, true, false, Option, none, some, List, [], ◌∷◌, if◌then◌else◌, length, Slice,
  elements, Run, ok, err, panic, Error,
}
use biscuit_go.Term.{Term, variable, bool, equal}
use biscuit_go.Origin.{
  Origin, Scope, SignatureRegistry, new_origin, insert_origin, new_trusted_origin_from_scopes,
}
use biscuit_go.Fact.{Predicate, Fact, FactSet, insert, with_origin}
use biscuit_go.Expression.{Op}
use biscuit_go.Expression.Effect.{Runtime, M, return, fail, lift, ◌>>=◌}
use biscuit_go.Expression.Machine.{Values, lookup_value, evaluate}
use biscuit_go.Matching.{matches, facts_with_origins}

pub record Rule : Type 0 where
  pub head : Predicate
  pub body : Slice Predicate
  pub expressions : Slice (Slice Op)
  pub scopes : Slice Scope

pub data CheckKind : Type 0 where
  check_one check_all check_reject : CheckKind

pub record Check : Type 0 where
  pub queries : List Rule
  pub kind : CheckKind

abbrev pub Match : Type 0
Match = Option Origin × Values

-- The terms of the head with the terms of the match for its variables.
unfoldable pub instantiate_terms : Values → List Term → Run (List Term)
unfolding lookup_value
instantiate_terms m [] = ok []
instantiate_terms m (variable v ∷ ts) = elim (lookup_value v m) [
  | none ↦ err (Error.invalid_rule v)
  | some none ↦ panic
  | some (some t) ↦ elim (instantiate_terms m ts) [
    | ok us ↦ ok (t ∷ us)
    | err e ↦ err e
    | panic ↦ panic
  ]
]
instantiate_terms m (t ∷ ts) = elim (instantiate_terms m ts) [
  | ok us ↦ ok (t ∷ us)
  | err e ↦ err e
  | panic ↦ panic
]

unfoldable pub instantiate : Values → Predicate → Run Fact
unfolding instantiate_terms
instantiate m p = elim (instantiate_terms m (elements p.terms)) [
  | ok ts ↦ ok (record { name = p.name; terms = some ts })
  | err e ↦ err e
  | panic ↦ panic
]

unfoldable pub joined : (Bytes → ℕ) → Option Origin → Origin → Origin
joined digest none base = base
joined digest (some o) base = insert_origin digest o base

module _ (rt : Runtime) where
  -- The loop over the expressions, which stops at the first that is not true.
  unfoldable pub all_true : Values → List (Slice Op) → M Bool
  all_true m [] = return true
  all_true m (e ∷ es) =
      let rest = all_true m es in
      do r ← evaluate rt m (elements e); if equal r (bool true) then rest else return false

  -- The loop of `verifyNoMatches` over the expressions, which stops at the first that is true.
  unfoldable pub none_true : Values → List (Slice Op) → M Bool
  none_true m [] = return true
  none_true m (e ∷ es) =
      let rest = none_true m es in
      do r ← evaluate rt m (elements e); if equal r (bool true) then return false else rest

  unfoldable pub verify_any_matches : List (Slice Op) → List Match → M Bool
  unfolding all_true
  verify_any_matches es [] = return false
  verify_any_matches es ((o, m) ∷ ms) =
      let rest = verify_any_matches es ms in
      do success ← all_true m es; if success then return true else rest

  -- The loop of `verifyAllMatches`, with the matches found so far.
  unfoldable pub verify_all_from : List (Slice Op) → Bool → List Match → M Bool
  unfolding all_true
  verify_all_from es found [] = return found
  verify_all_from es found ((o, m) ∷ ms) =
      let rest = verify_all_from es true ms in
      do success ← all_true m es; if success then rest else return false

  unfoldable pub verify_all_matches : List (Slice Op) → List Match → M Bool
  unfolding verify_all_from
  verify_all_matches es ms = verify_all_from es false ms

  unfoldable pub verify_no_matches : List (Slice Op) → List Match → M Bool
  unfolding none_true
  verify_no_matches es [] = return true
  verify_no_matches es ((o, m) ∷ ms) =
      let rest = verify_no_matches es ms in
      do untrue ← none_true m es; if untrue then rest else return false

  unfoldable pub add_instance : Rule → Origin → Option Origin → Values → FactSet → M FactSet
  unfolding instantiate joined
  add_instance r base o m result = do
    f ← lift (instantiate m r.head)
    return (insert rt.digest (joined rt.digest o base) f result)

  -- `getNewFacts`, with the loop of `getValidMatches`, from the facts so far.
  unfoldable pub new_facts : Rule → Origin → List Match → FactSet → M FactSet
  unfolding all_true add_instance
  new_facts r base [] result = return result
  new_facts r base ((o, m) ∷ ms) result =
      let skip = new_facts r base ms result in
      do
        valid ← all_true m (elements r.expressions)
        if valid then add_instance r base o m result >>= new_facts r base ms else skip

  unfoldable pub matches_of : Rule → FactSet → List Match
  unfolding facts_with_origins
  matches_of r facts = matches (facts_with_origins rt.digest facts) rt.digest (elements r.body)

  -- `Rule.Apply`.
  unfoldable pub apply : Rule → ℕ → FactSet → M FactSet
  unfolding new_facts matches_of
  apply r block_id facts = new_facts r (new_origin rt.digest block_id []) (matches_of r facts) []

  -- What a query of a check comes to, by the kind of the check.
  unfoldable pub query_holds : CheckKind → List (Slice Op) → List Match → M Bool
  unfolding verify_any_matches verify_all_matches verify_no_matches
  query_holds check_one es ms = verify_any_matches es ms
  query_holds check_all es ms = verify_all_matches es ms
  query_holds check_reject es ms = verify_no_matches es ms

  module _ (facts : FactSet) (block_scopes : List Scope) (block_id : ℕ)
      (sr : SignatureRegistry) where
    -- The facts that a query is asked of.
    unfoldable pub query_facts : Rule → FactSet
    query_facts q =
        with_origin rt.digest
          (new_trusted_origin_from_scopes rt.digest block_scopes (elements q.scopes) block_id sr)
          facts

    -- The loop over the queries. The `break` of the source leaves the `switch`, not the loop.
    unfoldable pub verify_queries : CheckKind → Bool → List Rule → M Bool
    unfolding query_holds query_facts
    verify_queries kind passing [] = return passing
    verify_queries check_one passing (q ∷ qs) =
        let rest = verify_queries check_one passing qs in
        do
          success ← query_holds check_one (elements q.expressions) (matches_of q (query_facts q))
          if success then return true else rest
    verify_queries kind passing (q ∷ qs) =
        let rest = verify_queries kind passing qs in
        let failing = verify_queries kind false qs in
        do
          success ← query_holds kind (elements q.expressions) (matches_of q (query_facts q))
          if success then rest else failing

    -- `Check.Verify`.
    unfoldable pub verify : Check → M Bool
    unfolding verify_queries
    verify c = verify_queries c.kind (elim (c.kind) [ check_one ↦ false | _ ↦ true ]) c.queries
