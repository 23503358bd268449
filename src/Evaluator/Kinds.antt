-- ===== src/Evaluator/Kinds.antt =====
-- The three kinds of checks (datalog/evaluator.go and `Check.Verify` of datalog/datalog.go).
use biscuit_go.Prelude.{
  ℕ, ◌≡◌, refl, ap, ◌∙◌, Bool, true, false, List, [], ◌∷◌, if◌then◌else◌, Slice, elements, Run, ok,
  err, panic, All, ◌≢◌, arith,
}
use biscuit_go.Symbol.{SymbolTable}
use biscuit_go.Origin.{Scope, SignatureRegistry}
use biscuit_go.Fact.{FactSet}
use biscuit_go.Expression.{Op}
use biscuit_go.Expression.Effect.{Runtime, M, return, continue}
use biscuit_go.Evaluator.{
  Rule, check_one, check_all, check_reject, Match, all_true, none_true, verify_any_matches,
  verify_all_from, verify_all_matches, verify_no_matches, query_holds, matches_of, query_facts,
  verify_queries, verify,
}

after_failed :
    (r : Run Bool × SymbolTable) (k : M Bool) (u : SymbolTable)
    → ((v : SymbolTable) → k v ≢ (ok true, u))
    → continue r (λ s. if s then k else k) ≢ (ok true, u)
after_failed (ok true, v) k u h e = h v e
after_failed (ok false, v) k u h e = h v e
after_failed (err x, v) k u h e = ground arith
after_failed (panic, v) k u h e = ground arith

one_of :
    (all any : Run Bool × SymbolTable) (k f n : M Bool) (u : SymbolTable)
    → ((v : SymbolTable) → all ≡ (ok true, v) → (w : SymbolTable) × (any ≡ (ok true, w)))
    → ((v : SymbolTable) → f v ≢ (ok true, u))
    → continue all (λ s. if s then k else f) ≡ (ok true, u)
    → (w : SymbolTable) × (continue any (λ s. if s then return true else n) ≡ (ok true, w))
one_of (ok true, v) any k f n u h failed e =
    let (w, eq) = h v refl in (w, ap (λ r. continue r (λ s. if s then return true else n)) eq)
one_of (ok false, v) any k f n u h failed e = absurd (failed v e)
one_of (err x, v) any k f n u h failed e = ground arith
one_of (panic, v) any k f n u h failed e = ground arith

module _ (rt : Runtime) where
  -- If every match is found true, the first one is: the other matches are not looked at.
  all-any :
      (es : List (Slice Op)) (ms : List Match) (t u : SymbolTable)
      → verify_all_matches rt es ms t ≡ (ok true, u)
      → (w : SymbolTable) × (verify_any_matches rt es ms t ≡ (ok true, w))
  unfolding verify_all_matches verify_all_from verify_any_matches
  all-any es [] t u h = ground arith
  all-any es ((o, m) ∷ ms) t u h = first_of (all_true rt m es t) _ _ h
    where
      first_of :
          (r : Run Bool × SymbolTable) (k n : M Bool)
          → continue r (λ s. if s then k else return false) ≡ (ok true, u)
          → (w : SymbolTable) × (continue r (λ s. if s then return true else n) ≡ (ok true, w))
      first_of (ok true, v) k n e = (v, refl)
      first_of (ok false, v) k n e = ground arith
      first_of (err x, v) k n e = ground arith
      first_of (panic, v) k n e = ground arith

  verify_no_matches-no_conditions :
      (ms : List Match) (t : SymbolTable) → verify_no_matches rt [] ms t ≡ (ok true, t)
  unfolding verify_no_matches none_true
  verify_no_matches-no_conditions [] t = refl
  verify_no_matches-no_conditions ((o, m) ∷ ms) t = verify_no_matches-no_conditions ms t

  module _ (facts : FactSet) (block_scopes : List Scope) (block_id : ℕ)
      (sr : SignatureRegistry) where
    abbrev query_matches : Rule → List Match
    query_matches q = matches_of rt q (query_facts rt facts block_scopes block_id sr q)

    -- A query that fails is not made good by those after it.
    failed-all :
        (qs : List Rule) (t u : SymbolTable)
        → verify_queries rt facts block_scopes block_id sr check_all false qs t ≢ (ok true, u)
    unfolding verify_queries
    failed-all [] t u h = ground arith
    failed-all (q ∷ qs) t u h =
        after_failed
          (query_holds rt check_all (elements q.expressions)
            (matches_of rt q (query_facts rt facts block_scopes block_id sr q)) t)
          _ u (λ v. failed-all qs v u) h

    -- A `check all` that has a query and passes would pass as a `check if` of the same queries.
    pub verify-all_one :
        (q : Rule) (qs : List Rule) (t u : SymbolTable)
        → verify rt facts block_scopes block_id sr (record { queries = q ∷ qs; kind = check_all }) t
          ≡ (ok true, u)
        → (w : SymbolTable) × (verify rt facts block_scopes block_id sr
              (record { queries = q ∷ qs; kind = check_one })
              t
            ≡ (ok true, w))
    unfolding verify verify_queries query_holds
    verify-all_one q qs t u h =
        one_of (verify_all_matches rt (elements q.expressions) (query_matches q) t)
          (verify_any_matches rt (elements q.expressions) (query_matches q) t) _ _ _ u
          (λ v. all-any (elements q.expressions) (query_matches q) t v) (λ v. failed-all qs v u) h

    -- A `reject if` whose queries have no expressions never rejects, whatever the facts are.
    pub verify-reject_no_conditions :
        (qs : List Rule) (t : SymbolTable)
        → All (λ q. elements q.expressions ≡ []) qs
        → verify rt facts block_scopes block_id sr (record { queries = qs; kind = check_reject }) t
          ≡ (ok true, t)
    unfolding verify verify_queries query_holds
    verify-reject_no_conditions [] t h = refl
    verify-reject_no_conditions (q ∷ qs) t h =
        ap (λ r. continue r (λ s. if s then later_queries else failing)) no_conditions
        ∙ verify-reject_no_conditions qs t h.1
      where
        later_queries : M Bool
        later_queries = verify_queries rt facts block_scopes block_id sr check_reject true qs

        failing : M Bool
        failing = verify_queries rt facts block_scopes block_id sr check_reject false qs

        no_conditions :
            verify_no_matches rt (elements q.expressions) (query_matches q) t ≡ (ok true, t)
        no_conditions =
            ap (λ es. verify_no_matches rt es (query_matches q) t) h.0
            ∙ verify_no_matches-no_conditions (query_matches q) t
