-- ===== src/Authorizer.antt =====
-- authorizer.go, `authorizer.Authorize`: the run of the world, the checks of the authorizer
-- and of the blocks, and the policies.
pub mod Decision
pub mod Success
pub mod Kinds
pub mod Builder
pub mod Build
pub mod Translated
pub mod Loaded
pub mod Policies
pub mod Loading
pub mod Forgotten
pub mod Query
use biscuit_go.Prelude.{
  ℕ, suc, ◌+◌, ◌==◌, Bytes, Bool, true, false, not, ◌||◌, Option, none, some, List, [], ◌∷◌,
  if◌then◌else◌, length, elements, Run, ok, err, panic, Error,
}
use biscuit_go.Origin.{Scope, SignatureRegistry, new_trusted_origin_from_scopes}
use biscuit_go.Origin.Block.{authorizer_block_id}
use biscuit_go.Fact.{FactSet}
use biscuit_go.Expression.Effect.{Runtime, M, return, fail, ◌>>=◌}
use biscuit_go.Evaluator.{Rule, Check, verify}
use biscuit_go.Symbol.{SymbolTable}
use biscuit_go.PublicKey.{PublicKeyTable}
use biscuit_go.Surface.{Rule as SurfaceRule}
use biscuit_go.Surface.Convert.{convert_rule}
use biscuit_go.World.{World, Clock, run, query_rule}

-- A kind is a byte, with names for two of them: `other k` is the kind `k + 2`.
pub data PolicyKind : Type 0 where
  allow deny : PolicyKind
  other : ℕ → PolicyKind

-- A policy of the interface.
pub record Policy : Type 0 where
  pub queries : List SurfaceRule
  pub kind : PolicyKind

-- The scopes of a block and its checks.
pub record BlockChecks : Type 0 where
  pub block_scopes : List Scope
  pub block_checks : List Check

pub record Authorizer : Type 0 where
  pub world : World
  pub public_keys : PublicKeyTable
  pub signature_registry : SignatureRegistry
  pub authorizer_scopes : List Scope
  pub authorizer_checks : List Check
  pub authorizer_policies : List Policy
  pub biscuit_blocks : List BlockChecks

abbrev pub is_empty : FactSet → Bool
is_empty [] = true
is_empty (f ∷ fs) = false

-- The loops over checks, which add an error for each that fails: how many do, with those so far.
unfoldable pub count_failures : (Check → M Bool) → List Check → ℕ → M ℕ
count_failures test [] failures = return failures
count_failures test (c ∷ cs) failures =
    test c >>= λ successful. count_failures test cs (if successful then failures else suc failures)

abbrev pub converted :
    Run (Rule × (SymbolTable × PublicKeyTable))
    → SymbolTable
    → Run (Rule × PublicKeyTable) × SymbolTable
converted (ok (q, (t1, keys))) t = (ok (q, keys), t1)
converted (err e) t = (err e, t)
converted panic t = (panic, t)

module _ (rt : Runtime) (expired : Clock) where
  -- `query.Convert(v.symbols, v.publicKeys)`, which may extend both tables.
  unfoldable pub convert_query : SurfaceRule → PublicKeyTable → M (Rule × PublicKeyTable)
  unfolding convert_rule
  convert_query q keys t = converted (convert_rule rt.digest q (t, keys)) t

  -- Whether a query of the authorizer finds facts.
  unfoldable pub query_finds : World → SignatureRegistry → List Scope → Rule → M Bool
  query_finds w sr scopes q = do
    found ←
        query_rule rt w q (
          new_trusted_origin_from_scopes rt.digest scopes (elements q.scopes) authorizer_block_id
            sr)
    return (not (is_empty found))

  -- The loop over the queries of a check of the authorizer.
  unfoldable pub some_query_finds : World → SignatureRegistry → List Scope → List Rule → M Bool
  unfolding query_finds
  some_query_finds w sr scopes [] = return false
  some_query_finds w sr scopes (q ∷ qs) =
      let rest = some_query_finds w sr scopes qs in
      do found ← query_finds w sr scopes q; if found then return true else rest

  unfoldable pub failed_authorizer_checks :
      World → SignatureRegistry → List Scope → List Check → ℕ → M ℕ
  unfolding some_query_finds count_failures
  failed_authorizer_checks w sr scopes cs failures =
      count_failures (λ c. some_query_finds w sr scopes c.queries) cs failures

  unfoldable pub failed_checks : World → SignatureRegistry → List Scope → ℕ → List Check → ℕ → M ℕ
  unfolding count_failures
  failed_checks w sr scopes block_id cs failures =
      count_failures (verify rt w.facts scopes block_id sr) cs failures

  -- The checks of the blocks, the first with the number given.
  unfoldable pub failed_block_checks : World → SignatureRegistry → ℕ → List BlockChecks → ℕ → M ℕ
  unfolding failed_checks
  failed_block_checks w sr block_id [] failures = return failures
  failed_block_checks w sr block_id (b ∷ bs) failures =
      failed_checks w sr b.block_scopes block_id b.block_checks failures
      >>= failed_block_checks w sr (suc block_id) bs

  -- The loop over the queries of a policy, each converted when it is asked.
  unfoldable pub policy_matches :
      World → SignatureRegistry → List SurfaceRule → PublicKeyTable → M (Bool × PublicKeyTable)
  unfolding convert_query query_finds
  policy_matches w sr [] keys = return (false, keys)
  policy_matches w sr (q ∷ qs) keys =
      let rest = policy_matches w sr qs in
      do
        (rule, keys1) ← convert_query q keys
        found ← query_finds w sr [] rule
        if found then return (true, keys1) else rest keys1

  -- What a policy that matches does: those of another kind leave it to the policies after it.
  abbrev pub decide : PolicyKind → M (Unit {0}) → M (Unit {0})
  decide allow rest = return tt
  decide deny rest = fail Error.policy_denied
  decide (other k) rest = rest

  -- The first policy that matches and allows or denies decides.
  unfoldable pub run_policies :
      World → SignatureRegistry → List Policy → PublicKeyTable → M (Unit {0})
  unfolding policy_matches
  run_policies w sr [] keys = fail Error.no_matching_policy
  run_policies w sr (p ∷ ps) keys =
      let rest = run_policies w sr ps in
      do
        (matched, keys1) ← policy_matches w sr p.queries keys
        if matched then decide p.kind (rest keys1) else rest keys1

  -- `Authorize`, with the world afterwards kept from the caller.
  unfoldable pub authorize : Authorizer → M (Unit {0})
  unfolding failed_authorizer_checks failed_block_checks run_policies
  authorize a = do
    w ← run rt expired a.world
    failures ←
        failed_authorizer_checks w a.signature_registry a.authorizer_scopes a.authorizer_checks 0
    all ← failed_block_checks w a.signature_registry 0 a.biscuit_blocks failures
    if all == 0
        then run_policies w a.signature_registry a.authorizer_policies a.public_keys
        else fail Error.checks_failed
