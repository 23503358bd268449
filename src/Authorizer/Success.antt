-- ===== src/Authorizer/Success.antt =====
-- What a successful `Authorize` (authorizer.go) has gone through.
use biscuit_go.Prelude.{
  ℕ, zero, suc, ◌≡◌, refl, sym, ap, ◌∙◌, ◌↔◌, ◌==◌, Bool, false, List, if◌then◌else◌, ok, Error,
  arith,
}
use biscuit_go.Symbol.{SymbolTable}
use biscuit_go.PublicKey.{PublicKeyTable}
use biscuit_go.Origin.{SignatureRegistry}
use biscuit_go.Expression.Effect.{Runtime, M, fail, continue, ◌>>=◌}
use biscuit_go.Evaluator.{Check}
use biscuit_go.World.{World, Clock, run}
use biscuit_go.Authorizer.{
  Policy, BlockChecks, Authorizer, some_query_finds, count_failures, failed_authorizer_checks,
  failed_checks, failed_block_checks, decide, run_policies, authorize,
}
use biscuit_go.Authorizer.Decision.{
  Pass, pass_none, pass_next, continue_ok, count_failures-Pass, BlocksPass, blocks_none,
  blocks_next, failed_block_checks-Pass, Allowed, allowed_here, allowed_past, allowed_later,
  run_policies-Allowed,
}

Pass-count_failures :
    (test : Check → M Bool) (cs : List Check) (n : ℕ) (t u : SymbolTable)
    → Pass test cs t u
    → count_failures test cs n t ≡ (ok n, u)
unfolding count_failures
Pass-count_failures test _ n _ _ pass_none = refl
Pass-count_failures test _ n _ _ (pass_next {c = c} {cs = cs} {t = t} {v = v} {u = u} one rest) =
    ap (λ r. continue r (λ s. count_failures test cs (if s then n else suc n))) one
    ∙ Pass-count_failures test cs n v u rest

module _ (rt : Runtime) (expired : Clock) where
  module _ (w : World) (sr : SignatureRegistry) where
    BlocksPass-failed :
        (i : ℕ) (bs : List BlockChecks) (n : ℕ) (t u : SymbolTable)
        → BlocksPass rt expired w sr i bs t u
        → failed_block_checks rt expired w sr i bs n t ≡ (ok n, u)
    unfolding failed_block_checks failed_checks
    BlocksPass-failed _ _ n _ _ blocks_none = refl
    BlocksPass-failed _ _ n _ _
          (blocks_next {i = i} {b = b} {bs = bs} {t = t} {v = v} {u = u} first rest) =
        ap (λ r. continue r (failed_block_checks rt expired w sr (suc i) bs))
          (Pass-count_failures _ b.block_checks n t v first)
        ∙ BlocksPass-failed (suc i) bs n v u rest

    -- What is done with the result of a policy.
    abbrev follow : Policy → List Policy → Bool × PublicKeyTable → M (Unit {0})
    follow p ps s =
        if s.0
        then decide rt expired p.kind (run_policies rt expired w sr ps s.1)
        else run_policies rt expired w sr ps s.1

    Allowed-run_policies :
        (ps : List Policy) (keys : PublicKeyTable) (t u : SymbolTable)
        → Allowed rt expired w sr ps keys t u
        → run_policies rt expired w sr ps keys t ≡ (ok tt, u)
    unfolding run_policies
    Allowed-run_policies _ _ _ _
          (allowed_here {p = p} {ps = ps} {after = after} {u = u} matches allows) =
        ap (λ r. continue r (follow p ps)) matches
        ∙ ap (λ k. decide rt expired k (run_policies rt expired w sr ps after) u) allows
    Allowed-run_policies _ _ _ _
          (allowed_past {p = p} {ps = ps} {after = after} {v = v} {u = u} {k = k} matches undecided
            rest) =
        ap (λ r. continue r (follow p ps)) matches
        ∙ ap (λ k'. decide rt expired k' (run_policies rt expired w sr ps after) v) undecided
        ∙ Allowed-run_policies ps after v u rest
    Allowed-run_policies _ _ _ _
          (allowed_later {p = p} {ps = ps} {after = after} {v = v} {u = u} no_match rest) =
        ap (λ r. continue r (follow p ps)) no_match ∙ Allowed-run_policies ps after v u rest

  -- What an authorization that succeeds has gone through.
  pub record IsAuthorized (a : Authorizer) (t u : SymbolTable) : Type 0 where
    pub world_after : World
    pub table_1 : SymbolTable
    pub table_2 : SymbolTable
    pub table_3 : SymbolTable
    pub ran : run rt expired a.world t ≡ (ok world_after, table_1)
    pub authorizer_passes :
        Pass
          (λ c.
            some_query_finds rt expired world_after a.signature_registry a.authorizer_scopes
              c.queries)
          a.authorizer_checks
          table_1
          table_2
    pub blocks_pass :
        BlocksPass rt expired world_after a.signature_registry 0 a.biscuit_blocks table_2 table_3
    pub allowed :
        Allowed rt expired world_after a.signature_registry a.authorizer_policies a.public_keys
          table_3 u

  decide_step :
      (n : ℕ) (k : M (Unit {0})) (v u : SymbolTable)
      → (if n == 0 then k else fail Error.checks_failed) v ≡ (ok tt, u)
      → (n ≡ 0) × (k v ≡ (ok tt, u))
  decide_step zero k v u e = (refl, e)
  decide_step (suc n) k v u e =
      failed (sym (ap (λ b. (if b then k else fail Error.checks_failed) v) nonzero) ∙ e)
    where
      nonzero : (suc n == 0) ≡ false
      nonzero = ground arith

      failed :
          fail {A = Unit {0}} Error.checks_failed v ≡ (ok tt, u) → (suc n ≡ 0) × (k v ≡ (ok tt, u))
      failed h = ground arith

  authorize-IsAuthorized :
      (a : Authorizer) (t u : SymbolTable)
      → authorize rt expired a t ≡ (ok tt, u)
      → IsAuthorized a t u
  unfolding authorize failed_authorizer_checks
  authorize-IsAuthorized a t u e =
      let (w, t1, ran, e1) = continue_ok (run rt expired a.world t) _ tt u e in
      let (n, t2, first, e2) =
        continue_ok
          (failed_authorizer_checks rt expired w a.signature_registry a.authorizer_scopes
            a.authorizer_checks 0 t1)
          _ tt u e1 in
      let (m, t3, second, e3) =
        continue_ok (failed_block_checks rt expired w a.signature_registry 0 a.biscuit_blocks n t2)
          _ tt u e2 in
      let (none_failed, e4) = decide_step m _ t3 u e3 in
      let (none_before, blocks) =
        failed_block_checks-Pass rt expired w a.signature_registry 0 a.biscuit_blocks n t2 t3
          (second ∙ ap (λ k. (ok k, t3)) none_failed) in
      record {
        world_after = w;
        table_1 = t1;
        table_2 = t2;
        table_3 = t3;
        ran = ran;
        authorizer_passes =
            (count_failures-Pass _ a.authorizer_checks 0 t1 t2
              (first ∙ ap (λ k. (ok k, t2)) none_before)).1;
        blocks_pass = blocks;
        allowed =
            run_policies-Allowed rt expired w a.signature_registry a.authorizer_policies
              a.public_keys t3 u e4;
      }

  IsAuthorized-authorize :
      (a : Authorizer) (t u : SymbolTable)
      → IsAuthorized a t u
      → authorize rt expired a t ≡ (ok tt, u)
  unfolding authorize failed_authorizer_checks
  IsAuthorized-authorize a t u s =
      ap (λ r. continue r with_world) s.ran
      ∙ ap (λ r. continue r (with_failures s.world_after))
          (Pass-count_failures _ a.authorizer_checks 0 s.table_1 s.table_2 s.authorizer_passes)
      ∙ ap (λ r. continue r (with_all s.world_after))
          (BlocksPass-failed s.world_after a.signature_registry 0 a.biscuit_blocks 0 s.table_2
            s.table_3 s.blocks_pass)
      ∙ Allowed-run_policies s.world_after a.signature_registry a.authorizer_policies a.public_keys
          s.table_3 u s.allowed
    where
      with_all : World → ℕ → M (Unit {0})
      with_all w all =
          if all == 0
          then run_policies rt expired w a.signature_registry a.authorizer_policies a.public_keys
          else fail Error.checks_failed

      with_failures : World → ℕ → M (Unit {0})
      with_failures w failures =
          failed_block_checks rt expired w a.signature_registry 0 a.biscuit_blocks failures
          >>= with_all w

      with_world : World → M (Unit {0})
      with_world w =
          failed_authorizer_checks rt expired w a.signature_registry a.authorizer_scopes
            a.authorizer_checks 0
          >>= with_failures w

  -- `Authorize` succeeds exactly when the world runs to its end, every check of the authorizer
  -- finds facts for one of its queries, every check of the blocks is verified with the number and
  -- the scopes of its block, and the first policy that matches and is one of the two kinds, to
  -- allow or to deny, is one that allows.
  pub authorize_iff :
      (a : Authorizer) (t u : SymbolTable)
      → (authorize rt expired a t ≡ (ok tt, u)) ↔ IsAuthorized a t u
  authorize_iff a t u = (authorize-IsAuthorized a t u, IsAuthorized-authorize a t u)
