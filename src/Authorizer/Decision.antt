-- ===== src/Authorizer/Decision.antt =====
-- The checks and the policies of `Authorize` (authorizer.go), as relations.
use mathlib.Core.Path.{subst}
use biscuit_go.Prelude.{
  ℕ, suc, ◌≡◌, refl, ap, ◌∙◌, ◌⊎◌, inl, inr, ◌≢◌, Bool, true, false, List, [], ◌∷◌, if◌then◌else◌,
  Run, ok, err, panic, Error, sym, arith,
}
use biscuit_go.Symbol.{SymbolTable}
use biscuit_go.PublicKey.{PublicKeyTable}
use biscuit_go.Origin.{SignatureRegistry}
use biscuit_go.Expression.Effect.{Runtime, M, fail, continue}
use biscuit_go.Evaluator.{Check, verify}
use biscuit_go.World.{World, Clock}
use biscuit_go.Authorizer.{
  PolicyKind, allow, deny, other, Policy, BlockChecks, count_failures, failed_checks,
  failed_block_checks, policy_matches, decide, run_policies,
}

-- The checks pass, one after the other, from the first symbol table to the second.
pub data Pass (test : Check → M Bool) : List Check → SymbolTable → SymbolTable → Type 0 where
  pass_none : {t : SymbolTable} → Pass test [] t t
  pass_next :
      {c : Check} {cs : List Check} {t v u : SymbolTable}
      → test c t ≡ (ok true, v)
      → Pass test cs v u
      → Pass test (c ∷ cs) t u

pub continue_ok {ℓ κ} :
    {A : Type ℓ} {B : Type κ} (r : Run A × SymbolTable) (k : A → M B) (b : B) (u : SymbolTable)
    → continue r k ≡ (ok b, u)
    → (a : A) × (v : SymbolTable) × (r ≡ (ok a, v)) × (k a v ≡ (ok b, u))
continue_ok (ok a, v) k b u e = (a, v, refl, e)
continue_ok (err x, v) k b u e = ground arith
continue_ok (panic, v) k b u e = ground arith

-- A failure that is counted stays counted.
stay_step :
    (r : Run Bool × SymbolTable) (k : ℕ → M ℕ) (n : ℕ) (u : SymbolTable)
    → ((m : ℕ) (v : SymbolTable) → k (suc m) v ≢ (ok 0, u))
    → continue r (λ s. k (if s then suc n else suc (suc n))) ≢ (ok 0, u)
stay_step (ok true, v) k n u h e = h n v e
stay_step (ok false, v) k n u h e = h (suc n) v e
stay_step (err x, v) k n u h e = ground arith
stay_step (panic, v) k n u h e = ground arith

-- A step to no failures: the check passed, and there had been none.
pass_step :
    (r : Run Bool × SymbolTable) (k : ℕ → M ℕ) (n : ℕ) (u : SymbolTable)
    → ((m : ℕ) (v : SymbolTable) → k (suc m) v ≢ (ok 0, u))
    → continue r (λ s. k (if s then n else suc n)) ≡ (ok 0, u)
    → (v : SymbolTable) × (r ≡ (ok true, v)) × (k n v ≡ (ok 0, u))
pass_step (ok true, v) k n u h e = (v, refl, e)
pass_step (ok false, v) k n u h e = absurd (h n v e)
pass_step (err x, v) k n u h e = ground arith
pass_step (panic, v) k n u h e = ground arith

module _ (test : Check → M Bool) where
  failures-stay :
      (cs : List Check) (n : ℕ) (t u : SymbolTable) → count_failures test cs (suc n) t ≢ (ok 0, u)
  unfolding count_failures
  failures-stay [] n t u e = ground arith
  failures-stay (c ∷ cs) n t u e =
      stay_step (test c t) (count_failures test cs) n u (λ m v. failures-stay cs m v u) e

  pub count_failures-Pass :
      (cs : List Check) (n : ℕ) (t u : SymbolTable)
      → count_failures test cs n t ≡ (ok 0, u)
      → (n ≡ 0) × Pass test cs t u
  unfolding count_failures
  count_failures-Pass [] n t u e = (ground arith, subst (Pass test [] t) (ground arith) pass_none)
  count_failures-Pass (c ∷ cs) n t u e =
      let (v, passed, rest) =
        pass_step (test c t) (count_failures test cs) n u (λ m v. failures-stay cs m v u) e in
      let (none_before, others) = count_failures-Pass cs n v u rest in
      (none_before, pass_next passed others)

kind_cases : (k : PolicyKind) → (k ≡ allow) ⊎ ((k ≡ deny) ⊎ ((n : ℕ) × (k ≡ other n)))
kind_cases allow = inl refl
kind_cases deny = inr (inl refl)
kind_cases (other n) = inr (inr (n, refl))

module _ (rt : Runtime) (expired : Clock) (w : World) (sr : SignatureRegistry) where
  -- The checks of the blocks pass, block by block, each with the number and the scopes of its block.
  pub data BlocksPass : ℕ → List BlockChecks → SymbolTable → SymbolTable → Type 0 where
    blocks_none : {i : ℕ} {t : SymbolTable} → BlocksPass i [] t t
    blocks_next :
        {i : ℕ} {b : BlockChecks} {bs : List BlockChecks} {t v u : SymbolTable}
        → Pass (verify rt w.facts b.block_scopes i sr) b.block_checks t v
        → BlocksPass (suc i) bs v u
        → BlocksPass i (b ∷ bs) t u

  pub failed_block_checks-Pass :
      (i : ℕ) (bs : List BlockChecks) (n : ℕ) (t u : SymbolTable)
      → failed_block_checks rt expired w sr i bs n t ≡ (ok 0, u)
      → (n ≡ 0) × BlocksPass i bs t u
  unfolding failed_block_checks failed_checks
  failed_block_checks-Pass i [] n t u e =
      (ground arith, subst (BlocksPass i [] t) (ground arith) blocks_none)
  failed_block_checks-Pass i (b ∷ bs) n t u e =
      let (m, v, first, later) =
        continue_ok (failed_checks rt expired w sr b.block_scopes i b.block_checks n t)
          (failed_block_checks rt expired w sr (suc i) bs) 0 u e in
      let (no_more, rest) = failed_block_checks-Pass (suc i) bs m v u later in
      let (none_before, passed) =
        count_failures-Pass (verify rt w.facts b.block_scopes i sr) b.block_checks n t v
          (first ∙ ap (λ k. (ok k, v)) no_more) in
      (none_before, blocks_next passed rest)

  -- The policies before the one that decides do not match, or have neither of the two kinds, and that
  -- one matches and allows.
  pub data Allowed : List Policy → PublicKeyTable → SymbolTable → SymbolTable → Type 0 where
    allowed_here :
        {p : Policy} {ps : List Policy} {keys after : PublicKeyTable} {t u : SymbolTable}
        → policy_matches rt expired w sr p.queries keys t ≡ (ok (true, after), u)
        → p.kind ≡ allow
        → Allowed (p ∷ ps) keys t u
    allowed_past :
        {p : Policy} {ps : List Policy} {keys after : PublicKeyTable} {t v u : SymbolTable} {k : ℕ}
        → policy_matches rt expired w sr p.queries keys t ≡ (ok (true, after), v)
        → p.kind ≡ other k
        → Allowed ps after v u
        → Allowed (p ∷ ps) keys t u
    allowed_later :
        {p : Policy} {ps : List Policy} {keys after : PublicKeyTable} {t v u : SymbolTable}
        → policy_matches rt expired w sr p.queries keys t ≡ (ok (false, after), v)
        → Allowed ps after v u
        → Allowed (p ∷ ps) keys t u

  policy_step :
      (r : Run (Bool × PublicKeyTable) × SymbolTable) (p : Policy) (ps : List Policy)
      (keys : PublicKeyTable) (t : SymbolTable) (next : PublicKeyTable → M (Unit {0}))
      (u : SymbolTable)
      → policy_matches rt expired w sr p.queries keys t ≡ r
      → ((after : PublicKeyTable) (v : SymbolTable)
          → next after v ≡ (ok tt, u)
          → Allowed ps after v u)
      → continue r (λ s. if s.0 then decide rt expired p.kind (next s.1) else next s.1) ≡ (ok tt, u)
      → Allowed (p ∷ ps) keys t u
  policy_step (ok (true, after), v) p ps keys t next u m h e = elim (kind_cases p.kind) [
    | inl allows ↦
        allowed_here (m ∙ ap (λ x. (ok (true, after), x)) (ap (λ x. x.1) (decided allows ∙ e)))
          allows
    | inr (inl denies) ↦
        absurd (refused (sym (ap (λ k. decide rt expired k (next after) v) denies) ∙ e))
    | inr (inr (k, undecided)) ↦
        allowed_past m undecided
          (h after v (sym (ap (λ x. decide rt expired x (next after) v) undecided) ∙ e))
  ]
    where
      decided : p.kind ≡ allow → (ok tt, v) ≡ decide rt expired p.kind (next after) v
      decided allows = sym (ap (λ k. decide rt expired k (next after) v) allows)

      refused : fail {A = Unit {0}} Error.policy_denied v ≢ (ok tt, u)
      refused x = ground arith
  policy_step (ok (false, after), v) p ps keys t next u m h e = allowed_later m (h after v e)
  policy_step (err x, v) p ps keys t next u m h e = ground arith
  policy_step (panic, v) p ps keys t next u m h e = ground arith

  pub run_policies-Allowed :
      (ps : List Policy) (keys : PublicKeyTable) (t u : SymbolTable)
      → run_policies rt expired w sr ps keys t ≡ (ok tt, u)
      → Allowed ps keys t u
  unfolding run_policies
  run_policies-Allowed [] keys t u e = ground arith
  run_policies-Allowed (p ∷ ps) keys t u e =
      policy_step (policy_matches rt expired w sr p.queries keys t) p ps keys t
        (run_policies rt expired w sr ps) u refl (λ after v. run_policies-Allowed ps after v u) e
