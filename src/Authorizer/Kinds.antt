-- ===== src/Authorizer/Kinds.antt =====
-- The kinds of the authorizer's own checks in `Authorize` (authorizer.go).
use biscuit_go.Prelude.{
  ℕ, suc, ◌≡◌, refl, ap, ◌∙◌, Bool, List, [], ◌∷◌, map, if◌then◌else◌, Run, ok, err, panic, Error,
  ◌==◌,
}
use biscuit_go.Symbol.{SymbolTable}
use biscuit_go.Expression.Effect.{Runtime, M, continue, fail, ◌>>=◌}
use biscuit_go.Evaluator.{Check, CheckKind}
use biscuit_go.World.{Clock, run}
use biscuit_go.Authorizer.{
  Authorizer, count_failures, failed_authorizer_checks, failed_block_checks, run_policies,
  authorize,
}

abbrev pub with_kind : CheckKind → Check → Check
with_kind k c = record { queries = c.queries; kind = k }

-- The authorizer with all its own checks of one kind.
abbrev pub with_kinds : CheckKind → Authorizer → Authorizer
with_kinds k a = record {
  world = a.world;
  public_keys = a.public_keys;
  signature_registry = a.signature_registry;
  authorizer_scopes = a.authorizer_scopes;
  authorizer_checks = map (with_kind k) a.authorizer_checks;
  authorizer_policies = a.authorizer_policies;
  biscuit_blocks = a.biscuit_blocks;
}

continue_congr {ℓ κ} :
    {A : Type ℓ} {B : Type κ} (r : Run A × SymbolTable) (f g : A → M B)
    → ((a : A) (t : SymbolTable) → f a t ≡ g a t)
    → continue r f ≡ continue r g
continue_congr (ok a, t) f g h = h a t
continue_congr (err e, t) f g h = refl
continue_congr (panic, t) f g h = refl

count_failures-map :
    (f : Check → Check) (test : Check → M Bool)
    → ((c : Check) (t : SymbolTable) → test (f c) t ≡ test c t)
    → (cs : List Check) (n : ℕ) (t : SymbolTable)
    → count_failures test (map f cs) n t ≡ count_failures test cs n t
unfolding count_failures
count_failures-map f test h [] n t = refl
count_failures-map f test h (c ∷ cs) n t =
    ap (λ r. continue r (λ s. count_failures test (map f cs) (if s then n else suc n))) (h c t)
    ∙ continue_congr (test c t) _ _
        (λ s u. count_failures-map f test h cs (if s then n else suc n) u)

-- What `Authorize` gives, and the symbol table it leaves, is the same whatever the kinds of the
-- authorizer's own checks are: `check all` and `reject if` are treated as `check if`.
pub authorize-with_kinds :
    (rt : Runtime) (expired : Clock) (k : CheckKind) (a : Authorizer) (t : SymbolTable)
    → authorize rt expired (with_kinds k a) t ≡ authorize rt expired a t
unfolding authorize failed_authorizer_checks
authorize-with_kinds rt expired k a t = continue_congr (run rt expired a.world t) _ _ (λ w u.
    ap
      (λ r. continue r (λ failures.
        failed_block_checks rt expired w a.signature_registry 0 a.biscuit_blocks failures >>= λ all.
        if all == 0
        then run_policies rt expired w a.signature_registry a.authorizer_policies a.public_keys
        else fail Error.checks_failed))
      (count_failures-map (with_kind k) _ (λ c v. refl) a.authorizer_checks 0 u))
