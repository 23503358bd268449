-- ===== src/World/Saturation.antt =====
-- The end of a run of the world (datalog/datalog.go, `World.Run`).
use mathlib.Core.Path.{subst}
use biscuit_go.Prelude.{
  ℕ, zero, suc, ◌<◌, ◌==◌, ◌≡◌, refl, ap, ◌∙◌, ◌⊎◌, inl, inr, Bool, true, false, List, [], ◌∷◌,
  if◌then◌else◌, length, leb, Run, ok, err, panic, Error, arith,
}
use biscuit_go.Symbol.{SymbolTable}
use biscuit_go.Origin.{Origin}
use biscuit_go.Fact.{FactSet, count, with_origin}
use biscuit_go.Evaluator.{apply}
use biscuit_go.World.Growth.{AddsNone, merge-Grows}
use biscuit_go.Expression.Effect.{Runtime, M, fail, return, continue, ◌>>=◌}
use biscuit_go.World.{
  RuleInBlock, RunLimits, Clock, merge, apply_rules, apply_all, settle, run_from,
}

returned :
    (new out : FactSet) (t u : SymbolTable) → return new t ≡ (ok out, u) → (new ≡ out) × (t ≡ u)
returned new out t u e = (ground arith, ground arith)

settle_cases :
    (b c : Bool) (all : FactSet) (next : FactSet → M FactSet) (v : SymbolTable) (out : FactSet)
    (u : SymbolTable)
    → (if b then fail Error.max_facts else if c then return all else next all) v ≡ (ok out, u)
    → ((b ≡ false) × (c ≡ true) × (all ≡ out) × (v ≡ u)) ⊎ (next all v ≡ (ok out, u))
settle_cases true c all next v out u e = ground arith
settle_cases false true all next v out u e = inl (refl, refl, ground arith, ground arith)
settle_cases false false all next v out u e = inr e

continue_cases :
    (r : Run FactSet × SymbolTable) (k : FactSet → M FactSet) (out : FactSet) (u : SymbolTable)
    → continue r k ≡ (ok out, u)
    → (new : FactSet) × (v : SymbolTable) × (r ≡ (ok new, v)) × (k new v ≡ (ok out, u))
continue_cases (ok new, v) k out u e = (new, v, refl, e)
continue_cases (err x, v) k out u e = ground arith
continue_cases (panic, v) k out u e = ground arith

round_cases :
    (b : Bool) (m : M FactSet) (k : FactSet → M FactSet) (t : SymbolTable) (out : FactSet)
    (u : SymbolTable)
    → (if b then fail Error.timeout else (m >>= k)) t ≡ (ok out, u)
    → (new : FactSet) × (v : SymbolTable) × (m t ≡ (ok new, v)) × (k new v ≡ (ok out, u))
round_cases true m k t out u e = ground arith
round_cases false m k t out u e = continue_cases (m t) k out u e

module _ (rt : Runtime) where
  -- Every rule of a group gives its result on the same facts, one after the other, and the results
  -- are put together.
  pub data RulesGive (filtered : FactSet)
      : List RuleInBlock → FactSet → SymbolTable → FactSet → SymbolTable → Type 0 where
    rules_end : {new : FactSet} {t : SymbolTable} → RulesGive filtered [] new t new t
    rules_rule :
        {rib : RuleInBlock} {ribs : List RuleInBlock} {new result out : FactSet}
        {t v u : SymbolTable}
        → apply rt rib.rule rib.block_id filtered t ≡ (ok result, v)
        → RulesGive filtered ribs (merge rt.digest result new) v out u
        → RulesGive filtered (rib ∷ ribs) new t out u

  -- Every group of rules gives its results on the facts that its trusted origins let through.
  pub data RoundGives (facts : FactSet)
      : List (Origin × List RuleInBlock)
        → FactSet
        → SymbolTable
        → FactSet
        → SymbolTable
        → Type 0 where
    round_end : {new : FactSet} {t : SymbolTable} → RoundGives facts [] new t new t
    round_group :
        {trusted : Origin} {ribs : List RuleInBlock} {groups : List (Origin × List RuleInBlock)}
        {new middle out : FactSet} {t v u : SymbolTable}
        → RulesGive (with_origin rt.digest trusted facts) ribs new t middle v
        → RoundGives facts groups middle v out u
        → RoundGives facts ((trusted, ribs) ∷ groups) new t out u

  apply_rules-RulesGive :
      (expired : Clock) (round : ℕ) (filtered : FactSet) (ribs : List RuleInBlock)
      (new out : FactSet) (t u : SymbolTable)
      → apply_rules rt expired round filtered ribs new t ≡ (ok out, u)
      → RulesGive filtered ribs new t out u
  unfolding apply_rules
  apply_rules-RulesGive expired round filtered [] new out t u e =
      let (same, tables) = returned new out t u e in
      subst (λ x. RulesGive filtered [] new t x u) same
        (subst (RulesGive filtered [] new t new) tables rules_end)
  apply_rules-RulesGive expired round filtered (rib ∷ ribs) new out t u e =
      let (result, v, applied, after) =
        round_cases (expired round (length (rib ∷ ribs))) (apply rt rib.rule rib.block_id filtered)
          _ t out u e in
      rules_rule applied (
        apply_rules-RulesGive expired round filtered ribs (merge rt.digest result new) out v u
          after)

  apply_all-RoundGives :
      (expired : Clock) (round : ℕ) (facts : FactSet) (groups : List (Origin × List RuleInBlock))
      (new out : FactSet) (t u : SymbolTable)
      → apply_all rt expired round facts groups new t ≡ (ok out, u)
      → RoundGives facts groups new t out u
  unfolding apply_all
  apply_all-RoundGives expired round facts [] new out t u e =
      let (same, tables) = returned new out t u e in
      subst (λ x. RoundGives facts [] new t x u) same
        (subst (RoundGives facts [] new t new) tables round_end)
  apply_all-RoundGives expired round facts ((trusted, ribs) ∷ groups) new out t u e =
      let filtered = with_origin rt.digest trusted facts in
      let (middle, v, first, after) =
        continue_cases (apply_rules rt expired round filtered ribs new t)
          (apply_all rt expired round facts groups) out u e in
      round_group (apply_rules-RulesGive expired round filtered ribs new middle t v first)
        (apply_all-RoundGives expired round facts groups middle out v u after)

module _ (rt : Runtime) (expired : Clock) (limits : RunLimits)
    (rules : List (Origin × List RuleInBlock)) where
  -- A whole round of the rules over facts gives only facts that are among them: the facts left are
  -- these, and the table is the one that the round left.
  pub record IsSaturated (facts : FactSet) (table : SymbolTable) : Type 0 where
    pub before : FactSet
    pub before_table : SymbolTable
    pub new : FactSet
    pub derived : RoundGives rt before rules [] before_table new table
    pub merged : merge rt.digest new before ≡ facts
    pub unchanged : AddsNone before facts
    pub below_limit : count facts < limits.max_facts

  settled :
      (n : ℕ) (facts : FactSet) (t : SymbolTable) (new : FactSet) (v : SymbolTable)
      (next : FactSet → M FactSet) (out : FactSet) (u : SymbolTable)
      → apply_all rt expired n facts rules [] t ≡ (ok new, v)
      → ((a : FactSet) → next a v ≡ (ok out, u) → IsSaturated out u)
      → settle rt expired limits facts new next v ≡ (ok out, u)
      → IsSaturated out u
  unfolding settle
  settled n facts t new v next out u d h e =
      elim (settle_cases (leb limits.max_facts (count (merge rt.digest new facts)))
        (count (merge rt.digest new facts) == count facts) (merge rt.digest new facts) next v out u
        e) [
          | inl (below, same, all, tables) ↦ record {
            before = facts;
            before_table = t;
            new = new;
            derived =
                apply_all-RoundGives rt expired n facts rules [] new t u
                  (d ∙ ap (λ w. (ok new, w)) tables);
            merged = all;
            unchanged =
                subst (AddsNone facts) all
                  ((merge-Grows rt.digest new facts).1 (ground (arith, same)));
            below_limit = subst (λ a. count a < limits.max_facts) all (ground (arith, below));
          }
          | inr e' ↦ h (merge rt.digest new facts) e'
        ]

  -- A run of the rules that ends without an error ends with facts to which a whole round adds none:
  -- each rule of each group, applied to those of the facts before the round that the trusted
  -- origins of the group let through, has given its result, and with all results merged into them
  -- the entries of these facts are as they were, with at most entries without facts behind them.
  -- There are fewer facts than the limit.
  pub run_from-IsSaturated :
      (n : ℕ) (facts : FactSet) (t : SymbolTable) (out : FactSet) (u : SymbolTable)
      → run_from rt expired limits rules n facts t ≡ (ok out, u)
      → IsSaturated out u
  unfolding run_from
  run_from-IsSaturated zero facts t out u e = ground arith
  run_from-IsSaturated (suc n) facts t out u e =
      let (new, v, derived, after) =
        round_cases (expired n 0) (apply_all rt expired n facts rules []) _ t out u e in
      settled n facts t new v (run_from rt expired limits rules n) out u derived
        (λ a h. run_from-IsSaturated n a v out u h) after
