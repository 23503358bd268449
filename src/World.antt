-- ===== src/World.antt =====
-- datalog/datalog.go, `World`: the rules are applied to the facts until there are no new ones, within
-- the limits on facts, rounds and time.
pub mod Growth
pub mod Saturation
pub mod Rules
use biscuit_go.Prelude.{
  ℕ, zero, suc, ◌+◌, ◌==◌, Bytes, Bool, true, false, Option, none, some, List, [], ◌∷◌, ◌++◌,
  if◌then◌else◌, leb, length, Run, ok, err, panic, Error,
}
use biscuit_go.HashSet.{HashSet, to_slice}
use biscuit_go.Origin.{Origin, decode_from_string}
use biscuit_go.Origin.Block.{authorizer_block_id}
use biscuit_go.Fact.{FactSet, count, entries, insert_multi, with_origin, Fact}
use biscuit_go.Expression.Effect.{Runtime, M, return, fail, continue, ◌>>=◌}
use biscuit_go.Evaluator.{Rule, apply}

pub record RuleInBlock : Type 0 where
  pub block_id : ℕ
  pub rule : Rule

-- The entries of the map from encoded trusted origins, in an order in which it yields them.
abbrev pub RuleSet : Type 0
RuleSet = List (Bytes × HashSet RuleInBlock)

pub record RunLimits : Type 0 where
  pub max_facts : ℕ
  pub max_iterations : ℕ

abbrev pub default_run_limits : RunLimits
default_run_limits = record { max_facts = 1000; max_iterations = 100 }

pub record World : Type 0 where
  pub facts : FactSet
  pub rules : RuleSet
  pub run_limits : RunLimits

-- `Iter` of the rules: the entries whose key can be decoded.
unfoldable pub rule_entries : (Bytes → ℕ) → RuleSet → List (Origin × List RuleInBlock)
rule_entries digest [] = []
rule_entries digest ((key, ribs) ∷ rs) =
    let rest = rule_entries digest rs in
    elim (decode_from_string digest key) [
      | ok o ↦ (o, to_slice ribs) ∷ rest
      | err e ↦ rest
      | panic ↦ rest
    ]

-- `for origin, facts := range new.Iter() { all.InsertMulti(origin, …) }`.
unfoldable pub insert_entries : (Bytes → ℕ) → List (Origin × HashSet Fact) → FactSet → FactSet
insert_entries digest [] all = all
insert_entries digest ((o, facts) ∷ es) all =
    insert_entries digest es (insert_multi digest o (to_slice facts) all)

unfoldable pub merge : (Bytes → ℕ) → FactSet → FactSet → FactSet
unfolding insert_entries
merge digest new all = insert_entries digest (entries digest new) all

-- Whether the deadline has passed at a point of the run: the rounds left after this one and the rules
-- that the round has still to apply to the facts of this trusted origin.
abbrev pub Clock : Type 0
Clock = ℕ → ℕ → Bool

module _ (rt : Runtime) (expired : Clock) where
  unfoldable pub apply_rules : ℕ → FactSet → List RuleInBlock → FactSet → M FactSet
  unfolding merge
  apply_rules round filtered [] new = return new
  apply_rules round filtered (rib ∷ ribs) new =
      if expired round (length (rib ∷ ribs))
      then fail Error.timeout
      else (apply rt rib.rule rib.block_id filtered >>= λ result.
          apply_rules round filtered ribs (merge rt.digest result new))

  unfoldable pub apply_all : ℕ → FactSet → List (Origin × List RuleInBlock) → FactSet → M FactSet
  unfolding apply_rules
  apply_all round facts [] new = return new
  apply_all round facts ((trusted, ribs) ∷ rs) new =
      apply_rules round (with_origin rt.digest trusted facts) ribs new >>= apply_all round facts rs

  -- What a round makes of the facts and the new ones: the facts to stop or to go on with.
  unfoldable pub settle : RunLimits → FactSet → FactSet → (FactSet → M FactSet) → M FactSet
  unfolding merge
  settle limits facts new next =
      let all = merge rt.digest new facts in
      if leb limits.max_facts (count all)
      then fail Error.max_facts
      else if count all == count facts
      then return all
      else next all

  -- The loop of `Run`, with the rounds that are left. It gives the facts of the world afterwards.
  unfoldable pub run_from : RunLimits → List (Origin × List RuleInBlock) → ℕ → FactSet → M FactSet
  unfolding apply_all settle
  run_from limits rules zero facts = fail Error.max_iterations
  run_from limits rules (suc n) facts =
      let next = run_from limits rules n in
      if expired n 0
      then fail Error.timeout
      else (apply_all n facts rules [] >>= λ new. settle limits facts new next)

  -- The `select` that waits for the loop: the deadline comes first, or the end of the loop.
  unfoldable pub await : Bool → Run FactSet → Run FactSet
  await false ended = ended
  await true (ok facts) = err Error.timeout
  await true (err e) = err Error.timeout
  await true panic = panic

  -- `Run`. Its last point is that of all rounds left and no rule, which no round has.
  unfoldable pub run : World → M World
  unfolding run_from rule_entries await
  run w t =
      let limits = w.run_limits in
      let (ended, t1) =
        run_from limits (rule_entries rt.digest w.rules) limits.max_iterations w.facts t in
      continue (await (expired limits.max_iterations 0) ended, t1)
        (λ facts. return (record { facts = facts; rules = w.rules; run_limits = limits }))

-- `QueryRule`.
unfoldable pub query_rule : Runtime → World → Rule → Origin → M FactSet
query_rule rt w r trusted = apply rt r authorizer_block_id (with_origin rt.digest trusted w.facts)
