-- ===== src/Builder.antt =====
-- builder.go: the builder of blocks, which collects facts, rules, checks and scopes and converts them.
use biscuit_go.Prelude.{
  ℕ, none, some, Option, List, [], ◌∷◌, ◌++◌, Bytes, is_eq, length, if◌then◌else◌, Run, ok, Error,
  ◌>>=◌,
}
use biscuit_go.HashSet.{Element, HashSet, empty, insert, to_slice}
use biscuit_go.Symbol.{SymbolTable, split_off}
use biscuit_go.PublicKey.{PublicKeyTable, split_off_keys}
use biscuit_go.Block.{Block, datalog_version_3_2}
use biscuit_go.Surface.{Predicate, Rule, Check, Scope}
use biscuit_go.Surface.Compare.{hashed_all, compare_predicates}
use biscuit_go.Surface.Each.{convert_each}
use biscuit_go.Surface.Convert.{convert_predicates, convert_rule, convert_check, convert_scopes}

-- `Hash` and `Equal` of a fact: the name, then the terms.
abbrev pub fact_element : (Bytes → ℕ) → Element Predicate
fact_element digest = record {
  hash = λ f. digest (f.name ++ hashed_all f.ids);
  equal = λ f g. is_eq (compare_predicates f g);
}

pub record ParsedBlock : Type 0 where
  pub facts : HashSet Predicate
  pub rules : List Rule
  pub checks : List Check
  pub scope : List Scope

-- `symbol_starts` are the options `WithSymbolStart`, in order.
pub record BlockBuilder : Type 0 where
  pub facts : HashSet Predicate
  pub rules : List Rule
  pub checks : List Check
  pub scopes : List Scope
  pub context : Bytes
  pub block_id : ℕ
  pub symbol_starts : List ℕ

unfoldable pub new_block_builder : List ℕ → BlockBuilder
unfolding empty
new_block_builder options = record {
  facts = empty;
  rules = [];
  checks = [];
  scopes = [];
  context = [];
  block_id = 0;
  symbol_starts = options;
}

unfoldable pub with_facts : HashSet Predicate → BlockBuilder → BlockBuilder
with_facts facts b = record {
  facts = facts;
  rules = b.rules;
  checks = b.checks;
  scopes = b.scopes;
  context = b.context;
  block_id = b.block_id;
  symbol_starts = b.symbol_starts;
}

unfoldable pub add_rule : Rule → BlockBuilder → BlockBuilder
add_rule r b = record {
  facts = b.facts;
  rules = b.rules ++ r ∷ [];
  checks = b.checks;
  scopes = b.scopes;
  context = b.context;
  block_id = b.block_id;
  symbol_starts = b.symbol_starts;
}

unfoldable pub add_check : Check → BlockBuilder → BlockBuilder
add_check c b = record {
  facts = b.facts;
  rules = b.rules;
  checks = b.checks ++ c ∷ [];
  scopes = b.scopes;
  context = b.context;
  block_id = b.block_id;
  symbol_starts = b.symbol_starts;
}

unfoldable pub add_scope : Scope → BlockBuilder → BlockBuilder
add_scope s b = record {
  facts = b.facts;
  rules = b.rules;
  checks = b.checks;
  scopes = b.scopes ++ s ∷ [];
  context = b.context;
  block_id = b.block_id;
  symbol_starts = b.symbol_starts;
}

unfoldable pub set_context : Bytes → BlockBuilder → BlockBuilder
set_context context b = record {
  facts = b.facts;
  rules = b.rules;
  checks = b.checks;
  scopes = b.scopes;
  context = context;
  block_id = b.block_id;
  symbol_starts = b.symbol_starts;
}

unfoldable pub set_block_id : ℕ → BlockBuilder → BlockBuilder
set_block_id block_id b = record {
  facts = b.facts;
  rules = b.rules;
  checks = b.checks;
  scopes = b.scopes;
  context = b.context;
  block_id = block_id;
  symbol_starts = b.symbol_starts;
}

unfoldable pub add_rules : List Rule → BlockBuilder → BlockBuilder
unfolding add_rule
add_rules [] b = b
add_rules (r ∷ rs) b = add_rules rs (add_rule r b)

unfoldable pub add_checks : List Check → BlockBuilder → BlockBuilder
unfolding add_check
add_checks [] b = b
add_checks (c ∷ cs) b = add_checks cs (add_check c b)

unfoldable pub add_scopes : List Scope → BlockBuilder → BlockBuilder
unfolding add_scope
add_scopes [] b = b
add_scopes (s ∷ ss) b = add_scopes ss (add_scope s b)

-- The last of the options decides where the symbols of the block begin.
unfoldable pub symbols_start : ℕ → List ℕ → ℕ
symbols_start start [] = start
symbols_start start (s ∷ ss) = symbols_start s ss

module _ (digest : Bytes → ℕ) where
  -- The error, if the fact is there already, and the builder afterwards.
  unfoldable pub add_fact : Predicate → BlockBuilder → Option Error × BlockBuilder
  unfolding insert with_facts
  add_fact f b =
      let (facts, inserted) = insert ⦃e = fact_element digest⦄ f b.facts in
      (if inserted then none else some Error.duplicate_fact, with_facts facts b)

  -- The loop over the facts, which stops at the first that is there already.
  unfoldable pub add_facts : List Predicate → BlockBuilder → Option Error × BlockBuilder
  unfolding add_fact
  add_facts [] b = (none, b)
  add_facts (f ∷ fs) b =
      let (error, b') = add_fact f b in
      let rest = add_facts fs b' in elim error [ some e ↦ (some e, b') | none ↦ rest ]

  unfoldable pub add_block : ParsedBlock → BlockBuilder → Option Error × BlockBuilder
  unfolding add_facts add_rules add_checks add_scopes to_slice
  add_block p b =
      let (error, b') = add_facts (to_slice p.facts) b in
      elim error [
        | some e ↦ (some e, b')
        | none ↦ (none, add_scopes p.scope (add_checks p.checks (add_rules p.rules b')))
      ]

  -- `Build`: the symbols and keys that the conversions have added become those of the block.
  unfoldable pub build : BlockBuilder → SymbolTable → PublicKeyTable → Run Block
  unfolding to_slice symbols_start convert_predicates convert_rule convert_check convert_scopes
      split_off split_off_keys
  build b symbols keys = do
    (facts, t1) ← convert_predicates digest (to_slice b.facts) symbols
    (rules, s2) ← convert_each (convert_rule digest) b.rules (t1, keys)
    (checks, s3) ← convert_each (convert_check digest) b.checks s2
    (scopes, k4) ← convert_scopes b.scopes s3.1
    (_, own) ← split_off (symbols_start (length symbols) b.symbol_starts) s3.0
    (_, own_keys) ← split_off_keys (length keys) k4
    ok (record {
      symbols = own;
      public_keys = some own_keys;
      facts = facts;
      scopes = scopes;
      rules = rules;
      checks = checks;
      context = b.context;
      version = datalog_version_3_2;
      external_signature = none;
    })
