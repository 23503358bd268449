-- ===== src/World/Rules.antt =====
-- datalog/datalog.go: the set of rules of a world, by the encoded origins that they trust, and the
-- operations that fill a world.
use biscuit_go.Prelude.{
  ℕ, ◌+◌, none, List, [], ◌∷◌, ◌++◌, ◌≡◌, Bool, false, Bytes, Ordering, compare, then_compare,
  is_eq, if◌then◌else◌, little_endian, bytes_eq, arith,
}
use biscuit_go.HashSet.{
  Element, HashSet, new_hash_set, insert as insert_element, insert_all, empty, union,
}
use biscuit_go.HashSet.Laws.{size-insert_alone}
use biscuit_go.Origin.{Origin, encode_to_string}
use biscuit_go.Fact.{Fact, insert, insert_multi}
use biscuit_go.Evaluator.{Rule}
use biscuit_go.Evaluator.Compare.{compare_rules, hashed_rule, equal_rules, equal_rules-no_scopes}
use biscuit_go.World.{RuleInBlock, RuleSet, World, default_run_limits}

unfoldable pub compare_rules_in_blocks : RuleInBlock → RuleInBlock → Ordering
compare_rules_in_blocks r r2 =
    then_compare (compare r.block_id r2.block_id) (compare_rules r.rule r2.rule)

-- `Equal` and `Hash` of a rule with its block.
unfoldable pub equal_rules_in_blocks : RuleInBlock → RuleInBlock → Bool
unfolding compare_rules_in_blocks
equal_rules_in_blocks r r2 = is_eq (compare_rules_in_blocks r r2)

unfoldable pub hashed_rule_in_block : RuleInBlock → Bytes
hashed_rule_in_block r = little_endian 8 r.block_id ++ hashed_rule r.rule

abbrev pub rule_element : (Bytes → ℕ) → Element RuleInBlock
rule_element digest = record {
  hash = λ r. digest (hashed_rule_in_block r);
  equal = equal_rules_in_blocks;
}

then_compare-ne : (a b : Ordering) → is_eq b ≡ false → is_eq (then_compare a b) ≡ false
then_compare-ne a b h = ground arith

equal-no_scopes : (r r2 : RuleInBlock) → r2.rule.scopes ≡ none → equal_rules_in_blocks r r2 ≡ false
unfolding equal_rules_in_blocks compare_rules_in_blocks equal_rules
equal-no_scopes r r2 h =
    then_compare-ne (compare r.block_id r2.block_id) (compare_rules r.rule r2.rule)
      (equal_rules-no_scopes r.rule r2.rule h)

unfoldable pub count_rules : RuleSet → ℕ
count_rules [] = 0
count_rules ((key, ribs) ∷ rs) = ribs.size + count_rules rs

unfoldable pub in_block : ℕ → List Rule → List RuleInBlock
in_block block_id [] = []
in_block block_id (r ∷ rs) = record { block_id = block_id; rule = r } ∷ in_block block_id rs

-- `NewWorld`, without options.
unfoldable pub new_world : World
new_world = record { facts = []; rules = []; run_limits = default_run_limits }

unfoldable pub reset_rules : World → World
reset_rules w = record { facts = w.facts; rules = []; run_limits = w.run_limits }

unfoldable pub num_rules : World → ℕ
unfolding count_rules
num_rules w = count_rules w.rules

module _ (digest : Bytes → ℕ) where
  -- `NewRuleSet`.
  unfoldable pub new_rule_set : Origin → ℕ → List Rule → RuleSet
  unfolding in_block
  new_rule_set trusted block_id rs =
      (encode_to_string trusted, new_hash_set ⦃e = rule_element digest⦄ (in_block block_id rs)) ∷ []

  unfoldable pub insert_rule_at_key : Bytes → RuleInBlock → RuleSet → RuleSet
  insert_rule_at_key key r [] = (key, new_hash_set ⦃e = rule_element digest⦄ (r ∷ [])) ∷ []
  insert_rule_at_key key r ((k, ribs) ∷ rs) =
      if bytes_eq k key
      then (k, (insert_element ⦃e = rule_element digest⦄ r ribs).0) ∷ rs
      else (k, ribs) ∷ insert_rule_at_key key r rs

  -- `RuleSet.Insert`.
  unfoldable pub insert_rule : Origin → ℕ → Rule → RuleSet → RuleSet
  unfolding insert_rule_at_key
  insert_rule trusted block_id r rs =
      insert_rule_at_key (encode_to_string trusted) (record { block_id = block_id; rule = r }) rs

  unfoldable pub insert_rules_at_key : Bytes → List RuleInBlock → RuleSet → RuleSet
  insert_rules_at_key key new [] = (key, new_hash_set ⦃e = rule_element digest⦄ new) ∷ []
  insert_rules_at_key key new ((k, ribs) ∷ rs) =
      if bytes_eq k key
      then (k, union ⦃e = rule_element digest⦄ ribs (new_hash_set ⦃e = rule_element digest⦄ new))
        ∷ rs
      else (k, ribs) ∷ insert_rules_at_key key new rs

  -- `RuleSet.InsertMulti`.
  unfoldable pub insert_rules : Origin → ℕ → List Rule → RuleSet → RuleSet
  unfolding insert_rules_at_key in_block
  insert_rules trusted block_id new rs =
      insert_rules_at_key (encode_to_string trusted) (in_block block_id new) rs

  unfoldable pub add_fact : Origin → Fact → World → World
  add_fact o f w = record {
    facts = insert digest o f w.facts;
    rules = w.rules;
    run_limits = w.run_limits;
  }

  unfoldable pub insert_facts : Origin → List Fact → World → World
  insert_facts o fs w = record {
    facts = insert_multi digest o fs w.facts;
    rules = w.rules;
    run_limits = w.run_limits;
  }

  unfoldable pub add_rule : Origin → ℕ → Rule → World → World
  unfolding insert_rule
  add_rule trusted block_id r w = record {
    facts = w.facts;
    rules = insert_rule trusted block_id r w.rules;
    run_limits = w.run_limits;
  }

  size-insert_no_scopes :
      (x : RuleInBlock) (s : HashSet RuleInBlock)
      → x.rule.scopes ≡ none
      → (insert_element ⦃e = rule_element digest⦄ x s).0.size ≡ s.size + 1
  size-insert_no_scopes x s h =
      size-insert_alone ⦃e = rule_element digest⦄ x (λ y. equal-no_scopes y x h) s

  count-insert_at_key :
      (key : Bytes) (x : RuleInBlock) (rs : RuleSet)
      → x.rule.scopes ≡ none
      → count_rules (insert_rule_at_key key x rs) ≡ count_rules rs + 1
  unfolding count_rules insert_rule_at_key new_hash_set insert_all
  count-insert_at_key key x [] h = ground (arith, size-insert_no_scopes x empty h)
  count-insert_at_key key x ((k, ribs) ∷ rs) h =
      ground (arith, size-insert_no_scopes x ribs h, count-insert_at_key key x rs h)

  -- Adding a rule that has no scopes to a world adds one to the number of its rules, also where the
  -- same rule of the same block is there already.
  pub num_rules-add_rule :
      (trusted : Origin) (block_id : ℕ) (r : Rule) (w : World)
      → r.scopes ≡ none
      → num_rules (add_rule trusted block_id r w) ≡ num_rules w + 1
  unfolding num_rules add_rule insert_rule
  num_rules-add_rule trusted block_id r w h =
      count-insert_at_key (encode_to_string trusted) (record { block_id = block_id; rule = r })
        w.rules h
