-- ===== src/Token/Facts.antt =====
-- biscuit.go: the block that holds a fact, the checks of a token and the world that it gives by itself.
use biscuit_go.Prelude.{
  ℕ, suc, ◌+◌, ◌≡◌, ◌↔◌, refl, sym, ap, ◌∙◌, Bool, true, false, Bool-cases, inl, inr, subst, List,
  [], ◌∷◌, ◌++◌, Bytes, map, any, length, if◌then◌else◌, Run, ok, err, Error, ok-same, arith,
}
use biscuit_go.Origin.{Origin, new_origin, new_trusted_origin, with_ids}
use biscuit_go.Fact.{Fact, equal_predicates}
use biscuit_go.Evaluator.{Rule, Check}
use biscuit_go.Expression.Effect.{Runtime, M}
use biscuit_go.World.{World, Clock, run}
use biscuit_go.World.Rules.{new_world, add_fact, add_rule}
use biscuit_go.Block.{Block}
use biscuit_go.Surface.{Predicate}
use biscuit_go.Surface.Convert.{convert_predicate}
use biscuit_go.Token.{Biscuit}

-- The loop over the facts of a block.
unfoldable pub holds_fact : Fact → Block → Bool
unfolding equal_predicates
holds_fact fact b = any (λ f. equal_predicates f fact) b.facts

-- The loop over the blocks, the first with the number given.
unfoldable pub find_block : Fact → ℕ → List Block → Run ℕ
unfolding holds_fact
find_block fact i [] = err Error.fact_not_found
find_block fact i (b ∷ bs) =
    let rest = find_block fact (suc i) bs in if holds_fact fact b then ok i else rest

-- `GetBlockID`. The symbols of the fact are not kept.
unfoldable pub get_block_id : (Bytes → ℕ) → Predicate → Biscuit → Run ℕ
unfolding find_block convert_predicate
get_block_id digest f b =
    find_block (convert_predicate digest f b.symbols).0 0 (b.authority ∷ b.blocks)

-- `Checks`.
unfoldable pub checks : Biscuit → List (List Check)
checks b = b.authority.checks ∷ map (λ x. x.checks) b.blocks

module _ (digest : Bytes → ℕ) where
  unfoldable pub add_facts : Origin → List Fact → World → World
  unfolding add_fact
  add_facts o [] w = w
  add_facts o (f ∷ fs) w = add_facts o fs (add_fact digest o f w)

  unfoldable pub add_rules : Origin → ℕ → List Rule → World → World
  unfolding add_rule
  add_rules trusted block_id [] w = w
  add_rules trusted block_id (r ∷ rs) w =
      add_rules trusted block_id rs (add_rule digest trusted block_id r w)

  -- The loop over the blocks: each trusts the authority block, the authorizer and itself.
  unfoldable pub add_blocks : ℕ → List Block → World → World
  unfolding add_facts add_rules new_origin new_trusted_origin with_ids
  add_blocks block_id [] w = w
  add_blocks block_id (b ∷ bs) w = add_blocks (block_id + 1) bs (
      add_rules (with_ids digest (block_id ∷ []) (new_trusted_origin digest)) block_id b.rules
        (add_facts (new_origin digest block_id []) b.facts w))

-- `generateWorld`.
unfoldable pub generate_world : Runtime → Clock → Biscuit → M World
unfolding add_facts add_rules add_blocks new_world new_origin new_trusted_origin run
generate_world rt expired b = run rt expired (
    add_blocks rt.digest 1 b.blocks (
      add_rules rt.digest (new_trusted_origin rt.digest) 0 b.authority.rules
        (add_facts rt.digest (new_origin rt.digest 0 []) b.authority.facts new_world)))

-- The block of this number is the first that holds the fact.
pub record IsFirst (fact : Fact) (bs : List Block) (i : ℕ) : Type 0 where
  pub before : List Block
  pub found : Block
  pub after : List Block
  pub split : bs ≡ before ++ found ∷ after
  pub number : length before ≡ i
  pub earlier : any (holds_fact fact) before ≡ false
  pub holds : holds_fact fact found ≡ true

find_block-IsFirst :
    (fact : Fact) (bs : List Block) (i j : ℕ)
    → find_block fact i bs ≡ ok j
    → (k : ℕ) × (j ≡ i + k) × IsFirst fact bs k
unfolding find_block
find_block-IsFirst fact [] i j h = cc
find_block-IsFirst fact (b ∷ bs) i j h = elim (Bool-cases (holds_fact fact b)) [
  | inl here ↦ (
    0,
    (let same = ok-same (rw (here, find_block) at h) in omega arith),
    record {
      before = [];
      found = b;
      after = bs;
      split = refl;
      number = refl;
      earlier = refl;
      holds = here;
    },
  )
  | inr not_here ↦
      let (k, e, f) = find_block-IsFirst fact bs (suc i) j (rw (not_here, find_block) at h) in
      (
        suc k,
        omega arith,
        record {
          before = b ∷ f.before;
          found = f.found;
          after = f.after;
          split = ap (λ l. b ∷ l) f.split;
          number = ap suc f.number;
          earlier = rw (not_here, f.earlier) refl;
          holds = f.holds;
        },
      )
]

find_block-none :
    (fact : Fact) (bs : List Block) (i : ℕ)
    → any (holds_fact fact) bs ≡ false
    → find_block fact i bs ≡ err Error.fact_not_found
unfolding find_block
find_block-none fact [] i h = refl
find_block-none fact (b ∷ bs) i h = ground (arith, find_block-none fact bs (suc i))

find_block-append :
    (fact : Fact) (before after : List Block) (b : Block) (i : ℕ)
    → any (holds_fact fact) before ≡ false
    → holds_fact fact b ≡ true
    → find_block fact i (before ++ b ∷ after) ≡ ok (i + length before)
unfolding find_block
find_block-append fact [] after b i none_before here = rw here (ap ok (omega arith))
find_block-append fact (a ∷ before) after b i none_before here =
    ground (arith, find_block-append fact before after b (suc i))

-- `GetBlockID` gives a number exactly if the block of that number is the first that holds the fact,
-- as it is converted in the token's symbols.
pub get_block_id_iff :
    (digest : Bytes → ℕ) (f : Predicate) (b : Biscuit) (i : ℕ)
    → (get_block_id digest f b ≡ ok i)
      ↔ IsFirst (convert_predicate digest f b.symbols).0 (b.authority ∷ b.blocks) i
unfolding get_block_id
get_block_id_iff digest f b i =
    let fact = (convert_predicate digest f b.symbols).0 in
    let blocks = b.authority ∷ b.blocks in
    (
      λ h.
          let (k, e, first) = find_block-IsFirst fact blocks 0 i h in
          subst (IsFirst fact blocks) (omega arith) first,
      λ first.
          subst (λ l. find_block fact 0 l ≡ ok i) (sym first.split)
            (find_block-append fact first.before first.after first.found 0 first.earlier first.holds
              ∙ (let number = first.number in ap ok (omega arith))),
    )
