-- ===== src/Authorizer/Build.antt =====
-- authorizer.go, `Build` of the builder: the blocks of a token and what was added are translated into one
-- table of symbols and one of keys, and their facts and rules go into one world.
use biscuit_go.Prelude.{
  ℕ, ◌+◌, ◌==◌, not, ◌&&◌, Bool, true, false, Option, none, some, List, [], ◌∷◌, Bytes, elements,
  if◌then◌else◌, Run, ok, err, panic, Error, ◌>>=◌,
}
use biscuit_go.Symbol.{SymbolTable}
use biscuit_go.PublicKey.{PublicKeyTable, insert_key}
use biscuit_go.Origin.{
  Origin, Scope as DatalogScope, SignatureRegistry, register, new_origin,
  new_trusted_origin_from_scopes,
}
use biscuit_go.Origin.Block.{authorizer_block_id}
use biscuit_go.Fact.{Fact as DatalogFact}
use biscuit_go.Evaluator.{Rule as DatalogRule, Check as DatalogCheck}
use biscuit_go.World.{World}
use biscuit_go.World.Rules.{new_world, add_fact, add_rule}
use biscuit_go.Block.{Block, is_third_party}
use biscuit_go.Surface.{Predicate, Rule}
use biscuit_go.Surface.Each.{convert_each}
use biscuit_go.Surface.Convert.{
  convert_scope, convert_scopes, convert_predicate, convert_rule, convert_check,
}
use biscuit_go.Surface.Read.{read_scope, read_predicate, read_rule, read_check}
use biscuit_go.Authorizer.{Policy, BlockChecks, Authorizer}
use biscuit_go.Authorizer.Builder.{AuthorizerBuilder}
use biscuit_go.Token.{Biscuit}

-- What `Build` keeps up to date.
pub record State : Type 0 where
  pub world : World
  pub symbols : SymbolTable
  pub public_keys : PublicKeyTable
  pub registry : SignatureRegistry

-- The `authorizer` that `Build` gives.
pub record Built : Type 0 where
  pub biscuit : Biscuit
  pub state : State
  pub authorizer_scopes : List DatalogScope
  pub authorizer_checks : List DatalogCheck
  pub authorizer_policies : List Policy
  pub biscuit_blocks : List BlockChecks

-- What `Authorize` reads of the authorizer, its symbol table apart.
abbrev pub authorizer_of : Built → Authorizer
authorizer_of a = record {
  world = a.state.world;
  public_keys = a.state.public_keys;
  signature_registry = a.state.registry;
  authorizer_scopes = a.authorizer_scopes;
  authorizer_checks = a.authorizer_checks;
  authorizer_policies = a.authorizer_policies;
  biscuit_blocks = a.biscuit_blocks;
}

-- A read through the pointer to a block's keys, which happens only for the index of a key, and panics
-- if the pointer is `nil`.
abbrev pub is_key_index : Error → Bool
is_key_index Error.invalid_key_index = true
is_key_index _ = false

abbrev pub nil_keys {ℓ} : {A : Type ℓ} → Run A → Run A
nil_keys (ok a) = ok a
nil_keys (err e) = if is_key_index e then panic else err e
nil_keys panic = panic

abbrev pub through_keys {ℓ} :
    {A : Type ℓ} → Option PublicKeyTable → (PublicKeyTable → Run A) → Run A
through_keys none read = nil_keys (read [])
through_keys (some keys) read = read keys

abbrev pub with_registry : PublicKeyTable → SignatureRegistry → State → State
with_registry keys registry s = record {
  world = s.world;
  symbols = s.symbols;
  public_keys = keys;
  registry = registry;
}

abbrev pub with_keys : PublicKeyTable → State → State
with_keys keys s = with_registry keys s.registry s

abbrev pub with_tables : SymbolTable × PublicKeyTable → State → State
with_tables (symbols, keys) s = record {
  world = s.world;
  symbols = symbols;
  public_keys = keys;
  registry = s.registry;
}

abbrev pub with_world : World → State → State
with_world w s = record {
  world = w;
  symbols = s.symbols;
  public_keys = s.public_keys;
  registry = s.registry;
}

-- A loop over a slice that only changes the state.
unfoldable pub each {ℓ κ} : {A : Type ℓ} {S : Type κ} → (A → S → Run S) → List A → S → Run S
each f [] s = ok s
each f (a ∷ as_) s = do s1 ← f a s; each f as_ s1

module _ (digest : Bytes → ℕ) where
  -- The key of a third-party block and the block's number in the registry.
  unfoldable pub register_block : ℕ → Block → State → State
  unfolding insert_key
  register_block block_id b s = elim (b.external_signature) [
    | none ↦ s
    | some external ↦
        let (index, keys) = insert_key external.public_key s.public_keys in
        with_registry keys (register digest index (block_id ∷ []) s.registry) s
  ]

  -- A fact of the interface goes into the world under an origin.
  unfoldable pub store_fact : Origin → Predicate → State → State
  unfolding convert_predicate add_fact
  store_fact origin f s =
      let (fact, symbols) = convert_predicate digest f s.symbols in
      with_world (add_fact digest origin fact s.world) (with_tables (symbols, s.public_keys) s)

  -- A rule of the interface goes into the world under the origins that it trusts, with the registry
  -- as it is at this moment.
  unfoldable pub store_rule : List DatalogScope → ℕ → Rule → State → Run State
  unfolding convert_rule add_rule
  store_rule scopes block_id r s = do
    (rule, tables) ← convert_rule digest r (s.symbols, s.public_keys)
    ok (
        with_world
          (add_rule digest
            (new_trusted_origin_from_scopes digest scopes (elements rule.scopes) block_id
              s.registry)
            block_id rule s.world)
          (with_tables tables s))

  unfoldable pub translate_scope :
      Option PublicKeyTable → DatalogScope → PublicKeyTable → Run (DatalogScope × PublicKeyTable)
  unfolding read_scope convert_scope
  translate_scope own s keys = do
    scope ← through_keys own (λ k. read_scope k s)
    ok (convert_scope scope keys)

  unfoldable pub translate_fact : SymbolTable → Origin → DatalogFact → State → Run State
  unfolding read_predicate store_fact
  translate_fact symbols origin f s = do
    fact ← read_predicate digest symbols f
    ok (store_fact origin fact s)

  unfoldable pub translate_rule :
      SymbolTable → Option PublicKeyTable → List DatalogScope → ℕ → DatalogRule → State → Run State
  unfolding read_rule store_rule
  translate_rule symbols own scopes block_id r s = do
    rule ← through_keys own (λ k. read_rule digest symbols k r)
    store_rule scopes block_id rule s

  unfoldable pub translate_check :
      SymbolTable
      → Option PublicKeyTable
      → DatalogCheck
      → SymbolTable × PublicKeyTable
      → Run (DatalogCheck × (SymbolTable × PublicKeyTable))
  unfolding read_check convert_check
  translate_check symbols own c tables = do
    check ← through_keys own (λ k. read_check digest symbols k c)
    convert_check digest check tables

  -- The body of the loop over the blocks, after the choice of the symbols.
  unfoldable pub translate_block : SymbolTable → ℕ → Block → State → Run (BlockChecks × State)
  unfolding translate_scope translate_fact translate_rule translate_check each new_origin
  translate_block symbols block_id b s = do
    (scopes, keys) ← convert_each (translate_scope b.public_keys) b.scopes s.public_keys
    s1 ← each (translate_fact symbols (new_origin digest block_id [])) b.facts (with_keys keys s)
    s2 ← each (translate_rule symbols b.public_keys scopes block_id) b.rules s1
    (checks, tables) ←
        convert_each (translate_check symbols b.public_keys) b.checks (s2.symbols, s2.public_keys)
    ok (record { block_scopes = scopes; block_checks = checks }, with_tables tables s2)

  -- Own symbols and an entry in the registry for the block of a third party behind the authority
  -- block, the symbols of the token for the others.
  unfoldable pub load_block : SymbolTable → ℕ → Block → State → Run (BlockChecks × State)
  unfolding is_third_party register_block translate_block
  load_block token_symbols block_id b s =
      if not (block_id == 0) && is_third_party b
      then translate_block b.symbols block_id b (register_block block_id b s)
      else translate_block token_symbols block_id b s

  -- The loop over the blocks, the first with the number given.
  unfoldable pub load_blocks : SymbolTable → ℕ → List Block → State → Run (List BlockChecks × State)
  unfolding load_block
  load_blocks token_symbols block_id [] s = ok ([], s)
  load_blocks token_symbols block_id (b ∷ bs) s = do
    (c, s1) ← load_block token_symbols block_id b s
    (cs, s2) ← load_blocks token_symbols (block_id + 1) bs s1
    ok (c ∷ cs, s2)

  -- What `Build` does with what was added, after the blocks.
  unfoldable pub load_authorizer :
      AuthorizerBuilder → State → Run (List DatalogScope × (List DatalogCheck × State))
  unfolding convert_scopes store_fact store_rule convert_check each new_origin
  load_authorizer ab s = do
    (scopes, keys) ← convert_scopes ab.scopes s.public_keys
    s1 ←
        each (λ f t. ok (store_fact (new_origin digest authorizer_block_id []) f t)) ab.facts
          (with_keys keys s)
    s2 ← each (store_rule scopes authorizer_block_id) ab.rules s1
    (checks, tables) ← convert_each (convert_check digest) ab.checks (s2.symbols, s2.public_keys)
    ok (scopes, (checks, with_tables tables s2))

  -- `Build`, with the tables of the options `WithSymbols` and `WithPublicKeys`. The length of the
  -- token's blocks is taken before the test for `nil`.
  unfoldable pub build : SymbolTable → PublicKeyTable → AuthorizerBuilder → Run Built
  unfolding load_blocks load_authorizer new_world
  build symbols keys ab = elim (ab.biscuit) [
    | none ↦ panic
    | some b ↦ do
      (blocks, s1) ←
          load_blocks b.symbols 0 (b.authority ∷ b.blocks)
            (record { world = new_world; symbols = symbols; public_keys = keys; registry = [] })
      (scopes, added) ← load_authorizer ab s1
      ok (record {
        biscuit = b;
        state = added.1;
        authorizer_scopes = scopes;
        authorizer_checks = added.0;
        authorizer_policies = ab.policies;
        biscuit_blocks = blocks;
      })
  ]
