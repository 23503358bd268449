-- ===== src/Token/Build.antt =====
-- biscuit.go and builder.go: new tokens, blocks of the holder, and tokens read from their bytes.
use biscuit_go.Prelude.{
  ℕ, ◌+◌, ◌==◌, not, Option, none, some, List, [], ◌∷◌, ◌++◌, Bytes, length, ltb, if◌then◌else◌,
  Run, ok, err, panic, Error, ◌>>=◌,
}
use biscuit_go.Symbol.{SymbolTable, is_disjoint, extend}
use biscuit_go.PublicKey.{PublicKeyTable}
use biscuit_go.Origin.{SignatureRegistry}
use biscuit_go.Block.{Block, is_third_party, update_public_keys, datalog_version_3_3}
use biscuit_go.Conversion.Schema.{ProtoBlock}
use biscuit_go.Conversion.Blocks.{block_to_proto, block_from_proto}
use biscuit_go.Crypto.{
  Library, RootSigner, Done, new_signer, algorithm_of, generate_next, sign, algorithm_ed25519,
  algorithm_secp256r1,
}
use biscuit_go.Builder.{BlockBuilder, build}
use biscuit_go.Token.{SignedBlock, next_secret, Container, Biscuit, get_algorithm, get_key}
use biscuit_go.Token.Payload.{authority_block_signature_payload_v1}
use biscuit_go.Token.Extend.{append}

-- `verifySignedBlockCryptoSizes`.
unfoldable pub verify_signed_block_crypto_sizes : SignedBlock → Done
unfolding get_algorithm get_key
verify_signed_block_crypto_sizes s =
    if get_algorithm s.next_key == algorithm_ed25519
    then elim (s.next_key) [
      | none ↦ panic
      | some pk ↦
          if not (length pk.key == 32)
          then err Error.invalid_key_size
          else if not (length s.signature == 64)
          then err Error.invalid_signature_size
          else ok tt
    ]
    else if get_algorithm s.next_key == algorithm_secp256r1
    then (if not (length (get_key s.next_key) == 33)
        then err Error.invalid_key_size
        else if ltb 73 (length s.signature)
        then err Error.invalid_signature_size
        else ok tt)
    else err Error.unsupported_algorithm

module _ (lib : Library) (digest : Bytes → ℕ) (marshal : ProtoBlock → Run Bytes) where
  -- The token of an authority block that is signed.
  unfoldable pub with_authority :
      Option ℕ → SymbolTable → PublicKeyTable → Block → SignedBlock → Bytes → Biscuit
  unfolding extend update_public_keys
  with_authority root_key_id symbols keys authority signed priv =
      let (keys', registry) = update_public_keys digest 0 authority keys [] in
      record {
        authority = authority;
        blocks = [];
        symbols = extend symbols authority.symbols;
        public_keys = keys';
        container = record {
          root_key_id = root_key_id;
          authority = signed;
          blocks = [];
          proof = next_secret (some priv);
        };
        signature_registry = registry;
      }

  -- `newBiscuit`.
  unfoldable pub new_biscuit :
      Bytes → Option ℕ → RootSigner → SymbolTable → PublicKeyTable → Block → Run Biscuit
  unfolding is_disjoint new_signer algorithm_of block_to_proto with_authority
  new_biscuit rng root_key_id root symbols keys authority =
      if is_disjoint symbols authority.symbols
      then (do
        signer ← new_signer root
        let next_alg = algorithm_of signer
        (next_pub, next_priv) ← generate_next lib next_alg rng
        proto ← block_to_proto authority
        marshalled ← marshal proto
        signature ←
            sign lib signer (authority_block_signature_payload_v1 next_alg marshalled next_pub 1)
        ok (
            with_authority root_key_id symbols keys authority
              (record {
                block = marshalled;
                next_key = some (record { algorithm = next_alg; key = next_pub });
                signature = signature;
                external_signature = none;
                version = some 1;
              })
              next_priv))
      else err Error.symbol_overlap

  unfoldable pub with_version : ℕ → Block → Block
  with_version v b = record {
    symbols = b.symbols;
    public_keys = b.public_keys;
    facts = b.facts;
    scopes = b.scopes;
    rules = b.rules;
    checks = b.checks;
    context = b.context;
    version = v;
    external_signature = b.external_signature;
  }

  -- `BuildWithSymbols`.
  unfoldable pub build_with_symbols :
      Bytes → Option ℕ → RootSigner → BlockBuilder → SymbolTable → PublicKeyTable → Run Biscuit
  unfolding build with_version new_biscuit
  build_with_symbols rng root_key_id root builder symbols keys = do
    authority ← build digest builder symbols keys
    new_biscuit rng root_key_id root symbols keys (with_version datalog_version_3_3 authority)

  -- `AppendBlock`.
  unfoldable pub append_block : Bytes → BlockBuilder → Biscuit → Run Biscuit
  unfolding build append
  append_block rng builder b = do
    block ← build digest builder b.symbols b.public_keys
    append lib digest marshal rng block none b

-- What the loop of `Unmarshal` keeps up to date.
pub record Loaded : Type 0 where
  pub blocks : List Block
  pub symbols : SymbolTable
  pub public_keys : PublicKeyTable
  pub signature_registry : SignatureRegistry

unfoldable pub with_symbols : SymbolTable → Block → Block
with_symbols symbols b = record {
  symbols = symbols;
  public_keys = b.public_keys;
  facts = b.facts;
  scopes = b.scopes;
  rules = b.rules;
  checks = b.checks;
  context = b.context;
  version = b.version;
  external_signature = b.external_signature;
}

-- `parse` is `proto.Unmarshal` of a block.
module _ (digest : Bytes → ℕ) (parse : Bytes → Run ProtoBlock) where
  -- What the loop does with a block once it is converted: the symbols of a third-party block are put
  -- into themselves first, and those of every block into the token's.
  unfoldable pub load_block : ℕ → Block → Loaded → Loaded
  unfolding is_third_party extend update_public_keys with_symbols
  load_block block_id b l =
      let third = is_third_party b in
      let symbols = if third then l.symbols else extend l.symbols b.symbols in
      let block = if third then with_symbols (extend b.symbols b.symbols) b else b in
      let (keys, registry) =
        update_public_keys digest block_id block l.public_keys l.signature_registry in
      record {
        blocks = l.blocks ++ block ∷ [];
        symbols = extend symbols block.symbols;
        public_keys = keys;
        signature_registry = registry;
      }

  unfoldable pub load_blocks : ℕ → List SignedBlock → Loaded → Run Loaded
  unfolding verify_signed_block_crypto_sizes block_from_proto load_block
  load_blocks block_id [] l = ok l
  load_blocks block_id (s ∷ ss) l = do
    _ ← verify_signed_block_crypto_sizes s
    proto ← parse s.block
    block ← block_from_proto digest proto s.external_signature
    load_blocks (block_id + 1) ss (load_block block_id block l)

  -- `Unmarshal`, of the message that the bytes are parsed to.
  unfoldable pub unmarshal : SymbolTable → Container → Run Biscuit
  unfolding verify_signed_block_crypto_sizes block_from_proto extend update_public_keys load_blocks
  unmarshal base container = do
    _ ← verify_signed_block_crypto_sizes container.authority
    proto ← parse container.authority.block
    authority ← block_from_proto digest proto none
    let (keys, registry) = update_public_keys digest 0 authority [] []
    l ← load_blocks 1 container.blocks (record {
      blocks = [];
      symbols = extend base authority.symbols;
      public_keys = keys;
      signature_registry = registry;
    })
    ok (record {
      authority = authority;
      blocks = l.blocks;
      symbols = l.symbols;
      public_keys = l.public_keys;
      container = container;
      signature_registry = l.signature_registry;
    })
