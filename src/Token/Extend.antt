-- ===== src/Token/Extend.antt =====
-- biscuit.go: `append` and `Seal`.
use biscuit_go.Prelude.{
  ℕ, ◌+◌, Option, none, some, [], ◌∷◌, ◌++◌, Bytes, length, if◌then◌else◌, Run, ok, err, Error,
  ◌>>=◌,
}
use biscuit_go.Symbol.{is_disjoint, extend}
use biscuit_go.Block.{Block, is_third_party, update_public_keys}
use biscuit_go.Conversion.Schema.{ProtoExternalSignature, ProtoBlock}
use biscuit_go.Conversion.Blocks.{block_to_proto}
use biscuit_go.Crypto.{Library, Signer, sign, new_signer_from_pb, generate_next}
use biscuit_go.Token.{
  SignedBlock, next_secret, final_signature, Biscuit, get_algorithm, get_key, get_signature,
  get_next_secret, last_block,
}
use biscuit_go.Token.Payload.{block_signature_payload_v1, sealed_block_signature_payload}

module _ (lib : Library) (digest : Bytes → ℕ) (marshal : ProtoBlock → Run Bytes) where
  -- The signed block, and the private key for the block after it.
  unfoldable pub sign_block :
      Bytes
      → Signer
      → SignedBlock
      → Block
      → Option ProtoExternalSignature
      → Run (SignedBlock × Bytes)
  unfolding block_to_proto get_algorithm get_signature
  sign_block rng signer last block external = do
    let next_alg = get_algorithm last.next_key
    (next_pub, next_priv) ← generate_next lib next_alg rng
    proto ← block_to_proto block
    marshalled ← marshal proto
    signature ← sign lib signer (
        block_signature_payload_v1 next_alg marshalled next_pub (get_signature external)
          last.signature 1)
    ok (
      record {
        block = marshalled;
        next_key = some (record { algorithm = next_alg; key = next_pub });
        signature = signature;
        external_signature = external;
        version = some 1;
      },
      next_priv,
    )

  -- The token with the block and the signed block behind its own.
  unfoldable pub with_block : Biscuit → Block → SignedBlock → Bytes → Biscuit
  unfolding is_third_party extend update_public_keys
  with_block b block signed priv =
      let (keys, registry) =
        update_public_keys digest (length b.blocks + 1) block b.public_keys b.signature_registry in
      record {
        authority = b.authority;
        blocks = b.blocks ++ block ∷ [];
        symbols = if is_third_party block then b.symbols else extend b.symbols block.symbols;
        public_keys = keys;
        container = record {
          root_key_id = none;
          authority = b.container.authority;
          blocks = b.container.blocks ++ signed ∷ [];
          proof = next_secret (some priv);
        };
        signature_registry = registry;
      }

  unfoldable pub append : Bytes → Block → Option ProtoExternalSignature → Biscuit → Run Biscuit
  unfolding get_next_secret last_block get_algorithm is_disjoint sign_block with_block
  append rng block external b = elim (get_next_secret b.container.proof) [
    | none ↦ err Error.sealed
    | some secret ↦ do
      last ← last_block b
      signer ← new_signer_from_pb lib (get_algorithm last.next_key) secret
      (if is_disjoint b.symbols block.symbols
          then (do
            (signed, priv) ← sign_block rng signer last block external
            ok (with_block b block signed priv))
          else err Error.symbol_overlap)
  ]

unfoldable pub with_proof : Biscuit → Bytes → Biscuit
with_proof b signature = record {
  authority = b.authority;
  blocks = b.blocks;
  symbols = b.symbols;
  public_keys = b.public_keys;
  container = record {
    root_key_id = none;
    authority = b.container.authority;
    blocks = b.container.blocks;
    proof = final_signature (some signature);
  };
  signature_registry = b.signature_registry;
}

-- `Seal`.
unfoldable pub seal : Library → Biscuit → Run Biscuit
unfolding get_next_secret last_block get_algorithm get_key with_proof
seal lib b = elim (get_next_secret b.container.proof) [
  | none ↦ err Error.sealed
  | some secret ↦ do
    last ← last_block b
    signer ← new_signer_from_pb lib (get_algorithm last.next_key) secret
    signature ← sign lib signer (
        sealed_block_signature_payload (get_algorithm last.next_key) last.block
          (get_key last.next_key) last.signature)
    ok (with_proof b signature)
]
