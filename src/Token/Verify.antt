-- ===== src/Token/Verify.antt =====
-- biscuit.go: the verification of a token's signatures, `authorizerFor`, and the choice of the root key.
use biscuit_go.Prelude.{
  ℕ, ◌==◌, Option, none, some, List, [], ◌∷◌, Bytes, length, if◌then◌else◌, Run, ok, err, panic,
  Error, ◌>>=◌,
}
use biscuit_go.Block.{get_block_signature_version}
use biscuit_go.Conversion.Schema.{ProtoExternalSignature}
use biscuit_go.Crypto.{
  Library, Verifier, RootPublicKey, ed25519_public_key, Done, new_sig_verifier, verify, matches,
  new_signer_from_pb, new_verifier_from_pb,
}
use biscuit_go.Token.{
  SignedBlock, Biscuit, get_algorithm, get_key, get_signature, get_next_secret, get_final_signature,
  last_block,
}
use biscuit_go.Token.Payload.{
  block_signature_payload_v0, sealed_block_signature_payload, authority_block_signature_payload_v1,
  block_signature_payload_v1, external_signature_payload_v1,
}

-- The entry of a map from identifiers to keys.
unfoldable pub key_by_id : ℕ → List (ℕ × Bytes) → Option Bytes
key_by_id i [] = none
key_by_id i ((j, k) ∷ keys) = if j == i then some k else key_by_id i keys

-- `WithRootPublicKeys`.
unfoldable pub with_root_public_keys : List (ℕ × Bytes) → Option Bytes → Option ℕ → Run Bytes
unfolding key_by_id
with_root_public_keys keys default none = elim default [
  | some k ↦ ok k
  | none ↦ err Error.no_public_key
]
with_root_public_keys keys default (some i) = elim (key_by_id i keys) [
  | some k ↦ ok k
  | none ↦ err Error.no_public_key
]

-- `WithSingularRootPublicKey`.
unfoldable pub with_singular_root_public_key : Bytes → Option ℕ → Run Bytes
with_singular_root_public_key k id = ok k

-- What the authority block signs, by the version of its signature.
unfoldable pub authority_payload : SignedBlock → ℕ → Bytes
unfolding get_algorithm get_key
authority_payload s version =
    if version == 0
    then block_signature_payload_v0 (get_algorithm s.next_key) s.block (get_key s.next_key)
    else authority_block_signature_payload_v1 (get_algorithm s.next_key) s.block
        (get_key s.next_key) version

-- What a later block signs, after a block of the given signature.
unfoldable pub block_payload : Bytes → SignedBlock → ℕ → Bytes
unfolding get_algorithm get_key get_signature
block_payload previous s version =
    if version == 0
    then block_signature_payload_v0 (get_algorithm s.next_key) s.block (get_key s.next_key)
    else block_signature_payload_v1 (get_algorithm s.next_key) s.block (get_key s.next_key)
        (get_signature s.external_signature) previous version

-- What the proof of a sealed token signs. The key of the last block is read through a pointer.
unfoldable pub sealed_payload : SignedBlock → Run Bytes
sealed_payload s = elim (s.next_key) [
  | none ↦ panic
  | some pk ↦ ok (sealed_block_signature_payload pk.algorithm s.block pk.key s.signature)
]

module _ (lib : Library) where
  unfoldable pub verify_external_signature :
      Bytes → Bytes → Option ProtoExternalSignature → ℕ → Done
  verify_external_signature payload previous none version = err Error.nil_external_signature
  verify_external_signature payload previous (some s) version =
      if version == 1
      then (do
        v ← new_verifier_from_pb lib (get_algorithm s.public_key) (get_key s.public_key)
        elim (s.signature) [
          | none ↦ verify lib v (external_signature_payload_v1 payload previous version) []
          | some sig ↦ verify lib v (external_signature_payload_v1 payload previous version) sig
        ])
      else err Error.unsupported_version

  -- `if externalSignature != nil { … }`.
  unfoldable pub check_external : Bytes → SignedBlock → ℕ → Done
  unfolding get_signature verify_external_signature
  check_external previous s version = elim (get_signature s.external_signature) [
    | none ↦ ok tt
    | some sig ↦ verify_external_signature s.block previous s.external_signature version
  ]

  -- One turn of the loop: the verifier and the signature for the next.
  unfoldable pub verify_block : Verifier → Bytes → SignedBlock → Run (Verifier × Bytes)
  unfolding get_block_signature_version block_payload check_external get_algorithm get_key
  verify_block verifier previous s = do
    version ← get_block_signature_version s.version
    _ ← verify lib verifier (block_payload previous s version) s.signature
    _ ← check_external previous s version
    next ← new_verifier_from_pb lib (get_algorithm s.next_key) (get_key s.next_key)
    ok (next, s.signature)

  unfoldable pub verify_blocks : Verifier → Bytes → List SignedBlock → Run (Verifier × Bytes)
  unfolding verify_block
  verify_blocks verifier previous [] = ok (verifier, previous)
  verify_blocks verifier previous (s ∷ ss) = do
    (v, p) ← verify_block verifier previous s
    verify_blocks v p ss

  unfoldable pub verify_authority : RootPublicKey → SignedBlock → Run (Verifier × Bytes)
  unfolding new_sig_verifier get_block_signature_version authority_payload get_algorithm get_key
  verify_authority root s = do
    verifier ← new_sig_verifier root
    version ← get_block_signature_version s.version
    _ ← verify lib verifier (authority_payload s version) s.signature
    next ← new_verifier_from_pb lib (get_algorithm s.next_key) (get_key s.next_key)
    ok (next, s.signature)

  unfoldable pub verify_proof : Verifier → Biscuit → Done
  unfolding get_next_secret get_final_signature last_block sealed_payload get_algorithm
  verify_proof verifier b = elim (get_next_secret b.container.proof) [
    | some secret ↦ do
      s ← last_block b
      signer ← new_signer_from_pb lib (get_algorithm s.next_key) secret
      matches lib verifier signer
    | none ↦ elim (get_final_signature b.container.proof) [
      | some signature ↦ do
        s ← last_block b
        payload ← sealed_payload s
        verify lib verifier payload signature
      | none ↦ err Error.missing_proof
    ]
  ]

  -- `authorizerFor`, up to the authorizer that it makes of the token.
  unfoldable pub authorizer_for : RootPublicKey → Biscuit → Done
  unfolding verify_authority verify_blocks verify_proof
  authorizer_for root b = do
    (v, previous) ← verify_authority root b.container.authority
    (last, _) ← verify_blocks v previous b.container.blocks
    verify_proof last b

  -- `AuthorizerFor`, at a source of keys that is not `nil`.
  unfoldable pub authorizer_for_source : (Option ℕ → Run Bytes) → Biscuit → Done
  unfolding authorizer_for
  authorizer_for_source source b = do
    key ← source b.container.root_key_id
    (if length key == 0 then err Error.no_public_key else authorizer_for (ed25519_public_key key) b)
