-- ===== src/Token/ThirdParty.antt =====
-- third_party.go and biscuit.go: requests for third-party blocks, their contents, and how they are
-- signed and appended.
use biscuit_go.Prelude.{
  ℕ, ◌==◌, Option, none, some, List, [], ◌∷◌, Bytes, elements, length, ltb, if◌then◌else◌, Run, ok,
  err, Error, ◌>>=◌,
}
use biscuit_go.Block.{Block, ExternalSignature, datalog_version_3_2}
use biscuit_go.Conversion.Schema.{ProtoPublicKey, ProtoExternalSignature, ProtoBlock}
use biscuit_go.Conversion.Blocks.{block_to_proto, block_from_proto, external_signature_from_proto}
use biscuit_go.Crypto.{Library, RootSigner, new_signer, sign, public_key_proto}
use biscuit_go.Builder.{BlockBuilder, build}
use biscuit_go.Token.{SignedBlock, Biscuit, get_key, get_next_secret, last_block}
use biscuit_go.Token.Payload.{external_signature_payload_v1}
use biscuit_go.Token.Verify.{verify_external_signature}
use biscuit_go.Token.Extend.{append}

abbrev pub ThirdPartyBlockRequest : Type 0
ThirdPartyBlockRequest = Bytes

pub record ThirdPartyBlockContents : Type 0 where
  pub payload : Bytes
  pub external_signature : Option ProtoExternalSignature

-- The signature of the last of the signed blocks, by their own number.
unfoldable pub last_container_signature : Bytes → List SignedBlock → Bytes
last_container_signature authority [] = authority
last_container_signature authority (s ∷ ss) = last_container_signature s.signature ss

-- `Biscuit.ThirdPartyBlockRequest`.
unfoldable pub third_party_block_request : Biscuit → Run ThirdPartyBlockRequest
unfolding get_next_secret last_container_signature
third_party_block_request b = elim (get_next_secret b.container.proof) [
  | none ↦ err Error.sealed
  | some secret ↦ ok (last_container_signature b.container.authority.signature b.container.blocks)
]

-- `pb.ThirdPartyBlockRequest`.
pub record ProtoRequest : Type 0 where
  pub legacy_previous_key : Option ProtoPublicKey
  pub legacy_public_keys : List ProtoPublicKey
  pub previous_signature : Bytes

-- `UnmarshalThirdPartyBlockRequest`, of the message that the bytes are parsed to.
unfoldable pub request_from_proto : ProtoRequest → Run ThirdPartyBlockRequest
request_from_proto p =
    if length p.legacy_public_keys == 0
    then elim (p.legacy_previous_key) [
      | some k ↦ err Error.legacy_field
      | none ↦ ok p.previous_signature
    ]
    else err Error.legacy_field

-- `UnmarshalThirdPartyBlockContents`, of the message that the bytes are parsed to.
unfoldable pub contents_from_proto : ThirdPartyBlockContents → Run ThirdPartyBlockContents
unfolding get_key
contents_from_proto c =
    if length c.payload == 0 then err Error.empty_field else elim (c.external_signature) [
      | none ↦ err Error.empty_field
      | some s ↦
          if length (elements s.signature) == 0
          then err Error.empty_field
          else if length (get_key s.public_key) == 0
          then err Error.empty_field
          else ok c
    ]

unfoldable pub with_external : ExternalSignature → Block → Block
with_external s b = record {
  symbols = b.symbols;
  public_keys = b.public_keys;
  facts = b.facts;
  scopes = b.scopes;
  rules = b.rules;
  checks = b.checks;
  context = b.context;
  version = b.version;
  external_signature = some s;
}

-- `SignRequest`: the block is built on empty tables.
unfoldable pub sign_request :
    Library
    → (Bytes → ℕ)
    → (ProtoBlock → Run Bytes)
    → RootSigner
    → BlockBuilder
    → ThirdPartyBlockRequest
    → Run ThirdPartyBlockContents
unfolding new_signer build block_to_proto public_key_proto
sign_request lib digest marshal root builder request = do
  signer ← new_signer root
  block ← build digest builder [] []
  proto ← block_to_proto block
  payload ← marshal proto
  signature ← sign lib signer (external_signature_payload_v1 payload request 1)
  ok (record {
    payload = payload;
    external_signature =
        some
          (record { signature = some signature; public_key = some (public_key_proto lib signer) });
  })

module _ (digest : Bytes → ℕ) (parse : Bytes → Run ProtoBlock) where
  -- `toBlock`.
  unfoldable pub to_block : ThirdPartyBlockContents → Run Block
  unfolding block_from_proto external_signature_from_proto with_external
  to_block c = do
    proto ← parse c.payload
    block ← block_from_proto digest proto c.external_signature
    (if ltb block.version datalog_version_3_2 then err Error.unsupported_version else (do
      s ← external_signature_from_proto c.external_signature
      ok (with_external s block)))

  -- `AppendThirdPartyBlock`.
  unfoldable pub append_third_party_block :
      Library → (ProtoBlock → Run Bytes) → Bytes → ThirdPartyBlockContents → Biscuit → Run Biscuit
  unfolding last_block verify_external_signature to_block append
  append_third_party_block lib marshal rng c b = do
    last ← last_block b
    _ ← verify_external_signature lib c.payload last.signature c.external_signature 1
    block ← to_block c
    append lib digest marshal rng block c.external_signature b
