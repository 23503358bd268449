-- ===== src/Token.antt =====
-- biscuit.go: tokens, the signatures over their blocks, and the operations that build, extend, seal and
-- verify them. `lib` is the cryptography of the standard library, `marshal` is `proto.Marshal` of a
-- block, and a generator of keys is given the bytes that it reads.
pub mod Payload
pub mod Verify
pub mod Extend
pub mod Build
pub mod ThirdParty
pub mod Covered
pub mod Proved
pub mod Chain
pub mod Extended
pub mod Started
pub mod Loading
pub mod Requested
pub mod Sealed
pub mod Facts
use biscuit_go.Prelude.{
  ℕ, ◌-◌, Bool, Option, none, some, List, [], ◌∷◌, ◌++◌, Bytes, Slice, length, get_elem?, Run, ok,
  err, panic, Error,
}
use biscuit_go.Symbol.{SymbolTable}
use biscuit_go.PublicKey.{PublicKeyTable}
use biscuit_go.Origin.{SignatureRegistry}
use biscuit_go.Block.{Block}
use biscuit_go.Conversion.Schema.{ProtoPublicKey, ProtoExternalSignature}

-- `pb.SignedBlock`.
pub record SignedBlock : Type 0 where
  pub block : Bytes
  pub next_key : Option ProtoPublicKey
  pub signature : Bytes
  pub external_signature : Option ProtoExternalSignature
  pub version : Option ℕ

-- `pb.Proof`.
pub data Proof : Type 0 where
  next_secret : Slice ℕ → Proof
  final_signature : Slice ℕ → Proof
  no_proof : Proof

-- `pb.Biscuit`.
pub record Container : Type 0 where
  pub root_key_id : Option ℕ
  pub authority : SignedBlock
  pub blocks : List SignedBlock
  pub proof : Proof

-- The container is not `nil`.
pub record Biscuit : Type 0 where
  pub authority : Block
  pub blocks : List Block
  pub symbols : SymbolTable
  pub public_keys : PublicKeyTable
  pub container : Container
  pub signature_registry : SignatureRegistry

-- The getters of the messages, which give a default for what is absent.
unfoldable pub get_algorithm : Option ProtoPublicKey → ℕ
get_algorithm none = 0
get_algorithm (some pk) = pk.algorithm

unfoldable pub get_key : Option ProtoPublicKey → Bytes
get_key none = []
get_key (some pk) = pk.key

unfoldable pub get_signature : Option ProtoExternalSignature → Slice ℕ
get_signature none = none
get_signature (some s) = s.signature

unfoldable pub get_public_key : Option ProtoExternalSignature → Option ProtoPublicKey
get_public_key none = none
get_public_key (some s) = s.public_key

unfoldable pub get_next_secret : Proof → Slice ℕ
get_next_secret (next_secret k) = k
get_next_secret (final_signature s) = none
get_next_secret no_proof = none

unfoldable pub get_final_signature : Proof → Slice ℕ
get_final_signature (next_secret k) = none
get_final_signature (final_signature s) = s
get_final_signature no_proof = none

-- `lastBlock`, which indexes the signed blocks by the number of the blocks.
unfoldable pub last_signed : SignedBlock → List SignedBlock → List Block → Run SignedBlock
last_signed authority signed [] = ok authority
last_signed authority signed (block ∷ blocks) = elim (get_elem? signed (length blocks)) [
  | some s ↦ ok s
  | none ↦ panic
]

unfoldable pub last_block : Biscuit → Run SignedBlock
unfolding last_signed
last_block b = last_signed b.container.authority b.container.blocks b.blocks

unfoldable pub signatures : List SignedBlock → List Bytes
signatures [] = []
signatures (s ∷ ss) = s.signature ∷ signatures ss

-- `RevocationIds`.
unfoldable pub revocation_ids : Biscuit → List Bytes
unfolding signatures
revocation_ids b = b.container.authority.signature ∷ signatures b.container.blocks

unfoldable pub block_count : Biscuit → ℕ
block_count b = length b.container.blocks
