-- ===== src/Block.antt =====
-- types.go and converters.go: blocks with their versions and external signatures, and what a block adds
-- to the public keys and to the signature registry of a token.
use biscuit_go.Prelude.{
  ℕ, Bool, true, false, Option, none, some, List, [], ◌∷◌, Bytes, Slice, ltb, if◌then◌else◌, Run,
  ok, err, Error,
}
use biscuit_go.Symbol.{SymbolTable}
use biscuit_go.PublicKey.{PublicKey, PublicKeyTable, insert_key, extend_keys}
use biscuit_go.Origin.{Scope, SignatureRegistry, register}
use biscuit_go.Fact.{Fact}
use biscuit_go.Evaluator.{Rule, Check}

abbrev pub datalog_version_3_0 : ℕ
datalog_version_3_0 = 3

abbrev pub datalog_version_3_2 : ℕ
datalog_version_3_2 = 5

abbrev pub datalog_version_3_3 : ℕ
datalog_version_3_3 = 6

-- `getDatalogVersion`, where an absent field counts as 0.
unfoldable pub get_datalog_version : Option ℕ → Run ℕ
get_datalog_version none = err Error.unsupported_version
get_datalog_version (some v) =
    if ltb v datalog_version_3_0
    then err Error.unsupported_version
    else if ltb datalog_version_3_3 v
    then err Error.unsupported_version
    else ok v

-- `getBlockSignatureVersion`, where an absent field counts as 0.
unfoldable pub get_block_signature_version : Option ℕ → Run ℕ
get_block_signature_version none = ok 0
get_block_signature_version (some v) = if ltb 1 v then err Error.unsupported_version else ok v

pub record ExternalSignature : Type 0 where
  pub public_key : PublicKey
  pub signature : Slice ℕ

-- The table of public keys is behind a pointer, `none` for `nil`.
pub record Block : Type 0 where
  pub symbols : SymbolTable
  pub public_keys : Option PublicKeyTable
  pub facts : List Fact
  pub scopes : List Scope
  pub rules : List Rule
  pub checks : List Check
  pub context : Bytes
  pub version : ℕ
  pub external_signature : Option ExternalSignature

unfoldable pub is_third_party : Block → Bool
is_third_party b = elim (b.external_signature) [ none ↦ false | some s ↦ true ]

-- `UpdatePublicKeys`: the table and the registry afterwards.
unfoldable pub update_public_keys :
    (Bytes → ℕ)
    → ℕ
    → Block
    → PublicKeyTable
    → SignatureRegistry
    → PublicKeyTable × SignatureRegistry
update_public_keys digest block_id b keys registry = elim (b.external_signature) [
  | some s ↦
      let (index, keys') = insert_key s.public_key keys in
      (keys', register digest index (block_id ∷ []) registry)
  | none ↦ elim (b.public_keys) [
    | some own ↦ (extend_keys keys own, registry)
    | none ↦ (keys, registry)
  ]
]
