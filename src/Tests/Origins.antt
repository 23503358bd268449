-- ===== src/Tests/Origins.antt =====
-- The theorems of the origins and of the trust in blocks, on a token of four blocks.
use mathlib.Core.Path.{subst}
use biscuit_go.Prelude.{
  ℕ, ◌+◌, ◌^◌, ◌≡◌, ◌≢◌, ◌≤◌, ◌<◌, ◌⊎◌, refl, sym, ◌∙◌, any, Bool, true, false, List, [], ◌∷◌, Run,
  ok, err, panic, arith, Bytes, All,
}
use biscuit_go.HashSet.{new_hash_set, to_slice}
use biscuit_go.HashSet.Valid.{IsValid}
use biscuit_go.HashSet.Algebra.{new_hash_set-IsValid}
use biscuit_go.Origin.{
  Origin, Scope, ScopeType, authority, previous, public_key, SignatureRegistry, has_block,
  encode_to_string, decode_from_string, new_trusted_origin_from_scopes, effective_scopes,
}
use biscuit_go.Origin.Block.{block_element, block_element-IsLawful, authorizer_block_id}
use biscuit_go.Origin.Encoding.{decode-encode, IsUint64}
use biscuit_go.Origin.Trust.{trusts, has_block-trusted, trusted-le, names_key}
use biscuit_go.Tests.{test_digest}

abbrev blocks : Origin
blocks = new_hash_set ⦃e = block_element test_digest⦄ (2 ∷ 0 ∷ [])

blocks-IsValid : IsValid ⦃e = block_element test_digest⦄ blocks
blocks-IsValid =
    new_hash_set-IsValid ⦃e = block_element test_digest⦄ (block_element-IsLawful test_digest)
      (2 ∷ 0 ∷ [])

blocks-slice : to_slice blocks ≡ 2 ∷ 0 ∷ []
unfolding to_slice new_hash_set biscuit_go.HashSet.insert_all biscuit_go.HashSet.insert
    biscuit_go.Prelude.little_endian biscuit_go.Origin.Block.compare_blocks
blocks-slice = refl

blocks-some : to_slice blocks ≢ []
blocks-some e = ground (arith, sym blocks-slice ∙ e)

blocks-IsUint64 : All IsUint64 (to_slice blocks)
blocks-IsUint64 = subst (All IsUint64) (sym blocks-slice) (omega arith, (omega arith, tt))

-- The same blocks, inserted in the other order.
abbrev turned : Origin
turned = new_hash_set ⦃e = block_element test_digest⦄ (0 ∷ 2 ∷ [])

turned-IsValid : IsValid ⦃e = block_element test_digest⦄ turned
turned-IsValid =
    new_hash_set-IsValid ⦃e = block_element test_digest⦄ (block_element-IsLawful test_digest)
      (0 ∷ 2 ∷ [])

turned-slice : to_slice turned ≡ 0 ∷ 2 ∷ []
unfolding to_slice new_hash_set biscuit_go.HashSet.insert_all biscuit_go.HashSet.insert
    biscuit_go.Prelude.little_endian biscuit_go.Origin.Block.compare_blocks
turned-slice = refl

turned-some : to_slice turned ≢ []
turned-some e = ground (arith, sym turned-slice ∙ e)

turned-IsUint64 : All IsUint64 (to_slice turned)
turned-IsUint64 = subst (All IsUint64) (sym turned-slice) (omega arith, (omega arith, tt))

same_encoding : encode_to_string blocks ≡ encode_to_string turned
unfolding new_hash_set biscuit_go.HashSet.insert_all biscuit_go.HashSet.insert
    biscuit_go.Origin.Block.compare_blocks biscuit_go.Prelude.little_endian encode_to_string
    to_slice biscuit_go.Prelude.sort
same_encoding = refl

-- The key of index 5 has signed the blocks 2 and 0.
abbrev registry : SignatureRegistry
registry = (5, blocks) ∷ []

abbrev key_scope : Scope
key_scope = record { scope_type = public_key; public_key_table_index = 5 }

abbrev previous_scope : Scope
previous_scope = record { scope_type = previous; public_key_table_index = 0 }

has_block-trusted_example :
    has_block test_digest 2
      (new_trusted_origin_from_scopes test_digest [] (key_scope ∷ []) 3 registry)
    ≡ trusts test_digest 3 registry (effective_scopes [] (key_scope ∷ [])) 2
has_block-trusted_example =
    has_block-trusted test_digest [] (key_scope ∷ []) 3 registry 2 (blocks-IsValid, tt)

no_key : any names_key (effective_scopes [] (previous_scope ∷ [])) ≡ false
unfolding effective_scopes
no_key = refl

trusts_2 :
    has_block test_digest 2
      (new_trusted_origin_from_scopes test_digest [] (previous_scope ∷ []) 3 registry)
    ≡ true
unfolding effective_scopes
trusts_2 = has_block-trusted test_digest [] (previous_scope ∷ []) 3 registry 2 (blocks-IsValid, tt)

trusted-le_example : (2 ≡ authorizer_block_id) ⊎ (2 ≤ 3)
trusted-le_example =
    trusted-le test_digest [] (previous_scope ∷ []) 3 registry 2 (blocks-IsValid, tt) no_key
      trusts_2

decode-encode_example :
    (o' : Origin) × (decode_from_string test_digest (encode_to_string blocks) ≡ ok o')
    × ((i : ℕ) → has_block test_digest i o' ≡ has_block test_digest i blocks)
decode-encode_example =
    decode-encode test_digest {o = blocks} blocks-IsValid blocks-some blocks-IsUint64
