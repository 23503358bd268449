-- ===== src/Origin.antt =====
-- datalog/origin.go and datalog/scope.go: sets of block identifiers, the keys of fact sets and rule
-- sets that they are encoded to, and the blocks that a rule or a query trusts. `digest` is what the
-- seeded hash of `hash/maphash` makes of the bytes written to it.
pub mod Block
pub mod Encoding
pub mod Trust
use biscuit_go.Prelude.{
  ℕ, zero, suc, ◌+◌, ◌-◌, ◌^◌, Bool, true, false, not, ◌&&◌, Option, none, some, List, [], ◌∷◌,
  ◌++◌, Run, ok, err, panic, Error, ◌>>=◌, Bytes, format_uint, parse_uint, little_endian, ◌==◌, ltb,
  if◌then◌else◌, length, Ordering, compare, is_eq, then_compare, compare_each, sort, min,
}
use biscuit_go.HashSet.{
  Element, HashSet, empty, contains, insert, insert_all, new_hash_set, union, is_superset, to_slice,
  clone,
}
use Block.{authorizer_block_id, is_authorizer, compare_blocks, block_element}

-- `strings.Split(s, ",")`.
unfoldable pub split_commas : Bytes → List Bytes
split_commas [] = [] ∷ []
split_commas (c ∷ s) = elim (split_commas s) [
  | [] ↦ []
  | part ∷ parts ↦ if c == b',' then [] ∷ part ∷ parts else (c ∷ part) ∷ parts
]

-- The loop of `EncodeToString`, which writes a comma in front of every number but the first.
unfoldable pub encode_ids : List ℕ → Bytes
encode_ids [] = []
encode_ids (i ∷ []) = format_uint 36 i
encode_ids (i ∷ j ∷ is) = format_uint 36 i ++ (b',' ∷ encode_ids (j ∷ is))

abbrev pub Origin : Type 0
Origin = HashSet ℕ

-- `BlockIDs`: the identifiers in order, the authorizer's first.
unfoldable pub block_ids : Origin → List ℕ
block_ids o = sort compare_blocks (to_slice o)

unfoldable pub encode_to_string : Origin → Bytes
unfolding encode_ids block_ids
encode_to_string o = encode_ids (block_ids o)

-- `Compare` on origins.
unfoldable pub compare_origins : Origin → Origin → Ordering
unfolding block_ids
compare_origins o other =
    then_compare (compare_each compare_blocks (block_ids o) (block_ids other))
      (compare (length (block_ids o)) (length (block_ids other)))

-- `SignatureRegistry`, from indexes of the public key table to the blocks that a key has signed.
abbrev pub SignatureRegistry : Type 0
SignatureRegistry = List (ℕ × Origin)

unfoldable pub registered : ℕ → SignatureRegistry → Option Origin
registered k [] = none
registered k ((j, blocks) ∷ sr) = if j == k then some blocks else registered k sr

pub data ScopeType : Type 0 where
  authority previous public_key : ScopeType

pub record Scope : Type 0 where
  pub scope_type : ScopeType
  pub public_key_table_index : ℕ

-- `scopes := ruleScopes; if len(scopes) == 0 { scopes = blockScopes }`.
unfoldable pub effective_scopes : List Scope → List Scope → List Scope
effective_scopes block_scopes [] = block_scopes
effective_scopes block_scopes (s ∷ rule_scopes) = s ∷ rule_scopes

module _ (digest : Bytes → ℕ) where
  unfoldable pub insert_ids : List ℕ → Origin → Origin
  insert_ids ids o = insert_all ⦃e = block_element digest⦄ ids o

  unfoldable pub new_origin : ℕ → List ℕ → Origin
  unfolding insert_ids
  new_origin first more = insert_ids more (new_hash_set ⦃e = block_element digest⦄ (first ∷ []))

  unfoldable pub insert_id_slice : List ℕ → Origin → Origin
  insert_id_slice ids o =
      union ⦃e = block_element digest⦄ o (new_hash_set ⦃e = block_element digest⦄ ids)

  unfoldable pub insert_origin : Origin → Origin → Origin
  insert_origin other o = union ⦃e = block_element digest⦄ o other

  -- `With`.
  unfoldable pub with_ids : List ℕ → Origin → Origin
  unfolding insert_ids clone
  with_ids ids o = insert_ids ids (clone o)

  unfoldable pub is_super_set : Origin → Origin → Bool
  is_super_set o other = is_superset ⦃e = block_element digest⦄ o other

  unfoldable pub has_block : ℕ → Origin → Bool
  has_block i o = contains ⦃e = block_element digest⦄ i o

  unfoldable pub decode_parts : List Bytes → Origin → Run Origin
  decode_parts [] o = ok o
  decode_parts (part ∷ parts) o = do
    i ← parse_uint 36 part
    decode_parts parts (insert ⦃e = block_element digest⦄ i o).0

  -- `NewOriginFromString`.
  unfoldable pub decode_from_string : Bytes → Run Origin
  unfolding decode_parts split_commas
  decode_from_string [] = err Error.empty_origin
  decode_from_string (c ∷ s) = decode_parts (split_commas (c ∷ s)) empty

  unfoldable pub register : ℕ → List ℕ → SignatureRegistry → SignatureRegistry
  register k ids [] = (k, new_hash_set ⦃e = block_element digest⦄ ids) ∷ []
  register k ids ((j, blocks) ∷ sr) =
      if j == k
      then (
        j,
        union ⦃e = block_element digest⦄ blocks (new_hash_set ⦃e = block_element digest⦄ ids),
      )
        ∷ sr
      else (j, blocks) ∷ register k ids sr

  unfoldable pub new_trusted_origin : Origin
  unfolding new_origin
  new_trusted_origin = new_origin 0 (authorizer_block_id ∷ [])

  -- `for i := range n { origin.InsertIDs(i) }`, from `i` on.
  unfoldable pub insert_range : ℕ → ℕ → Origin → Origin
  unfolding insert_ids
  insert_range zero i o = o
  insert_range (suc n) i o = insert_range n (i + 1) (insert_ids (i ∷ []) o)

  -- `if blockIDs, exists := signatureRegistry[index]; exists { … }`.
  unfoldable pub insert_registered : ℕ → SignatureRegistry → Origin → Origin
  unfolding registered insert_id_slice
  insert_registered k sr o = elim (registered k sr) [
    | some blocks ↦ insert_id_slice (to_slice blocks) o
    | none ↦ o
  ]

  unfoldable pub insert_scope : ℕ → SignatureRegistry → Scope → Origin → Origin
  unfolding insert_ids insert_range insert_registered
  insert_scope current sr s o = elim (s.scope_type) [
    | authority ↦ insert_ids (0 ∷ []) o
    | previous ↦ if current == authorizer_block_id then o else insert_range current 0 o
    | public_key ↦ insert_registered s.public_key_table_index sr o
  ]

  unfoldable pub insert_scopes : ℕ → SignatureRegistry → List Scope → Origin → Origin
  unfolding insert_scope
  insert_scopes current sr [] o = o
  insert_scopes current sr (s ∷ scopes) o =
      insert_scopes current sr scopes (insert_scope current sr s o)

  unfoldable pub trusted_from : ℕ → SignatureRegistry → List Scope → Origin
  unfolding with_ids new_trusted_origin new_origin insert_scopes
  trusted_from current sr [] = with_ids (current ∷ []) new_trusted_origin
  trusted_from current sr (s ∷ scopes) =
      insert_scopes current sr (s ∷ scopes) (new_origin authorizer_block_id (current ∷ []))

  -- `NewTrustedOriginFromScopes`.
  unfoldable pub new_trusted_origin_from_scopes :
      List Scope → List Scope → ℕ → SignatureRegistry → Origin
  unfolding effective_scopes trusted_from
  new_trusted_origin_from_scopes block_scopes rule_scopes current sr =
      trusted_from current sr (effective_scopes block_scopes rule_scopes)
