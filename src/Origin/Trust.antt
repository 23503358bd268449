-- ===== src/Origin/Trust.antt =====
-- Which blocks a rule or a query trusts.
use biscuit_go.Prelude.{
  ℕ, zero, suc, ◌+◌, ◌≤◌, ◌≡◌, ◌⊎◌, refl, sym, ap, ◌∙◌, Bool, true, false, not, ◌&&◌, ◌||◌, none,
  some, List, [], ◌∷◌, Bytes, ◌==◌, leb, ltb, any, is_eq, arith, Bool-cases, Option-cases, inl, inr,
}
use mathlib.Core.Path.{subst}
use biscuit_go.HashSet.{contains, insert_all, new_hash_set, to_slice}
use biscuit_go.HashSet.Valid.{IsValid, contains-to_slice}
use biscuit_go.HashSet.Laws.{contains-insert}
use biscuit_go.HashSet.Algebra.{
  contains-new_hash_set, new_hash_set-IsValid, contains-union, contains-insert_all,
}
use biscuit_go.Origin.Block.{
  compare_blocks, block_element, block_element-IsLawful, equal_blocks, authorizer_block_id,
}
use biscuit_go.Origin.{
  Origin, Scope, authority, previous, public_key, SignatureRegistry, has_block, insert_ids,
  new_origin, insert_id_slice, registered, insert_range, insert_registered, insert_scope,
  insert_scopes, effective_scopes, trusted_from, new_trusted_origin_from_scopes,
}

-- Every set of blocks in the registry is well formed.
abbrev pub RegistryIsValid : (Bytes → ℕ) → SignatureRegistry → Type 0
RegistryIsValid digest [] = Unit
RegistryIsValid digest ((k, blocks) ∷ sr) =
    IsValid ⦃e = block_element digest⦄ blocks × RegistryIsValid digest sr

-- The scope names a public key.
abbrev pub names_key : Scope → Bool
names_key s = elim (s.scope_type) [ public_key ↦ true | _ ↦ false ]

module _ (digest : Bytes → ℕ) where
  -- The block is one that the key of an index of the registry has signed.
  abbrev pub signed_with : SignatureRegistry → ℕ → ℕ → Bool
  signed_with sr k i = elim (registered k sr) [
    | some blocks ↦ has_block digest i blocks
    | none ↦ false
  ]

  -- What a scope adds to the trusted blocks, as the specification of Biscuit has it.
  abbrev pub scope_trusts : ℕ → SignatureRegistry → Scope → ℕ → Bool
  scope_trusts current sr s i = elim (s.scope_type) [
    | authority ↦ i == 0
    | previous ↦ not (current == authorizer_block_id) && ltb i current
    | public_key ↦ signed_with sr (s.public_key_table_index) i
  ]

  abbrev pub trusts : ℕ → SignatureRegistry → List Scope → ℕ → Bool
  trusts current sr [] i = i == authorizer_block_id || i == current || i == 0
  trusts current sr (s ∷ scopes) i =
      i == authorizer_block_id
      || i == current
      || any (λ t. scope_trusts current sr t i) (s ∷ scopes)

  has_block-insert_id :
      (i j : ℕ) (o : Origin)
      → has_block digest i (insert_ids digest (j ∷ []) o) ≡ (i == j || has_block digest i o)
  unfolding has_block insert_ids insert_all
  has_block-insert_id i j o = ground (
    arith,
    contains-insert ⦃e = block_element digest⦄ (block_element-IsLawful digest) j i o,
    equal_blocks j i,
  )

  has_block-insert_range :
      (i n j : ℕ) (o : Origin)
      → has_block digest i (insert_range digest n j o)
        ≡ ((leb j i && ltb i (j + n)) || has_block digest i o)
  unfolding insert_range
  has_block-insert_range i zero j o = ground arith
  has_block-insert_range i (suc n) j o = ground (
    arith,
    has_block-insert_range i n (j + 1) (insert_ids digest (j ∷ []) o),
    has_block-insert_id i j o,
  )

  has_block-insert_id_slice :
      (i : ℕ) (ids : List ℕ) (o : Origin)
      → has_block digest i (insert_id_slice digest ids o)
        ≡ (has_block digest i o || any (λ j. is_eq (compare_blocks j i)) ids)
  unfolding has_block insert_id_slice
  has_block-insert_id_slice i ids o =
      let law = block_element-IsLawful digest in
      contains-union ⦃e = block_element digest⦄ law o
        (new_hash_set-IsValid ⦃e = block_element digest⦄ law ids) i
      ∙ ap (λ b. contains ⦃e = block_element digest⦄ i o || b)
          (contains-new_hash_set ⦃e = block_element digest⦄ law i ids)

  registered-IsValid :
      (k : ℕ) (sr : SignatureRegistry) (blocks : Origin)
      → RegistryIsValid digest sr
      → registered k sr ≡ some blocks
      → IsValid ⦃e = block_element digest⦄ blocks
  unfolding registered
  registered-IsValid k [] blocks v h = cc
  registered-IsValid k ((j, b) ∷ sr) blocks v h = elim (Bool-cases (j == k)) [
    | inl same ↦
        let here : b ≡ blocks = ground (arith, same) in
        subst (λ o. IsValid ⦃e = block_element digest⦄ o) here v.0
    | inr other ↦ registered-IsValid k sr blocks v.1 (ground (arith, other))
  ]

  slice-has_block :
      (i : ℕ) (o : Origin)
      → IsValid ⦃e = block_element digest⦄ o
      → has_block digest i o ≡ any (λ j. is_eq (compare_blocks j i)) (to_slice o)
  unfolding has_block
  slice-has_block i o v =
      contains-to_slice ⦃e = block_element digest⦄ (block_element-IsLawful digest) v i

  has_block-registered :
      (k i : ℕ) (sr : SignatureRegistry) (o : Origin)
      → RegistryIsValid digest sr
      → has_block digest i (insert_registered digest k sr o)
        ≡ (signed_with sr k i || has_block digest i o)
  unfolding insert_registered
  has_block-registered k i sr o v = elim (Option-cases (registered k sr)) [
    | inl absent ↦ ground (arith, absent)
    | inr found ↦ ground (
      arith,
      found.1,
      has_block-insert_id_slice i (to_slice found.0) o,
      slice-has_block i found.0 (registered-IsValid k sr found.0 v found.1),
    )
  ]

  has_block-insert_scope :
      (current : ℕ) (sr : SignatureRegistry) (s : Scope) (i : ℕ) (o : Origin)
      → RegistryIsValid digest sr
      → has_block digest i (insert_scope digest current sr s o)
        ≡ (scope_trusts current sr s i || has_block digest i o)
  unfolding insert_scope
  has_block-insert_scope current sr s i o v = ground (
    arith,
    has_block-insert_id i 0 o,
    has_block-insert_range i current 0 o,
    has_block-registered s.public_key_table_index i sr o v,
  )

  has_block-insert_scopes :
      (current : ℕ) (sr : SignatureRegistry) (scopes : List Scope) (i : ℕ) (o : Origin)
      → RegistryIsValid digest sr
      → has_block digest i (insert_scopes digest current sr scopes o)
        ≡ (any (λ t. scope_trusts current sr t i) scopes || has_block digest i o)
  unfolding insert_scopes
  has_block-insert_scopes current sr [] i o v = refl
  has_block-insert_scopes current sr (s ∷ scopes) i o v = ground (
    arith,
    has_block-insert_scopes current sr scopes i (insert_scope digest current sr s o) v,
    has_block-insert_scope current sr s i o v,
  )

  has_block-insert_ids :
      (i : ℕ) (ids : List ℕ) (o : Origin)
      → has_block digest i (insert_ids digest ids o)
        ≡ (has_block digest i o || any (λ j. is_eq (compare_blocks j i)) ids)
  unfolding has_block insert_ids
  has_block-insert_ids i ids o =
      contains-insert_all ⦃e = block_element digest⦄ (block_element-IsLawful digest) i ids o

  has_block-new_origin :
      (i first : ℕ) (more : List ℕ)
      → has_block digest i (new_origin digest first more)
        ≡ (i == first || any (λ j. is_eq (compare_blocks j i)) more)
  unfolding new_origin
  has_block-new_origin i first more =
      has_block-insert_ids i more (new_hash_set ⦃e = block_element digest⦄ (first ∷ []))
      ∙ ap (λ b. b || any (λ j. is_eq (compare_blocks j i)) more) one
    where
      one : has_block digest i (new_hash_set ⦃e = block_element digest⦄ (first ∷ [])) ≡ i == first
      one =
          unfold has_block in
          (contains-new_hash_set ⦃e = block_element digest⦄ (block_element-IsLawful digest) i
              (first ∷ [])
            ∙ ground (arith, equal_blocks first i))

  has_block-trusted_from :
      (current : ℕ) (sr : SignatureRegistry) (scopes : List Scope) (i : ℕ)
      → RegistryIsValid digest sr
      → has_block digest i (trusted_from digest current sr scopes) ≡ trusts current sr scopes i
  unfolding trusted_from
  has_block-trusted_from current sr [] i v = ground (
    arith,
    has_block-insert_ids i (current ∷ []) new,
    has_block-new_origin i 0 (authorizer_block_id ∷ []),
    equal_blocks current i,
    equal_blocks authorizer_block_id i,
  )
    where
      new : Origin
      new = new_origin digest 0 (authorizer_block_id ∷ [])
  has_block-trusted_from current sr (s ∷ scopes) i v = ground (
    arith,
    has_block-insert_scopes current sr (s ∷ scopes) i
        (new_origin digest authorizer_block_id (current ∷ [])) v,
    has_block-new_origin i authorizer_block_id (current ∷ []),
    equal_blocks current i,
  )

  -- Where the sets of the signature registry are well formed, a block is in the trusted origin
  -- exactly if it is the authorizer, the block itself, or a block that one of the scopes of the
  -- rule adds, or of its block if the rule has none, or the authority block if there are no scopes
  -- at all.
  pub has_block-trusted :
      (block_scopes rule_scopes : List Scope) (current : ℕ) (sr : SignatureRegistry) (i : ℕ)
      → RegistryIsValid digest sr
      → has_block digest i
          (new_trusted_origin_from_scopes digest block_scopes rule_scopes current sr)
        ≡ trusts current sr (effective_scopes block_scopes rule_scopes) i
  has_block-trusted block_scopes rule_scopes current sr i v =
      unfold new_trusted_origin_from_scopes in
      has_block-trusted_from current sr (effective_scopes block_scopes rule_scopes) i v

  trusts-base :
      (current : ℕ) (sr : SignatureRegistry) (scopes : List Scope)
      → (trusts current sr scopes current ≡ true)
        × (trusts current sr scopes authorizer_block_id ≡ true)
  trusts-base current sr [] = (ground arith, ground arith)
  trusts-base current sr (s ∷ scopes) = (ground arith, ground arith)

  scopes-le :
      (current : ℕ) (sr : SignatureRegistry) (scopes : List Scope) (i : ℕ)
      → any names_key scopes ≡ false
      → any (λ t. scope_trusts current sr t i) scopes ≡ true
      → i ≤ current
  scopes-le current sr [] i h t = cc
  scopes-le current sr (s ∷ scopes) i h t = ground (arith, scopes-le current sr scopes i)

  trusts-le :
      (current : ℕ) (sr : SignatureRegistry) (scopes : List Scope) (i : ℕ)
      → any names_key scopes ≡ false
      → trusts current sr scopes i ≡ true
      → (i ≡ authorizer_block_id) ⊎ (i ≤ current)
  trusts-le current sr [] i h t = ground arith
  trusts-le current sr (s ∷ scopes) i h t = ground (arith, scopes-le current sr (s ∷ scopes) i)

  -- Where the sets of the registry are well formed, a rule whose scopes in force name no key trusts
  -- the authorizer and blocks up to its own, and no later block.
  pub trusted-le :
      (block_scopes rule_scopes : List Scope) (current : ℕ) (sr : SignatureRegistry) (i : ℕ)
      → RegistryIsValid digest sr
      → any names_key (effective_scopes block_scopes rule_scopes) ≡ false
      → has_block digest i
          (new_trusted_origin_from_scopes digest block_scopes rule_scopes current sr)
        ≡ true
      → (i ≡ authorizer_block_id) ⊎ (i ≤ current)
  trusted-le block_scopes rule_scopes current sr i v h t =
      trusts-le current sr (effective_scopes block_scopes rule_scopes) i h
        (sym (has_block-trusted block_scopes rule_scopes current sr i v) ∙ t)

  -- The authorizer's block and the block itself are trusted under any scopes.
  pub trusts_self :
      (block_scopes rule_scopes : List Scope) (current : ℕ) (sr : SignatureRegistry)
      → RegistryIsValid digest sr
      → (has_block digest current
            (new_trusted_origin_from_scopes digest block_scopes rule_scopes current sr)
          ≡ true)
        × (has_block digest authorizer_block_id
              (new_trusted_origin_from_scopes digest block_scopes rule_scopes current sr)
            ≡ true)
  trusts_self block_scopes rule_scopes current sr v = (
    has_block-trusted block_scopes rule_scopes current sr current v
        ∙ (trusts-base current sr (effective_scopes block_scopes rule_scopes)).0,
    has_block-trusted block_scopes rule_scopes current sr authorizer_block_id v
        ∙ (trusts-base current sr (effective_scopes block_scopes rule_scopes)).1,
  )
