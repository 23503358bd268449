-- ===== src/Token/Sealed.antt =====
-- biscuit.go: sealed tokens, the revocation identifiers, and the root key that a token asks for.
use biscuit_go.Prelude.{
  ℕ, suc, Option, none, some, List, [], ◌∷◌, ◌++◌, ◌≡◌, refl, sym, subst, ap, ◌∙◌, Bytes,
  length-append, Run, ok, err, Error, ok->>=, arith, Option-cases, inl, inr, ok-same,
}
use biscuit_go.Block.{Block}
use biscuit_go.Conversion.Schema.{ProtoPublicKey, ProtoBlock, ProtoExternalSignature}
use biscuit_go.Crypto.{
  Library, Signer, Verifier, RootPublicKey, sign, verify, new_verifier_from_pb, new_signer_from_pb,
}
use biscuit_go.Crypto.Pairs.{IsSound, verify-sign}
use biscuit_go.Token.{
  SignedBlock, Biscuit, get_algorithm, get_key, get_next_secret, get_final_signature, last_block,
  signatures, revocation_ids, block_count,
}
use biscuit_go.Token.Payload.{sealed_block_signature_payload}
use biscuit_go.Token.Proved.{verify_proof-HasProof, HasProof-verify_proof}
use biscuit_go.Token.Verify.{
  verify_proof, authorizer_for, sealed_payload, with_root_public_keys, authorizer_for_source,
}
use biscuit_go.Token.Extend.{with_block, append, with_proof, seal}
use biscuit_go.Token.Chain.{
  final, IsConsistent, last_block-final, NextVerifier, IsVerified, authorizer_for_iff,
  IsChain-final,
}
use biscuit_go.Token.Extended.{secret_matches, append-sealed, append-IsAppended}

next_key-some :
    (lib : Library) (s : SignedBlock) (v : Verifier)
    → NextVerifier lib s v
    → (pk : ProtoPublicKey) × (s.next_key ≡ some pk)
unfolding get_algorithm get_key new_verifier_from_pb
next_key-some lib s v n = elim (Option-cases (s.next_key)) [
  | inl absent ↦ absurd (let n' = rw absent at n in cc)
  | inr found ↦ found
]

sealed_payload-some :
    (s : SignedBlock) (pk : ProtoPublicKey)
    → s.next_key ≡ some pk
    → sealed_payload s
      ≡ ok (
          sealed_block_signature_payload
            (get_algorithm s.next_key)
            s.block
            (get_key s.next_key)
            s.signature)
unfolding sealed_payload get_algorithm get_key
sealed_payload-some s pk e = rw (e, sealed_payload) refl

module _ (lib : Library) where
  -- What a successful call of `Seal` has gone through.
  record IsSealed (b c : Biscuit) : Type 0 where
    secret : Bytes
    last : SignedBlock
    signer : Signer
    signature : Bytes
    has_secret : get_next_secret b.container.proof ≡ some secret
    has_last : last_block b ≡ ok last
    has_signer : new_signer_from_pb lib (get_algorithm last.next_key) secret ≡ ok signer
    signs :
        sign lib signer (
          sealed_block_signature_payload
            (get_algorithm last.next_key)
            last.block
            (get_key last.next_key)
            last.signature)
        ≡ ok signature
    result : with_proof b signature ≡ c

  seal-sealed :
      (b : Biscuit) → get_next_secret b.container.proof ≡ none → seal lib b ≡ err Error.sealed
  unfolding seal
  seal-sealed b e = rw (e, seal) refl

  seal-secret :
      (b c : Biscuit) (secret : Bytes)
      → get_next_secret b.container.proof ≡ some secret
      → seal lib b ≡ ok c
      → IsSealed b c
  unfolding seal
  seal-secret b c secret has h =
      let h' = rw (has, seal) at h in
      let (last, has_last, h1) = ok->>= _ _ _ h' in
      let (signer, has_signer, h2) = ok->>= _ _ _ h1 in
      let (signature, signs, done) = ok->>= _ _ _ h2 in
      record {
        secret = secret;
        last = last;
        signer = signer;
        signature = signature;
        has_secret = has;
        has_last = has_last;
        has_signer = has_signer;
        signs = signs;
        result = ok-same done;
      }

  seal-IsSealed : (b c : Biscuit) → seal lib b ≡ ok c → IsSealed b c
  seal-IsSealed b c h = elim (Option-cases (get_next_secret b.container.proof)) [
    | inl none_left ↦ absurd (let e = seal-sealed b none_left in cc)
    | inr (secret, has) ↦ seal-secret b c secret has h
  ]

  with_proof-IsVerified :
      (root : RootPublicKey) (b : Biscuit) (signature : Bytes)
      → (i : IsVerified lib root b) → verify_proof lib i.last (with_proof b signature) ≡ ok tt
      → IsVerified lib root (with_proof b signature)
  unfolding with_proof
  with_proof-IsVerified root b signature i p = record {
    root_verifier = i.root_verifier;
    version = i.version;
    root_known = i.root_known;
    supported = i.supported;
    payload = i.payload;
    covered = i.covered;
    signed = i.signed;
    first = i.first;
    last = i.last;
    first_next = i.first_next;
    chain = i.chain;
    proved = verify_proof-HasProof lib i.last (with_proof b signature) p;
  }

  with_proof-proved :
      (v : Verifier) (b : Biscuit) (last : SignedBlock) (signature payload : Bytes)
      → last_block b ≡ ok last
      → sealed_payload last ≡ ok payload
      → verify lib v payload signature ≡ ok tt
      → verify_proof lib v (with_proof b signature) ≡ ok tt
  unfolding verify_proof with_proof get_next_secret get_final_signature last_block
  with_proof-proved v b last signature payload l p s = rw (l, p, s) refl

  with_proof-secret :
      (b : Biscuit) (signature : Bytes)
      → get_next_secret (with_proof b signature).container.proof ≡ none
  unfolding get_next_secret with_proof
  with_proof-secret b signature = refl

  with_proof-blocks :
      (b : Biscuit) (signature : Bytes)
      → IsConsistent b
      → IsConsistent (with_proof b signature)
        × (revocation_ids (with_proof b signature) ≡ revocation_ids b)
  unfolding with_proof revocation_ids
  with_proof-blocks b signature h = (h, refl)

  seal-proved :
      IsSound lib
      → (root : RootPublicKey) (b c : Biscuit) → IsConsistent b
      → (i : IsVerified lib root b) → (d : IsSealed b c)
      → verify_proof lib i.last (with_proof b d.signature) ≡ ok tt
  seal-proved sound root b c h i d =
      let m =
        secret_matches lib i.last b d.secret d.last d.signer d.has_secret d.has_last d.has_signer
          (HasProof-verify_proof lib i.last b i.proved) in
      let same : final b.container.authority b.container.blocks ≡ d.last =
        ok-same (sym (last_block-final b h) ∙ d.has_last) in
      let named =
        subst (λ s. NextVerifier lib s i.last) same
          (IsChain-final lib i.first i.last b.container.authority.signature b.container.blocks
            b.container.authority i.chain i.first_next) in
      let (pk, e) = next_key-some lib d.last i.last named in
      let payload =
        sealed_block_signature_payload (get_algorithm d.last.next_key) d.last.block
          (get_key d.last.next_key) d.last.signature in
      with_proof-proved i.last b d.last d.signature payload d.has_last
        (sealed_payload-some d.last pk e)
        (verify-sign lib sound i.last d.signer payload d.signature m d.signs)

  -- A verified token that `Seal` seals verifies under the same root key, and it has as many blocks
  -- with the same signatures. It can be neither extended, by a block of its holder or of a third
  -- party, nor sealed again.
  pub authorizer_for-seal :
      IsSound lib
      → (root : RootPublicKey) (b c : Biscuit) (digest : Bytes → ℕ)
        (marshal : ProtoBlock → Run Bytes) (rng : Bytes) (block : Block)
        (external : Option ProtoExternalSignature)
      → IsConsistent b
      → authorizer_for lib root b ≡ ok tt
      → seal lib b ≡ ok c
      → (authorizer_for lib root c ≡ ok tt)
        × IsConsistent c
        × (revocation_ids c ≡ revocation_ids b)
        × (seal lib c ≡ err Error.sealed)
        × (append lib digest marshal rng block external c ≡ err Error.sealed)
  authorizer_for-seal sound root b c digest marshal rng block external h v s =
      let i = (authorizer_for_iff lib root b).0 v in
      let d = seal-IsSealed b c s in
      let e = with_proof b d.signature in
      let none_left = with_proof-secret b d.signature in
      let (consistent, ids) = with_proof-blocks b d.signature h in
      subst
        (λ t.
          (authorizer_for lib root t ≡ ok tt)
          × IsConsistent t
          × (revocation_ids t ≡ revocation_ids b)
          × (seal lib t ≡ err Error.sealed)
          × (append lib digest marshal rng block external t ≡ err Error.sealed))
        d.result
        (
          (authorizer_for_iff lib root e).1
              (with_proof-IsVerified root b d.signature i (seal-proved sound root b c h i d)),
          consistent,
          ids,
          seal-sealed e none_left,
          append-sealed lib digest marshal rng block external e none_left,
        )

  signatures-append :
      (ss : List SignedBlock) (s : SignedBlock)
      → signatures (ss ++ s ∷ []) ≡ signatures ss ++ s.signature ∷ []
  unfolding signatures
  signatures-append [] s = refl
  signatures-append (t ∷ ss) s = ap (λ l. t.signature ∷ l) (signatures-append ss s)

  module _ (digest : Bytes → ℕ) (marshal : ProtoBlock → Run Bytes) where
    with_block-ids :
        (b : Biscuit) (block : Block) (s : SignedBlock) (priv : Bytes)
        → (revocation_ids (with_block lib digest marshal b block s priv)
            ≡ revocation_ids b ++ s.signature ∷ [])
          × (block_count (with_block lib digest marshal b block s priv) ≡ suc (block_count b))
    unfolding with_block revocation_ids block_count
    with_block-ids b block s priv = (
      ap (λ l. b.container.authority.signature ∷ l) (signatures-append b.container.blocks s),
      omega (arith, length-append b.container.blocks (s ∷ [])),
    )

    -- A token that `append` gives, by a block of its holder or of a third party, has one block
    -- more, and one revocation identifier more behind those that the token had.
    pub revocation_ids-append :
        (rng : Bytes) (block : Block) (external : Option ProtoExternalSignature) (b c : Biscuit)
        → append lib digest marshal rng block external b ≡ ok c
        → ((signature : Bytes) × (revocation_ids c ≡ revocation_ids b ++ signature ∷ []))
          × (block_count c ≡ suc (block_count b))
    revocation_ids-append rng block external b c h =
        let d = append-IsAppended lib digest marshal rng block external b c h in
        let (ids, more) = with_block-ids b block d.signed d.priv in
        (
          (d.signed.signature, ap revocation_ids (sym d.result) ∙ ids),
          ap block_count (sym d.result) ∙ more,
        )

    with_block-root :
        (b : Biscuit) (block : Block) (s : SignedBlock) (priv : Bytes)
        → (with_block lib digest marshal b block s priv).container.root_key_id ≡ none
    unfolding with_block
    with_block-root b block s priv = refl

    no_root :
        (keys : List (ℕ × Bytes)) (c : Biscuit)
        → c.container.root_key_id ≡ none
        → authorizer_for_source lib (with_root_public_keys keys none) c ≡ err Error.no_public_key
    unfolding authorizer_for_source with_root_public_keys
    no_root keys c e = rw (e, with_root_public_keys) refl

    -- A token that `append` gives no longer says which root key has signed it, whatever the token
    -- before it said: with keys by their identifiers and no default key, no key is available for
    -- it.
    pub authorizer_for_source-append :
        (keys : List (ℕ × Bytes)) (rng : Bytes) (block : Block)
        (external : Option ProtoExternalSignature) (b c : Biscuit)
        → append lib digest marshal rng block external b ≡ ok c
        → authorizer_for_source lib (with_root_public_keys keys none) c ≡ err Error.no_public_key
    authorizer_for_source-append keys rng block external b c h =
        let d = append-IsAppended lib digest marshal rng block external b c h in
        no_root keys c (
          subst (λ t. t.container.root_key_id ≡ none) d.result
            (with_block-root b block d.signed d.priv))
