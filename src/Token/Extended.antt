-- ===== src/Token/Extended.antt =====
-- biscuit.go: tokens that `append` and `Seal` make of verified tokens.
use biscuit_go.Prelude.{
  ℕ, true, Option, none, some, [], ◌∷◌, ◌≡◌, refl, sym, subst, ap, ◌∙◌, Bytes, length-append, Run,
  ok, err, Error, ok->>=, arith, Bool-cases, Option-cases, inl, inr, ok-same, ok-pair,
}
use biscuit_go.Symbol.{is_disjoint}
use biscuit_go.Block.{Block, get_block_signature_version}
use biscuit_go.Conversion.Schema.{ProtoBlock, ProtoExternalSignature}
use biscuit_go.Conversion.Blocks.{block_to_proto}
use biscuit_go.Crypto.{
  Library, Signer, Verifier, RootPublicKey, sign, verify, matches, new_signer_from_pb,
  generate_next,
}
use biscuit_go.Crypto.Pairs.{IsSound, verify-sign, generate_next-IsPair}
use biscuit_go.Token.{
  SignedBlock, Biscuit, get_algorithm, get_signature, get_next_secret, last_block,
}
use biscuit_go.Token.Payload.{block_signature_payload_v1}
use biscuit_go.Token.Proved.{verify_proof-HasProof, HasProof-verify_proof}
use biscuit_go.Token.Verify.{block_payload, check_external, verify_proof, authorizer_for}
use biscuit_go.Token.Extend.{sign_block, with_block, append}
use biscuit_go.Token.Chain.{
  checked-IsSigned, final, final-snoc, IsConsistent, last_block-final, NextVerifier, IsVerified,
  authorizer_for_iff, IsChain-snoc,
}

module _ (lib : Library) where
  -- A token with a next secret whose proof verifies has a signer that the verifier matches.
  pub secret_matches :
      (v : Verifier) (b : Biscuit) (secret : Bytes) (last : SignedBlock) (signer : Signer)
      → get_next_secret b.container.proof ≡ some secret
      → last_block b ≡ ok last
      → new_signer_from_pb lib (get_algorithm last.next_key) secret ≡ ok signer
      → verify_proof lib v b ≡ ok tt
      → matches lib v signer ≡ ok tt
  unfolding verify_proof
  secret_matches v b secret last signer s l k h = rw (s, verify_proof, l, k) at h

  no_external :
      (p : Bytes) (s : SignedBlock) → s.external_signature ≡ none → check_external lib p s 1 ≡ ok tt
  unfolding check_external get_signature
  no_external p s e = rw (e, check_external) refl

  module _ (digest : Bytes → ℕ) (marshal : ProtoBlock → Run Bytes) where
    -- What a successful call of `append` has gone through.
    pub record IsAppended (rng : Bytes) (block : Block) (external : Option ProtoExternalSignature)
        (b c : Biscuit) : Type 0 where
      pub secret : Bytes
      pub last : SignedBlock
      pub signer : Signer
      pub signed : SignedBlock
      pub priv : Bytes
      pub has_secret : get_next_secret b.container.proof ≡ some secret
      pub has_last : last_block b ≡ ok last
      pub has_signer : new_signer_from_pb lib (get_algorithm last.next_key) secret ≡ ok signer
      pub disjoint : is_disjoint b.symbols block.symbols ≡ true
      pub signs : sign_block lib digest marshal rng signer last block external ≡ ok (signed, priv)
      pub result : with_block lib digest marshal b block signed priv ≡ c

    pub append-sealed :
        (rng : Bytes) (block : Block) (external : Option ProtoExternalSignature) (b : Biscuit)
        → get_next_secret b.container.proof ≡ none
        → append lib digest marshal rng block external b ≡ err Error.sealed
    unfolding append
    append-sealed rng block external b e = rw (e, append) refl

    append-secret :
        (rng : Bytes) (block : Block) (external : Option ProtoExternalSignature) (b c : Biscuit)
        (secret : Bytes)
        → get_next_secret b.container.proof ≡ some secret
        → append lib digest marshal rng block external b ≡ ok c
        → IsAppended rng block external b c
    unfolding append
    append-secret rng block external b c secret has h =
        let h' = rw (has, append) at h in
        let (last, has_last, h1) = ok->>= _ _ _ h' in
        let (signer, has_signer, h2) = ok->>= _ _ _ h1 in
        elim (Bool-cases (is_disjoint b.symbols block.symbols)) [
          | inl disjoint ↦
              let ((signed, priv), signs, done) = ok->>= _ _ _ (rw disjoint at h2) in
              record {
                secret = secret;
                last = last;
                signer = signer;
                signed = signed;
                priv = priv;
                has_secret = has;
                has_last = has_last;
                has_signer = has_signer;
                disjoint = disjoint;
                signs = signs;
                result = cc;
              }
          | inr overlap ↦ absurd (let h3 = rw overlap at h2 in cc)
        ]

    pub append-IsAppended :
        (rng : Bytes) (block : Block) (external : Option ProtoExternalSignature) (b c : Biscuit)
        → append lib digest marshal rng block external b ≡ ok c
        → IsAppended rng block external b c
    append-IsAppended rng block external b c h =
        elim (Option-cases (get_next_secret b.container.proof)) [
          | inl none_left ↦ absurd (let e = append-sealed rng block external b none_left in cc)
          | inr (secret, has) ↦ append-secret rng block external b c secret has h
        ]

    -- What a signed block has to do with the block before it and with the private key behind it.
    pub record IsLinked (v : Verifier) (last s : SignedBlock)
        (external : Option ProtoExternalSignature) (priv : Bytes) : Type 0 where
      pub verifier : Verifier
      pub signer : Signer
      pub next : NextVerifier lib s verifier
      pub signs : new_signer_from_pb lib (get_algorithm s.next_key) priv ≡ ok signer
      pub match : matches lib verifier signer ≡ ok tt
      pub version : s.version ≡ some 1
      pub same : s.external_signature ≡ external
      pub signed : verify lib v (block_payload last.signature s 1) s.signature ≡ ok tt

    sign_block-IsLinked :
        IsSound lib
        → (v : Verifier) (rng : Bytes) (signer : Signer) (last : SignedBlock) (block : Block)
          (external : Option ProtoExternalSignature) (s : SignedBlock) (priv : Bytes)
        → matches lib v signer ≡ ok tt
        → sign_block lib digest marshal rng signer last block external ≡ ok (s, priv)
        → IsLinked v last s external priv
    unfolding sign_block block_payload
    sign_block-IsLinked sound v rng signer last block external s priv m h =
        let alg = get_algorithm last.next_key in
        let ((p, q), generated, h1) = ok->>= (generate_next lib alg rng) _ _ h in
        let (proto, converted, h2) = ok->>= (block_to_proto block) _ _ h1 in
        let (raw, marshalled, h3) = ok->>= (marshal proto) _ _ h2 in
        let (signature, signed, h4) =
          ok->>=
            (sign lib signer
              (block_signature_payload_v1 alg raw p (get_signature external) last.signature 1))
            _ _ h3 in
        let pair = generate_next-IsPair lib sound alg rng p q generated in
        let (es, eq) = ok-pair h4 in
        subst (λ t. IsLinked v last t external priv) es
          (record {
            verifier = pair.verifier;
            signer = pair.signer;
            next = pair.verifies;
            signs = subst (λ k. new_signer_from_pb lib alg k ≡ ok pair.signer) eq pair.signs;
            match = pair.match;
            version = refl;
            same = refl;
            signed =
                verify-sign lib sound v signer
                  (block_signature_payload_v1 alg raw p (get_signature external) last.signature 1)
                  signature m signed;
          })

    with_block-IsConsistent :
        (b : Biscuit) (block : Block) (s : SignedBlock) (priv : Bytes)
        → IsConsistent b
        → IsConsistent (with_block lib digest marshal b block s priv)
    unfolding with_block
    with_block-IsConsistent b block s priv h =
        omega
          (arith, length-append (b.blocks) (block ∷ []), length-append b.container.blocks (s ∷ []))

    with_block-proved :
        (v : Verifier) (last s : SignedBlock) (b : Biscuit) (block : Block)
        (external : Option ProtoExternalSignature) (priv : Bytes)
        → IsConsistent b
        → (l : IsLinked v last s external priv)
        → verify_proof lib l.verifier (with_block lib digest marshal b block s priv) ≡ ok tt
    unfolding verify_proof with_block get_next_secret
    with_block-proved v last s b block external priv h l =
        let c = with_block lib digest marshal b block s priv in
        let end : last_block c ≡ ok s =
          last_block-final c (with_block-IsConsistent b block s priv h)
          ∙ ap ok (final-snoc b.container.authority s b.container.blocks) in
        rw (end, l.signs, l.match) refl

    with_block-IsVerified :
        (root : RootPublicKey) (b : Biscuit) (block : Block) (s : SignedBlock)
        (external : Option ProtoExternalSignature) (priv : Bytes)
        → IsConsistent b
        → (i : IsVerified lib root b)
        → IsLinked i.last (final b.container.authority b.container.blocks) s external priv
        → check_external lib (final b.container.authority b.container.blocks).signature s 1 ≡ ok tt
        → IsVerified lib root (with_block lib digest marshal b block s priv)
    unfolding with_block get_block_signature_version
    with_block-IsVerified root b block s external priv h i l e = record {
      root_verifier = i.root_verifier;
      version = i.version;
      payload = i.payload;
      root_known = i.root_known;
      supported = i.supported;
      covered = i.covered;
      signed = i.signed;
      first = i.first;
      last = l.verifier;
      first_next = i.first_next;
      chain =
          IsChain-snoc lib i.first i.last l.verifier b.container.authority.signature
            b.container.blocks b.container.authority s i.chain refl
            (checked-IsSigned lib i.last (final b.container.authority b.container.blocks).signature
              s 1 (rw (l.version) refl) l.signed e)
            l.next;
      proved = verify_proof-HasProof lib l.verifier (with_block lib digest marshal b block s priv) (
          with_block-proved i.last (final b.container.authority b.container.blocks) s b block
            external priv h l);
    }

    -- A verified token with as many blocks as signed blocks, to which `append` adds a block of its
    -- holder, gives a token that verifies under the same root key, and that has as many of each
    -- again.
    pub authorizer_for-append :
        IsSound lib
        → (root : RootPublicKey) (rng : Bytes) (block : Block) (b c : Biscuit) → IsConsistent b
        → authorizer_for lib root b ≡ ok tt
        → append lib digest marshal rng block none b ≡ ok c
        → (authorizer_for lib root c ≡ ok tt) × IsConsistent c
    authorizer_for-append sound root rng block b c h v a =
        let i = (authorizer_for_iff lib root b).0 v in
        let d = append-IsAppended rng block none b c a in
        let m =
          secret_matches i.last b d.secret d.last d.signer d.has_secret d.has_last d.has_signer
            (HasProof-verify_proof lib i.last b i.proved) in
        let l =
          sign_block-IsLinked sound i.last rng d.signer d.last block none d.signed d.priv m
            d.signs in
        let same : d.last ≡ final b.container.authority b.container.blocks =
          ok-same (sym d.has_last ∙ last_block-final b h) in
        let l' = subst (λ t. IsLinked i.last t d.signed none d.priv) same l in
        let e : check_external lib (final b.container.authority b.container.blocks).signature
              d.signed 1
            ≡ ok tt =
          no_external (final b.container.authority b.container.blocks).signature d.signed l.same in
        (
          (authorizer_for_iff lib root c).1 (
              subst (IsVerified lib root) d.result
                (with_block-IsVerified root b block d.signed none d.priv h i l' e)),
          subst IsConsistent d.result (with_block-IsConsistent b block d.signed d.priv h),
        )
