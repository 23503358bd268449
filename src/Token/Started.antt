-- ===== src/Token/Started.antt =====
-- biscuit.go: new tokens verify under the public key of the key that has signed them.
use biscuit_go.Prelude.{
  ℕ, Option, none, some, [], ◌≡◌, refl, subst, Bytes, Run, ok, ok->>=, Bool-cases, inl, inr,
  ok-same,
}
use biscuit_go.Symbol.{SymbolTable, is_disjoint}
use biscuit_go.PublicKey.{PublicKeyTable}
use biscuit_go.Block.{Block, get_block_signature_version}
use biscuit_go.Conversion.Schema.{ProtoBlock}
use biscuit_go.Conversion.Blocks.{block_to_proto}
use biscuit_go.Crypto.{
  Library, RootSigner, RootPublicKey, Signer, Verifier, new_signer, new_sig_verifier, algorithm_of,
  generate_next, sign, verify, matches, new_signer_from_pb,
}
use biscuit_go.Crypto.Pairs.{IsSound, verify-sign, generate_next-IsPair}
use biscuit_go.Token.{SignedBlock, Biscuit, get_algorithm, get_key, get_next_secret, last_block}
use biscuit_go.Token.Payload.{authority_block_signature_payload_v1}
use biscuit_go.Token.Proved.{proof_open}
use biscuit_go.Token.Verify.{authority_payload, verify_proof, authorizer_for}
use biscuit_go.Token.Covered.{authority_payload-Covered}
use biscuit_go.Token.Build.{with_authority, new_biscuit}
use biscuit_go.Token.Chain.{IsConsistent, NextVerifier, IsVerified, chain_end, authorizer_for_iff}

module _ (lib : Library) (sound : IsSound lib) (digest : Bytes → ℕ)
    (marshal : ProtoBlock → Run Bytes) where
  with_authority-IsVerified :
      (root : RootPublicKey) (v : Verifier) (root_key_id : Option ℕ) (symbols : SymbolTable)
      (keys : PublicKeyTable) (authority : Block) (s : SignedBlock) (priv : Bytes) (next : Verifier)
      (signer : Signer)
      → new_sig_verifier root ≡ ok v
      → s.version ≡ some 1
      → verify lib v (authority_payload s 1) s.signature ≡ ok tt
      → NextVerifier lib s next
      → new_signer_from_pb lib (get_algorithm s.next_key) priv ≡ ok signer
      → matches lib next signer ≡ ok tt
      → IsVerified lib root
          (with_authority lib digest marshal root_key_id symbols keys authority s priv)
  unfolding with_authority verify_proof get_next_secret last_block get_block_signature_version
  with_authority-IsVerified root v root_key_id symbols keys authority s priv next signer known
        version signed named decoded match =
      record {
        root_verifier = v;
        version = 1;
        root_known = known;
        payload = authority_payload s 1;
        supported = rw version refl;
        covered = authority_payload-Covered s 1 (inr refl);
        signed = signed;
        first = next;
        last = next;
        first_next = named;
        chain = chain_end next s.signature;
        proved = proof_open s priv signer refl refl decoded match;
      }

  with_authority-blocks :
      (root_key_id : Option ℕ) (symbols : SymbolTable) (keys : PublicKeyTable) (authority : Block)
      (s : SignedBlock) (priv : Bytes)
      → ((with_authority lib digest marshal root_key_id symbols keys authority s
            priv).container.blocks
          ≡ [])
        × IsConsistent (with_authority lib digest marshal root_key_id symbols keys authority s priv)
  unfolding with_authority
  with_authority-blocks root_key_id symbols keys authority s priv = (refl, refl)

  signed_authority :
      (v : Verifier) (signer : Signer) (p raw signature : Bytes) (s : SignedBlock)
      → matches lib v signer ≡ ok tt
      → sign lib signer (authority_block_signature_payload_v1 (algorithm_of signer) raw p 1)
        ≡ ok signature
      → s ≡ record {
        block = raw;
        next_key = some (record { algorithm = algorithm_of signer; key = p });
        signature = signature;
        external_signature = none;
        version = some 1;
      }
      → verify lib v (authority_payload s 1) s.signature ≡ ok tt
  unfolding authority_payload get_algorithm get_key
  signed_authority v signer p raw signature s m signs e = rw e (
      verify-sign lib sound v signer
        (authority_block_signature_payload_v1 (algorithm_of signer) raw p 1) signature m signs)

  -- A new token verifies under every root key that matches the key that has signed it, and it has
  -- no block behind its authority block.
  pub authorizer_for-new_biscuit :
      (root : RootPublicKey) (v : Verifier) (private : RootSigner) (signer : Signer) (rng : Bytes)
      (root_key_id : Option ℕ) (symbols : SymbolTable) (keys : PublicKeyTable) (authority : Block)
      (b : Biscuit)
      → new_sig_verifier root ≡ ok v
      → new_signer private ≡ ok signer
      → matches lib v signer ≡ ok tt
      → new_biscuit lib digest marshal rng root_key_id private symbols keys authority ≡ ok b
      → (authorizer_for lib root b ≡ ok tt) × (b.container.blocks ≡ []) × IsConsistent b
  unfolding new_biscuit get_algorithm get_key
  authorizer_for-new_biscuit root v private signer rng root_key_id symbols keys authority b known
        made match h =
      elim (Bool-cases (is_disjoint symbols authority.symbols)) [
        | inr overlap ↦ absurd (let h1 = rw (overlap, new_biscuit) at h in cc)
        | inl disjoint ↦
            let h1 = rw (disjoint, new_biscuit, made) at h in
            let alg = algorithm_of signer in
            let ((p, q), generated, h2) = ok->>= (generate_next lib alg rng) _ _ h1 in
            let (proto, converted, h3) = ok->>= (block_to_proto authority) _ _ h2 in
            let (raw, marshalled, h4) = ok->>= (marshal proto) _ _ h3 in
            let (signature, signs, h5) =
              ok->>= (sign lib signer (authority_block_signature_payload_v1 alg raw p 1)) _ _ h4 in
            let pair = generate_next-IsPair lib sound alg rng p q generated in
            let s : SignedBlock = record {
              block = raw;
              next_key = some (record { algorithm = alg; key = p });
              signature = signature;
              external_signature = none;
              version = some 1;
            } in
            let i =
              with_authority-IsVerified root v root_key_id symbols keys authority s q pair.verifier
                pair.signer known refl
                (signed_authority v signer p raw signature s match signs refl) pair.verifies
                pair.signs pair.match in
            let built = with_authority lib digest marshal root_key_id symbols keys authority s q in
            let done : built ≡ b = ok-same h5 in
            subst
              (λ t.
                (authorizer_for lib root t ≡ ok tt) × (t.container.blocks ≡ []) × IsConsistent t)
              done
              (
                (authorizer_for_iff lib root built).1 i,
                (with_authority-blocks root_key_id symbols keys authority s q).0,
                (with_authority-blocks root_key_id symbols keys authority s q).1,
              )
      ]
