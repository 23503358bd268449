-- ===== src/Token/Requested.antt =====
-- third_party.go: blocks that a third party signs for a token.
use biscuit_go.Prelude.{
  ℕ, some, List, [], ◌∷◌, ◌≡◌, refl, sym, subst, ap, ◌∙◌, Bytes, Run, ok, ok->>=, arith, inl, inr,
  Option-cases, bytes_eq_refl, ok-same,
}
use biscuit_go.Conversion.Schema.{ProtoBlock}
use biscuit_go.Conversion.Blocks.{block_to_proto}
use biscuit_go.Crypto.{
  Library, RootSigner, Signer, ed25519_signer, secp256r1_signer, Verifier, ed25519_verifier,
  secp256r1_verifier, new_signer, sign, verify, matches, public_key_proto, new_verifier_from_pb,
}
use biscuit_go.Crypto.Pairs.{IsSound, verify-sign}
use biscuit_go.Builder.{BlockBuilder, build}
use biscuit_go.Token.{SignedBlock, Biscuit, get_algorithm, get_key, get_next_secret, last_block}
use biscuit_go.Token.Payload.{external_signature_payload_v1}
use biscuit_go.Token.Verify.{verify_external_signature}
use biscuit_go.Token.ThirdParty.{
  ThirdPartyBlockContents, last_container_signature, third_party_block_request, sign_request,
}
use biscuit_go.Token.Chain.{final, IsConsistent, last_block-final}

last_container_signature-final :
    (a : SignedBlock) (ss : List SignedBlock)
    → last_container_signature a.signature ss ≡ (final a ss).signature
unfolding last_container_signature
last_container_signature-final a [] = refl
last_container_signature-final a (s ∷ ss) = last_container_signature-final s ss

request-final :
    (b : Biscuit) (request : Bytes)
    → third_party_block_request b ≡ ok request
    → request ≡ (final b.container.authority b.container.blocks).signature
unfolding third_party_block_request
request-final b request h = elim (Option-cases (get_next_secret b.container.proof)) [
  | inl none_left ↦ absurd (let h1 = rw (none_left, third_party_block_request) at h in cc)
  | inr (secret, has) ↦
      let h1 = rw (has, third_party_block_request) at h in
      sym (ok-same h1) ∙ last_container_signature-final b.container.authority b.container.blocks
]

module _ (lib : Library) (sound : IsSound lib) where
  -- A signer that signs has a public key that is decoded to a verifier that it matches.
  own_key :
      (s : Signer) (m sig : Bytes)
      → sign lib s m ≡ ok sig
      → (v : Verifier) × (new_verifier_from_pb lib
            (public_key_proto lib s).algorithm
            (public_key_proto lib s).key
          ≡ ok v)
        × (verify lib v m sig ≡ ok tt)
  unfolding sign new_verifier_from_pb public_key_proto matches
  own_key (ed25519_signer k) m sig h =
      let v = ed25519_verifier (lib.ed25519_public k) in
      (
        v,
        ground (arith, sound.ed25519_public_length k),
        verify-sign lib sound v (ed25519_signer k) m sig
            (ground (arith, bytes_eq_refl (lib.ed25519_public k))) h,
      )
  own_key (secp256r1_signer d) m sig h =
      let v = secp256r1_verifier (lib.ecdsa_public d) in
      (
        v,
        rw (sound.uncompresses d) refl,
        verify-sign lib sound v (secp256r1_signer d) m sig (ground arith) h,
      )

  external_verifies :
      (s : Signer) (payload previous sig : Bytes)
      → sign lib s (external_signature_payload_v1 payload previous 1) ≡ ok sig
      → verify_external_signature lib payload previous
          (some (record { signature = some sig; public_key = some (public_key_proto lib s) }))
          1
        ≡ ok tt
  unfolding verify_external_signature get_algorithm get_key
  external_verifies s payload previous sig h =
      let (v, decoded, verified) =
        own_key s (external_signature_payload_v1 payload previous 1) sig h in
      rw (decoded, verified) refl

  -- What a third party signs for the request of a token passes the check that the token makes when
  -- the contents are appended to it: its external signature verifies, over its payload and the
  -- signature of the token's last block.
  pub verify_external_signature-sign_request :
      (digest : Bytes → ℕ) (marshal : ProtoBlock → Run Bytes) (root : RootSigner)
      (builder : BlockBuilder) (b : Biscuit) (last : SignedBlock) (request : Bytes)
      (c : ThirdPartyBlockContents)
      → IsConsistent b
      → last_block b ≡ ok last
      → third_party_block_request b ≡ ok request
      → sign_request lib digest marshal root builder request ≡ ok c
      → verify_external_signature lib c.payload last.signature c.external_signature 1 ≡ ok tt
  unfolding sign_request
  verify_external_signature-sign_request digest marshal root builder b last request c h l r e =
      let (signer, made, e1) = ok->>= (new_signer root) _ _ e in
      let (block, built, e2) = ok->>= (build digest builder [] []) _ _ e1 in
      let (proto, converted, e3) = ok->>= (block_to_proto block) _ _ e2 in
      let (payload, marshalled, e4) = ok->>= (marshal proto) _ _ e3 in
      let (signature, signs, e5) =
        ok->>= (sign lib signer (external_signature_payload_v1 payload request 1)) _ _ e4 in
      let same : request ≡ last.signature =
        request-final b request r
        ∙ ap (λ s. s.signature) (ok-same (sym (last_block-final b h) ∙ l)) in
      subst
        (λ d. verify_external_signature lib d.payload last.signature d.external_signature 1 ≡ ok tt)
        (ok-same e5)
        (subst
          (λ p.
            verify_external_signature lib payload p
              (some (record {
                signature = some signature;
                public_key = some (public_key_proto lib signer);
              }))
              1
            ≡ ok tt)
          same (external_verifies signer payload request signature signs))
