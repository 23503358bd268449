-- ===== src/Token/Proved.antt =====
-- biscuit.go: what `authorizerFor` has checked of the proof of a token.
use mathlib.Core.List.{append_assoc}
use biscuit_go.Prelude.{
  ◌≡◌, ◌≢◌, refl, sym, ap, ◌∙◌, subst, ◌⊎◌, inl, inr, none, some, ◌++◌, Bytes, ok, err, Error,
  ok->>=, ok-same, Option-cases, ◌>>=◌,
}
use biscuit_go.Conversion.Schema.{ProtoPublicKey}
use biscuit_go.Crypto.{Done, Library, Verifier, Signer, verify, matches, new_signer_from_pb}
use biscuit_go.Token.{
  Proof, next_secret, final_signature, no_proof, SignedBlock, Biscuit, get_algorithm, get_key,
  get_next_secret, get_final_signature, last_block,
}
use biscuit_go.Token.Payload.{sealed_block_signature_payload}
use biscuit_go.Token.Covered.{covered_v0}
use biscuit_go.Token.Verify.{verify_proof, sealed_payload}

proof_cases :
    (p : Proof)
    → ((secret : Bytes) × (p ≡ next_secret (some secret)))
      ⊎ (((signature : Bytes) × (p ≡ final_signature (some signature)))
          ⊎ ((p ≡ next_secret none) ⊎ ((p ≡ final_signature none) ⊎ (p ≡ no_proof))))
proof_cases (next_secret none) = inr (inr (inl refl))
proof_cases (next_secret (some k)) = inl (k, refl)
proof_cases (final_signature none) = inr (inr (inr (inl refl)))
proof_cases (final_signature (some s)) = inr (inl (s, refl))
proof_cases no_proof = inr (inr (inr (inr refl)))

sealed_payload-covered :
    (s : SignedBlock) (key : ProtoPublicKey)
    → s.next_key ≡ some key
    → sealed_payload s ≡ ok (covered_v0 s ++ s.signature)
unfolding sealed_payload sealed_block_signature_payload get_algorithm get_key
sealed_payload-covered s key h = rw (h, sealed_payload) (simp (append_assoc) refl)

sealed_payload-ok :
    (s : SignedBlock) (payload : Bytes)
    → sealed_payload s ≡ ok payload
    → (key : ProtoPublicKey) × (s.next_key ≡ some key)
unfolding sealed_payload
sealed_payload-ok s payload h = elim (Option-cases s.next_key) [
  | inl absent ↦ absurd (let h1 = rw (absent, sealed_payload) at h in cc)
  | inr (key, has) ↦ (key, has)
]

refused : (r : Done) → r ≡ err Error.missing_proof → r ≢ ok tt
refused r e h = cc

module _ (lib : Library) (v : Verifier) (b : Biscuit) where
  -- The token is open, and its private key is that of the key that the last block names, or it is
  -- sealed, by a signature over the last block, its next key and its signature.
  pub data HasProof : Type 0 where
    proof_open :
        (last : SignedBlock) (secret : Bytes) (signer : Signer)
        → last_block b ≡ ok last
        → b.container.proof ≡ next_secret (some secret)
        → new_signer_from_pb lib (get_algorithm last.next_key) secret ≡ ok signer
        → matches lib v signer ≡ ok tt
        → HasProof
    proof_sealed :
        (last : SignedBlock) (signature : Bytes) (key : ProtoPublicKey)
        → last_block b ≡ ok last
        → b.container.proof ≡ final_signature (some signature)
        → last.next_key ≡ some key
        → verify lib v (covered_v0 last ++ last.signature) signature ≡ ok tt
        → HasProof

  -- What verifies a token with a given proof.
  abbrev verified_by : Proof → Done
  verified_by p = elim (get_next_secret p) [
    | some secret ↦ do
      s ← last_block b
      signer ← new_signer_from_pb lib (get_algorithm s.next_key) secret
      matches lib v signer
    | none ↦ elim (get_final_signature p) [
      | some signature ↦ do
        s ← last_block b
        payload ← sealed_payload s
        verify lib v payload signature
      | none ↦ err Error.missing_proof
    ]
  ]

  verify_proof-verified_by :
      (p : Proof) → b.container.proof ≡ p → verify_proof lib v b ≡ verified_by p
  unfolding verify_proof
  verify_proof-verified_by p h = ap verified_by h

  pub verify_proof-HasProof : verify_proof lib v b ≡ ok tt → HasProof
  unfolding get_next_secret get_final_signature
  verify_proof-HasProof h = elim (proof_cases b.container.proof) [
    | inl (secret, is_open) ↦
        let (last, found, h1) =
          ok->>= (last_block b) _ _ (sym (verify_proof-verified_by _ is_open) ∙ h) in
        let (signer, read, matched) = ok->>= _ _ _ h1 in
        proof_open last secret signer found is_open read matched
    | inr (inl (signature, is_sealed)) ↦
        let (last, found, h1) =
          ok->>= (last_block b) _ _ (sym (verify_proof-verified_by _ is_sealed) ∙ h) in
        let (payload, covers, verified) = ok->>= (sealed_payload last) _ _ h1 in
        let (key, named) = sealed_payload-ok last payload covers in
        let same : payload ≡ covered_v0 last ++ last.signature =
          ok-same (sym covers ∙ sealed_payload-covered last key named) in
        proof_sealed last signature key found is_sealed named
          (subst (λ p. verify lib v p signature ≡ ok tt) same verified)
    | inr (inr (inl missing)) ↦
        absurd (refused _ refl (sym (verify_proof-verified_by _ missing) ∙ h))
    | inr (inr (inr (inl missing))) ↦
        absurd (refused _ refl (sym (verify_proof-verified_by _ missing) ∙ h))
    | inr (inr (inr (inr missing))) ↦
        absurd (refused _ refl (sym (verify_proof-verified_by _ missing) ∙ h))
  ]

  pub HasProof-verify_proof : HasProof → verify_proof lib v b ≡ ok tt
  unfolding get_next_secret get_final_signature
  HasProof-verify_proof (proof_open last secret signer found is_open read matched) =
      verify_proof-verified_by (next_secret (some secret)) is_open
      ∙ (rw (found, read, matched) refl)
  HasProof-verify_proof (proof_sealed last signature key found is_sealed named verified) =
      verify_proof-verified_by (final_signature (some signature)) is_sealed
      ∙ (rw (found, sealed_payload-covered last key named, verified) refl)
