-- ===== src/Crypto/Pairs.antt =====
-- What signers and verifiers of one key pair owe each other (internal/crypto).
use biscuit_go.Prelude.{
  ℕ, ◌^◌, ◌<◌, ◌==◌, true, some, ◌≡◌, refl, ◌∙◌, Bytes, bytes_eq_refl, bytes_eq-eq, length,
  little_endian, ok, ok->>=, ◌>>=◌, ==_iff, arith, Bool-cases, inl, inr, lt→ltb, ok-pair,
}
use mathlib.Core.List.{reverse}
use biscuit_go.Crypto.{
  Library, Signer, ed25519_signer, secp256r1_signer, Verifier, ed25519_verifier, secp256r1_verifier,
  sign, verify, matches, new_signer_from_pb, new_verifier_from_pb, generate_next, fill_bytes,
  algorithm_ed25519, algorithm_secp256r1,
}

-- What the packages document: a signature verifies under the public key of the private key that made
-- it, and encoded keys are decoded to the keys that were generated.
pub record IsSound (lib : Library) : Type 0 where
  pub ed25519_verifies :
      (k m : Bytes) → lib.ed25519_verify (lib.ed25519_public k) m (lib.ed25519_sign k m) ≡ true
  pub ed25519_public_length : (k : Bytes) → length k ≡ 64 → length (lib.ed25519_public k) ≡ 32
  pub ed25519_generates :
      (rng p k : Bytes)
      → lib.ed25519_generate_key rng ≡ ok (p, k)
      → (lib.ed25519_public k ≡ p)
        × (length k ≡ 64)
        × (length (lib.ed25519_seed k) ≡ 32)
        × (lib.ed25519_new_key_from_seed (lib.ed25519_seed k) ≡ k)
  pub ecdsa_verifies :
      (d : ℕ) (h s : Bytes)
      → lib.ecdsa_sign d h ≡ ok s
      → lib.ecdsa_verify (lib.ecdsa_public d) h s ≡ true
  pub ecdsa_generates :
      (d : ℕ) (rng : Bytes)
      → lib.ecdsa_generate_key rng ≡ ok d
      → (d < 2 ^ 256) × (lib.ecdsa_parse_raw_private_key (reverse (little_endian 32 d)) ≡ ok d)
  pub uncompresses :
      (d : ℕ)
      → lib.unmarshal_compressed (lib.marshal_compressed (lib.ecdsa_public d))
        ≡ some (lib.ecdsa_public d)

module _ (lib : Library) (sound : IsSound lib) where
  -- A verifier that matches a signer accepts every signature that the signer makes.
  pub verify-sign :
      (v : Verifier) (s : Signer) (m sig : Bytes)
      → matches lib v s ≡ ok tt
      → sign lib s m ≡ ok sig
      → verify lib v m sig ≡ ok tt
  unfolding matches sign verify
  verify-sign (ed25519_verifier k) (ed25519_signer p) m sig h e = ground (
    arith,
    bytes_eq-eq k (lib.ed25519_public p),
    sound.ed25519_public_length p,
    sound.ed25519_verifies p m,
  )
  verify-sign (secp256r1_verifier k) (secp256r1_signer d) m sig h e =
      ground (arith, sound.ecdsa_verifies d (lib.sha256_sum m) sig)
  verify-sign (ed25519_verifier k) (secp256r1_signer d) m sig h e = cc
  verify-sign (secp256r1_verifier k) (ed25519_signer p) m sig h e = cc

  -- A generated key pair, as it is stored in a token: both keys can be decoded, and they match.
  pub record IsPair (algorithm : ℕ) (pub_key priv : Bytes) : Type 0 where
    pub signer : Signer
    pub verifier : Verifier
    pub signs : new_signer_from_pb lib algorithm priv ≡ ok signer
    pub verifies : new_verifier_from_pb lib algorithm pub_key ≡ ok verifier
    pub match : matches lib verifier signer ≡ ok tt

  ed25519-IsPair_of :
      (k p q : Bytes)
      → lib.ed25519_public k ≡ p
      → length k ≡ 64
      → length q ≡ 32
      → lib.ed25519_new_key_from_seed q ≡ k
      → IsPair algorithm_ed25519 p q
  unfolding new_signer_from_pb new_verifier_from_pb matches
  ed25519-IsPair_of k p q public long seed again = record {
    signer = ed25519_signer k;
    verifier = ed25519_verifier p;
    signs = ground arith;
    verifies = ground (arith, sound.ed25519_public_length k);
    match = ground (arith, bytes_eq_refl p);
  }

  ed25519-IsPair :
      (rng p q : Bytes)
      → generate_next lib algorithm_ed25519 rng ≡ ok (p, q)
      → IsPair algorithm_ed25519 p q
  unfolding generate_next
  ed25519-IsPair rng p q h =
      let ((p', k), made, rest) =
        ok->>= (lib.ed25519_generate_key rng) (λ (a, b). ok (a, lib.ed25519_seed b)) (p, q) h in
      let (public, long, seed, again) = sound.ed25519_generates rng p' k made in
      let (ep, eq) = ok-pair rest in
      ed25519-IsPair_of k p q (public ∙ ep) long (rw (← eq) seed) (rw (← eq) again)

  secp256r1-IsPair_of :
      (d : ℕ) (p q : Bytes)
      → lib.marshal_compressed (lib.ecdsa_public d) ≡ p
      → lib.ecdsa_parse_raw_private_key q ≡ ok d
      → IsPair algorithm_secp256r1 p q
  unfolding new_signer_from_pb new_verifier_from_pb matches
  secp256r1-IsPair_of d p q marshalled parsed = record {
    signer = secp256r1_signer d;
    verifier = secp256r1_verifier (lib.ecdsa_public d);
    signs = rw parsed refl;
    verifies = rw (← marshalled, sound.uncompresses d) refl;
    match = ground arith;
  }

  secp256r1-IsPair :
      (rng p q : Bytes)
      → generate_next lib algorithm_secp256r1 rng ≡ ok (p, q)
      → IsPair algorithm_secp256r1 p q
  unfolding generate_next fill_bytes
  secp256r1-IsPair rng p q h =
      let (d, made, rest) =
        ok->>= (lib.ecdsa_generate_key rng)
          (λ e. fill_bytes e >>= λ raw. ok (lib.marshal_compressed (lib.ecdsa_public e), raw))
          (p, q) h in
      let (small, parsed) = sound.ecdsa_generates d rng made in
      let (ep, eq) = ok-pair (rw (lt→ltb d (2 ^ 256) small) at rest) in
      secp256r1-IsPair_of d p q ep (rw (← eq) parsed)

  -- A key pair that the generator of an algorithm gives is a pair of that algorithm: both keys can
  -- be decoded, to a signer and to a verifier that match.
  pub generate_next-IsPair :
      (algorithm : ℕ) (rng p q : Bytes)
      → generate_next lib algorithm rng ≡ ok (p, q)
      → IsPair algorithm p q
  generate_next-IsPair algorithm rng p q h = elim (Bool-cases (algorithm == algorithm_ed25519)) [
    | inl e ↦
        let same = (==_iff algorithm algorithm_ed25519).0 e in
        rw same (ed25519-IsPair rng p q (rw same at h))
    | inr n ↦ elim (Bool-cases (algorithm == algorithm_secp256r1)) [
      | inl e ↦
          let same = (==_iff algorithm algorithm_secp256r1).0 e in
          rw same (secp256r1-IsPair rng p q (rw same at h))
      | inr m ↦ absurd (unfold generate_next in ground arith)
    ]
  ]
