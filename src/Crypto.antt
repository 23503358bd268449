-- ===== src/Crypto.antt =====
-- internal/crypto/crypto.go, ed25519.go and secp256r1.go: signers, verifiers and key generators of the
-- two algorithms. What they call of the standard library is a record of functions.
pub mod Pairs
use biscuit_go.Prelude.{
  ℕ, ◌^◌, ◌==◌, ◌&&◌, Bool, true, false, not, Option, none, some, List, [], ◌∷◌, Bytes, bytes_eq,
  length, little_endian, ltb, if◌then◌else◌, Run, ok, err, panic, Error, ◌>>=◌,
}
use mathlib.Core.List.{reverse}
use biscuit_go.Conversion.Schema.{ProtoPublicKey}

-- Packages `crypto/ed25519`, `crypto/ecdsa`, `crypto/elliptic` and `crypto/sha256`. A private key of
-- ECDSA is its number, a public key its two coordinates. A generator is given the bytes that it
-- reads of its source of randomness.
pub record Library : Type 0 where
  pub ed25519_new_key_from_seed : Bytes → Bytes
  pub ed25519_public : Bytes → Bytes
  pub ed25519_seed : Bytes → Bytes
  pub ed25519_sign : Bytes → Bytes → Bytes
  pub ed25519_verify : Bytes → Bytes → Bytes → Bool
  pub ed25519_generate_key : Bytes → Run (Bytes × Bytes)
  pub sha256_sum : Bytes → Bytes
  pub ecdsa_public : ℕ → ℕ × ℕ
  pub ecdsa_sign : ℕ → Bytes → Run Bytes
  pub ecdsa_verify : ℕ × ℕ → Bytes → Bytes → Bool
  pub ecdsa_parse_raw_private_key : Bytes → Run ℕ
  pub ecdsa_generate_key : Bytes → Run ℕ
  pub marshal_compressed : ℕ × ℕ → Bytes
  pub unmarshal_compressed : Bytes → Option (ℕ × ℕ)

-- `pb.PublicKey_Algorithm`.
abbrev pub algorithm_ed25519 : ℕ
algorithm_ed25519 = 0

abbrev pub algorithm_secp256r1 : ℕ
algorithm_secp256r1 = 1

pub data Signer : Type 0 where
  ed25519_signer : Bytes → Signer
  secp256r1_signer : ℕ → Signer

pub data Verifier : Type 0 where
  ed25519_verifier : Bytes → Verifier
  secp256r1_verifier : ℕ × ℕ → Verifier

-- A `crypto.Signer`, and a `crypto.PublicKey`, that a caller supplies.
pub data RootSigner : Type 0 where
  ed25519_private_key : Bytes → RootSigner
  ecdsa_private_key : ℕ → RootSigner
  other_signer : RootSigner

pub data RootPublicKey : Type 0 where
  ed25519_public_key : Bytes → RootPublicKey
  ecdsa_public_key : Option (ℕ × ℕ) → RootPublicKey
  other_public_key : RootPublicKey

abbrev pub Done : Type 0
Done = Run (Unit {0})

-- `priv.D.FillBytes` into 32 bytes, big-endian.
unfoldable pub fill_bytes : ℕ → Run Bytes
fill_bytes d = if ltb d (2 ^ 256) then ok (reverse (little_endian 32 d)) else panic

unfoldable pub new_signer : RootSigner → Run Signer
new_signer (ed25519_private_key k) = ok (ed25519_signer k)
new_signer (ecdsa_private_key d) = ok (secp256r1_signer d)
new_signer other_signer = err Error.unsupported_algorithm

unfoldable pub new_sig_verifier : RootPublicKey → Run Verifier
new_sig_verifier (ed25519_public_key k) = ok (ed25519_verifier k)
new_sig_verifier (ecdsa_public_key none) = err Error.nil_public_key
new_sig_verifier (ecdsa_public_key (some k)) = ok (secp256r1_verifier k)
new_sig_verifier other_public_key = err Error.unsupported_algorithm

unfoldable pub algorithm_of : Signer → ℕ
algorithm_of (ed25519_signer k) = algorithm_ed25519
algorithm_of (secp256r1_signer d) = algorithm_secp256r1

module _ (lib : Library) where
  -- `Sign`. `ed25519.Sign` panics on a private key that has not 64 bytes.
  unfoldable pub sign : Signer → Bytes → Run Bytes
  sign (ed25519_signer k) payload =
      if length k == 64 then ok (lib.ed25519_sign k payload) else panic
  sign (secp256r1_signer d) payload = lib.ecdsa_sign d (lib.sha256_sum payload)

  -- `Verify`. `ed25519.Verify` panics on a public key that has not 32 bytes.
  unfoldable pub verify : Verifier → Bytes → Bytes → Done
  verify (ed25519_verifier k) payload signature =
      if length k == 32
      then (if lib.ed25519_verify k payload signature then ok tt else err Error.invalid_signature)
      else panic
  verify (secp256r1_verifier k) payload signature =
      if lib.ecdsa_verify k (lib.sha256_sum payload) signature
      then ok tt
      else err Error.invalid_signature

  unfoldable pub matches : Verifier → Signer → Done
  matches (ed25519_verifier k) (ed25519_signer p) =
      if bytes_eq k (lib.ed25519_public p) then ok tt else err Error.key_mismatch
  matches (secp256r1_verifier k) (secp256r1_signer d) =
      if ((lib.ecdsa_public d).0 == k.0) && ((lib.ecdsa_public d).1 == k.1)
      then ok tt
      else err Error.key_mismatch
  matches _ _ = err Error.key_mismatch

  unfoldable pub public_key_proto : Signer → ProtoPublicKey
  public_key_proto (ed25519_signer k) = record {
    algorithm = algorithm_ed25519;
    key = lib.ed25519_public k;
  }
  public_key_proto (secp256r1_signer d) = record {
    algorithm = algorithm_secp256r1;
    key = lib.marshal_compressed (lib.ecdsa_public d);
  }

  unfoldable pub new_signer_from_pb : ℕ → Bytes → Run Signer
  new_signer_from_pb algorithm raw =
      if algorithm == algorithm_ed25519
      then (if length raw == 32
          then ok (ed25519_signer (lib.ed25519_new_key_from_seed raw))
          else err Error.invalid_key_size)
      else if algorithm == algorithm_secp256r1
      then (do d ← lib.ecdsa_parse_raw_private_key raw; ok (secp256r1_signer d))
      else err Error.unsupported_algorithm

  unfoldable pub new_verifier_from_pb : ℕ → Bytes → Run Verifier
  new_verifier_from_pb algorithm raw =
      if algorithm == algorithm_ed25519
      then (if length raw == 32 then ok (ed25519_verifier raw) else err Error.invalid_key_size)
      else if algorithm == algorithm_secp256r1
      then elim (lib.unmarshal_compressed raw) [
        | none ↦ err Error.nil_public_key
        | some k ↦ ok (secp256r1_verifier k)
      ]
      else err Error.unsupported_algorithm

  -- `NewKeyGenerator` and `GenerateNext`: the public key and the private key.
  unfoldable pub generate_next : ℕ → Bytes → Run (Bytes × Bytes)
  unfolding fill_bytes
  generate_next algorithm rng =
      if algorithm == algorithm_ed25519
      then (do (pub_key, priv) ← lib.ed25519_generate_key rng; ok (pub_key, lib.ed25519_seed priv))
      else if algorithm == algorithm_secp256r1
      then (do
        d ← lib.ecdsa_generate_key rng
        raw ← fill_bytes d
        ok (lib.marshal_compressed (lib.ecdsa_public d), raw))
      else err Error.unsupported_algorithm
