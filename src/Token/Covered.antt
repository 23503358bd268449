-- ===== src/Token/Covered.antt =====
-- biscuit.go: what the signatures of a token cover, written as named sections.
use mathlib.Core.List.{append-nil, append_assoc}
use biscuit_go.Prelude.{
  ℕ, ◌≡◌, refl, sym, ap, ◌∙◌, subst, ◌⊎◌, inl, inr, Option, none, some, List, [], ◌∷◌, ◌++◌, Bytes,
  codes, little_endian, ok, ok->>=, ok-same, ◌==◌, Bool-cases, Option-cases, arith,
}
use biscuit_go.Conversion.Schema.{ProtoExternalSignature}
use biscuit_go.Crypto.{Done, Library, Verifier, verify, new_verifier_from_pb}
use biscuit_go.Token.{SignedBlock, get_algorithm, get_key, get_signature}
use biscuit_go.Block.{get_block_signature_version}
use biscuit_go.Token.Payload.{
  external_part, block_signature_payload_v0, authority_block_signature_payload_v1,
  block_signature_payload_v1, external_signature_payload_v1,
}
use biscuit_go.Token.Verify.{
  authority_payload, block_payload, check_external, verify_external_signature,
}

-- A section is its name between two zero bytes, and its contents.
abbrev pub sections : List (Bytes × Bytes) → Bytes
sections [] = []
sections ((name, contents) ∷ rest) = (0 ∷ name) ++ (0 ∷ (contents ++ sections rest))

-- The sections of version 1 that every block has.
abbrev pub own_sections : SignedBlock → List (Bytes × Bytes)
own_sections s =
    (codes "BLOCK", [])
    ∷ (codes "VERSION", little_endian 4 1)
    ∷ (codes "PAYLOAD", s.block)
    ∷ (codes "ALGORITHM", little_endian 4 (get_algorithm s.next_key))
    ∷ (codes "NEXTKEY", get_key s.next_key)
    ∷ []

-- The section for an external signature, if there is one.
abbrev pub external_section : Option Bytes → List (Bytes × Bytes)
external_section none = []
external_section (some signature) = (codes "EXTERNALSIG", signature) ∷ []

-- In version 0 a signature covers the block and its next key only.
abbrev pub covered_v0 : SignedBlock → Bytes
covered_v0 s = s.block ++ (little_endian 4 (get_algorithm s.next_key) ++ get_key s.next_key)

-- What the signature of the authority block covers, by its version.
pub data CoveredAuthority (s : SignedBlock) : ℕ → Bytes → Type 0 where
  authority_v0 : CoveredAuthority s 0 (covered_v0 s)
  authority_v1 : CoveredAuthority s 1 (sections (own_sections s))

-- What the signature of a later block covers: in version 1 also the signature before it, and its
-- external signature.
pub data CoveredBlock (previous : Bytes) (s : SignedBlock) : ℕ → Bytes → Type 0 where
  block_v0 : CoveredBlock previous s 0 (covered_v0 s)
  block_v1 : CoveredBlock previous s 1 (
      sections (
        own_sections s
        ++ ((codes "PREVSIG", previous) ∷ external_section (get_signature s.external_signature))))

-- What an external signature covers.
abbrev pub covered_external : Bytes → SignedBlock → Bytes
covered_external previous s = sections (
    (codes "EXTERNAL", [])
    ∷ (codes "VERSION", little_endian 4 1)
    ∷ (codes "PAYLOAD", s.block)
    ∷ (codes "PREVSIG", previous)
    ∷ [])

-- The sections of version 1, put together piece by piece.
authority-sections :
    (s : SignedBlock)
    → authority_block_signature_payload_v1 (get_algorithm s.next_key) s.block (get_key s.next_key) 1
      ≡ sections (own_sections s)
unfolding authority_block_signature_payload_v1
authority-sections s = simp (append_assoc, append-nil) refl

block-sections :
    (previous : Bytes) (s : SignedBlock) (external : Option Bytes)
    → block_signature_payload_v1
        (get_algorithm s.next_key)
        s.block
        (get_key s.next_key)
        external
        previous
        1
      ≡ sections (own_sections s ++ ((codes "PREVSIG", previous) ∷ external_section external))
unfolding block_signature_payload_v1 external_part
block-sections previous s none = simp (append_assoc, append-nil) refl
block-sections previous s (some x) = simp (append_assoc, append-nil) refl

pub external-sections :
    (previous : Bytes) (s : SignedBlock)
    → external_signature_payload_v1 s.block previous 1 ≡ covered_external previous s
unfolding external_signature_payload_v1
external-sections previous s = simp (append_assoc, append-nil) refl

pub authority_payload-Covered :
    (s : SignedBlock) (version : ℕ)
    → (version ≡ 0) ⊎ (version ≡ 1)
    → CoveredAuthority s version (authority_payload s version)
unfolding authority_payload block_signature_payload_v0
authority_payload-Covered s version (inl e) = rw e authority_v0
authority_payload-Covered s version (inr e) =
    rw e (subst (CoveredAuthority s 1) (sym (authority-sections s)) authority_v1)

pub block_payload-Covered :
    (previous : Bytes) (s : SignedBlock) (version : ℕ)
    → (version ≡ 0) ⊎ (version ≡ 1)
    → CoveredBlock previous s version (block_payload previous s version)
unfolding block_payload block_signature_payload_v0
block_payload-Covered previous s version (inl e) = rw e block_v0
block_payload-Covered previous s version (inr e) = rw e (
    subst (CoveredBlock previous s 1)
      (sym (block-sections previous s (get_signature s.external_signature))) block_v1)

-- A relation gives only one payload, that of the code.
pub authority_payload_unique :
    (s : SignedBlock) (version : ℕ) (payload : Bytes)
    → CoveredAuthority s version payload
    → payload ≡ authority_payload s version
unfolding authority_payload block_signature_payload_v0
authority_payload_unique s _ _ authority_v0 = refl
authority_payload_unique s _ _ authority_v1 = sym (authority-sections s)

pub block_payload_unique :
    (previous : Bytes) (s : SignedBlock) (version : ℕ) (payload : Bytes)
    → CoveredBlock previous s version payload
    → payload ≡ block_payload previous s version
unfolding block_payload block_signature_payload_v0
block_payload_unique previous s _ _ block_v0 = refl
block_payload_unique previous s _ _ block_v1 =
    sym (block-sections previous s (get_signature s.external_signature))

-- The versions that are supported are 0 and 1.
pub get_block_signature_version-0_or_1 :
    (declared : Option ℕ) (version : ℕ)
    → get_block_signature_version declared ≡ ok version
    → (version ≡ 0) ⊎ (version ≡ 1)
unfolding get_block_signature_version
get_block_signature_version-0_or_1 none version h = inl (sym (ok-same h))
get_block_signature_version-0_or_1 (some v) version h = ground arith

module _ (lib : Library) where
  -- A block has no external signature, or one in version 1 that its own key verifies over the block
  -- and the signature before it.
  pub data HasExternal (previous : Bytes) (s : SignedBlock) (version : ℕ) : Type 0 where
    not_external : get_signature s.external_signature ≡ none → HasExternal previous s version
    external_verified :
        (e : ProtoExternalSignature) (signature : Bytes) (v : Verifier)
        → s.external_signature ≡ some e
        → e.signature ≡ some signature
        → version ≡ 1
        → new_verifier_from_pb lib (get_algorithm e.public_key) (get_key e.public_key) ≡ ok v
        → verify lib v (covered_external previous s) signature ≡ ok tt
        → HasExternal previous s version

  first_external :
      (previous : Bytes) (s : SignedBlock) (e : ProtoExternalSignature) (signature : Bytes)
      → s.external_signature ≡ some e
      → e.signature ≡ some signature
      → verify_external_signature lib s.block previous (some e) 1 ≡ ok tt
      → HasExternal previous s 1
  unfolding verify_external_signature
  first_external previous s e signature has signed h =
      let (v, known, verified) = ok->>= _ _ _ (rw (verify_external_signature, signed) at h) in
      external_verified e signature v has signed refl known
        (subst (λ p. verify lib v p signature ≡ ok tt) (external-sections previous s) verified)

  verified_external :
      (previous : Bytes) (s : SignedBlock) (version : ℕ) (e : ProtoExternalSignature)
      (signature : Bytes)
      → s.external_signature ≡ some e
      → e.signature ≡ some signature
      → verify_external_signature lib s.block previous (some e) version ≡ ok tt
      → HasExternal previous s version
  unfolding verify_external_signature
  verified_external previous s version e signature has signed h = elim (Bool-cases (version == 1)) [
    | inr other ↦ absurd (let h1 = rw (other, verify_external_signature) at h in cc)
    | inl first ↦
        let one : version ≡ 1 = ground (arith, first) in
        subst (HasExternal previous s) (sym one) (
          first_external previous s e signature has signed
            (subst (λ n. verify_external_signature lib s.block previous (some e) n ≡ ok tt) one h))
  ]

  check_external-verify_external_signature :
      (previous : Bytes) (s : SignedBlock) (version : ℕ) (e : ProtoExternalSignature)
      (signature : Bytes)
      → s.external_signature ≡ some e
      → e.signature ≡ some signature
      → check_external lib previous s version
        ≡ verify_external_signature lib s.block previous (some e) version
  unfolding check_external get_signature
  check_external-verify_external_signature previous s version e signature has signed =
      ap
        (λ x. (elim (get_signature x) as (λ _. Done) [
          | none ↦ ok tt
          | some sig ↦ verify_external_signature lib s.block previous x version
        ]))
        has
      ∙ ap
          (λ y. (elim y as (λ _. Done) [
            | none ↦ ok tt
            | some sig ↦ verify_external_signature lib s.block previous (some e) version
          ]))
          signed

  pub check_external-HasExternal :
      (previous : Bytes) (s : SignedBlock) (version : ℕ)
      → check_external lib previous s version ≡ ok tt
      → HasExternal previous s version
  unfolding get_signature check_external
  check_external-HasExternal previous s version h = elim (Option-cases s.external_signature) [
    | inl absent ↦ not_external (ap get_signature absent)
    | inr (e, has) ↦ elim (Option-cases e.signature) [
      | inl unsigned ↦ not_external (ap get_signature has ∙ unsigned)
      | inr (signature, signed) ↦ verified_external previous s version e signature has signed (
          sym (check_external-verify_external_signature previous s version e signature has signed)
          ∙ h)
    ]
  ]

  pub HasExternal-check_external :
      (previous : Bytes) (s : SignedBlock) (version : ℕ)
      → HasExternal previous s version
      → check_external lib previous s version ≡ ok tt
  unfolding check_external verify_external_signature
  HasExternal-check_external previous s version (not_external unsigned) =
      rw (unsigned, check_external) refl
  HasExternal-check_external previous s version
        (external_verified e signature v has signed one known verified) =
      let over_payload =
        subst (λ p. verify lib v p signature ≡ ok tt) (sym (external-sections previous s))
          verified in
      let first : verify_external_signature lib s.block previous (some e) 1 ≡ ok tt =
        rw (verify_external_signature, signed, known, over_payload) refl in
      check_external-verify_external_signature previous s version e signature has signed
      ∙ ap (verify_external_signature lib s.block previous (some e)) one
      ∙ first
