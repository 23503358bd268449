-- ===== src/Tests/Tokens.antt =====
-- The theorems of tokens, at a token with one block more than its authority block. The cryptography of
-- the tests is a toy that satisfies the laws that are asked for: a signature is the public key followed
-- by what is signed.
use biscuit_go.Prelude.{
  ℕ, suc, ◌+◌, ◌^◌, ◌==◌, Bool, true, false, Option, none, some, List, [], ◌∷◌, ◌++◌, ◌≡◌, refl,
  sym, subst, ap, ◌∙◌, ◌↔◌, Bytes, bytes_eq, bytes_eq_refl, length, length-take, take, replicate,
  Run, ok, err, Error, arith, codes, All, ok-same, ok-pair,
}
use biscuit_go.HashSet.{new_hash_set}
use biscuit_go.Origin.Block.{block_element}
use biscuit_go.Symbol.{SymbolTable}
use biscuit_go.Block.{Block}
use biscuit_go.Conversion.Schema.{ProtoBlock}
use biscuit_go.Crypto.{
  Library, RootSigner, RootPublicKey, ed25519_private_key, ed25519_public_key, ed25519_signer,
  ed25519_verifier, new_signer, new_sig_verifier, matches, generate_next,
}
use biscuit_go.Crypto.Pairs.{IsSound}
use biscuit_go.Builder.{new_block_builder}
use biscuit_go.Token.{
  SignedBlock, Container, Biscuit, next_secret, last_block, revocation_ids, block_count,
}
use biscuit_go.Token.Payload.{
  authority_block_signature_payload_v1, block_signature_payload_v1, sealed_block_signature_payload,
  external_signature_payload_v1,
}
use biscuit_go.Token.Verify.{
  authorizer_for, authorizer_for_source, with_root_public_keys, verify_external_signature,
}
use biscuit_go.Token.Extend.{with_block, append, with_proof, seal}
use biscuit_go.Token.Build.{with_authority, new_biscuit, unmarshal}
use biscuit_go.Token.ThirdParty.{ThirdPartyBlockContents, third_party_block_request, sign_request}
use biscuit_go.Token.Chain.{IsConsistent, IsVerified, authorizer_for_iff}
use biscuit_go.Token.Started.{authorizer_for-new_biscuit}
use biscuit_go.Token.Extended.{authorizer_for-append}
use biscuit_go.Token.Sealed.{
  authorizer_for-seal, revocation_ids-append, authorizer_for_source-append,
}
use biscuit_go.Token.Requested.{verify_external_signature-sign_request}
use biscuit_go.Token.Loading.{extend_all, unmarshal_symbols}

abbrev key32 : Bytes
key32 = replicate 32 7

abbrev key64 : Bytes
key64 = replicate 64 7

abbrev first_number : Bytes → Option (ℕ × ℕ)
first_number [] = none
first_number (x ∷ xs) = some (x, 0)

abbrev toy : Library
toy = record {
  ed25519_new_key_from_seed = λ s. s ++ s;
  ed25519_public = λ k. take 32 k;
  ed25519_seed = λ k. take 32 k;
  ed25519_sign = λ k m. take 32 k ++ m;
  ed25519_verify = λ p m s. bytes_eq s (p ++ m);
  ed25519_generate_key = λ rng. ok (key32, key64);
  sha256_sum = λ m. m;
  ecdsa_public = λ d. (d, 0);
  ecdsa_sign = λ d h. ok (d ∷ h);
  ecdsa_verify = λ k h s. bytes_eq s (k.0 ∷ h);
  ecdsa_parse_raw_private_key = λ raw. ok 9;
  ecdsa_generate_key = λ rng. ok 9;
  marshal_compressed = λ k. k.0 ∷ [];
  unmarshal_compressed = first_number;
}

toy_generates :
    (p k : Bytes)
    → ◌≡◌ {A = Run (Bytes × Bytes)} (ok (key32, key64)) (ok (p, k))
    → (take 32 k ≡ p) × (length k ≡ 64) × (length (take 32 k) ≡ 32) × (take 32 k ++ take 32 k ≡ k)
toy_generates p k h =
    let (ep, ek) = ok-pair h in
    (
      ap (take 32) (sym ek) ∙ ep,
      ap length (sym ek),
      ap (λ l. length (take 32 l)) (sym ek),
      ap (λ l. take 32 l ++ take 32 l) (sym ek) ∙ ek,
    )

toy_nine : (d : ℕ) → ◌≡◌ {A = Run ℕ} (ok 9) (ok d) → ◌≡◌ {A = Run ℕ} (ok 9) (ok d)
toy_nine d h = h

toy_signs : (d : ℕ) (h s : Bytes) → ok (d ∷ h) ≡ ok s → bytes_eq s (d ∷ h) ≡ true
toy_signs d h s e = subst (λ t. bytes_eq t (d ∷ h) ≡ true) (ok-same e) (bytes_eq_refl (d ∷ h))

toy-IsSound : IsSound toy
toy-IsSound = record {
  ed25519_verifies = λ k m. bytes_eq_refl (take 32 k ++ m);
  ed25519_public_length = λ k h. length-take 32 k (omega arith);
  ed25519_generates = λ rng p k h. toy_generates p k h;
  ecdsa_verifies = λ d h s e. toy_signs d h s e;
  ecdsa_generates = λ d rng h. let e : ◌≡◌ {A = ℕ} 9 d = ok-same h in (rw (← e) (omega arith), h);
  uncompresses = λ d. refl;
}

abbrev digest : Bytes → ℕ
digest = length

-- Every block has one encoding, which is parsed to a block of version 5.
abbrev marshal : ProtoBlock → Run Bytes
marshal p = ok (1 ∷ [])

abbrev parse : Bytes → Run ProtoBlock
parse raw = ok (record {
  symbols = codes "file" ∷ [];
  context = none;
  version = some 5;
  facts_v2 = [];
  rules_v2 = [];
  checks_v2 = [];
  scope = [];
  public_keys = [];
})

abbrev block_with : SymbolTable → Block
block_with symbols = record {
  symbols = symbols;
  public_keys = none;
  facts = [];
  scopes = [];
  rules = [];
  checks = [];
  context = [];
  version = 5;
  external_signature = none;
}

abbrev signed_authority : SignedBlock
signed_authority = record {
  block = 1 ∷ [];
  next_key = some (record { algorithm = 0; key = key32 });
  signature = key32 ++ authority_block_signature_payload_v1 0 (1 ∷ []) key32 1;
  external_signature = none;
  version = some 1;
}

abbrev token : Biscuit
token = with_authority toy digest marshal (some 3) [] [] (block_with []) signed_authority key32

made :
    new_biscuit toy digest marshal [] (some 3) (ed25519_private_key key64) [] [] (block_with [])
    ≡ ok token
unfolding new_biscuit generate_next biscuit_go.Prelude.map_run biscuit_go.Crypto.sign
made = refl

authorizer_for-new_biscuit_example :
    (authorizer_for toy (ed25519_public_key key32) token ≡ ok tt)
    × (token.container.blocks ≡ [])
    × IsConsistent token
unfolding new_sig_verifier new_signer matches bytes_eq
authorizer_for-new_biscuit_example =
    authorizer_for-new_biscuit toy toy-IsSound digest marshal (ed25519_public_key key32)
      (ed25519_verifier key32) (ed25519_private_key key64) (ed25519_signer key64) [] (some 3) [] []
      (block_with []) token refl refl refl made

verified : authorizer_for toy (ed25519_public_key key32) token ≡ ok tt
verified = authorizer_for-new_biscuit_example.0

-- The block that `append` signs, behind the authority block.
abbrev signed_block : SignedBlock
signed_block = record {
  block = 1 ∷ [];
  next_key = some (record { algorithm = 0; key = key32 });
  signature =
      key32 ++ block_signature_payload_v1 0 (1 ∷ []) key32 none signed_authority.signature 1;
  external_signature = none;
  version = some 1;
}

abbrev new_block : Block
new_block = block_with (codes "file" ∷ [])

abbrev extended : Biscuit
extended = with_block toy digest marshal token new_block signed_block key32

appended : append toy digest marshal [] new_block none token ≡ ok extended
unfolding append with_authority biscuit_go.Crypto.new_signer_from_pb generate_next
    biscuit_go.Prelude.map_run biscuit_go.Crypto.sign
appended = refl

authorizer_for-append_example :
    (authorizer_for toy (ed25519_public_key key32) extended ≡ ok tt) × IsConsistent extended
unfolding with_authority
authorizer_for-append_example =
    authorizer_for-append toy digest marshal toy-IsSound (ed25519_public_key key32) [] new_block
      token extended refl verified appended

revocation_ids-append_example :
    ((signature : Bytes) × (revocation_ids extended ≡ revocation_ids token ++ signature ∷ []))
    × (block_count extended ≡ suc (block_count token))
revocation_ids-append_example =
    revocation_ids-append toy digest marshal [] new_block none token extended appended

authorizer_for_source-append_example :
    authorizer_for_source toy (with_root_public_keys ((3, key32) ∷ []) none) extended
    ≡ err Error.no_public_key
authorizer_for_source-append_example =
    authorizer_for_source-append toy digest marshal ((3, key32) ∷ []) [] new_block none token
      extended appended

authorizer_for_iff_example :
    (authorizer_for toy (ed25519_public_key key32) extended ≡ ok tt)
    ↔ IsVerified toy (ed25519_public_key key32) extended
authorizer_for_iff_example = authorizer_for_iff toy (ed25519_public_key key32) extended

-- The proof of the sealed token.
abbrev last_signature : Bytes
last_signature = key32 ++ sealed_block_signature_payload 0 (1 ∷ []) key32 signed_block.signature

abbrev sealed_token : Biscuit
sealed_token = with_proof extended last_signature

sealed : seal toy extended ≡ ok sealed_token
unfolding seal with_block with_authority biscuit_go.Crypto.new_signer_from_pb biscuit_go.Crypto.sign
sealed = refl

authorizer_for-seal_example :
    (authorizer_for toy (ed25519_public_key key32) sealed_token ≡ ok tt)
    × IsConsistent sealed_token
    × (revocation_ids sealed_token ≡ revocation_ids extended)
    × (seal toy sealed_token ≡ err Error.sealed)
    × (append toy digest marshal [] new_block none sealed_token ≡ err Error.sealed)
authorizer_for-seal_example =
    authorizer_for-seal toy toy-IsSound (ed25519_public_key key32) extended sealed_token digest
      marshal [] new_block none authorizer_for-append_example.1 authorizer_for-append_example.0
      sealed

-- The contents that a third party signs for the token.
abbrev contents : ThirdPartyBlockContents
contents = record {
  payload = 1 ∷ [];
  external_signature = some (record {
    signature = some (key32 ++ external_signature_payload_v1 (1 ∷ []) signed_authority.signature 1);
    public_key = some (record { algorithm = 0; key = key32 });
  });
}

requested : third_party_block_request token ≡ ok (signed_authority.signature)
unfolding third_party_block_request with_authority
requested = refl

last : last_block token ≡ ok signed_authority
unfolding last_block with_authority
last = refl

request_signed :
    sign_request toy digest marshal
      (ed25519_private_key key64)
      (new_block_builder [])
      signed_authority.signature
    ≡ ok contents
unfolding sign_request biscuit_go.Surface.Each.convert_each new_block_builder
    biscuit_go.Prelude.map_run biscuit_go.Crypto.sign
request_signed = refl

verify_external_signature-sign_request_example :
    verify_external_signature toy (1 ∷ []) signed_authority.signature contents.external_signature 1
    ≡ ok tt
unfolding with_authority
verify_external_signature-sign_request_example =
    verify_external_signature-sign_request toy toy-IsSound digest marshal
      (ed25519_private_key key64) (new_block_builder []) token signed_authority
      signed_authority.signature contents refl last requested request_signed

abbrev raw_nine : Bytes
raw_nine = replicate 31 0 ++ 9 ∷ []

generated : generate_next toy 1 [] ≡ ok (9 ∷ [], raw_nine)
unfolding generate_next biscuit_go.Prelude.little_endian
generated = refl

-- A container with a block of a third party behind its authority block.
abbrev plain_signed : SignedBlock
plain_signed = record {
  block = 1 ∷ [];
  next_key = some (record { algorithm = 0; key = key32 });
  signature = key64;
  external_signature = none;
  version = some 1;
}

abbrev third_signed : SignedBlock
third_signed = record {
  block = 1 ∷ [];
  next_key = some (record { algorithm = 0; key = key32 });
  signature = key64;
  external_signature = contents.external_signature;
  version = some 1;
}

abbrev container : Container
container = record {
  root_key_id = none;
  authority = plain_signed;
  blocks = third_signed ∷ [];
  proof = next_secret (some key32);
}

abbrev third_block : Block
third_block = record {
  symbols = codes "file" ∷ [];
  public_keys = none;
  facts = [];
  scopes = [];
  rules = [];
  checks = [];
  context = [];
  version = 5;
  external_signature = some (record {
    public_key = record { key = key32; algorithm = 0 };
    signature = some (key32 ++ external_signature_payload_v1 (1 ∷ []) signed_authority.signature 1);
  });
}

abbrev loaded : Biscuit
loaded = record {
  authority = new_block;
  blocks = third_block ∷ [];
  symbols = codes "file" ∷ [];
  public_keys = record { key = key32; algorithm = 0 } ∷ [];
  container = container;
  signature_registry = (0, new_hash_set ⦃e = block_element digest⦄ (1 ∷ [])) ∷ [];
}

parsed : unmarshal digest parse [] container ≡ ok loaded
unfolding unmarshal biscuit_go.Prelude.map_run biscuit_go.Symbol.insert biscuit_go.Origin.register
    biscuit_go.Symbol.position biscuit_go.Symbol.default_symbols bytes_eq
parsed = refl

unmarshal_symbols_example : loaded.symbols ≡ extend_all [] (new_block ∷ third_block ∷ [])
unmarshal_symbols_example = unmarshal_symbols digest parse [] container loaded parsed
