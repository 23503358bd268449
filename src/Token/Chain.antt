-- ===== src/Token/Chain.antt =====
-- biscuit.go: what `authorizerFor` has checked of the blocks when it succeeds.
use biscuit_go.Prelude.{
  ℕ, some, List, [], ◌∷◌, ◌++◌, ◌≡◌, refl, sym, ap, subst, ◌∙◌, ◌↔◌, Bytes, length, get_elem?, ok,
  ok->>=, arith, ok-pair,
}
use biscuit_go.Block.{Block, get_block_signature_version}
use biscuit_go.Crypto.{
  Library, Verifier, RootPublicKey, verify, new_verifier_from_pb, new_sig_verifier,
}
use biscuit_go.Token.{SignedBlock, Biscuit, get_algorithm, get_key, last_block, last_signed}
use biscuit_go.Token.Covered.{
  CoveredAuthority, CoveredBlock, HasExternal, authority_payload-Covered, block_payload-Covered,
  authority_payload_unique, block_payload_unique, check_external-HasExternal,
  HasExternal-check_external, get_block_signature_version-0_or_1,
}
use biscuit_go.Token.Proved.{HasProof, verify_proof-HasProof, HasProof-verify_proof}
use biscuit_go.Token.Verify.{
  block_payload, check_external, verify_block, verify_blocks, verify_authority, authority_payload,
  authorizer_for,
}

-- The last of a block and those after it.
abbrev pub final : SignedBlock → List SignedBlock → SignedBlock
final a [] = a
final a (s ∷ ss) = final s ss

pub final-snoc : (a s : SignedBlock) (ss : List SignedBlock) → final a (ss ++ s ∷ []) ≡ s
final-snoc a s [] = refl
final-snoc a s (t ∷ ss) = final-snoc t s ss

get_elem?-final :
    (a s : SignedBlock) (ss : List SignedBlock)
    → get_elem? (s ∷ ss) (length ss) ≡ some (final a (s ∷ ss))
get_elem?-final a s [] = refl
get_elem?-final a s (t ∷ ss) = get_elem?-final s t ss

-- A token has as many blocks as signed blocks.
abbrev pub IsConsistent : Biscuit → Type 0
IsConsistent b = length b.blocks ≡ length b.container.blocks

last_signed-final :
    (a : SignedBlock) (ss : List SignedBlock) (bs : List Block)
    → length bs ≡ length ss
    → last_signed a ss bs ≡ ok (final a ss)
unfolding last_signed
last_signed-final a [] [] h = refl
last_signed-final a (s ∷ ss) [] h = absurd (omega arith)
last_signed-final a [] (b ∷ bs) h = absurd (omega arith)
last_signed-final a (s ∷ ss) (b ∷ bs) h =
    let same : length bs ≡ length ss = omega arith in
    let found : get_elem? (s ∷ ss) (length bs) ≡ some (final a (s ∷ ss)) =
      ap (get_elem? (s ∷ ss)) same ∙ get_elem?-final a s ss in
    rw (found, last_signed) refl

pub last_block-final :
    (b : Biscuit)
    → IsConsistent b
    → last_block b ≡ ok (final b.container.authority b.container.blocks)
unfolding last_block
last_block-final b h = last_signed-final b.container.authority b.container.blocks b.blocks h

module _ (lib : Library) where
  -- The verifier of the key that a block names for the next.
  abbrev pub NextVerifier : SignedBlock → Verifier → Type 0
  NextVerifier s v = new_verifier_from_pb lib (get_algorithm s.next_key) (get_key s.next_key) ≡ ok v

  -- The block has a supported version, a signature that the verifier accepts over what the version
  -- has it cover, and an external signature, if it has one, that its own key verifies.
  pub record IsSigned (v : Verifier) (previous : Bytes) (s : SignedBlock) : Type 0 where
    pub version : ℕ
    pub payload : Bytes
    pub supported : get_block_signature_version s.version ≡ ok version
    pub covered : CoveredBlock previous s version payload
    pub signed : verify lib v payload s.signature ≡ ok tt
    pub external : HasExternal lib previous s version

  pub checked-IsSigned :
      (v : Verifier) (previous : Bytes) (s : SignedBlock) (version : ℕ)
      → get_block_signature_version s.version ≡ ok version
      → verify lib v (block_payload previous s version) s.signature ≡ ok tt
      → check_external lib previous s version ≡ ok tt
      → IsSigned v previous s
  checked-IsSigned v previous s version supported signed external = record {
    version = version;
    payload = block_payload previous s version;
    supported = supported;
    covered =
        block_payload-Covered previous s version
          (get_block_signature_version-0_or_1 s.version version supported);
    signed = signed;
    external = check_external-HasExternal lib previous s version external;
  }

  pub verify_block-ok :
      (v w : Verifier) (p q : Bytes) (s : SignedBlock)
      → verify_block lib v p s ≡ ok (w, q)
      → IsSigned v p s × NextVerifier s w × (q ≡ s.signature)
  unfolding verify_block
  verify_block-ok v w p q s h =
      let (version, supported, h1) = ok->>= _ _ _ h in
      let (_, signed, h2) = ok->>= _ _ _ h1 in
      let (_, external, h3) = ok->>= _ _ _ h2 in
      let (next, key, h4) = ok->>= _ _ _ h3 in
      let (ew, eq) = ok-pair h4 in
      (checked-IsSigned v p s version supported signed external, key ∙ ap ok ew, sym eq)

  -- The blocks are signed one after the other, from a verifier and a signature on, up to a verifier.
  pub data IsChain : Verifier → Bytes → List SignedBlock → Verifier → Type 0 where
    chain_end : (v : Verifier) (p : Bytes) → IsChain v p [] v
    chain_block :
        (v w u : Verifier) (p : Bytes) (s : SignedBlock) (ss : List SignedBlock)
        → IsSigned v p s
        → NextVerifier s w
        → IsChain w s.signature ss u
        → IsChain v p (s ∷ ss) u

  pub verify_blocks-ok :
      (v w : Verifier) (p q : Bytes) (ss : List SignedBlock) (a : SignedBlock)
      → verify_blocks lib v p ss ≡ ok (w, q)
      → NextVerifier a v
      → p ≡ a.signature
      → IsChain v p ss w × NextVerifier (final a ss) w × (q ≡ (final a ss).signature)
  unfolding verify_blocks
  verify_blocks-ok v w p q [] a h n e =
      let (ew, eq) = ok-pair h in (rw (← ew) (chain_end v p), n ∙ ap ok ew, sym eq ∙ e)
  verify_blocks-ok v w p q (s ∷ ss) a h n e =
      let ((v1, p1), first, rest) = ok->>= _ _ _ h in
      let (signed, next, ep) = verify_block-ok v v1 p p1 s first in
      let (chain, last, eq) = verify_blocks-ok v1 w p1 q ss s rest next ep in
      (chain_block v v1 w p s ss signed next (rw (← ep) chain), last, eq)

  verify_authority-ok :
      (root : RootPublicKey) (a : SignedBlock) (v : Verifier) (p : Bytes)
      → verify_authority lib root a ≡ ok (v, p)
      → NextVerifier a v
        × (p ≡ a.signature)
        × ((r : Verifier) × (version : ℕ) × (new_sig_verifier root ≡ ok r)
            × (get_block_signature_version a.version ≡ ok version)
            × (verify lib r (authority_payload a version) a.signature ≡ ok tt))
  unfolding verify_authority
  verify_authority-ok root a v p h =
      let (r, known, h1) = ok->>= _ _ _ h in
      let (version, supported, h2) = ok->>= _ _ _ h1 in
      let (_, signed, h3) = ok->>= _ _ _ h2 in
      let (next, key, h4) = ok->>= _ _ _ h3 in
      let (ev, ep) = ok-pair h4 in (key ∙ ap ok ev, sym ep, (r, version, known, supported, signed))

  -- What `authorizerFor` has checked: under the root key, along the blocks, and of the proof.
  pub record IsVerified (root : RootPublicKey) (b : Biscuit) : Type 0 where
    pub root_verifier : Verifier
    pub version : ℕ
    pub payload : Bytes
    pub root_known : new_sig_verifier root ≡ ok root_verifier
    pub supported : get_block_signature_version b.container.authority.version ≡ ok version
    pub covered : CoveredAuthority b.container.authority version payload
    pub signed : verify lib root_verifier payload b.container.authority.signature ≡ ok tt
    pub first : Verifier
    pub last : Verifier
    pub first_next : NextVerifier b.container.authority first
    pub chain : IsChain first b.container.authority.signature b.container.blocks last
    pub proved : HasProof lib last b

  pub authorizer_for-IsVerified :
      (root : RootPublicKey) (b : Biscuit) → authorizer_for lib root b ≡ ok tt → IsVerified root b
  unfolding authorizer_for
  authorizer_for-IsVerified root b h =
      let ((v, p), begun, h1) = ok->>= _ _ _ h in
      let ((w, q), followed, proved) = ok->>= _ _ _ h1 in
      let (next, ep, (r, version, known, supported, signed)) =
        verify_authority-ok root b.container.authority v p begun in
      let (chain, last, eq) =
        verify_blocks-ok v w p q b.container.blocks b.container.authority followed next ep in
      record {
        root_verifier = r;
        version = version;
        root_known = known;
        payload = authority_payload b.container.authority version;
        supported = supported;
        covered =
            authority_payload-Covered b.container.authority version
              (get_block_signature_version-0_or_1 b.container.authority.version version supported);
        signed = signed;
        first = v;
        last = w;
        first_next = next;
        chain = rw (← ep) chain;
        proved = verify_proof-HasProof lib w b proved;
      }

  verify_block-signed :
      (v w : Verifier) (p : Bytes) (s : SignedBlock)
      → IsSigned v p s
      → NextVerifier s w
      → verify_block lib v p s ≡ ok (w, s.signature)
  unfolding verify_block
  verify_block-signed v w p s i n =
      let signed =
        subst (λ x. verify lib v x s.signature ≡ ok tt)
          (block_payload_unique p s i.version i.payload i.covered) i.signed in
      let external = HasExternal-check_external lib p s i.version i.external in
      rw (i.supported, signed, external, n) refl

  abbrev last_signature : Bytes → List SignedBlock → Bytes
  last_signature p [] = p
  last_signature p (s ∷ ss) = last_signature s.signature ss

  verify_blocks-chain :
      (v w : Verifier) (p : Bytes) (ss : List SignedBlock)
      → IsChain v p ss w
      → verify_blocks lib v p ss ≡ ok (w, last_signature p ss)
  unfolding verify_blocks
  verify_blocks-chain v w p [] (chain_end _ _) = refl
  verify_blocks-chain v w p (s ∷ ss) (chain_block _ v1 _ _ _ _ signed next chain) =
      rw (verify_block-signed v v1 p s signed next, verify_blocks-chain v1 w s.signature ss chain)
        refl

  -- A token verifies exactly if its authority block is signed by the root key, each later block is
  -- signed by the key that the block before it names, the external signatures are verified by their
  -- own keys, in version 1 and over the block and the signature before it, and the proof is the
  -- private key of the key that the last block names, or a signature under that key over the last
  -- block, its next key and its signature. In version 0 a signature covers the block and its next
  -- key; in version 1 it covers these, the version and the algorithm as named sections, and for a
  -- later block also the signature before it and its external signature.
  pub authorizer_for_iff :
      (root : RootPublicKey) (b : Biscuit) → (authorizer_for lib root b ≡ ok tt) ↔ IsVerified root b
  unfolding authorizer_for verify_authority
  authorizer_for_iff root b = (
    authorizer_for-IsVerified root b,
    λ i.
        let signed =
          subst (λ x. verify lib i.root_verifier x b.container.authority.signature ≡ ok tt)
            (authority_payload_unique b.container.authority i.version i.payload i.covered)
            i.signed in
        rw
          (
            i.root_known,
            i.supported,
            signed,
            i.first_next,
            verify_blocks-chain i.first i.last b.container.authority.signature b.container.blocks
                i.chain,
            HasProof-verify_proof lib i.last b i.proved,
          )
          refl,
  )

  pub IsChain-snoc :
      (v w u : Verifier) (p : Bytes) (ss : List SignedBlock) (a s : SignedBlock)
      → IsChain v p ss w
      → p ≡ a.signature
      → IsSigned w (final a ss).signature s
      → NextVerifier s u
      → IsChain v p (ss ++ s ∷ []) u
  IsChain-snoc v w u p [] a s (chain_end _ _) e i n =
      chain_block v u u p s [] (rw e i) n (chain_end u s.signature)
  IsChain-snoc v w u p (t ∷ ss) a s (chain_block _ v1 _ _ _ _ signed next chain) e i n =
      chain_block v v1 u p t (ss ++ s ∷ []) signed next
        (IsChain-snoc v1 w u t.signature ss t s chain refl i n)

  -- The last verifier of a chain is that of the key that the last block names.
  pub IsChain-final :
      (v w : Verifier) (p : Bytes) (ss : List SignedBlock) (a : SignedBlock)
      → IsChain v p ss w
      → NextVerifier a v
      → NextVerifier (final a ss) w
  IsChain-final v w p [] a (chain_end _ _) n = n
  IsChain-final v w p (t ∷ ss) a (chain_block _ v1 _ _ _ _ signed next chain) n =
      IsChain-final v1 w t.signature ss t chain next
