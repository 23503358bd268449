-- ===== src/Token/Payload.antt =====
-- biscuit.go: the bytes that are signed.
use biscuit_go.Prelude.{ℕ, none, some, [], ◌∷◌, ◌++◌, Bytes, Slice, codes, little_endian}

-- A word between two zero bytes.
abbrev pub tag : Bytes → Bytes
tag word = 0 ∷ (word ++ (0 ∷ []))

unfoldable pub block_signature_payload_v0 : ℕ → Bytes → Bytes → Bytes
block_signature_payload_v0 next_alg raw_block next_pub_key =
    raw_block ++ (little_endian 4 next_alg ++ next_pub_key)

unfoldable pub sealed_block_signature_payload : ℕ → Bytes → Bytes → Bytes → Bytes
sealed_block_signature_payload next_alg raw_block next_pub_key signature =
    raw_block ++ (little_endian 4 next_alg ++ (next_pub_key ++ signature))

unfoldable pub authority_block_signature_payload_v1 : ℕ → Bytes → Bytes → ℕ → Bytes
authority_block_signature_payload_v1 next_alg raw_block next_pub_key version =
    (tag (codes "BLOCK") ++ (tag (codes "VERSION") ++ little_endian 4 version))
    ++ ((tag (codes "PAYLOAD") ++ raw_block)
        ++ ((tag (codes "ALGORITHM") ++ little_endian 4 next_alg)
            ++ (tag (codes "NEXTKEY") ++ next_pub_key)))

-- `if externalSignature != nil`.
unfoldable pub external_part : Slice ℕ → Bytes
external_part none = []
external_part (some s) = tag (codes "EXTERNALSIG") ++ s

unfoldable pub block_signature_payload_v1 : ℕ → Bytes → Bytes → Slice ℕ → Bytes → ℕ → Bytes
unfolding external_part
block_signature_payload_v1 next_alg raw_block next_pub_key external previous version =
    (tag (codes "BLOCK") ++ (tag (codes "VERSION") ++ little_endian 4 version))
    ++ ((tag (codes "PAYLOAD") ++ raw_block)
        ++ ((tag (codes "ALGORITHM") ++ little_endian 4 next_alg)
            ++ ((tag (codes "NEXTKEY") ++ next_pub_key)
                ++ ((tag (codes "PREVSIG") ++ previous) ++ external_part external))))

unfoldable pub external_signature_payload_v1 : Bytes → Bytes → ℕ → Bytes
external_signature_payload_v1 payload previous version =
    (tag (codes "EXTERNAL") ++ (tag (codes "VERSION") ++ little_endian 4 version))
    ++ ((tag (codes "PAYLOAD") ++ payload) ++ (tag (codes "PREVSIG") ++ previous))
