-- ===== src/Conversion/RoundTrip.antt =====
-- Round trips of the conversions of converters_v2.go.
use biscuit_go.Prelude.{ℕ, ◌^◌, ◌<◌, ◌≡◌, refl, ap, ◌↔◌, ok, pos, to_uint64, wrap_int64, arith}
use biscuit_go.Expression.{BinaryOpFunc}
use biscuit_go.Origin.{Scope, authority, previous, public_key}
use biscuit_go.Conversion.{
  OpBinaryKind, binary_to_proto, binary_from_proto, scope_to_proto, scope_from_proto,
}

-- A kind of binary operation of the schema is read as an operation exactly if the operation is
-- written as that kind.
pub binary_from_proto_iff :
    (k : OpBinaryKind) (f : BinaryOpFunc) → (binary_from_proto k ≡ ok f) ↔ (binary_to_proto f ≡ k)
unfolding binary_from_proto binary_to_proto
binary_from_proto_iff k f = (λ h. ground arith, λ h. ground arith)

-- The scope names a key by a 64-bit index, or names none and has no index.
pub data IsWritable : Scope → Type 0 where
  authority_scope : IsWritable (record { scope_type = authority; public_key_table_index = 0 })
  previous_scope : IsWritable (record { scope_type = previous; public_key_table_index = 0 })
  key_scope :
      (k : ℕ)
      → k < 2 ^ 64
      → IsWritable (record { scope_type = public_key; public_key_table_index = k })

wrap-unwrap : (k : ℕ) → k < 2 ^ 64 → to_uint64 (wrap_int64 (pos k)) ≡ k
unfolding wrap_int64
wrap-unwrap k h = ground arith

-- A scope that names a key by a 64-bit index, or that names none and has the index 0, is read back
-- as it was written.
pub scope_from_proto-scope_to_proto :
    (s : Scope) → IsWritable s → scope_from_proto (scope_to_proto s) ≡ ok s
unfolding scope_from_proto scope_to_proto
scope_from_proto-scope_to_proto _ authority_scope = refl
scope_from_proto-scope_to_proto _ previous_scope = refl
scope_from_proto-scope_to_proto _ (key_scope k h) =
    ap (λ i. ok (record { scope_type = public_key; public_key_table_index = i })) (wrap-unwrap k h)
